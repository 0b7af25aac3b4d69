-- ===== src/Controllers/Manifests.antt =====
-- What the controllers install from manifests: the dashboards (dashboards/knative_dashboard_setup.go
-- and dashboards/health/serverless_health_dashboard_setup.go) and the quick starts (quickstart.go).
pub mod Dashboards
pub mod Health
pub mod Quickstart
use serverless_operator.Common.{
  String, ◌==◌, false, Option, none, some, List, [], ◌∷◌, if◌then◌else◌, Dict, Answer, found,
  not_found, failed, Result, ok, err, Error, wrap, ◌<>◌,
}
use serverless_operator.Common.Run.{Run, ◌>>=◌, ◌>>◌, done, fail, lift, wrapping}
use serverless_operator.Transform.Spec.{Unstructured, Transformer}
use serverless_operator.Transform.Metadata.{set_annotations}

-- The manifest library, the environment, and the API server as far as these functions call them. C is
-- the content of a resource, X the state of the cluster.
pub record Library (C X : Type 0) : Type 0 where
  -- mfc.NewManifest of a path
  pub load : String → Result Error (List (Unstructured C))
  pub transform :
      List (Transformer C) → List (Unstructured C) → Result Error (List (Unstructured C))
  pub inject_namespace : String → Transformer C
  pub apply : List (Unstructured C) → Run X (Unit {0})
  pub delete : List (Unstructured C) → Run X (Unit {0})
  pub get_namespace : String → X → Answer (Unit {0})
  -- os.Getenv, where a variable that is not set is empty, and os.LookupEnv
  pub getenv : String → String
  pub lookup_env : String → Option String

abbrev pub config_managed_namespace : String
config_managed_namespace = "openshift-config-managed"

-- An owner: the keys of its annotations, its name and its namespace.
abbrev pub owner_annotations : {C : Type 0} → String → String → String → String → Transformer C
unfolding set_annotations
owner_annotations name_key namespace_key name namespace =
    set_annotations ((name_key, name) ∷ (namespace_key, namespace) ∷ [])

abbrev pub message : String → Error
message text = record { message = text; no_match = false }

module _ {C X : Type 0} (library : Library C X) where
  abbrev pub get_dashboards_path : String → String
  get_dashboards_path sub_path = library.getenv "DASHBOARDS_ROOT_MANIFEST_PATH" <> "/" <> sub_path
