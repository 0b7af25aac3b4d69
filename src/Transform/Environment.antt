-- ===== src/Transform/Environment.antt =====
-- deployment.go (without the checksum) and min_version.go of openshift-knative-operator/pkg/common.
pub mod Laws
use serverless_operator.Common.{
  String, Bool, true, false, ◌&&◌, ◌||◌, ◌==◌, Option, none, some, List, [], ◌∷◌, ◌++◌,
  if◌then◌else◌, Result, ok, err,
}
use serverless_operator.Transform.Spec.{
  EnvVar, Container, Workload, Unstructured, Scheme, Transformer, converting, on_containers,
}

-- The value is set where the name is there, and appended where it is not.
unfoldable pub upsert : List EnvVar → EnvVar → List EnvVar
upsert [] val = val ∷ []
upsert (e ∷ es) val =
    let rest = upsert es val in
    if e.name == val.name then record e { value = val.value } ∷ es else e ∷ rest

-- the loop over the variables
unfoldable pub upsert_all : List EnvVar → List EnvVar → List EnvVar
unfolding upsert
upsert_all es [] = es
upsert_all es (val ∷ vals) = upsert_all (upsert es val) vals

unfoldable pub inject_into_container : String → List EnvVar → Container → Container
unfolding upsert_all
inject_into_container container_name envs c =
    if c.name == container_name then record c { env = upsert_all c.env envs } else c

abbrev pub fake_kubernetes_min_version : String
fake_kubernetes_min_version = "v1.0.0"

abbrev pub min_version_var : EnvVar
min_version_var = record {
  name = "KUBERNETES_MIN_VERSION";
  value = fake_kubernetes_min_version;
  value_from = none;
}

abbrev pub with_min_version : Container → Container
with_min_version c = record c { env = c.env ++ (min_version_var ∷ []) }

module _ {C : Type 0} (scheme : Scheme C) where
  unfoldable pub transform_deployment : String → (Workload → Result String Workload) → Transformer C
  unfolding converting
  transform_deployment name f u =
      if u.kind == "Deployment" && u.name == name then converting scheme f u else ok u

  unfoldable pub inject_environment_into_deployment : String → String → List EnvVar → Transformer C
  unfolding transform_deployment inject_into_container
  inject_environment_into_deployment deployment_name container_name envs =
      transform_deployment deployment_name
        (λ deploy. ok (on_containers (inject_into_container container_name envs) deploy))

  unfoldable pub inject_common_environment : Transformer C
  unfolding converting
  inject_common_environment u =
      if u.kind == "StatefulSet" || u.kind == "Deployment"
      then converting scheme (λ w. ok (on_containers with_min_version w)) u
      else ok u
