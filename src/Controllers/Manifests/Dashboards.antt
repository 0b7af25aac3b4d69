-- ===== src/Controllers/Manifests/Dashboards.antt =====
-- dashboards/knative_dashboard_setup.go
use serverless_operator.Common.{String, List, [], ◌∷◌, found, not_found, failed, ok, err, wrap}
use serverless_operator.Common.Run.{Run, ◌>>=◌, lift, wrapping}
use serverless_operator.Transform.Spec.{Unstructured, Transformer}
use serverless_operator.Controllers.Manifests.{
  Library, config_managed_namespace, get_dashboards_path,
}

module _ {C X : Type 0} (library : Library C X) where
  unfoldable pub manifest : String → Transformer C → Run X (List (Unstructured C))
  manifest path owner = do
    resources ← wrapping "failed to read dashboards manifests: " (lift (library.load path))
    wrapping "failed to transform kn dashboard resource manifests: " (
        lift (
          library.transform (library.inject_namespace config_managed_namespace ∷ owner ∷ [])
            resources))

  -- what is done where the namespace of the dashboards is there
  unfoldable pub install : String → Transformer C → Run X (Unit {0})
  unfolding manifest
  install sub_path owner = do
    resources ←
        wrapping "failed to load dashboards manifests: "
          (manifest (get_dashboards_path library sub_path) owner)
    wrapping "failed to apply dashboards manifests: " (library.apply resources)

  unfoldable pub apply : String → Transformer C → Run X (Unit {0})
  apply sub_path owner x = elim (library.get_namespace config_managed_namespace x) [
    | not_found e ↦ (x, ok tt)
    | failed e ↦ (x, err (wrap "failed to get namespace: " e))
    | found _ ↦ install sub_path owner x
  ]

  unfoldable pub delete : String → Transformer C → Run X (Unit {0})
  unfolding manifest
  delete sub_path owner = do
    resources ←
        wrapping "failed to load dashboards manifests: "
          (manifest (get_dashboards_path library sub_path) owner)
    wrapping "failed to delete dashboards manifests: " (library.delete resources)
