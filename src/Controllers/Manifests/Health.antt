-- ===== src/Controllers/Manifests/Health.antt =====
-- dashboards/health/serverless_health_dashboard_setup.go
use serverless_operator.Common.{
  String, ◌==◌, none, some, List, [], ◌∷◌, if◌then◌else◌, found, not_found, failed, ok, err, wrap,
}
use serverless_operator.Common.Run.{Run, ◌>>=◌, fail, lift, wrapping}
use serverless_operator.Transform.Spec.{Unstructured}
use serverless_operator.Controllers.Manifests.{
  Library, config_managed_namespace, owner_annotations, get_dashboards_path, message,
}

module _ {C X : Type 0} (library : Library C X) where
  -- The transformers run twice, on the manifest and on what they give.
  unfoldable pub manifest : String → String → Run X (List (Unstructured C))
  manifest deployment_name namespace =
      let transforms =
        owner_annotations "operator.knative.openshift.io/ownerName"
          "operator.knative.openshift.io/ownerNamespace" deployment_name namespace
        ∷ library.inject_namespace config_managed_namespace
        ∷ [] in
      do
        resources ←
            wrapping "failed to read dashboard manifest: "
              (lift (library.load (get_dashboards_path library "grafana-dash-knative-health.yaml")))
        once ←
            wrapping "unable to transform role and roleBinding serviceMonitor manifest "
              (lift (library.transform transforms resources))
        wrapping "failed to transform kn dashboard resources manifest "
            (lift (library.transform transforms once))

  unfoldable pub install : String → Run X (Unit {0})
  unfolding manifest
  install namespace = elim (library.lookup_env "DEPLOYMENT_NAME") [
    | none ↦ fail (message "the environment variable must be set")
    | some deployment_name ↦
        wrapping "failed to load dashboard manifest: " (manifest deployment_name namespace)
        >>= λ resources. wrapping "failed to apply dashboard manifest: " (library.apply resources)
  ]

  unfoldable pub install_health_dashboard : Run X (Unit {0})
  install_health_dashboard x =
      let namespace = library.getenv "NAMESPACE" in
      if namespace == ""
      then (x, err (message "NAMESPACE not provided via environment"))
      else elim (library.get_namespace config_managed_namespace x) [
        | not_found e ↦ (x, ok tt)
        | failed e ↦ (x, err (wrap "failed to get namespace: " e))
        | found _ ↦ install namespace x
      ]
