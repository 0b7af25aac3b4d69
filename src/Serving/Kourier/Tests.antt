-- ===== src/Serving/Kourier/Tests.antt =====
-- The resources of a release at concrete values.
use serverless_operator.Common.{
  ◌≡◌, refl, Bool, true, false, none, some, [], ◌∷◌, ok, err, lookup_or, insert, replace_first,
  parse_int64,
}
use serverless_operator.Config.{config_map}
use serverless_operator.Transform.Spec.{Unstructured}
use serverless_operator.Serving.Kourier.{
  KourierLibrary, kourier_namespace, with_address, kourier_env_values, env_var,
  override_kourier_namespace, set_grace_period,
}

abbrev library : KourierLibrary Bool Bool
library = record {
  scheme = record {
    to_typed = λ u. err "no such kind";
    from_typed = λ w u. ok u;
    reset_creation_timestamp = λ u. u;
  };
  to_config_map = λ u. ok none;
  from_config_map = λ m u. ok u;
  to_ports = λ u. ok [];
  from_ports = λ ports u. ok u;
  to_grace_period = λ u. ok none;
  from_grace_period = λ n u. ok u;
  clear_owner_references = λ c. false;
  inject_namespace = λ ns u. ok (record u { namespace = ns });
  cluster_domain = "cluster.local";
  to_lower = λ s. s;
}

bootstrap :
    with_address library "knative-serving"
      (some (("envoy-bootstrap.yaml", "address: net-kourier-controller.knative-serving") ∷ []))
    ≡ ok (
        (
          "envoy-bootstrap.yaml",
          "address: net-kourier-controller.knative-serving-ingress.svc.cluster.local.",
        )
        ∷ [])
unfolding lookup_or insert replace_first kourier_namespace
bootstrap = refl

abbrev gateway : Unstructured Bool
gateway = record {
  kind = "Deployment";
  api_version = "apps/v1";
  name = "3scale-kourier-gateway";
  namespace = "knative-serving";
  labels = ("networking.knative.dev/ingress-provider", "kourier") ∷ [];
  annotations = [];
  content = true;
}

moved :
    override_kourier_namespace library "knative-serving" "main" gateway
    ≡ ok (record gateway {
      namespace = "knative-serving-ingress";
      labels =
          ("networking.knative.dev/ingress-provider", "kourier")
          ∷ ("serving.knative.openshift.io/ownerNamespace", "knative-serving")
          ∷ ("serving.knative.openshift.io/ownerName", "main")
          ∷ [];
      content = false;
    })
unfolding override_kourier_namespace lookup_or insert kourier_namespace
moved = refl

encrypted :
    kourier_env_values library (("network", ("system-internal-tls", "enabled") ∷ []) ∷ [])
    ≡ env_var "KOURIER_HTTPOPTION_DISABLED" "true"
      ∷ env_var "SERVING_NAMESPACE" "knative-serving"
      ∷ env_var "CERTS_SECRET_NAMESPACE" "openshift-ingress"
      ∷ env_var "CERTS_SECRET_NAME" "router-certs-default"
      ∷ []
unfolding kourier_env_values config_map lookup_or
encrypted = refl

abbrev activator : Unstructured Bool
activator = record gateway { name = "activator" }

grace :
    (set_grace_period library "600" activator ≡ ok activator)
    × (set_grace_period library "10m" activator
        ≡ err "strconv.ParseInt: parsing \"10m\": invalid syntax")
unfolding set_grace_period parse_int64
grace = (refl, refl)
