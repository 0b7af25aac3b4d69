-- ===== src/Istio/Policies.antt =====
-- GetServiceMeshNetworkPolicy of pkg/istio/eventingistio/istio.go: the network policies of Eventing with a
-- service mesh.
use serverless_operator.Common.{String, none, some, List, [], ◌∷◌, Result, ok, ◌>>=◌}
use serverless_operator.Serving.Policies.{NetworkPolicy}

abbrev pub webhook_policy : String → String → String → NetworkPolicy
webhook_policy name key value = record {
  name = name;
  namespace = "knative-eventing";
  labels = [];
  pod_selector = (key, value) ∷ [];
  policy_types = [];
  ingress = none ∷ [];
}

unfoldable pub service_mesh_network_policies : List NetworkPolicy
service_mesh_network_policies =
    record {
      name = "allow-from-openshift-monitoring";
      namespace = "knative-eventing";
      labels = [];
      pod_selector = [];
      policy_types = [];
      ingress = some (("kubernetes.io/metadata.name", "openshift-monitoring") ∷ []) ∷ [];
    }
    ∷ webhook_policy "allow-eventing-webhook" "app.kubernetes.io/component" "eventing-webhook"
    ∷ webhook_policy "allow-imc-webhook" "app.kubernetes.io/component" "imc-controller"
    ∷ webhook_policy "allow-kafka-webhook-eventing" "app" "kafka-webhook-eventing"
    ∷ []

-- `convert` is the converter of one policy, and `manifest_from` is mf.ManifestFrom of a slice.
module _ {U : Type 0} (convert : NetworkPolicy → Result String U)
    (manifest_from : List U → Result String (List U)) where
  unfoldable pub to_unstructured : List NetworkPolicy → Result String (List U)
  to_unstructured [] = ok []
  to_unstructured (p ∷ ps) = do u ← convert p; us ← to_unstructured ps; ok (u ∷ us)

  unfoldable pub get_service_mesh_network_policy : Result String (List U)
  unfolding to_unstructured service_mesh_network_policies
  get_service_mesh_network_policy = do
    us ← to_unstructured service_mesh_network_policies
    manifest_from us
