-- ===== src/Eventing/Tests.antt =====
-- A KnativeEventing without Istio.
use serverless_operator.Common.{
  String, ◌≡◌, refl, Bool, true, false, none, some, List, [], ◌∷◌, ◌==◌, has_key, ok, err,
  if◌then◌else◌, lookup, lookup_or, insert,
}
use serverless_operator.Config.{
  config_value, config_map, configure, configure_if_unset, ensure, write,
}
use serverless_operator.Config.Memory.{ensure_container_memory_limit}
use serverless_operator.Monitoring.{
  Namespace, should_enable_monitoring, reconcile_monitoring,
  reconcile_monitoring_label_on_namespace, label_namespace,
}
use serverless_operator.Serving.Extension.Laws.{unmonitored}
use serverless_operator.Istio.{
  scale_istio_controller, is_enabled, get_features_config, found_controller,
}
use serverless_operator.Istio.Laws.{or_else, find_override}
use serverless_operator.Istio.Policies.{
  service_mesh_network_policies, to_unstructured, get_service_mesh_network_policy,
}
use serverless_operator.Eventing.{
  EventingSpec, State, EventingExtension, workload_overrides, filled, eventing_defaulted,
  reconcile_monitoring_for_eventing, reconcile_eventing_extension, delete_resources_silently,
  eventing_manifests,
}
use serverless_operator.Eventing.Laws.{IsFilled, default_override, reconcile_eventing_extension_lem}

-- A new override leaves nothing but its name and its replicas; the names of the deleted resources are
-- noted in the namespace.
abbrev extension : EventingExtension Bool Bool (List String) String (Namespace (List String))
extension = record {
  required_ns = "knative-eventing";
  images = ("default", "registry/${NAME}") ∷ [];
  equal_fold = λ a b. a == b;
  monitoring_env = some "true";
  mark_install_failed = λ message s. false;
  unset = true;
  namespaces = record {
    get = λ name x. if x.name == name then ok x else err "not found";
    update = λ n x. (n, none);
  };
  monitoring_manifests = λ ke. ok (("monitor" ∷ []) ∷ []);
  network_policies = ok ("a" ∷ "b" ∷ []);
  delete = λ u x. record x { others = u ∷ x.others };
}

abbrev spec : EventingSpec Bool
spec = record {
  config = [];
  registry_override = [];
  registry_default = "";
  high_availability = none;
  resources = [];
  sink_binding_selection_mode = "";
  deployments = [];
  workloads = [];
}

abbrev start : State Bool Bool (Namespace (List String))
start = record {
  object = record { namespace = "knative-eventing"; annotations = []; spec = spec; status = true };
  cluster = record { name = "knative-eventing"; labels = []; others = [] };
}

abbrev left : State Bool Bool (Namespace (List String))
left = (reconcile_eventing_extension extension start).0

run : reconcile_eventing_extension extension start ≡ (left, ok tt)
unfolding reconcile_eventing_extension eventing_defaulted filled ensure_container_memory_limit
    lookup_or lookup insert scale_istio_controller is_enabled found_controller
    reconcile_monitoring_for_eventing reconcile_monitoring should_enable_monitoring
    reconcile_monitoring_label_on_namespace label_namespace configure configure_if_unset ensure
    write config_value config_map
run = refl

reconcile_eventing_extension_lem_example :
    (false ≡ false)
    × IsFilled extension start.object.spec left.object.spec
    × ((name : String)
        → find_override name (workload_overrides left.object.spec)
          ≡ or_else
              (find_override name (workload_overrides start.object.spec))
              (default_override extension start.object.spec.config name))
    × ((cm key : String)
        → unmonitored cm key ≡ false
        → config_value left.object.spec.config cm key
          ≡ config_value start.object.spec.config cm key)
reconcile_eventing_extension_lem_example = reconcile_eventing_extension_lem extension start left run

-- Without Istio the policies are deleted, and the manifests of monitoring are left.
manifests :
    eventing_manifests extension start.object start.cluster
    ≡ (record start.cluster { others = "b" ∷ "a" ∷ [] }, ok (("monitor" ∷ []) ∷ []))
unfolding eventing_manifests delete_resources_silently is_enabled get_features_config lookup has_key
manifests = refl

policies :
    get_service_mesh_network_policy (λ p. ok p.name) (λ us. ok us)
    ≡ ok (
        "allow-from-openshift-monitoring" ∷ "allow-eventing-webhook" ∷ "allow-imc-webhook"
        ∷ "allow-kafka-webhook-eventing" ∷ [])
unfolding get_service_mesh_network_policy to_unstructured service_mesh_network_policies
policies = refl
