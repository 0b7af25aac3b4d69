-- ===== src/Sources/Tests.antt =====
-- A source Deployment in a cluster of one namespace.
use serverless_operator.Common.{
  String, ◌≡◌, refl, sym, ap, ◌∙◌, Bool, true, false, none, some, [], ◌∷◌, ◌==◌, if◌then◌else◌,
  Answer, found, not_found, Result, ok, err, Error, ok-injective, eq_iff, eq_refl, Bool-cases, inl,
  inr, lookup, lookup_or, insert,
}
use serverless_operator.Config.{ConfigMapData, config_map}
use serverless_operator.Monitoring.{
  Namespace, should_enable_monitoring, reconcile_monitoring_label_on_namespace,
}
use serverless_operator.Serving.{parse_bool}
use serverless_operator.Sources.ClusterMonitoring.{
  SourceLibrary, add_label, add_cluster_monitoring_label_to_namespace,
  create_rbac_manifest_for_prometheus_account, get_manifest_for_prometheus_role_and_rolebinding,
  create_prometheus_role_and_role_binding, setup_cluster_monitoring_requirements,
}
use serverless_operator.Sources.ClusterMonitoring.Laws.{
  SameOutcome, IsSourceLibrary, Labelled, add_cluster_monitoring_label_to_namespace_lem,
}
use serverless_operator.Sources.Monitors.{
  SourceDeployment, metrics_port, create_service_monitor_manifest, source_service_monitor_manifest,
  setup_source_service_monitor_resources,
}
use serverless_operator.Sources.{
  SourceClient, enqueued, parsed_bool, should_use_cluster_monitoring_for_sources_by_default,
  should_generate_source_service_monitors_by_default, set_cluster_monitoring,
  setup_cluster_monitoring_for_sources, generate_source_service_monitors, reconcile_with,
  on_deployment, reconcile,
}
use serverless_operator.Sources.Laws.{cluster_monitoring, reconcile-Labelled, reconcile-deleted}

abbrev missing : Error
missing = record { message = "not found"; no_match = false }

abbrev look_up : String → Namespace Bool → Result String (Namespace Bool)
look_up name x = if x.name == name then ok x else err "not found"

look_up-name : (name : String) (n x : Namespace Bool) → look_up name x ≡ ok n → n.name ≡ name
look_up-name name n x h = elim (Bool-cases (x.name == name)) [
  | inl e ↦ ap (λ m. m.name) (sym (ok-injective (rw e at h))) ∙ (eq_iff x.name name).0 e
  | inr e ↦ cc (rw e at h)
]

-- Resources are their names, and the cluster does not keep them.
abbrev library : SourceLibrary Bool String SourceDeployment (Namespace Bool)
library = record {
  namespaces = record { get = look_up; update = λ n x. (n, none) };
  convert = λ o. ok "a resource";
  manifest_from = λ us. ok us;
  inject_owner = λ owner us. ok us;
  apply = λ us x. (x, ok tt);
  delete = λ us x. (x, ok tt);
  delete_old = λ kind namespace name x. (x, not_found missing);
}

library-IsSourceLibrary : IsSourceLibrary library
library-IsSourceLibrary = record {
  api = record {
    get_name = look_up-name;
    update_get = λ n x x' h. rw (← ap (λ r. r.0) h) (rw (eq_refl n.name) refl);
  };
  applied = λ m x x' ns h. ap (λ r. look_up ns r.0) (sym h);
  deleted = λ m x x' ns h. ap (λ r. look_up ns r.0) (sym h);
}

abbrev dep : SourceDeployment
dep = record {
  name = "ping";
  namespace = "default";
  match_labels = some (("sources.knative.dev/role", "adapter") ∷ []);
  ports = (("metrics", 9092) ∷ ("http", 8080) ∷ []) ∷ (("metrics", 9093) ∷ []) ∷ [];
}

abbrev namespace : Bool → Namespace Bool
namespace enabled = record {
  name = "default";
  labels = ("openshift.io/cluster-monitoring", if enabled then "true" else "false") ∷ [];
  others = true;
}

-- Monitoring is on where `on` is true.
abbrev client : Bool → Answer SourceDeployment → SourceClient Bool String (Namespace Bool)
client on answer = record {
  library = library;
  get_deployment = λ namespace name x. answer;
  get_eventing_config = λ x. ok [];
  getenv = λ name. "true";
  equal_fold = λ a b. a == b;
  monitoring_env = some (if on then "true" else "false");
}

run :
    reconcile (client true (found dep)) "default" "ping" (namespace false) ≡ (namespace true, ok tt)
unfolding reconcile on_deployment reconcile_with should_enable_monitoring config_map lookup
    lookup_or insert setup_cluster_monitoring_for_sources
    should_use_cluster_monitoring_for_sources_by_default parsed_bool parse_bool
    set_cluster_monitoring setup_cluster_monitoring_requirements
    add_cluster_monitoring_label_to_namespace add_label create_prometheus_role_and_role_binding
    get_manifest_for_prometheus_role_and_rolebinding create_rbac_manifest_for_prometheus_account
    generate_source_service_monitors should_generate_source_service_monitors_by_default
    setup_source_service_monitor_resources source_service_monitor_manifest
    create_service_monitor_manifest
run = refl

reconcile-Labelled_example :
    (config : ConfigMapData) × (◌≡◌ {A = Result Error ConfigMapData} (ok []) (ok config))
    × Labelled library library-IsSourceLibrary "default"
        (cluster_monitoring (client true (found dep)) library-IsSourceLibrary config)
        (namespace true)
reconcile-Labelled_example =
    reconcile-Labelled (client true (found dep)) library-IsSourceLibrary dep "ping"
      (namespace false) (namespace true) refl refl run

off : should_enable_monitoring (λ a b. a == b) (some "false") [] ≡ false
unfolding should_enable_monitoring config_map lookup_or
off = refl

reconcile-deleted_example :
    reconcile (client false (not_found missing)) "default" "ping" (namespace true)
    ≡ (namespace true, err missing)
reconcile-deleted_example =
    reconcile-deleted (client false (not_found missing)) "default" "ping" (namespace true) missing
      [] "not found" refl refl off refl

add_cluster_monitoring_label_to_namespace_lem_example :
    SameOutcome
      (add_cluster_monitoring_label_to_namespace library "default" true (namespace false))
      (reconcile_monitoring_label_on_namespace library.namespaces "default" true (namespace false))
add_cluster_monitoring_label_to_namespace_lem_example =
    add_cluster_monitoring_label_to_namespace_lem library "default" true (namespace false)

-- The port of the last container that has one is taken.
port : metrics_port dep ≡ 9093
unfolding metrics_port
port = refl

sources :
    (enqueued
        (("eventing.knative.dev/source", "ping") ∷ ("sources.knative.dev/role", "adapter") ∷ [])
      ≡ true)
    × (enqueued (("eventing.knative.dev/source", "ping") ∷ []) ≡ false)
unfolding enqueued lookup_or
sources = (refl, refl)
