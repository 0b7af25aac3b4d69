-- ===== src/Serving/Extension/Tests.antt =====
-- Reconcile of a KnativeServing without an ingress.
use serverless_operator.Common.{
  String, ◌≡◌, refl, Bool, true, false, none, some, [], ◌∷◌, ◌==◌, ok, err, not_found, Error,
  if◌then◌else◌, lookup, insert, lookup_or, has_prefix,
}
use serverless_operator.Config.{
  config_value, config_map, configure, configure_if_unset, configure_if_configmap_unset, ensure,
  write,
}
use serverless_operator.Monitoring.{
  Namespace, Api, should_enable_monitoring, reconcile_monitoring,
  reconcile_monitoring_label_on_namespace, label_namespace,
}
use serverless_operator.Serving.Defaults.{
  ServingSpec, defaulted, configured, with_domain, with_logging, with_istio_metrics,
  default_ingress_class, default_to_kourier,
}
use serverless_operator.Serving.Cleanup.{cleanup_old_resources, remove, remove_all, old_lease}
use serverless_operator.Serving.Extension.{
  State, ServingExtension, fetch_cluster_host, fetch_logging_host, ensure_cleanup,
  reconcile_monitoring_for_serving, with_defaults, with_dependencies, reconcile_for, misplaced,
  reconcile,
}
use serverless_operator.Serving.Extension.Laws.{Cleaned, HasDefaults, reconcile-HasDefaults}

abbrev missing : Error
missing = record { message = "not found"; no_match = false }

abbrev namespaces : Api Bool (Namespace Bool)
namespaces = record {
  get = λ name x. if x.name == name then ok x else err "not found";
  update = λ n x. (n, none);
}

-- A status says whether the dependencies are missing.
abbrev extension : ServingExtension Bool Bool (Namespace Bool)
extension = record {
  required_ns = "knative-serving";
  images = ("queue-proxy", "registry/queue") ∷ [];
  equal_fold = λ a b. a == b;
  monitoring_env = some "true";
  dependencies_installed_is_false = λ s. s;
  mark_dependencies_installed = λ s. false;
  mark_install_failed = λ message s. s;
  get_cluster_domain = λ x. ok "apps.example.com";
  get_kibana_hosts = λ x. err missing;
  cleanup = record {
    delete = λ r ns name x. (x, not_found missing);
    list_leases = λ ns x. ok ("domainmapping" ∷ []);
  };
  namespaces = namespaces;
}

abbrev spec : ServingSpec
spec = record {
  config = [];
  registry_override = [];
  registry_default = "";
  high_availability = none;
  pod_disruption_budgets = [];
  ingress = none;
  resources = [];
  controller_custom_certs = record { name = ""; type = "" };
}

abbrev start : State Bool (Namespace Bool)
start = record {
  object = record { namespace = "knative-serving"; spec = spec; status = true };
  old_resource_removed = false;
  cluster = record { name = "knative-serving"; labels = []; others = true };
}

abbrev left : State Bool (Namespace Bool)
left = (reconcile extension start).0

run : reconcile extension start ≡ (left, ok tt)
unfolding reconcile reconcile_for fetch_cluster_host with_dependencies with_defaults ensure_cleanup
    cleanup_old_resources remove_all remove old_lease has_prefix reconcile_monitoring_for_serving
    reconcile_monitoring should_enable_monitoring reconcile_monitoring_label_on_namespace
    label_namespace lookup_or insert defaulted default_to_kourier configured with_domain
    with_logging with_istio_metrics default_ingress_class configure configure_if_unset
    configure_if_configmap_unset ensure write config_value config_map lookup fetch_logging_host
run = refl

reconcile-HasDefaults_example :
    (misplaced extension start ≡ false)
    × (left.old_resource_removed ≡ true)
    × ((y : Namespace Bool) × Cleaned extension start y)
    × ((domain : String) × (fetch_cluster_host extension start.cluster ≡ ok domain)
        × HasDefaults extension start left domain)
reconcile-HasDefaults_example = reconcile-HasDefaults extension start left run
