-- ===== src/Sources.antt =====
-- The discovery of source Deployments: source_deployment_discovery_controller.go of
-- knative-operator/pkg/monitoring/sources. The cluster is of any type X.
pub mod ClusterMonitoring
pub mod Monitors
pub mod Laws
mod Tests
use serverless_operator.Common.{
  String, Bool, true, false, ◌&&◌, ◌||◌, ◌==◌, not, Option, none, some, List, [], ◌∷◌,
  if◌then◌else◌, Dict, lookup_or, Answer, found, not_found, failed, Result, ok, err, Error, ◌<>◌,
}
use serverless_operator.Common.Run.{Run, ◌>>=◌, ◌>>◌, done, lift}
use serverless_operator.Config.{ConfigMapData}
use serverless_operator.Monitoring.{should_enable_monitoring}
use serverless_operator.Serving.{parse_bool}
use serverless_operator.Sources.ClusterMonitoring.{
  SourceLibrary, setup_cluster_monitoring_requirements, remove_cluster_monitoring_requirements,
}
use serverless_operator.Sources.Monitors.{
  SourceDeployment, setup_source_service_monitor_resources, remove_source_service_monitor_resources,
}

-- What Reconcile reads: the Deployment of a namespace and a name, the configuration of the
-- KnativeEventing, and the environment, where a variable that is not set is empty.
pub record SourceClient (R U X : Type 0) : Type 0 where
  pub library : SourceLibrary R U SourceDeployment X
  pub get_deployment : String → String → X → Answer SourceDeployment
  pub get_eventing_config : X → Result Error ConfigMapData
  pub getenv : String → String
  -- strings.EqualFold, and ENABLE_MONITORING_BY_DEFAULT
  pub equal_fold : String → String → Bool
  pub monitoring_env : Option String

abbrev pub source_rbac_labels : Dict String
source_rbac_labels = ("serverless.monitoring", "true") ∷ []

abbrev pub eventing_namespace : String
eventing_namespace = "knative-eventing"

-- The Deployment that a failed read leaves: its selector is nil.
abbrev pub blank_deployment : SourceDeployment
blank_deployment = record { name = ""; namespace = ""; match_labels = none; ports = [] }

-- enqueueRequests: whether a Deployment with these labels in its selector is a source.
unfoldable pub enqueued : Dict String → Bool
unfolding lookup_or
enqueued labels =
    let source = lookup_or "" "eventing.knative.dev/source" labels in
    let source_name = lookup_or "" "eventing.knative.dev/sourceName" labels in
    let source_role = lookup_or "" "sources.knative.dev/role" labels in
    (not (source == "") && not (source_name == ""))
    || (not (source == "") && not (source_role == ""))

abbrev pub parse_result : String → Option Bool → Result Error Bool
parse_result s (some b) = ok b
parse_result s none = err (record {
  message = "strconv.ParseBool: parsing \"" <> s <> "\": invalid syntax";
  no_match = false;
})

-- strconv.ParseBool
unfoldable pub parsed_bool : String → Result Error Bool
unfolding parse_bool
parsed_bool s = parse_result s (parse_bool s)

module _ {R U X : Type 0} (client : SourceClient R U X) where
  unfoldable pub should_use_cluster_monitoring_for_sources_by_default : Result Error Bool
  unfolding parsed_bool
  should_use_cluster_monitoring_for_sources_by_default =
      parsed_bool (client.getenv "SOURCES_USE_CLUSTER_MONITORING")

  unfoldable pub should_generate_source_service_monitors_by_default : Result Error Bool
  unfolding parsed_bool
  should_generate_source_service_monitors_by_default =
      parsed_bool (client.getenv "SOURCES_GENERATE_SERVICE_MONITORS")

  unfoldable pub set_cluster_monitoring : String → Bool → Run X (Unit {0})
  unfolding setup_cluster_monitoring_requirements remove_cluster_monitoring_requirements
  set_cluster_monitoring ns enable =
      if enable
      then setup_cluster_monitoring_requirements client.library none ns source_rbac_labels
      else if not (ns == eventing_namespace)
      then remove_cluster_monitoring_requirements client.library none ns source_rbac_labels
      else done tt

  unfoldable pub setup_cluster_monitoring_for_sources : String → Run X (Unit {0})
  unfolding should_use_cluster_monitoring_for_sources_by_default set_cluster_monitoring
  setup_cluster_monitoring_for_sources ns = do
    enable ← lift should_use_cluster_monitoring_for_sources_by_default
    set_cluster_monitoring ns enable

  unfoldable pub generate_source_service_monitors : SourceDeployment → Run X (Unit {0})
  unfolding should_generate_source_service_monitors_by_default
      setup_source_service_monitor_resources remove_source_service_monitor_resources
  generate_source_service_monitors dep = do
    generate ← lift should_generate_source_service_monitors_by_default
    if generate
        then setup_source_service_monitor_resources client.library dep
        else if not (dep.namespace == eventing_namespace)
        then remove_source_service_monitor_resources client.library dep
        else done tt

  -- what is done of what was done before monitoring was switched off
  unfoldable pub remove_relics : SourceDeployment → Run X (Unit {0})
  unfolding remove_cluster_monitoring_requirements remove_source_service_monitor_resources
  remove_relics dep =
      if not (dep.namespace == eventing_namespace)
      then (remove_cluster_monitoring_requirements client.library none dep.namespace
            source_rbac_labels
          >> remove_source_service_monitor_resources client.library dep)
      else done tt

  -- The branches of Reconcile on a configuration; `namespace` is that of the request.
  unfoldable pub reconcile_with :
      String → Bool → SourceDeployment → ConfigMapData → Run X (Unit {0})
  unfolding should_enable_monitoring setup_cluster_monitoring_for_sources
      generate_source_service_monitors remove_relics
  reconcile_with namespace in_deletion dep config =
      if should_enable_monitoring client.equal_fold client.monitoring_env config
      then if not in_deletion
        then (setup_cluster_monitoring_for_sources namespace
            >> generate_source_service_monitors dep)
        else done tt
      else remove_relics dep

  abbrev pub eventing_config : Run X ConfigMapData
  eventing_config x = (x, client.get_eventing_config x)

  -- The answer to the read of the Deployment, and what comes after it.
  unfoldable pub on_deployment : String → Answer SourceDeployment → Run X (Unit {0})
  unfolding reconcile_with
  on_deployment namespace (failed e) x = (x, err e)
  on_deployment namespace (not_found e) x =
      (eventing_config >>= reconcile_with namespace true blank_deployment) x
  on_deployment namespace (found dep) x = (eventing_config >>= reconcile_with namespace false dep) x

  unfoldable pub reconcile : String → String → Run X (Unit {0})
  unfolding on_deployment
  reconcile namespace name x = on_deployment namespace (client.get_deployment namespace name x) x

-- The events that are let through, by the namespace of the object: Create, Update and Generic do, by
-- Generic; none of a deletion is.
unfoldable pub lets_through : String → Bool
lets_through namespace = not (namespace == eventing_namespace)
