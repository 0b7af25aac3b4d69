-- ===== src/Monitoring/Services.antt =====
-- helpers.go, monitoring_serving.go and monitoring_eventing.go: the ServiceMonitors, the Services that
-- they select, and the role bindings of the components that are monitored.
pub mod Laws
use serverless_operator.Common.{
  ℕ, String, Bool, true, false, ◌&&◌, ◌||◌, ◌==◌, not, Option, none, some, List, [], ◌∷◌, ◌++◌,
  if◌then◌else◌, Dict, any, select, has_key, lookup, insert, Result, ok, err, ◌>>=◌, ◌<>◌,
}
use serverless_operator.Transform.Spec.{Unstructured}
use serverless_operator.Monitoring.RbacProxy.{sm_service_name}

pub record ServiceMonitor : Type 0 where
  pub name : String
  pub namespace : String
  pub bearer_token_file : String
  pub port : String
  pub scheme : String
  pub ca_file : String
  pub server_name : String
  pub match_names : List String
  pub match_labels : Dict String

pub record MonitorService : Type 0 where
  pub name : String
  pub namespace : String
  pub labels : Dict String
  pub annotations : Dict String
  pub port_name : String
  pub port : ℕ
  pub target_port : ℕ
  pub selector : Dict String

pub record ClusterRoleBinding : Type 0 where
  pub name : String
  pub role : String
  pub subject_kind : String
  pub subject_name : String
  pub subject_namespace : String

-- A typed object that is made into a resource.
pub data MonitoringObject : Type 0 where
  monitor : ServiceMonitor → MonitoringObject
  service : MonitorService → MonitoringObject
  binding : ClusterRoleBinding → MonitoringObject

-- The labels that select the pods of a component.
unfoldable pub get_selector_labels : String → Dict String
get_selector_labels component =
    if component == "imc-controller"
    then ("messaging.knative.dev/channel", "in-memory-channel")
      ∷ ("messaging.knative.dev/role", "controller")
      ∷ []
    else if component == "imc-dispatcher"
    then ("messaging.knative.dev/channel", "in-memory-channel")
      ∷ ("messaging.knative.dev/role", "dispatcher")
      ∷ []
    else if component == "mt-broker-filter"
    then ("eventing.knative.dev/brokerRole", "filter") ∷ []
    else if component == "mt-broker-ingress"
    then ("eventing.knative.dev/brokerRole", "ingress") ∷ []
    else if component == "kafka-controller-manager"
    then ("control-plane", "kafka-controller-manager") ∷ []
    else if component == "pingsource-mt-adapter" || component == "job-sink"
    then ("app.kubernetes.io/component", component) ∷ []
    else ("app", component) ∷ []

unfoldable pub create_service_monitor : String → String → String → ServiceMonitor
create_service_monitor component ns service_name = record {
  name = component <> "-sm";
  namespace = ns;
  bearer_token_file = "/var/run/secrets/kubernetes.io/serviceaccount/token";
  port = "https";
  scheme = "https";
  ca_file = "/etc/prometheus/configmaps/serving-certs-ca-bundle/service-ca.crt";
  server_name = service_name <> "." <> ns <> ".svc";
  match_names = ns ∷ [];
  match_labels = ("name", service_name) ∷ [];
}

unfoldable pub create_service_monitor_service : String → String → MonitorService
unfolding get_selector_labels
create_service_monitor_service component ns =
    let service_name = sm_service_name component in
    record {
      name = service_name;
      namespace = ns;
      labels = ("name", service_name) ∷ [];
      annotations =
          ("service.beta.openshift.io/serving-cert-secret-name", service_name <> "-tls") ∷ [];
      port_name = "https";
      port = 8444;
      target_port = 8444;
      selector = get_selector_labels component;
    }

unfoldable pub create_cluster_role_binding : String → String → ClusterRoleBinding
create_cluster_role_binding service_account_name ns = record {
  name = "rbac-proxy-reviews-prom-rb-" <> service_account_name;
  role = "rbac-proxy-reviews-prom";
  subject_kind = "ServiceAccount";
  subject_name = service_account_name;
  subject_namespace = ns;
}

-- What the code calls: scheme.Scheme.Convert of a typed object to a resource, mf.ManifestFrom of a
-- slice, and the manifest of the roles, from a path in the environment.
pub record MonitoringLibrary (U : Type 0) : Type 0 where
  pub convert : MonitoringObject → Result String U
  pub manifest_from : List U → Result String (List U)
  pub new_manifest : String → Result String (List U)
  pub rbac_path : String

-- The order in which a range over the set of the deployments visits them is that of the list.
abbrev pub serving_deployments : List String
serving_deployments = "activator" ∷ "autoscaler" ∷ "autoscaler-hpa" ∷ "controller" ∷ "webhook" ∷ []

abbrev pub eventing_deployments : List String
eventing_deployments =
    "eventing-controller" ∷ "eventing-istio-controller" ∷ "eventing-webhook" ∷ "imc-controller"
    ∷ "imc-dispatcher" ∷ "mt-broker-controller" ∷ "mt-broker-filter" ∷ "mt-broker-ingress"
    ∷ "pingsource-mt-adapter" ∷ "job-sink" ∷ []

module _ {U : Type 0} (library : MonitoringLibrary U) where
  unfoldable pub construct_service_monitor_resource_manifests :
      String → String → Result String (List U)
  unfolding create_service_monitor create_service_monitor_service
  construct_service_monitor_resource_manifests component ns =
      let sms = create_service_monitor_service component ns in
      do
        sv ← library.convert (service sms)
        sm ← library.convert (monitor (create_service_monitor component ns sms.name))
        library.manifest_from (sm ∷ sv ∷ [])

  unfoldable pub append_manifests_for_component : String → String → List U → Result String (List U)
  unfolding construct_service_monitor_resource_manifests
  append_manifests_for_component c ns manifest = do
    sm ← construct_service_monitor_resource_manifests c ns
    ok (manifest ++ sm)

  unfoldable pub create_cluster_role_binding_manifest : String → String → Result String (List U)
  unfolding create_cluster_role_binding
  create_cluster_role_binding_manifest service_account_name ns = do
    crb ← library.convert (binding (create_cluster_role_binding service_account_name ns))
    library.manifest_from (crb ∷ [])

  unfoldable pub get_rbac_manifest : Result String (List U)
  get_rbac_manifest =
      if library.rbac_path == ""
      then err "failed to get the Serving sm rbac manifest path"
      else library.new_manifest library.rbac_path

  -- the loop over the service accounts
  unfoldable pub append_bindings : List String → String → List U → Result String (List U)
  unfolding create_cluster_role_binding_manifest
  append_bindings [] ns manifest = ok manifest
  append_bindings (sa ∷ sas) ns manifest = do
    crb ← create_cluster_role_binding_manifest sa ns
    append_bindings sas ns (manifest ++ crb)

  -- the loop over the components
  unfoldable pub append_monitors : List String → String → List U → Result String (List U)
  unfolding append_manifests_for_component
  append_monitors [] ns manifest = ok manifest
  append_monitors (c ∷ cs) ns manifest = do
    more ← append_manifests_for_component c ns manifest
    append_monitors cs ns more

  unfoldable pub get_serving_monitoring_platform_manifests : String → Result String (List U)
  unfolding get_rbac_manifest append_bindings append_monitors
  get_serving_monitoring_platform_manifests ns = do
    rbac ← get_rbac_manifest
    bound ← append_bindings ("controller" ∷ "activator" ∷ []) ns rbac
    append_monitors serving_deployments ns bound

  -- `job_sink` is isJobSinkSupported.
  unfoldable pub get_eventing_monitoring_platform_manifests : Bool → String → Result String (List U)
  unfolding get_rbac_manifest append_bindings append_monitors
  get_eventing_monitoring_platform_manifests job_sink ns =
      let deployments =
        if job_sink
        then eventing_deployments
        else select (λ d. not (d == "job-sink")) eventing_deployments in
      do
        rbac ← get_rbac_manifest
        bound ←
            append_bindings (select (λ sa. not (sa == "mt-broker-controller")) deployments) ns rbac
        append_monitors deployments ns bound

-- common.TargetManifest, if it could be had, and its resources
unfoldable pub is_job_sink_supported : {C : Type 0} → Result String (List (Unstructured C)) → Bool
is_job_sink_supported (err e) = false
is_job_sink_supported (ok resources) =
    any (λ u. u.name == "job-sink" && u.kind == "Deployment") resources

-- A subject of a role binding: its namespace, if it has one, and the rest.
pub record Subject (K : Type 0) : Type 0 where
  pub namespace : Option String
  pub others : K

-- injectNamespaceWithSubject, on a role or a binding; a binding has subjects, without which the code
-- panics. `lower_kind` is
-- the kind in lower case.
abbrev pub in_namespace : {K : Type 0} → String → List (Subject K) → List (Subject K)
in_namespace ns [] = []
in_namespace ns (s ∷ ss) =
    (elim s.namespace [ none ↦ s | some _ ↦ record s { namespace = some ns } ]) ∷ in_namespace ns ss

pub record RoleObject (K : Type 0) : Type 0 where
  pub lower_kind : String
  pub name : String
  pub namespace : String
  pub subjects : List (Subject K)

unfoldable pub inject_namespace_with_subject :
    {K : Type 0} → String → String → RoleObject K → RoleObject K
inject_namespace_with_subject resource_namespace subject_namespace u =
    if u.lower_kind == "role" && u.name == "knative-prometheus-k8s"
    then record u { namespace = resource_namespace }
    else if u.lower_kind == "rolebinding" && u.name == "knative-prometheus-k8s"
    then record u {
      namespace = resource_namespace;
      subjects = in_namespace subject_namespace u.subjects;
    }
    else if u.lower_kind == "clusterrolebinding" && u.name == "rbac-proxy-metrics-prom-rb"
    then record u { subjects = in_namespace subject_namespace u.subjects }
    else u
