-- ===== src/Sources/ClusterMonitoring.antt =====
-- knative-operator/pkg/monitoring/monitoring.go: what cluster monitoring needs in a namespace, and the
-- removal of monitors of earlier versions.
pub mod Laws
use serverless_operator.Common.{
  ℕ, String, Bool, true, false, ◌==◌, Option, none, some, List, [], ◌∷◌, if◌then◌else◌, Dict,
  lookup_or, insert, Answer, found, not_found, failed, Result, ok, err, Error, ◌<>◌, ◌>>=◌,
}
use serverless_operator.Common.Run
use serverless_operator.Common.Run.{Run, ◌>>◌, lift}
use serverless_operator.Monitoring.{Namespace, Api, enable_monitoring_label, format_bool}

pub record Role : Type 0 where
  pub name : String
  pub namespace : String
  pub labels : Dict String
  pub api_groups : List String
  pub resources : List String
  pub verbs : List String

pub record RoleBinding : Type 0 where
  pub name : String
  pub namespace : String
  pub labels : Dict String
  pub role_api_group : String
  pub role_kind : String
  pub role_name : String
  pub subject_kind : String
  pub subject_name : String
  pub subject_namespace : String

pub record SourceService : Type 0 where
  pub name : String
  pub namespace : String
  pub labels : Dict String
  pub port_name : String
  pub port : ℕ
  pub target_port : ℕ
  pub selector : Dict String

pub record SourceMonitor : Type 0 where
  pub name : String
  pub namespace : String
  pub labels : Dict String
  pub port : String
  pub match_names : List String
  pub match_labels : Dict String

-- A typed object that is made into a resource.
pub data SourceObject : Type 0 where
  role : Role → SourceObject
  role_binding : RoleBinding → SourceObject
  service : SourceService → SourceObject
  monitor : SourceMonitor → SourceObject

-- What is deleted of earlier versions.
pub data OldKind : Type 0 where
  old_monitor : OldKind
  old_service : OldKind

-- What the code calls: the API server, scheme.Scheme.Convert and the manifest library. O is the type of
-- owners, U that of resources.
pub record SourceLibrary (R U O X : Type 0) : Type 0 where
  pub namespaces : Api R X
  pub convert : SourceObject → Result Error U
  pub manifest_from : List U → Result Error (List U)
  pub inject_owner : O → List U → Result Error (List U)
  pub apply : List U → Run X (Unit {0})
  pub delete : List U → Run X (Unit {0})
  pub delete_old : OldKind → String → String → X → X × Answer (Unit {0})

abbrev pub rbac_name : String
rbac_name = "knative-prometheus-k8s"

-- Errors of the client of namespaces are texts.
abbrev pub text_error : String → Error
text_error text = record { message = text; no_match = false }

abbrev pub of_update : {X : Type 0} → String → X × Option String → X × Result Error (Unit {0})
of_update prefix (x, none) = (x, ok tt)
of_update prefix (x, some e) = (x, err (text_error (prefix <> e)))

abbrev pub prometheus_role : String → Dict String → Role
prometheus_role ns labels = record {
  name = rbac_name;
  namespace = ns;
  labels = labels;
  api_groups = "" ∷ [];
  resources = "services" ∷ "endpoints" ∷ "pods" ∷ [];
  verbs = "get" ∷ "list" ∷ "watch" ∷ [];
}

abbrev pub prometheus_role_binding : String → Dict String → RoleBinding
prometheus_role_binding ns labels = record {
  name = rbac_name;
  namespace = ns;
  labels = labels;
  role_api_group = "rbac.authorization.k8s.io";
  role_kind = "Role";
  role_name = rbac_name;
  subject_kind = "ServiceAccount";
  subject_name = "prometheus-k8s";
  subject_namespace = "openshift-monitoring";
}

abbrev pub ignoring_not_found : {X : Type 0} → X × Answer (Unit {0}) → X × Result Error (Unit {0})
ignoring_not_found (x, found _) = (x, ok tt)
ignoring_not_found (x, not_found e) = (x, ok tt)
ignoring_not_found (x, failed e) = (x, err e)

module _ {R U O X : Type 0} (library : SourceLibrary R U O X) where
  -- the branch of a namespace that could be read
  unfoldable pub add_label : String → Namespace R → Bool → Run X (Unit {0})
  unfolding lookup_or insert
  add_label namespace ns value x =
      if lookup_or "" enable_monitoring_label ns.labels == format_bool value
      then (x, ok tt)
      else of_update
          ("could not add label \"" <> enable_monitoring_label <> "\" to namespace \"" <> namespace
            <> "\": ")
          (library.namespaces.update
            (record ns { labels = insert enable_monitoring_label (format_bool value) ns.labels }) x)

  unfoldable pub add_cluster_monitoring_label_to_namespace : String → Bool → Run X (Unit {0})
  unfolding add_label
  add_cluster_monitoring_label_to_namespace namespace value x =
      elim (library.namespaces.get namespace x) [
        | err e ↦ (x, err (text_error e))
        | ok ns ↦ add_label namespace ns value x
      ]

  unfoldable pub create_rbac_manifest_for_prometheus_account :
      String → Dict String → Result Error (List U)
  create_rbac_manifest_for_prometheus_account ns labels = do
    role_u ← library.convert (role (prometheus_role ns labels))
    rb_u ← library.convert (role_binding (prometheus_role_binding ns labels))
    library.manifest_from (role_u ∷ rb_u ∷ [])

  -- An owner is injected where there is one.
  abbrev pub owned_by : String → Option O → List U → Result Error (List U)
  owned_by message none manifest = ok manifest
  owned_by message (some owner) manifest = elim (library.inject_owner owner manifest) [
    | ok owned ↦ ok owned
    | err e ↦ err (record e { message = message <> e.message })
  ]

  unfoldable pub get_manifest_for_prometheus_role_and_rolebinding :
      Option O → String → Dict String → Result Error (List U)
  unfolding create_rbac_manifest_for_prometheus_account
  get_manifest_for_prometheus_role_and_rolebinding instance namespace labels = do
    manifest ← create_rbac_manifest_for_prometheus_account namespace labels
    owned_by "unable to transform role and roleBinding manifest for Prometheus account: " instance
        manifest

  unfoldable pub create_prometheus_role_and_role_binding :
      Option O → String → Dict String → Run X (Unit {0})
  unfolding get_manifest_for_prometheus_role_and_rolebinding
  create_prometheus_role_and_role_binding instance namespace labels =
      Run.◌>>=◌ (lift (get_manifest_for_prometheus_role_and_rolebinding instance namespace labels))
        library.apply

  unfoldable pub delete_prometheus_role_and_role_binding :
      Option O → String → Dict String → Run X (Unit {0})
  unfolding get_manifest_for_prometheus_role_and_rolebinding
  delete_prometheus_role_and_role_binding instance namespace labels =
      Run.◌>>=◌ (lift (get_manifest_for_prometheus_role_and_rolebinding instance namespace labels))
        library.delete

  unfoldable pub setup_cluster_monitoring_requirements :
      Option O → String → Dict String → Run X (Unit {0})
  unfolding add_cluster_monitoring_label_to_namespace create_prometheus_role_and_role_binding
  setup_cluster_monitoring_requirements instance ns labels =
      add_cluster_monitoring_label_to_namespace ns true
      >> create_prometheus_role_and_role_binding instance ns labels

  unfoldable pub remove_cluster_monitoring_requirements :
      Option O → String → Dict String → Run X (Unit {0})
  unfolding add_cluster_monitoring_label_to_namespace delete_prometheus_role_and_role_binding
  remove_cluster_monitoring_requirements instance ns labels =
      add_cluster_monitoring_label_to_namespace ns false
      >> delete_prometheus_role_and_role_binding instance ns labels

  abbrev pub delete_if_there : OldKind → String → String → Run X (Unit {0})
  delete_if_there kind namespace name x =
      ignoring_not_found (library.delete_old kind namespace name x)

  unfoldable pub remove_old_service_monitor_resources_if_exist : String → Run X (Unit {0})
  remove_old_service_monitor_resources_if_exist namespace =
      delete_if_there old_monitor namespace "knative-openshift-metrics"
      >> delete_if_there old_service namespace "knative-openshift-metrics"
      >> delete_if_there old_monitor "knative-eventing" "knative-eventing-metrics-broker-filter"
      >> delete_if_there old_monitor "knative-eventing" "knative-eventing-metrics-broker-ingr"

  unfoldable pub remove_old_ping_source_service_monitor_resources_if_exist : Run X (Unit {0})
  remove_old_ping_source_service_monitor_resources_if_exist =
      delete_if_there old_monitor "knative-eventing" "pingsource-mt-adapter"
      >> delete_if_there old_service "knative-eventing" "pingsource-mt-adapter"
