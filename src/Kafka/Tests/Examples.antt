-- ===== src/Kafka/Tests/Examples.antt =====
-- The theorems about the controller of KnativeKafka on the small cluster.
use serverless_operator.Common.{
  not, join, count, String, ◌≡◌, refl, Bool, true, false, ◌&&◌, ◌==◌, none, some, List, [], ◌∷◌,
  ◌++◌, ok,
}
use serverless_operator.Kafka.Spec.{
  is_ready, mark_install_succeeded, mark_deployments_available, mark_stateful_sets_available,
}
use serverless_operator.Kafka.Manifest.{
  build_all, build_manifest, sections, section, add_rbac_proxy_to_manifest,
  enable_control_plane_manifest,
}
use serverless_operator.Kafka.Partition.{SplitBuild, raw_manifests, build_manifest-SplitBuild}
use serverless_operator.Kafka.Client.{State, found, wrap}
use serverless_operator.Kafka.Apply.{
  apply, apply_bindings, apply_rest, apply_part, after_apply, mark_installed, handle_tls_resources,
  is_tls_enabled, features_enabled, delete_resources,
}
use serverless_operator.Kafka.Ordered.{seen, seen_cluster, ordered, apply-ordered}
use serverless_operator.Kafka.Stages.{
  finalizer_name, ensure_finalizers, configure, configured, execute_stages, transform,
  remove_creation_timestamp, check_deployments, check_stateful_sets, check_each, after_get,
  after_conversion, is_deployment_available, is_stateful_set_available,
}
use serverless_operator.Kafka.Controller.{
  install_stages, stages_after_finalizers, delete_stages, delete, delete_knative_kafka,
  execute_built, after_cleanup, store_without_finalizer,
}
use serverless_operator.Kafka.Finalizers.{has_finalizer, install_stages-unfinalized, delete_lem}
use serverless_operator.Kafka.Checks.{all_deployments_up, all_stateful_sets_up}
use serverless_operator.Kafka.Readiness.{install_stages-is_ready}
use serverless_operator.Kafka.Configuring
use serverless_operator.Kafka.Configuring.{Texts, configure_eventing_kafka}
use serverless_operator.Kafka.Configuring.Laws.{configure_eventing_kafka_lem}
use serverless_operator.Kafka.Tests.Sample.{
  Resource, Conditions, Cluster, Kafka, manifests, manifests-IsManifests, client, client-IsSets,
  client-IsSequential, conditions-IsConditionSet, spec, kafka, start, resource, broken, refused,
}

abbrev everything : List Resource
everything =
    resource "ClusterRoleBinding" "knative-kafka-channel-data-plane" "rbac.authorization.k8s.io"
      ∷ resource "ClusterRoleBinding" "knative-kafka-channel-data-plane" "rbac.authorization.k8s.io"
      ∷ manifests.raw_kafka_channel
    ++ (resource "ClusterRoleBinding" "kafka-controller" "rbac.authorization.k8s.io"
          ∷ resource "ClusterRoleBinding" "kafka-webhook-eventing" "rbac.authorization.k8s.io"
          ∷ manifests.raw_kafka_controller
        ++ (resource "ClusterRoleBinding" "knative-kafka-source-data-plane"
                "rbac.authorization.k8s.io"
              ∷ manifests.raw_kafka_source
            ++ (resource "ClusterRoleBinding" "knative-kafka-broker-data-plane"
                    "rbac.authorization.k8s.io"
                  ∷ resource "ClusterRoleBinding" "knative-kafka-broker-data-plane"
                      "rbac.authorization.k8s.io"
                  ∷ manifests.raw_kafka_broker
                ++ (resource "ClusterRoleBinding" "knative-kafka-sink-data-plane"
                      "rbac.authorization.k8s.io"
                    ∷ manifests.raw_kafka_sink))))

built : build_manifest manifests "knative-eventing" spec build_all ≡ ok everything
unfolding build_manifest sections section add_rbac_proxy_to_manifest enable_control_plane_manifest
built = refl

build_manifest-SplitBuild_example :
    SplitBuild manifests
      (build_manifest manifests "knative-eventing" spec)
      (raw_manifests manifests spec (λ enabled. enabled))
      (raw_manifests manifests spec not)
      everything
build_manifest-SplitBuild_example =
    build_manifest-SplitBuild manifests "knative-eventing" spec everything manifests-IsManifests
      built

abbrev st : State Resource Conditions Cluster
st = start [] (
    resource "Deployment" "kafka-controller" "apps"
    ∷ resource "ClusterRoleBinding" "kafka-controller" "rbac.authorization.k8s.io"
    ∷ resource "Role" "kafka-controller" "rbac.authorization.k8s.io"
    ∷ [])

apply-ordered_example :
    (seen client (apply client st)
      ≡ seen_cluster client (client.apply (ordered client st.manifest) st.cluster))
    × ((p : Resource → Bool) → count p (ordered client st.manifest) ≡ count p st.manifest)
apply-ordered_example = apply-ordered client st client-IsSequential

abbrev unstored : State Resource Conditions Cluster
unfolding ensure_finalizers configure configured
unstored = (ensure_finalizers broken (configure broken st).0).0

not_stored : ensure_finalizers broken (configure broken st).0 ≡ (unstored, some refused)
unfolding ensure_finalizers configure configured unstored
not_stored = refl

install_stages-unfinalized_example :
    execute_stages broken (install_stages broken) st ≡ (unstored, some refused)
install_stages-unfinalized_example =
    install_stages-unfinalized broken st unstored refused not_stored

has_it : has_finalizer finalizer_name (kafka ("other" ∷ finalizer_name ∷ [])) ≡ true
has_it = refl

abbrev cluster : Cluster
cluster = (start ("other" ∷ finalizer_name ∷ []) []).cluster

abbrev cleaned : Cluster
cleaned = record { stored = some (kafka ("other" ∷ [])); objects = [] }

clean_up : delete client (kafka ("other" ∷ finalizer_name ∷ [])) cluster ≡ (cleaned, none)
unfolding delete after_cleanup store_without_finalizer delete_knative_kafka execute_built
    delete_stages build_manifest sections section add_rbac_proxy_to_manifest
    enable_control_plane_manifest execute_stages transform delete_resources
clean_up = refl

delete_lem_example :
    (deleted : Kafka × Cluster) × (refetched : Kafka) × (stored : Kafka) × (delete_knative_kafka
        client
        (kafka ("other" ∷ finalizer_name ∷ []))
        cluster
      ≡ (deleted, none))
    × (client.get "knative-eventing" "knative-kafka" deleted.1 ≡ found refetched)
    × (client.update stored deleted.1 ≡ (cleaned, none))
    × (has_finalizer finalizer_name stored ≡ false)
    × ((f : String)
        → (f == finalizer_name) ≡ false
        → has_finalizer f stored ≡ has_finalizer f refetched)
delete_lem_example =
    delete_lem client (kafka ("other" ∷ finalizer_name ∷ [])) cluster cleaned client-IsSets has_it
      clean_up

not_deleted :
    delete_knative_kafka broken (kafka (finalizer_name ∷ [])) cluster
    ≡ ((kafka (finalizer_name ∷ []), cluster), some (wrap "failed to remove resources: " refused))
unfolding delete_knative_kafka execute_built delete_stages build_manifest sections section
    add_rbac_proxy_to_manifest enable_control_plane_manifest execute_stages transform
    delete_resources
not_deleted = refl

abbrev ended : State Resource Conditions Cluster
unfolding execute_stages install_stages stages_after_finalizers configure ensure_finalizers
    configured transform remove_creation_timestamp handle_tls_resources is_tls_enabled
    features_enabled apply apply_bindings apply_rest apply_part after_apply mark_installed
    mark_install_succeeded check_deployments check_stateful_sets check_each after_get
    after_conversion is_deployment_available is_stateful_set_available mark_deployments_available
    mark_stateful_sets_available
ended = (execute_stages client (install_stages client) st).0

runs : execute_stages client (install_stages client) st ≡ (ended, none)
unfolding execute_stages install_stages stages_after_finalizers configure ensure_finalizers
    configured transform remove_creation_timestamp handle_tls_resources is_tls_enabled
    features_enabled apply apply_bindings apply_rest apply_part after_apply mark_installed
    mark_install_succeeded check_deployments check_stateful_sets check_each after_get
    after_conversion is_deployment_available is_stateful_set_available mark_deployments_available
    mark_stateful_sets_available
runs = refl

install_stages-is_ready_example : is_ready client.condition_set ended.instance.status ≡ (
    all_deployments_up client conditions-IsConditionSet ended.manifest ended.cluster
    && all_stateful_sets_up client conditions-IsConditionSet ended.manifest ended.cluster)
install_stages-is_ready_example =
    install_stages-is_ready client conditions-IsConditionSet st ended runs

abbrev texts : Texts
texts = record { sort = λ xs. xs; format_int = λ n. "10"; replace_level = λ xml level. level }

abbrev controller : Configuring.Resource
controller = record {
  kind = "Deployment";
  name = "kafka-controller";
  entries = [];
  args = "--old" ∷ [];
  replicas = none;
}

configure_eventing_kafka_lem_example :
    (configure_eventing_kafka texts spec controller).args
    ≡ "--disable-controllers=source-controller,channel-controller" ∷ []
unfolding join
configure_eventing_kafka_lem_example = configure_eventing_kafka_lem texts spec controller
