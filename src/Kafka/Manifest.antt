-- ===== src/Kafka/Manifest.antt =====
-- buildManifest of knativekafka_controller.go and AddRBACProxyToManifest of
-- knative-operator/pkg/monitoring/kafka_rbacproxy_transforms.go: which resources are installed and
-- which are deleted. A resource is of any type.
use serverless_operator.Common.{
  String, ◌≡◌, Bool, true, ◌||◌, not, List, [], ◌∷◌, ◌++◌, if◌then◌else◌, Result, ok, err, ◌>>=◌,
}
use serverless_operator.Kafka.Spec.{KnativeKafkaSpec}

pub data ManifestBuild : Type 0 where
  enabled_only disabled_only build_all : ManifestBuild

-- monitoring.Component
pub record Component : Type 0 where
  pub name : String
  pub service_account_name : String

abbrev pub kafka_controller : Component
kafka_controller = record { name = "kafka-controller"; service_account_name = "kafka-controller" }

abbrev pub kafka_webhook : Component
kafka_webhook = record {
  name = "kafka-webhook-eventing";
  service_account_name = "kafka-webhook-eventing";
}

abbrev pub kafka_broker_receiver : Component
kafka_broker_receiver = record {
  name = "kafka-broker-receiver";
  service_account_name = "knative-kafka-broker-data-plane";
}

abbrev pub kafka_broker_dispatcher : Component
kafka_broker_dispatcher = record {
  name = "kafka-broker-dispatcher";
  service_account_name = "knative-kafka-broker-data-plane";
}

abbrev pub kafka_sink_receiver : Component
kafka_sink_receiver = record {
  name = "kafka-sink-receiver";
  service_account_name = "knative-kafka-sink-data-plane";
}

abbrev pub kafka_channel_receiver : Component
kafka_channel_receiver = record {
  name = "kafka-channel-receiver";
  service_account_name = "knative-kafka-channel-data-plane";
}

abbrev pub kafka_channel_dispatcher : Component
kafka_channel_dispatcher = record {
  name = "kafka-channel-dispatcher";
  service_account_name = "knative-kafka-channel-data-plane";
}

abbrev pub kafka_source_dispatcher : Component
kafka_source_dispatcher = record {
  name = "kafka-source-dispatcher";
  service_account_name = "knative-kafka-source-data-plane";
}

-- The raw manifests of the reconciler, and what builds manifests elsewhere.
pub record Manifests (U E : Type 0) : Type 0 where
  pub raw_kafka_channel : List U
  pub raw_kafka_source : List U
  pub raw_kafka_controller : List U
  pub raw_kafka_broker : List U
  pub raw_kafka_sink : List U
  -- monitoring.CreateClusterRoleBindingManifest(serviceAccountName, namespace)
  pub cluster_role_binding : String → String → Result E (List U)
  -- what monitoring.AppendManifestsForComponent(name, namespace, m) appends to m
  pub component_manifests : String → String → Result E (List U)
  -- mf.ManifestFrom(mf.Slice(...), ...)
  pub manifest_from : List U → Result E (List U)
  -- fmt.Errorf with a prefix and %w
  pub wrap_error : String → E → E

-- a slice is taken as it is, without an error
pub record IsManifests {U E : Type 0} (ext : Manifests U E) : Type 0 where
  pub from_slice : (us : List U) → ext.manifest_from us ≡ ok us

unfoldable pub enable_control_plane_manifest : KnativeKafkaSpec → Bool
enable_control_plane_manifest spec =
    spec.broker.enabled || spec.sink.enabled || spec.source.enabled || spec.channel.enabled

-- The condition on a component, from whether it is enabled.
abbrev pub includes : ManifestBuild → Bool → Bool
includes build_all enabled = true
includes enabled_only enabled = enabled
includes disabled_only enabled = not enabled

module _ {U E : Type 0} (ext : Manifests U E) where
  unfoldable pub add_rbac_proxy_to_manifest : String → List Component → Result E (List U)
  add_rbac_proxy_to_manifest namespace [] = ok []
  add_rbac_proxy_to_manifest namespace (c ∷ cs) = do
    crb ← ext.cluster_role_binding c.service_account_name namespace
    own ← ext.component_manifests c.name namespace
    rest ← add_rbac_proxy_to_manifest namespace cs
    ok ((crb ++ own) ++ rest)

  -- what the block of one component appends
  unfoldable pub section :
      ManifestBuild → Bool → String → List Component → List U → Result E (List U)
  section build enabled namespace components raw =
      if includes build enabled
      then (do proxy ← add_rbac_proxy_to_manifest namespace components; ok (proxy ++ raw))
      else ok []

  -- the blocks of the components, in the order of the source
  unfoldable pub sections : String → KnativeKafkaSpec → ManifestBuild → Result E (List U)
  sections namespace spec build = do
    channel ←
        section build spec.channel.enabled namespace
          (kafka_channel_receiver ∷ kafka_channel_dispatcher ∷ []) ext.raw_kafka_channel
    control ←
        section build (enable_control_plane_manifest spec) namespace
          (kafka_controller ∷ kafka_webhook ∷ []) ext.raw_kafka_controller
    source ←
        section build spec.source.enabled namespace (kafka_source_dispatcher ∷ [])
          ext.raw_kafka_source
    broker ←
        section build spec.broker.enabled namespace
          (kafka_broker_receiver ∷ kafka_broker_dispatcher ∷ []) ext.raw_kafka_broker
    sink ← section build spec.sink.enabled namespace (kafka_sink_receiver ∷ []) ext.raw_kafka_sink
    ok (channel ++ (control ++ (source ++ (broker ++ sink))))

  -- the error with the prefix of the code
  abbrev pub prefixed : Result E (List U) → Result E (List U)
  prefixed (ok manifest) = ok manifest
  prefixed (err e) = err (ext.wrap_error "failed to build Kafka manifest: " e)

  unfoldable pub build_manifest : String → KnativeKafkaSpec → ManifestBuild → Result E (List U)
  build_manifest namespace spec build = do
    resources ← sections namespace spec build
    prefixed (ext.manifest_from resources)
