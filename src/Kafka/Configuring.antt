-- ===== src/Kafka/Configuring.antt =====
-- configureEventingKafka and setKafkaDeployments of knativekafka_controller.go, and StringMap of
-- knative-operator/pkg/common/util.go. The errors of writing a nested field, which are those of a
-- field of another type, are left out.
pub mod Laws
use serverless_operator.Common.{
  ℕ, String, Bool, true, false, ◌&&◌, ◌||◌, not, ◌==◌, Option, none, some, List, [], ◌∷◌,
  if◌then◌else◌, ◌<>◌, Dict, lookup, insert, remove, has_key, join, any, Result, ok, err, map,
}
use serverless_operator.Kafka.Spec.{
  KnativeKafka, KnativeKafkaSpec, Broker, Channel, Logging, BrokerDefaultConfig,
}

-- sort.Strings, strconv.FormatInt, the replacement of `level.*=.*".*"` in a text.
pub record Texts : Type 0 where
  pub sort : List String → List String
  pub format_int : ℕ → String
  pub replace_level : String → String → String

-- What the transformers read and write of a resource: its kind, its name, the data of a ConfigMap,
-- the arguments of the first container and the replicas of a Deployment.
pub record Resource : Type 0 where
  pub kind : String
  pub name : String
  pub entries : Dict String
  pub args : List String
  pub replicas : Option ℕ

abbrev pub broker_controller : String
broker_controller = "BROKER"

abbrev pub sink_controller : String
sink_controller = "SINK"

abbrev pub source_controller : String
source_controller = "SOURCE"

abbrev pub channel_controller : String
channel_controller = "CHANNEL"

abbrev pub kafka_controllers : Dict String
kafka_controllers =
    (
      broker_controller,
      "broker-controller,trigger-controller,namespaced-broker-controller,namespaced-trigger-controller",
    )
    ∷ (sink_controller, "sink-controller")
    ∷ (source_controller, "source-controller")
    ∷ (channel_controller, "channel-controller")
    ∷ []

-- an enabled component is removed from the map
unfoldable pub remove_if : Bool → String → Dict String → Dict String
unfolding remove
remove_if enabled key m = if enabled then remove key m else m

unfoldable pub disabled_kafka_controllers : KnativeKafkaSpec → Dict String
unfolding remove_if
disabled_kafka_controllers spec = remove_if spec.channel.enabled channel_controller (
    remove_if spec.source.enabled source_controller (
      remove_if spec.sink.enabled sink_controller
        (remove_if spec.broker.enabled broker_controller kafka_controllers)))

abbrev pub values : Dict String → List String
values [] = []
values ((k, v) ∷ m) = v ∷ values m

abbrev pub has_logging_config : Dict (Dict String) → Bool
unfolding has_key
has_logging_config config = has_key "kafka-config-logging" config

abbrev pub log_level : Option Logging → String
log_level none = "INFO"
log_level (some logging) = logging.level

-- a field that is written only where the value is not empty
abbrev pub insert_if_set : String → String → Dict String → Dict String
unfolding insert
insert_if_set key value m = if not (value == "") then insert key value m else m

abbrev pub kafka_ha_components : List String
kafka_ha_components = "kafka-controller" ∷ "kafka-webhook-eventing" ∷ []

abbrev pub contains : List String → String → Bool
contains array name = any (λ component. name == component) array

unfoldable pub set_kafka_deployments : ℕ → Resource → Resource
set_kafka_deployments replicas u =
    if u.kind == "Deployment" && contains kafka_ha_components u.name
    then record u { replicas = some replicas }
    else u

module _ (texts : Texts) where
  -- StringValues
  abbrev pub string_values : Dict String → String
  unfolding join
  string_values m = join "," (texts.sort (values m))

  -- the arguments from the disabled controllers
  abbrev pub args_of : Dict String → List String
  args_of [] = []
  args_of (e ∷ m) = ("--disable-controllers=" <> string_values (e ∷ m)) ∷ []

  abbrev pub with_logging : KnativeKafkaSpec → Resource → Resource
  unfolding lookup insert
  with_logging spec u = record u {
    entries =
        insert "config.xml"
          (texts.replace_level (elim (lookup "config.xml" u.entries) [ none ↦ "" | some xml ↦ xml ])
            (log_level spec.logging))
          u.entries;
  }

  unfoldable pub broker_entries : BrokerDefaultConfig → Dict String → Dict String
  unfolding insert insert_if_set
  broker_entries config m = insert_if_set "auth.secret.ref.name" config.auth_secret_name (
      insert "default.topic.replication.factor" (texts.format_int config.replication_factor) (
        insert "default.topic.partitions" (texts.format_int config.num_partitions)
          (insert "bootstrap.servers" config.bootstrap_servers m)))

  unfoldable pub channel_entries : Channel → Dict String → Dict String
  unfolding insert insert_if_set
  channel_entries channel m =
      insert_if_set "auth.secret.ref.namespace" channel.auth_secret_namespace (
        insert_if_set "auth.secret.ref.name" channel.auth_secret_name
          (insert "bootstrap.servers" channel.bootstrap_servers m))

  -- The three blocks on ConfigMaps; a resource has one name, so at most one of them applies.
  abbrev pub configure_logging : KnativeKafkaSpec → Resource → Resource
  unfolding with_logging has_logging_config
  configure_logging spec u =
      if u.kind == "ConfigMap"
        && u.name == "kafka-config-logging"
        && not (has_logging_config spec.config)
      then with_logging spec u
      else u

  abbrev pub configure_broker : KnativeKafkaSpec → Resource → Resource
  unfolding broker_entries
  configure_broker spec u =
      if u.kind == "ConfigMap" && u.name == "kafka-broker-config"
      then record u { entries = broker_entries spec.broker.default_config u.entries }
      else u

  abbrev pub configure_channel : KnativeKafkaSpec → Resource → Resource
  unfolding channel_entries
  configure_channel spec u =
      if u.kind == "ConfigMap" && u.name == "kafka-channel-config"
      then record u { entries = channel_entries spec.channel u.entries }
      else u

  unfoldable pub configure_eventing_kafka : KnativeKafkaSpec → Resource → Resource
  unfolding disabled_kafka_controllers configure_logging configure_broker configure_channel
  configure_eventing_kafka spec u =
      if u.kind == "Deployment" && u.name == "kafka-controller"
      then record u { args = args_of (disabled_kafka_controllers spec) }
      else configure_channel spec (configure_broker spec (configure_logging spec u))

-- types.NamespacedName of a request
abbrev pub request_of : {S : Type 0} → KnativeKafka S → String × String
request_of kk = (kk.namespace, kk.name)

-- filteredGlobalResync: a failed List is only logged, and the list is then empty.
unfoldable pub filtered_global_resync :
    {S O : Type 0} → (O → Bool) → Result String (List (KnativeKafka S)) → O → List (String × String)
filtered_global_resync filter (err e) object = []
filtered_global_resync filter (ok kks) object = if filter object then map request_of kks else []
