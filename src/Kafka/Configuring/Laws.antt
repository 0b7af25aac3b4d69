-- ===== src/Kafka/Configuring/Laws.antt =====
-- The arguments of the Kafka controller, and what the ConfigMaps hold.
use serverless_operator.Common.{
  ◌∙◌, ◌&&◌, String, ◌≡◌, refl, sym, Bool, true, false, not, ◌==◌, Option, some, [], if◌then◌else◌,
  Dict, lookup, insert, remove, lookup-insert, eq_iff, filter_keys, List, ◌∷◌, ◌++◌, ◌<>◌, join,
  Bool-cases, inl, inr,
}
use serverless_operator.Kafka.Spec.{KnativeKafkaSpec, Channel}
use serverless_operator.Kafka.Configuring.{
  Texts, Resource, configure_eventing_kafka, configure_logging, configure_broker, configure_channel,
  with_logging, string_values, kafka_controllers, broker_controller, sink_controller,
  source_controller, channel_controller, remove_if, disabled_kafka_controllers, args_of,
  insert_if_set, channel_entries,
}

abbrev pub unless : Bool → String → List String
unless true controllers = []
unless false controllers = controllers ∷ []

-- The controllers that have nothing to do, of the components that are not enabled.
abbrev pub idle_controllers : (broker sink source channel : Bool) → List String
idle_controllers broker sink source channel =
    unless broker
      "broker-controller,trigger-controller,namespaced-broker-controller,namespaced-trigger-controller"
    ++ (unless sink "sink-controller"
        ++ (unless source "source-controller" ++ unless channel "channel-controller"))

-- The argument that disables some controllers; none where there are none to disable.
abbrev pub disabling_args : Texts → List String → List String
disabling_args texts [] = []
disabling_args texts (c ∷ cs) = ("--disable-controllers=" <> join "," (texts.sort (c ∷ cs))) ∷ []

args_of_lem :
    (texts : Texts) (broker sink source channel : Bool)
    → args_of texts (
        remove_if channel channel_controller (
          remove_if source source_controller (
            remove_if sink sink_controller (remove_if broker broker_controller kafka_controllers))))
      ≡ disabling_args texts (idle_controllers broker sink source channel)
unfolding string_values remove_if remove filter_keys join
args_of_lem texts true true true true = refl
args_of_lem texts true true true false = refl
args_of_lem texts true true false true = refl
args_of_lem texts true true false false = refl
args_of_lem texts true false true true = refl
args_of_lem texts true false true false = refl
args_of_lem texts true false false true = refl
args_of_lem texts true false false false = refl
args_of_lem texts false true true true = refl
args_of_lem texts false true true false = refl
args_of_lem texts false true false true = refl
args_of_lem texts false true false false = refl
args_of_lem texts false false true true = refl
args_of_lem texts false false true false = refl
args_of_lem texts false false false true = refl
args_of_lem texts false false false false = refl

keep_args : (c : Bool) (u v : Resource) → v.args ≡ u.args → (if c then v else u).args ≡ u.args
keep_args true u v h = h
keep_args false u v h = refl

-- The arguments of the Deployment "kafka-controller" become one that disables the controllers of exactly
-- the components that are not enabled, sorted and separated by commas, and none where all four are
-- enabled. The arguments of every other resource stay as they are.
pub configure_eventing_kafka_lem :
    (texts : Texts) (spec : KnativeKafkaSpec) (u : Resource)
    → (configure_eventing_kafka texts spec u).args ≡ (
        if u.kind == "Deployment" && u.name == "kafka-controller"
        then disabling_args texts (
            idle_controllers spec.broker.enabled spec.sink.enabled spec.source.enabled
              spec.channel.enabled)
        else u.args)
unfolding configure_eventing_kafka disabled_kafka_controllers configure_logging configure_broker
    configure_channel
configure_eventing_kafka_lem texts spec u =
    elim (Bool-cases (u.kind == "Deployment" && u.name == "kafka-controller")) [
      | inl e ↦ rw e (
          args_of_lem texts spec.broker.enabled spec.sink.enabled spec.source.enabled
            spec.channel.enabled)
      | inr e ↦
          let logged = configure_logging texts spec u in
          let brokered = configure_broker texts spec logged in
          rw e (
            keep_args _ brokered _ refl
            ∙ keep_args _ logged _ refl
            ∙ keep_args _ u (with_logging texts spec u) refl)
    ]

abbrev pub or_old : String → Option String → Option String
or_old value old = if not (value == "") then some value else old

if_same : {A : Type 0} (c : Bool) (x : A) → x ≡ (if c then x else x)
if_same true x = refl
if_same false x = refl

lookup-insert_unless :
    (empty : Bool) (key value k : String) (m : Dict String)
    → lookup k (if not empty then insert key value m else m)
      ≡ (if key == k then (if not empty then some value else lookup k m) else lookup k m)
lookup-insert_unless true key value k m = if_same (key == k) (lookup k m)
lookup-insert_unless false key value k m = lookup-insert key k value m

lookup-insert_if_set :
    (key value k : String) (m : Dict String)
    → lookup k (insert_if_set key value m)
      ≡ (if key == k then or_old value (lookup k m) else lookup k m)
unfolding insert_if_set
lookup-insert_if_set key value k m = lookup-insert_unless (value == "") key value k m

-- In the ConfigMap of the channels, the bootstrap servers are those of the spec, the name and the
-- namespace of the secret are those of the spec where they are not empty and as they were otherwise,
-- and every other key is as it was.
pub channel_entries_lem :
    (texts : Texts) (channel : Channel) (m : Dict String) (k : String)
    → lookup k (channel_entries texts channel m) ≡ (
        if "auth.secret.ref.namespace" == k
        then or_old channel.auth_secret_namespace (lookup k m)
        else if "auth.secret.ref.name" == k
        then or_old channel.auth_secret_name (lookup k m)
        else if "bootstrap.servers" == k
        then some channel.bootstrap_servers
        else lookup k m)
unfolding channel_entries
channel_entries_lem texts channel m k = elim (Bool-cases ("auth.secret.ref.namespace" == k)) [
  | inl e ↦
      rw (sym ((eq_iff "auth.secret.ref.namespace" k).0 e))
        (simp (lookup-insert_if_set, lookup-insert) refl)
  | inr e ↦ elim (Bool-cases ("auth.secret.ref.name" == k)) [
    | inl f ↦
        rw (sym ((eq_iff "auth.secret.ref.name" k).0 f))
          (simp (lookup-insert_if_set, lookup-insert) refl)
    | inr f ↦ simp (lookup-insert_if_set, lookup-insert, e, f) refl
  ]
]
