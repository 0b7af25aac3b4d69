-- ===== src/Kafka/Stages.antt =====
-- The other stages of knativekafka_controller.go, and their composition.
use serverless_operator.Common.{
  String, ◌==◌, Bool, true, false, ◌&&◌, Option, none, some, List, [], ◌∷◌, ◌++◌, if◌then◌else◌,
  eqb, leb, Result, ok, err, select, any, map, ◌>>=◌,
}
use serverless_operator.Kafka.Spec.{
  KnativeKafka, KnativeKafkaSpec, KnativeKafkaStatus, mark_deployments_available,
  mark_deployments_not_ready, mark_stateful_sets_available, mark_stateful_set_not_ready,
}
use serverless_operator.Kafka.Client.{
  Client, Error, Answer, found, not_found, failed, State, Outcome, continue, Stage,
  DeploymentCondition, StatefulSet,
}

abbrev pub finalizer_name : String
finalizer_name = "knative-kafka-openshift"

abbrev pub or_default : {A : Type 0} → A → Option A → Option A
or_default a none = some a
or_default a (some b) = some b

unfoldable pub configured : KnativeKafkaSpec → KnativeKafkaSpec
configured spec = record spec {
  high_availability = or_default (record { replicas = some 1 }) spec.high_availability;
  logging = or_default (record { level = "INFO" }) spec.logging;
}

unfoldable pub is_deployment_available : List DeploymentCondition → Bool
is_deployment_available conditions =
    any (λ c. c.type == "Available" && c.status == "True") conditions

unfoldable pub is_stateful_set_available : StatefulSet → Bool
is_stateful_set_available ss = elim ss.replicas [
  | none ↦ eqb ss.ready_replicas 1
  | some replicas ↦
      if leb 1 replicas then leb 1 ss.ready_replicas else eqb replicas ss.ready_replicas
]

module _ {U S X : Type 0} (client : Client U S X) where
  unfoldable pub configure : Stage U S X
  unfolding configured
  configure st =
      (record st { instance = record (st.instance) { spec = configured st.instance.spec } }, none)

  abbrev pub with_finalizer : KnativeKafka S → KnativeKafka S
  with_finalizer instance = record instance {
    finalizers = instance.finalizers ++ (finalizer_name ∷ []);
  }

  -- after an Update that was called with `instance`, and that writes `returned` over it
  abbrev pub updated :
      State U S X → (instance returned : KnativeKafka S) → Outcome X → Outcome (State U S X)
  updated st instance returned (x, none) = (record st { instance = returned; cluster = x }, none)
  updated st instance returned (x, some e) =
      (record st { instance = instance; cluster = x }, some e)

  unfoldable pub ensure_finalizers : Stage U S X
  ensure_finalizers st =
      if any (λ f. f == finalizer_name) st.instance.finalizers
      then (st, none)
      else updated st (with_finalizer st.instance)
          (client.returned (with_finalizer st.instance) st.cluster)
          (client.update (with_finalizer st.instance) st.cluster)

  unfoldable pub transform : Stage U S X
  transform st = elim (client.transform st.instance st.cluster st.manifest) [
    | ok m ↦ (record st { manifest = m }, none)
    | err e ↦ (st, some e)
  ]

  unfoldable pub remove_creation_timestamp : Stage U S X
  remove_creation_timestamp st =
      (record st { manifest = map client.set_creation_timestamp st.manifest }, none)

  abbrev pub with_status : (KnativeKafkaStatus S → KnativeKafkaStatus S) → State U S X → State U S X
  with_status f st = record st { instance = record (st.instance) { status = f st.instance.status } }

  -- what is done with a resource, from whether it is available
  unfoldable pub after_conversion :
      (KnativeKafkaStatus S → KnativeKafkaStatus S)
      → Result Error Bool
      → State U S X
      → Outcome (State U S X)
      → Outcome (State U S X)
  after_conversion not_ready (err e) st rest = (st, some e)
  after_conversion not_ready (ok true) st rest = rest
  after_conversion not_ready (ok false) st rest = (with_status not_ready st, none)

  -- what is done on each answer to the Get
  unfoldable pub after_get :
      (KnativeKafkaStatus S → KnativeKafkaStatus S)
      → (U → Result Error Bool)
      → Answer U
      → State U S X
      → Outcome (State U S X)
      → Outcome (State U S X)
  unfolding after_conversion
  after_get not_ready is_available (not_found e) st rest = (with_status not_ready st, none)
  after_get not_ready is_available (failed e) st rest = (with_status not_ready st, some e)
  after_get not_ready is_available (found resource) st rest =
      after_conversion not_ready (is_available resource) st rest

  -- The loop that the two checks have, with how each marks the status and tests a resource.
  unfoldable pub check_each :
      (KnativeKafkaStatus S → KnativeKafkaStatus S)
      → (KnativeKafkaStatus S → KnativeKafkaStatus S)
      → (U → Result Error Bool)
      → List U
      → Stage U S X
  unfolding after_get
  check_each available not_ready is_available [] st = (with_status available st, none)
  check_each available not_ready is_available (u ∷ us) st =
      after_get not_ready is_available (client.get_resource u st.cluster) st
        (check_each available not_ready is_available us st)

  abbrev pub deployment_is_available : U → Result Error Bool
  unfolding is_deployment_available
  deployment_is_available resource = do
    conditions ← client.to_deployment resource
    ok (is_deployment_available conditions)

  abbrev pub stateful_set_is_available : U → Result Error Bool
  unfolding is_stateful_set_available
  stateful_set_is_available resource = do
    ss ← client.to_stateful_set resource
    ok (is_stateful_set_available ss)

  unfoldable pub check_deployments : Stage U S X
  unfolding mark_deployments_available mark_deployments_not_ready check_each deployment_is_available
  check_deployments st =
      check_each (mark_deployments_available client.condition_set)
        (mark_deployments_not_ready client.condition_set) deployment_is_available
        (select (λ u. client.kind u == "Deployment") st.manifest) st

  unfoldable pub check_stateful_sets : Stage U S X
  unfolding mark_stateful_sets_available mark_stateful_set_not_ready check_each
      stateful_set_is_available
  check_stateful_sets st =
      check_each (mark_stateful_sets_available client.condition_set)
        (mark_stateful_set_not_ready client.condition_set) stateful_set_is_available
        (select (λ u. client.kind u == "StatefulSet") st.manifest) st

  -- each stage in sequence until one returns an error
  unfoldable pub execute_stages : List (Stage U S X) → Stage U S X
  execute_stages [] st = (st, none)
  execute_stages (stage ∷ stages) st = continue (stage st) (λ st'. execute_stages stages st')
