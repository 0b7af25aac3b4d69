-- ===== src/Kafka/Spec.antt =====
-- The types of knative-operator/pkg/apis/operator/v1alpha1: the spec of a KnativeKafka and its
-- status (knativekafka_types.go, knativekafka_lifecycle.go).
use serverless_operator.Common.{
  ℕ, String, ◌≡◌, ◌≢◌, Bool, true, false, ◌&&◌, Option, List, Dict, ◌<>◌,
}

pub record BrokerDefaultConfig : Type 0 where
  pub bootstrap_servers : String
  pub num_partitions : ℕ
  pub replication_factor : ℕ
  pub auth_secret_name : String

pub record Broker : Type 0 where
  pub enabled : Bool
  pub default_config : BrokerDefaultConfig

pub record Source : Type 0 where
  pub enabled : Bool

pub record Sink : Type 0 where
  pub enabled : Bool

pub record Channel : Type 0 where
  pub enabled : Bool
  pub bootstrap_servers : String
  pub auth_secret_name : String
  pub auth_secret_namespace : String

pub record Logging : Type 0 where
  pub level : String

pub record HighAvailability : Type 0 where
  pub replicas : Option ℕ

-- The workload overrides are only passed on; they are left out.
pub record KnativeKafkaSpec : Type 0 where
  pub broker : Broker
  pub source : Source
  pub sink : Sink
  pub channel : Channel
  pub config : Dict (Dict String)
  pub high_availability : Option HighAvailability
  pub logging : Option Logging

-- The conditions that `kafkaCondSet` depends on.
pub data ConditionType : Type 0 where
  deployments_available stateful_sets_available install_succeeded : ConditionType

-- corev1.ConditionStatus; a condition that is not there is unknown
pub data ConditionStatus : Type 0 where
  true_status false_status unknown : ConditionStatus

-- apis.NewLivingConditionSet(...).Manage(is), over the conditions of a status.
pub record ConditionSet (S : Type 0) : Type 0 where
  pub initialize : S → S
  pub mark_true : ConditionType → S → S
  pub mark_false : ConditionType → String → String → S → S
  pub is_happy : S → Bool
  -- the status of a condition
  pub status_of : S → ConditionType → ConditionStatus

abbrev pub is_true : ConditionStatus → Bool
is_true true_status = true
is_true false_status = false
is_true unknown = false

-- Documented behaviour of the condition set: marking a condition sets it and no other, and after a
-- mark the set is happy where all the conditions are true.
pub record IsConditionSet {S : Type 0} (set : ConditionSet S) : Type 0 where
  pub marked_true : (c : ConditionType) (s : S) → set.status_of (set.mark_true c s) c ≡ true_status
  pub marked_true_other :
      (c d : ConditionType) (s : S)
      → c ≢ d
      → set.status_of (set.mark_true c s) d ≡ set.status_of s d
  pub marked_false :
      (c : ConditionType) (reason message : String) (s : S)
      → set.status_of (set.mark_false c reason message s) c ≡ false_status
  pub marked_false_other :
      (c d : ConditionType) (reason message : String) (s : S)
      → c ≢ d
      → set.status_of (set.mark_false c reason message s) d ≡ set.status_of s d
  pub happy_true :
      (c : ConditionType) (s : S)
      → set.is_happy (set.mark_true c s) ≡ (
          is_true (set.status_of (set.mark_true c s) deployments_available)
          && is_true (set.status_of (set.mark_true c s) stateful_sets_available)
          && is_true (set.status_of (set.mark_true c s) install_succeeded))
  pub happy_false :
      (c : ConditionType) (reason message : String) (s : S)
      → set.is_happy (set.mark_false c reason message s) ≡ false

pub record KnativeKafkaStatus (S : Type 0) : Type 0 where
  pub conditions : S
  pub version : String

pub record KnativeKafka (S : Type 0) : Type 0 where
  pub name : String
  pub namespace : String
  -- GetDeletionTimestamp() != nil
  pub deleting : Bool
  pub finalizers : List String
  pub spec : KnativeKafkaSpec
  pub status : KnativeKafkaStatus S

module _ {S : Type 0} (set : ConditionSet S) where
  unfoldable pub initialize_conditions : KnativeKafkaStatus S → KnativeKafkaStatus S
  initialize_conditions is = record is { conditions = set.initialize is.conditions }

  unfoldable pub is_ready : KnativeKafkaStatus S → Bool
  is_ready is = set.is_happy is.conditions

  unfoldable pub mark_install_succeeded : KnativeKafkaStatus S → KnativeKafkaStatus S
  mark_install_succeeded is = record is {
    conditions = set.mark_true install_succeeded is.conditions;
  }

  unfoldable pub mark_install_failed : String → KnativeKafkaStatus S → KnativeKafkaStatus S
  mark_install_failed msg is = record is {
    conditions =
        set.mark_false install_succeeded "Error" ("Install failed with message: " <> msg)
          is.conditions;
  }

  unfoldable pub mark_deployments_available : KnativeKafkaStatus S → KnativeKafkaStatus S
  mark_deployments_available is = record is {
    conditions = set.mark_true deployments_available is.conditions;
  }

  unfoldable pub mark_deployments_not_ready : KnativeKafkaStatus S → KnativeKafkaStatus S
  mark_deployments_not_ready is = record is {
    conditions =
        set.mark_false deployments_available "NotReady" "Waiting on deployments" is.conditions;
  }

  unfoldable pub mark_stateful_sets_available : KnativeKafkaStatus S → KnativeKafkaStatus S
  mark_stateful_sets_available is = record is {
    conditions = set.mark_true stateful_sets_available is.conditions;
  }

  unfoldable pub mark_stateful_set_not_ready : KnativeKafkaStatus S → KnativeKafkaStatus S
  mark_stateful_set_not_ready is = record is {
    conditions =
        set.mark_false stateful_sets_available "NotReady" "Waiting on StatefulSets" is.conditions;
  }
