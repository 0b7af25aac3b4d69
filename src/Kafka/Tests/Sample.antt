-- ===== src/Kafka/Tests/Sample.antt =====
-- A cluster that stores one KnativeKafka and a list of resources, and a client of it.
use serverless_operator.Common.{
  wrap, String, ◌≡◌, ◌≢◌, refl, ap, Bool, true, false, ◌&&◌, Option, none, some, List, [], ◌∷◌,
  ◌++◌, ok,
}
use serverless_operator.Kafka.Spec.{
  KnativeKafka, KnativeKafkaSpec, ConditionSet, IsConditionSet, ConditionType,
  deployments_available, stateful_sets_available, install_succeeded, ConditionStatus, true_status,
  false_status, unknown, is_true,
}
use serverless_operator.Kafka.Manifest.{Manifests, IsManifests}
use serverless_operator.Kafka.Client.{Client, Error, Answer, found, not_found, IsSets, State}
use serverless_operator.Kafka.Ordered.{IsSequential}

pub record Resource : Type 0 where
  pub kind : String
  pub name : String
  pub group : String

pub record Conditions : Type 0 where
  pub deployments : ConditionStatus
  pub stateful_sets : ConditionStatus
  pub install : ConditionStatus

abbrev get_condition : Conditions → ConditionType → ConditionStatus
get_condition s deployments_available = s.deployments
get_condition s stateful_sets_available = s.stateful_sets
get_condition s install_succeeded = s.install

abbrev set_condition : ConditionStatus → ConditionType → Conditions → Conditions
set_condition v deployments_available s = record s { deployments = v }
set_condition v stateful_sets_available s = record s { stateful_sets = v }
set_condition v install_succeeded s = record s { install = v }

abbrev pub conditions : ConditionSet Conditions
conditions = record {
  initialize = λ s. s;
  mark_true = λ c s. set_condition true_status c s;
  mark_false = λ c _ _ s. set_condition false_status c s;
  is_happy = λ s. is_true s.deployments && is_true s.stateful_sets && is_true s.install;
  status_of = get_condition;
}

set_condition_hit :
    (v : ConditionStatus) (c : ConditionType) (s : Conditions)
    → get_condition (set_condition v c s) c ≡ v
set_condition_hit v deployments_available s = refl
set_condition_hit v stateful_sets_available s = refl
set_condition_hit v install_succeeded s = refl

set_condition_miss :
    (v : ConditionStatus) (c d : ConditionType) (s : Conditions)
    → c ≢ d
    → get_condition (set_condition v c s) d ≡ get_condition s d
set_condition_miss v deployments_available deployments_available s ne = elim (ne refl) [ ]
set_condition_miss v deployments_available stateful_sets_available s ne = refl
set_condition_miss v deployments_available install_succeeded s ne = refl
set_condition_miss v stateful_sets_available deployments_available s ne = refl
set_condition_miss v stateful_sets_available stateful_sets_available s ne = elim (ne refl) [ ]
set_condition_miss v stateful_sets_available install_succeeded s ne = refl
set_condition_miss v install_succeeded deployments_available s ne = refl
set_condition_miss v install_succeeded stateful_sets_available s ne = refl
set_condition_miss v install_succeeded install_succeeded s ne = elim (ne refl) [ ]

happy_true_lem :
    (c : ConditionType) (s : Conditions)
    → conditions.is_happy (set_condition true_status c s) ≡ (
        is_true (get_condition (set_condition true_status c s) deployments_available)
        && is_true (get_condition (set_condition true_status c s) stateful_sets_available)
        && is_true (get_condition (set_condition true_status c s) install_succeeded))
happy_true_lem deployments_available s = refl
happy_true_lem stateful_sets_available s = refl
happy_true_lem install_succeeded s = refl

and_false_left : (a b : Bool) → (a && false && b) ≡ false
and_false_left true b = refl
and_false_left false b = refl

and_false_right : (a b : Bool) → (a && b && false) ≡ false
and_false_right true true = refl
and_false_right true false = refl
and_false_right false b = refl

happy_false_lem :
    (c : ConditionType) (s : Conditions)
    → conditions.is_happy (set_condition false_status c s) ≡ false
happy_false_lem deployments_available s = refl
happy_false_lem stateful_sets_available s =
    and_false_left (is_true s.deployments) (is_true s.install)
happy_false_lem install_succeeded s =
    and_false_right (is_true s.deployments) (is_true s.stateful_sets)

pub conditions-IsConditionSet : IsConditionSet conditions
conditions-IsConditionSet = record {
  marked_true = λ c s. set_condition_hit true_status c s;
  marked_true_other = λ c d s ne. set_condition_miss true_status c d s ne;
  marked_false = λ c _ _ s. set_condition_hit false_status c s;
  marked_false_other = λ c d _ _ s ne. set_condition_miss false_status c d s ne;
  happy_true = λ c s. happy_true_lem c s;
  happy_false = λ c _ _ s. happy_false_lem c s;
}

abbrev pub Kafka : Type 0
Kafka = KnativeKafka Conditions

pub record Cluster : Type 0 where
  pub stored : Option Kafka
  pub objects : List Resource

abbrev pub resource : String → String → String → Resource
resource kind name group = record { kind = kind; name = name; group = group }

abbrev pub manifests : Manifests Resource Error
manifests = record {
  raw_kafka_channel = resource "StatefulSet" "kafka-channel-dispatcher" "apps" ∷ [];
  raw_kafka_source = resource "StatefulSet" "kafka-source-dispatcher" "apps" ∷ [];
  raw_kafka_controller =
      resource "Deployment" "kafka-controller" "apps"
      ∷ resource "ClusterRole" "kafka-controller" "rbac.authorization.k8s.io"
      ∷ [];
  raw_kafka_broker = resource "Deployment" "kafka-broker-receiver" "apps" ∷ [];
  raw_kafka_sink = resource "Certificate" "kafka-sink-ingress" "cert-manager.io" ∷ [];
  cluster_role_binding = λ account namespace.
      ok (resource "ClusterRoleBinding" account "rbac.authorization.k8s.io" ∷ []);
  component_manifests = λ name namespace. ok [];
  manifest_from = λ us. ok us;
  wrap_error = λ prefix e. wrap prefix e;
}

pub manifests-IsManifests : IsManifests manifests
manifests-IsManifests = record { from_slice = λ us. refl }

abbrev answer : Option Kafka → Answer Kafka
answer none = not_found (record { message = "not found"; no_match = false })
answer (some k) = found k

abbrev pub client : Client Resource Conditions Cluster
client = record {
  manifests = manifests;
  condition_set = conditions;
  get = λ namespace name x. answer x.stored;
  update = λ k x. (record x { stored = some k }, none);
  returned = λ k x. k;
  update_status = λ k x. (record x { stored = some k }, none);
  same_status = λ a b. false;
  apply = λ us x. (record x { objects = x.objects ++ us }, none);
  delete = λ us x. (x, none);
  uninstall = λ us x. (record x { objects = [] }, none);
  get_resource = λ u x. found u;
  kind = λ u. u.kind;
  group = λ u. u.group;
  set_creation_timestamp = λ u. u;
  to_deployment = λ u. ok (record { type = "Available"; status = "True" } ∷ []);
  to_stateful_set = λ u. ok (record { replicas = some 3; ready_replicas = 1 });
  transform = λ k x us. ok us;
  config_features = λ namespace x. found [];
  transport_encryption = λ te. ok true;
  set_list = λ xs. xs;
  broker_version = "1.17";
}

pub client-IsSets : IsSets client
client-IsSets = record { any_list = λ p xs. refl }

append_assoc : (xs ys zs : List Resource) → (xs ++ (ys ++ zs)) ≡ ((xs ++ ys) ++ zs)
append_assoc [] ys zs = refl
append_assoc (x ∷ xs) ys zs = ap (λ l. x ∷ l) (append_assoc xs ys zs)

pub client-IsSequential : IsSequential client
client-IsSequential us vs x =
    ap (λ l. (record x { objects = l }, none)) (append_assoc x.objects us vs)

abbrev pub spec : KnativeKafkaSpec
spec = record {
  broker = record {
    enabled = true;
    default_config = record {
      bootstrap_servers = "kafka:9092";
      num_partitions = 10;
      replication_factor = 3;
      auth_secret_name = "";
    };
  };
  source = record { enabled = false };
  sink = record { enabled = true };
  channel = record {
    enabled = false;
    bootstrap_servers = "";
    auth_secret_name = "";
    auth_secret_namespace = "";
  };
  config = [];
  high_availability = none;
  logging = none;
}

abbrev pub kafka : List String → Kafka
kafka finalizers = record {
  name = "knative-kafka";
  namespace = "knative-eventing";
  deleting = false;
  finalizers = finalizers;
  spec = spec;
  status = record {
    conditions = record { deployments = unknown; stateful_sets = unknown; install = unknown };
    version = "";
  };
}

abbrev pub start : List String → List Resource → State Resource Conditions Cluster
start finalizers us = record {
  manifest = us;
  instance = kafka finalizers;
  cluster = record { stored = some (kafka finalizers); objects = [] };
}

abbrev pub refused : Error
refused = record { message = "refused"; no_match = false }

-- a cluster that takes no update and deletes nothing
abbrev pub broken : Client Resource Conditions Cluster
broken = record client { update = λ k x. (x, some refused); uninstall = λ us x. (x, some refused) }
