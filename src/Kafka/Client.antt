-- ===== src/Kafka/Client.antt =====
-- What the controller of KnativeKafka calls: the API server, the manifest library, and the parts of
-- the repository that build and transform manifests.
use serverless_operator.Common.{ℕ, String, ◌≡◌, Bool, Option, List, Dict, Result, any}
pub use serverless_operator.Common.{
  Error, wrap, Answer, found, not_found, failed, Outcome, continue, continue-eq-none, continue-last,
  wrapping, wrapping-eq-none,
}
use serverless_operator.Kafka.Spec.{KnativeKafka, ConditionSet}
use serverless_operator.Kafka.Manifest.{Manifests}

-- A condition of a Deployment: its type and its status.
pub record DeploymentCondition : Type 0 where
  pub type : String
  pub status : String

-- The fields of a StatefulSet that its availability depends on. An API server takes no negative
-- number of replicas.
pub record StatefulSet : Type 0 where
  pub replicas : Option ℕ
  pub ready_replicas : ℕ

-- U: a resource; S: the conditions of a status; X: the state of the cluster.
pub record Client (U S X : Type 0) : Type 0 where
  pub manifests : Manifests U Error
  pub condition_set : ConditionSet S
  -- client.Client on KnativeKafka: Get by name, Update, Status().Update; `returned` is what an
  -- Update without an error writes over the object that it is called with, the reply of the server
  pub get : String → String → X → Answer (KnativeKafka S)
  pub update : KnativeKafka S → X → X × Option Error
  pub returned : KnativeKafka S → X → KnativeKafka S
  pub update_status : KnativeKafka S → X → X × Option Error
  -- equality.Semantic.DeepEqual(original.Status, instance.Status)
  pub same_status : KnativeKafka S → KnativeKafka S → Bool
  -- Apply, Delete(IgnoreNotFound) and operatorcommon.Uninstall of a manifest
  pub apply : List U → X → X × Option Error
  pub delete : List U → X → X × Option Error
  pub uninstall : List U → X → X × Option Error
  -- manifest.Client.Get(&u)
  pub get_resource : U → X → Answer U
  -- u.GetKind(), u.GroupVersionKind().Group
  pub kind : U → String
  pub group : U → String
  pub set_creation_timestamp : U → U
  -- scheme.Scheme.Convert to a Deployment and to a StatefulSet
  pub to_deployment : U → Result Error (List DeploymentCondition)
  pub to_stateful_set : U → Result Error StatefulSet
  -- the transformers of r.transform, on a manifest
  pub transform : KnativeKafka S → X → List U → Result Error (List U)
  -- the data of ConfigMap config-features of a namespace
  pub config_features : String → X → Answer (Dict String)
  -- feature.NewFlagsConfigFromMap, then IsPermissiveTransportEncryption or
  -- IsStrictTransportEncryption
  pub transport_encryption : String → Result Error Bool
  -- sets.List of a set made of a list: its elements, sorted, each once
  pub set_list : List String → List String
  -- os.Getenv("KNATIVE_EVENTING_KAFKA_BROKER_VERSION")
  pub broker_version : String

-- The state of a run of stages: the manifest, the instance and the cluster.
pub record State (U S X : Type 0) : Type 0 where
  pub manifest : List U
  pub instance : KnativeKafka S
  pub cluster : X

abbrev pub Stage : Type 0 → Type 0 → Type 0 → Type 0
Stage U S X = State U S X → Outcome (State U S X)

-- Documented behaviour of the calls: the reply to an Update has the finalizers that were sent.
pub record IsStoring {U S X : Type 0} (client : Client U S X) : Type 0 where
  pub returned_finalizers :
      (instance : KnativeKafka S) (x : X)
      → (client.returned instance x).finalizers ≡ instance.finalizers

-- Documented behaviour of those calls: a set keeps the elements of the list it is made of.
pub record IsSets {U S X : Type 0} (client : Client U S X) : Type 0 where
  pub any_list : (p : String → Bool) (xs : List String) → any p (client.set_list xs) ≡ any p xs
