-- ===== src/Webhook.antt =====
-- The admission webhooks of knative-operator/pkg/webhook: the validators of KnativeKafka,
-- KnativeServing and KnativeEventing, and the defaults of KnativeServing.
pub mod Allowed
pub mod Laws
mod Tests
use serverless_operator.Common.{
  ℕ, String, Bool, true, false, ◌&&◌, ◌||◌, not, ◌==◌, Option, none, some, List, [], ◌∷◌,
  if◌then◌else◌, Result, ok, err, ◌<>◌, any,
}
use serverless_operator.Kafka.Spec.{KnativeKafka, KnativeKafkaSpec, Channel}

-- the three results of a validation
pub record Verdict : Type 0 where
  pub allowed : Bool
  pub reason : String
  pub error : Option String

abbrev pub allow : Verdict
allow = record { allowed = true; reason = ""; error = none }

abbrev pub deny : String → Verdict
deny reason = record { allowed = false; reason = reason; error = none }

abbrev pub fail : String → String → Verdict
fail reason e = record { allowed = false; reason = reason; error = some e }

-- The results before the loop over the stages, then the loop: it returns where one does not allow.
unfoldable pub run_stages : {K : Type 0} → List (K → Verdict) → K → Verdict → Verdict
run_stages [] k last = last
run_stages (stage ∷ stages) k last =
    let rest = run_stages stages k (stage k) in if (stage k).allowed then rest else stage k

abbrev pub zero_verdict : Verdict
zero_verdict = record { allowed = false; reason = ""; error = none }

-- The environment variable that requires a namespace, and the namespace of the object.
unfoldable pub validate_namespace : String → Option String → String → Verdict
validate_namespace kind none namespace = allow
validate_namespace kind (some required) namespace =
    if not (required == namespace)
    then deny (kind <> " may only be created in " <> required <> " namespace")
    else allow

-- The answer to the List in the namespace of the object: the names of the instances.
unfoldable pub validate_loneliness : String → Result String (List String) → String → Verdict
validate_loneliness kind (err e) name = fail ("Unable to list " <> kind <> "s") e
validate_loneliness kind (ok names) name =
    if any (λ n. not (name == n)) names
    then deny ("Only one " <> kind <> " allowed per namespace")
    else allow

unfoldable pub validate_channel : Channel → Verdict
validate_channel c =
    if c.enabled && c.bootstrap_servers == ""
    then deny "spec.channel.bootStrapServers is a required detail when spec.channel.enabled is true"
    else if not (c.auth_secret_name == "") && c.auth_secret_namespace == ""
    then deny
        "spec.channel.authSecretNamespace is required when spec.channel.authSecretName is defined"
    else if not (c.auth_secret_namespace == "") && c.auth_secret_name == ""
    then deny
        "spec.channel.authSecretName is required when spec.channel.authSecretNamespace is defined"
    else allow

unfoldable pub validate_eventing : Result String (List String) → Verdict
validate_eventing (err e) = fail "Unable to list KnativeEventing instance" e
validate_eventing (ok []) = deny "KnativeEventing instance must be installed before KnativeKafka"
validate_eventing (ok (n ∷ ns)) = allow

-- What the webhooks read: the environment variable of the kind, and the lists of the instances of
-- the kind and of KnativeEventing, by namespace.
pub record World : Type 0 where
  pub required_namespace : Option String
  pub instances : String → Result String (List String)
  pub eventings : String → Result String (List String)

module _ (world : World) {S : Type 0} where
  abbrev pub kafka_namespace : KnativeKafka S → Verdict
  unfolding validate_namespace
  kafka_namespace ke = validate_namespace "KnativeKafka" world.required_namespace ke.namespace

  abbrev pub kafka_loneliness : KnativeKafka S → Verdict
  unfolding validate_loneliness
  kafka_loneliness ke = validate_loneliness "KnativeKafka" (world.instances ke.namespace) ke.name

  abbrev pub kafka_shape : KnativeKafka S → Verdict
  unfolding validate_channel
  kafka_shape ke = validate_channel ke.spec.channel

  unfoldable pub kafka_dependencies : KnativeKafka S → Verdict
  unfolding validate_eventing
  kafka_dependencies ke =
      if ke.deleting then allow else validate_eventing (world.eventings ke.namespace)

  unfoldable pub validate_kafka : KnativeKafka S → Verdict
  unfolding run_stages kafka_namespace kafka_loneliness kafka_shape kafka_dependencies
  validate_kafka ke =
      run_stages (kafka_namespace ∷ kafka_loneliness ∷ kafka_shape ∷ kafka_dependencies ∷ []) ke
        zero_verdict

-- The fields of a KnativeServing or a KnativeEventing that the validators read.
pub record Instance : Type 0 where
  pub name : String
  pub namespace : String

module _ (world : World) where
  unfoldable pub validate_serving : Instance → Verdict
  unfolding run_stages validate_namespace validate_loneliness
  validate_serving ks =
      run_stages
        ((λ i. validate_namespace "KnativeServing" world.required_namespace i.namespace)
          ∷ (λ i. validate_loneliness "KnativeServing" (world.instances i.namespace) i.name)
          ∷ [])
        ks zero_verdict

  unfoldable pub validate_eventing_instance : Instance → Verdict
  unfolding run_stages validate_namespace validate_loneliness
  validate_eventing_instance ke =
      run_stages
        ((λ i. validate_namespace "KnativeEventing" world.required_namespace i.namespace)
          ∷ (λ i. validate_loneliness "KnativeEventing" (world.instances i.namespace) i.name)
          ∷ [])
        ke zero_verdict

-- admission.Errored with its status, or admission.ValidationResponse
pub data Response : Type 0 where
  errored : ℕ → String → Response
  validation_response : Bool → String → Response

abbrev pub respond : Verdict → Option String → Response
respond v none = validation_response v.allowed v.reason
respond v (some e) = errored 500 e

-- Handle, on what the decoder returns.
unfoldable pub handle : {K : Type 0} → (K → Verdict) → Result String K → Response
handle validate (err e) = errored 400 e
handle validate (ok k) = respond (validate k) (validate k).error

-- ks.Spec.Ingress: which of the three are enabled
pub record IngressConfigs : Type 0 where
  pub istio : Bool
  pub kourier : Bool
  pub contour : Bool

unfoldable pub default_to_kourier : Option IngressConfigs → Option IngressConfigs
default_to_kourier none = none
default_to_kourier (some i) =
    if not i.istio && not i.kourier && not i.contour
    then some (record i { kourier = true })
    else some i
