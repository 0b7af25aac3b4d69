-- ===== src/Webhook/Tests.antt =====
-- The theorems about the webhooks at concrete objects.
use serverless_operator.Common.{
  ◌≡◌, refl, Bool, true, false, ◌&&◌, ◌||◌, none, some, [], ◌∷◌, ok, err,
}
use serverless_operator.Kafka.Spec.{KnativeKafka}
use serverless_operator.Webhook.{
  World, Instance, validate_kafka, IngressConfigs, default_to_kourier, handle, errored,
  validation_response, run_stages, validate_namespace, validate_loneliness, validate_channel,
  validate_eventing, kafka_dependencies,
}
use serverless_operator.Webhook.Allowed.{in_namespace, lonely, well_shaped, installed}
use serverless_operator.Webhook.Laws.{validate_kafka-allowed}

abbrev world : World
world = record {
  required_namespace = some "knative-eventing";
  instances = λ namespace. ok ("knative-kafka" ∷ []);
  eventings = λ namespace. ok ("knative-eventing" ∷ []);
}

abbrev kafka : KnativeKafka Bool
kafka = record {
  name = "knative-kafka";
  namespace = "knative-eventing";
  deleting = false;
  finalizers = [];
  spec = record {
    broker = record {
      enabled = true;
      default_config = record {
        bootstrap_servers = "";
        num_partitions = 10;
        replication_factor = 3;
        auth_secret_name = "";
      };
    };
    source = record { enabled = false };
    sink = record { enabled = false };
    channel = record {
      enabled = true;
      bootstrap_servers = "kafka:9092";
      auth_secret_name = "";
      auth_secret_namespace = "";
    };
    config = [];
    high_availability = none;
    logging = none;
  };
  status = record { conditions = true; version = "" };
}

accepted : handle (validate_kafka world) (ok kafka) ≡ validation_response true ""
unfolding handle validate_kafka run_stages validate_namespace validate_loneliness validate_channel
    validate_eventing kafka_dependencies
accepted = refl

undecoded : handle (validate_kafka world {S = Bool}) (err "bad") ≡ errored 400 "bad"
unfolding handle
undecoded = refl

validate_kafka-allowed_example : (validate_kafka world kafka).allowed ≡ (
    in_namespace world.required_namespace kafka.namespace
    && (lonely (world.instances kafka.namespace) kafka.name
        && (well_shaped kafka.spec.channel
            && ((kafka.deleting || installed (world.eventings kafka.namespace)) && true))))
validate_kafka-allowed_example = validate_kafka-allowed world kafka

abbrev instance_of : Instance
instance_of = record { name = "knative-serving"; namespace = "knative-serving" }

abbrev nothing_enabled : IngressConfigs
nothing_enabled = record { istio = false; kourier = false; contour = false }

abbrev kourier_enabled : IngressConfigs
kourier_enabled = record { istio = false; kourier = true; contour = false }

defaulted : default_to_kourier (some nothing_enabled) ≡ some kourier_enabled
unfolding default_to_kourier
defaulted = refl
