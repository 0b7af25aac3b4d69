-- ===== src/Kafka.antt =====
-- The controller of KnativeKafka: knative-operator/pkg/controller/knativekafka, with the types of
-- knative-operator/pkg/apis/operator/v1alpha1.
pub mod Spec
pub mod Manifest
pub mod Partition
pub mod Client
pub mod Apply
pub mod Ordered
pub mod Stages
pub mod Finalizers
pub mod Checks
pub mod Readiness
pub mod Controller
pub mod Configuring
mod Tests
