-- ===== src/Transform.antt =====
-- The transformers of openshift-knative-operator/pkg/common and of knative-operator: functions that
-- change one resource of a manifest.
pub mod Spec
pub mod Environment
pub mod Security
pub mod Certificates
pub mod Metadata
pub mod Images
pub mod Versions
pub mod Checksum
mod Tests
