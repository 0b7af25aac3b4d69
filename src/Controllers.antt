-- ===== src/Controllers.antt =====
-- The controllers of KnativeServing and KnativeEventing (knative-operator/pkg/controller) and what
-- they install in the console of OpenShift.
pub mod Spec
pub mod ConfigMaps
pub mod Certs
pub mod Manifests
pub mod Finalizer
pub mod CliDownload
pub mod Serving
pub mod Eventing
mod Tests
