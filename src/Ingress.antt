-- ===== src/Ingress.antt =====
-- serving/ingress/pkg/reconciler/ingress: the controller that keeps OpenShift Routes in step with
-- Knative Ingresses. `Spec` has the data, `Routes` the translation, `Reconcile` the controller;
-- the other children prove.
pub mod Spec
pub mod Routes
pub mod Hosts
pub mod Security
pub mod Ownership
pub mod Shape
pub mod Api
pub mod Reconcile
pub mod Frame
pub mod Loops
pub mod Existing
pub mod Converge
pub mod Finalize
pub mod Steady
mod Tests
