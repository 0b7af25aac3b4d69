-- ===== src/Controllers/Eventing.antt =====
-- knativeeventing_controller.go: Reconcile, its stages and its clean-up.
use serverless_operator.Common.{String, Bool, [], ◌∷◌, if◌then◌else◌, ok}
use serverless_operator.Common.Run.{Run, done, wrapping}
use serverless_operator.Transform.Spec.{Transformer}
use serverless_operator.Controllers.Spec.{Instance}
use serverless_operator.Controllers.Manifests.{Library, owner_annotations}
use serverless_operator.Controllers.Manifests.Dashboards
use serverless_operator.Controllers.Finalizer
use serverless_operator.Controllers.Finalizer.{InstanceClient, on_instance}

-- All that the controller calls.
pub record EventingClient (S C X : Type 0) : Type 0 where
  pub instances : InstanceClient S X
  pub library : Library C X
  pub console_installed : X → Bool

abbrev pub eventing_finalizer_name : String
eventing_finalizer_name = "knative-eventing-openshift"

abbrev pub eventing_owner : {S C : Type 0} → Instance S → Transformer C
eventing_owner instance =
    owner_annotations "eventing.knative.openshift.io/ownerName"
      "eventing.knative.openshift.io/ownerNamespace" instance.name instance.namespace

module _ {S C X : Type 0} (client : EventingClient S C X) where
  unfoldable pub install_dashboards : Instance S → Run X (Unit {0})
  unfolding Dashboards.apply
  install_dashboards instance x =
      if client.console_installed x
      then Dashboards.apply client.library "eventing" (eventing_owner instance) x
      else (x, ok tt)

  -- what delete does before it removes the finalizer
  unfoldable pub eventing_cleanup : Instance S → Run X (Unit {0})
  unfolding Dashboards.delete
  eventing_cleanup instance x =
      if client.console_installed x
      then wrapping "failed to delete resource dashboard configmaps: "
          (Dashboards.delete client.library "eventing" (eventing_owner instance)) x
      else (x, ok tt)

  unfoldable pub delete_eventing : Instance S → Run X (Unit {0})
  unfolding Finalizer.delete eventing_cleanup
  delete_eventing =
      Finalizer.delete client.instances "KnativeEventing" eventing_finalizer_name eventing_cleanup

  unfoldable pub reconcile_eventing : String → String → Run X (Unit {0})
  unfolding Finalizer.reconcile eventing_cleanup install_dashboards
  reconcile_eventing =
      Finalizer.reconcile client.instances "KnativeEventing" eventing_finalizer_name
        eventing_cleanup (done tt) (on_instance install_dashboards ∷ [])
