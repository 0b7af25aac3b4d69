-- ===== src/Controllers/Serving.antt =====
-- knativeserving_controller.go: Reconcile, its stages and its clean-up. The gauge of the metrics and
-- the registration of the watches are left out, but for the watch that Reconcile adds.
use serverless_operator.Common.{String, Bool, ◌&&◌, not, List, [], ◌∷◌, if◌then◌else◌, ok}
use serverless_operator.Common.Run.{Run, ◌>>◌, wrapping}
use serverless_operator.Transform.Spec.{Transformer}
use serverless_operator.Controllers.Spec.{Instance}
use serverless_operator.Controllers.Certs.{CertsClient, ensure_custom_certs_config_map}
use serverless_operator.Controllers.Manifests.{Library, owner_annotations}
use serverless_operator.Controllers.Manifests.Dashboards
use serverless_operator.Controllers.Manifests.Quickstart
use serverless_operator.Controllers.CliDownload
use serverless_operator.Controllers.CliDownload.{CliClient}
use serverless_operator.Controllers.Finalizer
use serverless_operator.Controllers.Finalizer.{InstanceClient, on_instance}

-- All that the controller calls.
pub record ServingClient (S R D C Q X : Type 0) : Type 0 where
  pub instances : InstanceClient S X
  pub certs : CertsClient S R D X
  pub library : Library C X
  pub cli : CliClient Q X
  -- cliDownloadWatchSet.Load(), .Store(true), and the registration of the watch
  pub watch_set : X → Bool
  pub store_watch_set : X → X
  pub watch : Run X (Unit {0})

abbrev pub serving_finalizer_name : String
serving_finalizer_name = "knative-serving-openshift"

abbrev pub serving_owner : {S C : Type 0} → Instance S → Transformer C
serving_owner instance =
    owner_annotations "serving.knative.openshift.io/ownerName"
      "serving.knative.openshift.io/ownerNamespace" instance.name instance.namespace

module _ {S R D C Q X : Type 0} (client : ServingClient S R D C Q X) where
  -- if consoleutil.IsConsoleInstalled() { ... }
  abbrev pub with_console : Run X (Unit {0}) → Run X (Unit {0})
  with_console m x = if client.cli.console_installed x then m x else (x, ok tt)

  unfoldable pub install_dashboard : Instance S → Run X (Unit {0})
  unfolding Dashboards.apply
  install_dashboard instance =
      with_console (Dashboards.apply client.library "serving" (serving_owner instance))

  unfoldable pub install_quickstarts : Instance S → Run X (Unit {0})
  unfolding Quickstart.apply
  install_quickstarts instance = with_console (Quickstart.apply client.library)

  unfoldable pub install_kn_console_cli_download : Instance S → Run X (Unit {0})
  unfolding CliDownload.apply
  install_kn_console_cli_download instance = CliDownload.apply client.cli instance

  -- the stages after the one of the finalizer
  unfoldable pub serving_stages : List (Run (Instance S × X) (Unit {0}))
  unfolding install_dashboard install_quickstarts install_kn_console_cli_download
      ensure_custom_certs_config_map
  serving_stages =
      on_instance (ensure_custom_certs_config_map client.certs)
      ∷ on_instance install_dashboard
      ∷ on_instance install_quickstarts
      ∷ on_instance install_kn_console_cli_download
      ∷ []

  -- A watch that was not set is added and noted.
  unfoldable pub ensure_watch : Run X (Unit {0})
  ensure_watch x =
      if client.cli.console_installed x && not (client.watch_set x)
      then (client.watch >> (λ y. (client.store_watch_set y, ok tt))) x
      else (x, ok tt)

  -- what delete does before it removes the finalizer
  unfoldable pub serving_cleanup : Instance S → Run X (Unit {0})
  unfolding CliDownload.delete Dashboards.delete Quickstart.delete
  serving_cleanup instance = do
    wrapping "failed to delete kn ConsoleCLIDownload: " (CliDownload.delete client.cli instance)
    with_console (
        wrapping "failed to delete dashboard configmap: "
          (Dashboards.delete client.library "serving" (serving_owner instance)))
    with_console (wrapping "failed to delete quickstarts: " (Quickstart.delete client.library))

  unfoldable pub delete_serving : Instance S → Run X (Unit {0})
  unfolding Finalizer.delete serving_cleanup
  delete_serving =
      Finalizer.delete client.instances "KnativeServing" serving_finalizer_name serving_cleanup

  unfoldable pub reconcile_serving : String → String → Run X (Unit {0})
  unfolding Finalizer.reconcile serving_cleanup ensure_watch serving_stages
  reconcile_serving =
      Finalizer.reconcile client.instances "KnativeServing" serving_finalizer_name serving_cleanup
        ensure_watch serving_stages
