-- ===== src/Kafka/Controller.antt =====
-- Reconcile of knativekafka_controller.go: installation, removal and the finalizer. The gauge of the
-- metrics is left out.
use serverless_operator.Common.{
  String, ◌==◌, not, Option, none, some, List, [], ◌∷◌, if◌then◌else◌, ok, err, select, any,
}
use serverless_operator.Kafka.Spec.{KnativeKafka, initialize_conditions}
use serverless_operator.Kafka.Manifest.{
  ManifestBuild, enabled_only, disabled_only, build_all, build_manifest,
}
use serverless_operator.Kafka.Client.{
  Client, Error, wrap, Answer, found, not_found, failed, Outcome, continue, wrapping, Stage,
}
use serverless_operator.Kafka.Apply.{apply, handle_tls_resources, delete_resources}
use serverless_operator.Kafka.Stages.{
  finalizer_name, configure, ensure_finalizers, transform, remove_creation_timestamp,
  check_deployments, check_stateful_sets, execute_stages,
}

module _ {U S X : Type 0} (client : Client U S X) where
  -- the stages that follow the one of the finalizer
  unfoldable pub stages_after_finalizers : List (Stage U S X)
  unfolding apply handle_tls_resources transform remove_creation_timestamp check_deployments
      check_stateful_sets
  stages_after_finalizers =
      transform client
      ∷ remove_creation_timestamp client
      ∷ handle_tls_resources client
      ∷ apply client
      ∷ check_deployments client
      ∷ check_stateful_sets client
      ∷ []

  unfoldable pub install_stages : List (Stage U S X)
  unfolding configure ensure_finalizers stages_after_finalizers
  install_stages = configure client ∷ ensure_finalizers client ∷ stages_after_finalizers

  unfoldable pub delete_stages : List (Stage U S X)
  unfolding transform delete_resources
  delete_stages = transform client ∷ delete_resources client ∷ []

  -- A manifest is built for the instance, and the stages are run on it.
  unfoldable pub execute_built :
      String
      → ManifestBuild
      → List (Stage U S X)
      → KnativeKafka S
      → X
      → Outcome (KnativeKafka S × X)
  unfolding build_manifest execute_stages
  execute_built failure build stages instance x =
      elim (build_manifest client.manifests instance.namespace instance.spec build) [
        | err e ↦ ((instance, x), some (wrap failure e))
        | ok manifest ↦
            let (st, e) =
              execute_stages client stages
                (record { manifest = manifest; instance = instance; cluster = x }) in
            ((st.instance, st.cluster), e)
      ]

  unfoldable pub execute_install_stages : KnativeKafka S → X → Outcome (KnativeKafka S × X)
  unfolding install_stages
  execute_install_stages instance x =
      execute_built "failed to load and build manifest: " enabled_only install_stages instance x

  unfoldable pub execute_delete_stages : KnativeKafka S → X → Outcome (KnativeKafka S × X)
  execute_delete_stages instance x =
      execute_built "failed to load and build manifest: " disabled_only delete_stages instance x

  unfoldable pub reconcile_knative_kafka : KnativeKafka S → X → Outcome (KnativeKafka S × X)
  unfolding initialize_conditions
  reconcile_knative_kafka instance x =
      continue
        (execute_install_stages
          (record instance { status = initialize_conditions client.condition_set instance.status })
          x)
        (λ (instance', x'). execute_delete_stages instance' x')

  unfoldable pub delete_knative_kafka : KnativeKafka S → X → Outcome (KnativeKafka S × X)
  delete_knative_kafka instance x =
      execute_built "failed to build manifest: " build_all delete_stages instance x

  abbrev pub without_finalizer : KnativeKafka S → KnativeKafka S
  without_finalizer refetched = record refetched {
    finalizers = client.set_list (select (λ f. not (f == finalizer_name)) refetched.finalizers);
  }

  -- what is done on each answer to the second Get
  unfoldable pub store_without_finalizer : Answer (KnativeKafka S) → X → Outcome X
  store_without_finalizer (not_found e) x = (x, some (wrap "failed to refetch KnativeKafka: " e))
  store_without_finalizer (failed e) x = (x, some (wrap "failed to refetch KnativeKafka: " e))
  store_without_finalizer (found refetched) x =
      wrapping "failed to update KnativeKafka with removed finalizer: "
        (client.update (without_finalizer refetched) x)

  -- what delete does after the clean-up
  unfoldable pub after_cleanup : KnativeKafka S → Outcome (KnativeKafka S × X) → Outcome X
  after_cleanup instance ((_, x), some e) = (x, some (wrap "failed to delete KnativeKafka: " e))
  after_cleanup instance ((_, x), none) =
      store_without_finalizer (client.get instance.namespace instance.name x) x

  unfoldable pub delete : KnativeKafka S → X → Outcome X
  delete instance x =
      if any (λ f. f == finalizer_name) instance.finalizers
      then after_cleanup instance (delete_knative_kafka instance x)
      else (x, none)

  abbrev pub after_status_update : Outcome X → Option Error → Outcome X
  after_status_update (x, some e) reconcile_err = (x, some (wrap "failed to update status: " e))
  after_status_update (x, none) reconcile_err = (x, reconcile_err)

  -- The status is written back where it has changed; its error hides the one of the run.
  unfoldable pub finish : KnativeKafka S → Outcome (KnativeKafka S × X) → Outcome X
  finish original ((instance, x), reconcile_err) =
      if client.same_status original instance
      then (x, reconcile_err)
      else after_status_update (client.update_status instance x) reconcile_err

  unfoldable pub reconcile : String → String → X → Outcome X
  reconcile namespace name x = elim (client.get namespace name x) [
    | not_found e ↦ (x, none)
    | failed e ↦ (x, some e)
    | found original ↦
        if original.deleting
        then delete original x
        else finish original (reconcile_knative_kafka original x)
  ]
