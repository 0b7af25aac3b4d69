-- ===== src/Kafka/Finalizers.antt =====
-- The finalizer of KnativeKafka: added before anything is installed, removed after everything is
-- deleted.
use serverless_operator.Common.{
  String, ◌≡◌, refl, ap, ◌∙◌, sym, ◌==◌, Bool, true, false, ◌||◌, none, some, List, ◌∷◌, any,
  any-append, gone_after_select, kept_by_select, arith, eq_iff, Bool-cases, inl, inr,
}
use serverless_operator.Kafka.Spec.{KnativeKafka}
use serverless_operator.Kafka.Client.{
  Client, Error, wrap, Answer, found, not_found, failed, State, Outcome, continue, wrapping-eq-none,
  Stage, IsSets, IsStoring,
}
use serverless_operator.Kafka.Stages.{
  finalizer_name, configure, ensure_finalizers, execute_stages, with_finalizer, updated,
}
use serverless_operator.Kafka.Controller.{
  install_stages, stages_after_finalizers, delete_knative_kafka, without_finalizer, delete,
  after_cleanup, store_without_finalizer,
}

abbrev pub has_finalizer : {S : Type 0} → String → KnativeKafka S → Bool
has_finalizer f instance = any (λ g. g == f) instance.finalizers

module _ {U S X : Type 0} (client : Client U S X) where
  already :
      (st : State U S X)
      → has_finalizer finalizer_name st.instance ≡ true
      → ensure_finalizers client st ≡ (st, none)
  unfolding ensure_finalizers
  already st h = rw h refl

  updated_finalizers :
      (st : State U S X) (instance returned : KnativeKafka S) (r : Outcome X)
      → returned.finalizers ≡ instance.finalizers
      → (updated client st instance returned r).0.instance.finalizers ≡ instance.finalizers
  updated_finalizers st instance returned (x, none) h = h
  updated_finalizers st instance returned (x, some e) h = refl

  added :
      (st : State U S X)
      → IsStoring client
      → has_finalizer finalizer_name st.instance ≡ false
      → (ensure_finalizers client st).0.instance.finalizers
        ≡ (with_finalizer client st.instance).finalizers
  unfolding ensure_finalizers
  added st law h =
      let sent = with_finalizer client st.instance in
      rw h (
        updated_finalizers st sent (client.returned sent st.cluster) (client.update sent st.cluster)
          (law.returned_finalizers sent st.cluster))

  has_finalizer-with_finalizer :
      (instance : KnativeKafka S) (f : String)
      → has_finalizer f (with_finalizer client instance)
        ≡ (has_finalizer f instance || finalizer_name == f)
  has_finalizer-with_finalizer instance f =
      rw any-append (ground (arith, any (λ g. g == f) instance.finalizers))

  -- After ensureFinalizers the instance has the finalizer and all that it had before, and a second
  -- run changes nothing. The server replies with the finalizers that were sent.
  pub ensure_finalizers_lem :
      (st : State U S X) (f : String)
      → IsStoring client
      → let st' = (ensure_finalizers client st).0 in
        (has_finalizer finalizer_name st'.instance ≡ true)
        × (has_finalizer f st'.instance ≡ (has_finalizer f st.instance || finalizer_name == f))
        × (ensure_finalizers client st' ≡ (st', none))
  ensure_finalizers_lem st f law = elim (Bool-cases (has_finalizer finalizer_name st.instance)) [
    | inl e ↦ rw (already st e) (e, ground (arith, eq_iff finalizer_name f), already st e)
    | inr e ↦
        let has : has_finalizer finalizer_name (ensure_finalizers client st).0.instance ≡ true =
          rw (added st law e)
            (rw (has_finalizer-with_finalizer st.instance finalizer_name) (rw e refl)) in
        (
          has,
          rw (added st law e) (has_finalizer-with_finalizer st.instance f),
          already (ensure_finalizers client st).0 has,
        )
  ]

  execute_stages-stops :
      (stage : Stage U S X) (stages : List (Stage U S X)) (st st' : State U S X) (e : Error)
      → stage st ≡ (st', some e)
      → execute_stages client (stage ∷ stages) st ≡ (st', some e)
  unfolding execute_stages
  execute_stages-stops stage stages st st' e h =
      ap (λ r. continue r (λ next. execute_stages client stages next)) h

  -- Where the finalizer cannot be stored, the installation stops there: no other call is made.
  pub install_stages-unfinalized :
      (st st' : State U S X) (e : Error)
      → ensure_finalizers client (configure client st).0 ≡ (st', some e)
      → execute_stages client (install_stages client) st ≡ (st', some e)
  unfolding execute_stages configure install_stages
  install_stages-unfinalized st st' e h =
      execute_stages-stops (ensure_finalizers client) (stages_after_finalizers client)
        (configure client st).0 st' e h

  after_cleanup-eq-none :
      (instance : KnativeKafka S) (r : Outcome (KnativeKafka S × X)) {x' : X}
      → after_cleanup client instance r ≡ (x', none)
      → (deleted : KnativeKafka S × X) × (r ≡ (deleted, none))
        × (store_without_finalizer client
              (client.get instance.namespace instance.name deleted.1)
              deleted.1
            ≡ (x', none))
  unfolding after_cleanup
  after_cleanup-eq-none instance (deleted, none) h = (deleted, refl, h)
  after_cleanup-eq-none instance (deleted, some e) h = cc h

  store_without_finalizer-eq-none :
      (answer : Answer (KnativeKafka S)) (x : X) {x' : X}
      → store_without_finalizer client answer x ≡ (x', none)
      → (refetched : KnativeKafka S) × (answer ≡ found refetched)
        × (client.update (without_finalizer client refetched) x ≡ (x', none))
  unfolding store_without_finalizer
  store_without_finalizer-eq-none (not_found e) x h = cc h
  store_without_finalizer-eq-none (failed e) x h = cc h
  store_without_finalizer-eq-none (found refetched) x h =
      (refetched, refl, wrapping-eq-none _ (client.update (without_finalizer client refetched) x) h)

  delete-run :
      (instance : KnativeKafka S) (x : X)
      → has_finalizer finalizer_name instance ≡ true
      → delete client instance x
        ≡ after_cleanup client instance (delete_knative_kafka client instance x)
  unfolding delete
  delete-run instance x h = rw h refl

  without_finalizer_gone :
      (refetched : KnativeKafka S)
      → IsSets client
      → has_finalizer finalizer_name (without_finalizer client refetched) ≡ false
  without_finalizer_gone refetched law =
      law.any_list _ _ ∙ gone_after_select finalizer_name refetched.finalizers

  without_finalizer_other :
      (refetched : KnativeKafka S) (f : String)
      → IsSets client
      → (f == finalizer_name) ≡ false
      → has_finalizer f (without_finalizer client refetched) ≡ has_finalizer f refetched
  without_finalizer_other refetched f law h =
      law.any_list _ _ ∙ kept_by_select finalizer_name f refetched.finalizers h

  -- A clean-up of an instance with the finalizer that ends without an error has deleted the resources
  -- without an error first; then it has stored an instance that, with the sets of the library as
  -- documented, has no longer the finalizer and has the other finalizers of the instance found then.
  pub delete_lem :
      (instance : KnativeKafka S) (x x' : X)
      → IsSets client
      → has_finalizer finalizer_name instance ≡ true
      → delete client instance x ≡ (x', none)
      → (deleted : KnativeKafka S × X) × (refetched : KnativeKafka S) × (stored : KnativeKafka S)
        × (delete_knative_kafka client instance x ≡ (deleted, none))
        × (client.get instance.namespace instance.name deleted.1 ≡ found refetched)
        × (client.update stored deleted.1 ≡ (x', none))
        × (has_finalizer finalizer_name stored ≡ false)
        × ((f : String)
            → (f == finalizer_name) ≡ false
            → has_finalizer f stored ≡ has_finalizer f refetched)
  delete_lem instance x x' law h run =
      let (deleted, ran, stored) =
        after_cleanup-eq-none instance _ (sym (delete-run instance x h) ∙ run) in
      let (refetched, got, update) = store_without_finalizer-eq-none _ _ stored in
      (
        deleted,
        refetched,
        without_finalizer client refetched,
        ran,
        got,
        update,
        without_finalizer_gone refetched law,
        λ f other. without_finalizer_other refetched f law other,
      )

  -- Where the resources cannot be deleted, the clean-up leaves the finalizer alone: the instance is
  -- not updated.
  pub delete-failed :
      (instance : KnativeKafka S) (x : X) (deleted : KnativeKafka S × X) (e : Error)
      → has_finalizer finalizer_name instance ≡ true
      → delete_knative_kafka client instance x ≡ (deleted, some e)
      → delete client instance x ≡ (deleted.1, some (wrap "failed to delete KnativeKafka: " e))
  unfolding after_cleanup
  delete-failed instance x deleted e h run =
      delete-run instance x h ∙ ap (after_cleanup client instance) run
