-- ===== src/Controllers/Finalizer.antt =====
-- What the controllers of KnativeServing and KnativeEventing share: the finalizer, the clean-up that
-- ends with its removal, and the write of the status.
pub mod Laws
use serverless_operator.Common.{
  String, ◌==◌, ◌≡◌, Bool, not, List, [], ◌∷◌, ◌++◌, any, select, if◌then◌else◌, Answer, found,
  not_found, failed, Result, ok, err, Error, wrap, ◌<>◌,
}
use serverless_operator.Common.Run.{Run, ◌>>=◌, ◌>>◌, done, fail, wrapping, run_all}
use serverless_operator.Controllers.Spec.{Instance}

-- client.Client on the instances. An Update gives the object that the server returns.
pub record InstanceClient (S X : Type 0) : Type 0 where
  pub get : String → String → X → Answer (Instance S)
  pub update : Instance S → Run X (Instance S)
  pub update_status : Instance S → Run X (Instance S)
  -- equality.Semantic.DeepEqual of two statuses
  pub same_status : S → S → Bool
  -- the sorted list of the set that is made of a list
  pub set_list : List String → List String

-- The documented behaviour that the proofs use: a set has the elements of its list, and an Update
-- returns the finalizers that it has stored.
pub record IsInstanceClient {S X : Type 0} (client : InstanceClient S X) : Type 0 where
  pub any_list : (p : String → Bool) (xs : List String) → any p (client.set_list xs) ≡ any p xs
  pub updated :
      (i i' : Instance S) (x x' : X)
      → client.update i x ≡ (x', ok i')
      → i'.finalizers ≡ i.finalizers

abbrev pub has_finalizer : {S : Type 0} → String → Instance S → Bool
has_finalizer f instance = any (λ g. g == f) instance.finalizers

-- A stage that reads the instance and changes the cluster.
abbrev pub with_cluster :
    {S X : Type 0}
    → Instance S
    → X × Result Error (Unit {0})
    → (Instance S × X) × Result Error (Unit {0})
with_cluster instance (x, r) = ((instance, x), r)

abbrev pub on_instance :
    {S X : Type 0} → (Instance S → Run X (Unit {0})) → Run (Instance S × X) (Unit {0})
on_instance stage (instance, x) = with_cluster instance (stage instance x)

-- `kind` is the kind in the messages.
module _ {S X : Type 0} (client : InstanceClient S X) (kind finalizer_name : String) where
  abbrev pub with_finalizer : Instance S → Instance S
  with_finalizer instance = record instance {
    finalizers = instance.finalizers ++ (finalizer_name ∷ []);
  }

  -- The instance is the one that the server returns, or the one that it could not store.
  abbrev pub stored_or_kept :
      Instance S → X × Result Error (Instance S) → (Instance S × X) × Result Error (Unit {0})
  stored_or_kept instance (x, ok stored) = ((stored, x), ok tt)
  stored_or_kept instance (x, err e) = ((instance, x), err e)

  unfoldable pub ensure_finalizers : Run (Instance S × X) (Unit {0})
  ensure_finalizers (instance, x) =
      if has_finalizer finalizer_name instance
      then ((instance, x), ok tt)
      else stored_or_kept (with_finalizer instance) (client.update (with_finalizer instance) x)

  abbrev pub without_finalizer : Instance S → Instance S
  without_finalizer refetched = record refetched {
    finalizers = client.set_list (select (λ f. not (f == finalizer_name)) refetched.finalizers);
  }

  -- what is done on each answer to the second Get
  unfoldable pub store_without_finalizer : Answer (Instance S) → Run X (Unit {0})
  store_without_finalizer (not_found e) = fail (wrap ("failed to refetch " <> kind <> ": ") e)
  store_without_finalizer (failed e) = fail (wrap ("failed to refetch " <> kind <> ": ") e)
  store_without_finalizer (found refetched) =
      wrapping ("failed to update " <> kind <> " with removed finalizer: ")
        (client.update (without_finalizer refetched))
      >> done tt

  unfoldable pub remove_finalizer : Instance S → Run X (Unit {0})
  unfolding store_without_finalizer
  remove_finalizer instance x =
      store_without_finalizer (client.get instance.namespace instance.name x) x

  -- The clean-up of an instance with the finalizer, and then its removal.
  unfoldable pub delete : (Instance S → Run X (Unit {0})) → Instance S → Run X (Unit {0})
  unfolding remove_finalizer
  delete cleanup instance =
      if has_finalizer finalizer_name instance
      then cleanup instance >> remove_finalizer instance
      else done tt

  abbrev pub after_status_update :
      Result Error (Unit {0}) → X × Result Error (Instance S) → X × Result Error (Unit {0})
  after_status_update reconcile_err (x, err e) = (x, err (wrap "failed to update status: " e))
  after_status_update reconcile_err (x, ok _) = (x, reconcile_err)

  -- The status is written where it has changed; an error of that hides the one of the stages.
  unfoldable pub finish :
      Instance S → (Instance S × X) × Result Error (Unit {0}) → X × Result Error (Unit {0})
  finish original ((instance, x), reconcile_err) =
      if client.same_status original.status instance.status
      then (x, reconcile_err)
      else after_status_update reconcile_err (client.update_status instance x)

  -- Reconcile, with the clean-up, what is done before the stages, and the stages.
  unfoldable pub reconcile :
      (Instance S → Run X (Unit {0}))
      → Run X (Unit {0})
      → List (Run (Instance S × X) (Unit {0}))
      → String
      → String
      → Run X (Unit {0})
  unfolding delete run_all
  reconcile cleanup prepare stages namespace name x = elim (client.get namespace name x) [
    | not_found e ↦ (x, ok tt)
    | failed e ↦ (x, err e)
    | found original ↦
        if original.deleting
        then delete cleanup original x
        else (prepare
              >> (λ y. finish original (run_all (ensure_finalizers ∷ stages) (original, y))))
            x
  ]
