-- ===== src/Controllers/Finalizer/Laws.antt =====
-- The finalizer of KnativeServing and KnativeEventing: stored before anything is installed, removed
-- after everything is deleted.
use serverless_operator.Common.{
  String, ◌≡◌, refl, sym, ap, ◌∙◌, ◌==◌, true, false, ◌||◌, List, [], ◌∷◌, ◌++◌, All, any,
  any-append, gone_after_select, kept_by_select, arith, eq_iff, Bool-cases, inl, inr, ◌⊎◌, Answer,
  found, not_found, failed, Result, ok, err, Error, ◌<>◌,
}
use serverless_operator.Common.Run.{Run, run_all, after-eq-ok, wrap_error, wrap_error-eq-ok, done}
use serverless_operator.Controllers.Spec.{Instance}
use serverless_operator.Controllers.Finalizer.{
  InstanceClient, IsInstanceClient, has_finalizer, on_instance, stored_or_kept, ensure_finalizers,
  without_finalizer, store_without_finalizer, remove_finalizer, delete, with_cluster,
}

module _ {S X : Type 0} (client : InstanceClient S X) (kind finalizer_name : String)
    (lawful : IsInstanceClient client) where
  store_without_finalizer-eq-ok :
      (answer : Answer (Instance S)) (x x' : X)
      → store_without_finalizer client kind finalizer_name answer x ≡ (x', ok tt)
      → (refetched : Instance S) × (returned : Instance S) × (answer ≡ found refetched)
        × (client.update (without_finalizer client kind finalizer_name refetched) x
            ≡ (x', ok returned))
  unfolding store_without_finalizer
  store_without_finalizer-eq-ok (not_found e) x x' h = cc h
  store_without_finalizer-eq-ok (failed e) x x' h = cc h
  store_without_finalizer-eq-ok (found refetched) x x' h =
      let (y, returned, ran, end) =
        after-eq-ok
          (wrap_error ("failed to update " <> kind <> " with removed finalizer: ")
            (client.update (without_finalizer client kind finalizer_name refetched) x))
          (λ _. done tt) h in
      let written = wrap_error-eq-ok _ _ ran in
      (
        refetched,
        returned,
        refl,
        written ∙ ap (λ (r : X × Result Error (Unit {0})). (r.0, ok returned)) end,
      )

  -- The clean-up of an instance with the finalizer that ends without an error has first deleted what
  -- there is to delete without an error; then it has stored the instance found then, which has no
  -- longer the finalizer and has its other finalizers. The client is lawful.
  pub delete_finalized_lem :
      (cleanup : Instance S → Run X (Unit {0})) (instance : Instance S) (x x' : X)
      → has_finalizer finalizer_name instance ≡ true
      → delete client kind finalizer_name cleanup instance x ≡ (x', ok tt)
      → (y : X) × (refetched : Instance S) × (returned : Instance S) × (cleanup instance x
          ≡ (y, ok tt))
        × (client.get instance.namespace instance.name y ≡ found refetched)
        × (client.update (without_finalizer client kind finalizer_name refetched) y
            ≡ (x', ok returned))
        × (has_finalizer finalizer_name returned ≡ false)
        × ((f : String)
            → (f == finalizer_name) ≡ false
            → has_finalizer f returned ≡ has_finalizer f refetched)
  unfolding delete remove_finalizer
  delete_finalized_lem cleanup instance x x' h run =
      let (y, _, cleaned, removed) = after-eq-ok (cleanup instance x) _ (rw (h, delete) at run) in
      let (refetched, returned, got, stored) = store_without_finalizer-eq-ok _ y x' removed in
      let same : returned.finalizers
          ≡ (without_finalizer client kind finalizer_name refetched).finalizers =
        lawful.updated _ returned y x' stored in
      (
        y,
        refetched,
        returned,
        cleaned,
        got,
        stored,
        rw same (lawful.any_list _ _ ∙ gone_after_select finalizer_name refetched.finalizers),
        λ f other.
            rw same
              (lawful.any_list _ _ ∙ kept_by_select finalizer_name f refetched.finalizers other),
      )

-- A stage that leaves the finalizers of the instance as they are.
abbrev pub IsKeeping : {S X : Type 0} → Run (Instance S × X) (Unit {0}) → Type 0
IsKeeping {S} {X} stage =
    (i i' : Instance S) (x x' : X) → stage (i, x) ≡ ((i', x'), ok tt) → i'.finalizers ≡ i.finalizers

pub on_instance-IsKeeping :
    {S X : Type 0} (stage : Instance S → Run X (Unit {0})) → IsKeeping (on_instance stage)
on_instance-IsKeeping stage i i' x x' h = with_cluster_kept i i' (stage i x) h
  where
    with_cluster_kept :
        {S X : Type 0} (i i' : Instance S) (r : X × Result Error (Unit {0})) {x' : X}
        → with_cluster i r ≡ ((i', x'), ok tt)
        → i'.finalizers ≡ i.finalizers
    with_cluster_kept i i' (y, r) h = sym (ap (λ r. r.0.0.finalizers) h)

run_all-IsKeeping :
    {S X : Type 0} (stages : List (Run (Instance S × X) (Unit {0})))
    → All (λ stage. IsKeeping stage) stages
    → IsKeeping (run_all stages)
unfolding run_all
run_all-IsKeeping [] keeping i i' x x' h = sym (ap (λ r. r.0.0.finalizers) h)
run_all-IsKeeping (stage ∷ stages) (k, ks) i i' x x' h =
    let ((j, y), _, ran, rest) = after-eq-ok (stage (i, x)) (λ _. run_all stages) h in
    run_all-IsKeeping stages ks j i' y x' rest ∙ k i j x y ran

module _ {S X : Type 0} (client : InstanceClient S X) (finalizer_name : String) where
  -- How an instance has got the finalizer: it had it and nothing was done, or an Update has stored it
  -- with the finalizer as the last one.
  abbrev pub IsFinalized : Instance S → X → Instance S → X → Type 0
  IsFinalized i x j y =
      ((has_finalizer finalizer_name i ≡ true) × (j ≡ i) × (y ≡ x))
      ⊎ ((has_finalizer finalizer_name i ≡ false)
          × (client.update (record i { finalizers = i.finalizers ++ (finalizer_name ∷ []) }) x
              ≡ (y, ok j)))

module _ {S X : Type 0} (client : InstanceClient S X) (kind finalizer_name : String)
    (lawful : IsInstanceClient client) where
  stored_or_kept-eq-ok :
      (i i' : Instance S) (r : X × Result Error (Instance S)) (x' : X)
      → stored_or_kept client kind finalizer_name i r ≡ ((i', x'), ok tt)
      → r ≡ (x', ok i')
  stored_or_kept-eq-ok i i' (y, ok stored) x' h =
      ap (λ (r : (Instance S × X) × Result Error (Unit {0})). (r.0.1, ok r.0.0)) h
  stored_or_kept-eq-ok i i' (y, err e) x' h = cc h

  ensure_finalizers-IsFinalized :
      (i j : Instance S) (x y : X)
      → ensure_finalizers client kind finalizer_name (i, x) ≡ ((j, y), ok tt)
      → IsFinalized client finalizer_name i x j y
  unfolding ensure_finalizers
  ensure_finalizers-IsFinalized i j x y ran = elim (Bool-cases (has_finalizer finalizer_name i)) [
    | inl e ↦
        let kept = rw (e, ensure_finalizers) at ran in
        inl (e, sym (ap (λ r. r.0.0) kept), sym (ap (λ r. r.0.1) kept))
    | inr e ↦ inr (e, stored_or_kept-eq-ok _ j _ y (rw (e, ensure_finalizers) at ran))
  ]

  has_finalizer-IsFinalized :
      (i j : Instance S) (x y : X)
      → IsFinalized client finalizer_name i x j y
      → (f : String) → has_finalizer f j ≡ (has_finalizer f i || finalizer_name == f)
  has_finalizer-IsFinalized i j x y (inl (e, same, _)) f =
      rw same (ground (arith, eq_iff finalizer_name f))
  has_finalizer-IsFinalized i j x y (inr (e, stored)) f =
      rw (lawful.updated _ j x y stored)
        (rw any-append (ground (arith, any (λ g. g == f) i.finalizers)))

  -- Stages without an error that begin with the one of the finalizer: before the others run, an instance
  -- without the finalizer is stored with it by an Update, and one that has it is left as it is, with the
  -- cluster. Where the others keep the finalizers, the instance then has the finalizer and those that it
  -- had before. The client is lawful.
  pub run_all-finalizer :
      (stages : List (Run (Instance S × X) (Unit {0}))) (i i' : Instance S) (x x' : X)
      → All (λ stage. IsKeeping stage) stages
      → run_all (ensure_finalizers client kind finalizer_name ∷ stages) (i, x) ≡ ((i', x'), ok tt)
      → (j : Instance S) × (y : X) × IsFinalized client finalizer_name i x j y
        × (run_all stages (j, y) ≡ ((i', x'), ok tt))
        × ((f : String) → has_finalizer f i' ≡ (has_finalizer f i || finalizer_name == f))
  unfolding run_all
  run_all-finalizer stages i i' x x' keeping h =
      let ((j, y), _, ran, rest) =
        after-eq-ok (ensure_finalizers client kind finalizer_name (i, x)) (λ _. run_all stages) h in
      let finalized = ensure_finalizers-IsFinalized i j x y ran in
      let kept : i'.finalizers ≡ j.finalizers = run_all-IsKeeping stages keeping j i' y x' rest in
      (
        j,
        y,
        finalized,
        rest,
        λ f. ap (any (λ g. g == f)) kept ∙ has_finalizer-IsFinalized i j x y finalized f,
      )
