-- ===== src/Kafka/Ordered.antt =====
-- The order in which the manifest is applied: roles, then bindings, then everything else.
use serverless_operator.Common.{
  count, count-append, ◌+◌, String, ◌≡◌, refl, ap, ◌∙◌, sym, ◌==◌, Bool, true, false, ◌||◌, not,
  none, some, List, [], ◌∷◌, ◌++◌, select, arith, eq_iff, is_some, Bool-cases, inl, inr,
}
use serverless_operator.Kafka.Client.{Client, State, Outcome, continue, Stage}
use serverless_operator.Kafka.Apply.{
  role, rolebinding, role_or_role_binding, apply, apply_bindings, apply_rest, apply_part,
  after_apply,
}

module _ {U S X : Type 0} (client : Client U S X) where
  -- Documented behaviour of Apply: the resources of a manifest one after the other, until an error.
  abbrev pub IsSequential : Type 0
  IsSequential =
      (us vs : List U) (x : X)
      → client.apply (us ++ vs) x ≡ continue (client.apply us x) (λ x'. client.apply vs x')

  -- The resources of a manifest in the order of the installation.
  abbrev pub ordered : List U → List U
  ordered us =
      select (role client) us
      ++ (select (rolebinding client) us ++ select (λ u. not (role_or_role_binding client u)) us)

  count-three :
      (p a b : U → Bool) (us : List U)
      → ((u : U) → a u ≡ true → b u ≡ false)
      → count p (select a us)
          + (count p (select b us) + count p (select (λ u. not (a u || b u)) us))
        ≡ count p us
  unfolding count
  count-three p a b [] apart = ground arith
  count-three p a b (u ∷ us) apart =
      let rest : count p (select a us)
            + (count p (select b us) + count p (select (λ u. not (a u || b u)) us))
          ≡ count p us =
        count-three p a b us apart in
      elim (Bool-cases (a u)) [
        | inl ea ↦
            rw (ea, apart u ea)
              (elim (Bool-cases (p u)) [ inl ep ↦ rw ep (omega arith) | inr ep ↦ rw ep rest ])
        | inr ea ↦ rw ea (elim (Bool-cases (b u)) [
          | inl eb ↦
              rw eb (elim (Bool-cases (p u)) [ inl ep ↦ rw ep (omega arith) | inr ep ↦ rw ep rest ])
          | inr eb ↦
              rw eb (elim (Bool-cases (p u)) [ inl ep ↦ rw ep (omega arith) | inr ep ↦ rw ep rest ])
        ])
      ]

  kinds_apart :
      (k : String)
      → (k == "ClusterRole" || k == "Role") ≡ true
      → (k == "ClusterRoleBinding" || k == "RoleBinding") ≡ false
  kinds_apart k h = elim (Bool-cases (k == "ClusterRole")) [
    | inl e ↦ rw ((eq_iff k "ClusterRole").0 e) refl
    | inr e ↦ elim (Bool-cases (k == "Role")) [
      | inl e' ↦ rw ((eq_iff k "Role").0 e') refl
      | inr e' ↦ let no = rw (e, e') at h in cc no
    ]
  ]

  count-ordered : (p : U → Bool) (us : List U) → count p (ordered us) ≡ count p us
  count-ordered p us =
      simp count-append
        (count-three p (role client) (rolebinding client) us (λ u h. kinds_apart (client.kind u) h))

  -- What is seen of a run from outside: the cluster, and whether it failed.
  abbrev pub seen : Outcome (State U S X) → X × Bool
  seen (st, e) = (st.cluster, is_some e)

  abbrev pub seen_cluster : Outcome X → X × Bool
  seen_cluster (x, e) = (x, is_some e)

  seen-part :
      (prefix : String) (st : State U S X) (o : Outcome X) (next : Stage U S X)
      (next' : X → Outcome X)
      → ((x : X) → seen (next (record st { cluster = x })) ≡ seen_cluster (next' x))
      → seen (continue (after_apply client prefix st o) next) ≡ seen_cluster (continue o next')
  unfolding after_apply
  seen-part prefix st (x, none) next next' h = h x
  seen-part prefix st (x, some e) next next' h = refl

  seen-last :
      (prefix : String) (st : State U S X) (o : Outcome X) (f : State U S X → State U S X)
      → ((st' : State U S X) → (f st').cluster ≡ st'.cluster)
      → seen (continue (after_apply client prefix st o) (λ st'. (f st', none))) ≡ seen_cluster o
  unfolding after_apply
  seen-last prefix st (x, none) f h = ap (λ y. (y, false)) (h _)
  seen-last prefix st (x, some e) f h = refl

  -- Where Apply takes the resources of a manifest one after the other, the stage leaves the cluster as
  -- one Apply of the roles, then the bindings, then the others leaves it, and fails where that fails;
  -- for every test, as many of the ordered resources pass it as of the manifest.
  pub apply-ordered :
      (st : State U S X)
      → IsSequential
      → (seen (apply client st) ≡ seen_cluster (client.apply (ordered st.manifest) st.cluster))
        × ((p : U → Bool) → count p (ordered st.manifest) ≡ count p st.manifest)
  unfolding apply apply_bindings apply_rest apply_part
  apply-ordered st law = (
    seen-part _ st _ _ (λ x. client.apply (bindings ++ others) x)
          (λ x.
            seen-part _ (record st { cluster = x }) _ _ (λ x'. client.apply others x')
              (λ x'. seen-last _ (record st { cluster = x' }) _ _ (λ _. refl))
            ∙ ap seen_cluster (sym (law bindings others x)))
        ∙ ap seen_cluster (sym (law roles (bindings ++ others) st.cluster)),
    λ p. count-ordered p st.manifest,
  )
    where
      roles : List U
      roles = select (role client) st.manifest

      bindings : List U
      bindings = select (rolebinding client) st.manifest

      others : List U
      others = select (λ u. not (role_or_role_binding client u)) st.manifest
