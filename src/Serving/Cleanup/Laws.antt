-- ===== src/Serving/Cleanup/Laws.antt =====
-- After the clean-up the old objects are gone.
use serverless_operator.Common.{
  String, has_prefix, ◌||◌, ◌≡◌, refl, sym, ap, ◌∙◌, subst, Bool, true, false, ◌==◌, any, List, [],
  ◌∷◌, All, Answer, found, not_found, failed, Result, ok, Error, Bool-cases, eq_iff, inl, inr,
}
use serverless_operator.Common.Run.{after-eq-ok}
use serverless_operator.Serving.Cleanup.{
  Resource, deployment, service, lease, secret, mutating_webhook, validating_webhook, Target,
  CleanupClient, target, first_targets, old_lease, lease_targets, last_targets, ignoring_not_found,
  remove, remove_all, list, cleanup_old_resources,
}

-- The resources, namespaces and names of the old objects that are not Leases.
abbrev pub old_workloads : String → List (Resource × String × String)
old_workloads ns =
    (deployment, ns, "domain-mapping")
    ∷ (deployment, ns, "domainmapping-webhook")
    ∷ (service, ns, "domainmapping-webhook")
    ∷ (service, ns, "domain-mapping-sm-service")
    ∷ (service, ns, "domainmapping-webhook-sm-service")
    ∷ []

abbrev pub old_secrets_and_webhooks : String → List (Resource × String × String)
old_secrets_and_webhooks ns =
    (secret, ns, "domainmapping-webhook-certs")
    ∷ (mutating_webhook, "", "webhook.domainmapping.serving.knative.dev")
    ∷ (validating_webhook, "", "validation.webhook.domainmapping.serving.knative.dev")
    ∷ (secret, ns, "control-serving-certs")
    ∷ []

abbrev pub IsGone :
    {X : Type 0} → (Resource → String → String → X → Bool) → X → Resource × String × String → Type 0
IsGone live x (resource, ns, name) = live resource ns name x ≡ false

-- What the documentation of the API promises of an object that is there and is not being deleted: one
-- that is deleted or is not found is none, a deletion makes no other object one, and a list has all.
pub record IsCleanupClient {X : Type 0} (client : CleanupClient X)
    (live : Resource → String → String → X → Bool) : Type 0 where
  pub deleted :
      (r : Resource) (ns name : String) (x x' : X)
      → client.delete r ns name x ≡ (x', found tt)
      → live r ns name x' ≡ false
  pub missing :
      (r : Resource) (ns name : String) (x x' : X) (e : Error)
      → client.delete r ns name x ≡ (x', not_found e)
      → live r ns name x' ≡ false
  pub others :
      (r r' : Resource) (ns ns' name name' : String) (x x' : X) (a : Answer (Unit {0}))
      → client.delete r ns name x ≡ (x', a)
      → live r' ns' name' x ≡ false
      → live r' ns' name' x' ≡ false
  pub listed :
      (ns name : String) (x : X) (names : List String)
      → client.list_leases ns x ≡ ok names
      → any (λ n. n == name) names ≡ false
      → live lease ns name x ≡ false

abbrev pub Gone : {X : Type 0} → (Resource → String → String → X → Bool) → X → Target → Type 0
Gone live x t = live t.resource t.namespace t.name x ≡ false

module _ {X : Type 0} (client : CleanupClient X) (live : Resource → String → String → X → Bool)
    (lawful : IsCleanupClient client live) where
  -- The answer of a deletion whose error is ignored.
  ignoring_not_found-eq-ok :
      (t : Target) (x x' : X) (r : X × Answer (Unit {0}))
      → client.delete t.resource t.namespace t.name x ≡ r
      → ignoring_not_found t.error_prefix r ≡ (x', ok tt)
      → Gone live x' t × ((u : Target) → Gone live x u → Gone live x' u)
  ignoring_not_found-eq-ok t x x' (y, found _) deleted h =
      let same : (y, found tt) ≡ (x', found tt) =
        ap (λ (r : X × Result Error (Unit {0})). (r.0, found tt)) h in
      (
        lawful.deleted _ _ _ x x' (deleted ∙ same),
        λ u. lawful.others _ u.resource _ u.namespace _ u.name x x' _ (deleted ∙ same),
      )
  ignoring_not_found-eq-ok t x x' (y, not_found e) missing h =
      let same : (y, not_found e) ≡ (x', not_found e) =
        ap (λ (r : X × Result Error (Unit {0})). (r.0, not_found e)) h in
      (
        lawful.missing _ _ _ x x' e (missing ∙ same),
        λ u. lawful.others _ u.resource _ u.namespace _ u.name x x' _ (missing ∙ same),
      )
  ignoring_not_found-eq-ok t x x' (y, failed e) ran h = cc h

  remove-Gone :
      (t : Target) (x x' : X)
      → remove client t x ≡ (x', ok tt)
      → Gone live x' t × ((u : Target) → Gone live x u → Gone live x' u)
  unfolding remove
  remove-Gone t x x' h = ignoring_not_found-eq-ok t x x' _ refl h

  remove_all-Gone :
      (ts : List Target) (x x' : X)
      → remove_all client ts x ≡ (x', ok tt)
      → All (Gone live x') ts × ((u : Target) → Gone live x u → Gone live x' u)
  unfolding remove_all
  remove_all-Gone [] x x' h = (tt, λ u. subst (λ y. Gone live y u) (ap (λ r. r.0) h))
  remove_all-Gone (t ∷ ts) x x' h =
      let (y, _, ran, rest) = after-eq-ok (remove client t x) (λ _. remove_all client ts) h in
      let (gone, kept) = remove-Gone t x y ran in
      let (all_gone, all_kept) = remove_all-Gone ts y x' rest in
      ((all_kept t gone, all_gone), λ u g. all_kept u (kept u g))

  lease-Gone :
      (ns name : String) (names : List String) (x : X)
      → any (λ n. n == name) names ≡ true
      → old_lease name ≡ true
      → All (Gone live x) (lease_targets ns names)
      → live lease ns name x ≡ false
  lease-Gone ns name [] x h old gone = cc h
  lease-Gone ns name (n ∷ names) x h old gone = elim (Bool-cases (n == name)) [
    | inl e ↦
        let same : n ≡ name = (eq_iff _ _).0 e in
        let is_old : old_lease n ≡ true = ap old_lease same ∙ old in
        ap (λ m. live lease ns m x) (sym same) ∙ (rw is_old at gone).0
    | inr e ↦ elim (Bool-cases (old_lease n)) [
      | inl is_old ↦ lease-Gone ns name names x (rw e at h) old (rw is_old at gone).1
      | inr is_new ↦ lease-Gone ns name names x (rw e at h) old (rw is_new at gone)
    ]
  ]

  All-kept :
      (ts : List Target) (x x' : X)
      → ((u : Target) → Gone live x u → Gone live x' u)
      → All (Gone live x) ts
      → All (Gone live x') ts
  All-kept [] x x' kept gone = tt
  All-kept (t ∷ ts) x x' kept (g, gone) = (kept t g, All-kept ts x x' kept gone)

  -- A clean-up without an error leaves none of the old Deployments, Services, Secrets and webhooks, and
  -- no Lease of an old name, but for objects that are being deleted. The client is lawful.
  pub cleanup_old_resources_lem :
      (ns : String) (x x' : X)
      → cleanup_old_resources client ns x ≡ (x', ok tt)
      → All (λ o. IsGone live x' o) (old_workloads ns)
        × All (λ o. IsGone live x' o) (old_secrets_and_webhooks ns)
        × ((name : String)
            → (has_prefix name "domainmapping"
                || has_prefix name "net-certmanager"
                || has_prefix name
                    "controller.knative.dev.networking.pkg.certificates.reconciler.reconciler"
                || has_prefix name
                    "controller.knative.dev.control-protocol.pkg.certificates.reconciler.reconciler")
              ≡ true
            → live lease ns name x' ≡ false)
  unfolding cleanup_old_resources old_lease
  cleanup_old_resources_lem ns x x' h =
      let (x₁, _, ran₁, rest₁) = after-eq-ok (remove_all client (first_targets ns) x) _ h in
      let (x₂, leases, listed, rest₂) = after-eq-ok (list client ns x₁) _ rest₁ in
      let (x₃, _, ran₃, ran₄) =
        after-eq-ok (remove_all client (lease_targets ns leases) x₂) _ rest₂ in
      let (first_gone, _) = remove_all-Gone (first_targets ns) x x₁ ran₁ in
      let (leases_gone, kept₃) = remove_all-Gone (lease_targets ns leases) x₂ x₃ ran₃ in
      let (last_gone, kept₄) = remove_all-Gone (last_targets ns) x₃ x' ran₄ in
      let same : x₁ ≡ x₂ = ap (λ r. r.0) listed in
      (
        All-kept (first_targets ns) x₂ x' (λ u g. kept₄ u (kept₃ u g))
            (subst (λ y. All (Gone live y) (first_targets ns)) same first_gone),
        last_gone,
        λ name old. elim (Bool-cases (any (λ n. n == name) leases)) [
          | inl e ↦
              kept₄ (target lease "lease" ns name) (lease-Gone ns name leases x₃ e old leases_gone)
          | inr e ↦ kept₄ (target lease "lease" ns name) (
              kept₃ (target lease "lease" ns name) (
                lawful.listed ns name x₂ leases
                  (ap (λ y. client.list_leases ns y) (sym same) ∙ ap (λ r. r.1) listed) e))
        ],
      )
