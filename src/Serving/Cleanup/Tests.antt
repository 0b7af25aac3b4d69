-- ===== src/Serving/Cleanup/Tests.antt =====
-- The clean-up of a cluster that has Leases and nothing else.
use serverless_operator.Common.{
  String, ◌≡◌, refl, sym, ap, ◌∙◌, Bool, true, false, ◌&&◌, ◌==◌, not, any, List, [], ◌∷◌, All,
  select, Answer, found, not_found, ok, Error, if◌then◌else◌, Bool-cases, inl, inr, ◌⊎◌, arith,
  gone_after_select, ok-injective, has_prefix, ◌||◌,
}
use serverless_operator.Serving.Cleanup.{
  Resource, deployment, service, lease, secret, mutating_webhook, validating_webhook, CleanupClient,
  old_lease, remove, remove_all, cleanup_old_resources,
}
use serverless_operator.Serving.Cleanup.Laws.{
  IsCleanupClient, IsGone, old_workloads, old_secrets_and_webhooks, cleanup_old_resources_lem,
}

abbrev is_lease : Resource → Bool
is_lease lease = true
is_lease deployment = false
is_lease service = false
is_lease secret = false
is_lease mutating_webhook = false
is_lease validating_webhook = false

abbrev live : Resource → String → String → List String → Bool
live r ns name x = is_lease r && any (λ n. n == name) x

abbrev missing : Error
missing = record { message = "not found"; no_match = false }

abbrev delete : Resource → String → String → List String → List String × Answer (Unit {0})
delete r ns name x =
    if live r ns name x then (select (λ n. not (n == name)) x, found tt) else (x, not_found missing)

abbrev client : CleanupClient (List String)
client = record { delete = delete; list_leases = λ ns x. ok x }

selected :
    (p : String → Bool) (name : String) (x : List String)
    → any (λ n. n == name) x ≡ false
    → any (λ n. n == name) (select p x) ≡ false
selected p name [] h = refl
selected p name (n ∷ x) h = ground (arith, selected p name x)

deleted_left :
    (r : Resource) (ns name : String) (x x' : List String) (a : Answer (Unit {0}))
    → delete r ns name x ≡ (x', a)
    → ((x' ≡ select (λ n. not (n == name)) x) × (a ≡ found tt))
      ⊎ ((x' ≡ x) × (a ≡ not_found missing) × (live r ns name x ≡ false))
deleted_left r ns name x x' a h = elim (Bool-cases (live r ns name x)) [
  | inl e ↦ let same = rw e at h in inl (ap (λ r. r.0) (sym same), ap (λ r. r.1) (sym same))
  | inr e ↦ let same = rw e at h in inr (ap (λ r. r.0) (sym same), ap (λ r. r.1) (sym same), e)
]

client-IsCleanupClient : IsCleanupClient client live
client-IsCleanupClient = record {
  deleted = λ r ns name x x' h. elim (deleted_left r ns name x x' (found tt) h) [
    | inl (left, _) ↦ rw left (ground (arith, gone_after_select name x))
    | inr (_, other, _) ↦ cc other
  ];
  missing = λ r ns name x x' e h. elim (deleted_left r ns name x x' (not_found e) h) [
    | inl (_, other) ↦ cc other
    | inr (left, _, free) ↦ rw left free
  ];
  others = λ r r' ns ns' name name' x x' a h free. elim (deleted_left r ns name x x' a h) [
    | inl (left, _) ↦ rw left (ground (arith, selected (λ n. not (n == name)) name' x))
    | inr (left, _, _) ↦ rw left free
  ];
  listed = λ ns name x names h none. ap (λ ns. any (λ n. n == name) ns) (ok-injective h) ∙ none;
}

abbrev cluster : List String
cluster = "domainmapping-webhook" ∷ "autoscaler" ∷ "net-certmanager-controller" ∷ []

run : cleanup_old_resources client "knative-serving" cluster ≡ ("autoscaler" ∷ [], ok tt)
unfolding cleanup_old_resources remove remove_all old_lease has_prefix
run = refl

cleanup_old_resources_lem_example :
    All (λ o. IsGone live ("autoscaler" ∷ []) o) (old_workloads "knative-serving")
    × All (λ o. IsGone live ("autoscaler" ∷ []) o) (old_secrets_and_webhooks "knative-serving")
    × ((name : String)
        → (has_prefix name "domainmapping"
            || has_prefix name "net-certmanager"
            || has_prefix name
                "controller.knative.dev.networking.pkg.certificates.reconciler.reconciler"
            || has_prefix name
                "controller.knative.dev.control-protocol.pkg.certificates.reconciler.reconciler")
          ≡ true
        → live lease "knative-serving" name ("autoscaler" ∷ []) ≡ false)
cleanup_old_resources_lem_example =
    cleanup_old_resources_lem client live client-IsCleanupClient "knative-serving" cluster
      ("autoscaler" ∷ []) run
