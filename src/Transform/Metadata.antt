-- ===== src/Transform/Metadata.antt =====
-- The transformers of names, labels, annotations and versions: job.go, label.go and api.go of
-- openshift-knative-operator/pkg/common, and SetAnnotations and EnqueueRequestByOwnerAnnotations of
-- knative-operator/pkg/common/util.go.
use serverless_operator.Common.{
  String, ◌≡◌, ◌≢◌, refl, ◌∙◌, sym, subst, ok-injective, >>=-eq-ok, false, ◌&&◌, not, ◌==◌, none,
  List, [], ◌∷◌, if◌then◌else◌, ok, ◌>>=◌, ◌<>◌, Dict, insert, lookup_or, union, lookup_or-insert,
  arith, eq_iff, Bool-cases, inl, inr,
}
use mathlib.Core.Bool.{and-eq-true_iff}
use serverless_operator.Transform.Spec.{Workload, Unstructured, Scheme, Transformer, converting}

-- the annotations that are given override those that are there
unfoldable pub set_annotations : {C : Type 0} → Dict String → Transformer C
unfolding union
set_annotations annotations u = ok (record u { annotations = union u.annotations annotations })

-- types.NamespacedName
pub record Request : Type 0 where
  pub namespace : String
  pub name : String

unfoldable pub enqueue_request_by_owner_annotations : String → String → Dict String → List Request
unfolding lookup_or
enqueue_request_by_owner_annotations name_key namespace_key annotations =
    let owner_namespace = lookup_or "" namespace_key annotations in
    let owner_name = lookup_or "" name_key annotations in
    if not (owner_namespace == "") && not (owner_name == "")
    then record { namespace = owner_namespace; name = owner_name } ∷ []
    else []

abbrev pub serverless_common_label_key : String
serverless_common_label_key = "knative.openshift.io/part-of"

abbrev pub serverless_common_label_value : String
serverless_common_label_value = "openshift-serverless"

unfoldable pub inject_common_label_into_namespace : {C : Type 0} → Transformer C
unfolding insert
inject_common_label_into_namespace u =
    if u.kind == "Namespace"
    then ok (record u {
      labels = insert serverless_common_label_key serverless_common_label_value u.labels;
    })
    else ok u

-- the name of a Job, with the version
unfoldable pub versioned : String → Workload → Workload
versioned version job =
    if job.name == "" && not (job.generate_name == "")
    then record job { name = job.generate_name <> version; generate_name = "" }
    else record job { name = job.name <> "-" <> version }

abbrev pub without_ttl : Workload → Workload
without_ttl job = record job { ttl_seconds_after_finished = none }

-- The shape of the two upgrades: the kind, the removed version and the new one.
unfoldable pub upgrade_api : {C : Type 0} → String → String → String → Transformer C
upgrade_api kind old new u =
    if u.kind == kind && u.api_version == old then ok (record u { api_version = new }) else ok u

unfoldable pub upgrade_pod_disruption_budget : {C : Type 0} → Transformer C
unfolding upgrade_api
upgrade_pod_disruption_budget u = upgrade_api "PodDisruptionBudget" "policy/v1beta1" "policy/v1" u

unfoldable pub upgrade_horizontal_pod_autoscaler : {C : Type 0} → Transformer C
unfolding upgrade_api
upgrade_horizontal_pod_autoscaler u =
    upgrade_api "HorizontalPodAutoscaler" "autoscaling/v2beta2" "autoscaling/v2" u

module _ {C : Type 0} (scheme : Scheme C) where
  -- The first parameter is os.Getenv("CURRENT_VERSION").
  unfoldable pub versioned_job_name_transform : String → Transformer C
  unfolding converting versioned
  versioned_job_name_transform version u =
      if u.kind == "Job" then converting scheme (λ job. ok (versioned version job)) u else ok u

  unfoldable pub jobs_remove_ttl_seconds_after_finished : Transformer C
  unfolding converting
  jobs_remove_ttl_seconds_after_finished u =
      if u.kind == "Job" then converting scheme (λ job. ok (without_ttl job)) u else ok u

-- A resource that SetAnnotations has given its owner's name and namespace leads back to that owner,
-- and to nothing else, whatever annotations it had before.
pub enqueue-set_annotations :
    {C : Type 0} (name_key namespace_key name namespace : String) (u : Unstructured C)
    → name ≢ ""
    → namespace ≢ ""
    → name_key ≢ namespace_key
    → (u' : Unstructured C) × (set_annotations
          ((name_key, name) ∷ (namespace_key, namespace) ∷ [])
          u
        ≡ ok u')
      × (enqueue_request_by_owner_annotations name_key namespace_key u'.annotations
          ≡ record { namespace = namespace; name = name } ∷ [])
unfolding set_annotations enqueue_request_by_owner_annotations union
enqueue-set_annotations name_key namespace_key name namespace u h k l =
    let written = insert name_key name (insert namespace_key namespace u.annotations) in
    let got_name : lookup_or "" name_key written ≡ name =
      simp lookup_or-insert (ground (arith, eq_iff name_key name_key)) in
    let got_namespace : lookup_or "" namespace_key written ≡ namespace =
      simp lookup_or-insert
        (ground (arith, eq_iff name_key namespace_key, eq_iff namespace_key namespace_key)) in
    (_, refl, rw (got_name, got_namespace) (ground (arith, eq_iff name "", eq_iff namespace "")))

upgrade_api_lem :
    {C : Type 0} (kind old new : String) (u u' : Unstructured C)
    → (new == old) ≡ false
    → upgrade_api kind old new u ≡ ok u'
    → (u'.kind ≡ u.kind)
      × ((u'.kind == kind && u'.api_version == old) ≡ false)
      × (u.kind ≢ kind → u' ≡ u)
unfolding upgrade_api
upgrade_api_lem {C = C} kind old new u u' differ h =
    elim (Bool-cases (u.kind == kind && u.api_version == old)) [
      | inl e ↦
          let run : record u { api_version = new } ≡ u' = ok-injective (rw e at h) in
          subst
            (λ (x : Unstructured C).
              (x.kind ≡ u.kind)
              × ((x.kind == kind && x.api_version == old) ≡ false)
              × (u.kind ≢ kind → x ≡ u))
            run
            (
              refl,
              ground arith,
              λ ne. elim (ne ((eq_iff u.kind kind).0 ((and-eq-true_iff _ _).0 e).0)) [ ],
            )
      | inr e ↦
          let run : u ≡ u' = ok-injective (rw e at h) in
          subst
            (λ (x : Unstructured C).
              (x.kind ≡ u.kind)
              × ((x.kind == kind && x.api_version == old) ≡ false)
              × (u.kind ≢ kind → x ≡ u))
            run (refl, e, λ _. refl)
    ]

-- After the two upgrades no resource has one of the two removed versions, and a resource of another
-- kind is as it was.
pub upgraded_lem :
    {C : Type 0} (u u' : Unstructured C)
    → (◌>>=◌ (upgrade_pod_disruption_budget u) upgrade_horizontal_pod_autoscaler) ≡ ok u'
    → ((u'.kind == "PodDisruptionBudget" && u'.api_version == "policy/v1beta1") ≡ false)
      × ((u'.kind == "HorizontalPodAutoscaler" && u'.api_version == "autoscaling/v2beta2") ≡ false)
      × (u'.kind ≡ u.kind)
unfolding upgrade_pod_disruption_budget upgrade_horizontal_pod_autoscaler
upgraded_lem {C = C} u u' h =
    let (mid, first, second) = >>=-eq-ok (upgrade_pod_disruption_budget u) _ h in
    let (kind₁, gone₁, same₁) =
      upgrade_api_lem "PodDisruptionBudget" "policy/v1beta1" "policy/v1" u mid refl first in
    let (kind₂, gone₂, same₂) =
      upgrade_api_lem "HorizontalPodAutoscaler" "autoscaling/v2beta2" "autoscaling/v2" mid u' refl
        second in
    (
      elim (Bool-cases (mid.kind == "HorizontalPodAutoscaler")) [
        | inl e ↦
            let is : u'.kind ≡ "HorizontalPodAutoscaler" =
              kind₂ ∙ (eq_iff mid.kind "HorizontalPodAutoscaler").0 e in
            subst (λ k. (k == "PodDisruptionBudget" && u'.api_version == "policy/v1beta1") ≡ false)
              (sym is) refl
        | inr e ↦
            let same : u' ≡ mid =
              same₂ (λ q. cc ((eq_iff mid.kind "HorizontalPodAutoscaler").1 q, e)) in
            subst
              (λ (x : Unstructured C).
                (x.kind == "PodDisruptionBudget" && x.api_version == "policy/v1beta1") ≡ false)
              (sym same) gone₁
      ],
      gone₂,
      kind₂ ∙ kind₁,
    )
