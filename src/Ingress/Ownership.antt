-- ===== src/Ingress/Ownership.antt =====
-- The labels and annotations of the Routes of an ingress (resources/route.go, makeRoute): how the
-- controller finds them again, and what it leaves out.
use serverless_operator.Common.{
  String, true, false, ◌≡◌, refl, none, some, List, arith, ok, All, Bool-cases, inl, inr, lookup,
  lookup-insert, lookup-filter_keys, has_prefix, eq_iff, ◌==◌, ap, sym, ◌∙◌,
}
use mathlib.Core.Bool.{false≢true}
use serverless_operator.Ingress.Spec.{Ingress, Route, External, IsLawful}
use serverless_operator.Ingress.Routes.{
  make_routes, own_labels, route_labels, route_annotations, clean_argo_cd_annotations,
  clean_argo_cd_labels, timeout_annotation, argo_cd_prefix, kubernetes_application_label_key,
  ingress_label_key, openshift_ingress_label_key, openshift_ingress_namespace_label_key,
}
use serverless_operator.Ingress.Shape.{make_routes-All}

-- The labels by which `routeList` of ingress.go selects the Routes of an ingress, and the label
-- of the networking library.
abbrev pub IsLabelled : Ingress → Route → Type 0
IsLabelled ci r =
    (lookup openshift_ingress_label_key r.labels ≡ some ci.name)
    × (lookup openshift_ingress_namespace_label_key r.labels ≡ some ci.namespace)
    × (lookup ingress_label_key r.labels ≡ some ci.name)

module _ (ext : External) (lawful : IsLawful ext) (ci : Ingress) where
  own_label :
      (k v : String)
      → has_prefix k argo_cd_prefix ≡ false
      → (k == kubernetes_application_label_key) ≡ false
      → lookup k (own_labels ext ci) ≡ some v
      → lookup k (route_labels ext ci) ≡ some v
  unfolding route_labels clean_argo_cd_labels
  own_label k v plain other found = rw (lookup-filter_keys, lawful.union_lookup) (ground arith)

  -- Every Route carries the name and the namespace of its ingress under the keys that the
  -- controller later selects by, whatever labels the ingress has itself.
  pub make_routes-labels : (rs : List Route) → make_routes ext ci ≡ ok rs → All (IsLabelled ci) rs
  unfolding own_labels has_prefix lookup
  make_routes-labels rs h =
      make_routes-All ext ci (IsLabelled ci)
        (λ host rule r out b. rw b.same (
          own_label openshift_ingress_label_key ci.name refl refl refl,
          own_label openshift_ingress_namespace_label_key ci.namespace refl refl refl,
          own_label ingress_label_key ci.name refl refl refl,
        ))
        h

timeout-is-plain : has_prefix timeout_annotation argo_cd_prefix ≡ false
unfolding has_prefix
timeout-is-plain = refl

timeout-ne-argo :
    (k : String) → has_prefix k argo_cd_prefix ≡ true → (timeout_annotation == k) ≡ false
timeout-ne-argo k h = elim (Bool-cases (timeout_annotation == k)) [
  | inr e ↦ e
  | inl e ↦ absurd (
      false≢true (
        sym timeout-is-plain
        ∙ ap (λ (t : String). has_prefix t argo_cd_prefix) ((eq_iff timeout_annotation k).0 e)
        ∙ h))
]

module _ (ext : External) (ci : Ingress) where
  clean_labels :
      (k : String) → has_prefix k argo_cd_prefix ≡ true → lookup k (route_labels ext ci) ≡ none
  unfolding route_labels clean_argo_cd_labels
  clean_labels k h = rw lookup-filter_keys (ground arith)

  clean_application_label : lookup "app.kubernetes.io/instance" (route_labels ext ci) ≡ none
  unfolding route_labels clean_argo_cd_labels
  clean_application_label = rw lookup-filter_keys (ground arith)

  clean_annotations :
      (k timeout : String)
      → has_prefix k argo_cd_prefix ≡ true
      → lookup k (route_annotations ext ci timeout) ≡ none
  unfolding route_annotations clean_argo_cd_annotations
  clean_annotations k timeout h =
      let plain : (timeout_annotation == k) ≡ false = timeout-ne-argo k h in
      rw (lookup-insert, lookup-filter_keys) (ground arith)

  -- No Route carries a label or an annotation whose key begins with "argocd.argoproj.io", and none
  -- carries the label "app.kubernetes.io/instance", whatever the ingress carries.
  pub make_routes-clean :
      (rs : List Route) (k : String)
      → has_prefix k "argocd.argoproj.io" ≡ true
      → make_routes ext ci ≡ ok rs
      → All
          (λ r.
            (lookup k r.labels ≡ none)
            × (lookup k r.annotations ≡ none)
            × (lookup "app.kubernetes.io/instance" r.labels ≡ none))
          rs
  make_routes-clean rs k argo h =
      make_routes-All ext ci
        (λ r.
          (lookup k r.labels ≡ none)
          × (lookup k r.annotations ≡ none)
          × (lookup "app.kubernetes.io/instance" r.labels ≡ none))
        (λ host rule r out b.
          rw b.same
            (clean_labels k argo, clean_annotations k b.timeout argo, clean_application_label))
        h
