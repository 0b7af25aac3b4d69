-- ===== src/Serving/Policies/Tests.antt =====
-- The policies with and without the annotation.
use serverless_operator.Common.{◌≡◌, refl, true, none, some, [], ◌∷◌, ok, lookup}
use serverless_operator.Serving.{parse_bool}
use serverless_operator.Serving.Policies.{
  network_policy, convert_policies, generate_default_istio_network_policies_if_required,
  disable_generating_istio_net_policies_annotation,
}

generated :
    (generate_default_istio_network_policies_if_required
        (λ p. ok p.name)
        (λ us. ok us)
        true
        []
        "knative-serving"
      ≡ ok (some ("webhook" ∷ "net-istio-webhook" ∷ "allow-from-openshift-monitoring-ns" ∷ [])))
    × (generate_default_istio_network_policies_if_required
          (λ p. ok p.name)
          (λ us. ok us)
          true
          ((disable_generating_istio_net_policies_annotation, "true") ∷ [])
          "knative-serving"
        ≡ ok none)
unfolding generate_default_istio_network_policies_if_required convert_policies network_policy lookup
    parse_bool
generated = (refl, refl)
