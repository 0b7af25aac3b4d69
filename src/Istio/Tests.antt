-- ===== src/Istio/Tests.antt =====
-- The theorem about the scale of the controller of Istio at concrete overrides.
use serverless_operator.Common.{Bool, true, false, ◌≡◌, refl, none, some, List, [], ◌∷◌, ◌++◌, ◌==◌}
use serverless_operator.Istio.{
  WorkloadOverride, is_enabled, scale_istio_controller, found_controller, get_features_config,
}
use serverless_operator.Istio.Laws.{
  or_else, find_override, new_override, find_override-scale_istio_controller,
}

-- An override of the controller without replicas.
abbrev overrides : List (WorkloadOverride Bool)
overrides =
    record { name = "mt-broker-filter"; replicas = some 2; others = true }
    ∷ record { name = "eventing-istio-controller"; replicas = none; others = true }
    ∷ []

find_override-scale_istio_controller_example :
    find_override "eventing-istio-controller"
      (scale_istio_controller (λ s. s) (λ s w. s ++ (w ∷ [])) false overrides 1)
    ≡ or_else
        (find_override "eventing-istio-controller" overrides)
        (new_override false 1 "eventing-istio-controller")
find_override-scale_istio_controller_example =
    find_override-scale_istio_controller (λ s. s) (λ s w. s ++ (w ∷ [])) false (λ s w. refl)
      overrides 1 "eventing-istio-controller"

not_scaled : scale_istio_controller (λ s. s) (λ s w. s ++ (w ∷ [])) false overrides 1 ≡ overrides
unfolding scale_istio_controller found_controller
not_scaled = refl

enabled_by_features :
    is_enabled
      (λ a b. a == b)
      (("config-features", ("istio", "disabled") ∷ [])
        ∷ ("features", ("istio", "enabled") ∷ [])
        ∷ [])
    ≡ true
unfolding is_enabled get_features_config
enabled_by_features = refl
