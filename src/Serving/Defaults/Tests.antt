-- ===== src/Serving/Defaults/Tests.antt =====
-- The defaults of a KnativeServing that uses Istio.
use serverless_operator.Common.{
  ◌≡◌, refl, true, false, none, some, [], ◌∷◌, Dict, String, lookup_or, lookup, insert,
}
use serverless_operator.Config.{
  ConfigMapData, config_value, config_map, configure, configure_if_unset,
  configure_if_configmap_unset, ensure, write,
}
use serverless_operator.Serving.Defaults.{
  IngressConfigs, PodDisruptionBudgetOverride, configured, with_domain, with_logging,
  with_istio_metrics, default_ingress_class, default_to_kourier,
  default_to_one_as_pod_disruption_budget, append_budgets, istio_ingress_class_name,
}
use serverless_operator.Serving.Defaults.Laws.{or_else, forced_value, default_value, configured_lem}

abbrev istio : IngressConfigs
istio = record { istio = true; kourier = false; contour = false; kourier_service_type = "" }

abbrev images : Dict String
images = ("queue-proxy", "registry/queue") ∷ []

abbrev config : ConfigMapData
config = ("network", ("defaultExternalScheme", "http") ∷ []) ∷ []

configured_lem_example :
    config_value (configured "apps.example.com" "" images istio config) "network" "ingress.class"
    ≡ or_else (forced_value "" images "network" "ingress.class") (
        or_else
          (config_value config "network" "ingress.class")
          (default_value "apps.example.com" istio config "network" "ingress.class"))
configured_lem_example =
    configured_lem "apps.example.com" "" images istio config "network" "ingress.class"

values :
    (config_value (configured "apps.example.com" "" images istio config) "network" "ingress.class"
      ≡ some istio_ingress_class_name)
    × (config_value
          (configured "apps.example.com" "" images istio config)
          "network"
          "defaultExternalScheme"
        ≡ some "http")
    × (config_value
          (configured "apps.example.com" "" images istio config)
          "domain"
          "apps.example.com"
        ≡ some "")
unfolding configured with_domain with_logging with_istio_metrics default_ingress_class configure
    configure_if_unset configure_if_configmap_unset ensure write config_value config_map lookup
    insert lookup_or
values = (refl, refl, refl)

no_ingress :
    default_to_kourier none
    ≡ record { istio = false; kourier = true; contour = false; kourier_service_type = "" }
unfolding default_to_kourier
no_ingress = refl

abbrev own_budget : PodDisruptionBudgetOverride
own_budget = record { name = "webhook-pdb"; min_available = some 3 }

budgets :
    default_to_one_as_pod_disruption_budget (own_budget ∷ [])
    ≡ own_budget ∷ record { name = "activator-pdb"; min_available = some 1 } ∷ []
unfolding default_to_one_as_pod_disruption_budget append_budgets
budgets = refl
