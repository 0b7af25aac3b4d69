-- ===== src/Serving/Defaults.antt =====
-- ingress.go, poddisruptionbudget.go and the defaults of Reconcile of extension.go
-- (openshift-knative-operator/pkg/serving): what is filled into the spec of a KnativeServing.
pub mod Budgets
pub mod Fields
pub mod Laws
mod Tests
use serverless_operator.Common.{
  ℕ, String, Bool, true, false, ◌&&◌, ◌||◌, ◌==◌, not, Option, none, some, List, [], ◌∷◌, ◌++◌, any,
  if◌then◌else◌, Dict, lookup_or, ◌<>◌,
}
use serverless_operator.Config.{
  ConfigMapData, configure, configure_if_unset, configure_if_configmap_unset,
}
use serverless_operator.Config.Memory.{ResourceRequirementsOverride, ensure_container_memory_limit}
use serverless_operator.Controllers.Spec.{CustomCerts}
use serverless_operator.Controllers.Certs.{certs_of}

-- operatorv1beta1.IngressConfigs: the switches, and the service type of Kourier
pub record IngressConfigs : Type 0 where
  pub istio : Bool
  pub kourier : Bool
  pub contour : Bool
  pub kourier_service_type : String

-- base.PodDisruptionBudgetOverride; an override that the code makes has a number.
pub record PodDisruptionBudgetOverride : Type 0 where
  pub name : String
  pub min_available : Option ℕ

-- The spec of a KnativeServing, as far as the extension reads or writes it.
pub record ServingSpec : Type 0 where
  pub config : ConfigMapData
  pub registry_override : Dict String
  pub registry_default : String
  -- spec.high-availability and its replicas, both of them pointers
  pub high_availability : Option (Option ℕ)
  pub pod_disruption_budgets : List PodDisruptionBudgetOverride
  pub ingress : Option IngressConfigs
  pub resources : List ResourceRequirementsOverride
  pub controller_custom_certs : CustomCerts

abbrev pub kourier_ingress_class_name : String
kourier_ingress_class_name = "kourier.ingress.networking.knative.dev"

abbrev pub istio_ingress_class_name : String
istio_ingress_class_name = "istio.ingress.networking.knative.dev"

-- A nil section becomes one with Kourier.
unfoldable pub default_to_kourier : Option IngressConfigs → IngressConfigs
default_to_kourier none = record {
  istio = false;
  kourier = true;
  contour = false;
  kourier_service_type = "";
}
default_to_kourier (some i) =
    if not i.istio && not i.kourier && not i.contour then record i { kourier = true } else i

unfoldable pub default_kourier_service_type : Option IngressConfigs → Option IngressConfigs
default_kourier_service_type none = none
default_kourier_service_type (some i) = some (
    if i.kourier && i.kourier_service_type == ""
    then record i { kourier_service_type = "ClusterIP" }
    else i)

unfoldable pub default_ingress_class : Option IngressConfigs → String
default_ingress_class none = kourier_ingress_class_name
default_ingress_class (some i) =
    if i.kourier
    then kourier_ingress_class_name
    else if i.istio
    then istio_ingress_class_name
    else kourier_ingress_class_name

abbrev pub serving_pdb_names : List String
serving_pdb_names = "activator-pdb" ∷ "webhook-pdb" ∷ []

abbrev pub has_override : List PodDisruptionBudgetOverride → String → Bool
has_override overrides name = any (λ o. o.name == name) overrides

-- the loop over the names; `overrides` are those of the user
unfoldable pub append_budgets :
    List String
    → List PodDisruptionBudgetOverride
    → List PodDisruptionBudgetOverride
    → List PodDisruptionBudgetOverride
append_budgets [] overrides budgets = budgets
append_budgets (name ∷ names) overrides budgets = append_budgets names overrides (
    if has_override overrides name
    then budgets
    else budgets ++ (record { name = name; min_available = some 1 } ∷ []))

unfoldable pub default_to_one_as_pod_disruption_budget :
    List PodDisruptionBudgetOverride → List PodDisruptionBudgetOverride
unfolding append_budgets
default_to_one_as_pod_disruption_budget budgets = append_budgets serving_pdb_names budgets budgets

-- fmt.Sprintf(loggingURLTemplate, host)
abbrev pub logging_url : String → String
logging_url host =
    "https://" <> host
    <> "/app/kibana#/discover?_a=(index:.all,query:'kubernetes.labels.serving_knative_dev%5C%2FrevisionUID:${REVISION_UID}')"

unfoldable pub with_domain : String → ConfigMapData → ConfigMapData
unfolding configure_if_configmap_unset
with_domain domain config =
    if domain == "" then config else configure_if_configmap_unset config "domain" domain ""

unfoldable pub with_logging : String → ConfigMapData → ConfigMapData
unfolding configure
with_logging host config =
    if host == ""
    then config
    else configure config "observability" "logging.revision-url-template" (logging_url host)

unfoldable pub with_istio_metrics : Bool → ConfigMapData → ConfigMapData
unfolding configure_if_unset
with_istio_metrics istio config =
    if istio then configure_if_unset config "observability" "metrics-protocol" "none" else config

-- The writes to the configuration, in their order.
unfoldable pub configured :
    String → String → Dict String → IngressConfigs → ConfigMapData → ConfigMapData
unfolding with_domain with_logging with_istio_metrics configure configure_if_unset lookup_or
    default_ingress_class
configured domain logging_host images ingress config =
    let reached = with_logging logging_host (with_domain domain config) in
    let imaged =
      configure reached "deployment" "queue-sidecar-image" (lookup_or "" "queue-proxy" images) in
    let classed =
      configure_if_unset imaged "network" "ingress.class" (default_ingress_class (some ingress)) in
    let named =
      configure_if_unset classed "network" "domainTemplate"
        "{{.Name}}-{{.Namespace}}.{{.Domain}}" in
    let schemed = configure_if_unset named "network" "defaultExternalScheme" "https" in
    let claiming = configure_if_unset schemed "network" "autocreateClusterDomainClaims" "true" in
    let measured =
      configure_if_unset claiming "observability" "request-metrics-protocol" "prometheus" in
    with_istio_metrics ingress.istio measured

abbrev pub or_two_replicas : Option (Option ℕ) → Option (Option ℕ)
or_two_replicas none = some (some 2)
or_two_replicas (some replicas) = some replicas

-- The spec after all that Reconcile fills in before it cleans up.
unfoldable pub defaulted : String → String → Dict String → ServingSpec → ServingSpec
unfolding default_to_kourier default_kourier_service_type default_to_one_as_pod_disruption_budget
    ensure_container_memory_limit configured lookup_or
defaulted domain logging_host images spec =
    let ingress = default_to_kourier spec.ingress in
    record {
      config = configured domain logging_host images ingress spec.config;
      registry_override = images;
      registry_default = lookup_or "" "default" images;
      high_availability = or_two_replicas spec.high_availability;
      pod_disruption_budgets = default_to_one_as_pod_disruption_budget spec.pod_disruption_budgets;
      ingress = default_kourier_service_type (some ingress);
      resources = ensure_container_memory_limit spec.resources "webhook" "1024Mi";
      controller_custom_certs = certs_of spec.controller_custom_certs;
    }
