-- ===== src/Serving/Defaults/Laws.antt =====
-- What the configuration reads after the defaults are filled in.
use serverless_operator.Common.{
  String, ◌≡◌, refl, sym, ◌∙◌, Bool, true, false, ◌&&◌, ◌==◌, not, Option, none, some, inl, inr, [],
  ◌∷◌, if◌then◌else◌, Dict, lookup, lookup_or, arith, eq_iff, Bool-cases,
}
use serverless_operator.Config.{
  ConfigMapData, config_map, config_value, is_empty, configure, configure_if_unset,
  configure_if_configmap_unset,
}
use serverless_operator.Config.Laws.{
  written, or_value, unless_some, config_value-configure, config_value-configure_if_unset,
  config_value-configure_if_configmap_unset,
}
use serverless_operator.Serving.Defaults.{
  IngressConfigs, configured, with_domain, with_logging, with_istio_metrics, default_ingress_class,
  logging_url,
}

-- The first of two values, and the second where there is none.
abbrev pub or_else : Option String → Option String → Option String
or_else none second = second
or_else (some v) second = some v

or_else_assoc : (a b c : Option String) → or_else (or_else a b) c ≡ or_else a (or_else b c)
or_else_assoc none b c = refl
or_else_assoc (some v) b c = refl

or_else-none : (a : Option String) → or_else a none ≡ a
or_else-none none = refl
or_else-none (some v) = refl

-- A value that is given for one key of one ConfigMap.
abbrev pub given : String → String → String → String → String → Option String
given cm key value cm' key' = if cm == cm' && key == key' then some value else none

abbrev pub only_if : Bool → Option String → Option String
only_if b o = if b then o else none

written-given :
    (cm key cm' key' value : String) (old : Option String)
    → written cm key cm' key' (some value) old ≡ or_else (given cm key value cm' key') old
written-given cm key cm' key' value old = ground arith

configure_at :
    (config : ConfigMapData) (cm key value cm' key' : String)
    → config_value (configure config cm key value) cm' key'
      ≡ or_else (given cm key value cm' key') (config_value config cm' key')
configure_at config cm key value cm' key' =
    config_value-configure config cm key value cm' key' ∙ written-given cm key cm' key' value _

same_place :
    (config : ConfigMapData) (cm key cm' key' : String)
    → (cm == cm' && key == key') ≡ true
    → config_value config cm key ≡ config_value config cm' key'
same_place config cm key cm' key' same = ground (arith, eq_iff cm cm', eq_iff key key')

or_value_else :
    (old : Option String) (value : String) → or_value old value ≡ or_else old (some value)
or_value_else none value = refl
or_value_else (some v) value = refl

configure_if_unset_at :
    (config : ConfigMapData) (cm key value cm' key' : String)
    → config_value (configure_if_unset config cm key value) cm' key'
      ≡ or_else (config_value config cm' key') (given cm key value cm' key')
configure_if_unset_at config cm key value cm' key' =
    config_value-configure_if_unset config cm key value cm' key'
    ∙ elim (Bool-cases (cm == cm' && key == key')) [
      | inl same ↦ rw same (
          rw (same_place config cm key cm' key' same)
            (or_value_else (config_value config cm' key') value))
      | inr other ↦ rw other (rw or_else-none refl)
    ]

empty_map-lookup : (m : Dict String) (key : String) → is_empty m ≡ true → lookup key m ≡ none
unfolding lookup
empty_map-lookup [] key h = refl
empty_map-lookup (e ∷ m) key h = cc h

empty_map-value :
    (config : ConfigMapData) (cm key : String)
    → is_empty (config_map config cm) ≡ true
    → config_value config cm key ≡ none
unfolding config_value
empty_map-value config cm key e = empty_map-lookup (config_map config cm) key e

unless_some_else :
    (m : Dict String) (value : String) (old : Option String)
    → (is_empty m ≡ true → old ≡ none)
    → unless_some m value old ≡ or_else old (only_if (is_empty m) (some value))
unless_some_else [] value old h = rw (h refl) refl
unless_some_else (e ∷ m) value old h = sym (or_else-none old)

configure_if_configmap_unset_at :
    (config : ConfigMapData) (cm key value cm' key' : String)
    → config_value (configure_if_configmap_unset config cm key value) cm' key'
      ≡ or_else
          (config_value config cm' key')
          (only_if (is_empty (config_map config cm)) (given cm key value cm' key'))
configure_if_configmap_unset_at config cm key value cm' key' =
    config_value-configure_if_configmap_unset config cm key value cm' key'
    ∙ elim (Bool-cases (cm == cm' && key == key')) [
      | inl same ↦ rw same (
          rw (same_place config cm key cm' key' same) (
            unless_some_else (config_map config cm) value (config_value config cm' key') (λ e.
              sym (same_place config cm key cm' key' same) ∙ empty_map-value config cm key e)))
      | inr other ↦ rw other (ground arith)
    ]

with_domain_at :
    (domain cm key : String) (config : ConfigMapData)
    → config_value (with_domain domain config) cm key
      ≡ or_else (config_value config cm key) (
          only_if
            (not (domain == "") && is_empty (config_map config "domain"))
            (given "domain" domain "" cm key))
unfolding with_domain
with_domain_at domain cm key config = elim (Bool-cases (domain == "")) [
  | inl e ↦ rw e (sym (or_else-none _))
  | inr e ↦ rw e (configure_if_configmap_unset_at config "domain" domain "" cm key)
]

with_logging_at :
    (host cm key : String) (config : ConfigMapData)
    → config_value (with_logging host config) cm key
      ≡ or_else
          (only_if
            (not (host == ""))
            (given "observability" "logging.revision-url-template" (logging_url host) cm key))
          (config_value config cm key)
unfolding with_logging
with_logging_at host cm key config = elim (Bool-cases (host == "")) [
  | inl e ↦ rw e refl
  | inr e ↦ rw e (
      configure_at config "observability" "logging.revision-url-template" (logging_url host) cm key)
]

with_istio_metrics_at :
    (istio : Bool) (cm key : String) (config : ConfigMapData)
    → config_value (with_istio_metrics istio config) cm key
      ≡ or_else
          (config_value config cm key)
          (only_if istio (given "observability" "metrics-protocol" "none" cm key))
unfolding with_istio_metrics
with_istio_metrics_at true cm key config =
    configure_if_unset_at config "observability" "metrics-protocol" "none" cm key
with_istio_metrics_at false cm key config = sym (or_else-none _)

-- The values that the operator insists on.
abbrev pub forced_value : String → Dict String → String → String → Option String
forced_value logging_host images cm key =
    or_else (given "deployment" "queue-sidecar-image" (lookup_or "" "queue-proxy" images) cm key) (
      only_if (not (logging_host == ""))
        (given "observability" "logging.revision-url-template" (logging_url logging_host) cm key))

-- The class of Kourier, unless only Istio is enabled of the two.
abbrev pub ingress_class : IngressConfigs → String
ingress_class ingress =
    if ingress.istio && not ingress.kourier
    then "istio.ingress.networking.knative.dev"
    else "kourier.ingress.networking.knative.dev"

class_choice :
    {A : Type 0} (istio kourier : Bool) (i k : A)
    → (if kourier then k else if istio then i else k) ≡ (if istio && not kourier then i else k)
class_choice true true i k = refl
class_choice true false i k = refl
class_choice false true i k = refl
class_choice false false i k = refl

default_ingress_class_lem :
    (ingress : IngressConfigs) → default_ingress_class (some ingress) ≡ ingress_class ingress
unfolding default_ingress_class
default_ingress_class_lem ingress = class_choice ingress.istio ingress.kourier _ _

-- The values that stand where the user gives none.
abbrev pub default_value : String → IngressConfigs → ConfigMapData → String → String → Option String
default_value domain ingress config cm key =
    or_else
      (only_if (not (domain == "") && is_empty (config_map config "domain"))
        (given "domain" domain "" cm key))
      (or_else (given "network" "ingress.class" (ingress_class ingress) cm key) (
        or_else (given "network" "domainTemplate" "{{.Name}}-{{.Namespace}}.{{.Domain}}" cm key) (
          or_else (given "network" "defaultExternalScheme" "https" cm key) (
            or_else (given "network" "autocreateClusterDomainClaims" "true" cm key) (
              or_else (given "observability" "request-metrics-protocol" "prometheus" cm key) (
                only_if ingress.istio (given "observability" "metrics-protocol" "none" cm key)))))))

-- The configuration that Reconcile leaves in a KnativeServing: the values the operator insists on, then
-- the user's, and then the defaults. The domain is a default of a ConfigMap that has no values at all.
pub configured_lem :
    (domain logging_host : String) (images : Dict String) (ingress : IngressConfigs)
    (config : ConfigMapData) (cm key : String)
    → config_value (configured domain logging_host images ingress config) cm key
      ≡ or_else
          (forced_value logging_host images cm key)
          (or_else (config_value config cm key) (default_value domain ingress config cm key))
unfolding configured
configured_lem domain logging_host images ingress config cm key =
    rw
      (
        default_ingress_class_lem, with_istio_metrics_at, configure_if_unset_at,
        configure_if_unset_at, configure_if_unset_at, configure_if_unset_at, configure_if_unset_at,
        configure_at, with_logging_at, with_domain_at,
      )
      (simp (or_else_assoc) refl)
