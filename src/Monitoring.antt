-- ===== src/Monitoring.antt =====
-- openshift-knative-operator/pkg/monitoring/helpers.go: whether a component is monitored, and the
-- label of its namespace. The cluster is of any type, behind Get and Update of namespaces.
pub mod RbacProxy
pub mod Services
pub mod Laws
mod Tests
use serverless_operator.Common.{
  String, ◌≡◌, Bool, true, false, Option, none, some, if◌then◌else◌, ◌==◌, ◌&&◌, ◌||◌, not, Dict,
  lookup_or, insert, Result, ok, err, ◌<>◌,
}
use serverless_operator.Config.{ConfigMapData, config_map, configure, configure_if_unset}

-- A namespace: its name, its labels, and the rest of it.
pub record Namespace (R : Type 0) : Type 0 where
  pub name : String
  pub labels : Dict String
  pub others : R

-- api.CoreV1().Namespaces(): Get, and Update with the error, if any.
pub record Api (R X : Type 0) : Type 0 where
  pub get : String → X → Result String (Namespace R)
  pub update : Namespace R → X → X × Option String

-- What the documentation of the API promises: the namespace of a Get has the name asked for, and
-- after an Update without an error a Get gives the updated namespace.
pub record IsApi {R X : Type 0} (api : Api R X) : Type 0 where
  pub get_name : (name : String) (n : Namespace R) (x : X) → api.get name x ≡ ok n → n.name ≡ name
  pub update_get :
      (n : Namespace R) (x x' : X) → api.update n x ≡ (x', none) → api.get n.name x' ≡ ok n

abbrev pub observability_cm_name : String
observability_cm_name = "observability"

abbrev pub observability_backend_key : String
observability_backend_key = "metrics-protocol"

abbrev pub enable_monitoring_label : String
enable_monitoring_label = "openshift.io/cluster-monitoring"

-- config[ObservabilityCMName][ObservabilityBackendKey]
abbrev pub backend_of : ConfigMapData → String
backend_of config = lookup_or "" observability_backend_key (config_map config observability_cm_name)

abbrev pub from_environment : (String → String → Bool) → Option String → String → Bool
from_environment equal_fold none backend = true
from_environment equal_fold (some enable) backend =
    if not (equal_fold enable "true") && not (backend == "") then true else equal_fold enable "true"

-- `equal_fold` is strings.EqualFold, `env` the value of ENABLE_MONITORING_BY_DEFAULT, if present.
unfoldable pub should_enable_monitoring :
    (String → String → Bool) → Option String → ConfigMapData → Bool
should_enable_monitoring equal_fold env config =
    if backend_of config == "none" || backend_of config == "opencensus"
    then false
    else from_environment equal_fold env (backend_of config)

-- strconv.FormatBool
abbrev pub format_bool : Bool → String
format_bool true = "true"
format_bool false = "false"

-- fmt.Errorf around the error, if any
abbrev pub wrap : {X : Type 0} → String → X × Option String → X × Option String
wrap message (x, none) = (x, none)
wrap message (x, some e) = (x, some (message <> e))

abbrev pub after_label :
    {X : Type 0} → ConfigMapData → X × Option String → ConfigMapData × (X × Option String)
after_label config (x, none) =
    (configure config observability_cm_name observability_backend_key "none", (x, none))
after_label config (x, some e) = (config, (x, some ("failed to disable monitoring " <> e)))

module _ {R X : Type 0} (api : Api R X) where
  unfoldable pub label_namespace : Namespace R → Bool → X → X × Option String
  unfolding lookup_or insert
  label_namespace ns enable x =
      if lookup_or "" enable_monitoring_label ns.labels == format_bool enable
      then (x, none)
      else wrap "could not add label to namespace: " (
          api.update
            (record {
              name = ns.name;
              labels = insert enable_monitoring_label (format_bool enable) ns.labels;
              others = ns.others;
            })
            x)

  unfoldable pub reconcile_monitoring_label_on_namespace : String → Bool → X → X × Option String
  reconcile_monitoring_label_on_namespace namespace enable x = elim (api.get namespace x) [
    | err e ↦ (x, some e)
    | ok ns ↦ label_namespace ns enable x
  ]

  -- The spec and the cluster afterwards, and the error, if any.
  unfoldable pub reconcile_monitoring :
      (String → String → Bool)
      → Option String
      → String
      → ConfigMapData
      → X
      → ConfigMapData × (X × Option String)
  reconcile_monitoring equal_fold env ns config x =
      if should_enable_monitoring equal_fold env config
      then (
        configure_if_unset config observability_cm_name observability_backend_key "prometheus",
        wrap "failed to enable monitoring " (reconcile_monitoring_label_on_namespace ns true x),
      )
      else after_label config (reconcile_monitoring_label_on_namespace ns false x)
