-- ===== src/Serving.antt =====
-- openshift-knative-operator/pkg/serving/secretinformerfiltering.go: the filter of the informer of
-- secrets, which follows the workload overrides of the KnativeServing.
pub mod Cleanup
pub mod Defaults
pub mod Extension
pub mod Kourier
pub mod Metadata
pub mod Policies
pub mod Laws
mod Tests
use serverless_operator.Common.{
  String, Bool, true, false, Option, none, some, List, [], ◌∷◌, if◌then◌else◌, ◌==◌, ◌&&◌, ◌||◌,
  insert, ok,
}
use serverless_operator.Transform.Spec.{EnvVar, Unstructured, Scheme, Transformer}
use serverless_operator.Transform.Environment.{inject_environment_into_deployment}

-- base.EnvRequirementsOverride
pub record EnvRequirementsOverride : Type 0 where
  pub container : String
  pub env_vars : List EnvVar

-- base.WorkloadOverride: the two fields that the code reads.
pub record WorkloadOverride : Type 0 where
  pub name : String
  pub env : List EnvRequirementsOverride

abbrev pub enable_env : String
enable_env = "ENABLE_SECRET_INFORMER_FILTERING_BY_CERT_UID"

-- strconv.ParseBool, none where it is an error
unfoldable pub parse_bool : String → Option Bool
parse_bool s =
    if s == "1" || s == "t" || s == "T" || s == "true" || s == "TRUE" || s == "True"
    then some true
    else if s == "0" || s == "f" || s == "F" || s == "false" || s == "FALSE" || s == "False"
    then some false
    else none

abbrev pub or_false : Option Bool → Bool
or_false (some b) = b
or_false none = false

-- The loops return from the function at the first variable of the name; `none` where they end.
unfoldable pub find_in_vars : List EnvVar → Option Bool
unfolding parse_bool
find_in_vars [] = none
find_in_vars (v ∷ vs) =
    let later = find_in_vars vs in
    if v.name == enable_env then some (or_false (parse_bool v.value)) else later

abbrev pub or_later : Option Bool → Option Bool → Option Bool
or_later (some b) later = some b
or_later none later = later

unfoldable pub find_in_env : String → List EnvRequirementsOverride → Option Bool
unfolding find_in_vars
find_in_env container [] = none
find_in_env container (e ∷ es) =
    let later = find_in_env container es in
    if e.container == container then or_later (find_in_vars e.env_vars) later else later

unfoldable pub find_in_overrides : String → String → List WorkloadOverride → Option Bool
unfolding find_in_env
find_in_overrides deployment container [] = none
find_in_overrides deployment container (o ∷ os) =
    let later = find_in_overrides deployment container os in
    if o.name == deployment then or_later (find_in_env container o.env) later else later

abbrev pub enabled_var : EnvVar
enabled_var = record { name = enable_env; value = "true"; value_from = none }

unfoldable pub inject_label_into_system_internal_tls_secret : {C : Type 0} → Transformer C
unfolding insert
inject_label_into_system_internal_tls_secret u =
    if u.kind == "Secret" && u.name == "routing-serving-certs"
    then ok (record u {
      labels = insert "networking.internal.knative.dev/certificate-uid" "data-plane" u.labels;
    })
    else ok u

abbrev pub injections : {C : Type 0} → Bool × Option (Transformer C) → List (Option (Transformer C))
injections (true, tf) = some inject_label_into_system_internal_tls_secret ∷ tf ∷ []
injections (false, tf) = []

module _ {C : Type 0} (scheme : Scheme C) where
  abbrev pub default_injection : String → Bool × Option (Transformer C)
  unfolding inject_environment_into_deployment
  default_injection deployment =
      if deployment == "net-istio-controller" || deployment == "net-kourier-controller"
      then (
        true,
        some (inject_environment_into_deployment scheme deployment "controller" (enabled_var ∷ [])),
      )
      else (false, none)

  -- A nil transformer is `none`.
  unfoldable pub config_if_unset_and_check_if_should_inject :
      List WorkloadOverride → String → String → Bool × Option (Transformer C)
  unfolding find_in_overrides
  config_if_unset_and_check_if_should_inject overrides deployment container =
      elim (find_in_overrides deployment container overrides) [
        | some b ↦ (b, none)
        | none ↦ default_injection deployment
      ]

  -- The ingress section is there, with its two switches, since the extension has set its defaults.
  unfoldable pub enable_secret_informer_filtering_transformers :
      Bool → Bool → List WorkloadOverride → List (Option (Transformer C))
  enable_secret_informer_filtering_transformers istio kourier overrides =
      let found =
        if istio
        then config_if_unset_and_check_if_should_inject overrides "net-istio-controller"
            "controller"
        else (false, none) in
      injections (
        if kourier
        then config_if_unset_and_check_if_should_inject overrides "net-kourier-controller"
            "controller"
        else found)
