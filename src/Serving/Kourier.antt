-- ===== src/Serving/Kourier.antt =====
-- kourier.go of openshift-knative-operator/pkg/serving and overrideActivatorTerminationGracePeriod of
-- extension.go: the transformers of the resources of Kourier and of the activator.
pub mod Laws
mod Tests
use serverless_operator.Common.{
  ℤ, String, Bool, ◌&&◌, ◌||◌, ◌==◌, not, Option, none, some, List, [], ◌∷◌, ◌++◌, map,
  if◌then◌else◌, Dict, lookup, lookup_or, insert, has_key, Result, ok, err, ◌>>=◌, ◌<>◌,
  replace_first, parse_int64,
}
use serverless_operator.Config.{ConfigMapData, config_map}
use serverless_operator.Monitoring.RbacProxy.{get_cm_data_for_name}
use serverless_operator.Transform.Spec.{EnvVar, Unstructured, Scheme, Transformer}
use serverless_operator.Transform.Environment.{inject_environment_into_deployment}

-- A port of a Service; P is the part that the code does not read.
pub record ServicePort (P : Type 0) : Type 0 where
  pub name : String
  pub app_protocol : Option String
  pub others : P

-- What the code calls: scheme.Scheme.Convert of each kind, in both directions, where nil data of a
-- ConfigMap are none; u.SetOwnerReferences(nil), mf.InjectNamespace, network.GetClusterDomainName and
-- strings.ToLower.
pub record KourierLibrary (P C : Type 0) : Type 0 where
  pub scheme : Scheme C
  pub to_config_map : Unstructured C → Result String (Option (Dict String))
  pub from_config_map : Dict String → Unstructured C → Result String (Unstructured C)
  pub to_ports : Unstructured C → Result String (List (ServicePort P))
  pub from_ports : List (ServicePort P) → Unstructured C → Result String (Unstructured C)
  pub to_grace_period : Unstructured C → Result String (Option ℤ)
  pub from_grace_period : Option ℤ → Unstructured C → Result String (Unstructured C)
  pub clear_owner_references : C → C
  pub inject_namespace : String → Transformer C
  pub cluster_domain : String
  pub to_lower : String → String

abbrev pub serving_owner_namespace : String
serving_owner_namespace = "serving.knative.openshift.io/ownerNamespace"

abbrev pub serving_owner_name : String
serving_owner_name = "serving.knative.openshift.io/ownerName"

abbrev pub provider_label : String
provider_label = "networking.knative.dev/ingress-provider"

abbrev pub boot_strap_config_key : String
boot_strap_config_key = "envoy-bootstrap.yaml"

abbrev pub default_controller_address : String
default_controller_address = "net-kourier-controller.knative-serving"

unfoldable pub kourier_namespace : String → String
kourier_namespace serving_ns = serving_ns <> "-ingress"

abbrev pub env_var : String → String → EnvVar
env_var name value = record { name = name; value = value; value_from = none }

-- Whether the traffic of the system is encrypted, with the certificate of the ingress.
abbrev pub certificate_vars : Bool → String → List EnvVar
certificate_vars encrypted certificate =
    if encrypted
    then env_var "CERTS_SECRET_NAMESPACE" "openshift-ingress"
      ∷ env_var "CERTS_SECRET_NAME"
          (if not (certificate == "") then certificate else "router-certs-default")
      ∷ []
    else []

abbrev pub with_h2c : {P : Type 0} → ServicePort P → ServicePort P
with_h2c port = if port.name == "http2" then record port { app_protocol = some "h2c" } else port

module _ {P C : Type 0} (library : KourierLibrary P C) where
  abbrev pub controller_address : String → String
  unfolding kourier_namespace
  controller_address ns =
      "net-kourier-controller." <> kourier_namespace ns <> ".svc." <> library.cluster_domain <> "."

  -- The new data; nil data make the code panic, which is an error here.
  abbrev pub with_address : String → Option (Dict String) → Result String (Dict String)
  unfolding lookup_or insert replace_first
  with_address ns none = err "assignment to entry in nil map"
  with_address ns (some config) = ok (
      insert boot_strap_config_key
        (replace_first (lookup_or "" boot_strap_config_key config) default_controller_address
          (controller_address ns))
        config)

  -- `ns` is the namespace of the KnativeServing.
  unfoldable pub override_kourier_bootstrap : String → Transformer C
  override_kourier_bootstrap ns u =
      if not (u.kind == "ConfigMap") || not (u.name == "kourier-bootstrap") then ok u else (do
        config ← library.to_config_map u
        changed ← with_address ns config
        library.from_config_map changed u)

  -- `name` and `ns` are those of the KnativeServing.
  unfoldable pub override_kourier_namespace : String → String → Transformer C
  unfolding lookup_or insert kourier_namespace
  override_kourier_namespace ns name u =
      if not (lookup_or "" provider_label u.labels == "kourier")
      then ok u
      else library.inject_namespace (kourier_namespace ns) (record u {
        labels = insert serving_owner_name name (insert serving_owner_namespace ns u.labels);
        content = library.clear_owner_references u.content;
      })

  unfoldable pub kourier_env_values : ConfigMapData → List EnvVar
  unfolding config_map lookup_or
  kourier_env_values config =
      let network = config_map config "network" in
      env_var "KOURIER_HTTPOPTION_DISABLED" "true"
      ∷ env_var "SERVING_NAMESPACE" "knative-serving"
      ∷ certificate_vars
          (library.to_lower (lookup_or "" "system-internal-tls" network) == "enabled")
          (lookup_or "" "openshift-ingress-default-certificate" network)

  unfoldable pub add_kourier_env_values : ConfigMapData → Transformer C
  unfolding inject_environment_into_deployment kourier_env_values
  add_kourier_env_values config =
      inject_environment_into_deployment library.scheme "net-kourier-controller" "controller"
        (kourier_env_values config)

  unfoldable pub set_app_protocol : Transformer C
  set_app_protocol u =
      if not (u.kind == "Service") || not (u.name == "kourier")
      then ok u
      else (do ports ← library.to_ports u; library.from_ports (map with_h2c ports) u)

  -- A nil transformer is none.
  unfoldable pub add_kourier_app_protocol : Dict String → Option (Transformer C)
  unfolding has_key set_app_protocol
  add_kourier_app_protocol annotations =
      if not (has_key "serverless.openshift.io/default-enable-http2" annotations)
      then none
      else some set_app_protocol

  abbrev pub parsed_timeout : String → Option ℤ → Result String ℤ
  parsed_timeout text (some n) = ok n
  parsed_timeout text none = err ("strconv.ParseInt: parsing \"" <> text <> "\": invalid syntax")

  unfoldable pub set_grace_period : String → Transformer C
  unfolding parse_int64
  set_grace_period max_timeout u =
      if u.kind == "Deployment" && u.name == "activator"
      then (do
        old ← library.to_grace_period u
        parsed ← parsed_timeout max_timeout (parse_int64 max_timeout)
        library.from_grace_period (some parsed) u)
      else ok u

  abbrev pub grace_period_of : Option String → Option (Transformer C)
  unfolding set_grace_period
  grace_period_of none = none
  grace_period_of (some max_timeout) = some (set_grace_period max_timeout)

  abbrev pub grace_period_in : Option (Dict String) → Option (Transformer C)
  unfolding lookup set_grace_period
  grace_period_in none = none
  grace_period_in (some v) = grace_period_of (lookup "max-revision-timeout-seconds" v)

  unfoldable pub override_activator_termination_grace_period :
      ConfigMapData → Option (Transformer C)
  unfolding get_cm_data_for_name lookup set_grace_period
  override_activator_termination_grace_period config =
      grace_period_in (get_cm_data_for_name config "config-defaults" "defaults")
