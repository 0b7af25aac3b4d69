-- ===== src/Monitoring/RbacProxy.antt =====
-- rbac_proxy_injection.go: the proxy that is added to the components that are monitored. The map of its
-- default requests is one for the whole program, and it is written through: it is a state here, which
-- a call of InjectRbacProxyContainer changes and which the transformer reads when it runs.
pub mod Laws
mod Tests
use serverless_operator.Common.{
  String, Bool, ◌&&◌, ◌||◌, ◌==◌, not, Option, none, some, List, [], ◌∷◌, ◌++◌, if◌then◌else◌, Dict,
  lookup, insert, any, Result, ok, err, ◌<>◌, ℤ, pos, atoi, show_int64,
}
use mathlib.Core.Option
use serverless_operator.Common.Options.{◌>>=◌}
use serverless_operator.Config.{ConfigMapData}
use serverless_operator.Transform.Spec.{EnvVar, Unstructured}

-- GetCmDataforName of a name with the prefix "config-", and the name without it. A ConfigMap that is
-- there is not nil.
unfoldable pub get_cm_data_for_name : ConfigMapData → String → String → Option (Dict String)
unfolding lookup
get_cm_data_for_name cfg name without_prefix = elim (lookup name cfg) [
  | some v ↦ some v
  | none ↦ lookup without_prefix cfg
]

abbrev pub or_empty_map : Option (Dict String) → Dict String
or_empty_map none = []
or_empty_map (some m) = m

-- A container of a pod: Q is the type of quantities, K the part that the code does not read.
pub record PodContainer (Q K : Type 0) : Type 0 where
  pub name : String
  pub image : String
  pub env : List EnvVar
  pub args : List String
  -- names and paths
  pub volume_mounts : List (String × String)
  pub requests : Dict Q
  pub limits : Dict Q
  pub others : K

-- A volume: its name and the name of its Secret, if it is one.
pub record PodVolume (K : Type 0) : Type 0 where
  pub name : String
  pub secret_name : Option String
  pub others : K

pub record PodSpec (Q K : Type 0) : Type 0 where
  pub containers : List (PodContainer Q K)
  pub volumes : List (PodVolume K)

-- What the code calls: resource.MustParse, none where it panics; the conversions of a Deployment or
-- StatefulSet; the image, from the environment; the parts that the code leaves out of what it makes.
pub record PodLibrary (Q K C : Type 0) : Type 0 where
  pub must_parse : String → Option Q
  pub to_pod : Unstructured C → Result String (PodSpec Q K)
  pub from_pod : PodSpec Q K → Unstructured C → Result String (Unstructured C)
  pub rbac_proxy_image : String
  pub blank : K

-- The port at which a component exposes its metrics.
unfoldable pub get_default_metrics_port : String → String
get_default_metrics_port name =
    if name == "mt-broker-filter"
      || name == "mt-broker-ingress"
      || name == "pingsource-mt-adapter"
      || name == "job-sink"
    then "9092"
    else "9090"

abbrev pub sm_service_name : String → String
sm_service_name component = component <> "-sm-service"

abbrev pub volume_name : String → String
volume_name name = "secret-" <> name <> "-sm-service-tls"

abbrev pub secret_name : String → String
secret_name name = name <> "-sm-service-tls"

module _ {Q K C : Type 0} (library : PodLibrary Q K C) where
  abbrev pub inserted : String → Option Q → Dict Q → Option (Dict Q)
  inserted name none resources = none
  inserted name (some q) resources = some (insert name q resources)

  abbrev pub overridden : Option String → String → Dict Q → Option (Dict Q)
  overridden none name resources = some resources
  overridden (some v) name resources = inserted name (library.must_parse v) resources

  -- if v, ok := data[key]; ok { resources[name] = resource.MustParse(v) }
  unfoldable pub override_quantity : Dict String → String → String → Dict Q → Option (Dict Q)
  unfolding lookup insert
  override_quantity settings key name resources = overridden (lookup key settings) name resources

  -- What a call of InjectRbacProxyContainer reads from the configuration: the shared requests
  -- afterwards, the limits and the log level; none where a quantity makes it panic. A nil
  -- configuration is the empty one.
  unfoldable pub proxy_settings : ConfigMapData → Dict Q → Option (Dict Q × Dict Q × ℤ)
  unfolding get_cm_data_for_name override_quantity lookup atoi
  proxy_settings cfg shared =
      let settings = or_empty_map (get_cm_data_for_name cfg "config-deployment" "deployment") in
      let logging = or_empty_map (get_cm_data_for_name cfg "config-logging" "logging") in
      do
        with_cpu ← override_quantity settings "kube-rbac-proxy-cpu-request" "cpu" shared
        requests ← override_quantity settings "kube-rbac-proxy-memory-request" "memory" with_cpu
        cpu_limit ← override_quantity settings "kube-rbac-proxy-cpu-limit" "cpu" []
        limits ← override_quantity settings "kube-rbac-proxy-memory-limit" "memory" cpu_limit
        some (
          requests,
          limits,
          elim (lookup "loglevel.kube-rbac-proxy" logging) [ none ↦ pos 0 | some s ↦ atoi s ],
        )

  unfoldable pub rbac_proxy_container : String → Dict Q → Dict Q → ℤ → PodContainer Q K
  unfolding get_default_metrics_port show_int64
  rbac_proxy_container name requests limits log_level = record {
    name = "kube-rbac-proxy";
    image = library.rbac_proxy_image;
    env = [];
    args =
        "--secure-listen-address=0.0.0.0:8444"
        ∷ ("--upstream=http://127.0.0.1:" <> get_default_metrics_port name <> "/")
        ∷ "--tls-cert-file=/etc/tls/private/tls.crt"
        ∷ "--tls-private-key-file=/etc/tls/private/tls.key"
        ∷ "--logtostderr=true"
        ∷ "--http2-disable"
        ∷ ("--v=" <> show_int64 log_level)
        ∷ [];
    volume_mounts = (volume_name name, "/etc/tls/private") ∷ [];
    requests = requests;
    limits = limits;
    others = library.blank;
  }

  abbrev pub local_metrics : EnvVar
  local_metrics = record {
    name = "METRICS_PROMETHEUS_HOST";
    value = "127.0.0.1";
    value_from = none;
  }

  -- none where the pod has no container, and the code panics
  unfoldable pub with_proxy : String → PodContainer Q K → PodSpec Q K → Option (PodSpec Q K)
  with_proxy name proxy pod = elim pod.containers [
    | [] ↦ none
    | first ∷ rest ↦ some (record {
      containers =
          (record first { env = first.env ++ (local_metrics ∷ []) } ∷ rest) ++ (proxy ∷ []);
      volumes =
          pod.volumes
          ++ (record {
            name = volume_name name;
            secret_name = some (secret_name name);
            others = library.blank;
          }
              ∷ []);
    })
  ]

  abbrev pub converted :
      Unstructured C
      → PodContainer Q K
      → Result String (PodSpec Q K)
      → Option (Result String (Unstructured C))
  unfolding with_proxy
  converted u proxy (err e) = some (err ("failed to transform Unstructred into Deployment: " <> e))
  converted u proxy (ok pod) = Option.map (λ p. library.from_pod p u) (with_proxy u.name proxy pod)

  -- The transformer, with the shared requests as they are when it runs.
  unfoldable pub inject_rbac_proxy :
      List String → Dict Q → Dict Q → ℤ → Unstructured C → Option (Result String (Unstructured C))
  unfolding rbac_proxy_container
  inject_rbac_proxy deployments requests limits log_level u =
      if (u.kind == "StatefulSet" || u.kind == "Deployment") && any (λ d. d == u.name) deployments
      then converted u (rbac_proxy_container u.name requests limits log_level) (library.to_pod u)
      else some (ok u)
