-- ===== src/Ingress/Spec.antt =====
-- The data of the ingress controller: the fields that it reads of a Knative Ingress and writes of
-- an OpenShift Route, and what it takes from outside the repository.
use serverless_operator.Common.{ℕ, String, ◌≡◌, ◌↔◌, Bool, true, Option, none, some, List, Dict}
use serverless_operator.Common.{SameMap, lookup}

-- intstr.IntOrString
pub data IntOrString : Type 0 where
  from_int : ℕ → IntOrString
  from_string : String → IntOrString

-- IngressVisibility; `other` is the empty or any unknown value
pub data Visibility : Type 0 where
  external_ip cluster_local : Visibility
  other : String → Visibility

-- HTTPOption
pub data HttpOption : Type 0 where
  enabled redirected : HttpOption
  unset : String → HttpOption

-- the service port of one backend split of a path
pub record Split : Type 0 where
  pub service_port : IntOrString

pub record IngressRule : Type 0 where
  pub hosts : List String
  pub visibility : Visibility
  -- `rule.HTTP`: nil, or the splits of its paths
  pub http : Option (List (List Split))

pub record LbIngress : Type 0 where
  pub domain_internal : String

pub record Ingress : Type 0 where
  pub name : String
  pub namespace : String
  pub uid : String
  pub labels : Dict String
  pub annotations : Dict String
  pub rules : List IngressRule
  pub http_option : HttpOption
  -- `ci.Status.PublicLoadBalancer`: nil, or its ingress entries
  pub public_load_balancer : Option (List LbIngress)

pub data Termination : Type 0 where
  edge passthrough : Termination

pub data InsecurePolicy : Type 0 where
  allow redirect : InsecurePolicy

pub record RouteSpec : Type 0 where
  pub host : String
  pub target_port : IntOrString
  pub to_kind : String
  pub to_name : String
  pub weight : ℕ
  pub termination : Termination
  pub insecure_policy : InsecurePolicy
  pub wildcard_policy : String

-- Server-populated fields (uid, resource version, status) are left out.
pub record Route : Type 0 where
  pub name : String
  pub namespace : String
  pub labels : Dict String
  pub annotations : Dict String
  pub spec : RouteSpec

-- What the controller calls and does not implement.
pub record External : Type 0 where
  -- the hexadecimal text of a SHA-256 digest
  pub sha256_hex : String → String
  -- os.Getenv("ROUTE_HAPROXY_TIMEOUT")
  pub haproxy_timeout_env : String
  -- config.DefaultMaxRevisionTimeoutSeconds, in decimal
  pub default_max_revision_timeout_seconds : String
  -- kmap.Union
  pub kmap_union : Dict String → Dict String → Dict String
  -- len(ci.GetIngressTLSForVisibility(IngressVisibilityExternalIP))
  pub external_tls : Ingress → ℕ
  -- equality.Semantic.DeepEqual on specs, and on annotations and labels
  pub deep_equal_spec : RouteSpec → RouteSpec → Bool
  pub deep_equal_map : Dict String → Dict String → Bool

-- Documented behaviour of those calls, where a proof needs it.
pub record IsLawful (ext : External) : Type 0 where
  -- values from the latter map win
  pub union_lookup :
      (k : String) (m n : Dict String)
      → lookup k (ext.kmap_union m n) ≡ elim (lookup k n) [ none ↦ lookup k m | some v ↦ some v ]
  pub equal_spec : (a b : RouteSpec) → (ext.deep_equal_spec a b ≡ true) ↔ (a ≡ b)
  pub equal_map : (m n : Dict String) → (ext.deep_equal_map m n ≡ true) ↔ SameMap m n
