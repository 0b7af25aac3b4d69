-- ===== src/Ingress/Tests/Sample.antt =====
-- An ingress with an exposed and a cluster-local host, and a cluster that still has an old Route
-- of it beside one that belongs to nobody.
use serverless_operator.Common.{
  String, Bool, true, false, ◌≡◌, refl, none, some, List, [], ◌∷◌, ◌<>◌, Dict, union, lookup,
  insert, lookup-union, same_map, same_map_iff, ok, ◌&&◌, ◌==◌, eq_iff, eq_refl, subst, ap, ◌↔◌,
  arith, eqb, has_prefix, filter_keys, split, parse_int64, has_key, lookup_or,
}
use serverless_operator.Ingress.Spec.{
  IntOrString, from_int, from_string, external_ip, enabled, IngressRule, Ingress, Termination, edge,
  passthrough, InsecurePolicy, allow, redirect, RouteSpec, Route, External, IsLawful,
}
use serverless_operator.Ingress.Routes.{
  exposed_parts, is_exposed, is_tls_destination, clean_argo_cd_annotations, clean_argo_cd_labels,
  lb_service, target_service, hash_host, route_name, get_haproxy_timeout, own_labels, route_labels,
  route_annotations, wants_passthrough, route_spec, route_at, make_route, host_routes, rule_routes,
  make_routes, serving_downstream_domain,
}
use serverless_operator.Ingress.Shape.{built, exposed_hosts}
use serverless_operator.Ingress.Tests.Cluster.{Stored}

unfoldable pub same_port : IntOrString → IntOrString → Bool
same_port (from_int a) (from_int b) = eqb a b
same_port (from_string a) (from_string b) = a == b
same_port _ _ = false

same_termination : Termination → Termination → Bool
same_termination edge edge = true
same_termination passthrough passthrough = true
same_termination _ _ = false

same_policy : InsecurePolicy → InsecurePolicy → Bool
same_policy allow allow = true
same_policy redirect redirect = true
same_policy _ _ = false

-- A decision of the equality of specs.
unfoldable pub same_spec : RouteSpec → RouteSpec → Bool
unfolding same_termination same_policy
same_spec a b =
    a.host == b.host
    && same_port a.target_port b.target_port
    && a.to_kind == b.to_kind
    && a.to_name == b.to_name
    && eqb a.weight b.weight
    && same_termination a.termination b.termination
    && same_policy a.insecure_policy b.insecure_policy
    && a.wildcard_policy == b.wildcard_policy

same_port_sound : (a b : IntOrString) → same_port a b ≡ true → a ≡ b
unfolding same_port
same_port_sound (from_int a) (from_int b) h = ground arith
same_port_sound (from_string a) (from_string b) h = ap from_string ((eq_iff a b).0 h)
same_port_sound (from_int a) (from_string b) h = cc
same_port_sound (from_string a) (from_int b) h = cc

same_port_refl : (a : IntOrString) → same_port a a ≡ true
unfolding same_port
same_port_refl (from_int a) = ground arith
same_port_refl (from_string a) = eq_refl a

same_spec_sound : (a b : RouteSpec) → same_spec a b ≡ true → a ≡ b
unfolding same_spec
same_spec_sound a b h = ground (
  arith,
  eq_iff a.host b.host,
  same_port_sound a.target_port b.target_port,
  eq_iff a.to_kind b.to_kind,
  eq_iff a.to_name b.to_name,
  eq_iff a.wildcard_policy b.wildcard_policy,
)

same_spec_refl : (a : RouteSpec) → same_spec a a ≡ true
unfolding same_spec
same_spec_refl a = ground (
  arith,
  eq_refl a.host,
  same_port_refl a.target_port,
  eq_refl a.to_kind,
  eq_refl a.to_name,
  eq_refl a.wildcard_policy,
)

same_spec_iff : (a b : RouteSpec) → (same_spec a b ≡ true) ↔ (a ≡ b)
same_spec_iff a b =
    (same_spec_sound a b, λ e. subst (λ c. same_spec a c ≡ true) e (same_spec_refl a))

-- Stand-ins for what is outside: the hash keeps the first characters of the host.
abbrev pub ext : External
ext = record {
  sha256_hex = λ host. host <> "000000";
  haproxy_timeout_env = "";
  default_max_revision_timeout_seconds = "600";
  kmap_union = union;
  external_tls = λ ci. 0;
  deep_equal_spec = same_spec;
  deep_equal_map = same_map;
}

pub ext-IsLawful : IsLawful ext
ext-IsLawful = record {
  union_lookup = lookup-union;
  equal_spec = same_spec_iff;
  equal_map = same_map_iff;
}

abbrev pub rule : IngressRule
rule = record {
  hosts = "hello.example.com" ∷ "hello.demo.svc.cluster.local" ∷ [];
  visibility = external_ip;
  http = none;
}

abbrev pub ing : Ingress
ing = record {
  name = "hello";
  namespace = "demo";
  uid = "u1";
  labels = ("app.kubernetes.io/instance", "gitops") ∷ [];
  annotations = ("argocd.argoproj.io/sync-wave", "1") ∷ [];
  rules = rule ∷ [];
  http_option = enabled;
  public_load_balancer =
      some (record { domain_internal = "kourier.knative-serving-ingress.svc.cluster.local" } ∷ []);
}

-- The same ingress before its status has a load balancer.
abbrev pub waiting : Ingress
waiting = record ing { public_load_balancer = none }

-- The same ingress with the annotation that asks for passthrough.
abbrev pub secure : Ingress
secure = record ing {
  annotations = (serving_downstream_domain <> "/enablePassthrough", "true") ∷ [];
}

-- The same ingress with the annotation that switches Routes off.
abbrev pub disabled : Ingress
disabled = record ing { annotations = (serving_downstream_domain <> "/disableRoute", "true") ∷ [] }

abbrev pub wanted : Route
wanted = built ext ing "hello.example.com" rule "600s"

abbrev pub desired : List Route
desired = wanted ∷ []

-- An old Route of the ingress, for a host that it has no more.
abbrev pub old : Route
old = record wanted {
  name = "route-u1-old";
  spec = record wanted.spec { host = "old.example.com" };
}

-- A Route of the ingress with the name of the wanted one, where the load balancer was before.
abbrev pub moved : Route
moved = record wanted { namespace = "istio-system" }

abbrev pub foreign : Route
foreign = record wanted { name = "console"; labels = []; annotations = [] }

abbrev pub state : Stored
state = (old.namespace, old.name, old) ∷ (foreign.namespace, foreign.name, foreign) ∷ []

abbrev pub moved_state : Stored
moved_state = (moved.namespace, moved.name, moved) ∷ []

-- All that a run of the translation on the sample computes with.
unfoldable pub translation : Dict String
unfolding exposed_parts is_exposed is_tls_destination clean_argo_cd_annotations clean_argo_cd_labels
    lb_service target_service hash_host route_name get_haproxy_timeout own_labels route_labels
    route_annotations wants_passthrough route_spec route_at make_route host_routes rule_routes
    make_routes union insert filter_keys lookup has_prefix split parse_int64 has_key lookup_or
    exposed_hosts
translation = []

pub make_ok : make_routes ext ing ≡ ok desired
unfolding translation
make_ok = refl
