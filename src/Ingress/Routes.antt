-- ===== src/Ingress/Routes.antt =====
-- resources/route.go: from a Knative Ingress to the OpenShift Routes that expose it.
use Prim.Native.Char.{code}
use Prim.Native.String.{slice}
use serverless_operator.Common.{
  ℕ, ◌+◌, ◌/◌, ◌%◌, ltb, eqb, String, Bool, true, false, ◌&&◌, ◌||◌, not, Option, none, some, List,
  [], ◌∷◌, ◌++◌, if◌then◌else◌, any, ◌==◌, ◌<>◌, Dict, insert, filter_keys, has_key, lookup_or,
  has_prefix, split, parse_int64, Result, ok, err, ◌>>=◌,
}
use serverless_operator.Ingress.Spec.{
  from_int, from_string, cluster_local, HttpOption, enabled, redirected, unset, Split, IngressRule,
  LbIngress, Ingress, edge, passthrough, InsecurePolicy, allow, redirect, RouteSpec, Route,
  External,
}

abbrev pub serving_downstream_domain : String
serving_downstream_domain = "serving.knative.openshift.io"

abbrev pub timeout_annotation : String
timeout_annotation = "haproxy.router.openshift.io/timeout"

abbrev pub disable_route_annotation : String
disable_route_annotation = serving_downstream_domain <> "/disableRoute"

abbrev pub enable_passthrough_route_annotation : String
enable_passthrough_route_annotation = serving_downstream_domain <> "/enablePassthrough"

abbrev pub set_route_timeout_annotation : String
set_route_timeout_annotation = serving_downstream_domain <> "/setRouteTimeout"

abbrev pub argo_cd_prefix : String
argo_cd_prefix = "argocd.argoproj.io"

abbrev pub kubernetes_application_label_key : String
kubernetes_application_label_key = "app.kubernetes.io/instance"

abbrev pub http_port : String
http_port = "http2"

abbrev pub https_port : String
https_port = "https"

-- networking.IngressLabelKey
abbrev pub ingress_label_key : String
ingress_label_key = "networking.internal.knative.dev/ingress"

abbrev pub openshift_ingress_label_key : String
openshift_ingress_label_key = serving_downstream_domain <> "/ingressName"

abbrev pub openshift_ingress_namespace_label_key : String
openshift_ingress_namespace_label_key = serving_downstream_domain <> "/ingressNamespace"

-- networking.ServiceHTTPSPort
abbrev pub service_https_port : ℕ
service_https_port = 443

pub data RouteError : Type 0 where
  invalid_timeout : String → RouteError
  no_valid_loadbalancer_domain : RouteError

-- Only hosts that are no cluster-local names are exposed: two labels, or a third that is not "svc".
unfoldable pub exposed_parts : List String → Bool
exposed_parts (a ∷ b ∷ []) = true
exposed_parts (a ∷ b ∷ c ∷ rest) = not (c == "svc")
exposed_parts _ = false

unfoldable pub is_exposed : String → Bool
unfolding exposed_parts
is_exposed host = exposed_parts (split b'.' host)

abbrev pub is_https : Split → Bool
is_https s = elim s.service_port [ from_int p ↦ eqb p service_https_port | from_string p ↦ false ]

unfoldable pub is_tls_destination : IngressRule → Bool
is_tls_destination rule = elim rule.http [ none ↦ false | some paths ↦ any (any is_https) paths ]

unfoldable pub clean_argo_cd_annotations : Dict String → Dict String
clean_argo_cd_annotations annos = filter_keys (λ key. not (has_prefix key argo_cd_prefix)) annos

unfoldable pub clean_argo_cd_labels : Dict String → Dict String
clean_argo_cd_labels labels =
    filter_keys
      (λ key. not (has_prefix key argo_cd_prefix) && not (key == kubernetes_application_label_key))
      labels

-- One step of the loop over the load balancer's entries, from the service and namespace so far.
lb_parts : List String → String × String → String × String
lb_parts (service ∷ namespace ∷ kind ∷ rest) found =
    if kind == "svc" then (service, namespace) else found
lb_parts _ found = found

unfoldable pub lb_service : List LbIngress → String × String → String × String
unfolding lb_parts
lb_service [] found = found
lb_service (entry ∷ entries) found = lb_service entries (
    if entry.domain_internal == ""
    then found
    else lb_parts (split b'.' entry.domain_internal) found)

-- The service and the namespace that a Route of this ingress points to; "" where there is none.
unfoldable pub target_service : Ingress → String × String
unfolding lb_service
target_service ci = elim ci.public_load_balancer [
  | none ↦ ("", "")
  | some entries ↦ lb_service entries ("", "")
]

-- `%x` of a text of ASCII characters
abbrev hex_digit : ℕ → String
hex_digit n = slice "0123456789abcdef" n (n + 1)

hex : String → String
hex String.[] = ""
hex (String.◌∷◌ c s) = hex_digit (code c / 16) <> hex_digit (code c % 16) <> hex s

abbrev pub edge_policy : HttpOption → InsecurePolicy
edge_policy redirected = redirect
edge_policy enabled = allow
edge_policy (unset _) = allow

abbrev pub is_local : IngressRule → Bool
is_local rule = elim rule.visibility [ cluster_local ↦ true | _ ↦ false ]

abbrev pub keep : Option Route → List Route → List Route
keep none routes = routes
keep (some r) routes = r ∷ routes

module _ (ext : External) where
  unfoldable pub hash_host : String → String
  hash_host host = slice (ext.sha256_hex host) 0 6

  unfoldable pub route_name : String → String → String
  unfolding hash_host hex
  route_name uid host = "route-" <> uid <> "-" <> hex (hash_host host)

  seconds : String → Result RouteError String
  seconds timeout = elim (parse_int64 timeout) [
    | none ↦ err (invalid_timeout timeout)
    | some _ ↦ ok (timeout <> "s")
  ]

  -- The annotation first, then the environment, then the default; an empty value is no value.
  unfoldable pub get_haproxy_timeout : Ingress → Result RouteError String
  unfolding seconds
  get_haproxy_timeout ci =
      let timeout = lookup_or "" set_route_timeout_annotation ci.annotations in
      if not (timeout == "")
      then seconds timeout
      else if not (ext.haproxy_timeout_env == "")
      then seconds ext.haproxy_timeout_env
      else ok (ext.default_max_revision_timeout_seconds <> "s")

  unfoldable pub own_labels : Ingress → Dict String
  own_labels ci =
      (ingress_label_key, ci.name)
      ∷ (openshift_ingress_label_key, ci.name)
      ∷ (openshift_ingress_namespace_label_key, ci.namespace)
      ∷ []

  -- The labels of every Route of an ingress.
  unfoldable pub route_labels : Ingress → Dict String
  route_labels ci = clean_argo_cd_labels (ext.kmap_union ci.labels (own_labels ci))

  -- The annotations of every Route of an ingress, for its timeout.
  unfoldable pub route_annotations : Ingress → String → Dict String
  route_annotations ci timeout =
      insert timeout_annotation timeout (clean_argo_cd_annotations ci.annotations)

  -- Passthrough is asked for by the annotation, by the ingress's TLS, or by the destination.
  unfoldable pub wants_passthrough : Ingress → Dict String → IngressRule → Bool
  wants_passthrough ci annotations rule =
      has_key enable_passthrough_route_annotation annotations
      || ltb 0 (ext.external_tls ci)
      || is_tls_destination rule

  unfoldable pub route_spec : Ingress → Dict String → String → String → IngressRule → RouteSpec
  route_spec ci annotations host service rule =
      let secure = wants_passthrough ci annotations rule in
      record {
        host = host;
        target_port = from_string (if secure then https_port else http_port);
        to_kind = "Service";
        to_name = service;
        weight = 100;
        termination = if secure then passthrough else edge;
        insecure_policy = if secure then redirect else edge_policy ci.http_option;
        wildcard_policy = "None";
      }

  unfoldable pub route_at :
      Ingress → String → IngressRule → String → String × String → Result RouteError (Option Route)
  route_at ci host rule timeout (service, namespace) =
      if service == "" || namespace == ""
      then err no_valid_loadbalancer_domain
      else ok (
          some (record {
            name = route_name ci.uid host;
            namespace = namespace;
            labels = route_labels ci;
            annotations = route_annotations ci timeout;
            spec = route_spec ci (route_annotations ci timeout) host service rule;
          }))

  unfoldable pub make_route : Ingress → String → IngressRule → Result RouteError (Option Route)
  make_route ci host rule =
      if is_local rule
      then ok none
      else if has_key disable_route_annotation ci.annotations
      then ok none
      else (do timeout ← get_haproxy_timeout ci; route_at ci host rule timeout (target_service ci))

  -- the loop over the hosts of a rule; the Routes of what follows are added behind
  unfoldable pub host_routes : Ingress → IngressRule → List String → Result RouteError (List Route)
  host_routes ci rule [] = ok []
  host_routes ci rule (host ∷ hosts) =
      let rest = host_routes ci rule hosts in
      if is_exposed host
      then (do made ← make_route ci host rule; routes ← rest; ok (keep made routes))
      else rest

  unfoldable pub rule_routes : Ingress → List IngressRule → Result RouteError (List Route)
  rule_routes ci [] = ok []
  rule_routes ci (rule ∷ rules) =
      let rest = rule_routes ci rules in
      if is_local rule
      then rest
      else (do here ← host_routes ci rule rule.hosts; later ← rest; ok (here ++ later))

  unfoldable pub make_routes : Ingress → Result RouteError (List Route)
  make_routes ci = rule_routes ci ci.rules
