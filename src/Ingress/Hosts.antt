-- ===== src/Ingress/Hosts.antt =====
-- Which Routes `make_routes` of resources/route.go returns, and when it fails.
use serverless_operator.Common.{
  String, true, false, ◌≡◌, refl, ◌≢◌, ap, ◌∙◌, Option, List, [], ◌∷◌, map, arith, Bool-cases, inl,
  inr, eq_iff, has_key, select, ok, >>=-eq-ok, ok-injective, sym, ◌⊎◌, is_ok, ◌↔◌,
}
use mathlib.Core.List.{map-append}
use mathlib.Core.Bool.{false≢true}
use serverless_operator.Ingress.Spec.{IngressRule, Ingress, Route, External}
use serverless_operator.Ingress.Routes.{
  is_exposed, is_local, keep, make_route, host_routes, rule_routes, make_routes, route_at,
  route_spec, target_service, get_haproxy_timeout, disable_route_annotation,
}
use serverless_operator.Ingress.Shape.{exposed_hosts}

abbrev pub hosts_of : List Route → List String
hosts_of rs = map (λ r. r.spec.host) rs

module _ (ext : External) (ci : Ingress) where
  module _ (enabled : has_key disable_route_annotation ci.annotations ≡ false) where
    make_route-host :
        (host : String) (rule : IngressRule) (made : Option Route) (rs : List Route)
        → is_local rule ≡ false
        → make_route ext ci host rule ≡ ok made
        → hosts_of (keep made rs) ≡ host ∷ hosts_of rs
    unfolding make_route route_at route_spec
    make_route-host host rule made rs visible h = ground arith

    host_routes-hosts :
        (rule : IngressRule) (hosts : List String) {rs : List Route}
        → is_local rule ≡ false
        → host_routes ext ci rule hosts ≡ ok rs
        → hosts_of rs ≡ select is_exposed hosts
    unfolding host_routes
    host_routes-hosts rule [] visible h = ap hosts_of (sym (ok-injective h))
    host_routes-hosts rule (host ∷ hosts) visible h = elim (Bool-cases (is_exposed host)) [
      | inl out ↦
          let (made, one, more) =
            >>=-eq-ok (make_route ext ci host rule) _ (rw (out, host_routes) at h) in
          let (later, others, same) = >>=-eq-ok (host_routes ext ci rule hosts) _ more in
          rw (out, ← ok-injective same)
            (make_route-host host rule made later visible one
              ∙ ap (λ (l : List String). host ∷ l) (host_routes-hosts rule hosts visible others))
      | inr hidden ↦
          rw hidden (host_routes-hosts rule hosts visible (rw (hidden, host_routes) at h))
    ]

    rule_routes-hosts :
        (rules : List IngressRule) {rs : List Route}
        → rule_routes ext ci rules ≡ ok rs
        → hosts_of rs ≡ exposed_hosts rules
    unfolding rule_routes exposed_hosts
    rule_routes-hosts [] h = ap hosts_of (sym (ok-injective h))
    rule_routes-hosts (rule ∷ rules) h = elim (Bool-cases (is_local rule)) [
      | inl local ↦ rw local (rule_routes-hosts rules (rw (local, rule_routes) at h))
      | inr shown ↦
          let (here, one, more) =
            >>=-eq-ok (host_routes ext ci rule rule.hosts) _ (rw (shown, rule_routes) at h) in
          let (later, others, same) = >>=-eq-ok (rule_routes ext ci rules) _ more in
          rw (shown, ← ok-injective same)
            (map-append _ here later
              ∙ cc (host_routes-hosts rule rule.hosts shown one, rule_routes-hosts rules others))
    ]

  -- Where the ingress has no disableRoute annotation and the translation succeeds, there is exactly
  -- one Route for each exposed host, in the order of the rules and of their hosts.
  pub make_routes-hosts :
      (rs : List Route)
      → has_key disable_route_annotation ci.annotations ≡ false
      → make_routes ext ci ≡ ok rs
      → hosts_of rs ≡ exposed_hosts ci.rules
  unfolding make_routes
  make_routes-hosts rs enabled h = rule_routes-hosts enabled ci.rules h

  module _ (off : has_key disable_route_annotation ci.annotations ≡ true) where
    host_routes-disabled :
        (rule : IngressRule) (hosts : List String) → host_routes ext ci rule hosts ≡ ok []
    unfolding host_routes make_route
    host_routes-disabled rule [] = refl
    host_routes-disabled rule (host ∷ hosts) = ground (arith, host_routes-disabled rule hosts)

    rule_routes-disabled : (rules : List IngressRule) → rule_routes ext ci rules ≡ ok []
    unfolding rule_routes
    rule_routes-disabled [] = refl
    rule_routes-disabled (rule ∷ rules) =
        ground (arith, host_routes-disabled rule rule.hosts, rule_routes-disabled rules)

  module _ (timeout : String) (found : get_haproxy_timeout ext ci ≡ ok timeout)
      (service : (target_service ci).0 ≢ "") (namespace : (target_service ci).1 ≢ "") where
    make_route-is_ok :
        (host : String) (rule : IngressRule) → is_ok (make_route ext ci host rule) ≡ true
    unfolding make_route route_at
    make_route-is_ok host rule =
        ground (arith, eq_iff (target_service ci).0 "", eq_iff (target_service ci).1 "")

    host_routes-is_ok :
        (rule : IngressRule) (hosts : List String) → is_ok (host_routes ext ci rule hosts) ≡ true
    unfolding host_routes
    host_routes-is_ok rule [] = refl
    host_routes-is_ok rule (host ∷ hosts) =
        ground (arith, make_route-is_ok host rule, host_routes-is_ok rule hosts)

    rule_routes-is_ok : (rules : List IngressRule) → is_ok (rule_routes ext ci rules) ≡ true
    unfolding rule_routes
    rule_routes-is_ok [] = refl
    rule_routes-is_ok (rule ∷ rules) =
        ground (arith, host_routes-is_ok rule rule.hosts, rule_routes-is_ok rules)

  module _ (enabled : has_key disable_route_annotation ci.annotations ≡ false)
      (nowhere : (target_service ci).0 ≡ "" ⊎ (target_service ci).1 ≡ "") where
    make_route-nowhere :
        (host : String) (rule : IngressRule)
        → is_local rule ≡ false
        → is_ok (make_route ext ci host rule) ≡ false
    unfolding make_route route_at
    make_route-nowhere host rule visible =
        ground (arith, eq_iff (target_service ci).0 "", eq_iff (target_service ci).1 "")

    host_routes-nowhere :
        (rule : IngressRule) (hosts : List String)
        → is_local rule ≡ false
        → select is_exposed hosts ≢ []
        → is_ok (host_routes ext ci rule hosts) ≡ false
    unfolding host_routes
    host_routes-nowhere rule [] visible h = absurd (h refl)
    host_routes-nowhere rule (host ∷ hosts) visible h =
        ground (arith, make_route-nowhere host rule visible, host_routes-nowhere rule hosts visible)

    rule_routes-nowhere :
        (rules : List IngressRule)
        → exposed_hosts rules ≢ []
        → is_ok (rule_routes ext ci rules) ≡ false
    unfolding rule_routes exposed_hosts
    rule_routes-nowhere [] h = absurd (h refl)
    rule_routes-nowhere (rule ∷ rules) h =
        ground (arith, host_routes-nowhere rule rule.hosts, rule_routes-nowhere rules)

  -- Where the disableRoute annotation is not set, some host is exposed and the timeout is valid, the
  -- translation succeeds exactly when the load balancer names a service and a namespace.
  pub make_routes-is_ok :
      (timeout : String)
      → has_key disable_route_annotation ci.annotations ≡ false
      → exposed_hosts ci.rules ≢ []
      → get_haproxy_timeout ext ci ≡ ok timeout
      → (is_ok (make_routes ext ci) ≡ true)
        ↔ (((target_service ci).0 ≢ "") × ((target_service ci).1 ≢ ""))
  unfolding make_routes
  make_routes-is_ok timeout enabled exposed found = (
    λ done. (
      λ e. false≢true (sym (rule_routes-nowhere enabled (inl e) ci.rules exposed) ∙ done),
      λ e. false≢true (sym (rule_routes-nowhere enabled (inr e) ci.rules exposed) ∙ done),
    ),
    λ named. rule_routes-is_ok timeout found named.0 named.1 ci.rules,
  )

  -- With the disableRoute annotation there are no Routes, and no error, whatever else the ingress
  -- holds.
  pub make_routes-disabled :
      has_key disable_route_annotation ci.annotations ≡ true → make_routes ext ci ≡ ok []
  unfolding make_routes
  make_routes-disabled off = rule_routes-disabled off ci.rules
