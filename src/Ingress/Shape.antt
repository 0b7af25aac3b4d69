-- ===== src/Ingress/Shape.antt =====
-- What `make_routes` of resources/route.go returns, Route by Route.
use serverless_operator.Common.{
  String, true, false, ◌≡◌, refl, ◌≢◌, ap, Option, none, some, List, [], ◌∷◌, ◌++◌, arith,
  if◌then◌else◌, Bool-cases, inl, inr, eq_iff, has_key, select, All, All-append, ok, >>=-eq-ok,
  ok-injective, subst, ◌∙◌,
}
use serverless_operator.Ingress.Spec.{IngressRule, Ingress, Route, External}
use serverless_operator.Ingress.Routes.{
  is_exposed, is_local, keep, make_route, host_routes, rule_routes, make_routes, route_at,
  target_service, get_haproxy_timeout, route_name, route_labels, route_annotations, route_spec,
  disable_route_annotation,
}

-- The hosts that an ingress exposes: of the rules that are not cluster-local, those that are no
-- cluster-local names.
unfoldable pub exposed_hosts : List IngressRule → List String
exposed_hosts [] = []
exposed_hosts (rule ∷ rules) =
    let rest = exposed_hosts rules in
    if is_local rule then rest else select is_exposed rule.hosts ++ rest

module _ (ext : External) (ci : Ingress) where
  -- The Route for a host of a rule, for a timeout.
  abbrev pub built : String → IngressRule → String → Route
  built host rule timeout = record {
    name = route_name ext ci.uid host;
    namespace = (target_service ci).1;
    labels = route_labels ext ci;
    annotations = route_annotations ext ci timeout;
    spec = route_spec ext ci (route_annotations ext ci timeout) host (target_service ci).0 rule;
  }

  pub record IsBuilt (host : String) (rule : IngressRule) (r : Route) : Type 0 where
    pub timeout : String
    pub timeout_ok : get_haproxy_timeout ext ci ≡ ok timeout
    pub same : r ≡ built host rule timeout
    pub service : (target_service ci).0 ≢ ""
    pub namespace : (target_service ci).1 ≢ ""
    pub wanted : has_key disable_route_annotation ci.annotations ≡ false
    pub visible : is_local rule ≡ false

  route_at-built :
      (host : String) (rule : IngressRule) (timeout : String) (r : Route)
      → route_at ext ci host rule timeout (target_service ci) ≡ ok (some r)
      → (r ≡ built host rule timeout) × ((target_service ci).0 ≢ "") × ((target_service ci).1 ≢ "")
  unfolding route_at
  route_at-built host rule timeout r h =
      ground (arith, eq_iff (target_service ci).0 "", eq_iff (target_service ci).1 "")

  pub make_route-IsBuilt :
      (host : String) (rule : IngressRule) (r : Route)
      → make_route ext ci host rule ≡ ok (some r)
      → IsBuilt host rule r
  unfolding make_route
  make_route-IsBuilt host rule r h =
      let visible : is_local rule ≡ false = ground arith in
      let wanted : has_key disable_route_annotation ci.annotations ≡ false = ground arith in
      let (timeout, found, rest) =
        >>=-eq-ok (get_haproxy_timeout ext ci)
          (λ t. route_at ext ci host rule t (target_service ci)) (ground arith) in
      let (same, service, namespace) = route_at-built host rule timeout r rest in
      record {
        timeout = timeout;
        timeout_ok = found;
        same = same;
        service = service;
        namespace = namespace;
        wanted = wanted;
        visible = visible;
      }

  -- What holds of each Route for an exposed host holds of all.
  module _ {ℓ} (P : Route → Type ℓ)
      (each : (host : String) (rule : IngressRule) (r : Route)
        → is_exposed host ≡ true
        → IsBuilt host rule r
        → P r) where
    All-keep :
        (o : Option Route) (rs : List Route)
        → ((r : Route) → o ≡ some r → P r)
        → All P rs
        → All P (keep o rs)
    All-keep none rs h k = k
    All-keep (some r) rs h k = (h r refl, k)

    host_routes-All :
        (rule : IngressRule) (hosts : List String) {rs : List Route}
        → host_routes ext ci rule hosts ≡ ok rs
        → All P rs
    unfolding host_routes
    host_routes-All rule [] {rs} h = subst (All P) (ok-injective h) tt
    host_routes-All rule (host ∷ hosts) h = elim (Bool-cases (is_exposed host)) [
      | inl out ↦
          let (made, one, more) =
            >>=-eq-ok (make_route ext ci host rule) _ (rw (out, host_routes) at h) in
          let (later, others, same) = >>=-eq-ok (host_routes ext ci rule hosts) _ more in
          subst (All P) (ok-injective same) (
            All-keep made later
              (λ r e. each host rule r out (make_route-IsBuilt host rule r (one ∙ ap ok e)))
              (host_routes-All rule hosts others))
      | inr hidden ↦ host_routes-All rule hosts (rw (hidden, host_routes) at h)
    ]

    rule_routes-All :
        (rules : List IngressRule) {rs : List Route} → rule_routes ext ci rules ≡ ok rs → All P rs
    unfolding rule_routes
    rule_routes-All [] h = subst (All P) (ok-injective h) tt
    rule_routes-All (rule ∷ rules) h = elim (Bool-cases (is_local rule)) [
      | inl local ↦ rule_routes-All rules (rw (local, rule_routes) at h)
      | inr shown ↦
          let (here, one, more) =
            >>=-eq-ok (host_routes ext ci rule rule.hosts) _ (rw (shown, rule_routes) at h) in
          let (later, others, same) = >>=-eq-ok (rule_routes ext ci rules) _ more in
          subst (All P) (ok-injective same) (
            All-append P here later (host_routes-All rule rule.hosts one)
              (rule_routes-All rules others))
    ]

    pub make_routes-All : {rs : List Route} → make_routes ext ci ≡ ok rs → All P rs
    unfolding make_routes
    make_routes-All h = rule_routes-All ci.rules h
