-- ===== src/Ingress/Security.antt =====
-- How the Routes of an ingress terminate TLS (resources/route.go, makeRoute).
use serverless_operator.Common.{
  ◌<◌, String, true, ◌≡◌, List, arith, Bool-cases, inl, inr, has_key, ok, All, ◌⊎◌, lookup-insert,
  lookup-filter_keys, has_prefix,
}
use serverless_operator.Ingress.Spec.{
  IngressRule, Ingress, Route, External, RouteSpec, from_string, passthrough, edge, redirect,
}
use serverless_operator.Ingress.Routes.{
  make_routes, route_spec, wants_passthrough, route_annotations, clean_argo_cd_annotations,
  http_port, https_port, edge_policy, enable_passthrough_route_annotation,
}
use serverless_operator.Ingress.Shape.{make_routes-All}

-- The two kinds of Route: TLS ends at the service behind the HTTPS port, and plain requests are
-- redirected; or TLS ends at the router, in front of the HTTP port.
abbrev pub IsPassthrough : RouteSpec → Type 0
IsPassthrough s =
    (s.termination ≡ passthrough)
    × (s.target_port ≡ from_string https_port)
    × (s.insecure_policy ≡ redirect)

abbrev pub IsEdge : Ingress → RouteSpec → Type 0
IsEdge ci s =
    (s.termination ≡ edge)
    × (s.target_port ≡ from_string http_port)
    × (s.insecure_policy ≡ edge_policy ci.http_option)

module _ (ext : External) (ci : Ingress) where
  route_spec-kind :
      (annotations : _) (host service : String) (rule : IngressRule)
      → IsPassthrough (route_spec ext ci annotations host service rule)
        ⊎ IsEdge ci (route_spec ext ci annotations host service rule)
  unfolding route_spec
  route_spec-kind annotations host service rule =
      elim (Bool-cases (wants_passthrough ext ci annotations rule)) [
        | inl secure ↦ inl (rw secure, rw secure, rw secure)
        | inr plain ↦ inr (rw plain, rw plain, rw plain)
      ]

  -- Every Route is of one of the two kinds, all three fields together.
  pub make_routes-kind :
      (rs : List Route)
      → make_routes ext ci ≡ ok rs
      → All (λ r. IsPassthrough r.spec ⊎ IsEdge ci r.spec) rs
  make_routes-kind rs h =
      make_routes-All ext ci (λ r. IsPassthrough r.spec ⊎ IsEdge ci r.spec)
        (λ host rule r out b. rw b.same (route_spec-kind _ host _ rule)) h

  -- the clean-up keeps the annotation, and so does the timeout
  annotated :
      (timeout : String)
      → has_key enable_passthrough_route_annotation ci.annotations ≡ true
      → has_key enable_passthrough_route_annotation (route_annotations ext ci timeout) ≡ true
  unfolding route_annotations clean_argo_cd_annotations has_key has_prefix
  annotated timeout h = rw (lookup-insert, lookup-filter_keys) h

  route_spec-IsPassthrough :
      (timeout host service : String) (rule : IngressRule)
      → (has_key enable_passthrough_route_annotation ci.annotations ≡ true)
        ⊎ (0 < ext.external_tls ci)
      → IsPassthrough (route_spec ext ci (route_annotations ext ci timeout) host service rule)
  unfolding route_spec wants_passthrough
  route_spec-IsPassthrough timeout host service rule asked = ground (arith, annotated timeout)

  -- With the passthrough annotation, or TLS for an external host, every Route passes TLS through:
  -- no Route of the ingress serves plain HTTP.
  pub make_routes-IsPassthrough :
      (rs : List Route)
      → (has_key enable_passthrough_route_annotation ci.annotations ≡ true)
        ⊎ (0 < ext.external_tls ci)
      → make_routes ext ci ≡ ok rs
      → All (λ r. IsPassthrough r.spec) rs
  make_routes-IsPassthrough rs asked h =
      make_routes-All ext ci (λ r. IsPassthrough r.spec)
        (λ host rule r out b. rw b.same (route_spec-IsPassthrough b.timeout host _ rule asked)) h
