-- ===== src/Serving/Metadata/Laws.antt =====
-- From the webhook to the Routes of a service in a mesh.
use serverless_operator.Common.{
  ◌≡◌, ap, ◌∙◌, some, is_some, List, All, inl, ok, lookup, has_key, lookup-insert,
}
use serverless_operator.Ingress.Spec.{External, Ingress, Route}
use serverless_operator.Ingress.Routes.{make_routes, enable_passthrough_route_annotation}
use serverless_operator.Ingress.Security.{IsPassthrough, make_routes-IsPassthrough}
use serverless_operator.Serving.Metadata.{Target, default_kservice}

kservice_annotation :
    {K : Type 0} (r : Target K)
    → lookup enable_passthrough_route_annotation (default_kservice r).annotations ≡ some "true"
unfolding default_kservice
kservice_annotation r =
    lookup-insert enable_passthrough_route_annotation enable_passthrough_route_annotation "true"
      r.annotations

-- Where an Ingress has the passthrough annotation of a service that the metadata webhook has completed,
-- every Route that the ingress controller makes of it passes TLS through, whatever the user wrote.
pub default_kservice-IsPassthrough :
    {K : Type 0} (ext : External) (ci : Ingress) (r : Target K) (rs : List Route)
    → lookup enable_passthrough_route_annotation ci.annotations
      ≡ lookup enable_passthrough_route_annotation (default_kservice r).annotations
    → make_routes ext ci ≡ ok rs
    → All (λ route. IsPassthrough route.spec) rs
unfolding has_key
default_kservice-IsPassthrough ext ci r rs copied h =
    make_routes-IsPassthrough ext ci rs (inl (ap is_some (copied ∙ kservice_annotation r))) h
