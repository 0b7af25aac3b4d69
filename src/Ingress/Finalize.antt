-- ===== src/Ingress/Finalize.antt =====
-- FinalizeKind, and runs on an ingress that has no load balancer yet.
use serverless_operator.Common.{
  String, false, ◌≡◌, refl, ap, ◌∙◌, sym, none, some, List, [], ◌≢◌, ◌⊎◌, inl, inr, any, arith,
  lookup, ok, has_key, Result-cases, Bool-cases, is_ok,
}
use mathlib.Core.Bool.{false≢true}
use serverless_operator.Ingress.Spec.{Ingress, Route, External}
use serverless_operator.Ingress.Routes.{
  make_routes, disable_route_annotation, target_service, get_haproxy_timeout,
}
use serverless_operator.Ingress.Shape.{exposed_hosts}
use serverless_operator.Ingress.Hosts.{make_routes-is_ok}
use serverless_operator.Ingress.Api.{Lister, RouteClient, IsRouteClient}
use serverless_operator.Ingress.Reconcile.{
  selector, by_name, route_list, reconcile_kind, finalize_kind, delete_routes,
}
use serverless_operator.Ingress.Frame.{key_of, entry_at}
use serverless_operator.Ingress.Loops.{delete_routes-frame, delete_routes-gone}
use serverless_operator.Ingress.Existing.{any-by_name}

module _ (ext : External) {Cluster : Type 0} (api : RouteClient Cluster) (lister : Lister) where
  finalize_kind-eq :
      (ing : Ingress) (listed : List Route) (s : Cluster)
      → lister.list (selector ing) ≡ ok listed
      → finalize_kind ext api lister ing s ≡ delete_routes ext api lister (by_name listed []) s
  unfolding finalize_kind route_list
  finalize_kind-eq ing listed s list_ok = ground (arith, list_ok)

  -- A finalizer that ends without an error, with a lawful client, has deleted the Route that the map of
  -- the listed Routes holds under a name, and has left as it was a Route at a namespace and a name
  -- that none of the listed ones has.
  pub finalize_kind_lem :
      IsRouteClient api
      → (ing : Ingress) (listed : List Route) (s : Cluster) (k n m : String) (r : Route)
      → lister.list (selector ing) ≡ ok listed
      → lookup k (by_name listed []) ≡ some r
      → any (λ q. key_of q n m) listed ≡ false
      → (finalize_kind ext api lister ing s).1 ≡ none
      → (api.routes (finalize_kind ext api lister ing s).0 r.namespace r.name ≡ none)
        × (api.routes (finalize_kind ext api lister ing s).0 n m ≡ api.routes s n m)
  finalize_kind_lem client ing listed s k n m r list_ok recorded foreign done =
      let e = finalize_kind-eq ing listed s list_ok in
      let deleted = sym (ap (λ t. t.1) e) ∙ done in
      (
        ap (λ t. api.routes t.0 r.namespace r.name) e
            ∙ delete_routes-gone ext api lister client (by_name listed []) s k r recorded deleted,
        ap (λ t. api.routes t.0 n m) e
            ∙ delete_routes-frame ext api lister client (by_name listed []) s n m deleted
                (any-by_name (entry_at n m) listed [] foreign refl),
      )

  unmade :
      (ing : Ingress) (listed : List Route) (s : Cluster)
      → lister.list (selector ing) ≡ ok listed
      → is_ok (make_routes ext ing) ≡ false
      → reconcile_kind ext api lister ing s ≡ (s, none)
  unfolding reconcile_kind route_list
  unmade ing listed s list_ok bad = elim (Result-cases (make_routes ext ing)) [
    | inl (rs, made) ↦ absurd (false≢true (sym bad ∙ ap is_ok made))
    | inr (e, failed_to) ↦ ground (arith, list_ok, failed_to)
  ]

  -- While the load balancer of an ingress names no service or no namespace, where the Routes can be
  -- listed, the disableRoute annotation is not set, some host is exposed and the timeout is valid, a
  -- run of the controller changes nothing and returns no error: the Routes that exist stay.
  pub reconcile_kind-waits :
      (ing : Ingress) (listed : List Route) (timeout : String) (s : Cluster)
      → lister.list (selector ing) ≡ ok listed
      → has_key disable_route_annotation ing.annotations ≡ false
      → exposed_hosts ing.rules ≢ []
      → get_haproxy_timeout ext ing ≡ ok timeout
      → ((target_service ing).0 ≡ "") ⊎ ((target_service ing).1 ≡ "")
      → reconcile_kind ext api lister ing s ≡ (s, none)
  reconcile_kind-waits ing listed timeout s list_ok enabled exposed found nowhere =
      unmade ing listed s list_ok (elim (Bool-cases (is_ok (make_routes ext ing))) [
        | inr bad ↦ bad
        | inl good ↦
            let named = (make_routes-is_ok ext ing timeout enabled exposed found).0 good in
            absurd (elim nowhere [ inl e ↦ named.0 e | inr e ↦ named.1 e ])
      ])
