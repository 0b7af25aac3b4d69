-- ===== src/Ingress/Steady.antt =====
-- Runs that change nothing, and runs that end without an error.
use serverless_operator.Common.{
  String, false, ◌≡◌, refl, ap, ◌∙◌, not, none, List, [], ◌∷◌, any, All, arith, Dict, ok, remove,
  Result-cases, ◌≢◌, inl, inr,
}
use serverless_operator.Ingress.Spec.{Ingress, Route, External, IsLawful}
use serverless_operator.Ingress.Routes.{make_routes}
use serverless_operator.Ingress.Api.{Got, found, not_found, failed, Lister, RouteClient}
use serverless_operator.Ingress.Reconcile.{
  and_then, overwrite, selector, by_name, route_list, differs, reconcile_got, reconcile_route,
  reconcile_kind, reconcile_loop, delete_routes, delete_route,
}
use serverless_operator.Ingress.Frame.{Agrees, named}
use serverless_operator.Ingress.Loops.{
  obsolete, reconcile_routes, reconcile_loop-split, reconcile_kind-loop,
}
use serverless_operator.Ingress.Existing.{obsolete-nil}

module _ (ext : External) {Cluster : Type 0} (api : RouteClient Cluster) (lister : Lister) where
  -- The cache holds the Route with the desired content.
  abbrev pub IsCached : Route → Type 0
  IsCached d = (r : Route) × (lister.get d.namespace d.name ≡ found r) × Agrees r d

  module _ (lawful : IsLawful ext) where
    Agrees-differs : (r d : Route) → Agrees r d → differs ext api lister r d ≡ false
    unfolding differs
    Agrees-differs r d a = ground (
      arith,
      (lawful.equal_spec r.spec d.spec).1 a.spec,
      (lawful.equal_map r.annotations d.annotations).1 a.annotations,
      (lawful.equal_map r.labels d.labels).1 a.labels,
    )

    reconcile_route-steady :
        (d : Route) (s : Cluster) → IsCached d → reconcile_route ext api lister d s ≡ (s, none)
    unfolding reconcile_route reconcile_got
    reconcile_route-steady d s (r, get_ok, agrees) = ground (arith, Agrees-differs r d agrees)

    reconcile_routes-steady :
        (rs : List Route) (s : Cluster)
        → All IsCached rs
        → reconcile_routes ext api lister rs s ≡ (s, none)
    unfolding reconcile_routes
    reconcile_routes-steady [] s h = refl
    reconcile_routes-steady (r ∷ rs) s (h, k) =
        ap (λ t. and_then t (reconcile_routes ext api lister rs)) (reconcile_route-steady r s h)
        ∙ reconcile_routes-steady rs s k

    -- In the steady state, where the cache holds each desired Route with its content and every
    -- listed Route has the name of a desired one, a run makes no call that changes the cluster.
    pub reconcile_kind-steady :
        (ing : Ingress) (listed desired : List Route) (s : Cluster)
        → lister.list (selector ing) ≡ ok listed
        → make_routes ext ing ≡ ok desired
        → All IsCached desired
        → any (λ r. not (any (named r.name) desired)) listed ≡ false
        → reconcile_kind ext api lister ing s ≡ (s, none)
    reconcile_kind-steady ing listed desired s list_ok make_ok cached wanted =
        reconcile_kind-loop ext api lister ing listed desired s list_ok make_ok
        ∙ reconcile_loop-split ext api lister desired (by_name listed []) s
        ∙ ap (λ t. and_then t (delete_routes ext api lister (obsolete desired (by_name listed []))))
            (reconcile_routes-steady desired s cached)
        ∙ ap (λ m. delete_routes ext api lister m s) (obsolete-nil listed desired wanted)
        ∙ (unfold delete_routes in refl)

  -- A client that never returns an error, and a cache whose reads by name never fail.
  pub record NeverFails : Type 0 where
    pub create : (ns : String) (r : Route) (s : Cluster) → (api.create ns r s).1 ≡ none
    pub update : (ns : String) (r : Route) (s : Cluster) → (api.update ns r s).1 ≡ none
    pub delete : (ns name : String) (s : Cluster) → (api.delete ns name s).1 ≡ none
    pub get : (ns name e : String) → lister.get ns name ≢ failed e

  module _ (reliable : NeverFails) where
    reconcile_got-succeeds :
        (d : Route) (g : Got) (s : Cluster)
        → ((e : String) → g ≢ failed e)
        → (reconcile_got ext api lister d g s).1 ≡ none
    unfolding reconcile_got
    reconcile_got-succeeds d not_found s h = ground (arith, reliable.create d.namespace d s)
    reconcile_got-succeeds d (failed e) s h = absurd (h e refl)
    reconcile_got-succeeds d (found r) s h =
        ground (arith, reliable.update r.namespace (overwrite r d) s)

    delete_routes-succeeds :
        (dict : Dict Route) (s : Cluster) → (delete_routes ext api lister dict s).1 ≡ none
    unfolding delete_routes delete_route
    delete_routes-succeeds [] s = refl
    delete_routes-succeeds ((name, r) ∷ rest) s = ground (
      arith,
      reliable.delete r.namespace r.name s,
      delete_routes-succeeds rest (api.delete r.namespace r.name s).0,
    )

    reconcile_loop-succeeds :
        (rs : List Route) (existing : Dict Route) (s : Cluster)
        → (reconcile_loop ext api lister rs existing s).1 ≡ none
    unfolding reconcile_loop reconcile_route
    reconcile_loop-succeeds [] existing s = delete_routes-succeeds existing s
    reconcile_loop-succeeds (r ∷ rs) existing s =
        let g = lister.get r.namespace r.name in
        ground (
          arith,
          reconcile_got-succeeds r g s (reliable.get r.namespace r.name),
          reconcile_loop-succeeds rs (remove r.name existing)
              (reconcile_got ext api lister r g s).0,
        )

    -- Where no call fails and the cache can be listed, the run ends without an error, whatever the
    -- ingress is and however many Routes there are.
    pub reconcile_kind-succeeds :
        (ing : Ingress) (listed : List Route) (s : Cluster)
        → lister.list (selector ing) ≡ ok listed
        → (reconcile_kind ext api lister ing s).1 ≡ none
    unfolding reconcile_kind route_list
    reconcile_kind-succeeds ing listed s list_ok = elim (Result-cases (make_routes ext ing)) [
      | inl (rs, made) ↦
          ap (λ t. t.1) (reconcile_kind-loop ext api lister ing listed rs s list_ok made)
          ∙ reconcile_loop-succeeds rs (by_name listed []) s
      | inr (e, failed_to) ↦ ground (arith, list_ok, failed_to)
    ]
