-- ===== src/Ingress/Converge.antt =====
-- ReconcileKind as a whole: after a successful run the Routes of the cluster are those that the
-- ingress asks for.
use serverless_operator.Common.{
  String, true, false, ◌≡◌, refl, ap, ◌∙◌, sym, none, some, List, [], any, All, Dict, lookup, ok,
  All-zip,
}
use serverless_operator.Ingress.Spec.{Ingress, Route, External, IsLawful}
use serverless_operator.Ingress.Routes.{make_routes}
use serverless_operator.Ingress.Api.{Lister, RouteClient, IsRouteClient}
use serverless_operator.Ingress.Reconcile.{selector, by_name, reconcile_kind, delete_routes}
use serverless_operator.Ingress.Frame.{key_of, entry_at, named, IsKeyed, Distinct, At}
use serverless_operator.Ingress.Loops.{
  obsolete, and_then-done, reconcile_routes, reconcile_loop-split, reconcile_kind-loop,
  delete_routes-frame, delete_routes-gone, lookup-obsolete, reconcile_routes-frame,
  reconcile_routes-own, InSync,
}
use serverless_operator.Ingress.Existing.{
  any-by_name, well_named, kept_key, All-named, any-obsolete,
}

module _ (ext : External) {Cluster : Type 0} (api : RouteClient Cluster) (lister : Lister)
    (ing : Ingress) (listed desired : List Route) where
  -- The Route that the controller recorded under a name: the last one listed.
  abbrev pub recorded : Dict Route
  recorded = by_name listed []

  -- A successful run of the controller on the ingress, from a state of the cluster, with what it
  -- listed and what it made.
  pub record IsRun (s : Cluster) : Type 0 where
    pub list_ok : lister.list (selector ing) ≡ ok listed
    pub make_ok : make_routes ext ing ≡ ok desired
    pub success : (reconcile_kind ext api lister ing s).1 ≡ none

  -- The two halves of the run.
  record Halves (s : Cluster) : Type 0 where
    first : (reconcile_routes ext api lister desired s).1 ≡ none
    second :
        (delete_routes ext api lister
          (obsolete desired recorded)
          (reconcile_routes ext api lister desired s).0).1
        ≡ none
    whole :
        reconcile_kind ext api lister ing s
        ≡ delete_routes ext api lister
            (obsolete desired recorded)
            (reconcile_routes ext api lister desired s).0

  halves : (s : Cluster) → IsRun s → Halves s
  halves s run =
      let split =
        reconcile_kind-loop ext api lister ing listed desired s run.list_ok run.make_ok
        ∙ reconcile_loop-split ext api lister desired recorded s in
      let (one, step) =
        and_then-done (reconcile_routes ext api lister desired s)
          (delete_routes ext api lister (obsolete desired recorded))
          (sym (ap (λ t. t.1) split) ∙ run.success) in
      record {
        first = one;
        second = sym (ap (λ t. t.1) (split ∙ step)) ∙ run.success;
        whole = split ∙ step;
      }

  module _ (client : IsRouteClient api) (keyed : IsKeyed lister) where
    survives :
        (s : Cluster) (h : Halves s) (n m : String)
        → any (entry_at n m) (obsolete desired recorded) ≡ false
        → api.routes (reconcile_kind ext api lister ing s).0 n m
          ≡ api.routes (reconcile_routes ext api lister desired s).0 n m
    survives s h n m other =
        ap (λ t. api.routes t.0 n m) h.whole
        ∙ delete_routes-frame ext api lister client (obsolete desired recorded)
            (reconcile_routes ext api lister desired s).0 n m h.second other

    -- After a run without an error, with a lawful client and lister, every desired Route is in the
    -- cluster, with the desired spec, annotations and labels, where the names of the desired Routes
    -- differ and the cache agrees with the cluster about them before the run.
    pub reconcile_kind-present :
        IsLawful ext
        → (s : Cluster) → IsRun s
        → Distinct desired
        → All (InSync ext api lister client keyed s) desired
        → All (At ext api lister (reconcile_kind ext api lister ing s).0) desired
    reconcile_kind-present lawful s run distinct sync =
        let h = halves s run in
        All-zip
          (λ d at there.
            let (r, stored, agrees) = at in
            (
              r,
              survives s h d.namespace d.name
                    (kept_key d.namespace d.name desired recorded (well_named listed) there)
                  ∙ stored,
              agrees,
            ))
          desired
          (reconcile_routes-own ext api lister client keyed lawful desired s distinct sync h.first)
          (All-named desired desired (λ k e. e))

    -- After a run without an error, with a lawful client and lister, a Route that the map of the listed
    -- Routes holds under a name that no desired Route has is no longer in the cluster.
    pub reconcile_kind-removed :
        (s : Cluster) (k : String) (r : Route)
        → IsRun s
        → lookup k recorded ≡ some r
        → any (named k) desired ≡ false
        → api.routes (reconcile_kind ext api lister ing s).0 r.namespace r.name ≡ none
    reconcile_kind-removed s k r run found unwanted =
        let h = halves s run in
        ap (λ t. api.routes t.0 r.namespace r.name) h.whole
        ∙ delete_routes-gone ext api lister client (obsolete desired recorded)
            (reconcile_routes ext api lister desired s).0 k r
            (lookup-obsolete ext api lister desired recorded k unwanted ∙ found) h.second

    -- After a run without an error, with a lawful client and lister, a Route at a namespace and a name
    -- that neither a desired Route nor one listed for this ingress has is as it was.
    pub reconcile_kind-untouched :
        (s : Cluster) (n m : String)
        → IsRun s
        → any (λ d. key_of d n m) desired ≡ false
        → any (λ r. key_of r n m) listed ≡ false
        → api.routes (reconcile_kind ext api lister ing s).0 n m ≡ api.routes s n m
    reconcile_kind-untouched s n m run unwanted foreign =
        let h = halves s run in
        survives s h n m (
          any-obsolete (entry_at n m) desired recorded
            (any-by_name (entry_at n m) listed [] foreign refl))
        ∙ reconcile_routes-frame ext api lister client keyed desired s n m h.first unwanted

    -- A run without an error, with a lawful client and lister, leaves a Route as it was that has the
    -- name of a desired one in a namespace where no desired one of that name is, also where it was
    -- listed as one of this ingress: it is neither updated nor deleted.
    pub reconcile_kind-leaks :
        (s : Cluster) (n m : String)
        → IsRun s
        → any (λ d. key_of d n m) desired ≡ false
        → any (named m) desired ≡ true
        → api.routes (reconcile_kind ext api lister ing s).0 n m ≡ api.routes s n m
    reconcile_kind-leaks s n m run elsewhere same_name =
        let h = halves s run in
        survives s h n m (kept_key n m desired recorded (well_named listed) same_name)
        ∙ reconcile_routes-frame ext api lister client keyed desired s n m h.first elsewhere
