-- ===== src/Ingress/Loops.antt =====
-- The loops of ReconcileKind and FinalizeKind: which Routes they touch, and what they leave.
use serverless_operator.Common.{
  String, false, ◌≡◌, refl, ap, ◌∙◌, sym, none, some, List, [], ◌∷◌, Bool-cases, inl, inr, any, All,
  arith, eq_iff, eq_refl, ◌==◌, Dict, lookup, remove, lookup-nil, lookup-cons_hit, lookup-cons_miss,
  lookup-remove, subst, ok,
}
use mathlib.Core.Path.{fun_ext}
use serverless_operator.Ingress.Spec.{Ingress, Route, External, IsLawful}
use serverless_operator.Ingress.Routes.{make_routes}
use serverless_operator.Ingress.Api.{got_of, Lister, RouteClient, IsRouteClient}
use serverless_operator.Ingress.Reconcile.{
  Run, and_then, selector, by_name, route_list, reconcile_kind, delete_route, reconcile_route,
  delete_routes, reconcile_loop,
}
use serverless_operator.Ingress.Frame.{
  key_of, entry_at, named, IsKeyed, Distinct, At, reconcile_route-frame, reconcile_route-own,
  delete_route_lem,
}

-- The existing Routes that no desired one takes out of the map.
unfoldable pub obsolete : List Route → Dict Route → Dict Route
obsolete [] existing = existing
obsolete (r ∷ rs) existing = obsolete rs (remove r.name existing)

pub and_then-done :
    {C : Type 0} (m : Run C) (f : C → Run C)
    → (and_then m f).1 ≡ none
    → (m.1 ≡ none) × (and_then m f ≡ f m.0)
and_then-done (s, none) f h = (refl, refl)
and_then-done (s, some e) f h = cc

and_then_assoc :
    {C : Type 0} (m : Run C) (f g : C → Run C)
    → and_then m (λ s. and_then (f s) g) ≡ and_then (and_then m f) g
and_then_assoc (s, none) f g = refl
and_then_assoc (s, some e) f g = refl

module _ (ext : External) {Cluster : Type 0} (api : RouteClient Cluster) (lister : Lister) where
  -- the loop over the desired Routes alone
  unfoldable pub reconcile_routes : List Route → Cluster → Run Cluster
  reconcile_routes [] s = (s, none)
  reconcile_routes (r ∷ rs) s =
      and_then (reconcile_route ext api lister r s) (λ s'. reconcile_routes rs s')

  pub reconcile_loop-split :
      (rs : List Route) (existing : Dict Route) (s : Cluster)
      → reconcile_loop ext api lister rs existing s
        ≡ and_then (reconcile_routes rs s) (delete_routes ext api lister (obsolete rs existing))
  unfolding reconcile_loop reconcile_routes obsolete
  reconcile_loop-split [] existing s = refl
  reconcile_loop-split (r ∷ rs) existing s =
      ap (and_then (reconcile_route ext api lister r s))
        (fun_ext (λ t. reconcile_loop-split rs (remove r.name existing) t))
      ∙ and_then_assoc (reconcile_route ext api lister r s) (reconcile_routes rs)
          (delete_routes ext api lister (obsolete rs (remove r.name existing)))

  pub reconcile_kind-loop :
      (ing : Ingress) (listed desired : List Route) (s : Cluster)
      → lister.list (selector ing) ≡ ok listed
      → make_routes ext ing ≡ ok desired
      → reconcile_kind ext api lister ing s
        ≡ reconcile_loop ext api lister desired (by_name listed []) s
  unfolding reconcile_kind route_list
  reconcile_kind-loop ing listed desired s list_ok make_ok = ground (arith, list_ok, make_ok)

  module _ (client : IsRouteClient api) where
    -- One deletion of the loop, and the rest.
    delete_routes-cons :
        (name : String) (r : Route) (rest : Dict Route) (s : Cluster)
        → (delete_routes ext api lister ((name, r) ∷ rest) s).1 ≡ none
        → ((delete_route ext api lister r s).1 ≡ none)
          × ((delete_routes ext api lister rest (delete_route ext api lister r s).0).1 ≡ none)
          × (delete_routes ext api lister ((name, r) ∷ rest) s
              ≡ delete_routes ext api lister rest (delete_route ext api lister r s).0)
    unfolding delete_routes
    delete_routes-cons name r rest s done =
        let (one, step) =
          and_then-done (delete_route ext api lister r s) (delete_routes ext api lister rest)
            done in
        (one, sym (ap (λ t. t.1) step) ∙ done, step)

    pub delete_routes-frame :
        (dict : Dict Route) (s : Cluster) (n m : String)
        → (delete_routes ext api lister dict s).1 ≡ none
        → any (entry_at n m) dict ≡ false
        → api.routes (delete_routes ext api lister dict s).0 n m ≡ api.routes s n m
    delete_routes-frame [] s n m done other = unfold delete_routes in refl
    delete_routes-frame ((name, r) ∷ rest) s n m done other =
        let (one, later, step) = delete_routes-cons name r rest s done in
        let elsewhere : key_of r n m ≡ false = ground arith in
        ap (λ t. api.routes t.0 n m) step
        ∙ delete_routes-frame rest (delete_route ext api lister r s).0 n m later (ground arith)
        ∙ (delete_route_lem ext api lister client r s n m one ∙ rw elsewhere)

    delete_routes-none :
        (dict : Dict Route) (s : Cluster) (n m : String)
        → (delete_routes ext api lister dict s).1 ≡ none
        → api.routes s n m ≡ none
        → api.routes (delete_routes ext api lister dict s).0 n m ≡ none
    delete_routes-none [] s n m done gone = unfold delete_routes in gone
    delete_routes-none ((name, r) ∷ rest) s n m done gone =
        let (one, later, step) = delete_routes-cons name r rest s done in
        ap (λ t. api.routes t.0 n m) step
        ∙ delete_routes-none rest (delete_route ext api lister r s).0 n m later
            (delete_route_lem ext api lister client r s n m one ∙ ground arith)

    pub delete_routes-gone :
        (dict : Dict Route) (s : Cluster) (k : String) (r : Route)
        → lookup k dict ≡ some r
        → (delete_routes ext api lister dict s).1 ≡ none
        → api.routes (delete_routes ext api lister dict s).0 r.namespace r.name ≡ none
    delete_routes-gone [] s k r h done = cc (lookup-nil {V = Route} k, h)
    delete_routes-gone ((j, q) ∷ rest) s k r h done =
        let (one, later, step) = delete_routes-cons j q rest s done in
        let after : Cluster = (delete_route ext api lister q s).0 in
        ap (λ t. api.routes t.0 r.namespace r.name) step ∙ elim (Bool-cases (j == k)) [
          | inl e ↦
              let same : q ≡ r = cc (lookup-cons_hit j k q rest e, h) in
              delete_routes-none rest after r.namespace r.name later (
                delete_route_lem ext api lister client q s r.namespace r.name one
                ∙ rw same (ground (arith, eq_refl r.namespace, eq_refl r.name)))
          | inr e ↦
              delete_routes-gone rest after k r (sym (lookup-cons_miss j k q rest e) ∙ h) later
        ]

  -- Taking the desired names out keeps the other entries, and their names.
  pub lookup-obsolete :
      (rs : List Route) (existing : Dict Route) (k : String)
      → any (named k) rs ≡ false
      → lookup k (obsolete rs existing) ≡ lookup k existing
  unfolding obsolete
  lookup-obsolete [] existing k other = refl
  lookup-obsolete (r ∷ rs) existing k other =
      lookup-obsolete rs (remove r.name existing) k (ground arith)
      ∙ lookup-remove r.name k existing
      ∙ ground (arith, eq_iff k r.name, eq_iff r.name k)

  module _ (client : IsRouteClient api) (keyed : IsKeyed lister) where
    reconcile_routes-cons :
        (r : Route) (rs : List Route) (s : Cluster)
        → (reconcile_routes (r ∷ rs) s).1 ≡ none
        → ((reconcile_route ext api lister r s).1 ≡ none)
          × ((reconcile_routes rs (reconcile_route ext api lister r s).0).1 ≡ none)
          × (reconcile_routes (r ∷ rs) s
              ≡ reconcile_routes rs (reconcile_route ext api lister r s).0)
    unfolding reconcile_routes
    reconcile_routes-cons r rs s done =
        let (one, step) =
          and_then-done (reconcile_route ext api lister r s) (reconcile_routes rs) done in
        (one, sym (ap (λ t. t.1) step) ∙ done, step)

    pub reconcile_routes-frame :
        (rs : List Route) (s : Cluster) (n m : String)
        → (reconcile_routes rs s).1 ≡ none
        → any (λ r. key_of r n m) rs ≡ false
        → api.routes (reconcile_routes rs s).0 n m ≡ api.routes s n m
    reconcile_routes-frame [] s n m done other = unfold reconcile_routes in refl
    reconcile_routes-frame (r ∷ rs) s n m done other =
        let (one, later, step) = reconcile_routes-cons r rs s done in
        ap (λ t. api.routes t.0 n m) step
        ∙ reconcile_routes-frame rs (reconcile_route ext api lister r s).0 n m later (ground arith)
        ∙ reconcile_route-frame ext api lister client keyed r s n m one (ground arith)

    -- The cache agrees with the cluster about the Route.
    abbrev pub InSync : Cluster → Route → Type 0
    InSync s d = lister.get d.namespace d.name ≡ got_of (api.routes s d.namespace d.name)

    InSync-step :
        (r : Route) (rs : List Route) (s : Cluster)
        → any (named r.name) rs ≡ false
        → (reconcile_route ext api lister r s).1 ≡ none
        → All (InSync s) rs
        → All (InSync (reconcile_route ext api lister r s).0) rs
    InSync-step r [] s other one sync = tt
    InSync-step r (d ∷ rs) s other one (here, there) = (
      here
          ∙ ap got_of (
              sym (
                reconcile_route-frame ext api lister client keyed r s d.namespace d.name one
                  (ground (arith, eq_iff r.name d.name, eq_iff d.name r.name)))),
      InSync-step r rs s (ground arith) one there,
    )

    distinct_key :
        (r : Route) (rs : List Route)
        → any (named r.name) rs ≡ false
        → any (λ d. key_of d r.namespace r.name) rs ≡ false
    distinct_key r [] h = refl
    distinct_key r (d ∷ rs) h = ground (arith, distinct_key r rs)

    pub reconcile_routes-own :
        IsLawful ext
        → (rs : List Route) (s : Cluster) → Distinct rs
        → All (InSync s) rs
        → (reconcile_routes rs s).1 ≡ none
        → All (At ext api lister (reconcile_routes rs s).0) rs
    reconcile_routes-own lawful [] s distinct sync done = tt
    reconcile_routes-own lawful (r ∷ rs) s (fresh, distinct) (here, there) done =
        let (one, later, step) = reconcile_routes-cons r rs s done in
        let after : Cluster = (reconcile_route ext api lister r s).0 in
        let (q, stored, agrees) =
          reconcile_route-own ext api lister client keyed lawful r s here one in
        subst (λ t. All (At ext api lister t.0) (r ∷ rs)) (sym step)
          (
            (
              q,
              reconcile_routes-frame rs after r.namespace r.name later (distinct_key r rs fresh)
                  ∙ stored,
              agrees,
            ),
            reconcile_routes-own lawful rs after distinct (InSync-step r rs s fresh one there)
                later,
          )
