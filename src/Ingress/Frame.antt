-- ===== src/Ingress/Frame.antt =====
-- One Route at a time: what `reconcile_route` and `delete_route` of ingress.go do to the Routes of
-- the cluster, and the loops over them.
use serverless_operator.Common.{
  String, Bool, true, false, ◌≡◌, refl, ap, ◌∙◌, Option, none, some, List, [], ◌∷◌, if◌then◌else◌,
  Bool-cases, inl, inr, any, arith, eq_iff, eq_refl, ◌==◌, SameMap,
}
use serverless_operator.Ingress.Spec.{Route, External, IsLawful}
use serverless_operator.Ingress.Api.{
  Got, found, not_found, failed, got_of, Lister, RouteClient, IsRouteClient, at_key,
}
use serverless_operator.Ingress.Reconcile.{
  overwrite, delete_route, differs, reconcile_got, reconcile_route,
}

-- The Route of the cluster has the content of the desired one.
pub record Agrees (r desired : Route) : Type 0 where
  pub spec : r.spec ≡ desired.spec
  pub annotations : SameMap r.annotations desired.annotations
  pub labels : SameMap r.labels desired.labels

abbrev pub key_of : Route → String → String → Bool
key_of r n m = at_key r.namespace r.name n m

abbrev pub entry_at : String → String → String × Route → Bool
entry_at n m e = key_of e.1 n m

abbrev pub named : String → Route → Bool
named k r = r.name == k

-- What a Route of the cache is called is what it was asked for by.
abbrev pub IsKeyed : Lister → Type 0
IsKeyed lister =
    (n m : String) (r : Route) → lister.get n m ≡ found r → (r.namespace ≡ n) × (r.name ≡ m)

-- The names of the Routes differ.
abbrev pub Distinct : List Route → Type 0
Distinct [] = Unit
Distinct (r ∷ rs) = (any (named r.name) rs ≡ false) × Distinct rs

Agrees-self : (d : Route) → Agrees d d
Agrees-self d = record { spec = refl; annotations = λ k. refl; labels = λ k. refl }

Agrees-overwrite : (r d : Route) → Agrees (overwrite r d) d
Agrees-overwrite r d = record { spec = refl; annotations = λ k. refl; labels = λ k. refl }

got_of-ne-failed : (e : String) (o : Option Route) → failed e ≡ got_of o → ⊥
got_of-ne-failed e none h = cc
got_of-ne-failed e (some q) h = cc

got_of-found : (o : Option Route) (r : Route) → found r ≡ got_of o → o ≡ some r
got_of-found none r h = cc
got_of-found (some q) r h = cc

module _ (ext : External) {Cluster : Type 0} (api : RouteClient Cluster) (lister : Lister) where
  abbrev pub At : Cluster → Route → Type 0
  At s d = (r : Route) × (api.routes s d.namespace d.name ≡ some r) × Agrees r d

  module _ (client : IsRouteClient api) where
    reconcile_got-frame :
        (d : Route) (g : Got) (s : Cluster) (n m : String)
        → ((r : Route) → g ≡ found r → (r.namespace ≡ d.namespace) × (r.name ≡ d.name))
        → (reconcile_got ext api lister d g s).1 ≡ none
        → key_of d n m ≡ false
        → api.routes (reconcile_got ext api lister d g s).0 n m ≡ api.routes s n m
    unfolding reconcile_got
    reconcile_got-frame d not_found s n m keyed done other =
        ground (arith, client.create_lem d.namespace d s n m)
    reconcile_got-frame d (failed e) s n m keyed done other = refl
    reconcile_got-frame d (found r) s n m keyed done other =
        let (ns, name) = keyed r refl in
        ground (arith, client.update_lem r.namespace (overwrite r d) s n m, ns, name)

    created :
        (d : Route) (s : Cluster)
        → (reconcile_got ext api lister d not_found s).1 ≡ none
        → api.routes (reconcile_got ext api lister d not_found s).0 d.namespace d.name ≡ some d
    unfolding reconcile_got
    created d s done = ground (
      arith,
      client.create_lem d.namespace d s d.namespace d.name,
      eq_refl d.namespace,
      eq_refl d.name,
    )

    updated :
        (d r : Route) (s : Cluster)
        → r.namespace ≡ d.namespace
        → r.name ≡ d.name
        → differs ext api lister r d ≡ true
        → (reconcile_got ext api lister d (found r) s).1 ≡ none
        → api.routes (reconcile_got ext api lister d (found r) s).0 d.namespace d.name
          ≡ some (overwrite r d)
    unfolding reconcile_got
    updated d r s ns name more done = ground (
      arith,
      client.update_lem r.namespace (overwrite r d) s d.namespace d.name,
      eq_iff r.namespace d.namespace,
      eq_iff r.name d.name,
    )

    kept :
        (d r : Route) (s : Cluster)
        → differs ext api lister r d ≡ false
        → (reconcile_got ext api lister d (found r) s).0 ≡ s
    unfolding reconcile_got
    kept d r s same = rw same

    differs-Agrees : IsLawful ext → (r d : Route) → differs ext api lister r d ≡ false → Agrees r d
    unfolding differs
    differs-Agrees lawful r d same = record {
      spec = (lawful.equal_spec r.spec d.spec).0 (ground arith);
      annotations = (lawful.equal_map r.annotations d.annotations).0 (ground arith);
      labels = (lawful.equal_map r.labels d.labels).0 (ground arith);
    }

    reconcile_got-own :
        IsLawful ext
        → (d : Route) (g : Got) (s : Cluster)
        → ((r : Route) → g ≡ found r → (r.namespace ≡ d.namespace) × (r.name ≡ d.name))
        → g ≡ got_of (api.routes s d.namespace d.name)
        → (reconcile_got ext api lister d g s).1 ≡ none
        → At (reconcile_got ext api lister d g s).0 d
    reconcile_got-own lawful d not_found s keyed sync done = (d, created d s done, Agrees-self d)
    reconcile_got-own lawful d (failed e) s keyed sync done = absurd (got_of-ne-failed e _ sync)
    reconcile_got-own lawful d (found r) s keyed sync done =
        let (ns, name) = keyed r refl in
        elim (Bool-cases (differs ext api lister r d)) [
          | inl more ↦ (overwrite r d, updated d r s ns name more done, Agrees-overwrite r d)
          | inr same ↦ (
            r,
            ap (λ t. api.routes t d.namespace d.name) (kept d r s same) ∙ got_of-found _ r sync,
            differs-Agrees lawful r d same,
          )
        ]

    pub delete_route_lem :
        (r : Route) (s : Cluster) (n m : String)
        → (delete_route ext api lister r s).1 ≡ none
        → api.routes (delete_route ext api lister r s).0 n m
          ≡ (if key_of r n m then none else api.routes s n m)
    unfolding delete_route
    delete_route_lem r s n m done = ground (arith, client.delete_lem r.namespace r.name s n m)

    module _ (keyed : IsKeyed lister) where
      pub reconcile_route-frame :
          (d : Route) (s : Cluster) (n m : String)
          → (reconcile_route ext api lister d s).1 ≡ none
          → key_of d n m ≡ false
          → api.routes (reconcile_route ext api lister d s).0 n m ≡ api.routes s n m
      unfolding reconcile_route
      reconcile_route-frame d s n m done other =
          reconcile_got-frame d (lister.get d.namespace d.name) s n m (keyed d.namespace d.name)
            done other

      pub reconcile_route-own :
          IsLawful ext
          → (d : Route) (s : Cluster)
          → lister.get d.namespace d.name ≡ got_of (api.routes s d.namespace d.name)
          → (reconcile_route ext api lister d s).1 ≡ none
          → At (reconcile_route ext api lister d s).0 d
      unfolding reconcile_route
      reconcile_route-own lawful d s sync done =
          reconcile_got-own lawful d (lister.get d.namespace d.name) s (keyed d.namespace d.name)
            sync done
