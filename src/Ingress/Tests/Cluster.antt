-- ===== src/Ingress/Tests/Cluster.antt =====
-- A cluster as a list of Routes under their keys, a client over it, and a cache that shows it.
use serverless_operator.Common.{
  String, Bool, true, ◌≡◌, ◌&&◌, Option, none, some, List, [], ◌∷◌, if◌then◌else◌, ◌==◌, all, ok,
  arith, eq_iff, select, has_key, lookup_or,
}
use serverless_operator.Ingress.Spec.{Route}
use serverless_operator.Ingress.Api.{Lister, RouteClient, IsRouteClient, at_key, got_of, found}
use serverless_operator.Ingress.Frame.{IsKeyed}

abbrev pub Stored : Type 0
Stored = List (String × String × Route)

unfoldable pub find : Stored → String → String → Option Route
find [] n m = none
find ((ns, name, r) ∷ s) n m = if at_key ns name n m then some r else find s n m

unfoldable pub without : String → String → Stored → Stored
without ns name [] = []
without ns name ((n, m, r) ∷ s) =
    let rest = without ns name s in if at_key n m ns name then rest else (n, m, r) ∷ rest

find-without :
    (ns name n m : String) (s : Stored)
    → find (without ns name s) n m ≡ (if at_key ns name n m then none else find s n m)
unfolding find without
find-without ns name n m [] = ground arith
find-without ns name n m ((a, b, r) ∷ s) = ground (
  arith,
  find-without ns name n m s,
  eq_iff a ns,
  eq_iff b name,
  eq_iff ns n,
  eq_iff name m,
  eq_iff a n,
  eq_iff b m,
)

-- The API server refuses to create what is there, and to change what is not.
abbrev pub store : RouteClient Stored
store = record {
  routes = find;
  create = λ ns r s. elim (find s ns r.name) [
    | none ↦ ((ns, r.name, r) ∷ s, none)
    | some _ ↦ (s, some "AlreadyExists")
  ];
  update = λ ns r s. elim (find s ns r.name) [
    | none ↦ (s, some "NotFound")
    | some _ ↦ ((ns, r.name, r) ∷ without ns r.name s, none)
  ];
  delete = λ ns name s. elim (find s ns name) [
    | none ↦ (s, some "NotFound")
    | some _ ↦ (without ns name s, none)
  ];
}

create_law :
    (ns : String) (r : Route) (s : Stored) (n m : String)
    → (store.create ns r s).1 ≡ none
    → find (store.create ns r s).0 n m ≡ (if at_key ns r.name n m then some r else find s n m)
unfolding find
create_law ns r s n m done = ground arith

update_law :
    (ns : String) (r : Route) (s : Stored) (n m : String)
    → (store.update ns r s).1 ≡ none
    → find (store.update ns r s).0 n m ≡ (if at_key ns r.name n m then some r else find s n m)
unfolding find
update_law ns r s n m done = ground (arith, find-without ns r.name n m s)

delete_law :
    (ns name : String) (s : Stored) (n m : String)
    → (store.delete ns name s).1 ≡ none
    → find (store.delete ns name s).0 n m ≡ (if at_key ns name n m then none else find s n m)
delete_law ns name s n m done = ground (arith, find-without ns name n m s)

pub store-IsRouteClient : IsRouteClient store
store-IsRouteClient = record {
  create_lem = create_law;
  update_lem = update_law;
  delete_lem = delete_law;
}

-- The selector's labels are among those of the Route.
abbrev has_label : Route → String × String → Bool
has_label r (k, v) = lookup_or "" k r.labels == v && has_key k r.labels

abbrev values : Stored → List Route
values [] = []
values ((n, m, r) ∷ s) = r ∷ values s

-- A cache that is up to date with the state.
abbrev pub cache_of : Stored → Lister
cache_of s = record {
  get = λ ns name. got_of (find s ns name);
  list = λ selector. ok (select (λ r. all (has_label r) selector) (values s));
}

-- Every Route of the state is stored under its own namespace and name.
abbrev pub under_key : String × String × Route → Bool
under_key (n, m, r) = r.namespace == n && r.name == m

find-keyed :
    (s : Stored) (n m : String) (r : Route)
    → all under_key s ≡ true
    → find s n m ≡ some r
    → (r.namespace ≡ n) × (r.name ≡ m)
unfolding find
find-keyed [] n m r h e = cc
find-keyed ((a, b, q) ∷ s) n m r h e =
    ground
      (arith, find-keyed s n m r, eq_iff q.namespace a, eq_iff q.name b, eq_iff a n, eq_iff b m)

got_of-eq-found : (o : Option Route) (r : Route) → got_of o ≡ found r → o ≡ some r
got_of-eq-found none r h = cc
got_of-eq-found (some q) r h = cc

pub cache_of-IsKeyed : (s : Stored) → all under_key s ≡ true → IsKeyed (cache_of s)
cache_of-IsKeyed s h n m r e = find-keyed s n m r h (got_of-eq-found (find s n m) r e)
