-- ===== src/Ingress/Tests/Examples.antt =====
-- The theorems about the ingress controller at the sample.
use serverless_operator.Common.{
  String, true, ◌≡◌, refl, ◌≢◌, Option, none, some, List, [], ◌∷◌, inl, ◌↔◌, All, ok, is_ok, lookup,
  same_map, remove,
}
use serverless_operator.Ingress.Spec.{Route}
use serverless_operator.Ingress.Routes.{make_routes, target_service}
use serverless_operator.Ingress.Shape.{exposed_hosts, built}
use serverless_operator.Ingress.Hosts.{hosts_of, make_routes-hosts, make_routes-is_ok}
use serverless_operator.Ingress.Security.{IsPassthrough, make_routes-IsPassthrough}
use serverless_operator.Ingress.Ownership.{make_routes-clean}
use serverless_operator.Ingress.Api.{RouteClient, found, failed, got_of}
use serverless_operator.Ingress.Reconcile.{
  reconcile_kind, finalize_kind, by_name, route_list, reconcile_loop, delete_routes, delete_route,
  reconcile_route, reconcile_got, differs,
}
use serverless_operator.Ingress.Frame.{At, IsKeyed}
use serverless_operator.Ingress.Converge.{
  IsRun, reconcile_kind-present, reconcile_kind-removed, reconcile_kind-untouched,
  reconcile_kind-leaks,
}
use serverless_operator.Ingress.Steady.{NeverFails, reconcile_kind-steady, reconcile_kind-succeeds}
use serverless_operator.Ingress.Finalize.{finalize_kind_lem, reconcile_kind-waits}
use serverless_operator.Serving.Metadata.{Target, default_kservice}
use serverless_operator.Serving.Metadata.Laws.{default_kservice-IsPassthrough}
use serverless_operator.Ingress.Tests.Cluster.{
  Stored, store, store-IsRouteClient, cache_of, cache_of-IsKeyed, find, without,
}
use serverless_operator.Ingress.Tests.Sample.{
  ext, ext-IsLawful, ing, waiting, secure, wanted, desired, old, moved, foreign, state, moved_state,
  translation, make_ok, rule, same_spec,
}

make_routes-hosts_example : hosts_of desired ≡ exposed_hosts ing.rules
unfolding translation
make_routes-hosts_example = make_routes-hosts ext ing desired refl make_ok

has_exposed_host : exposed_hosts ing.rules ≢ []
unfolding translation
has_exposed_host e = cc e

make_routes-is_ok_example :
    (is_ok (make_routes ext ing) ≡ true)
    ↔ (((target_service ing).0 ≢ "") × ((target_service ing).1 ≢ ""))
unfolding translation
make_routes-is_ok_example = make_routes-is_ok ext ing "600s" refl has_exposed_host refl

secure_routes : List Route
secure_routes = built ext secure "hello.example.com" rule "600s" ∷ []

secure_ok : make_routes ext secure ≡ ok secure_routes
unfolding translation secure_routes
secure_ok = refl

make_routes-IsPassthrough_example : All (λ r. IsPassthrough r.spec) secure_routes
unfolding translation
make_routes-IsPassthrough_example =
    make_routes-IsPassthrough ext secure secure_routes (inl refl) secure_ok

abbrev mesh_service : Target String
mesh_service = record {
  annotations = ("serving.knative.openshift.io/enablePassthrough", "false") ∷ [];
  template_annotations = [];
  template_labels = [];
  others = "";
}

copied :
    lookup "serving.knative.openshift.io/enablePassthrough" secure.annotations
    ≡ lookup "serving.knative.openshift.io/enablePassthrough"
        (default_kservice mesh_service).annotations
unfolding translation default_kservice
copied = refl

default_kservice-IsPassthrough_example : All (λ r. IsPassthrough r.spec) secure_routes
unfolding translation
default_kservice-IsPassthrough_example =
    default_kservice-IsPassthrough ext secure mesh_service secure_routes copied secure_ok

make_routes-clean_example :
    All
      (λ r.
        (lookup "argocd.argoproj.io/sync-wave" r.labels ≡ none)
        × (lookup "argocd.argoproj.io/sync-wave" r.annotations ≡ none)
        × (lookup "app.kubernetes.io/instance" r.labels ≡ none))
      desired
unfolding translation
make_routes-clean_example =
    make_routes-clean ext ing desired "argocd.argoproj.io/sync-wave" refl make_ok

-- Everything that a run computes with.
whole : List String
unfolding translation reconcile_kind finalize_kind by_name route_list reconcile_loop delete_routes
    delete_route reconcile_route reconcile_got differs find without same_spec same_map remove
whole = []

keyed : IsKeyed (cache_of state)
unfolding translation
keyed = cache_of-IsKeyed state refl

run : IsRun ext store (cache_of state) ing (old ∷ []) desired state
unfolding whole
run = record { list_ok = refl; make_ok = make_ok; success = refl }

-- The state after the run.
abbrev after : Stored
after = (reconcile_kind ext store (cache_of state) ing state).0

reconcile_kind-present_example : All (At ext store (cache_of state) after) desired
unfolding find
reconcile_kind-present_example =
    reconcile_kind-present ext store (cache_of state) ing (old ∷ []) desired store-IsRouteClient
      keyed ext-IsLawful state run (refl, tt) (refl, tt)

reconcile_kind-removed_example : find after "knative-serving-ingress" "route-u1-old" ≡ none
unfolding whole
reconcile_kind-removed_example =
    reconcile_kind-removed ext store (cache_of state) ing (old ∷ []) desired store-IsRouteClient
      keyed state "route-u1-old" old run refl refl

reconcile_kind-untouched_example :
    find after "knative-serving-ingress" "console" ≡ find state "knative-serving-ingress" "console"
unfolding whole
reconcile_kind-untouched_example =
    reconcile_kind-untouched ext store (cache_of state) ing (old ∷ []) desired store-IsRouteClient
      keyed state "knative-serving-ingress" "console" run refl refl

moved_keyed : IsKeyed (cache_of moved_state)
unfolding translation
moved_keyed = cache_of-IsKeyed moved_state refl

-- The load balancer has moved to another namespace, and the old Route is listed as obsolete.
moved-IsRun : IsRun ext store (cache_of moved_state) ing (moved ∷ []) desired moved_state
unfolding whole
moved-IsRun = record { list_ok = refl; make_ok = make_ok; success = refl }

-- It is still there after the run.
reconcile_kind-leaks_example :
    find
      (reconcile_kind ext store (cache_of moved_state) ing moved_state).0
      moved.namespace
      moved.name
    ≡ find moved_state moved.namespace moved.name
unfolding whole
reconcile_kind-leaks_example =
    reconcile_kind-leaks ext store (cache_of moved_state) ing (moved ∷ []) desired
      store-IsRouteClient moved_keyed moved_state moved.namespace moved.name moved-IsRun refl refl

-- The state of the cluster when the sample has been reconciled.
abbrev settled : Stored
settled = (wanted.namespace, wanted.name, wanted) ∷ []

settled_ok : (cache_of settled).get wanted.namespace wanted.name ≡ found wanted
unfolding whole
settled_ok = refl

reconcile_kind-steady_example :
    reconcile_kind ext store (cache_of settled) ing settled ≡ (settled, none)
unfolding whole
reconcile_kind-steady_example =
    reconcile_kind-steady ext store (cache_of settled) ext-IsLawful ing desired desired settled refl
      make_ok
      (
        (wanted, settled_ok, record { spec = refl; annotations = λ k. refl; labels = λ k. refl }),
        tt,
      )
      refl

-- A client that takes every call, over a cache that answers.
abbrev lenient : RouteClient Stored
lenient = record {
  routes = find;
  create = λ ns r s. ((ns, r.name, r) ∷ s, none);
  update = λ ns r s. ((ns, r.name, r) ∷ without ns r.name s, none);
  delete = λ ns name s. (without ns name s, none);
}

answers : (o : Option Route) (e : String) → got_of o ≢ failed e
answers none e h = cc
answers (some r) e h = cc

lenient-NeverFails : NeverFails ext lenient (cache_of state)
lenient-NeverFails = record {
  create = λ ns r s. refl;
  update = λ ns r s. refl;
  delete = λ ns name s. refl;
  get = λ ns name e. answers (find state ns name) e;
}

reconcile_kind-succeeds_example : (reconcile_kind ext lenient (cache_of state) ing state).1 ≡ none
unfolding whole
reconcile_kind-succeeds_example =
    reconcile_kind-succeeds ext lenient (cache_of state) lenient-NeverFails ing (old ∷ []) state
      refl

finalize_kind_lem_example :
    (find (finalize_kind ext store (cache_of state) ing state).0 old.namespace old.name ≡ none)
    × (find (finalize_kind ext store (cache_of state) ing state).0 foreign.namespace foreign.name
        ≡ find state foreign.namespace foreign.name)
unfolding whole
finalize_kind_lem_example =
    finalize_kind_lem ext store (cache_of state) store-IsRouteClient ing (old ∷ []) state
      "route-u1-old" foreign.namespace foreign.name old refl refl refl refl

reconcile_kind-waits_example :
    reconcile_kind ext store (cache_of state) waiting state ≡ (state, none)
unfolding whole
reconcile_kind-waits_example =
    reconcile_kind-waits ext store (cache_of state) waiting (old ∷ []) "600s" state refl refl
      has_exposed_host refl (inl refl)
