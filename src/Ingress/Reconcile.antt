-- ===== src/Ingress/Reconcile.antt =====
-- ingress.go: ReconcileKind and FinalizeKind, as functions from the state of the cluster to its
-- new state and the error, if any.
use serverless_operator.Common.{
  String, Bool, ◌||◌, not, Option, none, some, List, [], ◌∷◌, if◌then◌else◌, Dict, insert, remove,
  Result, ok, err,
}
use serverless_operator.Ingress.Spec.{Ingress, Route, External}
use serverless_operator.Ingress.Routes.{
  make_routes, openshift_ingress_label_key, openshift_ingress_namespace_label_key,
}
use serverless_operator.Ingress.Api.{
  Failure, list_failed, create_failed, update_failed, delete_failed, get_failed, Got, found,
  not_found, failed, Lister, RouteClient,
}

-- The labels that `routeList` selects by.
abbrev pub selector : Ingress → Dict String
selector ing =
    (openshift_ingress_label_key, ing.name)
    ∷ (openshift_ingress_namespace_label_key, ing.namespace)
    ∷ []

-- routes[r.Name] = r, for each listed Route in turn
unfoldable pub by_name : List Route → Dict Route → Dict Route
by_name [] m = m
by_name (r ∷ rs) m = by_name rs (insert r.name r m)

unfoldable pub route_list : Lister → Ingress → Result Failure (Dict Route)
route_list lister ing = elim (lister.list (selector ing)) [
  | err e ↦ err (list_failed e)
  | ok rs ↦ ok (by_name rs [])
]

-- The desired content in the Route that the cache holds.
abbrev pub overwrite : Route → Route → Route
overwrite route desired = record route {
  spec = desired.spec;
  annotations = desired.annotations;
  labels = desired.labels;
}

-- The state of the cluster after some calls, and the error that ended them, if any.
abbrev pub Run : Type 0 → Type 0
Run Cluster = Cluster × Option Failure

module _ {Cluster : Type 0} where
  -- if err != nil { return fmt.Errorf(...) }
  abbrev pub fails : (String → Failure) → Cluster × Option String → Run Cluster
  fails f (s, none) = (s, none)
  fails f (s, some e) = (s, some (f e))

  -- if err != nil { return err }
  abbrev pub and_then : Run Cluster → (Cluster → Run Cluster) → Run Cluster
  and_then (s, none) next = next s
  and_then (s, some e) next = (s, some e)

module _ (ext : External) {Cluster : Type 0} (api : RouteClient Cluster) (lister : Lister) where
  unfoldable pub delete_route : Route → Cluster → Run Cluster
  delete_route route s = fails delete_failed (api.delete route.namespace route.name s)

  -- The content of a Route differs from the desired one.
  unfoldable pub differs : Route → Route → Bool
  differs route desired =
      not (ext.deep_equal_spec route.spec desired.spec)
      || not (ext.deep_equal_map route.annotations desired.annotations)
      || not (ext.deep_equal_map route.labels desired.labels)

  -- what is done on each answer of the lister
  unfoldable pub reconcile_got : Route → Got → Cluster → Run Cluster
  reconcile_got desired not_found s = fails create_failed (api.create desired.namespace desired s)
  reconcile_got desired (failed e) s = (s, some (get_failed e))
  reconcile_got desired (found route) s =
      if differs route desired
      then fails update_failed (api.update route.namespace (overwrite route desired) s)
      else (s, none)

  unfoldable pub reconcile_route : Route → Cluster → Run Cluster
  reconcile_route desired s = reconcile_got desired (lister.get desired.namespace desired.name) s

  -- the loop over what is left of the map, in any order
  unfoldable pub delete_routes : Dict Route → Cluster → Run Cluster
  delete_routes [] s = (s, none)
  delete_routes ((name, r) ∷ rest) s = and_then (delete_route r s) (λ s'. delete_routes rest s')

  -- The loop over the desired Routes takes each one out of the map of the existing; what is left
  -- at its end is obsolete.
  unfoldable pub reconcile_loop : List Route → Dict Route → Cluster → Run Cluster
  reconcile_loop [] existing s = delete_routes existing s
  reconcile_loop (r ∷ rs) existing s =
      and_then (reconcile_route r s) (λ s'. reconcile_loop rs (remove r.name existing) s')

  -- An ingress that has no valid Routes is left alone: the controller is called again when its
  -- status changes.
  unfoldable pub reconcile_kind : Ingress → Cluster → Run Cluster
  reconcile_kind ing s = elim (route_list lister ing) [
    | err e ↦ (s, some e)
    | ok existing ↦ elim (make_routes ext ing) [
      | err _ ↦ (s, none)
      | ok routes ↦ reconcile_loop routes existing s
    ]
  ]

  unfoldable pub finalize_kind : Ingress → Cluster → Run Cluster
  finalize_kind ing s = elim (route_list lister ing) [
    | err e ↦ (s, some e)
    | ok existing ↦ delete_routes existing s
  ]
