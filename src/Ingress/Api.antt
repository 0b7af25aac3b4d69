-- ===== src/Ingress/Api.antt =====
-- What the controller of ingress.go uses of the cluster: the typed Route client, and the lister
-- that reads the informer's cache. Both are of other projects; here they are an interface with its
-- laws. The Routes of a cluster are seen by namespace and name.
use serverless_operator.Common.{
  String, Bool, ◌≡◌, ◌&&◌, Option, none, some, List, if◌then◌else◌, ◌==◌, Dict, Result,
}
use serverless_operator.Ingress.Spec.{Route}

-- An error of the API, and the two outcomes of a read by name that the controller tells apart
-- from a success.
pub data Failure : Type 0 where
  list_failed create_failed update_failed delete_failed get_failed : String → Failure

pub data Got : Type 0 where
  found : Route → Got
  not_found : Got
  failed : String → Got

-- The cache of the informer: a snapshot, which does not change while the controller runs once.
pub record Lister : Type 0 where
  -- Routes(namespace).Get(name)
  pub get : String → String → Got
  -- List(labels.SelectorFromSet(set))
  pub list : Dict String → Result String (List Route)

-- The client, over the states of a cluster. A call returns the new state and its error, if any.
pub record RouteClient (Cluster : Type 0) : Type 0 where
  pub routes : Cluster → String → String → Option Route
  -- Routes(namespace).Create(route), Routes(namespace).Update(route)
  pub create : String → Route → Cluster → Cluster × Option String
  pub update : String → Route → Cluster → Cluster × Option String
  -- Routes(namespace).Delete(name)
  pub delete : String → String → Cluster → Cluster × Option String

abbrev pub at_key : String → String → String → String → Bool
at_key ns name n m = ns == n && name == m

-- A call that returns no error has the effect that its name says, and touches nothing else.
pub record IsRouteClient {Cluster : Type 0} (api : RouteClient Cluster) : Type 0 where
  pub create_lem :
      (ns : String) (r : Route) (s : Cluster) (n m : String)
      → (api.create ns r s).1 ≡ none
      → api.routes (api.create ns r s).0 n m
        ≡ (if at_key ns r.name n m then some r else api.routes s n m)
  pub update_lem :
      (ns : String) (r : Route) (s : Cluster) (n m : String)
      → (api.update ns r s).1 ≡ none
      → api.routes (api.update ns r s).0 n m
        ≡ (if at_key ns r.name n m then some r else api.routes s n m)
  pub delete_lem :
      (ns name : String) (s : Cluster) (n m : String)
      → (api.delete ns name s).1 ≡ none
      → api.routes (api.delete ns name s).0 n m
        ≡ (if at_key ns name n m then none else api.routes s n m)

abbrev pub got_of : Option Route → Got
got_of none = not_found
got_of (some r) = found r
