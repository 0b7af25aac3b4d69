-- ===== src/Monitoring/RbacProxy/Tests.antt =====
-- Two components, of which only the first sets a request.
use serverless_operator.Common.{
  String, Bool, true, ◌≡◌, refl, Option, none, some, [], ◌∷◌, Dict, lookup, insert, Result, ok, err,
  pos,
}
use mathlib.Core.List.{List}
use serverless_operator.Config.{ConfigMapData}
use serverless_operator.Transform.Spec.{Unstructured}
use serverless_operator.Monitoring.RbacProxy.{
  PodContainer, PodSpec, PodLibrary, get_cm_data_for_name, override_quantity, proxy_settings,
  with_proxy, rbac_proxy_container, inject_rbac_proxy, get_default_metrics_port,
}
use serverless_operator.Monitoring.RbacProxy.Laws.{proxy_settings-leaks}

-- Quantities are their texts.
abbrev library : PodLibrary String Bool (PodSpec String Bool)
library = record {
  must_parse = λ s. some s;
  to_pod = λ u. ok u.content;
  from_pod = λ pod u. ok (record u { content = pod });
  rbac_proxy_image = "registry/proxy";
  blank = true;
}

abbrev serving_config : ConfigMapData
serving_config = ("deployment", ("kube-rbac-proxy-cpu-request", "99m") ∷ []) ∷ []

abbrev eventing_config : ConfigMapData
eventing_config = []

abbrev defaults : Dict String
defaults = ("memory", "20Mi") ∷ ("cpu", "10m") ∷ []

abbrev requests : Dict String
requests = ("memory", "20Mi") ∷ ("cpu", "99m") ∷ []

first_run : proxy_settings library serving_config defaults ≡ some (requests, [], pos 0)
unfolding proxy_settings override_quantity get_cm_data_for_name lookup insert
first_run = refl

second_run : proxy_settings library eventing_config requests ≡ some (requests, [], pos 0)
unfolding proxy_settings override_quantity get_cm_data_for_name lookup
second_run = refl

abbrev limits : Dict String
limits = []

proxy_settings-leaks_example :
    (lookup "cpu" requests ≡ some "99m")
    × (lookup "memory" requests ≡ some "20Mi")
    × (lookup "cpu" requests ≡ some "99m")
    × (lookup "memory" requests ≡ some "20Mi")
    × (lookup "cpu" limits ≡ none)
    × (lookup "memory" limits ≡ none)
unfolding lookup get_cm_data_for_name
proxy_settings-leaks_example =
    proxy_settings-leaks library serving_config eventing_config defaults requests requests [] []
      (pos 0) (pos 0) first_run second_run

abbrev pod : PodSpec String Bool
pod = record {
  containers =
      record {
        name = "controller";
        image = "";
        env = [];
        args = [];
        volume_mounts = [];
        requests = [];
        limits = [];
        others = true;
      }
      ∷ [];
  volumes = [];
}

abbrev activator : Unstructured (PodSpec String Bool)
activator = record {
  kind = "Deployment";
  api_version = "apps/v1";
  name = "activator";
  namespace = "knative-serving";
  labels = [];
  annotations = [];
  content = pod;
}

abbrev container_names : List (PodContainer String Bool) → List String
container_names [] = []
container_names (c ∷ cs) = c.name ∷ container_names cs

abbrev names_in : Option (Result String (Unstructured (PodSpec String Bool))) → List String
names_in none = []
names_in (some (err e)) = []
names_in (some (ok u)) = container_names u.content.containers

injected :
    names_in (inject_rbac_proxy library ("activator" ∷ []) [] [] (pos 0) activator)
    ≡ "controller" ∷ "kube-rbac-proxy" ∷ []
unfolding inject_rbac_proxy with_proxy rbac_proxy_container get_default_metrics_port
injected = refl
