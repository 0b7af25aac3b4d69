-- ===== src/Sources/Monitors.antt =====
-- source_service_monitor.go of knative-operator/pkg/monitoring/sources: the Service and the monitor of a
-- source Deployment.
use serverless_operator.Common.{
  ℕ, String, ◌==◌, Option, none, some, List, [], ◌∷◌, if◌then◌else◌, Dict, insert, Result, err,
  Error, ◌>>=◌,
}
use serverless_operator.Common.Run
use serverless_operator.Common.Run.{Run, lift}
use serverless_operator.Sources.ClusterMonitoring.{
  SourceService, SourceMonitor, SourceLibrary, service, monitor, owned_by, text_error,
}

-- A Deployment: the labels of its selector, which may be nil, and the ports of its containers with
-- their names.
pub record SourceDeployment : Type 0 where
  pub name : String
  pub namespace : String
  pub match_labels : Option (Dict String)
  pub ports : List (List (String × ℕ))

-- the loop over the ports of a container, which ends at the first of the name
abbrev pub port_of : ℕ → List (String × ℕ) → ℕ
port_of old [] = old
port_of old ((name, port) ∷ ports) =
    let later = port_of old ports in if name == "metrics" then port else later

-- the loop over the containers, which does not
abbrev pub metrics_port_from : ℕ → List (List (String × ℕ)) → ℕ
metrics_port_from old [] = old
metrics_port_from old (ports ∷ containers) = metrics_port_from (port_of old ports) containers

unfoldable pub metrics_port : SourceDeployment → ℕ
metrics_port dep = metrics_port_from 9090 dep.ports

unfoldable pub source_service : Dict String → SourceDeployment → SourceService
unfolding metrics_port insert
source_service labels dep = record {
  name = dep.name;
  namespace = dep.namespace;
  labels = insert "name" dep.name labels;
  port_name = "http-metrics";
  port = 9090;
  target_port = metrics_port dep;
  selector = labels;
}

unfoldable pub source_monitor : Dict String → SourceDeployment → SourceMonitor
unfolding insert
source_monitor labels dep = record {
  name = dep.name;
  namespace = dep.namespace;
  labels = insert "name" dep.name labels;
  port = "http-metrics";
  match_names = dep.namespace ∷ [];
  match_labels = ("name", dep.name) ∷ [];
}

module _ {R U X : Type 0} (library : SourceLibrary R U SourceDeployment X) where
  -- The code panics where the selector is nil, which is an error here.
  unfoldable pub create_service_monitor_manifest :
      SourceDeployment → Option (Dict String) → Result Error (List U)
  unfolding source_service source_monitor
  create_service_monitor_manifest dep none = err (text_error "nil pointer dereference")
  create_service_monitor_manifest dep (some labels) = do
    sv ← library.convert (service (source_service labels dep))
    sm ← library.convert (monitor (source_monitor labels dep))
    library.manifest_from (sv ∷ sm ∷ [])

  unfoldable pub source_service_monitor_manifest : SourceDeployment → Result Error (List U)
  unfolding create_service_monitor_manifest
  source_service_monitor_manifest dep = do
    manifest ← create_service_monitor_manifest dep dep.match_labels
    owned_by library "unable to transform source service monitor manifest: " (some dep) manifest

  unfoldable pub setup_source_service_monitor_resources : SourceDeployment → Run X (Unit {0})
  unfolding source_service_monitor_manifest
  setup_source_service_monitor_resources dep =
      Run.◌>>=◌ (lift (source_service_monitor_manifest dep)) library.apply

  unfoldable pub remove_source_service_monitor_resources : SourceDeployment → Run X (Unit {0})
  unfolding source_service_monitor_manifest
  remove_source_service_monitor_resources dep =
      Run.◌>>=◌ (lift (source_service_monitor_manifest dep)) library.delete
