-- ===== src/Serving/Extension.antt =====
-- Reconcile and Finalize of openshift-knative-operator/pkg/serving/extension.go. The state is the
-- KnativeServing, which the code changes in place, the flag oldResourceRemoved, and the cluster.
pub mod Laws
mod Tests
use serverless_operator.Common.{
  String, Bool, true, false, ◌&&◌, ◌==◌, not, Option, none, some, List, [], ◌∷◌, if◌then◌else◌,
  Dict, Result, ok, err, Error, wrap, ◌<>◌,
}
use serverless_operator.Common.Run.{Run, ◌>>◌}
use serverless_operator.Monitoring.{Api, reconcile_monitoring}
use serverless_operator.Serving.Defaults.{ServingSpec, default_to_kourier, defaulted}
use serverless_operator.Serving.Cleanup.{CleanupClient, cleanup_old_resources}

-- The KnativeServing; S is the type of its status.
pub record KnativeServing (S : Type 0) : Type 0 where
  pub namespace : String
  pub spec : ServingSpec
  pub status : S

pub record State (S X : Type 0) : Type 0 where
  pub object : KnativeServing S
  pub old_resource_removed : Bool
  pub cluster : X

-- What the code calls, and what it reads of the environment.
pub record ServingExtension (S R X : Type 0) : Type 0 where
  -- REQUIRED_SERVING_NAMESPACE, empty where it is not set
  pub required_ns : String
  -- common.ImageMapFromEnvironment(os.Environ()), image_map_from_environment of Transform.Images
  pub images : Dict String
  -- strings.EqualFold, and ENABLE_MONITORING_BY_DEFAULT
  pub equal_fold : String → String → Bool
  pub monitoring_env : Option String
  -- the conditions of the status
  pub dependencies_installed_is_false : S → Bool
  pub mark_dependencies_installed : S → S
  pub mark_install_failed : String → S → S
  -- spec.domain of the Ingress "cluster" of config.openshift.io
  pub get_cluster_domain : X → Result Error String
  -- the hosts in the status of the Route kibana of openshift-logging
  pub get_kibana_hosts : X → Result Error (List String)
  pub cleanup : CleanupClient X
  pub namespaces : Api R X

abbrev pub host_of : Result Error (List String) → String
host_of (err e) = ""
host_of (ok []) = ""
host_of (ok (host ∷ hosts)) = host

-- strconv.Quote of the name of a namespace
abbrev pub quoted : String → String
quoted s = "\"" <> s <> "\""

abbrev pub wrap_result : {A : Type 0} → String → Result Error A → Result Error A
wrap_result prefix (ok a) = ok a
wrap_result prefix (err e) = err (wrap prefix e)

-- The error of a call for a namespace, which has a kind that every server knows.
abbrev pub of_option : Option String → Result Error (Unit {0})
of_option none = ok tt
of_option (some e) = err (record { message = e; no_match = false })

module _ {S R X : Type 0} (e : ServingExtension S R X) where
  unfoldable pub fetch_cluster_host : X → Result Error String
  fetch_cluster_host x = wrap_result "failed to fetch cluster config: " (e.get_cluster_domain x)

  unfoldable pub fetch_logging_host : X → String
  fetch_logging_host x = host_of (e.get_kibana_hosts x)

  abbrev pub after_cleanup :
      State S X → X × Result Error (Unit {0}) → State S X × Result Error (Unit {0})
  after_cleanup s (x, ok _) = (record s { cluster = x; old_resource_removed = true }, ok tt)
  after_cleanup s (x, err error) = (record s { cluster = x }, err error)

  -- if !oldResourceRemoved.Load() { ... }
  unfoldable pub ensure_cleanup : Run (State S X) (Unit {0})
  unfolding cleanup_old_resources
  ensure_cleanup s =
      if s.old_resource_removed
      then (s, ok tt)
      else after_cleanup s (cleanup_old_resources e.cleanup s.object.namespace s.cluster)

  -- monitoring.ReconcileMonitoringForServing
  unfoldable pub reconcile_monitoring_for_serving : Run (State S X) (Unit {0})
  unfolding reconcile_monitoring
  reconcile_monitoring_for_serving s =
      let (config, (x, error)) =
        reconcile_monitoring e.namespaces e.equal_fold e.monitoring_env s.object.namespace
          s.object.spec.config s.cluster in
      (
        record s {
          object = record s.object { spec = record s.object.spec { config = config } };
          cluster = x;
        },
        of_option error,
      )

  unfoldable pub with_defaults : String → State S X → State S X
  unfolding defaulted fetch_logging_host
  with_defaults domain s = record s {
    object = record s.object {
      spec = defaulted domain (fetch_logging_host s.cluster) e.images s.object.spec;
    };
  }

  unfoldable pub with_dependencies : State S X → State S X
  with_dependencies s =
      if e.dependencies_installed_is_false s.object.status
      then record s {
        object = record s.object { status = e.mark_dependencies_installed s.object.status };
      }
      else s

  -- The answer to fetchClusterHost, and what comes after it.
  unfoldable pub reconcile_for : Result Error String → Run (State S X) (Unit {0})
  unfolding with_defaults ensure_cleanup reconcile_monitoring_for_serving
  reconcile_for (err error) s = (s, err (wrap "failed to fetch cluster host: " error))
  reconcile_for (ok domain) s =
      (ensure_cleanup >> reconcile_monitoring_for_serving) (with_defaults domain s)

  -- Whether a namespace is required, and is not that of the KnativeServing.
  abbrev pub misplaced : State S X → Bool
  misplaced s = not (e.required_ns == "") && not (s.object.namespace == e.required_ns)

  -- That the error is a permanent one is left out.
  unfoldable pub reconcile : Run (State S X) (Unit {0})
  unfolding reconcile_for fetch_cluster_host with_dependencies
  reconcile s =
      if misplaced s
      then (
        record s {
          object = record s.object {
            status =
                e.mark_install_failed
                  ("Knative Serving must be installed into the namespace " <> quoted e.required_ns)
                  s.object.status;
          };
        },
        err (record {
          message =
              "deployed Knative Serving into unsupported namespace " <> quoted s.object.namespace;
          no_match = false;
        }),
      )
      else reconcile_for (fetch_cluster_host s.cluster) (with_dependencies s)

-- Finalize: the manifest to uninstall is that of an ingress.
unfoldable pub finalize : {S : Type 0} → KnativeServing S → KnativeServing S
unfolding default_to_kourier
finalize ks = record ks {
  spec = record ks.spec { ingress = some (default_to_kourier ks.spec.ingress) };
}
