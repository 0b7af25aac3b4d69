-- ===== src/Eventing.antt =====
-- extension.go of openshift-knative-operator/pkg/eventing: Reconcile and Manifests of the extension of
-- Eventing. The list of its transformers is left out. The state is the KnativeEventing, which the code
-- changes in place, and the cluster.
pub mod Laws
mod Tests
use serverless_operator.Common.{
  ℕ, String, Bool, true, false, ◌&&◌, ◌||◌, ◌==◌, not, Option, none, some, List, [], ◌∷◌, ◌++◌,
  if◌then◌else◌, Dict, lookup, lookup_or, has_key, Result, ok, err, Error, Answer, ◌<>◌,
}
use serverless_operator.Common.Run.{Run, ◌>>=◌, lift}
use serverless_operator.Config.{ConfigMapData}
use serverless_operator.Config.Memory.{ResourceRequirementsOverride, ensure_container_memory_limit}
use serverless_operator.Monitoring.{Api, reconcile_monitoring}
use serverless_operator.Serving.{parse_bool, or_false}
use serverless_operator.Serving.Defaults.{or_two_replicas}
use serverless_operator.Serving.Extension.{of_option, quoted}
use serverless_operator.Serving.Policies.{
  disable_generating_istio_net_policies_annotation, generation_disabled,
}
use serverless_operator.Istio.{WorkloadOverride, is_enabled, scale_istio_controller}

-- The spec of a KnativeEventing, as far as the extension reads or writes it.
pub record EventingSpec (O : Type 0) : Type 0 where
  pub config : ConfigMapData
  pub registry_override : Dict String
  pub registry_default : String
  pub high_availability : Option (Option ℕ)
  pub resources : List ResourceRequirementsOverride
  pub sink_binding_selection_mode : String
  -- spec.deployments and spec.workloads
  pub deployments : List (WorkloadOverride O)
  pub workloads : List (WorkloadOverride O)

pub record KnativeEventing (S O : Type 0) : Type 0 where
  pub namespace : String
  pub annotations : Dict String
  pub spec : EventingSpec O
  pub status : S

pub record State (S O X : Type 0) : Type 0 where
  pub object : KnativeEventing S O
  pub cluster : X

-- What the code calls, and what it reads of the environment. U is the type of resources.
pub record EventingExtension (S O R U X : Type 0) : Type 0 where
  -- REQUIRED_EVENTING_NAMESPACE, empty where it is not set
  pub required_ns : String
  -- common.ImageMapFromEnvironment(os.Environ()), image_map_from_environment of Transform.Images
  pub images : Dict String
  -- strings.EqualFold, and ENABLE_MONITORING_BY_DEFAULT
  pub equal_fold : String → String → Bool
  pub monitoring_env : Option String
  pub mark_install_failed : String → S → S
  -- the fields of a new override that the code does not set
  pub unset : O
  pub namespaces : Api R X
  -- GetEventingMonitoringPlatformManifests and GetServiceMeshNetworkPolicy
  pub monitoring_manifests : KnativeEventing S O → Result Error (List (List U))
  pub network_policies : Result Error (List U)
  -- the Delete of the dynamic client, whose errors are only logged
  pub delete : U → X → X

-- GetWorkloadOverrides of the library
abbrev pub workload_overrides : {O : Type 0} → EventingSpec O → List (WorkloadOverride O)
workload_overrides spec = spec.deployments ++ spec.workloads

abbrev pub append_workload : {O : Type 0} → EventingSpec O → WorkloadOverride O → EventingSpec O
append_workload spec w = record spec { workloads = spec.workloads ++ (w ∷ []) }

abbrev pub or_inclusion : String → String
or_inclusion mode = if mode == "" then "inclusion" else mode

module _ {S O R U X : Type 0} (e : EventingExtension S O R U X) where
  abbrev pub istio_replicas : ConfigMapData → ℕ
  unfolding is_enabled
  istio_replicas config = if not (is_enabled e.equal_fold config) then 0 else 1

  -- The spec before the scaling of the controller of Istio.
  unfoldable pub filled : EventingSpec O → EventingSpec O
  unfolding ensure_container_memory_limit lookup_or
  filled spec = record spec {
    registry_override = e.images;
    registry_default = lookup_or "" "default" e.images;
    resources = ensure_container_memory_limit spec.resources "eventing-webhook" "1024Mi";
    sink_binding_selection_mode = or_inclusion spec.sink_binding_selection_mode;
    high_availability = or_two_replicas spec.high_availability;
  }

  -- The spec after all that Reconcile fills in before the monitoring.
  unfoldable pub eventing_defaulted : EventingSpec O → EventingSpec O
  unfolding filled scale_istio_controller is_enabled
  eventing_defaulted spec =
      scale_istio_controller workload_overrides append_workload e.unset (filled spec)
        (istio_replicas spec.config)

  -- monitoring.ReconcileMonitoringForEventing
  unfoldable pub reconcile_monitoring_for_eventing : Run (State S O X) (Unit {0})
  unfolding reconcile_monitoring
  reconcile_monitoring_for_eventing s =
      let (config, (x, error)) =
        reconcile_monitoring e.namespaces e.equal_fold e.monitoring_env s.object.namespace
          s.object.spec.config s.cluster in
      (
        record s {
          object = record s.object { spec = record s.object.spec { config = config } };
          cluster = x;
        },
        of_option error,
      )

  -- Whether a namespace is required, and is not that of the KnativeEventing.
  abbrev pub eventing_misplaced : State S O X → Bool
  eventing_misplaced s = not (e.required_ns == "") && not (s.object.namespace == e.required_ns)

  -- That the error is a permanent one is left out.
  unfoldable pub reconcile_eventing_extension : Run (State S O X) (Unit {0})
  unfolding eventing_defaulted reconcile_monitoring_for_eventing
  reconcile_eventing_extension s =
      if eventing_misplaced s
      then (
        record s {
          object = record s.object {
            status =
                e.mark_install_failed
                  ("Knative Eventing must be installed into the namespace " <> quoted e.required_ns)
                  s.object.status;
          };
        },
        err (record {
          message =
              "deployed Knative Eventing into unsupported namespace " <> quoted s.object.namespace;
          no_match = false;
        }),
      )
      else reconcile_monitoring_for_eventing
          (record s { object = record s.object { spec = eventing_defaulted s.object.spec } })

  unfoldable pub delete_resources_silently : List U → X → X
  delete_resources_silently [] x = x
  delete_resources_silently (u ∷ us) x = delete_resources_silently us (e.delete u x)

  -- The policies are wanted with Istio, unless the annotation switches them off.
  abbrev pub wants_policies : KnativeEventing S O → Bool
  unfolding is_enabled lookup
  wants_policies ke =
      is_enabled e.equal_fold ke.spec.config
      && (not (has_key disable_generating_istio_net_policies_annotation ke.annotations)
          || not (
              generation_disabled
                (lookup disable_generating_istio_net_policies_annotation ke.annotations)))

  unfoldable pub eventing_manifests : KnativeEventing S O → Run X (List (List U))
  unfolding delete_resources_silently has_key
  eventing_manifests ke = lift (e.monitoring_manifests ke) >>= λ m.
      lift e.network_policies >>= λ p x.
      if wants_policies ke then (x, ok (m ++ (p ∷ []))) else (delete_resources_silently p x, ok m)
