-- ===== src/Transform/Tests.antt =====
-- The theorems about the transformers on a small Deployment.
use serverless_operator.Common.{
  ◌+◌, ◌-◌, String, ◌≡◌, refl, ap, sym, none, some, List, [], ◌∷◌, ◌<>◌, ok, ◌>>=◌, ok-injective,
  count, arith, ◌≤◌,
}
use serverless_operator.Transform.Spec.{
  EnvVar, Container, Volume, Workload, Unstructured, Scheme, IsScheme, other_source, converting,
}
use serverless_operator.Transform.Environment.{
  inject_environment_into_deployment, transform_deployment, inject_into_container, upsert,
  upsert_all,
}
use serverless_operator.Transform.Environment.Laws.{env_value}
use serverless_operator.Transform.Security.{
  AreHardened, set_security_context_for_admission_controller, set_pod_security_context, hardened,
  set_security_context_for_admission_controller-IsHardened,
}
use serverless_operator.Transform.Certificates.{
  add_ca_bundle_config_maps_to_volumes, add_ca_bundles_to_container_volumes, ssl_cert_dir,
  trusted_volume,
}
use serverless_operator.Transform.Certificates.Laws.{
  is_trusted, count-add_ca_bundle_config_maps_to_volumes, IsMounted, dirs_of,
  add_ca_bundles_to_container_volumes-IsMounted,
}
use serverless_operator.Transform.Metadata.{
  set_annotations, enqueue_request_by_owner_annotations, enqueue-set_annotations,
  upgrade_pod_disruption_budget, upgrade_horizontal_pod_autoscaler, upgrade_api,
}
use serverless_operator.Transform.Images.{
  image_map_from_environment, image_entries, image_entry, unless_empty, image_key,
}

-- A scheme that keeps the typed object as the content.
abbrev scheme : Scheme Workload
scheme = record {
  to_typed = λ u. ok u.content;
  from_typed = λ w u. ok (record u { content = w });
  reset_creation_timestamp = λ u. u;
}

scheme-IsScheme : IsScheme scheme
scheme-IsScheme = record {
  written = λ w u u' h. ap (λ (x : Unstructured Workload). ok x.content) (sym (ok-injective h));
  kept_kind = λ w u u' h. ap (λ (x : Unstructured Workload). x.kind) (sym (ok-injective h));
  reset_typed = λ u. refl;
}

abbrev var : String → String → EnvVar
var name value = record { name = name; value = value; value_from = none }

abbrev container : Container
container = record {
  name = "controller";
  image = "quay.io/controller";
  env = var "A" "1" ∷ [];
  security_context = none;
  volume_mounts = [];
}

abbrev deployment : Unstructured Workload
deployment = record {
  kind = "Deployment";
  api_version = "apps/v1";
  name = "controller";
  namespace = "knative-serving";
  labels = [];
  annotations = ("x", "y") ∷ [];
  content = record {
    name = "controller";
    generate_name = "";
    annotations = [];
    containers = container ∷ [];
    volumes = [];
    ttl_seconds_after_finished = none;
  };
}

abbrev envs : List EnvVar
envs = var "A" "2" ∷ var "B" "3" ∷ []

abbrev injected_deployment : Unstructured Workload
injected_deployment = record deployment {
  content = record (deployment.content) { containers = record container { env = envs } ∷ [] };
}

injects :
    inject_environment_into_deployment scheme "controller" "controller" envs deployment
    ≡ ok injected_deployment
unfolding inject_environment_into_deployment transform_deployment inject_into_container upsert
    upsert_all converting
injects = refl

abbrev hardened_deployment : Unstructured Workload
unfolding hardened
hardened_deployment = record deployment {
  content = record (deployment.content) {
    containers = record container { security_context = some (hardened none) } ∷ [];
  };
}

hardens : set_security_context_for_admission_controller scheme deployment ≡ ok hardened_deployment
unfolding set_security_context_for_admission_controller set_pod_security_context converting
    hardened_deployment
hardens = refl

set_security_context_for_admission_controller-IsHardened_example :
    (w w' : Workload) × (scheme.to_typed deployment ≡ ok w)
    × (scheme.to_typed hardened_deployment ≡ ok w')
    × AreHardened w.containers w'.containers
set_security_context_for_admission_controller-IsHardened_example =
    set_security_context_for_admission_controller-IsHardened scheme scheme-IsScheme deployment
      hardened_deployment refl hardens

abbrev volumes : List Volume
volumes =
    record { name = "data"; source = other_source "emptyDir" }
    ∷ trusted_volume
    ∷ trusted_volume
    ∷ []

count-add_ca_bundle_config_maps_to_volumes_example :
    count is_trusted (add_ca_bundle_config_maps_to_volumes volumes)
    ≡ (count is_trusted volumes - 1) + 1
count-add_ca_bundle_config_maps_to_volumes_example =
    count-add_ca_bundle_config_maps_to_volumes volumes

one_volume : count is_trusted (trusted_volume ∷ []) ≤ 1
unfolding count
one_volume = omega arith

add_ca_bundles_to_container_volumes-IsMounted_example :
    IsMounted
      (λ a b. a <> "/" <> b)
      container
      "A"
      (dirs_of (env_value ssl_cert_dir container.env))
      (add_ca_bundles_to_container_volumes (λ a b. a <> "/" <> b) container)
add_ca_bundles_to_container_volumes-IsMounted_example =
    add_ca_bundles_to_container_volumes-IsMounted (λ a b. a <> "/" <> b) container "A"

enqueue-set_annotations_example :
    (u' : Unstructured Workload) × (set_annotations
        (("ownerName", "kafka") ∷ ("ownerNamespace", "eventing") ∷ [])
        deployment
      ≡ ok u')
    × (enqueue_request_by_owner_annotations "ownerName" "ownerNamespace" u'.annotations
        ≡ record { namespace = "eventing"; name = "kafka" } ∷ [])
enqueue-set_annotations_example =
    enqueue-set_annotations "ownerName" "ownerNamespace" "kafka" "eventing" deployment (λ e. cc e)
      (λ e. cc e) (λ e. cc e)

abbrev budget : Unstructured Workload
budget = record deployment { kind = "PodDisruptionBudget"; api_version = "policy/v1beta1" }

abbrev upgraded_budget : Unstructured Workload
upgraded_budget = record deployment { kind = "PodDisruptionBudget"; api_version = "policy/v1" }

upgrades :
    (◌>>=◌ (upgrade_pod_disruption_budget budget) upgrade_horizontal_pod_autoscaler)
    ≡ ok upgraded_budget
unfolding upgrade_pod_disruption_budget upgrade_horizontal_pod_autoscaler upgrade_api
upgrades = refl

images_read :
    image_map_from_environment
      ("PATH=/bin" ∷ "IMAGE_a__b=quay.io/x" ∷ "IMAGE_c=" ∷ "IMAGE_d__e__f=y=z" ∷ [])
    ≡ some (("a/b", "quay.io/x") ∷ ("d/e__f", "y=z") ∷ [])
unfolding image_map_from_environment image_entries image_entry unless_empty image_key
images_read = refl
