-- ===== src/Controllers/Certs.antt =====
-- ensureCustomCertsConfigMap of knativeserving_controller.go: the ConfigMaps that OpenShift fills
-- with certificates, the one that combines them, and the restart of the controller of Serving.
pub mod Laws
use serverless_operator.Common.{
  String, Bool, Option, none, some, [], ◌∷◌, ◌==◌, ◌&&◌, ◌||◌, not, if◌then◌else◌, Dict, insert,
  lookup_or, union, Answer, found, not_found, failed, Result, Error, wrap, ◌<>◌,
}
use serverless_operator.Common.Run.{Run, ◌>>=◌, ◌>>◌, done, fail, wrapping}
use serverless_operator.Controllers.Spec.{CustomCerts, Instance, ConfigMap, Deployment, Objects}
use serverless_operator.Controllers.ConfigMaps.{reconcile_config_map}

abbrev pub service_ca_key : String
service_ca_key = "service.alpha.openshift.io/inject-cabundle"

abbrev pub trusted_ca_key : String
trusted_ca_key = "config.openshift.io/inject-trusted-cabundle"

abbrev pub trusted_ca_owning_annotation_key : String
trusted_ca_owning_annotation_key = "openshift.io/owning-component"

abbrev pub trusted_ca_owning_annotation_value : String
trusted_ca_owning_annotation_value = "Serverless Operator"

abbrev pub cert_version_key : String
cert_version_key = "serving.knative.openshift.io/mounted-cert-version"

-- instance.Spec.ControllerCustomCerts, or the default where it is zero
abbrev pub certs_of : CustomCerts → CustomCerts
certs_of certs =
    if certs.name == "" && certs.type == ""
    then record { name = "config-service-ca"; type = "ConfigMap" }
    else certs

-- What the stage calls, besides the names of the instance.
pub record CertsClient (S R D X : Type 0) : Type 0 where
  pub config_maps : Objects (ConfigMap R) X
  pub deployments : Objects (Deployment D) X
  pub blank : R
  -- controllerutil.SetControllerReference with the scheme
  pub set_controller_reference : Instance S → ConfigMap R → Result Error (ConfigMap R)

module _ {S R D X : Type 0} (client : CertsClient S R D X) where
  abbrev pub with_version : String → Deployment D → Deployment D
  with_version version controller = record controller {
    template_annotations = insert cert_version_key version controller.template_annotations;
  }

  unfoldable pub kick_found : String → Deployment D → Run X (Unit {0})
  unfolding insert lookup_or
  kick_found version controller =
      if version == lookup_or "" cert_version_key controller.template_annotations
      then done tt
      else wrapping "error updating the controller annotation: "
          (client.deployments.update (with_version version controller))
        >> done tt

  unfoldable pub on_controller : String → Answer (Deployment D) → Run X (Unit {0})
  unfolding kick_found
  on_controller version (not_found e) = done tt
  on_controller version (failed e) = fail (wrap "error fetching controller deployment: " e)
  on_controller version (found controller) = kick_found version controller

  -- Check if we need to "kick" the controller deployment.
  unfoldable pub kick_controller : Instance S → String → Run X (Unit {0})
  unfolding on_controller
  kick_controller instance version x =
      on_controller version (client.deployments.get instance.namespace "controller" x) x

  unfoldable pub reconcile_cm :
      Instance S → String → Dict String → Dict String → Option (Dict String) → Run X (ConfigMap R)
  unfolding reconcile_config_map
  reconcile_cm instance =
      reconcile_config_map client.config_maps client.blank client.set_controller_reference instance

  -- the part of the function that follows its guard
  unfoldable pub install_certs : Instance S → String → Run X (Unit {0})
  unfolding union
  install_certs instance name = do
    service ←
        wrapping "error reconciling serviceCACM: "
          (reconcile_cm instance (name <> "-service-ca") ((service_ca_key, "true") ∷ []) [] none)
    trusted ← wrapping "error reconciling serviceCACM: " (
        reconcile_cm instance (name <> "-trusted-ca")
          ((trusted_ca_owning_annotation_key, trusted_ca_owning_annotation_value) ∷ [])
          ((trusted_ca_key, "true") ∷ []) none)
    combined ←
        wrapping "error reconciling custom certs CM: "
          (reconcile_cm instance name [] [] (some (union service.contents trusted.contents)))
    kick_controller instance combined.resource_version

  unfoldable pub ensure_custom_certs_config_map : Instance S → Run X (Unit {0})
  unfolding install_certs reconcile_cm kick_controller
  ensure_custom_certs_config_map instance =
      let certs = certs_of instance.controller_custom_certs in
      if not (certs.type == "ConfigMap") || certs.name == ""
      then done tt
      else install_certs instance certs.name
