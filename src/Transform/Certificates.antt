-- ===== src/Transform/Certificates.antt =====
-- certificates.go and cabundle.go of openshift-knative-operator/pkg/common: the trusted certificates
-- in the pods.
pub mod Laws
use serverless_operator.Common.{
  String, Bool, true, false, ◌||◌, ◌==◌, Option, none, some, List, [], ◌∷◌, ◌++◌, if◌then◌else◌,
  Result, ok, err, split, join, ◌<>◌,
}
use serverless_operator.Transform.Spec.{
  EnvVar, Volume, VolumeSource, config_map_source, VolumeMount, Container, Workload, Unstructured,
  Scheme, Transformer, on_containers, converting,
}

abbrev pub trusted_ca_config_map_name : String
trusted_ca_config_map_name = "config-openshift-trusted-cabundle"

abbrev pub trusted_ca_config_map_volume : String
trusted_ca_config_map_volume = trusted_ca_config_map_name <> "-volume"

abbrev pub trusted_ca_key : String
trusted_ca_key = "ca-bundle.crt"

abbrev pub new_volume_with_config_map : String → String → String → String → Volume
new_volume_with_config_map volume_name config_map_name key path = record {
  name = volume_name;
  source = config_map_source config_map_name ((key, path) ∷ []);
}

abbrev pub trusted_volume : Volume
trusted_volume =
    new_volume_with_config_map trusted_ca_config_map_volume trusted_ca_config_map_name
      trusted_ca_key trusted_ca_key

-- The loops that remove stop at the first element with the name.
unfoldable pub remove_volume : String → List Volume → List Volume
remove_volume name [] = []
remove_volume name (v ∷ vs) =
    let rest = remove_volume name vs in if v.name == name then vs else v ∷ rest

unfoldable pub remove_mount : String → List VolumeMount → List VolumeMount
remove_mount name [] = []
remove_mount name (m ∷ ms) =
    let rest = remove_mount name ms in if m.name == name then ms else m ∷ rest

unfoldable pub add_ca_bundle_config_maps_to_volumes : List Volume → List Volume
unfolding remove_volume
add_ca_bundle_config_maps_to_volumes volumes =
    remove_volume trusted_ca_config_map_volume volumes ++ (trusted_volume ∷ [])

abbrev pub ssl_cert_dir : String
ssl_cert_dir = "SSL_CERT_DIR"

abbrev pub custom_certs : String
custom_certs = "/ocp-serverless-custom-certs"

-- the loop that looks for the variable
unfoldable pub find_cert_dir : List EnvVar → Option String
find_cert_dir [] = none
find_cert_dir (e ∷ es) = if e.name == ssl_cert_dir then some e.value else find_cert_dir es

-- strings.Join(certDirectories, ":")
abbrev pub default_cert_dir : String
unfolding join
default_cert_dir = join ":" (custom_certs ∷ "/etc/pki/tls/certs" ∷ [])

-- strings.Split(sslCertDir, ":")[0]; Split never returns an empty list
abbrev pub first_dir : List String → String
first_dir [] = ""
first_dir (d ∷ ds) = d

-- The parameter is filepath.Join of two elements.
module _ (filepath_join : String → String → String) where
  unfoldable pub trusted_mount : String → VolumeMount
  unfolding split
  trusted_mount dir = record {
    name = trusted_ca_config_map_volume;
    mount_path = filepath_join (first_dir (split b':' dir)) trusted_ca_key;
    sub_path = trusted_ca_key;
    read_only = true;
  }

  abbrev pub mounted : Container → String → List EnvVar → Container
  unfolding trusted_mount remove_mount
  mounted c dir env = record c {
    env = env;
    volume_mounts =
        remove_mount trusted_ca_config_map_volume c.volume_mounts ++ (trusted_mount dir ∷ []);
  }

  abbrev pub default_env : EnvVar
  unfolding default_cert_dir
  default_env = record { name = ssl_cert_dir; value = default_cert_dir; value_from = none }

  -- from the value of the variable, if it is set
  unfoldable pub add_from : Option String → Container → Container
  unfolding mounted default_cert_dir default_env
  add_from (some dir) c = mounted c dir c.env
  add_from none c = mounted c default_cert_dir (c.env ++ (default_env ∷ []))

  unfoldable pub add_ca_bundles_to_container_volumes : Container → Container
  unfolding find_cert_dir add_from
  add_ca_bundles_to_container_volumes c = add_from (find_cert_dir c.env) c

  abbrev pub with_ca_bundles : Workload → Workload
  unfolding add_ca_bundle_config_maps_to_volumes add_ca_bundles_to_container_volumes
  with_ca_bundles w = record (on_containers add_ca_bundles_to_container_volumes w) {
    volumes = add_ca_bundle_config_maps_to_volumes w.volumes;
  }

  -- ApplyCABundlesTransform, with SetCreationTimestamp on the result.
  abbrev pub reset :
      {C : Type 0} → Scheme C → Result String (Unstructured C) → Result String (Unstructured C)
  reset scheme (err e) = err e
  reset scheme (ok u) = ok (scheme.reset_creation_timestamp u)

  unfoldable pub apply_ca_bundles_transform : {C : Type 0} → Scheme C → Transformer C
  unfolding converting with_ca_bundles
  apply_ca_bundles_transform scheme u =
      if u.kind == "Deployment" || u.kind == "StatefulSet"
      then reset scheme (converting scheme (λ w. ok (with_ca_bundles w)) u)
      else ok u
