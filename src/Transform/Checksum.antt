-- ===== src/Transform/Checksum.antt =====
-- ConfigMapVolumeChecksumTransform of openshift-knative-operator/pkg/common/deployment.go.
use serverless_operator.Common.{
  String, ◌||◌, not, ◌==◌, List, [], ◌∷◌, ◌++◌, if◌then◌else◌, Result, ok, err, ◌>>=◌, ◌<>◌, Dict,
  insert, join, any, select,
}
use serverless_operator.Transform.Spec.{
  Volume, VolumeSource, config_map_source, other_source, Workload, Scheme, Transformer, converting,
}

pub record ConfigMap : Type 0 where
  pub name : String
  pub entries : Dict String
  pub binary_entries : Dict String

-- the answer of the client to a Get
pub data Reading : Type 0 where
  read : ConfigMap → Reading
  missing : Reading
  unreadable : String → Reading

-- The client, sort.Strings (which sets.List uses too), configmap.Checksum.
pub record Reader : Type 0 where
  pub get : String → String → Reading
  pub sort : List String → List String
  pub checksum : String → String

abbrev pub volume_checksum_annotation : String
volume_checksum_annotation = "operator.knative.openshift.io/configmap-volume-checksum"

abbrev pub key_values : Dict String → List String
key_values [] = []
key_values ((k, v) ∷ m) = (k <> v) ∷ key_values m

unfoldable pub kvs_of : ConfigMap → List String
kvs_of cm = key_values cm.entries ++ key_values cm.binary_entries

-- configMaps.Delete(name)
abbrev pub delete_name : String → List String → List String
delete_name name names = select (λ n. not (n == name)) names

module _ (reader : Reader) (namespace : String) where
  -- One ConfigMap of a volume: the names that are left, and the entries so far.
  unfoldable pub add_reading :
      Reading → List String × List String → Result String (List String × List String)
  unfolding kvs_of
  add_reading missing (left, kvs) = ok (left, kvs)
  add_reading (unreadable e) (left, kvs) = err ("failed to get ConfigMap: " <> e)
  add_reading (read cm) (left, kvs) = ok (delete_name cm.name left, kvs ++ kvs_of cm)

  unfoldable pub add_source :
      VolumeSource → List String × List String → Result String (List String × List String)
  unfolding add_reading
  add_source (other_source s) acc = ok acc
  add_source (config_map_source name items) (left, kvs) =
      if any (λ n. n == name) left
      then add_reading (reader.get namespace name) (left, kvs)
      else ok (left, kvs)

  -- the loop over the volumes
  unfoldable pub add_volumes :
      List Volume → List String × List String → Result String (List String × List String)
  unfolding add_source
  add_volumes [] acc = ok acc
  add_volumes (v ∷ vs) acc = add_source v.source acc >>= λ acc'. add_volumes vs acc'

  -- The loop over the names that no volume has; the names that are left do not matter any more.
  unfoldable pub add_names :
      List String → List String × List String → Result String (List String × List String)
  unfolding add_reading
  add_names [] acc = ok acc
  add_names (name ∷ names) acc =
      add_reading (reader.get namespace name) acc >>= λ acc'. add_names names acc'

  unfoldable pub all_kvs : List String → List Volume → Result String (List String)
  unfolding add_volumes add_names
  all_kvs config_maps volumes = do
    found ← add_volumes volumes (config_maps, [])
    more ← add_names (reader.sort (found.0)) found
    ok (more.1)

  unfoldable pub with_checksum : List String → Workload → Result String Workload
  unfolding all_kvs insert join
  with_checksum config_maps w = do
    kvs ← all_kvs config_maps w.volumes
    ok (record w {
      annotations =
          insert volume_checksum_annotation (reader.checksum (join "" (reader.sort kvs)))
            w.annotations;
    })

unfoldable pub config_map_volume_checksum_transform :
    {C : Type 0} → Scheme C → Reader → List String → Transformer C
unfolding converting with_checksum
config_map_volume_checksum_transform scheme reader config_maps u =
    if u.kind == "Deployment" || u.kind == "StatefulSet"
    then converting scheme (with_checksum reader u.namespace config_maps) u
    else ok u
