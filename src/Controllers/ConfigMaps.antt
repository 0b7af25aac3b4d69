-- ===== src/Controllers/ConfigMaps.antt =====
-- reconcileConfigMap of knativeserving_controller.go.
pub mod Content
pub mod Laws
use serverless_operator.Common.{
  String, Bool, true, false, Option, none, some, List, [], not, ◌||◌, if◌then◌else◌, Dict, same_map,
  Error, Answer, found, not_found, failed, Result, ◌<>◌,
}
use serverless_operator.Common.Run.{Run, ◌>>=◌, done, fail, lift, wrapping}
use serverless_operator.Controllers.Spec.{Instance, ConfigMap, Objects}

-- A map of the ConfigMap is replaced where it differs from the one asked for.
abbrev pub replaced : Dict String → Dict String → Dict String
replaced wanted old = if same_map wanted old then old else wanted

-- Nil data are not asked for.
abbrev pub replaced_contents : Option (Dict String) → Dict String → Dict String
replaced_contents none old = old
replaced_contents (some wanted) old = replaced wanted old

-- data != nil && !DeepEqual(data, cm.Data)
abbrev pub other_contents : {R : Type 0} → Option (Dict String) → ConfigMap R → Bool
other_contents none cm = false
other_contents (some wanted) cm = not (same_map wanted cm.contents)

abbrev pub contents_or_nil : Option (Dict String) → Dict String
contents_or_nil none = []
contents_or_nil (some wanted) = wanted

abbrev pub changed_config_map :
    {R : Type 0} → Dict String → Dict String → Option (Dict String) → ConfigMap R → ConfigMap R
changed_config_map annotations labels contents cm = record cm {
  labels = replaced labels cm.labels;
  annotations = replaced annotations cm.annotations;
  contents = replaced_contents contents cm.contents;
}

abbrev pub config_map_differs :
    {R : Type 0} → Dict String → Dict String → Option (Dict String) → ConfigMap R → Bool
config_map_differs annotations labels contents cm =
    not (same_map labels cm.labels)
    || not (same_map annotations cm.annotations)
    || other_contents contents cm

-- `blank` is the rest of a new ConfigMap.
abbrev pub new_config_map :
    {S R : Type 0}
    → R
    → Instance S
    → String
    → Dict String
    → Dict String
    → Option (Dict String)
    → ConfigMap R
new_config_map blank instance name annotations labels contents = record {
  name = name;
  namespace = instance.namespace;
  annotations = annotations;
  labels = labels;
  contents = contents_or_nil contents;
  resource_version = "";
  others = blank;
}

-- `set_controller_reference` is that of controllerutil.
module _ {S R X : Type 0} (objects : Objects (ConfigMap R) X) (blank : R)
    (set_controller_reference : Instance S → ConfigMap R → Result Error (ConfigMap R)) where
  unfoldable pub create_config_map : Instance S → ConfigMap R → Run X (ConfigMap R)
  create_config_map instance cm = do
    owned ←
        wrapping ("failed to set ownerRef on configmap " <> cm.name <> ": ")
          (lift (set_controller_reference instance cm))
    wrapping ("failed to create config map " <> cm.name <> ": ") (objects.create owned)

  -- the branch of a ConfigMap that is there
  unfoldable pub update_config_map :
      String → Dict String → Dict String → Option (Dict String) → ConfigMap R → Run X (ConfigMap R)
  update_config_map name annotations labels contents cm =
      if config_map_differs annotations labels contents cm
      then wrapping ("failed to update config map " <> name <> ": ")
          (objects.update (changed_config_map annotations labels contents cm))
      else done cm

  unfoldable pub on_config_map :
      Instance S
      → String
      → Dict String
      → Dict String
      → Option (Dict String)
      → Answer (ConfigMap R)
      → Run X (ConfigMap R)
  unfolding create_config_map update_config_map same_map
  on_config_map instance name annotations labels contents (not_found e) =
      create_config_map instance (new_config_map blank instance name annotations labels contents)
  on_config_map instance name annotations labels contents (failed e) = fail e
  on_config_map instance name annotations labels contents (found cm) =
      update_config_map name annotations labels contents cm

  unfoldable pub reconcile_config_map :
      Instance S → String → Dict String → Dict String → Option (Dict String) → Run X (ConfigMap R)
  unfolding on_config_map
  reconcile_config_map instance name annotations labels contents x =
      on_config_map instance name annotations labels contents
        (objects.get instance.namespace name x) x
