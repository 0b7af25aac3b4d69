-- ===== src/Config.antt =====
-- openshift-knative-operator/pkg/common/config.go, resources.go, and Configure of
-- knative-operator/pkg/common/util.go: writes to the configuration of a Knative component. The
-- configuration is a map of ConfigMaps; a nil map and an empty one are both `[]`.
pub mod Laws
pub mod Memory
mod Tests
use serverless_operator.Common.{
  String, Bool, true, false, Option, none, some, List, [], ◌∷◌, if◌then◌else◌, ◌==◌, Dict, lookup,
  insert, lookup_or, is_some,
}

-- base.ConfigMapData
abbrev pub ConfigMapData : Type 0
ConfigMapData = Dict (Dict String)

-- s.Config[cm], nil where there is none
unfoldable pub config_map : ConfigMapData → String → Dict String
unfolding lookup_or
config_map config cm = lookup_or [] cm config

-- s.Config[cm][key]
unfoldable pub config_value : ConfigMapData → String → String → Option String
unfolding config_map lookup
config_value config cm key = lookup key (config_map config cm)

-- s.Config[cm] = make(...) where it is nil
unfoldable pub ensure : ConfigMapData → String → ConfigMapData
unfolding insert config_map
ensure config cm = insert cm (config_map config cm) config

-- s.Config[cm][key] = value
unfoldable pub write : ConfigMapData → String → String → String → ConfigMapData
unfolding insert config_map
write config cm key value = insert cm (insert key value (config_map config cm)) config

unfoldable pub configure : ConfigMapData → String → String → String → ConfigMapData
configure config cm key value = write (ensure config cm) cm key value

unfoldable pub configure_if_unset : ConfigMapData → String → String → String → ConfigMapData
configure_if_unset config cm key value =
    let config' = ensure config cm in
    if is_some (config_value config' cm key) then config' else write config' cm key value

abbrev pub is_empty : Dict String → Bool
is_empty [] = true
is_empty (e ∷ m) = false

unfoldable pub configure_if_configmap_unset :
    ConfigMapData → String → String → String → ConfigMapData
configure_if_configmap_unset config cm key value =
    let config' = ensure config cm in
    if is_empty (config_map config' cm) then write config' cm key value else config'

abbrev is_value : Option String → String → Bool
is_value none value = false
is_value (some old) value = value == old

-- Configure of util.go: the new configuration, and whether it has changed.
unfoldable pub configure_changed : ConfigMapData → String → String → String → ConfigMapData × Bool
configure_changed config cm key value =
    if is_value (config_value config cm key) value
    then (config, false)
    else (write (ensure config cm) cm key value, true)
