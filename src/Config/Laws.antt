-- ===== src/Config/Laws.antt =====
-- What a reader of the configuration sees after a write.
use serverless_operator.Common.{
  String, true, false, ◌≡◌, refl, ◌↔◌, Option, none, some, if◌then◌else◌, ◌==◌, ◌&&◌, eq_iff, arith,
  Dict, lookup_or-insert, lookup-insert, Option-cases, inl, inr, Bool-cases, sym, ap,
}
use serverless_operator.Config.{
  ConfigMapData, config_map, config_value, ensure, write, is_empty, is_value, configure,
  configure_if_unset, configure_if_configmap_unset, configure_changed,
}

-- The value that is read at a key of a ConfigMap, after a write of another value at a key of one.
abbrev pub written :
    String → String → String → String → Option String → Option String → Option String
written cm key cm' key' value old = if cm == cm' && key == key' then value else old

config_map-ensure :
    (config : ConfigMapData) (cm cm' : String)
    → config_map (ensure config cm) cm' ≡ config_map config cm'
unfolding config_map ensure
config_map-ensure config cm cm' = rw lookup_or-insert (ground (arith, eq_iff cm cm'))

config_value-ensure :
    (config : ConfigMapData) (cm cm' key : String)
    → config_value (ensure config cm) cm' key ≡ config_value config cm' key
unfolding config_value
config_value-ensure config cm cm' key = rw config_map-ensure refl

config_value-write :
    (config : ConfigMapData) (cm key value cm' key' : String)
    → config_value (write config cm key value) cm' key'
      ≡ written cm key cm' key' (some value) (config_value config cm' key')
unfolding config_value config_map write
config_value-write config cm key value cm' key' =
    rw lookup_or-insert
      (ground (arith, eq_iff cm cm', lookup-insert key key' value (config_map config cm)))

-- Configure sets the value at the key, whatever it was, and changes no other value.
pub config_value-configure :
    (config : ConfigMapData) (cm key value cm' key' : String)
    → config_value (configure config cm key value) cm' key'
      ≡ written cm key cm' key' (some value) (config_value config cm' key')
unfolding configure
config_value-configure config cm key value cm' key' =
    rw (config_value-write, config_value-ensure) refl

abbrev pub or_value : Option String → String → Option String
or_value none value = some value
or_value (some old) value = some old

-- ConfigureIfUnset leaves a value that is set, sets one that is not, and changes no other value.
pub config_value-configure_if_unset :
    (config : ConfigMapData) (cm key value cm' key' : String)
    → config_value (configure_if_unset config cm key value) cm' key'
      ≡ written cm key cm' key'
          (or_value (config_value config cm key) value)
          (config_value config cm' key')
unfolding configure_if_unset
config_value-configure_if_unset config cm key value cm' key' =
    rw config_value-ensure (elim (Option-cases (config_value config cm key)) [
      | inl e ↦ rw e (rw (config_value-write, config_value-ensure) refl)
      | inr (old, e) ↦
          rw e (rw config_value-ensure (ground (arith, eq_iff cm cm', eq_iff key key')))
    ])

abbrev pub unless_some : Dict String → String → Option String → Option String
unless_some m value old = if is_empty m then some value else old

-- ConfigureIfConfigmapUnset sets the value only in a ConfigMap that has no values, and changes no
-- other value.
pub config_value-configure_if_configmap_unset :
    (config : ConfigMapData) (cm key value cm' key' : String)
    → config_value (configure_if_configmap_unset config cm key value) cm' key'
      ≡ written cm key cm' key'
          (unless_some (config_map config cm) value (config_value config cm key))
          (config_value config cm' key')
unfolding configure_if_configmap_unset
config_value-configure_if_configmap_unset config cm key value cm' key' =
    rw config_map-ensure (elim (Bool-cases (is_empty (config_map config cm))) [
      | inl e ↦ rw e (rw (config_value-write, config_value-ensure) refl)
      | inr e ↦ rw e (rw config_value-ensure (ground (arith, eq_iff cm cm', eq_iff key key')))
    ])

is_value_iff : (o : Option String) (value : String) → (is_value o value ≡ true) ↔ (o ≡ some value)
is_value_iff none value = (λ h. cc, λ h. cc)
is_value_iff (some old) value =
    (λ h. ap some (sym ((eq_iff value old).0 h)), λ h. (eq_iff value old).1 cc)

-- Configure of util.go says that the configuration has changed exactly where the value at the key
-- was another one or none; the values are afterwards those that the other Configure leaves.
pub configure_changed_lem :
    (config : ConfigMapData) (cm key value cm' key' : String)
    → (((configure_changed config cm key value).1 ≡ false)
        ↔ (config_value config cm key ≡ some value))
      × (config_value (configure_changed config cm key value).0 cm' key'
          ≡ config_value (configure config cm key value) cm' key')
unfolding configure_changed
configure_changed_lem config cm key value cm' key' =
    rw config_value-configure (elim (Bool-cases (is_value (config_value config cm key) value)) [
      | inl e ↦
          let old : config_value config cm key ≡ some value =
            (is_value_iff (config_value config cm key) value).0 e in
          rw e ((λ _. old, λ _. refl), ground (arith, eq_iff cm cm', eq_iff key key'))
      | inr e ↦ rw e (
        (λ h. cc, λ h. cc ((is_value_iff (config_value config cm key) value).1 h, e)),
        rw (config_value-write, config_value-ensure) refl,
      )
    ])
