-- ===== src/Istio.antt =====
-- pkg/istio/eventingistio/istio.go: whether Istio is enabled for Eventing, and the scale of the
-- controller of Istio. The spec of the KnativeEventing is of any type, behind the functions that
-- read its workload overrides and append one.
pub mod Policies
pub mod Laws
mod Tests
use serverless_operator.Common.{
  ℕ, String, Bool, true, false, Option, none, some, List, [], ◌∷◌, if◌then◌else◌, ◌==◌, ◌&&◌, Dict,
  lookup,
}
use serverless_operator.Config.{ConfigMapData}

-- base.WorkloadOverride; the fields that the code does not name are one value.
pub record WorkloadOverride (O : Type 0) : Type 0 where
  pub name : String
  pub replicas : Option ℕ
  pub others : O

abbrev or_config : Option (Dict String) → Option (Dict String) → Dict String
or_config (some v) rest = v
or_config none (some v) = v
or_config none none = []

unfoldable pub get_features_config : ConfigMapData → Dict String
unfolding lookup
get_features_config cfg = or_config (lookup "features" cfg) (lookup "config-features" cfg)

-- `equal_fold` is strings.EqualFold.
unfoldable pub is_enabled : (String → String → Bool) → ConfigMapData → Bool
unfolding lookup
is_enabled equal_fold config = elim (lookup "istio" (get_features_config config)) [
  | none ↦ false
  | some v ↦ equal_fold v "enabled"
]

abbrev pub istio_controller_name : String
istio_controller_name = "eventing-istio-controller"

-- The loop over the overrides. Its variable is a copy of the override, so the write of the
-- replicas is to the copy, and only `found` is left of an iteration.
unfoldable pub found_controller : {O : Type 0} → List (WorkloadOverride O) → Bool → Bool
found_controller [] found = found
found_controller (w ∷ ws) found =
    found_controller ws (if w.name == istio_controller_name then true else found)

abbrev pub istio_override : {O : Type 0} → O → ℕ → WorkloadOverride O
istio_override unset replicas = record {
  name = istio_controller_name;
  replicas = some replicas;
  others = unset;
}

module _ {S O : Type 0} (get_workload_overrides : S → List (WorkloadOverride O))
    (append_workload : S → WorkloadOverride O → S) (unset : O) where
  -- The namespace of the controller is not read, and is left out.
  unfoldable pub scale_istio_controller : S → ℕ → S
  scale_istio_controller ke replicas =
      if found_controller (get_workload_overrides ke) false
      then ke
      else append_workload ke (istio_override unset replicas)
