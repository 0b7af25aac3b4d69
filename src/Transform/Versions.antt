-- ===== src/Transform/Versions.antt =====
-- The version check of openshift-knative-operator/pkg/common/api.go. The semantic versions of
-- github.com/blang/semver are parameters.
use serverless_operator.Common.{
  String, Bool, List, [], ◌∷◌, if◌then◌else◌, Result, ok, err, ◌>>=◌, has_prefix, trim_prefix,
  is_ok, ◌≡◌, refl,
}
use serverless_operator.Transform.Spec.{Scheme, Transformer}
use serverless_operator.Transform.Security.{set_security_context_for_admission_controller}
use serverless_operator.Transform.Metadata.{
  upgrade_pod_disruption_budget, upgrade_horizontal_pod_autoscaler,
}

abbrev pub minimum_k8s_api_deprecation_version : String
minimum_k8s_api_deprecation_version = "1.24.0"

-- semver.Make, whether there is no pre-release, the pre-release "0", and LT
pub record Semver (V : Type 0) : Type 0 where
  pub make : String → Result String V
  pub no_pre_release : V → Bool
  pub with_zero_pre_release : V → V
  pub lt : V → V → Bool

unfoldable pub normalize_version : String → String
unfolding has_prefix trim_prefix
normalize_version v = if has_prefix v "v" then trim_prefix v "v" else v

module _ {V : Type 0} (semver : Semver V) where
  -- the version that is asked for, which allows every pre-release of itself
  abbrev pub minimum_version : V → V
  minimum_version v = if semver.no_pre_release v then semver.with_zero_pre_release v else v

  -- The first argument is the answer of ServerVersion: the GitVersion, or an error.
  unfoldable pub check_minimum_kube_version : Result String String → String → Result String V
  unfolding normalize_version
  check_minimum_kube_version server version = do
    git_version ← server
    current ← semver.make (normalize_version git_version)
    minimum ← semver.make (normalize_version version)
    if semver.lt current (minimum_version minimum)
        then err "kubernetes version is not compatible"
        else ok current

  unfoldable pub deprecated_apis_transformers :
      {C : Type 0} → Scheme C → Result String String → List (Transformer C)
  unfolding check_minimum_kube_version set_security_context_for_admission_controller
      upgrade_pod_disruption_budget upgrade_horizontal_pod_autoscaler
  deprecated_apis_transformers scheme server =
      if is_ok (check_minimum_kube_version server minimum_k8s_api_deprecation_version)
      then upgrade_pod_disruption_budget
        ∷ upgrade_horizontal_pod_autoscaler
        ∷ set_security_context_for_admission_controller scheme
        ∷ []
      else []

  -- fakeVersioner answers with the version that it holds.
  unfoldable pub fake_deprecated_apis_transformers :
      {C : Type 0} → Scheme C → String → List (Transformer C)
  unfolding deprecated_apis_transformers
  fake_deprecated_apis_transformers scheme version =
      deprecated_apis_transformers scheme (ok version)

normalize_tests : (normalize_version "v1.24.0" ≡ "1.24.0") × (normalize_version "1.24.0" ≡ "1.24.0")
unfolding normalize_version
normalize_tests = (refl, refl)
