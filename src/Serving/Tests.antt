-- ===== src/Serving/Tests.antt =====
-- The theorem about the filter of the informer of secrets at concrete overrides.
use serverless_operator.Common.{
  true, false, ◌≡◌, refl, none, some, List, [], ◌∷◌, ok, ◌&&◌, if◌then◌else◌,
}
use serverless_operator.Transform.Spec.{Workload, Scheme}
use serverless_operator.Serving.{
  WorkloadOverride, enable_env, find_in_vars, find_in_env, find_in_overrides, parse_bool,
  enable_secret_informer_filtering_transformers,
}
use serverless_operator.Serving.Laws.{
  is_filtered, wants, is_filtered-enable_secret_informer_filtering,
}

abbrev scheme : Scheme Workload
scheme = record {
  to_typed = λ u. ok u.content;
  from_typed = λ w u. ok (record u { content = w });
  reset_creation_timestamp = λ u. u;
}

abbrev overrides : List WorkloadOverride
overrides =
    record {
      name = "net-kourier-controller";
      env =
          record {
            container = "controller";
            env_vars = record { name = enable_env; value = "f"; value_from = none } ∷ [];
          }
          ∷ [];
    }
    ∷ []

is_filtered-enable_secret_informer_filtering_example :
    is_filtered (enable_secret_informer_filtering_transformers scheme true true overrides) ≡ (
      if true
      then wants "net-kourier-controller" overrides
      else true && wants "net-istio-controller" overrides)
is_filtered-enable_secret_informer_filtering_example =
    is_filtered-enable_secret_informer_filtering scheme overrides true true

opted_out : find_in_overrides "net-kourier-controller" "controller" overrides ≡ some false
unfolding find_in_overrides find_in_env find_in_vars parse_bool
opted_out = refl
