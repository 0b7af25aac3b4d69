-- ===== src/Monitoring/Tests.antt =====
-- The theorem about monitoring at a concrete namespace.
use serverless_operator.Common.{
  String, Bool, true, ◌≡◌, refl, sym, ◌∙◌, none, some, [], ◌∷◌, if◌then◌else◌, ◌==◌, Result, ok,
  err, ok-injective, eq_iff, eq_refl, inl, inr, Bool-cases, ap,
}
use serverless_operator.Config.{
  ConfigMapData, config_map, configure_if_unset, ensure, write, config_value,
}
use serverless_operator.Monitoring.{
  reconcile_monitoring_label_on_namespace, label_namespace, Namespace, Api, IsApi,
  should_enable_monitoring, reconcile_monitoring,
}
use serverless_operator.Monitoring.Laws.{IsLabelled, reconcile_monitoring_lem}

-- A cluster of one namespace.
abbrev look_up : String → Namespace Bool → Result String (Namespace Bool)
look_up name x = if x.name == name then ok x else err "not found"

abbrev api : Api Bool (Namespace Bool)
api = record { get = look_up; update = λ n x. (n, none) }

look_up-name : (name : String) (n x : Namespace Bool) → look_up name x ≡ ok n → n.name ≡ name
look_up-name name n x h = elim (Bool-cases (x.name == name)) [
  | inl e ↦ ap (λ m. m.name) (sym (ok-injective (rw e at h))) ∙ (eq_iff x.name name).0 e
  | inr e ↦ cc (rw e at h)
]

api-IsApi : IsApi api
api-IsApi = record {
  get_name = look_up-name;
  update_get = λ n x x' h. rw (← ap (λ r. r.0) h) (rw (eq_refl n.name) refl);
}

abbrev namespace : Namespace Bool
namespace = record {
  name = "knative-serving";
  labels = ("openshift.io/cluster-monitoring", "false") ∷ [];
  others = true;
}

abbrev after : Namespace Bool
after = record {
  name = "knative-serving";
  labels = ("openshift.io/cluster-monitoring", "true") ∷ [];
  others = true;
}

abbrev equal_fold : String → String → Bool
equal_fold a b = a == b

abbrev config : ConfigMapData
config = ("observability", ("metrics-protocol", "prometheus") ∷ []) ∷ []

run :
    reconcile_monitoring api equal_fold (some "true") "knative-serving" [] namespace
    ≡ (config, (after, none))
unfolding reconcile_monitoring should_enable_monitoring configure_if_unset ensure write config_map
    config_value reconcile_monitoring_label_on_namespace label_namespace
run = refl

reconcile_monitoring_lem_example :
    IsLabelled api api-IsApi "knative-serving"
      (should_enable_monitoring equal_fold (some "true") [])
      after
    × (should_enable_monitoring equal_fold (some "true") config
        ≡ should_enable_monitoring equal_fold (some "true") [])
reconcile_monitoring_lem_example =
    reconcile_monitoring_lem api api-IsApi equal_fold (some "true") "knative-serving" [] config
      namespace after run
