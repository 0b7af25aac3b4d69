-- ===== src/Monitoring/Laws.antt =====
-- What reconcileMonitoring leaves in the configuration and in the cluster.
use serverless_operator.Common.{
  String, Bool, true, false, ◌≡◌, refl, sym, ◌∙◌, ap, subst, Option, none, some, if◌then◌else◌,
  ◌==◌, ◌||◌, lookup_or, insert, lookup_or-insert, ok, eq_iff, inl, inr, Bool-cases, Option-cases,
  Result-cases,
}
use serverless_operator.Config.{ConfigMapData, config_value, configure, configure_if_unset}
use serverless_operator.Config.Laws.{
  or_value, config_value-configure, config_value-configure_if_unset,
}
use serverless_operator.Monitoring.{
  Namespace, Api, IsApi, observability_cm_name, observability_backend_key, backend_of,
  should_enable_monitoring, format_bool, wrap, after_label, label_namespace, from_environment,
  reconcile_monitoring_label_on_namespace, reconcile_monitoring,
}

abbrev or_empty : Option String → String
or_empty none = ""
or_empty (some s) = s

backend_of_lem :
    (config : ConfigMapData)
    → backend_of config
      ≡ or_empty (config_value config observability_cm_name observability_backend_key)
unfolding lookup_or config_value
backend_of_lem config = refl

backend_of-configure :
    (config : ConfigMapData)
    → backend_of (configure config observability_cm_name observability_backend_key "none") ≡ "none"
backend_of-configure config =
    backend_of_lem _ ∙ ap or_empty (config_value-configure config _ _ _ _ _)

backend_of-configure_if_unset :
    (config : ConfigMapData)
    → backend_of
        (configure_if_unset config observability_cm_name observability_backend_key "prometheus")
      ≡ or_empty (
          or_value
            (config_value config observability_cm_name observability_backend_key)
            "prometheus")
backend_of-configure_if_unset config =
    backend_of_lem _ ∙ ap or_empty (config_value-configure_if_unset config _ _ _ _ _)

abbrev decide : (String → String → Bool) → Option String → String → Bool
decide equal_fold env backend =
    if backend == "none" || backend == "opencensus"
    then false
    else from_environment equal_fold env backend

decide-prometheus :
    (equal_fold : String → String → Bool) (env : Option String)
    → decide equal_fold env "prometheus" ≡ true
decide-prometheus equal_fold none = refl
decide-prometheus equal_fold (some enable) = elim (Bool-cases (equal_fold enable "true")) [
  | inl e ↦ rw e refl
  | inr e ↦ rw e refl
]

module _ (equal_fold : String → String → Bool) (env : Option String) (config : ConfigMapData) where
  stays_disabled :
      should_enable_monitoring equal_fold env
        (configure config observability_cm_name observability_backend_key "none")
      ≡ false
  unfolding should_enable_monitoring
  stays_disabled = ap (decide equal_fold env) (backend_of-configure config)

  stays_enabled :
      should_enable_monitoring equal_fold env config ≡ true
      → should_enable_monitoring equal_fold env
          (configure_if_unset config observability_cm_name observability_backend_key "prometheus")
        ≡ true
  unfolding should_enable_monitoring
  stays_enabled h =
      let backend : Option String =
        config_value config observability_cm_name observability_backend_key in
      elim (Option-cases backend) [
        | inl e ↦
            ap (decide equal_fold env) (
              backend_of-configure_if_unset config ∙ ap (λ o. or_empty (or_value o "prometheus")) e)
            ∙ decide-prometheus equal_fold env
        | inr (old, e) ↦
            ap (decide equal_fold env) (
              backend_of-configure_if_unset config
              ∙ ap (λ o. or_empty (or_value o "prometheus")) e
              ∙ sym (backend_of_lem config ∙ ap or_empty e))
            ∙ h
      ]

wrap-eq-none :
    {X : Type 0}
    → (message : String) (p : X × Option String) (x : X) → wrap message p ≡ (x, none)
    → p ≡ (x, none)
wrap-eq-none message (y, none) x h = h
wrap-eq-none message (y, some e) x h = cc h

after_label-eq-none :
    {X : Type 0}
    → (config config' : ConfigMapData) (p : X × Option String) (x : X)
    → after_label config p ≡ (config', (x, none))
    → (p ≡ (x, none))
      × (configure config observability_cm_name observability_backend_key "none" ≡ config')
after_label-eq-none config config' (y, none) x h = (ap (λ r. r.1) h, ap (λ r. r.0) h)
after_label-eq-none config config' (y, some e) x h = cc h

module _ {R X : Type 0} (api : Api R X) (law : IsApi api) where
  -- The namespace can be read, and has the label of the switch.
  abbrev pub IsLabelled : String → Bool → X → Type 0
  IsLabelled namespace enable x =
      (n : Namespace R) × (api.get namespace x ≡ ok n)
      × (lookup_or "" "openshift.io/cluster-monitoring" n.labels ≡ format_bool enable)

  abbrev labelled : Namespace R → Bool → Namespace R
  labelled n enable = record {
    name = n.name;
    labels = insert "openshift.io/cluster-monitoring" (format_bool enable) n.labels;
    others = n.others;
  }

  label_namespace-IsLabelled :
      (namespace : String) (n : Namespace R) (enable : Bool) (x x' : X)
      → api.get namespace x ≡ ok n
      → label_namespace api n enable x ≡ (x', none)
      → IsLabelled namespace enable x'
  unfolding label_namespace
  label_namespace-IsLabelled namespace n enable x x' g h =
      elim (Bool-cases
        (lookup_or "" "openshift.io/cluster-monitoring" n.labels == format_bool enable)) [
          | inl e ↦
              subst (λ y. IsLabelled namespace enable y) (ap (λ r. r.0) (rw e at h))
                (n, g, (eq_iff _ _).0 e)
          | inr e ↦
              let stored : Path (X × Option String) (api.update (labelled n enable) x) (x', none) =
                wrap-eq-none "could not add label to namespace: " (api.update (labelled n enable) x)
                  x' (rw e at h) in
              (
                labelled n enable,
                subst (λ m. api.get m x' ≡ ok (labelled n enable)) (law.get_name namespace n x g)
                    (law.update_get (labelled n enable) x x' stored),
                rw lookup_or-insert refl,
              )
        ]

  pub reconcile_monitoring_label_on_namespace-IsLabelled :
      (namespace : String) (enable : Bool) (x x' : X)
      → reconcile_monitoring_label_on_namespace api namespace enable x ≡ (x', none)
      → IsLabelled namespace enable x'
  unfolding reconcile_monitoring_label_on_namespace
  reconcile_monitoring_label_on_namespace-IsLabelled namespace enable x x' h =
      elim (Result-cases (api.get namespace x)) [
        | inl (n, g) ↦
            label_namespace-IsLabelled namespace n enable x x' g
              (rw (g, reconcile_monitoring_label_on_namespace) at h)
        | inr (e, g) ↦ cc (rw (g, reconcile_monitoring_label_on_namespace) at h)
      ]

  -- After a run without an error, with a lawful client, the namespace has the label of what
  -- ShouldEnableMonitoring decides on the configuration before the run, and it decides the same on
  -- the one that the run leaves.
  pub reconcile_monitoring_lem :
      (equal_fold : String → String → Bool) (env : Option String) (ns : String)
      (config config' : ConfigMapData) (x x' : X)
      → reconcile_monitoring api equal_fold env ns config x ≡ (config', (x', none))
      → IsLabelled ns (should_enable_monitoring equal_fold env config) x'
        × (should_enable_monitoring equal_fold env config'
            ≡ should_enable_monitoring equal_fold env config)
  unfolding reconcile_monitoring
  reconcile_monitoring_lem equal_fold env ns config config' x x' h =
      elim (Bool-cases (should_enable_monitoring equal_fold env config)) [
        | inl e ↦
            let ran = rw (e, reconcile_monitoring) at h in
            rw e (
              reconcile_monitoring_label_on_namespace-IsLabelled ns true x x'
                  (wrap-eq-none "failed to enable monitoring " _ x' (ap (λ r. r.1) ran)),
              subst (λ c. should_enable_monitoring equal_fold env c ≡ true) (ap (λ r. r.0) ran)
                  (stays_enabled equal_fold env config e),
            )
        | inr e ↦
            let (labels, same) =
              after_label-eq-none config config' _ x' (rw (e, reconcile_monitoring) at h) in
            rw e (
              reconcile_monitoring_label_on_namespace-IsLabelled ns false x x' labels,
              subst (λ c. should_enable_monitoring equal_fold env c ≡ false) same
                  (stays_disabled equal_fold env config),
            )
      ]
