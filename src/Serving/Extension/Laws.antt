-- ===== src/Serving/Extension/Laws.antt =====
-- What Reconcile of a KnativeServing leaves.
use serverless_operator.Common.{
  String, ◌≡◌, refl, sym, ap, ◌∙◌, Bool, true, false, ◌&&◌, ◌==◌, ◌⊎◌, inl, inr, Option, none, some,
  Result, ok, err, Error, Bool-cases,
}
use serverless_operator.Common.Run.{after-eq-ok}
use serverless_operator.Config.{ConfigMapData, config_value}
use serverless_operator.Config.Memory.{limit_of}
use serverless_operator.Config.Laws.{config_value-configure, config_value-configure_if_unset}
use serverless_operator.Monitoring.{
  Api, reconcile_monitoring, after_label, should_enable_monitoring,
  reconcile_monitoring_label_on_namespace,
}
use serverless_operator.Serving.Defaults.{defaulted, default_to_kourier}
use serverless_operator.Serving.Defaults.Laws.{or_else, forced_value, default_value, configured_lem}
use serverless_operator.Serving.Defaults.Fields.{HasFields, defaulted-HasFields}
use serverless_operator.Serving.Cleanup.{cleanup_old_resources}
use serverless_operator.Serving.Extension.{
  State, ServingExtension, fetch_cluster_host, fetch_logging_host, after_cleanup, ensure_cleanup,
  reconcile_monitoring_for_serving, with_defaults, with_dependencies, reconcile_for, misplaced,
  reconcile,
}

-- Whether a value is not the one that says how metrics are exported.
abbrev pub unmonitored : String → String → Bool
unmonitored cm key = "observability" == cm && "metrics-protocol" == key

after_label-other :
    {X : Type 0} (config : ConfigMapData) (r : X × Option String) (cm key : String)
    → unmonitored cm key ≡ false
    → config_value (after_label config r).0 cm key ≡ config_value config cm key
after_label-other config (x, none) cm key h =
    config_value-configure config "observability" "metrics-protocol" "none" cm key ∙ rw h refl
after_label-other config (x, some e) cm key h = refl

-- Monitoring changes no other value of the configuration.
pub reconcile_monitoring-other :
    {R X : Type 0} (api : Api R X) (equal_fold : String → String → Bool) (env : Option String)
    (ns : String) (config : ConfigMapData) (x : X) (cm key : String)
    → unmonitored cm key ≡ false
    → config_value (reconcile_monitoring api equal_fold env ns config x).0 cm key
      ≡ config_value config cm key
unfolding reconcile_monitoring
reconcile_monitoring-other api equal_fold env ns config x cm key h =
    elim (Bool-cases (should_enable_monitoring equal_fold env config)) [
      | inl e ↦ rw e (
          config_value-configure_if_unset config "observability" "metrics-protocol" "prometheus" cm
            key
          ∙ rw h refl)
      | inr e ↦ rw e (
          after_label-other config (reconcile_monitoring_label_on_namespace api ns false x) cm key
            h)
    ]

module _ {S R X : Type 0} (e : ServingExtension S R X) where
  -- The old objects are gone from the cluster y: they were before, or the clean-up of now succeeded.
  abbrev pub Cleaned : State S X → X → Type 0
  Cleaned s y =
      ((s.old_resource_removed ≡ true) × (y ≡ s.cluster))
      ⊎ (cleanup_old_resources e.cleanup s.object.namespace s.cluster ≡ (y, ok tt))

  after_cleanup-eq-ok :
      (s s' : State S X) (r : X × Result Error (Unit {0}))
      → after_cleanup e s r ≡ (s', ok tt)
      → (r ≡ (s'.cluster, ok tt))
        × (s' ≡ record s { cluster = s'.cluster; old_resource_removed = true })
  after_cleanup-eq-ok s s' (x, ok _) h =
      let same : record s { cluster = x; old_resource_removed = true } ≡ s' = ap (λ r. r.0) h in
      let reached : x ≡ s'.cluster = ap (λ t. t.cluster) same in
      (
        ap (λ y. (y, ok tt)) reached,
        sym same ∙ ap (λ y. record s { cluster = y; old_resource_removed = true }) reached,
      )
  after_cleanup-eq-ok s s' (x, err error) h = cc h

  ensure_cleanup-eq-ok :
      (s s' : State S X)
      → ensure_cleanup e s ≡ (s', ok tt)
      → Cleaned s s'.cluster × (s' ≡ record s { cluster = s'.cluster; old_resource_removed = true })
  unfolding ensure_cleanup
  ensure_cleanup-eq-ok s s' h = elim (Bool-cases s.old_resource_removed) [
    | inl removed ↦
        let same : record s { old_resource_removed = true } ≡ s' =
          ap (λ r. r.0) (rw removed at h) in
        let reached : s.cluster ≡ s'.cluster = ap (λ t. t.cluster) same in
        (
          inl (removed, sym reached),
          sym same ∙ ap (λ y. record s { cluster = y; old_resource_removed = true }) reached,
        )
    | inr new ↦
        let (ran, left) =
          after_cleanup-eq-ok (record s { old_resource_removed = false }) s'
            (cleanup_old_resources e.cleanup s.object.namespace s.cluster) (rw new at h) in
        (inr ran, left)
  ]

  -- The configuration has what the operator insists on, else the user's value, else the default, but
  -- for the export of metrics; the rest of the spec is that with the defaults, which HasFields
  -- writes out.
  abbrev pub HasDefaults : State S X → State S X → String → Type 0
  HasDefaults s s' domain =
      (s'.object.spec
        ≡ record (defaulted domain (fetch_logging_host e s.cluster) e.images s.object.spec) {
          config = s'.object.spec.config;
        })
      × HasFields e.images s.object.spec s'.object.spec
      × ((cm key : String)
          → unmonitored cm key ≡ false
          → config_value s'.object.spec.config cm key
            ≡ or_else (forced_value (fetch_logging_host e s.cluster) e.images cm key) (
                or_else (config_value s.object.spec.config cm key) (
                  default_value domain (default_to_kourier s.object.spec.ingress)
                    s.object.spec.config cm key)))

  monitored-HasDefaults :
      (s t s' : State S X) (domain : String) (y : X)
      → t ≡ record (with_defaults e domain s) { cluster = y; old_resource_removed = true }
      → reconcile_monitoring_for_serving e t ≡ (s', ok tt)
      → HasDefaults s s' domain × (s'.old_resource_removed ≡ true)
  unfolding with_defaults reconcile_monitoring_for_serving defaulted
  monitored-HasDefaults s t s' domain y left h =
      let filled = defaulted domain (fetch_logging_host e s.cluster) e.images s.object.spec in
      let same = ap (λ r. r.0) (rw left at h) in
      let reached = ap (λ u. u.object.spec) same in
      let config_reached = ap (λ spec. spec.config) reached in
      let (override, default, limits, replicas, ingress, budgets) =
        defaulted-HasFields domain (fetch_logging_host e s.cluster) e.images s.object.spec in
      (
        (
          sym reached ∙ ap (λ c. record filled { config = c }) config_reached,
          (
            ap (λ spec. spec.registry_override) (sym reached) ∙ override,
            ap (λ spec. spec.registry_default) (sym reached) ∙ default,
            λ c resource.
                ap (λ spec. limit_of spec.resources c resource) (sym reached) ∙ limits c resource,
            ap (λ spec. spec.high_availability) (sym reached) ∙ replicas,
            ap (λ spec. spec.ingress) (sym reached) ∙ ingress,
            ap (λ spec. spec.pod_disruption_budgets) (sym reached) ∙ budgets,
          ),
          λ cm key other.
              ap (λ c. config_value c cm key) (sym config_reached)
              ∙ reconcile_monitoring-other e.namespaces e.equal_fold e.monitoring_env
                  s.object.namespace filled.config y cm key other
              ∙ configured_lem domain (fetch_logging_host e s.cluster) e.images
                  (default_to_kourier s.object.spec.ingress) s.object.spec.config cm key,
        ),
        ap (λ u. u.old_resource_removed) (sym same),
      )

  reconcile_for-eq-ok :
      (s s' : State S X) (r : Result Error String)
      → reconcile_for e r s ≡ (s', ok tt)
      → (s'.old_resource_removed ≡ true)
        × ((y : X) × Cleaned s y)
        × ((domain : String) × (r ≡ ok domain) × HasDefaults s s' domain)
  unfolding reconcile_for with_defaults
  reconcile_for-eq-ok s s' (err error) h = cc h
  reconcile_for-eq-ok s s' (ok domain) h =
      let (t, _, cleaned, rest) = after-eq-ok (ensure_cleanup e (with_defaults e domain s)) _ h in
      let (gone, left) = ensure_cleanup-eq-ok (with_defaults e domain s) t cleaned in
      let (defaults, removed) = monitored-HasDefaults s t s' domain t.cluster left rest in
      (removed, (t.cluster, gone), (domain, refl, defaults))

  placed-eq-ok :
      (s s' : State S X)
      → reconcile_for e (fetch_cluster_host e s.cluster) (with_dependencies e s) ≡ (s', ok tt)
      → (s'.old_resource_removed ≡ true)
        × ((y : X) × Cleaned s y)
        × ((domain : String) × (fetch_cluster_host e s.cluster ≡ ok domain)
            × HasDefaults s s' domain)
  unfolding with_dependencies
  placed-eq-ok s s' h = elim (Bool-cases (e.dependencies_installed_is_false s.object.status)) [
    | inl failing ↦
        let marked = record s.object { status = e.mark_dependencies_installed s.object.status } in
        reconcile_for-eq-ok (record s { object = marked }) s' (fetch_cluster_host e s.cluster)
          (rw failing at h)
    | inr fine ↦ reconcile_for-eq-ok s s' (fetch_cluster_host e s.cluster) (rw fine at h)
  ]

  -- A Reconcile without an error is one of a KnativeServing in the namespace that is required, if one
  -- is. It had the host of the cluster, and the old objects were gone or it deleted them without an error,
  -- which is noted. The configuration has what the operator insists on, else the user's value, else the
  -- default, but for the export of metrics, and the rest of the spec is that with the defaults: the images
  -- of the environment, a memory limit of "1024Mi" for "webhook" unless the user sets one, two replicas unless the user sets their number, Kourier unless the user has another ingress, with the
  -- service type "ClusterIP" unless the user names one, and a disruption budget of one for
  -- "activator-pdb" and "webhook-pdb" unless the user has one.
  pub reconcile-HasDefaults :
      (s s' : State S X)
      → reconcile e s ≡ (s', ok tt)
      → (misplaced e s ≡ false)
        × (s'.old_resource_removed ≡ true)
        × ((y : X) × Cleaned s y)
        × ((domain : String) × (fetch_cluster_host e s.cluster ≡ ok domain)
            × HasDefaults s s' domain)
  unfolding reconcile
  reconcile-HasDefaults s s' h = elim (Bool-cases (misplaced e s)) [
    | inl wrong ↦ cc (rw wrong at h)
    | inr right ↦
        let (removed, cleaned, defaults) = placed-eq-ok s s' (rw right at h) in
        (right, removed, cleaned, defaults)
  ]
