-- ===== src/Eventing/Laws.antt =====
-- What Reconcile of a KnativeEventing leaves.
use serverless_operator.Common.{
  String, ◌≡◌, refl, sym, ap, ◌∙◌, ◌==◌, ◌&&◌, not, if◌then◌else◌, Option, none, some, false, List,
  [], ◌∷◌, ◌++◌, lookup_or, ok, Bool-cases, inl, inr,
}
use serverless_operator.Config.{ConfigMapData, config_value}
use serverless_operator.Config.Memory.{limit_of}
use serverless_operator.Monitoring.{reconcile_monitoring}
use serverless_operator.Serving.Defaults.Fields.{
  value_or, or_two_replicas_lem, HasMemoryLimit, memory_limit_lem,
}
use serverless_operator.Serving.Extension.Laws.{unmonitored, reconcile_monitoring-other}
use serverless_operator.Istio.{
  WorkloadOverride, is_enabled, scale_istio_controller, found_controller,
}
use serverless_operator.Istio.Laws.{
  or_else, new_override, find_override, find_override-scale_istio_controller,
}
use serverless_operator.Eventing.{
  EventingSpec, State, EventingExtension, workload_overrides, append_workload, istio_replicas,
  filled, eventing_defaulted, reconcile_monitoring_for_eventing, eventing_misplaced,
  reconcile_eventing_extension,
}

++-assoc : {A : Type 0} (xs ys zs : List A) → xs ++ (ys ++ zs) ≡ (xs ++ ys) ++ zs
++-assoc [] ys zs = refl
++-assoc (x ∷ xs) ys zs = ap (λ l. x ∷ l) (++-assoc xs ys zs)

append_workload-overrides :
    {O : Type 0} (spec : EventingSpec O) (w : WorkloadOverride O)
    → workload_overrides (append_workload spec w) ≡ workload_overrides spec ++ (w ∷ [])
append_workload-overrides spec w = ++-assoc spec.deployments spec.workloads (w ∷ [])

module _ {S O R U X : Type 0} (e : EventingExtension S O R U X) where
  -- What is filled in, but for the overrides: the images, a memory limit, the replicas and the mode.
  abbrev pub IsFilled : EventingSpec O → EventingSpec O → Type 0
  IsFilled spec spec' =
      (spec'.registry_override ≡ e.images)
      × (spec'.registry_default ≡ lookup_or "" "default" e.images)
      × HasMemoryLimit "eventing-webhook" "1024Mi" spec.resources spec'.resources
      × (spec'.high_availability ≡ some (value_or (some 2) spec.high_availability))
      × (spec'.sink_binding_selection_mode ≡ (
          if spec.sink_binding_selection_mode == ""
          then "inclusion"
          else spec.sink_binding_selection_mode))

  -- The override of a name where the user has none.
  abbrev pub default_override : ConfigMapData → String → Option (WorkloadOverride O)
  default_override config name =
      if "eventing-istio-controller" == name
      then some (record {
        name = "eventing-istio-controller";
        replicas = some (if is_enabled e.equal_fold config then 1 else 0);
        others = e.unset;
      })
      else none

  istio_replicas_lem :
      (config : ConfigMapData)
      → istio_replicas e config ≡ (if is_enabled e.equal_fold config then 1 else 0)
  unfolding istio_replicas
  istio_replicas_lem config = elim (Bool-cases (is_enabled e.equal_fold config)) [
    | inl enabled ↦ rw enabled refl
    | inr disabled ↦ rw disabled refl
  ]

  eventing_defaulted-IsFilled :
      (spec : EventingSpec O)
      → IsFilled spec (eventing_defaulted e spec)
        × ((eventing_defaulted e spec).config ≡ spec.config)
  unfolding eventing_defaulted scale_istio_controller found_controller lookup_or filled
  eventing_defaulted-IsFilled spec =
      let limits = memory_limit_lem "eventing-webhook" "1024Mi" spec.resources in
      let replicas = or_two_replicas_lem spec.high_availability in
      elim (Bool-cases (found_controller (workload_overrides spec) false)) [
        | inl found ↦ rw found ((refl, refl, limits, replicas, refl), refl)
        | inr new ↦ rw new ((refl, refl, limits, replicas, refl), refl)
      ]

  eventing_defaulted-overrides :
      (spec : EventingSpec O) (name : String)
      → find_override name (workload_overrides (eventing_defaulted e spec))
        ≡ or_else (find_override name (workload_overrides spec)) (default_override spec.config name)
  unfolding eventing_defaulted filled
  eventing_defaulted-overrides spec name =
      find_override-scale_istio_controller workload_overrides append_workload e.unset
        append_workload-overrides (filled e spec) (istio_replicas e spec.config) name
      ∙ ap
          (λ replicas.
            or_else (find_override name (workload_overrides spec))
              (new_override e.unset replicas name))
          (istio_replicas_lem spec.config)

  monitored-spec :
      (s s' : State S O X) (spec : EventingSpec O)
      → reconcile_monitoring_for_eventing e (record s { object = record s.object { spec = spec } })
        ≡ (s', ok tt)
      → (s'.object.spec ≡ record spec { config = s'.object.spec.config })
        × (s'.object.spec.config
            ≡ (reconcile_monitoring e.namespaces e.equal_fold e.monitoring_env s.object.namespace
                spec.config s.cluster).0)
  unfolding reconcile_monitoring_for_eventing
  monitored-spec s s' spec h =
      let reached = ap (λ r. r.0.object.spec) h in
      let config_reached = ap (λ spec. spec.config) reached in
      (sym reached ∙ ap (λ c. record spec { config = c }) config_reached, sym config_reached)

  -- A Reconcile without an error is one of a KnativeEventing in the namespace that is required, if one is.
  -- Its images are those of the environment; the memory limit of "eventing-webhook" is the user's, and
  -- otherwise "1024Mi", and no other limit changes; the number of replicas and the mode of SinkBindings
  -- are the user's, and otherwise two and "inclusion"; the first override of every workload is the user's,
  -- and "eventing-istio-controller" has one, by default with one replica if Istio is enabled and none
  -- otherwise; the configuration is the user's, but for the export of metrics.
  pub reconcile_eventing_extension_lem :
      (s s' : State S O X)
      → reconcile_eventing_extension e s ≡ (s', ok tt)
      → ((not (e.required_ns == "") && not (s.object.namespace == e.required_ns)) ≡ false)
        × IsFilled s.object.spec s'.object.spec
        × ((name : String)
            → find_override name (workload_overrides s'.object.spec)
              ≡ or_else
                  (find_override name (workload_overrides s.object.spec))
                  (default_override s.object.spec.config name))
        × ((cm key : String)
            → unmonitored cm key ≡ false
            → config_value s'.object.spec.config cm key ≡ config_value s.object.spec.config cm key)
  unfolding reconcile_eventing_extension
  reconcile_eventing_extension_lem s s' h = elim (Bool-cases (eventing_misplaced e s)) [
    | inl wrong ↦ cc (rw wrong at h)
    | inr right ↦
        let spec = eventing_defaulted e s.object.spec in
        let (left, config) = monitored-spec s s' spec (rw right at h) in
        let ((override, default, limits, replicas, mode), kept) =
          eventing_defaulted-IsFilled s.object.spec in
        (
          right,
          (
            ap (λ p. p.registry_override) left ∙ override,
            ap (λ p. p.registry_default) left ∙ default,
            λ c resource. ap (λ p. limit_of p.resources c resource) left ∙ limits c resource,
            ap (λ p. p.high_availability) left ∙ replicas,
            ap (λ p. p.sink_binding_selection_mode) left ∙ mode,
          ),
          λ name.
              ap (λ p. find_override name (workload_overrides p)) left
              ∙ eventing_defaulted-overrides s.object.spec name,
          λ cm key other.
              ap (λ c. config_value c cm key) config
              ∙ reconcile_monitoring-other e.namespaces e.equal_fold e.monitoring_env
                  s.object.namespace spec.config s.cluster cm key other
              ∙ ap (λ c. config_value c cm key) kept,
        )
  ]
