-- ===== src/Sources/Laws.antt =====
-- What Reconcile leaves of a source, and what it does when the source is deleted.
use serverless_operator.Common.{
  String, ◌≡◌, refl, sym, ap, Bool, true, false, ◌&&◌, ◌==◌, none, some, Option-cases, found,
  not_found, ok, err, Error, Bool-cases, Result-cases, inl, inr,
}
use serverless_operator.Common.Run.{after-eq-ok}
use serverless_operator.Config.{ConfigMapData}
use serverless_operator.Monitoring.{should_enable_monitoring}
use serverless_operator.Serving.{parse_bool}
use serverless_operator.Sources.ClusterMonitoring.{
  remove_cluster_monitoring_requirements, add_cluster_monitoring_label_to_namespace,
}
use serverless_operator.Sources.ClusterMonitoring.Laws.{
  IsSourceLibrary, Labelled, KeepsNamespaces, lifted-KeepsNamespaces, kept-Labelled, setup-Labelled,
  remove-Labelled,
}
use serverless_operator.Sources.Monitors.{
  SourceDeployment, source_service_monitor_manifest, setup_source_service_monitor_resources,
  remove_source_service_monitor_resources,
}
use serverless_operator.Sources.{
  SourceClient, source_rbac_labels, set_cluster_monitoring, parsed_bool,
  should_use_cluster_monitoring_for_sources_by_default,
  should_generate_source_service_monitors_by_default, setup_cluster_monitoring_for_sources,
  generate_source_service_monitors, remove_relics, reconcile_with, on_deployment, reconcile,
}

module _ {R U X : Type 0} (client : SourceClient R U X) (law : IsSourceLibrary client.library) where
  setup-KeepsNamespaces :
      (dep : SourceDeployment)
      → KeepsNamespaces client.library law
          (setup_source_service_monitor_resources client.library dep)
  unfolding setup_source_service_monitor_resources
  setup-KeepsNamespaces dep =
      lifted-KeepsNamespaces client.library law (source_service_monitor_manifest client.library dep)
        client.library.apply law.applied

  remove-KeepsNamespaces :
      (dep : SourceDeployment)
      → KeepsNamespaces client.library law
          (remove_source_service_monitor_resources client.library dep)
  unfolding remove_source_service_monitor_resources
  remove-KeepsNamespaces dep =
      lifted-KeepsNamespaces client.library law (source_service_monitor_manifest client.library dep)
        client.library.delete law.deleted

  generate-KeepsNamespaces :
      (dep : SourceDeployment)
      → KeepsNamespaces client.library law (generate_source_service_monitors client dep)
  unfolding generate_source_service_monitors
  generate-KeepsNamespaces dep x x' ns h =
      elim (Result-cases (should_generate_source_service_monitors_by_default client)) [
        | inr (e, parsed) ↦ cc (rw parsed at h)
        | inl (true, parsed) ↦ setup-KeepsNamespaces dep x x' ns (rw parsed at h)
        | inl (false, parsed) ↦ elim (Bool-cases (dep.namespace == "knative-eventing")) [
          | inl e ↦ ap (λ r. client.library.namespaces.get ns r.0) (sym (rw (parsed, e) at h))
          | inr e ↦ remove-KeepsNamespaces dep x x' ns (rw (parsed, e) at h)
        ]
      ]

  set_cluster_monitoring-Labelled :
      (ns : String) (enable : Bool) (x x' : X)
      → (ns == "knative-eventing") ≡ false
      → set_cluster_monitoring client ns enable x ≡ (x', ok tt)
      → Labelled client.library law ns enable x'
  unfolding set_cluster_monitoring
  set_cluster_monitoring-Labelled ns true x x' user h =
      setup-Labelled client.library law none ns source_rbac_labels x x' h
  set_cluster_monitoring-Labelled ns false x x' user h =
      remove-Labelled client.library law none ns source_rbac_labels x x' (rw user at h)

  -- Whether the namespaces of sources are to be monitored.
  abbrev pub cluster_monitoring : ConfigMapData → Bool
  cluster_monitoring config =
      should_enable_monitoring client.equal_fold client.monitoring_env config
      && (elim (parse_bool (client.getenv "SOURCES_USE_CLUSTER_MONITORING")) [
        | some b ↦ b
        | none ↦ false
      ])

  setup_for_sources-Labelled :
      (ns : String) (x x' : X)
      → (ns == "knative-eventing") ≡ false
      → setup_cluster_monitoring_for_sources client ns x ≡ (x', ok tt)
      → (b : Bool) × (parse_bool (client.getenv "SOURCES_USE_CLUSTER_MONITORING") ≡ some b)
        × Labelled client.library law ns b x'
  unfolding setup_cluster_monitoring_for_sources
      should_use_cluster_monitoring_for_sources_by_default parsed_bool
  setup_for_sources-Labelled ns x x' user h =
      elim (Option-cases (parse_bool (client.getenv "SOURCES_USE_CLUSTER_MONITORING"))) [
        | inl none_parsed ↦ cc (rw none_parsed at h)
        | inr (b, parsed) ↦
            (b, parsed, set_cluster_monitoring-Labelled ns b x x' user (rw parsed at h))
      ]

  reconcile_with-Labelled :
      (dep : SourceDeployment) (config : ConfigMapData) (x x' : X)
      → (dep.namespace == "knative-eventing") ≡ false
      → reconcile_with client dep.namespace false dep config x ≡ (x', ok tt)
      → Labelled client.library law dep.namespace (cluster_monitoring config) x'
  unfolding reconcile_with remove_relics
  reconcile_with-Labelled dep config x x' user h =
      elim (Bool-cases (should_enable_monitoring client.equal_fold client.monitoring_env config)) [
        | inl on ↦
            let (y, _, labelled, rest) =
              after-eq-ok (setup_cluster_monitoring_for_sources client dep.namespace x) _
                (rw on at h) in
            let (b, parsed, label) = setup_for_sources-Labelled dep.namespace x y user labelled in
            rw (on, parsed)
              (kept-Labelled client.library law (generate_source_service_monitors client dep)
                dep.namespace b y x' (generate-KeepsNamespaces dep) label rest)
        | inr off ↦
            let (y, _, labelled, rest) =
              after-eq-ok
                (remove_cluster_monitoring_requirements client.library none dep.namespace
                  source_rbac_labels x)
                _ (rw (off, user) at h) in
            rw off (
              kept-Labelled client.library law
                (remove_source_service_monitor_resources client.library dep) dep.namespace false y
                x' (remove-KeepsNamespaces dep)
                (remove-Labelled client.library law none dep.namespace source_rbac_labels x y
                  labelled)
                rest)
      ]

  -- After a Reconcile without an error of a source that is there, in a namespace of a user, the namespace
  -- has the label for cluster monitoring that the configuration of the KnativeEventing and the environment
  -- ask for: "true" if both do and "false" otherwise. The library is lawful.
  pub reconcile-Labelled :
      (dep : SourceDeployment) (name : String) (x x' : X)
      → client.get_deployment dep.namespace name x ≡ found dep
      → (dep.namespace == "knative-eventing") ≡ false
      → reconcile client dep.namespace name x ≡ (x', ok tt)
      → (config : ConfigMapData) × (client.get_eventing_config x ≡ ok config)
        × Labelled client.library law dep.namespace (cluster_monitoring config) x'
  unfolding reconcile on_deployment
  reconcile-Labelled dep name x x' got user h = elim (Result-cases (client.get_eventing_config x)) [
    | inl (config, read) ↦
        (config, read, reconcile_with-Labelled dep config x x' user (rw (got, read) at h))
    | inr (e, unread) ↦ cc (rw (got, unread) at h)
  ]

module _ {R U X : Type 0} (client : SourceClient R U X) where
  remove-missing :
      (ns : String) (x : X) (missing : String)
      → client.library.namespaces.get ns x ≡ err missing
      → remove_cluster_monitoring_requirements client.library none ns source_rbac_labels x
        ≡ (x, err (record { message = missing; no_match = false }))
  unfolding remove_cluster_monitoring_requirements add_cluster_monitoring_label_to_namespace
  remove-missing ns x missing unnamed = rw (unnamed, add_cluster_monitoring_label_to_namespace) refl

  -- Reconcile of a source that is gone fails where monitoring is off: it looks for the namespace of the
  -- Deployment that it could not read, which is empty, and not for that of the request. The client has
  -- no namespace without a name.
  pub reconcile-deleted :
      (namespace name : String) (x : X) (e : Error) (config : ConfigMapData) (missing : String)
      → client.get_deployment namespace name x ≡ not_found e
      → client.get_eventing_config x ≡ ok config
      → should_enable_monitoring client.equal_fold client.monitoring_env config ≡ false
      → client.library.namespaces.get "" x ≡ err missing
      → reconcile client namespace name x
        ≡ (x, err (record { message = missing; no_match = false }))
  unfolding reconcile on_deployment reconcile_with remove_relics
  reconcile-deleted namespace name x e config missing gone read off unnamed =
      rw (gone, read, off, remove-missing "" x missing unnamed) refl
