-- ===== src/Sources/ClusterMonitoring/Laws.antt =====
-- The label of a namespace after cluster monitoring is set up or removed.
use serverless_operator.Common.{
  String, ◌≡◌, refl, sym, ap, ◌∙◌, Bool, true, false, ◌==◌, Option, none, some, List, Dict, Result,
  ok, err, Error, Bool-cases, Result-cases, inl, inr, lookup_or,
}
use serverless_operator.Common.Run.{Run, ◌>>=◌, after-eq-ok, lift}
use serverless_operator.Monitoring.{
  IsApi, format_bool, wrap, label_namespace, reconcile_monitoring_label_on_namespace,
}
use serverless_operator.Monitoring.Laws.{
  IsLabelled, reconcile_monitoring_label_on_namespace-IsLabelled,
}
use serverless_operator.Sources.ClusterMonitoring.{
  SourceLibrary, of_update, add_label, add_cluster_monitoring_label_to_namespace,
  get_manifest_for_prometheus_role_and_rolebinding, create_prometheus_role_and_role_binding,
  delete_prometheus_role_and_role_binding, setup_cluster_monitoring_requirements,
  remove_cluster_monitoring_requirements,
}

abbrev pub succeeded : Result Error (Unit {0}) → Bool
succeeded (ok _) = true
succeeded (err e) = false

abbrev pub no_error : Option String → Bool
no_error none = true
no_error (some e) = false

-- Two runs of one call leave the same, and fail together.
abbrev pub SameOutcome : {X : Type 0} → X × Result Error (Unit {0}) → X × Option String → Type 0
SameOutcome r o = (r.0 ≡ o.0) × (succeeded r.1 ≡ no_error o.1)

of_update-SameOutcome :
    {X : Type 0} (prefix prefix' : String) (r : X × Option String)
    → SameOutcome (of_update prefix r) (wrap prefix' r)
of_update-SameOutcome prefix prefix' (x, none) = (refl, refl)
of_update-SameOutcome prefix prefix' (x, some e) = (refl, refl)

succeeded-eq-ok :
    {X : Type 0} (r : X × Result Error (Unit {0})) (o : X × Option String) (x : X)
    → SameOutcome r o
    → r ≡ (x, ok tt)
    → o ≡ (x, none)
succeeded-eq-ok (y, ok _) (z, none) x (same, both) h =
    ap (λ w. (w, none)) (sym same ∙ ap (λ r. r.0) h)
succeeded-eq-ok (y, ok _) (z, some e) x (same, both) h = cc both
succeeded-eq-ok (y, err e) (z, o) x same h = cc h

module _ {R U O X : Type 0} (library : SourceLibrary R U O X) where
  -- The two operators label a namespace in the same way: the cluster that they leave is the same, and one
  -- fails if and only if the other does.
  pub add_cluster_monitoring_label_to_namespace_lem :
      (ns : String) (value : Bool) (x : X)
      → SameOutcome
          (add_cluster_monitoring_label_to_namespace library ns value x)
          (reconcile_monitoring_label_on_namespace library.namespaces ns value x)
  unfolding add_cluster_monitoring_label_to_namespace reconcile_monitoring_label_on_namespace
      add_label label_namespace
  add_cluster_monitoring_label_to_namespace_lem ns value x =
      elim (Result-cases (library.namespaces.get ns x)) [
        | inr (e, g) ↦
            rw
              (
                g, add_cluster_monitoring_label_to_namespace,
                reconcile_monitoring_label_on_namespace,
              )
              (refl, refl)
        | inl (n, g) ↦
            rw
              (
                g, add_cluster_monitoring_label_to_namespace,
                reconcile_monitoring_label_on_namespace,
              )
              (elim (Bool-cases
                (lookup_or "" "openshift.io/cluster-monitoring" n.labels == format_bool value)) [
                  | inl there ↦ rw (there, add_label, label_namespace) (refl, refl)
                  | inr new ↦ rw (new, add_label, label_namespace) (of_update-SameOutcome _ _ _)
                ])
      ]

-- What the documentation of the API and of the manifest library promises: a manifest of roles, role
-- bindings, Services and monitors that is applied or deleted leaves the namespaces as they are.
pub record IsSourceLibrary {R U O X : Type 0} (library : SourceLibrary R U O X) : Type 0 where
  pub api : IsApi library.namespaces
  pub applied :
      (m : List U) (x x' : X) (ns : String)
      → library.apply m x ≡ (x', ok tt)
      → library.namespaces.get ns x' ≡ library.namespaces.get ns x
  pub deleted :
      (m : List U) (x x' : X) (ns : String)
      → library.delete m x ≡ (x', ok tt)
      → library.namespaces.get ns x' ≡ library.namespaces.get ns x

module _ {R U O X : Type 0} (library : SourceLibrary R U O X) (law : IsSourceLibrary library) where
  abbrev pub Labelled : String → Bool → X → Type 0
  Labelled ns enable x = IsLabelled library.namespaces law.api ns enable x

  -- A run that leaves the namespaces as they are, if it does not fail.
  abbrev pub KeepsNamespaces : Run X (Unit {0}) → Type 0
  KeepsNamespaces m =
      (x x' : X) (ns : String)
      → m x ≡ (x', ok tt)
      → library.namespaces.get ns x' ≡ library.namespaces.get ns x

  pub lifted-KeepsNamespaces :
      (r : Result Error (List U)) (m : List U → Run X (Unit {0}))
      → ((l : List U) → KeepsNamespaces (m l))
      → KeepsNamespaces (lift r >>= m)
  lifted-KeepsNamespaces (ok l) m kept x x' ns h = kept l x x' ns h
  lifted-KeepsNamespaces (err e) m kept x x' ns h = cc h

  pub kept-Labelled :
      (m : Run X (Unit {0})) (ns : String) (enable : Bool) (x x' : X)
      → KeepsNamespaces m
      → Labelled ns enable x
      → m x ≡ (x', ok tt)
      → Labelled ns enable x'
  kept-Labelled m ns enable x x' kept (n, got, label) h = (n, kept x x' ns h ∙ got, label)

  add_label-Labelled :
      (ns : String) (value : Bool) (x x' : X)
      → add_cluster_monitoring_label_to_namespace library ns value x ≡ (x', ok tt)
      → Labelled ns value x'
  add_label-Labelled ns value x x' h =
      reconcile_monitoring_label_on_namespace-IsLabelled library.namespaces law.api ns value x x' (
        succeeded-eq-ok _ _ x' (add_cluster_monitoring_label_to_namespace_lem library ns value x) h)

  pub setup-Labelled :
      (owner : Option O) (ns : String) (labels : Dict String) (x x' : X)
      → setup_cluster_monitoring_requirements library owner ns labels x ≡ (x', ok tt)
      → Labelled ns true x'
  unfolding setup_cluster_monitoring_requirements create_prometheus_role_and_role_binding
  setup-Labelled owner ns labels x x' h =
      let (y, _, added, rest) =
        after-eq-ok (add_cluster_monitoring_label_to_namespace library ns true x) _ h in
      kept-Labelled (create_prometheus_role_and_role_binding library owner ns labels) ns true y x'
        (lifted-KeepsNamespaces
          (get_manifest_for_prometheus_role_and_rolebinding library owner ns labels) library.apply
          law.applied)
        (add_label-Labelled ns true x y added) rest

  pub remove-Labelled :
      (owner : Option O) (ns : String) (labels : Dict String) (x x' : X)
      → remove_cluster_monitoring_requirements library owner ns labels x ≡ (x', ok tt)
      → Labelled ns false x'
  unfolding remove_cluster_monitoring_requirements delete_prometheus_role_and_role_binding
  remove-Labelled owner ns labels x x' h =
      let (y, _, added, rest) =
        after-eq-ok (add_cluster_monitoring_label_to_namespace library ns false x) _ h in
      kept-Labelled (delete_prometheus_role_and_role_binding library owner ns labels) ns false y x'
        (lifted-KeepsNamespaces
          (get_manifest_for_prometheus_role_and_rolebinding library owner ns labels) library.delete
          law.deleted)
        (add_label-Labelled ns false x y added) rest
