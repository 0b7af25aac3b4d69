-- ===== src/Kafka/Apply.antt =====
-- The stages of knativekafka_controller.go and eventing_tls.go that install and delete resources.
use serverless_operator.Common.{
  String, ◌==◌, Bool, true, false, ◌||◌, not, none, some, List, [], ◌∷◌, if◌then◌else◌, Dict,
  lookup, Result, ok, err, select,
}
use serverless_operator.Kafka.Spec.{KnativeKafka, mark_install_failed, mark_install_succeeded}
use serverless_operator.Kafka.Client.{
  Client, Error, wrap, found, not_found, failed, State, Outcome, continue, wrapping, Stage,
}

module _ {U S X : Type 0} (client : Client U S X) where
  abbrev pub role : U → Bool
  role u = client.kind u == "ClusterRole" || client.kind u == "Role"

  abbrev pub rolebinding : U → Bool
  rolebinding u = client.kind u == "ClusterRoleBinding" || client.kind u == "RoleBinding"

  abbrev pub role_or_role_binding : U → Bool
  role_or_role_binding u = role u || rolebinding u

  -- Where Apply fails, the instance is marked.
  unfoldable pub after_apply : String → State U S X → Outcome X → Outcome (State U S X)
  unfolding mark_install_failed
  after_apply prefix st (x, none) = (record st { cluster = x }, none)
  after_apply prefix st (x, some e) = (
    record st {
      cluster = x;
      instance = record (st.instance) {
        status = mark_install_failed client.condition_set e.message st.instance.status;
      };
    },
    some (wrap prefix e),
  )

  unfoldable pub apply_part : String → List U → Stage U S X
  unfolding after_apply
  apply_part prefix part st = after_apply prefix st (client.apply part st.cluster)

  unfoldable pub mark_installed : KnativeKafka S → KnativeKafka S
  unfolding mark_install_succeeded
  mark_installed instance = record instance {
    status = record (mark_install_succeeded client.condition_set instance.status) {
      version = client.broker_version;
    };
  }

  -- what is left of apply after the bindings
  unfoldable pub apply_rest : Stage U S X
  unfolding apply_part mark_installed
  apply_rest st =
      continue
        (apply_part "failed to apply non rbac manifest: "
          (select (λ u. not (role_or_role_binding u)) st.manifest) st)
        (λ st'. (record st' { instance = mark_installed st'.instance }, none))

  -- what is left of apply after the roles
  unfoldable pub apply_bindings : Stage U S X
  unfolding apply_part
  apply_bindings st =
      continue
        (apply_part "failed to apply (cluster)rolebindings in manifest: "
          (select rolebinding st.manifest) st)
        apply_rest

  unfoldable pub apply : Stage U S X
  unfolding apply_part
  apply st =
      continue
        (apply_part "failed to apply (cluster)roles in manifest: " (select role st.manifest) st)
        apply_bindings

  abbrev pub tls_resources_pred : U → Bool
  tls_resources_pred u = client.group u == "cert-manager.io"

  -- err != nil && !isNoMatchError(err)
  abbrev pub ignoring_no_match : {A : Type 0} → Outcome A → Outcome A
  ignoring_no_match (a, none) = (a, none)
  ignoring_no_match (a, some e) = if e.no_match then (a, none) else (a, some e)

  unfoldable pub features_enabled : Dict String → Result Error Bool
  unfolding lookup
  features_enabled features = elim (lookup "transport-encryption" features) [
    | none ↦ ok false
    | some te ↦ elim (client.transport_encryption te) [
      | ok enabled ↦ ok enabled
      | err e ↦ err (wrap "failed to build feature flags from ConfigMap: " e)
    ]
  ]

  unfoldable pub is_tls_enabled : KnativeKafka S → X → Result Error Bool
  is_tls_enabled instance x = elim (client.config_features instance.namespace x) [
    | found features ↦ features_enabled features
    | not_found e ↦ err (wrap "failed to get ConfigMap: " e)
    | failed e ↦ err (wrap "failed to get ConfigMap: " e)
  ]

  -- the filter of the manifest at the end of handleTLSResources
  abbrev pub without_tls : State U S X → State U S X
  without_tls st = record st { manifest = select (λ u. not (tls_resources_pred u)) st.manifest }

  abbrev pub in_cluster : State U S X → Outcome X → Outcome (State U S X)
  in_cluster st (x, e) = (record st { cluster = x }, e)

  unfoldable pub handle_tls_resources : Stage U S X
  handle_tls_resources st = elim (is_tls_enabled st.instance st.cluster) [
    | err e ↦ (st, some e)
    | ok true ↦ (st, none)
    | ok false ↦
        continue
          (wrapping "failed to delete TLS resources: " (
            in_cluster st (
              ignoring_no_match
                (client.delete (select tls_resources_pred st.manifest) st.cluster))))
          (λ st'. (without_tls st', none))
  ]

  unfoldable pub delete_resources : Stage U S X
  delete_resources st = elim st.manifest [
    | [] ↦ (st, none)
    | _ ∷ _ ↦
        continue
          (wrapping "failed to remove resources: " (
            in_cluster st
              (client.uninstall (select (λ u. not (tls_resources_pred u)) st.manifest) st.cluster)))
          (λ st'. wrapping "failed to remove optional resources: " (
            in_cluster st' (
              ignoring_no_match
                (client.uninstall (select tls_resources_pred st'.manifest) st'.cluster))))
  ]
