-- ===== src/Kafka/Readiness.antt =====
-- When a KnativeKafka is ready after an installation.
use serverless_operator.Common.{◌≡◌, refl, ap, ◌∙◌, subst, ◌&&◌, none, List, [], ◌∷◌}
use serverless_operator.Kafka.Spec.{
  IsConditionSet, deployments_available, stateful_sets_available, install_succeeded, true_status,
  is_ready, mark_install_succeeded,
}
use serverless_operator.Kafka.Client.{Client, State, continue-eq-none, continue-last, Stage}
use serverless_operator.Kafka.Apply.{apply, apply_bindings, apply_rest, apply_part, mark_installed}
use serverless_operator.Kafka.Stages.{execute_stages}
use serverless_operator.Kafka.Controller.{install_stages, stages_after_finalizers}
use serverless_operator.Kafka.Checks.{
  and_three, condition, IsChecked, all_deployments_up, all_stateful_sets_up,
  check_deployments-IsChecked, check_stateful_sets-IsChecked,
}

module _ {U S X : Type 0} (client : Client U S X) (law : IsConditionSet client.condition_set) where
  execute_stages-eq-none :
      (stage : Stage U S X) (stages : List (Stage U S X)) (st st' : State U S X)
      → execute_stages client (stage ∷ stages) st ≡ (st', none)
      → (mid : State U S X) × (stage st ≡ (mid, none))
        × (execute_stages client stages mid ≡ (st', none))
  unfolding execute_stages
  execute_stages-eq-none stage stages st st' h = continue-eq-none (stage st) _ h

  abbrev IsInstalled : State U S X → Type 0
  IsInstalled st = condition client law st.instance install_succeeded ≡ true_status

  apply_rest-IsInstalled :
      (st st' : State U S X) → apply_rest client st ≡ (st', none) → IsInstalled st'
  unfolding apply_rest mark_installed mark_install_succeeded
  apply_rest-IsInstalled st st' h =
      continue-last IsInstalled (apply_part client _ _ st) _
        (λ a e. subst (λ r. IsInstalled r.0) e (law.marked_true install_succeeded _)) h

  apply-IsInstalled : (st st' : State U S X) → apply client st ≡ (st', none) → IsInstalled st'
  unfolding apply apply_bindings
  apply-IsInstalled st st' h =
      continue-last IsInstalled (apply_part client _ _ st) (apply_bindings client)
        (λ a e.
          continue-last IsInstalled (apply_part client _ _ a) (apply_rest client)
            (λ b f. apply_rest-IsInstalled b st' f) e)
        h

  abbrev IsReady : State U S X → Type 0
  IsReady s = is_ready client.condition_set s.instance.status ≡ (
      all_deployments_up client law s.manifest s.cluster
      && all_stateful_sets_up client law s.manifest s.cluster)

  checked-IsReady :
      (s₀ s₁ s₂ : State U S X)
      → condition client law s₀.instance install_succeeded ≡ true_status
      → IsChecked client law deployments_available s₀ s₁
          (all_deployments_up client law s₀.manifest s₀.cluster)
      → IsChecked client law stateful_sets_available s₁ s₂
          (all_stateful_sets_up client law s₁.manifest s₁.cluster)
      → IsReady s₂
  checked-IsReady s₀ s₁ s₂ i (m₁, x₁, d₁, o₁, _) (m₂, x₂, d₂, o₂, r₂) =
      let up : all_deployments_up client law s₂.manifest s₂.cluster
          ≡ all_deployments_up client law s₀.manifest s₀.cluster =
        rw (m₂, x₂, m₁, x₁) refl in
      let up' : all_stateful_sets_up client law s₂.manifest s₂.cluster
          ≡ all_stateful_sets_up client law s₁.manifest s₁.cluster =
        rw (m₂, x₂) refl in
      rw (up, up')
        (r₂
          ∙ and_three _ _ _ _ _ (o₂ deployments_available (λ e. cc e) ∙ d₁) d₂
              (o₂ install_succeeded (λ e. cc e) ∙ o₁ install_succeeded (λ e. cc e) ∙ i))

  execute_stages-nil : (st st' : State U S X) → execute_stages client [] st ≡ (st', none) → st ≡ st'
  unfolding execute_stages
  execute_stages-nil st st' h = ap (λ r. r.0) h

  -- After an installation without an error the instance is ready exactly when every Deployment and
  -- every StatefulSet of the installed manifest is in the cluster and available.
  pub install_stages-is_ready :
      (st st' : State U S X)
      → execute_stages client (install_stages client) st ≡ (st', none)
      → is_ready client.condition_set st'.instance.status ≡ (
          all_deployments_up client law st'.manifest st'.cluster
          && all_stateful_sets_up client law st'.manifest st'.cluster)
  unfolding install_stages stages_after_finalizers
  install_stages-is_ready st st' h =
      let (_, _, h₁) = execute_stages-eq-none _ _ _ _ h in
      let (_, _, h₂) = execute_stages-eq-none _ _ _ _ h₁ in
      let (_, _, h₃) = execute_stages-eq-none _ _ _ _ h₂ in
      let (_, _, h₄) = execute_stages-eq-none _ _ _ _ h₃ in
      let (before, _, h₅) = execute_stages-eq-none _ _ _ _ h₄ in
      let (applied, applies, h₆) = execute_stages-eq-none _ _ _ _ h₅ in
      let (middle, checks, h₇) = execute_stages-eq-none _ _ _ _ h₆ in
      let (last, checks', h₈) = execute_stages-eq-none _ _ _ _ h₇ in
      subst (λ s. IsReady s) (execute_stages-nil last st' h₈)
        (checked-IsReady applied middle last (apply-IsInstalled before applied applies)
          (check_deployments-IsChecked client law applied middle checks)
          (check_stateful_sets-IsChecked client law middle last checks'))
