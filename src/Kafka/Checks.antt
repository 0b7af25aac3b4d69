-- ===== src/Kafka/Checks.antt =====
-- What the checks of the Deployments and the StatefulSets leave in the status.
use serverless_operator.Common.{
  ◌≡◌, ◌≢◌, refl, ap, ◌∙◌, sym, subst, ◌==◌, Bool, true, false, ◌&&◌, none, List, [], ◌∷◌, select,
  all, Result, ok, err,
}
use serverless_operator.Kafka.Spec.{
  KnativeKafka, KnativeKafkaStatus, IsConditionSet, ConditionType, deployments_available,
  stateful_sets_available, install_succeeded, ConditionStatus, true_status, false_status, is_true,
  is_ready, mark_deployments_available, mark_deployments_not_ready, mark_stateful_sets_available,
  mark_stateful_set_not_ready,
}
use serverless_operator.Kafka.Client.{
  Client, Error, Answer, found, not_found, failed, State, Outcome,
}
use serverless_operator.Kafka.Stages.{
  after_conversion, after_get, check_each, check_deployments, check_stateful_sets, with_status,
  deployment_is_available, stateful_set_is_available,
}

abbrev pub status_of_bool : Bool → ConditionStatus
status_of_bool true = true_status
status_of_bool false = false_status

pub and_false : (a b : Bool) → (a && false && b) ≡ false
and_false true b = refl
and_false false b = refl

pub and_three :
    (a b c : ConditionStatus) (p q : Bool)
    → a ≡ status_of_bool p
    → b ≡ status_of_bool q
    → c ≡ true_status
    → (is_true a && is_true b && is_true c) ≡ (p && q)
and_three a b c true true h k l = rw (h, k, l) refl
and_three a b c true false h k l = rw (h, k) refl
and_three a b c false q h k l = rw h refl

module _ {U S X : Type 0} (client : Client U S X) (law : IsConditionSet client.condition_set) where
  abbrev pub condition : KnativeKafka S → ConditionType → ConditionStatus
  condition instance c = client.condition_set.status_of instance.status.conditions c

  abbrev pub all_true : KnativeKafka S → Bool
  all_true instance =
      is_true (condition instance deployments_available)
      && is_true (condition instance stateful_sets_available)
      && is_true (condition instance install_succeeded)

  abbrev ok_true : Result Error Bool → Bool
  ok_true (err e) = false
  ok_true (ok b) = b

  abbrev answer_up : (U → Result Error Bool) → Answer U → Bool
  answer_up is_available (not_found e) = false
  answer_up is_available (failed e) = false
  answer_up is_available (found resource) = ok_true (is_available resource)

  -- The resource is in the cluster and is available.
  abbrev pub is_up : (U → Result Error Bool) → X → U → Bool
  is_up is_available x u = answer_up is_available (client.get_resource u x)

  -- What a check leaves: the status of its condition, and everything else as it was.
  abbrev pub IsChecked : ConditionType → State U S X → State U S X → Bool → Type 0
  IsChecked c st st' up =
      (st'.manifest ≡ st.manifest)
      × (st'.cluster ≡ st.cluster)
      × (condition st'.instance c ≡ status_of_bool up)
      × ((d : ConditionType) → c ≢ d → condition st'.instance d ≡ condition st.instance d)
      × (is_ready client.condition_set st'.instance.status ≡ all_true st'.instance)

  module _ (c : ConditionType) (available not_ready : KnativeKafkaStatus S → KnativeKafkaStatus S)
      (marks : (st : State U S X) → IsChecked c st (with_status client available st) true)
      (unmarks : (st : State U S X) → IsChecked c st (with_status client not_ready st) false)
      (is_available : U → Result Error Bool) where
    after_conversion-IsChecked :
        (r : Result Error Bool) (st st' : State U S X) (rest : Outcome (State U S X)) (up : Bool)
        → ((next : State U S X) → rest ≡ (next, none) → IsChecked c st next up)
        → after_conversion client not_ready r st rest ≡ (st', none)
        → IsChecked c st st' (ok_true r && up)
    unfolding after_conversion
    after_conversion-IsChecked (err e) st st' rest up k h = cc h
    after_conversion-IsChecked (ok true) st st' rest up k h = k st' h
    after_conversion-IsChecked (ok false) st st' rest up k h =
        subst (λ r. IsChecked c st r false) (ap (λ r. r.0) h) (unmarks st)

    after_get-IsChecked :
        (a : Answer U) (st st' : State U S X) (rest : Outcome (State U S X)) (up : Bool)
        → ((next : State U S X) → rest ≡ (next, none) → IsChecked c st next up)
        → after_get client not_ready is_available a st rest ≡ (st', none)
        → IsChecked c st st' (answer_up is_available a && up)
    unfolding after_get
    after_get-IsChecked (not_found e) st st' rest up k h =
        subst (λ r. IsChecked c st r false) (ap (λ r. r.0) h) (unmarks st)
    after_get-IsChecked (failed e) st st' rest up k h = cc h
    after_get-IsChecked (found resource) st st' rest up k h =
        after_conversion-IsChecked (is_available resource) st st' rest up k h

    check_each-IsChecked :
        (us : List U) (st st' : State U S X)
        → check_each client available not_ready is_available us st ≡ (st', none)
        → IsChecked c st st' (all (is_up is_available st.cluster) us)
    unfolding check_each
    check_each-IsChecked [] st st' h =
        subst (λ r. IsChecked c st r true) (ap (λ r. r.0) h) (marks st)
    check_each-IsChecked (u ∷ us) st st' h =
        after_get-IsChecked (client.get_resource u st.cluster) st st' _
          (all (is_up is_available st.cluster) us) (λ next. check_each-IsChecked us st next) h

  -- The Deployments and the StatefulSets of a manifest are all in the cluster and available.
  abbrev pub all_deployments_up : List U → X → Bool
  all_deployments_up manifest x =
      all (is_up (deployment_is_available client) x)
        (select (λ u. client.kind u == "Deployment") manifest)

  abbrev pub all_stateful_sets_up : List U → X → Bool
  all_stateful_sets_up manifest x =
      all (is_up (stateful_set_is_available client) x)
        (select (λ u. client.kind u == "StatefulSet") manifest)

  pub check_deployments-IsChecked :
      (st st' : State U S X)
      → check_deployments client st ≡ (st', none)
      → IsChecked deployments_available st st' (all_deployments_up st.manifest st.cluster)
  unfolding check_deployments mark_deployments_available mark_deployments_not_ready is_ready
  check_deployments-IsChecked st st' h =
      check_each-IsChecked deployments_available _ _
        (λ s. (
          refl,
          refl,
          law.marked_true _ _,
          (λ d ne. law.marked_true_other _ d _ ne),
          law.happy_true _ _,
        ))
        (λ s. (
          refl,
          refl,
          law.marked_false _ _ _ _,
          (λ d ne. law.marked_false_other _ d _ _ _ ne),
          rw (law.marked_false deployments_available _ _ _) (law.happy_false _ _ _ _),
        ))
        _ _ st st' h

  abbrev unset : State U S X → ConditionType → ConditionStatus
  unfolding mark_stateful_set_not_ready
  unset st c =
      condition (with_status client (mark_stateful_set_not_ready client.condition_set) st).instance
        c

  pub check_stateful_sets-IsChecked :
      (st st' : State U S X)
      → check_stateful_sets client st ≡ (st', none)
      → IsChecked stateful_sets_available st st' (all_stateful_sets_up st.manifest st.cluster)
  unfolding check_stateful_sets mark_stateful_sets_available mark_stateful_set_not_ready is_ready
  check_stateful_sets-IsChecked st st' h =
      check_each-IsChecked stateful_sets_available _ _
        (λ s. (
          refl,
          refl,
          law.marked_true _ _,
          (λ d ne. law.marked_true_other _ d _ ne),
          law.happy_true _ _,
        ))
        (λ s. (
          refl,
          refl,
          law.marked_false _ _ _ _,
          (λ d ne. law.marked_false_other _ d _ _ _ ne),
          rw (law.marked_false stateful_sets_available _ _ _) (
              law.happy_false _ _ _ _
              ∙ sym (
                  and_false (is_true (unset s deployments_available))
                    (is_true (unset s install_succeeded)))),
        ))
        _ _ st st' h
