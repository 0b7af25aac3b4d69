-- ===== src/Serving/Defaults/Budgets.antt =====
-- The overrides of disruption budgets after the defaults (poddisruptionbudget.go).
use serverless_operator.Common.{
  String, ◌≡◌, refl, sym, ap, ◌∙◌, Bool, true, false, ◌&&◌, ◌||◌, ◌==◌, not, List, [], ◌∷◌, ◌++◌,
  any, any-append, All, arith, eq_iff, some, Bool-cases, inl, inr, if◌then◌else◌,
}
use serverless_operator.Serving.Defaults.{
  PodDisruptionBudgetOverride, serving_pdb_names, has_override, append_budgets,
  default_to_one_as_pod_disruption_budget,
}

other_name :
    (b a o : Bool) → ((b || (false || false)) || (a && not o)) ≡ (b || ((false || a) && not o))
other_name true a o = refl
other_name false a o = refl

new_name :
    (b a : Bool) → ((b || (true || false)) || (a && not false)) ≡ (b || ((true || a) && not false))
new_name true a = refl
new_name false a = refl

old_name : (b a : Bool) → (b || (a && not true)) ≡ (b || ((true || a) && not true))
old_name b true = refl
old_name b false = refl

-- A name has an override after the loop if it had one, or is one of the names and the user gave none.
append_budgets-has_override :
    (names : List String) (overrides budgets : List PodDisruptionBudgetOverride) (name : String)
    → has_override (append_budgets names overrides budgets) name ≡ (
        has_override budgets name
        || (any (λ n. n == name) names && not (has_override overrides name)))
unfolding append_budgets
append_budgets-has_override [] overrides budgets name = ground arith
append_budgets-has_override (n ∷ names) overrides budgets name =
    append_budgets-has_override names overrides _ name ∙ step
  where
    step :
        (has_override
            (if has_override overrides n
              then budgets
              else budgets ++ (record { name = n; min_available = some 1 } ∷ []))
            name
          || (any (λ n. n == name) names && not (has_override overrides name)))
        ≡ (has_override budgets name
            || (any (λ n. n == name) (n ∷ names) && not (has_override overrides name)))
    step = elim (Bool-cases (n == name)) [
      | inr other ↦ elim (Bool-cases (has_override overrides n)) [
        | inl e ↦ rw (e, other) refl
        | inr e ↦ rw (e, any-append, other) (other_name _ _ _)
      ]
      | inl same ↦
          let here = ap (has_override overrides) ((eq_iff n name).0 same) in
          elim (Bool-cases (has_override overrides n)) [
            | inl e ↦ rw (e, same, sym here ∙ e) (old_name _ _)
            | inr e ↦ rw (e, any-append, same, sym here ∙ e) (new_name _ _)
          ]
    ]

append_budgets-All :
    (names : List String) (overrides budgets : List PodDisruptionBudgetOverride)
    → All (λ n. has_override overrides n ≡ true) names
    → append_budgets names overrides budgets ≡ budgets
unfolding append_budgets
append_budgets-All [] overrides budgets has = refl
append_budgets-All (n ∷ names) overrides budgets (h, has) =
    rw h (append_budgets-All names overrides budgets has)

-- After the defaults, the two budgets of Serving have an override, and the others have one if the user
-- gave one; to fill in the defaults again changes nothing.
default_to_one_as_pod_disruption_budget_lem :
    (budgets : List PodDisruptionBudgetOverride)
    → ((name : String)
        → has_override (default_to_one_as_pod_disruption_budget budgets) name
          ≡ (has_override budgets name || any (λ n. n == name) serving_pdb_names))
      × (default_to_one_as_pod_disruption_budget (default_to_one_as_pod_disruption_budget budgets)
          ≡ default_to_one_as_pod_disruption_budget budgets)
unfolding default_to_one_as_pod_disruption_budget
default_to_one_as_pod_disruption_budget_lem budgets =
    let filled = append_budgets serving_pdb_names budgets budgets in
    let has : (name : String)
        → has_override filled name
          ≡ (has_override budgets name || any (λ n. n == name) serving_pdb_names) =
      (λ name. append_budgets-has_override serving_pdb_names budgets budgets name ∙ ground arith) in
    (
      has,
      append_budgets-All serving_pdb_names filled filled
          (has "activator-pdb" ∙ ground arith, (has "webhook-pdb" ∙ ground arith, tt)),
    )
