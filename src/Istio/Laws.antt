-- ===== src/Istio/Laws.antt =====
-- What ScaleIstioController leaves among the workload overrides.
use serverless_operator.Common.{
  ℕ, String, Bool, true, false, ◌≡◌, refl, sym, ◌∙◌, ap, Option, none, some, List, [], ◌∷◌, ◌++◌,
  if◌then◌else◌, ◌==◌, ◌||◌, is_some, eq_iff, inl, inr, Bool-cases, Option-cases,
}
use serverless_operator.Istio.{
  WorkloadOverride, istio_controller_name, found_controller, istio_override, scale_istio_controller,
}

abbrev pub or_else : {A : Type 0} → Option A → Option A → Option A
or_else (some a) b = some a
or_else none b = b

or_else-none : {A : Type 0} → (o : Option A) → or_else o none ≡ o
or_else-none none = refl
or_else-none (some a) = refl

-- The first override of a name.
abbrev pub find_override :
    {O : Type 0} → String → List (WorkloadOverride O) → Option (WorkloadOverride O)
find_override name [] = none
find_override name (w ∷ ws) =
    let later = find_override name ws in if w.name == name then some w else later

module _ {O : Type 0} where
  find_override-append :
      (name : String) (ws vs : List (WorkloadOverride O))
      → find_override name (ws ++ vs) ≡ or_else (find_override name ws) (find_override name vs)
  find_override-append name [] vs = refl
  find_override-append name (w ∷ ws) vs = elim (Bool-cases (w.name == name)) [
    | inl e ↦ rw e refl
    | inr e ↦ rw e (find_override-append name ws vs)
  ]

  found_controller_lem :
      (ws : List (WorkloadOverride O)) (found : Bool)
      → found_controller ws found ≡ (found || is_some (find_override istio_controller_name ws))
  unfolding found_controller
  found_controller_lem [] true = refl
  found_controller_lem [] false = refl
  found_controller_lem (w ∷ ws) true = elim (Bool-cases (w.name == istio_controller_name)) [
    | inl e ↦ rw e (found_controller_lem ws true)
    | inr e ↦ rw e (found_controller_lem ws true)
  ]
  found_controller_lem (w ∷ ws) false = elim (Bool-cases (w.name == istio_controller_name)) [
    | inl e ↦ rw e (found_controller_lem ws true)
    | inr e ↦ rw e (found_controller_lem ws false)
  ]

abbrev pub new_override : {O : Type 0} → O → ℕ → String → Option (WorkloadOverride O)
new_override unset replicas name =
    if istio_controller_name == name then some (istio_override unset replicas) else none

or_else-found :
    {O : Type 0}
    → (name : String) (ws : List (WorkloadOverride O)) (unset : O) (replicas : ℕ)
      (o : WorkloadOverride O)
    → find_override istio_controller_name ws ≡ some o
    → or_else (find_override name ws) (new_override unset replicas name) ≡ find_override name ws
or_else-found name ws unset replicas o h = elim (Bool-cases (istio_controller_name == name)) [
  | inl e ↦
      let same : find_override name ws ≡ some o =
        ap (λ n. find_override n ws) (sym ((eq_iff istio_controller_name name).0 e)) ∙ h in
      rw same refl
  | inr e ↦ rw e (or_else-none (find_override name ws))
]

module _ {S O : Type 0} (get_workload_overrides : S → List (WorkloadOverride O))
    (append_workload : S → WorkloadOverride O → S) (unset : O)
    (law : (ke : S) (w : WorkloadOverride O)
      → get_workload_overrides (append_workload ke w) ≡ get_workload_overrides ke ++ (w ∷ [])) where
  -- ScaleIstioController keeps the first override of every name as it was, also one of the
  -- controller that has no replicas; where no override has the name of the controller, there is one
  -- with the replicas asked for afterwards. The hypothesis is that an appended override is the last
  -- one that is read.
  pub find_override-scale_istio_controller :
      (ke : S) (replicas : ℕ) (name : String)
      → find_override name (
          get_workload_overrides
            (scale_istio_controller get_workload_overrides append_workload unset ke replicas))
        ≡ or_else
            (find_override name (get_workload_overrides ke))
            (new_override unset replicas name)
  unfolding scale_istio_controller
  find_override-scale_istio_controller ke replicas name =
      let ws : List (WorkloadOverride O) = get_workload_overrides ke in
      rw (found_controller_lem ws false)
        (elim (Option-cases (find_override istio_controller_name ws)) [
          | inl none_found ↦
              rw none_found (ap (find_override name) (law ke _) ∙ find_override-append name ws _)
          | inr (o, is_found) ↦ rw is_found (sym (or_else-found name ws unset replicas o is_found))
        ])
