-- ===== src/Serving/Laws.antt =====
-- When the informer of secrets is filtered.
use serverless_operator.Common.{
  String, Bool, true, false, ◌≡◌, refl, ◌∙◌, ap, Option, none, some, List, [], ◌∷◌, ◌++◌,
  if◌then◌else◌, ◌==◌, ◌&&◌, select, inl, inr, Bool-cases, Option-cases,
}
use serverless_operator.Transform.Spec.{EnvVar, Scheme, Transformer}
use serverless_operator.Serving.{
  EnvRequirementsOverride, WorkloadOverride, parse_bool, or_false, find_in_vars, or_later,
  find_in_env, find_in_overrides, default_injection, injections,
  config_if_unset_and_check_if_should_inject, enable_secret_informer_filtering_transformers,
}

-- All variables that the overrides give a container of a deployment, in their order.
abbrev env_vars : String → List EnvRequirementsOverride → List EnvVar
env_vars container [] = []
env_vars container (e ∷ es) =
    (if e.container == container then e.env_vars else []) ++ env_vars container es

abbrev pub overridden_vars : String → String → List WorkloadOverride → List EnvVar
overridden_vars deployment container [] = []
overridden_vars deployment container (o ∷ os) =
    (if o.name == deployment then env_vars container o.env else [])
    ++ overridden_vars deployment container os

-- The Boolean of the first of some variables; none where there is no variable.
abbrev pub first_flag : List EnvVar → Option Bool
first_flag [] = none
first_flag (v ∷ vs) = some (or_false (parse_bool v.value))

abbrev pub flag_of : List EnvVar → Option Bool
flag_of vs = first_flag (select (λ v. v.name == "ENABLE_SECRET_INFORMER_FILTERING_BY_CERT_UID") vs)

flag_of-append : (vs ws : List EnvVar) → flag_of (vs ++ ws) ≡ or_later (flag_of vs) (flag_of ws)
flag_of-append [] ws = refl
flag_of-append (v ∷ vs) ws =
    elim (Bool-cases (v.name == "ENABLE_SECRET_INFORMER_FILTERING_BY_CERT_UID")) [
      | inl e ↦ rw e refl
      | inr e ↦ rw e (flag_of-append vs ws)
    ]

find_in_vars_lem : (vs : List EnvVar) → find_in_vars vs ≡ flag_of vs
unfolding find_in_vars
find_in_vars_lem [] = refl
find_in_vars_lem (v ∷ vs) =
    elim (Bool-cases (v.name == "ENABLE_SECRET_INFORMER_FILTERING_BY_CERT_UID")) [
      | inl e ↦ rw e refl
      | inr e ↦ rw e (find_in_vars_lem vs)
    ]

find_in_env_lem :
    (container : String) (es : List EnvRequirementsOverride)
    → find_in_env container es ≡ flag_of (env_vars container es)
unfolding find_in_env
find_in_env_lem container [] = refl
find_in_env_lem container (e ∷ es) = elim (Bool-cases (e.container == container)) [
  | inl h ↦
      rw (h, flag_of-append e.env_vars (env_vars container es), find_in_vars_lem e.env_vars)
        (ap (or_later (flag_of e.env_vars)) (find_in_env_lem container es))
  | inr h ↦ rw h (find_in_env_lem container es)
]

find_in_overrides_lem :
    (deployment container : String) (os : List WorkloadOverride)
    → find_in_overrides deployment container os ≡ flag_of (overridden_vars deployment container os)
unfolding find_in_overrides
find_in_overrides_lem deployment container [] = refl
find_in_overrides_lem deployment container (o ∷ os) = elim (Bool-cases (o.name == deployment)) [
  | inl h ↦
      rw
        (
          h,
          flag_of-append (env_vars container o.env) (overridden_vars deployment container os),
          find_in_env_lem container o.env,
        )
        (ap (or_later (flag_of (env_vars container o.env)))
          (find_in_overrides_lem deployment container os))
  | inr h ↦ rw h (find_in_overrides_lem deployment container os)
]

abbrev pub is_filtered {ℓ} : {A : Type ℓ} → List A → Bool
is_filtered [] = false
is_filtered (a ∷ rest) = true

abbrev or_true : Option Bool → Bool
or_true (some b) = b
or_true none = true

abbrev pub wants : String → List WorkloadOverride → Bool
wants deployment overrides = or_true (flag_of (overridden_vars deployment "controller" overrides))

module _ {C : Type 0} (scheme : Scheme C) (overrides : List WorkloadOverride) where
  should_inject-wants :
      (deployment : String)
      → (default_injection scheme deployment).0 ≡ true
      → (config_if_unset_and_check_if_should_inject scheme overrides deployment "controller").0
        ≡ wants deployment overrides
  unfolding config_if_unset_and_check_if_should_inject
  should_inject-wants deployment known =
      let found : find_in_overrides deployment "controller" overrides
          ≡ flag_of (overridden_vars deployment "controller" overrides) =
        find_in_overrides_lem deployment "controller" overrides in
      elim (Option-cases (flag_of (overridden_vars deployment "controller" overrides))) [
        | inl e ↦ rw (found ∙ e, config_if_unset_and_check_if_should_inject) (rw e known)
        | inr (b, e) ↦ rw (found ∙ e, config_if_unset_and_check_if_should_inject) (rw e refl)
      ]

  is_filtered-injections :
      (found : Bool × Option (Transformer C)) → is_filtered (injections found) ≡ found.0
  is_filtered-injections (true, tf) = refl
  is_filtered-injections (false, tf) = refl

  -- The secrets are filtered by the variable of the enabled ingress, by that of Kourier where both
  -- are enabled: by the Boolean of the first variable of the name that the overrides give to the
  -- controller of that ingress, where a value that is no Boolean counts as false, and always where
  -- they give none. Without Istio and Kourier there is no filter.
  pub is_filtered-enable_secret_informer_filtering :
      (istio kourier : Bool)
      → is_filtered (enable_secret_informer_filtering_transformers scheme istio kourier overrides)
        ≡ (if kourier
            then wants "net-kourier-controller" overrides
            else istio && wants "net-istio-controller" overrides)
  unfolding enable_secret_informer_filtering_transformers default_injection
  is_filtered-enable_secret_informer_filtering istio true =
      is_filtered-injections _ ∙ should_inject-wants "net-kourier-controller" refl
  is_filtered-enable_secret_informer_filtering true false =
      is_filtered-injections _ ∙ should_inject-wants "net-istio-controller" refl
  is_filtered-enable_secret_informer_filtering false false = refl
