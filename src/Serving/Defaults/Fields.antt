-- ===== src/Serving/Defaults/Fields.antt =====
-- The replicas, the ingress and the disruption budgets of a KnativeServing after the defaults.
use serverless_operator.Common.{
  ℕ, String, ◌≡◌, refl, ap, ◌∙◌, Bool, true, false, ◌&&◌, ◌||◌, ◌==◌, not, Option, none, some, List,
  [], ◌∷◌, ◌++◌, any, if◌then◌else◌, Dict, lookup_or, Bool-cases, inl, inr,
}
use serverless_operator.Config.Memory.{
  ResourceRequirementsOverride, ensure_container_memory_limit, limit_of, or_memory,
  limit_of-ensure_container_memory_limit,
}
use serverless_operator.Serving.Defaults.{
  IngressConfigs, PodDisruptionBudgetOverride, ServingSpec, default_to_kourier,
  default_kourier_service_type, append_budgets, default_to_one_as_pod_disruption_budget,
  or_two_replicas, defaulted,
}

-- The value of a field that has a default.
abbrev pub value_or : {A : Type 0} → A → Option A → A
value_or default none = default
value_or default (some own) = own

pub or_two_replicas_lem :
    (replicas : Option (Option ℕ)) → or_two_replicas replicas ≡ some (value_or (some 2) replicas)
or_two_replicas_lem none = refl
or_two_replicas_lem (some own) = refl

abbrev pub no_ingress : IngressConfigs
no_ingress = record { istio = false; kourier = false; contour = false; kourier_service_type = "" }

-- Kourier is on where the user has it on or has nothing on, and its type is then "ClusterIP" where the
-- user names none.
abbrev pub with_kourier : IngressConfigs → IngressConfigs
with_kourier own =
    let kourier = own.kourier || (not own.istio && not own.contour) in
    record own {
      kourier = kourier;
      kourier_service_type =
          if kourier && own.kourier_service_type == ""
          then "ClusterIP"
          else own.kourier_service_type;
    }

abbrev kourier_ingress : Bool → Bool → String → IngressConfigs
kourier_ingress istio contour type = record {
  istio = istio;
  kourier = true;
  contour = contour;
  kourier_service_type = type;
}

service_type :
    (istio contour : Bool) (type : String)
    → (if type == ""
        then kourier_ingress istio contour "ClusterIP"
        else kourier_ingress istio contour type)
      ≡ kourier_ingress istio contour (if type == "" then "ClusterIP" else type)
service_type istio contour type = elim (Bool-cases (type == "")) [
  | inl e ↦ rw e refl
  | inr e ↦ rw e refl
]

filled_ingress :
    (istio kourier contour : Bool) (type : String)
    → let own : IngressConfigs = record {
      istio = istio;
      kourier = kourier;
      contour = contour;
      kourier_service_type = type;
    } in
      default_kourier_service_type (some (default_to_kourier (some own))) ≡ some (with_kourier own)
unfolding default_kourier_service_type default_to_kourier
filled_ingress true true contour type = ap (λ i. some i) (service_type true contour type)
filled_ingress false true true type = ap (λ i. some i) (service_type false true type)
filled_ingress false true false type = ap (λ i. some i) (service_type false false type)
filled_ingress true false contour type = refl
filled_ingress false false true type = refl
filled_ingress false false false type = ap (λ i. some i) (service_type false false type)

default_ingress_lem :
    (ingress : Option IngressConfigs)
    → default_kourier_service_type (some (default_to_kourier ingress))
      ≡ some (with_kourier (value_or no_ingress ingress))
unfolding default_kourier_service_type default_to_kourier
default_ingress_lem none = refl
default_ingress_lem (some own) =
    filled_ingress own.istio own.kourier own.contour own.kourier_service_type

-- A budget of one for a name, unless the user has one.
abbrev pub budget_unless_own :
    List PodDisruptionBudgetOverride → String → List PodDisruptionBudgetOverride
budget_unless_own own name =
    if any (λ o. o.name == name) own
    then []
    else record { name = name; min_available = some 1 } ∷ []

add_budget :
    {A : Type 0} (c : Bool) (own : List A) (budget : A)
    → (if c then own else own ++ (budget ∷ [])) ≡ own ++ (if c then [] else budget ∷ [])
add_budget true [] budget = refl
add_budget true (o ∷ own) budget = ap (λ l. o ∷ l) (add_budget true own budget)
add_budget false own budget = refl

-- The memory limit of one container is filled in, and every other limit of a container is as before.
abbrev pub HasMemoryLimit :
    String → String → (before after : List ResourceRequirementsOverride) → Type 0
HasMemoryLimit container memory before after =
    (c resource : String)
    → limit_of after c resource ≡ (
        if container == c && "memory" == resource
        then some (value_or memory (limit_of before container "memory"))
        else limit_of before c resource)

pub memory_limit_lem :
    (container memory : String) (vs : List ResourceRequirementsOverride)
    → HasMemoryLimit container memory vs (ensure_container_memory_limit vs container memory)
memory_limit_lem container memory vs c resource =
    limit_of-ensure_container_memory_limit vs container memory c resource
    ∙ ap (λ l. if container == c && "memory" == resource then l else limit_of vs c resource)
        (or_memory_lem (limit_of vs container "memory"))
  where
    or_memory_lem : (old : Option String) → or_memory old memory ≡ some (value_or memory old)
    or_memory_lem none = refl
    or_memory_lem (some own) = refl

-- The fields of the first spec, and of the one with the defaults.
abbrev pub HasFields : Dict String → ServingSpec → ServingSpec → Type 0
HasFields images spec spec' =
    (spec'.registry_override ≡ images)
    × (spec'.registry_default ≡ lookup_or "" "default" images)
    × HasMemoryLimit "webhook" "1024Mi" spec.resources spec'.resources
    × (spec'.high_availability ≡ some (value_or (some 2) spec.high_availability))
    × (spec'.ingress ≡ some (with_kourier (value_or no_ingress spec.ingress)))
    × (spec'.pod_disruption_budgets
        ≡ (spec.pod_disruption_budgets
            ++ budget_unless_own spec.pod_disruption_budgets "activator-pdb")
          ++ budget_unless_own spec.pod_disruption_budgets "webhook-pdb")

pub defaulted-HasFields :
    (domain logging_host : String) (images : Dict String) (spec : ServingSpec)
    → HasFields images spec (defaulted domain logging_host images spec)
unfolding defaulted default_to_one_as_pod_disruption_budget append_budgets
defaulted-HasFields domain logging_host images spec =
    let own = spec.pod_disruption_budgets in
    (
      refl,
      refl,
      memory_limit_lem "webhook" "1024Mi" spec.resources,
      or_two_replicas_lem spec.high_availability,
      default_ingress_lem spec.ingress,
      add_budget (any (λ o. o.name == "webhook-pdb") own) _ _
          ∙ ap (λ l. l ++ budget_unless_own own "webhook-pdb")
              (add_budget (any (λ o. o.name == "activator-pdb") own) own _),
    )
