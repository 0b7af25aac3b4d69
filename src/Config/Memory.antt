-- ===== src/Config/Memory.antt =====
-- EnsureContainerMemoryLimit of openshift-knative-operator/pkg/common/resources.go. The list of the
-- overrides stands for the DeprecatedResources of the component's spec.
use serverless_operator.Common.{
  String, ◌≡◌, refl, ap, ◌∙◌, Option, none, some, List, [], ◌∷◌, if◌then◌else◌, ◌==◌, ◌&&◌, eq_iff,
  arith, Dict, lookup, insert, has_key, lookup-insert, Option-cases, inl, inr, Bool-cases,
}

-- base.ResourceRequirementsOverride; a quantity is a string. The requests, which the function
-- never reads, are kept.
pub record ResourceRequirementsOverride : Type 0 where
  pub container : String
  pub limits : Dict String
  pub requests : Dict String

abbrev pub resource_memory : String
resource_memory = "memory"

abbrev pub limited : ResourceRequirementsOverride → String → ResourceRequirementsOverride
unfolding has_key insert
limited v memory = record v {
  limits =
      if has_key resource_memory v.limits then v.limits else insert resource_memory memory v.limits;
}

unfoldable pub ensure_container_memory_limit :
    List ResourceRequirementsOverride → String → String → List ResourceRequirementsOverride
ensure_container_memory_limit [] container_name memory =
    record { container = container_name; limits = (resource_memory, memory) ∷ []; requests = [] }
    ∷ []
ensure_container_memory_limit (v ∷ vs) container_name memory =
    let rest = ensure_container_memory_limit vs container_name memory in
    if v.container == container_name then limited v memory ∷ vs else v ∷ rest

-- A limit of a container: that of its first override.
unfoldable pub limit_of : List ResourceRequirementsOverride → String → String → Option String
limit_of [] container resource = none
limit_of (v ∷ vs) container resource =
    if v.container == container then lookup resource v.limits else limit_of vs container resource

abbrev pub or_memory : Option String → String → Option String
or_memory none memory = some memory
or_memory (some old) memory = some old

lookup-limited :
    (v : ResourceRequirementsOverride) (memory resource : String)
    → lookup resource (limited v memory).limits ≡ (
        if resource_memory == resource
        then or_memory (lookup resource_memory v.limits) memory
        else lookup resource v.limits)
unfolding has_key limited
lookup-limited v memory resource = elim (Option-cases (lookup resource_memory v.limits)) [
  | inl e ↦ rw e (rw lookup-insert refl)
  | inr (old, e) ↦ rw e (ground (arith, eq_iff resource_memory resource))
]

limit_of-limited :
    (v : ResourceRequirementsOverride) (vs : List ResourceRequirementsOverride)
    (memory container resource : String)
    → limit_of (limited v memory ∷ vs) container resource ≡ (
        if v.container == container
        then (if resource_memory == resource
            then or_memory (lookup resource_memory v.limits) memory
            else lookup resource v.limits)
        else limit_of vs container resource)
unfolding limit_of limited has_key lookup
limit_of-limited v vs memory container resource =
    ap (λ l. if v.container == container then l else limit_of vs container resource)
      (lookup-limited v memory resource)

-- EnsureContainerMemoryLimit gives the container the memory limit unless it has one already, and
-- changes no other limit of it and no limit of another container.
pub limit_of-ensure_container_memory_limit :
    (vs : List ResourceRequirementsOverride) (container_name memory container resource : String)
    → limit_of (ensure_container_memory_limit vs container_name memory) container resource ≡ (
        if container_name == container && resource_memory == resource
        then or_memory (limit_of vs container_name resource_memory) memory
        else limit_of vs container resource)
unfolding limit_of ensure_container_memory_limit lookup
limit_of-ensure_container_memory_limit [] container_name memory container resource =
    ground (arith, eq_iff container_name container, eq_iff resource_memory resource)
limit_of-ensure_container_memory_limit (v ∷ vs) container_name memory container resource =
    elim (Bool-cases (v.container == container_name)) [
      | inl e ↦
          let there : v.container ≡ container_name = (eq_iff v.container container_name).0 e in
          rw e (limit_of-limited v vs memory container resource ∙ (rw there (ground arith)))
      | inr e ↦ rw e (
          ground (
            arith,
            eq_iff v.container container_name,
            eq_iff v.container container,
            eq_iff container_name container,
            limit_of-ensure_container_memory_limit vs container_name memory container resource,
          ))
    ]
