-- ===== src/Transform/Environment/Laws.antt =====
-- What a container's environment holds after the injection.
use serverless_operator.Common.{
  String, ◌≡◌, refl, ◌∙◌, ap, true, ◌==◌, Option, none, some, List, [], ◌∷◌, if◌then◌else◌, ok,
  eq_iff, eq_refl, arith, map, Bool-cases, inl, inr,
}
use serverless_operator.Transform.Spec.{
  EnvVar, Container, Workload, Unstructured, Scheme, IsScheme, on_containers, converting-written,
  map-map_eq,
}
use serverless_operator.Transform.Environment.{
  upsert, upsert_all, inject_into_container, transform_deployment,
  inject_environment_into_deployment,
}

-- The value of a variable: that of the first entry with its name.
unfoldable pub env_value : String → List EnvVar → Option String
env_value name [] = none
env_value name (e ∷ es) = if e.name == name then some e.value else env_value name es

-- The value that a list of variables asks for: that of the last entry, or the old one.
unfoldable pub injected : String → List EnvVar → Option String → Option String
injected name [] old = old
injected name (v ∷ vs) old = injected name vs (if v.name == name then some v.value else old)

pub env_value-upsert :
    (es : List EnvVar) (v : EnvVar) (name : String)
    → env_value name (upsert es v) ≡ (if v.name == name then some v.value else env_value name es)
unfolding env_value upsert
env_value-upsert [] v name = refl
env_value-upsert (e ∷ es) v name = ground (
  arith,
  eq_iff e.name v.name,
  eq_iff e.name name,
  eq_iff v.name name,
  env_value-upsert es v name,
)

env_value-upsert_all :
    (es vs : List EnvVar) (name : String)
    → env_value name (upsert_all es vs) ≡ injected name vs (env_value name es)
unfolding upsert_all injected
env_value-upsert_all es [] name = refl
env_value-upsert_all es (v ∷ vs) name =
    env_value-upsert_all (upsert es v) vs name ∙ ap (injected name vs) (env_value-upsert es v name)

-- The value of a variable in a container, after the injection into the containers of a name.
abbrev pub value_after : String → List EnvVar → String → Container → Option String
value_after container_name envs name c =
    if c.name == container_name
    then injected name envs (env_value name c.env)
    else env_value name c.env

env_value-inject_into_container :
    (container_name : String) (envs : List EnvVar) (name : String) (c : Container)
    → env_value name (inject_into_container container_name envs c).env
      ≡ value_after container_name envs name c
unfolding inject_into_container
env_value-inject_into_container container_name envs name c =
    elim (Bool-cases (c.name == container_name)) [
      | inl e ↦ rw e (env_value-upsert_all c.env envs name)
      | inr e ↦ rw e refl
    ]

module _ {C : Type 0} (scheme : Scheme C) (law : IsScheme scheme) where
  -- After a successful injection into the Deployment of the name, every variable has in the
  -- containers of the given name the last value asked for, or the old one where none is; in the
  -- other containers it has the old one.
  pub inject_environment_into_deployment-env :
      (container_name name : String) (envs : List EnvVar) (u u' : Unstructured C)
      → u.kind ≡ "Deployment"
      → inject_environment_into_deployment scheme u.name container_name envs u ≡ ok u'
      → (w w' : Workload) × (scheme.to_typed u ≡ ok w)
        × (scheme.to_typed u' ≡ ok w')
        × (map (λ c. env_value name c.env) w'.containers
            ≡ map (value_after container_name envs name) w.containers)
  unfolding inject_environment_into_deployment transform_deployment
  inject_environment_into_deployment-env container_name name envs u u' kind h =
      let is : (u.kind == "Deployment") ≡ true = (eq_iff u.kind "Deployment").1 kind in
      let run = rw (is, eq_refl u.name) at h in
      let (w, read, wrote) =
        converting-written scheme law (on_containers (inject_into_container container_name envs)) u
          u' run in
      (
        w,
        on_containers (inject_into_container container_name envs) w,
        read,
        wrote,
        map-map_eq (inject_into_container container_name envs) (λ c. env_value name c.env)
            (value_after container_name envs name) w.containers
            (λ c. env_value-inject_into_container container_name envs name c),
      )
