-- ===== src/Monitoring/RbacProxy/Laws.antt =====
-- The requests of the proxies: which component's configuration they follow.
use serverless_operator.Common.{
  String, ◌≡◌, ap, ◌∙◌, ◌==◌, Option, none, some, [], if◌then◌else◌, Dict, lookup, lookup-insert, ℤ,
  arith,
}
use mathlib.Core.Option.{some-injective}
use serverless_operator.Common.Options.{>>=-eq-some}
use serverless_operator.Config.{ConfigMapData}
use serverless_operator.Monitoring.RbacProxy.{
  PodLibrary, get_cm_data_for_name, or_empty_map, override_quantity, inserted, overridden,
  proxy_settings,
}

-- The settings of ConfigMap deployment, empty where there is none.
abbrev pub deployment_settings : ConfigMapData → Dict String
deployment_settings cfg = or_empty_map (get_cm_data_for_name cfg "config-deployment" "deployment")

module _ {Q K C : Type 0} (library : PodLibrary Q K C) where
  abbrev pub parsed_or : Option String → Option Q → Option Q
  parsed_or none old = old
  parsed_or (some v) old = library.must_parse v

  lookup-inserted :
      (q : Option Q) (name j : String) (old new : Dict Q)
      → inserted library name q old ≡ some new
      → lookup j new ≡ (if name == j then q else lookup j old)
  lookup-inserted none name j old new h = cc h
  lookup-inserted (some q) name j old new h =
      rw (← some-injective _ _ h) (lookup-insert name j q old)

  lookup-overridden :
      (v : Option String) (name j : String) (old new : Dict Q)
      → overridden library v name old ≡ some new
      → lookup j new ≡ (if name == j then parsed_or v (lookup j old) else lookup j old)
  lookup-overridden none name j old new h = rw (← some-injective _ _ h) (ground arith)
  lookup-overridden (some v) name j old new h =
      lookup-inserted (library.must_parse v) name j old new h

  lookup-override_quantity :
      (settings : Dict String) (key name j : String) (old new : Dict Q)
      → override_quantity library settings key name old ≡ some new
      → lookup j new
        ≡ (if name == j then parsed_or (lookup key settings) (lookup j old) else lookup j old)
  unfolding override_quantity
  lookup-override_quantity settings key name j old new h =
      lookup-overridden (lookup key settings) name j old new h

  -- A quantity from a setting of a component, or else another one.
  abbrev pub set_or : ConfigMapData → String → Option Q → Option Q
  set_or cfg key other = parsed_or (lookup key (deployment_settings cfg)) other

  lookup-two_quantities :
      (settings : Dict String) (cpu_key memory_key : String) (old with_cpu new : Dict Q)
      → override_quantity library settings cpu_key "cpu" old ≡ some with_cpu
      → override_quantity library settings memory_key "memory" with_cpu ≡ some new
      → (lookup "cpu" new ≡ parsed_or (lookup cpu_key settings) (lookup "cpu" old))
        × (lookup "memory" new ≡ parsed_or (lookup memory_key settings) (lookup "memory" old))
  lookup-two_quantities settings cpu_key memory_key old with_cpu new h h' = (
    lookup-override_quantity settings memory_key "memory" "cpu" with_cpu new h'
        ∙ lookup-override_quantity settings cpu_key "cpu" "cpu" old with_cpu h,
    lookup-override_quantity settings memory_key "memory" "memory" with_cpu new h'
        ∙ ap (parsed_or (lookup memory_key settings))
            (lookup-override_quantity settings cpu_key "cpu" "memory" old with_cpu h),
  )

  -- What a component's proxies get: the requests that it sets, and those that were there where it sets
  -- none; the limits that it sets.
  settings_of_component :
      (cfg : ConfigMapData) (shared requests limits : Dict Q) (level : ℤ)
      → proxy_settings library cfg shared ≡ some (requests, limits, level)
      → ((lookup "cpu" requests ≡ set_or cfg "kube-rbac-proxy-cpu-request" (lookup "cpu" shared))
          × (lookup "memory" requests
              ≡ set_or cfg "kube-rbac-proxy-memory-request" (lookup "memory" shared)))
        × ((lookup "cpu" limits ≡ set_or cfg "kube-rbac-proxy-cpu-limit" none)
            × (lookup "memory" limits ≡ set_or cfg "kube-rbac-proxy-memory-limit" none))
  unfolding proxy_settings lookup
  settings_of_component cfg shared requests limits level h =
      let settings = deployment_settings cfg in
      let (with_cpu, ran, rest) =
        >>=-eq-some (override_quantity library settings "kube-rbac-proxy-cpu-request" "cpu" shared)
          _ h in
      let (with_memory, ran', rest') =
        >>=-eq-some
          (override_quantity library settings "kube-rbac-proxy-memory-request" "memory" with_cpu) _
          rest in
      let (cpu_limit, limited, rest₂) =
        >>=-eq-some (override_quantity library settings "kube-rbac-proxy-cpu-limit" "cpu" []) _
          rest' in
      let (all_limits, limited', end) =
        >>=-eq-some
          (override_quantity library settings "kube-rbac-proxy-memory-limit" "memory" cpu_limit) _
          rest₂ in
      let same : with_memory ≡ requests = ap (λ r. r.0) (some-injective _ _ end) in
      let same_limits : all_limits ≡ limits = ap (λ r. r.1) (some-injective _ _ end) in
      (
        rw (← same) (
            lookup-two_quantities settings "kube-rbac-proxy-cpu-request"
              "kube-rbac-proxy-memory-request" shared with_cpu with_memory ran ran'),
        rw (← same_limits) (
            lookup-two_quantities settings "kube-rbac-proxy-cpu-limit"
              "kube-rbac-proxy-memory-limit" [] cpu_limit all_limits limited limited'),
      )

  -- Of two components whose proxies are injected one after the other, the first gets the requests of
  -- CPU and memory that it sets, and the defaults where it sets none. The second gets the requests that
  -- it sets; where it sets none it gets those that the first one sets, and only then the defaults. The
  -- limits are those that the second one sets itself, and there is none where it sets none.
  pub proxy_settings-leaks :
      (first second : ConfigMapData) (defaults requests requests' limits limits' : Dict Q)
      (level level' : ℤ)
      → proxy_settings library first defaults ≡ some (requests, limits, level)
      → proxy_settings library second requests ≡ some (requests', limits', level')
      → (lookup "cpu" requests ≡ set_or first "kube-rbac-proxy-cpu-request" (lookup "cpu" defaults))
        × (lookup "memory" requests
            ≡ set_or first "kube-rbac-proxy-memory-request" (lookup "memory" defaults))
        × (lookup "cpu" requests'
            ≡ set_or second "kube-rbac-proxy-cpu-request"
                (set_or first "kube-rbac-proxy-cpu-request" (lookup "cpu" defaults)))
        × (lookup "memory" requests'
            ≡ set_or second "kube-rbac-proxy-memory-request"
                (set_or first "kube-rbac-proxy-memory-request" (lookup "memory" defaults)))
        × (lookup "cpu" limits' ≡ set_or second "kube-rbac-proxy-cpu-limit" none)
        × (lookup "memory" limits' ≡ set_or second "kube-rbac-proxy-memory-limit" none)
  proxy_settings-leaks first second defaults requests requests' limits limits' level level' h h' =
      let ((cpu, memory), _) = settings_of_component first defaults requests limits level h in
      let ((cpu', memory'), (cpu_limit, memory_limit)) =
        settings_of_component second requests requests' limits' level' h' in
      (
        cpu,
        memory,
        cpu' ∙ ap (set_or second "kube-rbac-proxy-cpu-request") cpu,
        memory' ∙ ap (set_or second "kube-rbac-proxy-memory-request") memory,
        cpu_limit,
        memory_limit,
      )
