-- ===== src/Transform/Security.antt =====
-- SetSecurityContextForAdmissionController of openshift-knative-operator/pkg/common/api.go.
use serverless_operator.Common.{
  String, ◌≡◌, refl, Bool, true, false, ◌||◌, ◌==◌, Option, none, some, List, [], ◌∷◌,
  if◌then◌else◌, ok, map,
}
use serverless_operator.Transform.Spec.{
  Container, SecurityContext, Capabilities, Workload, Unstructured, Scheme, IsScheme, Transformer,
  converting, converting-written, on_containers,
}

abbrev pub drop_all : Capabilities
drop_all = record { add = []; drop = "ALL" ∷ [] }

abbrev pub or_set : {A : Type 0} → Option A → A → Option A
or_set none a = some a
or_set (some b) a = some b

-- the security context from the old one
unfoldable pub hardened : Option SecurityContext → SecurityContext
hardened none = record {
  allow_privilege_escalation = some false;
  read_only_root_filesystem = some true;
  run_as_non_root = some true;
  capabilities = some drop_all;
  seccomp_profile = some "RuntimeDefault";
}
hardened (some context) = record {
  allow_privilege_escalation = or_set context.allow_privilege_escalation false;
  read_only_root_filesystem = or_set context.read_only_root_filesystem true;
  run_as_non_root = or_set context.run_as_non_root true;
  capabilities = some drop_all;
  seccomp_profile = or_set context.seccomp_profile "RuntimeDefault";
}

unfoldable pub set_pod_security_context : Container → Container
unfolding hardened
set_pod_security_context c = record c { security_context = some (hardened c.security_context) }

abbrev pub has_pod_template : String → Bool
has_pod_template kind = kind == "Deployment" || kind == "StatefulSet" || kind == "Job"

module _ {C : Type 0} (scheme : Scheme C) where
  unfoldable pub set_security_context_for_admission_controller : Transformer C
  unfolding converting set_pod_security_context
  set_security_context_for_admission_controller u =
      if has_pod_template u.kind
      then converting scheme (λ w. ok (on_containers set_pod_security_context w)) u
      else ok u

-- A field of the context that a container had; none where it had no context.
abbrev pub own : {A : Type 0} → (SecurityContext → Option A) → Option SecurityContext → Option A
own field none = none
own field (some context) = field context

abbrev pub default_to : {A : Type 0} → A → Option A → A
default_to default none = default
default_to default (some a) = a

-- What becomes of the security context of a container: all capabilities are dropped and none is added,
-- every other field keeps its value, and one that was open gets the restrictive value.
abbrev pub IsRestricted : Option SecurityContext → SecurityContext → Type 0
IsRestricted old context =
    (context.capabilities ≡ some (record { add = []; drop = "ALL" ∷ [] }))
    × (context.allow_privilege_escalation
        ≡ some (default_to false (own (λ s. s.allow_privilege_escalation) old)))
    × (context.read_only_root_filesystem
        ≡ some (default_to true (own (λ s. s.read_only_root_filesystem) old)))
    × (context.run_as_non_root ≡ some (default_to true (own (λ s. s.run_as_non_root) old)))
    × (context.seccomp_profile
        ≡ some (default_to "RuntimeDefault" (own (λ s. s.seccomp_profile) old)))

-- The container c', once c, has such a context, and is c otherwise.
abbrev pub IsHardened : Container → Container → Type 0
IsHardened c c' =
    (context : SecurityContext) × (c' ≡ record c { security_context = some context })
    × IsRestricted c.security_context context

-- The containers of two workloads one by one.
abbrev pub AreHardened : List Container → List Container → Type 0
AreHardened [] [] = Unit {0}
AreHardened [] (c' ∷ cs') = true ≡ false
AreHardened (c ∷ cs) [] = true ≡ false
AreHardened (c ∷ cs) (c' ∷ cs') = IsHardened c c' × AreHardened cs cs'

or_set_lem : {A : Type 0} (o : Option A) (a : A) → or_set o a ≡ some (default_to a o)
or_set_lem none a = refl
or_set_lem (some b) a = refl

hardened-IsRestricted : (o : Option SecurityContext) → IsRestricted o (hardened o)
unfolding hardened
hardened-IsRestricted none = (refl, refl, refl, refl, refl)
hardened-IsRestricted (some context) = (
  refl,
  or_set_lem context.allow_privilege_escalation false,
  or_set_lem context.read_only_root_filesystem true,
  or_set_lem context.run_as_non_root true,
  or_set_lem context.seccomp_profile "RuntimeDefault",
)

map-AreHardened : (cs : List Container) → AreHardened cs (map set_pod_security_context cs)
unfolding set_pod_security_context
map-AreHardened [] = tt
map-AreHardened (c ∷ cs) = (
  (hardened c.security_context, refl, hardened-IsRestricted c.security_context),
  map-AreHardened cs,
)

module _ {C : Type 0} (scheme : Scheme C) (law : IsScheme scheme) where
  -- After a successful run on a Deployment, a StatefulSet or a Job, it has the containers that it had,
  -- each of which drops all capabilities and adds none. The other fields of their security contexts keep
  -- their values; those that were open forbid the escalation of privileges, make the root file system
  -- read-only, ask for a user other than root and for the seccomp profile "RuntimeDefault".
  pub set_security_context_for_admission_controller-IsHardened :
      (u u' : Unstructured C)
      → (u.kind == "Deployment" || u.kind == "StatefulSet" || u.kind == "Job") ≡ true
      → set_security_context_for_admission_controller scheme u ≡ ok u'
      → (w w' : Workload) × (scheme.to_typed u ≡ ok w)
        × (scheme.to_typed u' ≡ ok w')
        × AreHardened w.containers w'.containers
  unfolding set_security_context_for_admission_controller
  set_security_context_for_admission_controller-IsHardened u u' kind h =
      let run = rw kind at h in
      let (w, read, wrote) =
        converting-written scheme law (on_containers set_pod_security_context) u u' run in
      (w, on_containers set_pod_security_context w, read, wrote, map-AreHardened w.containers)
