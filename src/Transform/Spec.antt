-- ===== src/Transform/Spec.antt =====
-- The Kubernetes data that the transformers read and write: an unstructured resource, and the typed
-- object that scheme.Scheme.Convert makes of it.
use serverless_operator.Common.{
  ℕ, String, ◌≡◌, Bool, Option, List, [], ◌∷◌, Dict, Result, ok, ◌>>=◌, >>=-eq-ok, map, refl,
}

-- The value of a variable that is taken from elsewhere is opaque.
pub record EnvVar : Type 0 where
  pub name : String
  pub value : String
  pub value_from : Option String

pub record Capabilities : Type 0 where
  pub add : List String
  pub drop : List String

pub record SecurityContext : Type 0 where
  pub allow_privilege_escalation : Option Bool
  pub read_only_root_filesystem : Option Bool
  pub run_as_non_root : Option Bool
  pub capabilities : Option Capabilities
  pub seccomp_profile : Option String

pub data VolumeSource : Type 0 where
  -- the name of the ConfigMap, and the keys with their paths
  config_map_source : String → List (String × String) → VolumeSource
  other_source : String → VolumeSource

pub record Volume : Type 0 where
  pub name : String
  pub source : VolumeSource

pub record VolumeMount : Type 0 where
  pub name : String
  pub mount_path : String
  pub sub_path : String
  pub read_only : Bool

pub record Container : Type 0 where
  pub name : String
  pub image : String
  pub env : List EnvVar
  pub security_context : Option SecurityContext
  pub volume_mounts : List VolumeMount

-- A Deployment, StatefulSet, DaemonSet or Job: its names, its pod template, and the
-- TTLSecondsAfterFinished of a Job.
pub record Workload : Type 0 where
  pub name : String
  pub generate_name : String
  pub annotations : Dict String
  pub containers : List Container
  pub volumes : List Volume
  pub ttl_seconds_after_finished : Option ℕ

-- unstructured.Unstructured: its metadata, and the rest of its content.
pub record Unstructured (C : Type 0) : Type 0 where
  pub kind : String
  pub api_version : String
  pub name : String
  pub namespace : String
  pub labels : Dict String
  pub annotations : Dict String
  pub content : C

-- scheme.Scheme.Convert in both directions, for the typed object of the resource's kind, and
-- SetCreationTimestamp(metav1.Time{}).
pub record Scheme (C : Type 0) : Type 0 where
  pub to_typed : Unstructured C → Result String Workload
  pub from_typed : Workload → Unstructured C → Result String (Unstructured C)
  pub reset_creation_timestamp : Unstructured C → Unstructured C

-- Documented behaviour of the conversion: what is written can be read again, and has the kind and
-- the version that it had.
pub record IsScheme {C : Type 0} (scheme : Scheme C) : Type 0 where
  pub written :
      (w : Workload) (u u' : Unstructured C)
      → scheme.from_typed w u ≡ ok u'
      → scheme.to_typed u' ≡ ok w
  pub kept_kind :
      (w : Workload) (u u' : Unstructured C) → scheme.from_typed w u ≡ ok u' → u'.kind ≡ u.kind
  pub reset_typed :
      (u : Unstructured C) → scheme.to_typed (scheme.reset_creation_timestamp u) ≡ scheme.to_typed u

-- mf.Transformer
abbrev pub Transformer : Type 0 → Type 0
Transformer C = Unstructured C → Result String (Unstructured C)

module _ {C : Type 0} (scheme : Scheme C) where
  -- The conversion, a change of the typed object, and the conversion back.
  unfoldable pub converting :
      (Workload → Result String Workload) → Unstructured C → Result String (Unstructured C)
  converting f u = do w ← scheme.to_typed u; w' ← f w; scheme.from_typed w' u

abbrev pub on_containers : (Container → Container) → Workload → Workload
on_containers f w = record w { containers = map f w.containers }

module _ {C : Type 0} (scheme : Scheme C) (law : IsScheme scheme) where
  -- After a successful conversion the new resource reads as the changed object.
  pub converting-written :
      (g : Workload → Workload) (u u' : Unstructured C)
      → converting scheme (λ w. ok (g w)) u ≡ ok u'
      → (w : Workload) × (scheme.to_typed u ≡ ok w) × (scheme.to_typed u' ≡ ok (g w))
  unfolding converting
  converting-written g u u' h =
      let (w, read, wrote) = >>=-eq-ok (scheme.to_typed u) _ h in
      (w, read, law.written (g w) u u' wrote)

pub map-map_eq :
    {A D : Type 0} (f : A → A) (g : A → D) (k : A → D) (xs : List A)
    → ((x : A) → g (f x) ≡ k x)
    → map g (map f xs) ≡ map k xs
map-map_eq f g k [] h = refl
map-map_eq f g k (x ∷ xs) h = cc (h x, map-map_eq f g k xs h)
