-- ===== src/Transform/Images.antt =====
-- The replacement of images: images.go of openshift-knative-operator/pkg/common,
-- BuildImageOverrideMapFromEnviron of knative-operator/pkg/common/util.go, and images.go of
-- knative-operator/pkg/controller/knativekafka.
use serverless_operator.Common.{
  String, ◌≡◌, refl, ap, Bool, ◌||◌, not, ◌==◌, Option, none, some, List, [], ◌∷◌, if◌then◌else◌,
  Result, ok, err, ◌<>◌, Dict, lookup, insert, has_prefix, trim_prefix, replace_first, split_two,
  map, Bool-cases, inl, inr,
}
use serverless_operator.Transform.Spec.{
  EnvVar, Container, Workload, Unstructured, Scheme, Transformer, converting, on_containers,
}

abbrev pub image_prefix : String
image_prefix = "IMAGE_"

-- the key of the map, from the name of the variable
unfoldable pub image_key : String → String → String
unfolding trim_prefix replace_first
image_key prefix name = replace_first (trim_prefix name prefix) "__" "/"

-- pair[1]: it panics where there is no "=", which is `none`
abbrev pub second : List String → Option String
second [] = none
second (a ∷ []) = none
second (a ∷ b ∷ rest) = some b

abbrev pub first : List String → String
first [] = ""
first (a ∷ rest) = a

-- `if pair[1] == "" { continue }`, then the entry
unfoldable pub unless_empty : String → Dict String → Option String → Option (Dict String)
unfolding image_key insert
unless_empty name m none = none
unless_empty name m (some image) =
    if image == "" then some m else some (insert (image_key image_prefix name) image m)

unfoldable pub image_entry : String → Dict String → Option (Dict String)
unfolding split_two has_prefix unless_empty
image_entry e m =
    let pair = split_two b'=' e in
    if has_prefix (first pair) image_prefix
    then unless_empty (first pair) m (second pair)
    else some m

abbrev pub and_next : {A : Type 0} → Option A → (A → Option A) → Option A
and_next none f = none
and_next (some a) f = f a

-- the loop over the environment
unfoldable pub image_entries : List String → Dict String → Option (Dict String)
unfolding image_entry
image_entries [] m = some m
image_entries (e ∷ es) m = and_next (image_entry e m) (λ m'. image_entries es m')

unfoldable pub image_map_from_environment : List String → Option (Dict String)
unfolding image_entries
image_map_from_environment env = image_entries env []

-- `if pair[1] != ""`, after the key
unfoldable pub if_not_empty : String → Dict String → Option String → Option (Dict String)
unfolding insert
if_not_empty key m none = none
if_not_empty key m (some image) = if not (image == "") then some (insert key image m) else some m

unfoldable pub override_entry : String → String → Dict String → Option (Dict String)
unfolding split_two has_prefix image_key if_not_empty
override_entry prefix e m =
    let pair = split_two b'=' e in
    if has_prefix (first pair) prefix
    then if_not_empty (image_key prefix (first pair)) m (second pair)
    else some m

unfoldable pub override_entries : String → List String → Dict String → Option (Dict String)
unfolding override_entry
override_entries prefix [] m = some m
override_entries prefix (e ∷ es) m =
    and_next (override_entry prefix e m) (λ m'. override_entries prefix es m')

unfoldable pub build_image_override_map_from_environ : List String → String → Option (Dict String)
unfolding override_entries
build_image_override_map_from_environ environ prefix = override_entries prefix environ []

entry_same :
    (name : String) (m : Dict String) (o : Option String)
    → if_not_empty (image_key image_prefix name) m o ≡ unless_empty name m o
unfolding if_not_empty unless_empty
entry_same name m none = refl
entry_same name m (some image) = elim (Bool-cases (image == "")) [
  | inl e ↦ rw e refl
  | inr e ↦ rw e refl
]

override_entry_same :
    (e : String) (m : Dict String) → override_entry image_prefix e m ≡ image_entry e m
unfolding override_entry image_entry
override_entry_same e m =
    ap (λ r. if has_prefix (first (split_two b'=' e)) image_prefix then r else some m)
      (entry_same (first (split_two b'=' e)) m (second (split_two b'=' e)))

and_next-cong :
    {A : Type 0} (o o' : Option A) (f g : A → Option A)
    → o ≡ o'
    → ((a : A) → f a ≡ g a)
    → and_next o f ≡ and_next o' g
and_next-cong o none f g h k = rw h refl
and_next-cong o (some a) f g h k = rw h (k a)

entries_same :
    (es : List String) (m : Dict String) → override_entries image_prefix es m ≡ image_entries es m
unfolding override_entries image_entries
entries_same [] m = refl
entries_same (e ∷ es) m =
    and_next-cong (override_entry image_prefix e m) (image_entry e m) _ _ (override_entry_same e m)
      (λ m'. entries_same es m')

-- The two operators read the same images from an environment, for the prefix "IMAGE_", and panic on
-- the same environments.
pub build_image_override_map_from_environ_lem :
    (environ : List String)
    → build_image_override_map_from_environ environ image_prefix
      ≡ image_map_from_environment environ
unfolding build_image_override_map_from_environ image_map_from_environment
build_image_override_map_from_environ_lem environ = entries_same environ []

-- The image of a container: the entry for its object and its name, for the generated name of the
-- object and its name, or for its name.
unfoldable pub image_of : Dict String → Workload → Container → String
unfolding lookup
image_of overrides obj c = elim (lookup (obj.name <> "/" <> c.name) overrides) [
  | some image ↦ image
  | none ↦ elim (lookup (obj.generate_name <> "/" <> c.name) overrides) [
    | some image ↦ image
    | none ↦ elim (lookup c.name overrides) [ some image ↦ image | none ↦ c.image ]
  ]
]

abbrev pub override_env : Dict String → EnvVar → EnvVar
unfolding lookup
override_env overrides e = elim (lookup e.name overrides) [
  | some image ↦ record e { value = image }
  | none ↦ e
]

unfoldable pub override_container : Dict String → Workload → Container → Container
unfolding image_of override_env
override_container overrides obj c = record c {
  image = image_of overrides obj c;
  env = map (override_env overrides) c.env;
}

abbrev pub has_images : String → Bool
has_images kind =
    kind == "Deployment" || kind == "DaemonSet" || kind == "StatefulSet" || kind == "Job"

abbrev pub after_conversion :
    {C : Type 0} → Scheme C → Result String (Unstructured C) → Result String (Unstructured C)
after_conversion scheme (err e) = err e
after_conversion scheme (ok u) = ok (scheme.reset_creation_timestamp u)

-- ImageTransform
unfoldable pub image_transform : {C : Type 0} → Scheme C → Dict String → Transformer C
unfolding converting override_container
image_transform scheme overrides u =
    if has_images u.kind
    then after_conversion scheme
        (converting scheme (λ obj. ok (on_containers (override_container overrides obj) obj)) u)
    else ok u
