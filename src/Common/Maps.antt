-- ===== src/Common/Maps.antt =====
-- Go's `map[string]V` as an association list: the first entry for a key counts. The program never
-- depends on the order of a map's entries. A nil map and an empty map are both `[]`.
use Prim.Native.String.{String}
use mathlib.Core.Path.{◌≡◌, refl, sym, ap, ◌∙◌}
use mathlib.Core.Logic.{◌↔◌, ◌⊎◌, inl, inr}
use mathlib.Core.Bool.{Bool, true, false, ◌&&◌, not, and-eq-true_iff}
use mathlib.Core.Option.{Option, none, some}
use mathlib.Core.List.{List, [], ◌∷◌}
use serverless_operator.Common.Lists.{any}
use native.Mathlib.Omega.{arith}
use text.Mathlib.Text.{◌==◌}
use text.Mathlib.TextEquality.{eq_iff}
use text.Mathlib.TextPositions.{eq_refl}
use serverless_operator.Common.Tests.{if◌then◌else◌, is_some, Bool-cases}

abbrev pub Dict {ℓ} : Type ℓ → Type ℓ
Dict V = List (String × V)

module _ {ℓ} {V : Type ℓ} where
  unfoldable pub lookup : String → Dict V → Option V
  lookup key [] = none
  lookup key ((head, value) ∷ rest) =
      let later = lookup key rest in if head == key then some value else later

  -- m[key] = value
  unfoldable pub insert : String → V → Dict V → Dict V
  insert key value [] = (key, value) ∷ []
  insert key value ((head, old) ∷ rest) =
      let later = insert key value rest in
      if head == key then (key, value) ∷ rest else (head, old) ∷ later

  -- the entries whose key passes a test
  unfoldable pub filter_keys : (String → Bool) → Dict V → Dict V
  filter_keys p [] = []
  filter_keys p ((j, v) ∷ m) = let rest = filter_keys p m in if p j then (j, v) ∷ rest else rest

  -- delete(m, k)
  unfoldable pub remove : String → Dict V → Dict V
  remove k m = filter_keys (λ j. not (j == k)) m

  -- a copy of the first map with the entries of the second set
  unfoldable pub union : Dict V → Dict V → Dict V
  union m [] = m
  union m ((k, v) ∷ n) = insert k v (union m n)

  unfoldable pub has_key : String → Dict V → Bool
  unfolding lookup
  has_key k m = is_some (lookup k m)

  unfoldable pub lookup_or : V → String → Dict V → V
  unfolding lookup
  lookup_or d k m = elim (lookup k m) [ none ↦ d | some v ↦ v ]

  -- A read after a write.
  pub lookup-insert :
      (written key : String) (value : V) (entries : Dict V)
      → lookup key (insert written value entries)
        ≡ (if written == key then some value else lookup key entries)
  unfolding insert lookup
  lookup-insert written key value [] = refl
  lookup-insert written key value ((head, old) ∷ rest) = ground (
    eq_iff head written,
    eq_iff head key,
    lookup-insert written key value rest,
    arith,
    eq_iff written key,
  )

  pub lookup-filter_keys :
      (p : String → Bool) (k : String) (m : Dict V)
      → lookup k (filter_keys p m) ≡ (if p k then lookup k m else none)
  unfolding lookup filter_keys
  lookup-filter_keys p k [] = ground arith
  lookup-filter_keys p k ((j, v) ∷ m) = ground (arith, eq_iff j k, lookup-filter_keys p k m)

  pub lookup-remove :
      (k j : String) (m : Dict V) → lookup j (remove k m) ≡ (if j == k then none else lookup j m)
  unfolding remove
  lookup-remove k j m = rw lookup-filter_keys (ground arith)

  pub lookup-union :
      (k : String) (m n : Dict V)
      → lookup k (union m n) ≡ elim (lookup k n) [ none ↦ lookup k m | some v ↦ some v ]
  unfolding union lookup
  lookup-union k m [] = refl
  lookup-union k m ((j, v) ∷ n) = rw lookup-insert (ground (arith, lookup-union k m n))

  pub lookup_or-insert :
      (d v : V) (k j : String) (m : Dict V)
      → lookup_or d j (insert k v m) ≡ (if k == j then v else lookup_or d j m)
  unfolding lookup_or
  lookup_or-insert d v k j m = ground (arith, lookup-insert k j v m)

  -- A test that no entry of a map passes, and not the new one, no entry passes after the write.
  pub any-insert :
      (q : String × V → Bool) (k : String) (v : V) (m : Dict V)
      → any q m ≡ false
      → q (k, v) ≡ false
      → any q (insert k v m) ≡ false
  unfolding insert
  any-insert q k v [] h e = ground arith
  any-insert q k v ((j, w) ∷ m) h e = ground (arith, any-insert q k v m)

  pub any-filter_keys :
      (q : String × V → Bool) (p : String → Bool) (m : Dict V)
      → any q m ≡ false
      → any q (filter_keys p m) ≡ false
  unfolding filter_keys
  any-filter_keys q p [] h = refl
  any-filter_keys q p ((j, w) ∷ m) h = ground (arith, any-filter_keys q p m)

  pub any-remove :
      (q : String × V → Bool) (k : String) (m : Dict V)
      → any q m ≡ false
      → any q (remove k m) ≡ false
  unfolding remove
  any-remove q k m h = any-filter_keys q (λ j. not (j == k)) m h

  pub lookup-nil : (k : String) → lookup k [] ≡ none
  unfolding lookup
  lookup-nil k = refl

  pub lookup-cons_hit :
      (j k : String) (v : V) (m : Dict V) → (j == k) ≡ true → lookup k ((j, v) ∷ m) ≡ some v
  unfolding lookup
  lookup-cons_hit j k v m e = rw e

  pub lookup-cons_miss :
      (j k : String) (v : V) (m : Dict V) → (j == k) ≡ false → lookup k ((j, v) ∷ m) ≡ lookup k m
  unfolding lookup
  lookup-cons_miss j k v m e = rw e

pub ruleset dict_laws = (lookup-insert, lookup-remove, lookup-filter_keys, lookup-union)

-- Two maps with the same entries.
abbrev pub SameMap {ℓ} : {V : Type ℓ} → Dict V → Dict V → Type ℓ
SameMap m n = (k : String) → lookup k m ≡ lookup k n

pub SameMap-refl {ℓ} : {V : Type ℓ} (m : Dict V) → SameMap m m
SameMap-refl m k = refl

-- Equality of two looked up values.
abbrev same_value : Option String → Option String → Bool
same_value none none = true
same_value none (some b) = false
same_value (some a) none = false
same_value (some a) (some b) = a == b

-- The two maps agree at every key of the list.
agree_at : Dict String → Dict String → Dict String → Bool
agree_at [] m n = true
agree_at ((k, v) ∷ rest) m n = same_value (lookup k m) (lookup k n) && agree_at rest m n

-- A decision of `SameMap`.
unfoldable pub same_map : Dict String → Dict String → Bool
unfolding agree_at lookup
same_map m n = agree_at m m n && agree_at n m n

same_value_sound : (a b : Option String) → same_value a b ≡ true → a ≡ b
same_value_sound none none h = refl
same_value_sound none (some b) h = cc
same_value_sound (some a) none h = cc
same_value_sound (some a) (some b) h = ap some ((eq_iff a b).0 h)

same_value_refl : (a : Option String) → same_value a a ≡ true
same_value_refl none = refl
same_value_refl (some a) = eq_refl a

agree_at_sound :
    (l m n : Dict String) (k : String)
    → agree_at l m n ≡ true
    → (lookup k l ≡ none) ⊎ (lookup k m ≡ lookup k n)
unfolding agree_at lookup
agree_at_sound [] m n k h = inl refl
agree_at_sound ((j, v) ∷ l) m n k h =
    let (here, later) = (and-eq-true_iff _ _).0 h in
    let rest : (lookup k l ≡ none) ⊎ (lookup k m ≡ lookup k n) = agree_at_sound l m n k later in
    let same : lookup j m ≡ lookup j n = same_value_sound _ _ here in
    elim (Bool-cases (j == k)) [ inl e ↦ inr (rw ((eq_iff j k).0 e) at same) | inr e ↦ rw e rest ]

agree_at_complete : (l m n : Dict String) → SameMap m n → agree_at l m n ≡ true
unfolding agree_at
agree_at_complete [] m n h = refl
agree_at_complete ((k, v) ∷ l) m n h =
    let here : same_value (lookup k m) (lookup k n) ≡ true =
      rw (h k) (same_value_refl (lookup k n)) in
    (and-eq-true_iff _ _).1 (here, agree_at_complete l m n h)

pub same_map_iff : (m n : Dict String) → (same_map m n ≡ true) ↔ SameMap m n
unfolding same_map
same_map_iff m n =
    (sound, λ h. (and-eq-true_iff _ _).1 (agree_at_complete m m n h, agree_at_complete n m n h))
  where
    sound : same_map m n ≡ true → SameMap m n
    sound h k =
        let (left, right) = (and-eq-true_iff _ _).0 h in
        elim (agree_at_sound m m n k left) [
          | inr e ↦ e
          | inl gone ↦ elim (agree_at_sound n m n k right) [
            | inr e ↦ e
            | inl missing ↦ gone ∙ sym missing
          ]
        ]
