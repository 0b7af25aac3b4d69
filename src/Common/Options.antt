-- ===== src/Common/Options.antt =====
-- Chains of optional results.
use mathlib.Core.Path.{◌≡◌, refl}
use mathlib.Core.Option.{Option, none, some}

infixl 5 ◌>>=◌
abbrev pub ◌>>=◌ : {A B : Type 0} → Option A → (A → Option B) → Option B
none >>= next = none
some a >>= next = next a

-- A chain with a result has one in each of its two steps.
pub >>=-eq-some :
    {A B : Type 0} (first : Option A) (next : A → Option B) {b : B}
    → (first >>= next) ≡ some b
    → (a : A) × (first ≡ some a) × (next a ≡ some b)
>>=-eq-some none next h = cc h
>>=-eq-some (some a) next h = (a, refl, h)
