-- ===== src/Common/Sets.antt =====
-- Lists of names as sets: membership after an append and after a removal.
use Prim.Native.String.{String}
use mathlib.Core.Path.{◌≡◌, refl}
use mathlib.Core.Bool.{Bool, false, ◌||◌, not}
use mathlib.Core.List.{List, [], ◌∷◌, ◌++◌}
use native.Mathlib.Omega.{arith}
use text.Mathlib.Text.{◌==◌}
use text.Mathlib.TextEquality.{eq_iff}
use serverless_operator.Common.Lists.{any, select}

pub any-append :
    {A : Type 0} (p : A → Bool) (xs ys : List A) → any p (xs ++ ys) ≡ (any p xs || any p ys)
any-append p [] ys = refl
any-append p (x ∷ xs) ys = ground (arith, any-append p xs ys)

pub gone_after_select :
    (name : String) (xs : List String)
    → any (λ f. f == name) (select (λ f. not (f == name)) xs) ≡ false
gone_after_select name [] = refl
gone_after_select name (x ∷ xs) = ground (arith, gone_after_select name xs)

pub kept_by_select :
    (name other : String) (xs : List String)
    → (other == name) ≡ false
    → any (λ f. f == other) (select (λ f. not (f == name)) xs) ≡ any (λ f. f == other) xs
kept_by_select name other [] h = refl
kept_by_select name other (x ∷ xs) h =
    ground (arith, eq_iff x name, eq_iff x other, eq_iff other name, kept_by_select name other xs)
