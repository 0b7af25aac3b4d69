-- ===== src/Common/Calls.antt =====
-- Calls of an API server and of a library: errors as values, answers to reads, and runs over a state
-- that end at the first error.
use Prim.Native.String.{String}
use mathlib.Core.Path.{◌≡◌, refl}
use mathlib.Core.Logic.{◌⊎◌, inl, inr}
use mathlib.Core.Bool.{Bool}
use mathlib.Core.Option.{Option, none, some}
use serverless_operator.Common.Text.{◌<>◌}

-- An error: its text, and whether a NoKindMatchError or a NoResourceMatchError is in its chain.
pub record Error : Type 0 where
  pub message : String
  pub no_match : Bool

-- fmt.Errorf("...: %w", err)
abbrev pub wrap : String → Error → Error
wrap prefix e = record e { message = prefix <> e.message }

-- The answer to a read: apierrors.IsNotFound(err) tells the last two apart.
pub data Answer (A : Type 0) : Type 0 where
  found : A → Answer A
  not_found : Error → Answer A
  failed : Error → Answer A

-- The state after some calls, and the error that ended them, if any.
abbrev pub Outcome : Type 0 → Type 0
Outcome A = A × Option Error

-- if err != nil { return err }
abbrev pub continue : {A : Type 0} → Outcome A → (A → Outcome A) → Outcome A
continue (a, none) next = next a
continue (a, some e) next = (a, some e)

-- A run without an error is two runs without one.
pub continue-eq-none :
    {A : Type 0} (m : Outcome A) (next : A → Outcome A) {b : A}
    → continue m next ≡ (b, none)
    → (a : A) × (m ≡ (a, none)) × (next a ≡ (b, none))
continue-eq-none (a, none) next h = (a, refl, h)
continue-eq-none (a, some e) next h = cc h

-- What the second of two runs always leaves, the two leave.
pub continue-last :
    {A : Type 0} (P : A → Type 0) (m : Outcome A) (next : A → Outcome A) {b : A}
    → ((a : A) → next a ≡ (b, none) → P b)
    → continue m next ≡ (b, none)
    → P b
continue-last P (a, none) next k h = k a h
continue-last P (a, some e) next k h = cc h

-- if err := f(); err != nil { return fmt.Errorf("...: %w", err) }
abbrev pub wrapping : {A : Type 0} → String → Outcome A → Outcome A
wrapping prefix (a, none) = (a, none)
wrapping prefix (a, some e) = (a, some (wrap prefix e))

pub wrapping-eq-none :
    {A : Type 0} (prefix : String) (m : Outcome A) {a : A}
    → wrapping prefix m ≡ (a, none)
    → m ≡ (a, none)
wrapping-eq-none prefix (a, none) h = h
wrapping-eq-none prefix (a, some e) h = cc h

pub Answer-cases :
    {A : Type 0} (a : Answer A)
    → ((o : A) × (a ≡ found o))
      ⊎ (((e : Error) × (a ≡ not_found e)) ⊎ ((e : Error) × (a ≡ failed e)))
Answer-cases (found o) = inl (o, refl)
Answer-cases (not_found e) = inr (inl (e, refl))
Answer-cases (failed e) = inr (inr (e, refl))
