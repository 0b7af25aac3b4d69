-- ===== src/Common/Run.antt =====
-- Code that changes a state and may fail: a step gives the state that it leaves and a result or an
-- error, and the first error ends a run.
use Prim.Native.String.{String}
use mathlib.Core.Path.{◌≡◌, refl}
use mathlib.Core.List.{List, [], ◌∷◌}
use serverless_operator.Common.Results.{Result, ok, err}
use serverless_operator.Common.Calls.{Error, wrap}

abbrev pub Run : Type 0 → Type 0 → Type 0
Run X A = X → X × Result Error A

abbrev pub after : {X A B : Type 0} → X × Result Error A → (A → Run X B) → X × Result Error B
after (x, ok a) next = next a x
after (x, err e) next = (x, err e)

infixl 5 ◌>>=◌ ◌>>◌
abbrev pub ◌>>=◌ : {X A B : Type 0} → Run X A → (A → Run X B) → Run X B
◌>>=◌ m next x = after (m x) next

abbrev pub ◌>>◌ : {X A B : Type 0} → Run X A → Run X B → Run X B
◌>>◌ m next x = after (m x) (λ _. next)

-- return a, nil
abbrev pub done : {X A : Type 0} → A → Run X A
done a x = (x, ok a)

-- return err
abbrev pub fail : {X A : Type 0} → Error → Run X A
fail e x = (x, err e)

-- the error of a call that does not touch the state
abbrev pub lift : {X A : Type 0} → Result Error A → Run X A
lift r x = (x, r)

abbrev pub wrap_error : {X A : Type 0} → String → X × Result Error A → X × Result Error A
wrap_error prefix (x, ok a) = (x, ok a)
wrap_error prefix (x, err e) = (x, err (wrap prefix e))

-- if err != nil { return fmt.Errorf("...: %w", err) }
abbrev pub wrapping : {X A : Type 0} → String → Run X A → Run X A
wrapping prefix m x = wrap_error prefix (m x)

-- A list of stages, in order, up to the first error.
unfoldable pub run_all : {X : Type 0} → List (Run X (Unit {0})) → Run X (Unit {0})
run_all [] = done tt
run_all (stage ∷ stages) = do stage; run_all stages

-- A run without an error is two runs without one.
pub after-eq-ok :
    {X A B : Type 0} (r : X × Result Error A) (next : A → Run X B) {x' : X} {b : B}
    → after r next ≡ (x', ok b)
    → (x : X) × (a : A) × (r ≡ (x, ok a)) × (next a x ≡ (x', ok b))
after-eq-ok (x, ok a) next h = (x, a, refl, h)
after-eq-ok (x, err e) next h = cc h

pub wrap_error-eq-ok :
    {X A : Type 0} (prefix : String) (r : X × Result Error A) {x' : X} {a : A}
    → wrap_error prefix r ≡ (x', ok a)
    → r ≡ (x', ok a)
wrap_error-eq-ok prefix (x, ok a) h = h
wrap_error-eq-ok prefix (x, err e) h = cc h
