-- ===== src/Common/Text.antt =====
-- What the program uses of Go's `strings` and `strconv`, over the native text.
use Prim.Native.Char.{Char, code}
use Prim.Native.String
use Prim.Native.String.{String, [], ◌∷◌, len, slice, find}
use Prim.Native.Nat.{ℕ, zero, suc, ◌+◌, ◌-◌, ◌*◌, ◌/◌, ◌%◌, ◌^◌}
use mathlib.Core.Bool.{Bool, true, false, ◌&&◌}
use mathlib.Core.Option.{Option, none, some}
use mathlib.Core.List.{List}
use mathlib.Core.Path.{◌≡◌, refl}
use mathlib.Core.Logic.{inl, inr}
use text.Mathlib.Text.{starts_with, find?}
use serverless_operator.Common.Tests.{if◌then◌else◌, leb, ltb, eqb, Bool-cases}

-- s + t
infixr 65 ◌<>◌
abbrev pub ◌<>◌ : String → String → String
s <> t = String.◌++◌ s t

-- strings.HasPrefix(s, prefix)
unfoldable pub has_prefix : String → String → Bool
has_prefix s prefix = starts_with s prefix

-- strings.TrimPrefix(s, prefix)
unfoldable pub trim_prefix : String → String → String
unfolding has_prefix
trim_prefix s prefix = if has_prefix s prefix then slice s (len prefix) (len s) else s

-- strings.Replace(s, old, new, 1), `old` not empty
unfoldable pub replace_first : String → String → String → String
replace_first s old new = elim (find? s old) [
  | none ↦ s
  | some i ↦ slice s 0 i <> new <> slice s (i + len old) (len s)
]

split_from : ℕ → String → String → List String
split_from sep cur [] = List.◌∷◌ cur List.[]
split_from sep cur (c ∷ s) =
    let closed = List.◌∷◌ cur (split_from sep "" s) in
    let longer = split_from sep (cur <> (c ∷ [])) s in if eqb (code c) sep then closed else longer

-- strings.Split(s, sep) for a separator of one character
unfoldable pub split : ℕ → String → List String
unfolding split_from
split sep s = split_from sep "" s

split_from-cons :
    (sep : ℕ) (cur s : String)
    → (d : String) × (ds : List String) × (split_from sep cur s ≡ List.◌∷◌ d ds)
unfolding split_from
split_from-cons sep cur [] = (cur, List.[], refl)
split_from-cons sep cur (c ∷ s) =
    let closed = split_from sep "" s in
    let (d, ds, longer) = split_from-cons sep (cur <> (c ∷ [])) s in
    elim (Bool-cases (eqb (code c) sep)) [
      | inl e ↦ (cur, closed, rw e refl)
      | inr e ↦ (d, ds, rw e longer)
    ]

-- A split never gives an empty list.
pub split-cons :
    (sep : ℕ) (s : String) → (d : String) × (ds : List String) × (split sep s ≡ List.◌∷◌ d ds)
unfolding split
split-cons sep s = split_from-cons sep "" s

-- strings.SplitN(s, sep, 2) for a separator of one character
unfoldable pub split_two : ℕ → String → List String
split_two sep [] = List.◌∷◌ "" List.[]
split_two sep (c ∷ s) =
    let later = grow c (split_two sep s) in
    let now = List.◌∷◌ "" (List.◌∷◌ s List.[]) in if eqb (code c) sep then now else later
  where
    grow : Char → List String → List String
    grow c List.[] = List.[]
    grow c (List.◌∷◌ p ps) = List.◌∷◌ (c ∷ p) ps

-- strings.Join(parts, sep)
unfoldable pub join : String → List String → String
join sep List.[] = ""
join sep (List.◌∷◌ s List.[]) = s
join sep (List.◌∷◌ s (List.◌∷◌ t rest)) = s <> sep <> join sep (List.◌∷◌ t rest)

-- `negsuc n` is -(n + 1).
pub data ℤ : Type 0 where
  pos : ℕ → ℤ
  negsuc : ℕ → ℤ

digits : ℕ → String → Option ℕ
digits n [] = some n
digits n (c ∷ rest) =
    let d = code c in
    let more = digits (n * 10 + (d - 48)) rest in if leb 48 d && leb d 57 then more else none

-- at least one decimal digit and nothing else
natural : String → Option ℕ
unfolding digits
natural [] = none
natural (c ∷ s) = digits 0 (c ∷ s)

at_most : ℕ → ℕ → Option ℕ
at_most top n = if leb n top then some n else none

negative : ℕ → ℤ
negative zero = pos 0
negative (suc n) = negsuc n

as_pos : Option ℕ → Option ℤ
unfolding at_most
as_pos none = none
as_pos (some n) = if ltb n (2 ^ 63) then some (pos n) else none

as_neg : Option ℕ → Option ℤ
unfolding negative
as_neg none = none
as_neg (some n) = if leb n (2 ^ 63) then some (negative n) else none

-- strconv.ParseInt(s, 10, 64): an optional sign, then decimal digits, in the range of an int64
unfoldable pub parse_int64 : String → Option ℤ
unfolding natural as_pos as_neg
parse_int64 [] = none
parse_int64 (c ∷ s) =
    if eqb (code c) b'+'
    then as_pos (natural s)
    else if eqb (code c) b'-'
    then as_neg (natural s)
    else as_pos (natural (c ∷ s))

clamp_pos : Option ℕ → ℤ
clamp_pos none = pos 0
clamp_pos (some n) = if ltb n (2 ^ 63) then pos n else pos (2 ^ 63 - 1)

clamp_neg : Option ℕ → ℤ
unfolding negative
clamp_neg none = pos 0
clamp_neg (some n) = if leb n (2 ^ 63) then negative n else negative (2 ^ 63)

-- the value of strconv.Atoi(s), its error ignored: 0 where s is no number, and the nearest int64
-- where the number is out of range
unfoldable pub atoi : String → ℤ
unfolding natural clamp_pos clamp_neg
atoi [] = pos 0
atoi (c ∷ s) =
    if eqb (code c) b'+'
    then clamp_pos (natural s)
    else if eqb (code c) b'-'
    then clamp_neg (natural s)
    else clamp_pos (natural (c ∷ s))

digit : ℕ → String
digit n = slice "0123456789" n (n + 1)

-- The decimal digits of a number in front of a text, at most as many as the first argument says.
decimal : ℕ → ℕ → String → String
unfolding digit
decimal zero n rest = rest
decimal (suc d) n rest = elim (ltb n 10) [
  | true ↦ digit n <> rest
  | false ↦ decimal d (n / 10) (digit (n % 10) <> rest)
]

-- fmt.Sprintf("%d", z) of an int64: no such number has more than 19 digits.
unfoldable pub show_int64 : ℤ → String
unfolding decimal
show_int64 (pos n) = decimal 20 n ""
show_int64 (negsuc n) = "-" <> decimal 20 (n + 1) ""

split_tests :
    (split b'.' "a.b.svc" ≡ List.◌∷◌ "a" (List.◌∷◌ "b" (List.◌∷◌ "svc" List.[])))
    × (split b'.' "" ≡ List.◌∷◌ "" List.[])
unfolding split
split_tests = (refl, refl)

parse_int64_tests :
    (parse_int64 "600" ≡ some (pos 600))
    × (parse_int64 "-1" ≡ some (negsuc 0))
    × (parse_int64 "9223372036854775808" ≡ none)
    × (parse_int64 "-9223372036854775808" ≡ some (negsuc 9223372036854775807))
    × (parse_int64 "5s" ≡ none)
    × (parse_int64 "" ≡ none)
unfolding parse_int64
parse_int64_tests = (refl, refl, refl, refl, refl, refl)

number_tests :
    (show_int64 (pos 0) ≡ "0")
    × (show_int64 (pos 9223372036854775807) ≡ "9223372036854775807")
    × (show_int64 (negsuc 41) ≡ "-42")
    × (atoi "10" ≡ pos 10)
    × (atoi "x" ≡ pos 0)
    × (atoi "9223372036854775808" ≡ pos 9223372036854775807)
unfolding show_int64 atoi
number_tests = (refl, refl, refl, refl, refl, refl)

prefix_tests :
    (has_prefix "argocd.argoproj.io/x" "argocd" ≡ true)
    × (trim_prefix "IMAGE_a" "IMAGE_" ≡ "a")
    × (replace_first "a__b__c" "__" "/" ≡ "a/b__c")
unfolding has_prefix trim_prefix replace_first
prefix_tests = (refl, refl, refl)
