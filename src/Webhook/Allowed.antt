-- ===== src/Webhook/Allowed.antt =====
-- What each stage of the validators allows, and a list of stages.
use serverless_operator.Common.{
  String, ◌≡◌, refl, ap, ◌∙◌, sym, inl, inr, Bool, true, false, ◌&&◌, ◌||◌, not, ◌==◌, Option, none,
  some, List, [], ◌∷◌, if◌then◌else◌, Result, ok, err, any, all, arith, Bool-cases,
}
use serverless_operator.Kafka.Spec.{Channel}
use serverless_operator.Webhook.{
  Verdict, allow, deny, run_stages, validate_namespace, validate_loneliness, validate_channel,
  validate_eventing,
}

-- All stages allow.
abbrev pub all_allow : {K : Type 0} → List (K → Verdict) → K → Bool
all_allow stages k = all (λ stage. (stage k).allowed) stages

pub stage-allowed :
    (a b : Bool) (v rest : Verdict)
    → v.allowed ≡ a
    → (a ≡ true → rest.allowed ≡ b)
    → (if a then rest else v).allowed ≡ (a && b)
stage-allowed true b v rest h k = k refl
stage-allowed false b v rest h k = h

pub run_stages-allowed :
    {K : Type 0} (stages : List (K → Verdict)) (k : K) (last : Verdict)
    → last.allowed ≡ true
    → (run_stages stages k last).allowed ≡ all_allow stages k
unfolding run_stages
run_stages-allowed [] k last h = h
run_stages-allowed (stage ∷ stages) k last h =
    stage-allowed (stage k).allowed (all_allow stages k) (stage k) (run_stages stages k (stage k))
      refl (λ e. run_stages-allowed stages k (stage k) e)

-- The same for a loop that has a stage, where the results before the loop do not matter.
pub run_stages-allowed_cons :
    {K : Type 0} (stage : K → Verdict) (stages : List (K → Verdict)) (k : K) (last : Verdict)
    → (run_stages (stage ∷ stages) k last).allowed ≡ all_allow (stage ∷ stages) k
unfolding run_stages
run_stages-allowed_cons stage stages k last =
    stage-allowed (stage k).allowed (all_allow stages k) (stage k) (run_stages stages k (stage k))
      refl (λ e. run_stages-allowed stages k (stage k) e)

-- The conditions of the four stages.
abbrev pub in_namespace : Option String → String → Bool
in_namespace none namespace = true
in_namespace (some required) namespace = required == namespace

abbrev pub lonely : Result String (List String) → String → Bool
lonely (err e) name = false
lonely (ok names) name = all (λ n. name == n) names

abbrev pub well_shaped : Channel → Bool
well_shaped c =
    (not c.enabled || not (c.bootstrap_servers == ""))
    && ((c.auth_secret_name == "" && c.auth_secret_namespace == "")
        || (not (c.auth_secret_name == "") && not (c.auth_secret_namespace == "")))

abbrev pub installed : Result String (List String) → Bool
installed (err e) = false
installed (ok []) = false
installed (ok (n ∷ ns)) = true

pub validate_namespace-allowed :
    (kind : String) (required : Option String) (namespace : String)
    → (validate_namespace kind required namespace).allowed ≡ in_namespace required namespace
unfolding validate_namespace
validate_namespace-allowed kind none namespace = refl
validate_namespace-allowed kind (some required) namespace =
    elim (Bool-cases (required == namespace)) [ inl e ↦ rw e refl | inr e ↦ rw e refl ]

pub not-any :
    (name : String) (ns : List String)
    → not (any (λ n. not (name == n)) ns) ≡ all (λ n. name == n) ns
not-any name [] = refl
not-any name (n ∷ ns) = ground (arith, not-any name ns)

pub validate_loneliness-allowed :
    (kind : String) (answer : Result String (List String)) (name : String)
    → (validate_loneliness kind answer name).allowed ≡ lonely answer name
unfolding validate_loneliness
validate_loneliness-allowed kind (err e) name = refl
validate_loneliness-allowed kind (ok names) name =
    elim (Bool-cases (any (λ n. not (name == n)) names)) [
      | inl e ↦ rw e (ap not (sym e) ∙ not-any name names)
      | inr e ↦ rw e (ap not (sym e) ∙ not-any name names)
    ]

pub shape-allowed :
    (e b n m : Bool) (r₁ r₂ r₃ : String)
    → (if e && b
        then deny r₁
        else if not n && m
        then deny r₂
        else if not m && n
        then deny r₃
        else allow).allowed
      ≡ ((not e || not b) && ((n && m) || (not n && not m)))
shape-allowed true true n m r₁ r₂ r₃ = refl
shape-allowed true false true true r₁ r₂ r₃ = refl
shape-allowed true false true false r₁ r₂ r₃ = refl
shape-allowed true false false true r₁ r₂ r₃ = refl
shape-allowed true false false false r₁ r₂ r₃ = refl
shape-allowed false b true true r₁ r₂ r₃ = refl
shape-allowed false b true false r₁ r₂ r₃ = refl
shape-allowed false b false true r₁ r₂ r₃ = refl
shape-allowed false b false false r₁ r₂ r₃ = refl

pub validate_channel-allowed : (c : Channel) → (validate_channel c).allowed ≡ well_shaped c
unfolding validate_channel
validate_channel-allowed c =
    shape-allowed c.enabled (c.bootstrap_servers == "") (c.auth_secret_name == "")
      (c.auth_secret_namespace == "") _ _ _

pub validate_eventing-allowed :
    (answer : Result String (List String)) → (validate_eventing answer).allowed ≡ installed answer
unfolding validate_eventing
validate_eventing-allowed (err e) = refl
validate_eventing-allowed (ok []) = refl
validate_eventing-allowed (ok (n ∷ ns)) = refl
