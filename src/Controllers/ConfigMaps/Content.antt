-- ===== src/Controllers/ConfigMaps/Content.antt =====
-- The content of a ConfigMap: what a server keeps of it, and what reconcileConfigMap asks for.
use serverless_operator.Common.{
  String, ◌≡◌, refl, subst, Bool, true, false, Option, none, some, not, ◌||◌, Dict, inl, inr,
  Bool-cases, SameMap, SameMap-refl, same_map, same_map_iff, Error, Answer, found, Result, ok,
}
use serverless_operator.Controllers.Spec.{Instance, ConfigMap, Objects, Stored}
use serverless_operator.Controllers.ConfigMaps.{
  replaced, replaced_contents, other_contents, changed_config_map, config_map_differs,
  contents_or_nil,
}

-- The second ConfigMap is the first one as a server or the owner reference leaves it.
pub record SameContent {R : Type 0} (cm cm' : ConfigMap R) : Type 0 where
  pub same_name : cm'.name ≡ cm.name
  pub same_namespace : cm'.namespace ≡ cm.namespace
  pub same_annotations : cm'.annotations ≡ cm.annotations
  pub same_labels : cm'.labels ≡ cm.labels
  pub same_contents : cm'.contents ≡ cm.contents

-- What the documentation of the API promises of ConfigMaps.
pub record IsServer {R X : Type 0} (objects : Objects (ConfigMap R) X) : Type 0 where
  pub got :
      (namespace name : String) (x : X) (cm : ConfigMap R)
      → objects.get namespace name x ≡ found cm
      → (cm.namespace ≡ namespace) × (cm.name ≡ name)
  pub created :
      (cm cm' : ConfigMap R) (x x' : X)
      → objects.create cm x ≡ (x', ok cm')
      → Stored objects cm.namespace cm.name cm' x x' × SameContent cm cm'
  pub updated :
      (cm cm' : ConfigMap R) (x x' : X)
      → objects.update cm x ≡ (x', ok cm')
      → Stored objects cm.namespace cm.name cm' x x' × SameContent cm cm'

-- The owner reference changes nothing else.
abbrev pub IsReference :
    {S R : Type 0} → (Instance S → ConfigMap R → Result Error (ConfigMap R)) → Type 0
IsReference {S} {R} set =
    (instance : Instance S) (cm cm' : ConfigMap R) → set instance cm ≡ ok cm' → SameContent cm cm'

-- The data, where data are asked for.
abbrev pub HasContents : Option (Dict String) → Dict String → Type 0
HasContents none contents = Unit
HasContents (some wanted) contents = SameMap wanted contents

abbrev pub IsDesired :
    {R : Type 0} → Dict String → Dict String → Option (Dict String) → ConfigMap R → Type 0
IsDesired annotations labels contents cm =
    SameMap labels cm.labels × SameMap annotations cm.annotations × HasContents contents cm.contents

replaced-SameMap : (wanted old : Dict String) → SameMap wanted (replaced wanted old)
replaced-SameMap wanted old = elim (Bool-cases (same_map wanted old)) [
  | inl e ↦ rw e ((same_map_iff wanted old).0 e)
  | inr e ↦ rw e (SameMap-refl wanted)
]

replaced_contents-HasContents :
    (contents : Option (Dict String)) (old : Dict String)
    → HasContents contents (replaced_contents contents old)
replaced_contents-HasContents none old = tt
replaced_contents-HasContents (some wanted) old = replaced-SameMap wanted old

pub contents_or_nil-HasContents :
    (contents : Option (Dict String)) → HasContents contents (contents_or_nil contents)
contents_or_nil-HasContents none = tt
contents_or_nil-HasContents (some wanted) = SameMap-refl wanted

or-eq-false : (a b : Bool) → (a || b) ≡ false → (a ≡ false) × (b ≡ false)
or-eq-false true b h = cc
or-eq-false false b h = (refl, h)

not-eq-false : (b : Bool) → not b ≡ false → b ≡ true
not-eq-false true h = refl
not-eq-false false h = cc

other_contents-eq-false :
    {R : Type 0} (contents : Option (Dict String)) (cm : ConfigMap R)
    → other_contents contents cm ≡ false
    → HasContents contents cm.contents
other_contents-eq-false none cm h = tt
other_contents-eq-false (some wanted) cm h = (same_map_iff wanted cm.contents).0 (not-eq-false _ h)

eq-false-other_contents :
    {R : Type 0} (contents : Option (Dict String)) (cm : ConfigMap R)
    → HasContents contents cm.contents
    → other_contents contents cm ≡ false
eq-false-other_contents none cm h = refl
eq-false-other_contents (some wanted) cm h = rw ((same_map_iff wanted cm.contents).1 h) refl

-- What one object in the cluster has been given, and that the others are as they were.
abbrev pub IsReconciled :
    {R X : Type 0}
    → Objects (ConfigMap R) X
    → String
    → String
    → Dict String
    → Dict String
    → Option (Dict String)
    → ConfigMap R
    → X
    → X
    → Type 0
IsReconciled objects namespace name annotations labels contents cm x x' =
    Stored objects namespace name cm x x' × IsDesired annotations labels contents cm

module _ {R : Type 0} (annotations labels : Dict String) (contents : Option (Dict String)) where
  pub IsDesired-SameContent :
      (cm cm' : ConfigMap R)
      → SameContent cm cm'
      → IsDesired annotations labels contents cm
      → IsDesired annotations labels contents cm'
  IsDesired-SameContent cm cm' same (l, a, c) =
      (rw same.same_labels l, rw same.same_annotations a, rw same.same_contents c)

  pub changed_config_map-IsDesired :
      (cm : ConfigMap R)
      → IsDesired annotations labels contents (changed_config_map annotations labels contents cm)
  changed_config_map-IsDesired cm = (
    replaced-SameMap labels cm.labels,
    replaced-SameMap annotations cm.annotations,
    replaced_contents-HasContents contents cm.contents,
  )

  pub differs-eq-false :
      (cm : ConfigMap R)
      → config_map_differs annotations labels contents cm ≡ false
      → IsDesired annotations labels contents cm
  differs-eq-false cm h =
      let (both, c) = or-eq-false _ _ h in
      let (l, a) = or-eq-false _ _ both in
      (
        (same_map_iff labels cm.labels).0 (not-eq-false _ l),
        (same_map_iff annotations cm.annotations).0 (not-eq-false _ a),
        other_contents-eq-false contents cm c,
      )

  pub eq-false-differs :
      (cm : ConfigMap R)
      → IsDesired annotations labels contents cm
      → config_map_differs annotations labels contents cm ≡ false
  eq-false-differs cm (l, a, c) =
      rw ((same_map_iff labels cm.labels).1 l, (same_map_iff annotations cm.annotations).1 a)
        (eq-false-other_contents contents cm c)

pub Stored-at :
    {O X : Type 0} (objects : Objects O X) (o : O) (x' : X) {ns ns' n n' : String} {x y : X}
    → ns ≡ ns'
    → n ≡ n'
    → x ≡ y
    → Stored objects ns n o x x'
    → Stored objects ns' n' o y x'
Stored-at objects o x' {ns} {ns'} {n} {n'} {x} {y} e f g s =
    subst (λ m. Stored objects m n' o y x') e
      (subst (λ m. Stored objects ns m o y x') f (subst (λ z. Stored objects ns n o z x') g s))

pub done_inj :
    {X A : Type 0} {x x' : X} {a a' : A}
    → ◌≡◌ {A = X × Result Error A} (x, ok a) (x', ok a')
    → ◌≡◌ {A = X × A} (x, a) (x', a')
done_inj h = cc h

pub found_inj : {A : Type 0} {a b : A} → ◌≡◌ {A = Answer A} (found a) (found b) → a ≡ b
found_inj h = cc h
