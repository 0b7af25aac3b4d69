-- ===== src/Ingress/Existing.antt =====
-- The map of the existing Routes that ReconcileKind keeps: what is in it, and what is left in it
-- when the desired Routes have been taken out.
use serverless_operator.Common.{
  String, Bool, true, false, ◌≡◌, refl, List, [], ◌∷◌, inl, inr, any, All, arith, eq_iff, ◌==◌,
  Dict, remove, insert, not, ◌||◌, Bool-cases, eq_refl, any-insert, any-remove, any-weaken,
  filter_keys,
}
use serverless_operator.Ingress.Spec.{Route}
use serverless_operator.Ingress.Reconcile.{by_name}
use serverless_operator.Ingress.Frame.{entry_at, named}
use serverless_operator.Ingress.Loops.{obsolete}

-- Every Route of the map is under its name.
abbrev pub misnamed : String × Route → Bool
misnamed e = not (e.1.name == e.0)

pub any-by_name :
    (q : String × Route → Bool) (rs : List Route) (m : Dict Route)
    → any (λ r. q (r.name, r)) rs ≡ false
    → any q m ≡ false
    → any q (by_name rs m) ≡ false
unfolding by_name
any-by_name q [] m h k = k
any-by_name q (r ∷ rs) m h k =
    any-by_name q rs (insert r.name r m) (ground arith) (any-insert q r.name r m k (ground arith))

pub well_named : (rs : List Route) → any misnamed (by_name rs []) ≡ false
well_named rs = any-by_name misnamed rs [] (none_misnamed rs) refl
  where
    none_misnamed : (rs : List Route) → any (λ r. misnamed (r.name, r)) rs ≡ false
    none_misnamed [] = refl
    none_misnamed (r ∷ rs) = ground (arith, eq_refl r.name, none_misnamed rs)

-- What is taken out of a map of well named Routes is gone from it.
removed_name :
    (k : String) (m : Dict Route)
    → any misnamed m ≡ false
    → any (λ e. named k e.1) (remove k m) ≡ false
unfolding remove filter_keys
removed_name k [] h = refl
removed_name k ((j, r) ∷ m) h =
    ground (arith, removed_name k m, eq_iff r.name j, eq_iff j k, eq_iff r.name k)

pub any-obsolete :
    (q : String × Route → Bool) (rs : List Route) (m : Dict Route)
    → any q m ≡ false
    → any q (obsolete rs m) ≡ false
unfolding obsolete
any-obsolete q [] m h = h
any-obsolete q (r ∷ rs) m h = any-obsolete q rs (remove r.name m) (any-remove q r.name m h)

-- No Route with the name of a desired one is left to delete, in whatever namespace it is.
pub kept_name :
    (k : String) (rs : List Route) (m : Dict Route)
    → any misnamed m ≡ false
    → any (named k) rs ≡ true
    → any (λ e. named k e.1) (obsolete rs m) ≡ false
unfolding obsolete
kept_name k [] m h e = cc
kept_name k (r ∷ rs) m h e = elim (Bool-cases (r.name == k)) [
  | inl here ↦
      any-obsolete (λ e. named k e.1) rs (remove r.name m)
        (rw ((eq_iff r.name k).0 here) (removed_name k m h))
  | inr there ↦ kept_name k rs (remove r.name m) (any-remove misnamed r.name m h) (rw there at e)
]

pub kept_key :
    (n k : String) (rs : List Route) (m : Dict Route)
    → any misnamed m ≡ false
    → any (named k) rs ≡ true
    → any (entry_at n k) (obsolete rs m) ≡ false
kept_key n k rs m h e =
    any-weaken (λ e. named k e.1) (entry_at n k) (obsolete rs m)
      (λ a miss. ground (arith, eq_iff a.1.namespace n)) (kept_name k rs m h e)

pub All-named :
    (rs all : List Route)
    → ((k : String) → any (named k) rs ≡ true → any (named k) all ≡ true)
    → All (λ d. any (named d.name) all ≡ true) rs
All-named [] all h = tt
All-named (r ∷ rs) all h =
    (h r.name (ground (arith, eq_refl r.name)), All-named rs all (λ k e. h k (ground arith)))

any-or :
    (p q : String × Route → Bool) (m : Dict Route)
    → any p m ≡ false
    → any q m ≡ false
    → any (λ e. p e || q e) m ≡ false
any-or p q [] h k = refl
any-or p q (e ∷ m) h k = ground (arith, any-or p q m)

any-remove_self : (r : Route) (m : Dict Route) → any (λ e. named e.0 r) (remove r.name m) ≡ false
unfolding remove filter_keys
any-remove_self r [] = refl
any-remove_self r ((j, q) ∷ m) =
    ground (arith, any-remove_self r m, eq_iff j r.name, eq_iff r.name j)

unwanted_keys :
    (rs : List Route) (m : Dict Route) → any (λ e. any (named e.0) rs) (obsolete rs m) ≡ false
unfolding obsolete
unwanted_keys [] [] = refl
unwanted_keys [] (e ∷ m) = unwanted_keys [] m
unwanted_keys (r ∷ rs) m =
    any-or (λ e. named e.0 r) (λ e. any (named e.0) rs) (obsolete rs (remove r.name m))
      (any-obsolete (λ e. named e.0 r) rs (remove r.name m) (any-remove_self r m))
      (unwanted_keys rs (remove r.name m))

empty_of_tests :
    (p : String × Route → Bool) (m : Dict Route)
    → any p m ≡ false
    → any (λ e. not (p e)) m ≡ false
    → m ≡ []
empty_of_tests p [] h k = refl
empty_of_tests p (e ∷ m) h k = ground arith

-- Where every listed Route has the name of a desired one, nothing is obsolete.
pub obsolete-nil :
    (listed desired : List Route)
    → any (λ r. not (any (named r.name) desired)) listed ≡ false
    → obsolete desired (by_name listed []) ≡ []
obsolete-nil listed desired h =
    empty_of_tests (λ e. any (named e.0) desired) (obsolete desired (by_name listed []))
      (unwanted_keys desired (by_name listed []))
      (any-obsolete (λ e. not (any (named e.0) desired)) desired (by_name listed [])
        (any-by_name (λ e. not (any (named e.0) desired)) listed [] h refl))
