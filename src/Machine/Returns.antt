-- ===== src/Machine/Returns.antt =====
-- Total correctness of a run: no access violation, and a postcondition.
use memwrapper.Base.{◌≡◌, refl, some, Option}
use mathlib.Core.Path.{subst}
use memwrapper.Machine.{World, M, and_then}

pub data Returns {K A : Type 0} (P : A → World K → Type 0) : Option (A × World K) → Type 0 where
  returns : {a : A} {w : World K} → P a w → Returns P (some (a, w))

module _ {K A : Type 0} {P : A → World K → Type 0} where
  pub bind :
      {B : Type 0} {Q : B → World K → Type 0} {r : Option (A × World K)} {f : A → M K B}
      → Returns P r
      → ((a : A) (w : World K) → P a w → Returns Q (f a w))
      → Returns Q (and_then r f)
  bind (returns p) next = next _ _ p

  pub mono :
      {Q : A → World K → Type 0} {r : Option (A × World K)}
      → Returns P r
      → ((a : A) (w : World K) → P a w → Q a w)
      → Returns Q r
  mono (returns p) weaken = returns (weaken _ _ p)

  -- A run that returns has an outcome.
  pub outcome :
      {r : Option (A × World K)} → Returns P r → (a : A) × (w : World K) × (r ≡ some (a, w)) × P a w
  outcome (returns p) = (_, _, refl, p)

  at_result : {a : A} {w : World K} → Returns P (some (a, w)) → P a w
  at_result (returns p) = p

  -- It is what the run gives.
  pub result :
      {r : Option (A × World K)} {a : A} {w : World K} → Returns P r → r ≡ some (a, w) → P a w
  result ret e = at_result (subst (Returns P) e ret)

  pub of_eq :
      {r : Option (A × World K)} {a : A} {w : World K} → r ≡ some (a, w) → P a w → Returns P r
  of_eq e p = rw e (returns p)

-- A first part whose result is known.
pub after :
    {K A B : Type 0} {Q : B → World K → Type 0} {r : Option (A × World K)} (f : A → M K B) (a : A)
    (w : World K)
    → r ≡ some (a, w)
    → Returns Q (f a w)
    → Returns Q (and_then r f)
after f a w e q = rw e q
