-- ===== src/Prelude/Counts.antt =====
-- How many elements two sets have in common.
use dal_service.Prelude.Tests.{nat_eq, if◌then◌else◌}
use dal_service.Prelude.Lists.{length, contains, all}
use dal_service.Prelude.Sets.{IsStrict, Above, difference}
use Prim.Native.Nat.{ℕ, ◌+◌, ◌≤◌}
use mathlib.Core.Path.{◌≡◌, refl}
use mathlib.Core.Bool.{true, false}
use mathlib.Core.List.{List, [], ◌∷◌}
use native.Mathlib.Omega.{arith}

-- The elements of the first that the second has, counted.
common : List ℕ → List ℕ → ℕ
common [] ys = 0
common (x ∷ xs) ys = (if contains ys x then 1 else 0) + common xs ys

common-nil : (xs : List ℕ) → common xs [] ≡ 0
unfolding common
common-nil [] = refl
common-nil (x ∷ xs) = ground (arith, common-nil xs)

pub contains-Above : (a x : ℕ) (xs : List ℕ) → x ≤ a → Above a xs → contains xs x ≡ false
contains-Above a x [] h k = refl
contains-Above a x (y ∷ ys) h k = ground (arith, contains-Above y x ys)

IsStrict-tail : (x : ℕ) (xs : List ℕ) → Above x xs → IsStrict xs
IsStrict-tail x [] h = tt
IsStrict-tail x (y ∷ ys) h = h.1

-- One more element in the second.
common-cons :
    (y : ℕ) (xs ys : List ℕ)
    → IsStrict xs
    → contains ys y ≡ false
    → common xs (y ∷ ys) ≡ (if contains xs y then 1 else 0) + common xs ys
unfolding common
common-cons y [] ys h out = refl
common-cons y (x ∷ xs) ys h out =
    ground (arith, common-cons y xs ys (IsStrict-tail x xs h) out, contains-Above x x xs)

common_comm : (xs ys : List ℕ) → IsStrict xs → IsStrict ys → common xs ys ≡ common ys xs
unfolding common
common_comm xs [] h k = common-nil xs
common_comm xs (y ∷ ys) h k = ground (
  arith,
  common-cons y xs ys h (contains-Above y y ys (omega arith) k),
  common_comm xs ys h (IsStrict-tail y ys k),
)

length-difference : (xs ys : List ℕ) → length (difference xs ys) + common xs ys ≡ length xs
unfolding common
length-difference [] ys = refl
length-difference (x ∷ xs) ys = ground (arith, length-difference xs ys)

-- What one set has more than the other is what it is larger by, and what the other has more.
pub difference_exchange :
    (xs ys : List ℕ)
    → IsStrict xs
    → IsStrict ys
    → length (difference xs ys) + length ys ≡ length (difference ys xs) + length xs
difference_exchange xs ys h k =
    ground (arith, length-difference xs ys, length-difference ys xs, common_comm xs ys h k)

-- A subset is no larger.
pub subset-length :
    (xs ys : List ℕ)
    → IsStrict xs
    → IsStrict ys
    → all (contains ys) xs ≡ true
    → length xs ≤ length ys
subset-length xs ys h k sub = ground (
  arith,
  length-difference xs ys,
  length-difference ys xs,
  common_comm xs ys h k,
  no_difference xs sub,
)
  where
    no_difference : (zs : List ℕ) → all (contains ys) zs ≡ true → length (difference zs ys) ≡ 0
    no_difference [] h = refl
    no_difference (z ∷ zs) h = ground (arith, no_difference zs)
