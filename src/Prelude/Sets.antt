-- ===== src/Prelude/Sets.antt =====
-- `BTreeSet<NodeId>` as a strictly increasing list.
use dal_service.Prelude.Tests.{ltb, if◌then◌else◌, ◌==◌, nat_eq}
use dal_service.Prelude.Lists.{contains, keep}
use Prim.Native.Nat.{ℕ, ◌<◌}
use mathlib.Core.Path.{◌≡◌, refl}
use mathlib.Core.Bool.{not, ◌||◌}
use mathlib.Core.List.{List, [], ◌∷◌}
use native.Mathlib.Omega.{arith}

-- `BTreeSet::insert`.
unfoldable pub set_insert : ℕ → List ℕ → List ℕ
set_insert a [] = a ∷ []
set_insert a (x ∷ xs) =
    let rest = set_insert a xs in
    if ltb a x then a ∷ x ∷ xs else if a == x then x ∷ xs else x ∷ rest

-- Collecting an iterator into a set.
unfoldable pub collect_set : List ℕ → List ℕ
unfolding set_insert
collect_set [] = []
collect_set (x ∷ xs) = set_insert x (collect_set xs)

-- `a.difference(&b)`.
abbrev pub difference : List ℕ → List ℕ → List ℕ
difference a b = keep (λ x. not (contains b x)) a

-- All elements of the list lie above `a`, and increase.
abbrev pub Above : ℕ → List ℕ → Type 0
Above a [] = Unit
Above a (x ∷ xs) = (a < x) × Above x xs

abbrev pub IsStrict : List ℕ → Type 0
IsStrict [] = Unit
IsStrict (x ∷ xs) = Above x xs

pub Above-set_insert : (a b : ℕ) (xs : List ℕ) → b < a → Above b xs → Above b (set_insert a xs)
unfolding set_insert
Above-set_insert a b [] h k = (h, tt)
Above-set_insert a b (x ∷ xs) h k = ground (arith, Above-set_insert a x xs)

pub set_insert-IsStrict : (a : ℕ) (xs : List ℕ) → IsStrict xs → IsStrict (set_insert a xs)
unfolding set_insert
set_insert-IsStrict a [] k = tt
set_insert-IsStrict a (x ∷ xs) k = ground (arith, Above-set_insert a x xs)

pub collect_set-IsStrict : (xs : List ℕ) → IsStrict (collect_set xs)
unfolding collect_set
collect_set-IsStrict [] = tt
collect_set-IsStrict (x ∷ xs) = set_insert-IsStrict x (collect_set xs) (collect_set-IsStrict xs)

pub contains-set_insert :
    (a b : ℕ) (xs : List ℕ) → contains (set_insert a xs) b ≡ ((a == b) || contains xs b)
unfolding set_insert
contains-set_insert a b [] = refl
contains-set_insert a b (x ∷ xs) = ground (arith, contains-set_insert a b xs)

-- A set collected from a list has the members of the list.
pub contains-collect_set : (xs : List ℕ) (b : ℕ) → contains (collect_set xs) b ≡ contains xs b
unfolding collect_set
contains-collect_set [] b = refl
contains-collect_set (x ∷ xs) b =
    ground (arith, contains-set_insert x b (collect_set xs), contains-collect_set xs b)

pub set_insert-below : (x : ℕ) (xs : List ℕ) → Above x xs → set_insert x xs ≡ x ∷ xs
unfolding set_insert
set_insert-below x [] h = refl
set_insert-below x (y ∷ ys) h = ground arith

Above-IsStrict : (x : ℕ) (xs : List ℕ) → Above x xs → IsStrict xs
Above-IsStrict x [] h = tt
Above-IsStrict x (y ∷ ys) h = h.1

-- Collecting an increasing list changes nothing.
pub collect_set_strict : (xs : List ℕ) → IsStrict xs → collect_set xs ≡ xs
unfolding collect_set
collect_set_strict [] h = refl
collect_set_strict (x ∷ xs) h =
    ground (arith, collect_set_strict xs (Above-IsStrict x xs h), set_insert-below x xs h)
