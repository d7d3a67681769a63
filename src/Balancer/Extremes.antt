-- ===== src/Balancer/Extremes.antt =====
-- The first and last elements of a list by a comparison (`min_by` and `max_by`), and the first of a
-- set.
use dal_service.Prelude.{
  ℕ, ◌≤◌, ◌≡◌, refl, Bool, true, some, List, [], ◌∷◌, arith, nat_eq, contains,
}
use dal_service.Types.{NodeId}
use dal_service.Balancer.{least, greatest, lighter, heavier, min_by, max_by, first}

least-contains :
    (less : ℕ → ℕ → Bool) (x : ℕ) (xs : List ℕ) → contains (x ∷ xs) (least less x xs) ≡ true
unfolding least
least-contains less x [] = ground arith
least-contains less x (y ∷ ys) = ground (arith, least-contains less y ys, least-contains less x ys)

greatest-contains :
    (more : ℕ → ℕ → Bool) (x : ℕ) (xs : List ℕ) → contains (x ∷ xs) (greatest more x xs) ≡ true
unfolding greatest
greatest-contains more x [] = ground arith
greatest-contains more x (y ∷ ys) =
    ground (arith, greatest-contains more y ys, greatest-contains more x ys)

pub min_by-contains :
    (less : ℕ → ℕ → Bool) (xs : List ℕ) {n : ℕ} → min_by less xs ≡ some n → contains xs n ≡ true
min_by-contains less [] h = ground arith
min_by-contains less (x ∷ xs) h = ground (arith, least-contains less x xs)

pub max_by-contains :
    (more : ℕ → ℕ → Bool) (xs : List ℕ) {n : ℕ} → max_by more xs ≡ some n → contains xs n ≡ true
max_by-contains more [] h = ground arith
max_by-contains more (x ∷ xs) h = ground (arith, greatest-contains more x xs)

pub first-contains : (xs : List ℕ) {n : ℕ} → first xs ≡ some n → contains xs n ≡ true
first-contains [] h = ground arith
first-contains (x ∷ xs) h = ground arith

least_lowest :
    (load : NodeId → ℕ) (x : NodeId) (xs : List NodeId) (n : NodeId)
    → contains (x ∷ xs) n ≡ true
    → load (least (lighter load) x xs) ≤ load n
unfolding least
least_lowest load x [] n h = ground arith
least_lowest load x (y ∷ ys) n h = ground (
  arith,
  least_lowest load y ys n,
  least_lowest load y ys y,
  least_lowest load x ys n,
  least_lowest load x ys x,
)

greatest_highest :
    (load : NodeId → ℕ) (x : NodeId) (xs : List NodeId) (n : NodeId)
    → contains (x ∷ xs) n ≡ true
    → load n ≤ load (greatest (heavier load) x xs)
unfolding greatest
greatest_highest load x [] n h = ground arith
greatest_highest load x (y ∷ ys) n h = ground (
  arith,
  greatest_highest load y ys n,
  greatest_highest load y ys y,
  greatest_highest load x ys n,
  greatest_highest load x ys x,
)

pub min_by-lighter :
    (load : NodeId → ℕ) (xs : List NodeId) (n : NodeId)
    → contains xs n ≡ true
    → (d : NodeId) × (min_by (lighter load) xs ≡ some d) × (load d ≤ load n)
min_by-lighter load [] n h = absurd (ground arith)
min_by-lighter load (x ∷ xs) n h = (least (lighter load) x xs, refl, least_lowest load x xs n h)

pub max_by-heavier :
    (load : NodeId → ℕ) (xs : List NodeId) (n : NodeId)
    → contains xs n ≡ true
    → (d : NodeId) × (max_by (heavier load) xs ≡ some d) × (load n ≤ load d)
max_by-heavier load [] n h = absurd (ground arith)
max_by-heavier load (x ∷ xs) n h =
    (greatest (heavier load) x xs, refl, greatest_highest load x xs n h)

pub first-found : (xs : List ℕ) (n : ℕ) → contains xs n ≡ true → (d : ℕ) × (first xs ≡ some d)
first-found [] n h = absurd (ground arith)
first-found (x ∷ xs) n h = (x, refl)
