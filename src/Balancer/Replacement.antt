-- ===== src/Balancer/Replacement.antt =====
-- The list of voters that `replacement` builds, from increasing voters.
use dal_service.Prelude.{
  ℕ, ◌+◌, ◌≤◌, ◌<◌, ◌≡◌, refl, ◌∙◌, Bool, true, false, not, ◌&&◌, List, [], ◌∷◌, ◌++◌, arith, ◌==◌,
  nat_eq, length, keep, contains,
}
use dal_service.Prelude.Sets.{
  IsStrict, Above, set_insert, set_insert-below, difference, Above-set_insert, set_insert-IsStrict,
  contains-set_insert,
}
use dal_service.Meta.Placements.{sort, sort_insert}
use dal_service.Meta.Step.Moves.{sort_insert-Above, Above-tail}

Above-lower : (a b : ℕ) (xs : List ℕ) → b < a → Above a xs → Above b xs
Above-lower a b [] h k = tt
Above-lower a b (x ∷ xs) h k = ground arith

pub contains-Above : (a b : ℕ) (xs : List ℕ) → b ≤ a → Above a xs → contains xs b ≡ false
contains-Above a b [] h k = refl
contains-Above a b (x ∷ xs) h k = ground (arith, contains-Above x b xs)

Above-keep : (p : ℕ → Bool) (a : ℕ) (xs : List ℕ) → Above a xs → Above a (keep p xs)
Above-keep p a [] h = tt
Above-keep p a (x ∷ xs) h = ground (arith, Above-keep p x xs, Above-lower x a (keep p xs))

pub keep-IsStrict : (p : ℕ → Bool) (xs : List ℕ) → IsStrict xs → IsStrict (keep p xs)
keep-IsStrict p [] h = tt
keep-IsStrict p (x ∷ xs) h = ground (arith, Above-keep p x xs, Above-tail x (keep p xs))

-- Sorting increasing elements and one more inserts it.
pub sort-append :
    (d : ℕ) (xs : List ℕ)
    → IsStrict xs
    → contains xs d ≡ false
    → sort (xs ++ d ∷ []) ≡ set_insert d xs
unfolding sort sort_insert set_insert
sort-append d [] h out = refl
sort-append d (x ∷ xs) h out =
    let ih : sort (xs ++ d ∷ []) ≡ set_insert d xs =
      sort-append d xs (Above-tail x xs h) (ground arith) in
    ground (
      arith,
      sort_insert-Above x xs h,
      set_insert-below d xs,
      Above-lower x d xs,
      Above-set_insert d x xs,
      sort_insert-Above x (set_insert d xs),
    )

pub contains-keep :
    (p : ℕ → Bool) (xs : List ℕ) (n : ℕ) → contains (keep p xs) n ≡ (contains xs n && p n)
contains-keep p [] n = refl
contains-keep p (x ∷ xs) n = ground (arith, contains-keep p xs n)

pub length-set_insert :
    (d : ℕ) (xs : List ℕ) → contains xs d ≡ false → length (set_insert d xs) ≡ length xs + 1
unfolding set_insert
length-set_insert d [] out = refl
length-set_insert d (x ∷ xs) out = ground (arith, length-set_insert d xs)

keep_all_but : (d : ℕ) (xs : List ℕ) → contains xs d ≡ false → keep (λ v. not (v == d)) xs ≡ xs
keep_all_but d [] out = refl
keep_all_but d (x ∷ xs) out = ground (arith, keep_all_but d xs)

pub length-keep_but :
    (d : ℕ) (xs : List ℕ)
    → IsStrict xs
    → contains xs d ≡ true
    → length (keep (λ v. not (v == d)) xs) + 1 ≡ length xs
length-keep_but d [] h at = ground arith
length-keep_but d (x ∷ xs) h at =
    ground (arith, length-keep_but d xs, Above-tail x xs, contains-Above x x xs, keep_all_but d xs)

keep_same :
    (p q : ℕ → Bool) (xs : List ℕ)
    → ((n : ℕ) → contains xs n ≡ true → p n ≡ q n)
    → keep p xs ≡ keep q xs
keep_same p q [] h = refl
keep_same p q (x ∷ xs) h =
    let here : p x ≡ q x = h x (ground arith) in
    ground (arith, keep_same p q xs (λ n k. h n (ground arith)))

keep_none : (d : ℕ) (xs : List ℕ) → contains xs d ≡ false → keep (λ v. v == d) xs ≡ []
keep_none d [] out = refl
keep_none d (x ∷ xs) out = ground (arith, keep_none d xs)

keep_one :
    (d : ℕ) (xs : List ℕ) → IsStrict xs → contains xs d ≡ true → keep (λ v. v == d) xs ≡ d ∷ []
keep_one d [] h at = ground arith
keep_one d (x ∷ xs) h at =
    ground (arith, keep_one d xs, Above-tail x xs, contains-Above x x xs, keep_none d xs)

-- One element leaves.
pub difference_one :
    (d a : ℕ) (xs : List ℕ)
    → IsStrict xs
    → contains xs d ≡ true
    → contains xs a ≡ false
    → difference xs (set_insert a (keep (λ v. not (v == d)) xs)) ≡ d ∷ []
difference_one d a xs h at out =
    keep_same _ (λ v. v == d) xs
      (λ n k. ground (
        arith,
        contains-set_insert a n (keep (λ v. not (v == d)) xs),
        contains-keep (λ v. not (v == d)) xs n,
      ))
    ∙ keep_one d xs h at

keep_members :
    (ys xs : List ℕ)
    → ((n : ℕ) → contains ys n ≡ true → contains xs n ≡ true)
    → difference ys xs ≡ []
keep_members [] xs sub = refl
keep_members (y ∷ ys) xs sub =
    let here : contains xs y ≡ true = sub y (ground arith) in
    ground (arith, keep_members ys xs (λ n k. sub n (ground arith)))

-- One element joins.
pub difference_other :
    (a : ℕ) (xs ys : List ℕ)
    → contains ys a ≡ false
    → contains xs a ≡ false
    → ((n : ℕ) → contains ys n ≡ true → contains xs n ≡ true)
    → difference (set_insert a ys) xs ≡ a ∷ []
unfolding set_insert
difference_other a xs [] fresh out sub = ground arith
difference_other a xs (y ∷ ys) fresh out sub =
    let here : contains xs y ≡ true = sub y (ground arith) in
    let later : (n : ℕ) → contains ys n ≡ true → contains xs n ≡ true =
      λ n k. sub n (ground arith) in
    ground (arith, difference_other a xs ys (ground arith) out later, keep_members ys xs later)

-- The new voters are those that stay and the one that joins.
pub target_voters :
    (drop dest : ℕ) (voters : List ℕ)
    → IsStrict voters
    → contains voters drop ≡ true
    → contains voters dest ≡ false
    → sort (keep (λ v. not (v == drop)) voters ++ dest ∷ [])
      ≡ set_insert dest (keep (λ v. not (v == drop)) voters)
target_voters drop dest voters strict leaves fresh =
    sort-append dest (keep (λ v. not (v == drop)) voters)
      (keep-IsStrict (λ v. not (v == drop)) voters strict)
      (ground (arith, contains-keep (λ v. not (v == drop)) voters dest))

-- Of the voters and the new voters: the new ones increase, they are as many, one leaves and one
-- joins.
abbrev pub IsSwap : ℕ → ℕ → List ℕ → List ℕ → Type 0
IsSwap drop dest voters target =
    IsStrict target
    × (length target ≡ length voters)
    × (difference voters target ≡ drop ∷ [])
    × (difference target voters ≡ dest ∷ [])

pub set_insert-IsSwap :
    (drop dest : ℕ) (voters : List ℕ)
    → IsStrict voters
    → contains voters drop ≡ true
    → contains voters dest ≡ false
    → IsSwap drop dest voters (set_insert dest (keep (λ v. not (v == drop)) voters))
set_insert-IsSwap drop dest voters strict leaves fresh =
    let stay : List ℕ = keep (λ v. not (v == drop)) voters in
    let out : contains stay dest ≡ false =
      ground (arith, contains-keep (λ v. not (v == drop)) voters dest) in
    (
      set_insert-IsStrict dest stay (keep-IsStrict (λ v. not (v == drop)) voters strict),
      ground (arith, length-set_insert dest stay out, length-keep_but drop voters strict leaves),
      difference_one drop dest voters strict leaves fresh,
      difference_other dest voters stay out fresh
          (λ n k. ground (arith, contains-keep (λ v. not (v == drop)) voters n)),
    )
