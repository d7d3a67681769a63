-- ===== src/Verify/Linearizability/Indices.antt =====
-- The loops of the checker over the indices of the operations.
use dal_service.Prelude.{
  ℕ, zero, suc, ◌+◌, ◌≤◌, ◌<◌, ◌≡◌, refl, inl, inr, Bool, true, false, Option, none, some, List, [],
  ◌∷◌, arith, ltb, ◌==◌, nat_eq, ==_eq, length, Bool-cases, Option-cases, if◌then◌else◌,
}
use mathlib.Core.Path.{subst}
use dal_service.Verify.Linearizability.{Op, min_ret, first_some, set_used}

-- `ops[i]`.
abbrev pub op_at : List Op → ℕ → Option Op
op_at [] i = none
op_at (o ∷ os) zero = some o
op_at (o ∷ os) (suc i) = op_at os i

pub op_at_lt : (os : List Op) (i : ℕ) {o : Op} → op_at os i ≡ some o → i < length os
op_at_lt [] i h = absurd (ground arith)
op_at_lt (o ∷ os) zero h = omega arith
op_at_lt (o ∷ os) (suc i) h = omega (arith, op_at_lt os i h)

-- A success of the loop is one of its body.
first_some_at :
    (f : ℕ → Op → Option (List ℕ)) (k : ℕ) (os : List Op) {r : List ℕ}
    → first_some f k os ≡ some r
    → (i : ℕ) × (o : Op) × (op_at os i ≡ some o) × (f (k + i) o ≡ some r)
unfolding first_some
first_some_at f k [] h = absurd (ground arith)
first_some_at f k (o ∷ os) {r} h = elim (Option-cases (f k o)) [
  | inr (q, found) ↦
      let here : f k o ≡ some r = ground arith in
      (zero, o, refl, subst (λ j. f j o ≡ some r) (omega arith) here)
  | inl failed ↦
      let (i, p, at, found) = first_some_at f (k + 1) os (ground arith) in
      (suc i, p, at, subst (λ j. f j p ≡ some r) (omega arith) found)
]

-- A success of the body makes the loop succeed.
first_some_found :
    (f : ℕ → Op → Option (List ℕ)) (k : ℕ) (os : List Op) (i : ℕ) {o : Op} {r : List ℕ}
    → op_at os i ≡ some o
    → f (k + i) o ≡ some r
    → (q : List ℕ) × (first_some f k os ≡ some q)
unfolding first_some
first_some_found f k [] i h found = absurd (ground arith)
first_some_found f k (p ∷ os) zero {o} {r} h found =
    let here : f k p ≡ some r =
      subst (λ j. f j p ≡ some r) (omega arith)
        (subst (λ x. f (k + 0) x ≡ some r) (ground arith) found) in
    (r, ground arith)
first_some_found f k (p ∷ os) (suc i) {o} {r} h found = elim (Option-cases (f k p)) [
  | inr (q, first) ↦ (q, ground arith)
  | inl failed ↦
      let (q, later) =
        first_some_found f (k + 1) os i h (subst (λ j. f j o ≡ some r) (omega arith) found) in
      (q, ground arith)
]

-- An unused operation has a return, and the earliest is not after it.
min_ret_le :
    (used : ℕ → Bool) (k : ℕ) (os : List Op) (i : ℕ) {o : Op}
    → op_at os i ≡ some o
    → used (k + i) ≡ false
    → (m : ℕ) × (min_ret used k os ≡ some m) × (m ≤ o.ret)
unfolding min_ret
min_ret_le used k [] i h free = absurd (ground arith)
min_ret_le used k (p ∷ os) zero {o} h free =
    let here : used k ≡ false = subst (λ j. used j ≡ false) (omega arith) free in
    elim (Option-cases (min_ret used (k + 1) os)) [
      | inl alone ↦ (o.ret, ground arith, omega arith)
      | inr (m, rest) ↦ ((if ltb m o.ret then m else o.ret), ground arith, ground arith)
    ]
min_ret_le used k (p ∷ os) (suc i) {o} h free =
    let (m, rest, low) =
      min_ret_le used (k + 1) os i h (subst (λ j. used j ≡ false) (omega arith) free) in
    elim (Bool-cases (used k)) [
      | inl gone ↦ (m, ground arith, low)
      | inr here ↦ ((if ltb m p.ret then m else p.ret), ground arith, ground arith)
    ]

-- What is not after any unused return is not after the earliest.
le_min_ret :
    (used : ℕ → Bool) (k : ℕ) (os : List Op) (c : ℕ) {m : ℕ}
    → min_ret used k os ≡ some m
    → ((i : ℕ) (o : Op) → op_at os i ≡ some o → used (k + i) ≡ false → c ≤ o.ret)
    → c ≤ m
unfolding min_ret
le_min_ret used k [] c h low = absurd (ground arith)
le_min_ret used k (p ∷ os) c {m} h low =
    let later : (i : ℕ) (o : Op) → op_at os i ≡ some o → used (k + 1 + i) ≡ false → c ≤ o.ret =
      λ i o at free. low (suc i) o at (subst (λ j. used j ≡ false) (omega arith) free) in
    elim (Bool-cases (used k)) [
      | inl gone ↦ le_min_ret used (k + 1) os c (ground arith) later
      | inr here ↦
          let first : c ≤ p.ret = low 0 p refl (subst (λ j. used j ≡ false) (omega arith) here) in
          elim (Option-cases (min_ret used (k + 1) os)) [
            | inl alone ↦ ground arith
            | inr (q, rest) ↦ ground (arith, le_min_ret used (k + 1) os c rest later)
          ]
    ]

-- How many indices below a bound are not used.
unfoldable pub unused : (ℕ → Bool) → ℕ → ℕ
unused used zero = 0
unused used (suc n) = (if used n then 0 else 1) + unused used n

pub unused-zero : (used : ℕ → Bool) (n i : ℕ) → unused used n ≡ 0 → i < n → used i ≡ true
unfolding unused
unused-zero used zero i h lt = absurd (omega arith)
unused-zero used (suc n) i h lt = elim (Bool-cases (i == n)) [
  | inl here ↦ ground (arith, ==_eq i n here)
  | inr away ↦ unused-zero used n i (ground arith) (ground arith)
]

pub unused-suc :
    (used : ℕ → Bool) (n : ℕ) {r : ℕ} → unused used n ≡ suc r → (i : ℕ) × (i < n) × (used i ≡ false)
unfolding unused
unused-suc used zero h = absurd (ground arith)
unused-suc used (suc n) {r} h = elim (Bool-cases (used n)) [
  | inr free ↦ (n, omega arith, free)
  | inl gone ↦
      let (i, lt, free) = unused-suc used n {r = r} (ground arith) in (i, omega arith, free)
]

unused-above : (used : ℕ → Bool) (i n : ℕ) → n ≤ i → unused (set_used used i) n ≡ unused used n
unfolding unused
unused-above used i zero h = refl
unused-above used i (suc n) h = ground (arith, unused-above used i n)

pub unused-set_used :
    (used : ℕ → Bool) (i n : ℕ)
    → used i ≡ false
    → i < n
    → unused (set_used used i) n + 1 ≡ unused used n
unfolding unused
unused-set_used used i zero free h = absurd (omega arith)
unused-set_used used i (suc n) free h = elim (Bool-cases (i == n)) [
  | inl here ↦
      let same : i ≡ n = ==_eq i n here in
      let at : used n ≡ false = subst (λ j. used j ≡ false) same free in
      ground (arith, unused-above used i n)
  | inr away ↦ ground (arith, unused-set_used used i n)
]

-- The same for all operations.
module _ (os : List Op) where
  pub loop_some :
      (f : ℕ → Op → Option (List ℕ)) {r : List ℕ}
      → first_some f 0 os ≡ some r
      → (i : ℕ) × (o : Op) × (op_at os i ≡ some o) × (f i o ≡ some r)
  loop_some f {r} h =
      let (i, o, at, found) = first_some_at f 0 os h in
      (i, o, at, subst (λ j. f j o ≡ some r) (omega arith) found)

  pub loop_found :
      (f : ℕ → Op → Option (List ℕ)) (i : ℕ) {o : Op} {r : List ℕ}
      → op_at os i ≡ some o
      → f i o ≡ some r
      → (q : List ℕ) × (first_some f 0 os ≡ some q)
  loop_found f i {o} {r} at found =
      first_some_found f 0 os i at (subst (λ j. f j o ≡ some r) (omega arith) found)

  pub earliest :
      (used : ℕ → Bool) (i : ℕ) {o : Op}
      → op_at os i ≡ some o
      → used i ≡ false
      → (m : ℕ) × (min_ret used 0 os ≡ some m) × (m ≤ o.ret)
  earliest used i at free =
      min_ret_le used 0 os i at (subst (λ j. used j ≡ false) (omega arith) free)

  pub earliest_bound :
      (used : ℕ → Bool) (c : ℕ) {m : ℕ}
      → min_ret used 0 os ≡ some m
      → ((i : ℕ) (o : Op) → op_at os i ≡ some o → used i ≡ false → c ≤ o.ret)
      → c ≤ m
  earliest_bound used c first low =
      le_min_ret used 0 os c first
        (λ i o at free. low i o at (subst (λ j. used j ≡ false) (omega arith) free))
