-- ===== src/Verify/Linearizability/Linear.antt =====
-- Linearizations of a history: an order of all its operations that respects real time and that the
-- register allows.
use dal_service.Prelude.{
  ℕ, ◌≤◌, ◌<◌, ◌≡◌, refl, inl, inr, Bool, true, false, not, none, some, List, [], ◌∷◌, arith, ◌==◌,
  nat_eq, ==_eq, ==_refl, length, contains, Bool-cases,
}
use mathlib.Core.Path.{subst}
use dal_service.Verify.Linearizability.{Op, State, apply, set_used}
use dal_service.Verify.Linearizability.Indices.{op_at, op_at_lt}

-- No index stands in the list twice.
abbrev pub IsDistinct : List ℕ → Type 0
IsDistinct [] = Unit
IsDistinct (i ∷ is) = (contains is i ≡ false) × IsDistinct is

-- The first operation was not called after the second returned.
abbrev pub Precedes : List Op → ℕ → ℕ → Type 0
Precedes ops i j = (o p : Op) → op_at ops i ≡ some o → op_at ops j ≡ some p → o.call ≤ p.ret

abbrev pub RespectsTime : List Op → List ℕ → Type 0
RespectsTime ops [] = Unit
RespectsTime ops (i ∷ is) =
    ((j : ℕ) → contains (i ∷ is) j ≡ true → Precedes ops i j) × RespectsTime ops is

-- The register goes through the outcomes in this order.
abbrev pub IsLegal : List Op → State → List ℕ → Type 0
IsLegal ops state [] = Unit
IsLegal ops state (i ∷ is) =
    (o : Op) × (next : State) × (op_at ops i ≡ some o)
    × (apply state o ≡ some next)
    × IsLegal ops next is

pub record IsLinearization (ops : List Op) (order : List ℕ) : Type 0 where
  pub distinct : IsDistinct order
  pub complete : (i : ℕ) → i < length ops → contains order i ≡ true
  pub timely : RespectsTime ops order
  pub legal : IsLegal ops none order

-- The same from a state of the search on, step by step.
abbrev pub Linear : List Op → (ℕ → Bool) → State → List ℕ → Type 0
Linear ops used state [] = (i : ℕ) → i < length ops → used i ≡ true
Linear ops used state (i ∷ is) =
    (o : Op) × (next : State) × (op_at ops i ≡ some o)
    × (apply state o ≡ some next)
    × (used i ≡ false)
    × ((j : ℕ) (p : Op) → op_at ops j ≡ some p → used j ≡ false → o.call ≤ p.ret)
    × Linear ops (set_used used i) next is

-- What is still to come is not used.
Linear-free :
    (ops : List Op) (used : ℕ → Bool) (state : State) (is : List ℕ) (j : ℕ)
    → Linear ops used state is
    → contains is j ≡ true
    → used j ≡ false
Linear-free ops used state [] j h at = absurd (ground arith)
Linear-free ops used state (i ∷ is) j (o, next, here, step, free, early, more) at =
    elim (Bool-cases (i == j)) [
      | inl same ↦ subst (λ k. used k ≡ false) (==_eq i j same) free
      | inr other ↦
          let later : (set_used used i) j ≡ false =
            Linear-free ops (set_used used i) next is j more (ground arith) in
          ground arith
    ]

Linear-IsDistinct :
    (ops : List Op) (used : ℕ → Bool) (state : State) (is : List ℕ)
    → Linear ops used state is
    → IsDistinct is
Linear-IsDistinct ops used state [] h = tt
Linear-IsDistinct ops used state (i ∷ is) (o, next, here, step, free, early, more) = (
  ground (arith, Linear-free ops (set_used used i) next is i more, ==_refl i),
  Linear-IsDistinct ops (set_used used i) next is more,
)

Linear-complete :
    (ops : List Op) (used : ℕ → Bool) (state : State) (is : List ℕ)
    → Linear ops used state is
    → (j : ℕ) → j < length ops
    → used j ≡ false
    → contains is j ≡ true
Linear-complete ops used state [] h j lt free = absurd (ground (arith, h j lt))
Linear-complete ops used state (i ∷ is) (o, next, here, step, taken, early, more) j lt free =
    ground (arith, Linear-complete ops (set_used used i) next is more j lt)

Linear-RespectsTime :
    (ops : List Op) (used : ℕ → Bool) (state : State) (is : List ℕ)
    → Linear ops used state is
    → RespectsTime ops is
Linear-RespectsTime ops used state [] h = tt
Linear-RespectsTime ops used state (i ∷ is) (o, next, here, step, free, early, more) = (
  (λ j at q p from to.
      let same : o ≡ q = ground arith in
      subst (λ x. x.call ≤ p.ret) same
        (early j p to
          (Linear-free ops used state (i ∷ is) j (o, next, here, step, free, early, more) at))),
  Linear-RespectsTime ops (set_used used i) next is more,
)

Linear-IsLegal :
    (ops : List Op) (used : ℕ → Bool) (state : State) (is : List ℕ)
    → Linear ops used state is
    → IsLegal ops state is
Linear-IsLegal ops used state [] h = tt
Linear-IsLegal ops used state (i ∷ is) (o, next, here, step, free, early, more) =
    (o, next, here, step, Linear-IsLegal ops (set_used used i) next is more)

pub IsLinearization-of_Linear :
    (ops : List Op) (is : List ℕ) → Linear ops (λ i. false) none is → IsLinearization ops is
IsLinearization-of_Linear ops is h = record {
  distinct = Linear-IsDistinct ops (λ i. false) none is h;
  complete = λ i lt. Linear-complete ops (λ i. false) none is h i lt refl;
  timely = Linear-RespectsTime ops (λ i. false) none is h;
  legal = Linear-IsLegal ops (λ i. false) none is h;
}

-- An order is linear where exactly what it holds is not used.
Linear-of_order :
    (ops : List Op) (used : ℕ → Bool) (state : State) (is : List ℕ)
    → IsDistinct is
    → ((j : ℕ) → j < length ops → used j ≡ not (contains is j))
    → RespectsTime ops is
    → IsLegal ops state is
    → Linear ops used state is
Linear-of_order ops used state [] distinct exact timely legal = λ i lt. exact i lt
Linear-of_order ops used state (i ∷ is) distinct exact timely (o, next, here, step, legal) =
    let lt : i < length ops = op_at_lt ops i here in
    (
      o,
      next,
      here,
      step,
      ground (arith, exact i lt, ==_refl i),
      (λ j p at free. timely.0 j (ground (arith, exact j (op_at_lt ops j at))) o p here at),
      Linear-of_order ops (set_used used i) next is distinct.1
          (λ j inside. elim (Bool-cases (i == j)) [
            | inl same ↦ ground (arith, ==_eq i j same, distinct.0)
            | inr other ↦ ground (arith, exact j inside)
          ])
          timely.1 legal,
    )

pub Linear-of_IsLinearization :
    (ops : List Op) (is : List ℕ) → IsLinearization ops is → Linear ops (λ i. false) none is
Linear-of_IsLinearization ops is h =
    Linear-of_order ops (λ i. false) none is h.distinct (λ j lt. ground (arith, h.complete j lt))
      h.timely h.legal
