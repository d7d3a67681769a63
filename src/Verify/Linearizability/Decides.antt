-- ===== src/Verify/Linearizability/Decides.antt =====
-- The checker finds a linearization exactly where there is one.
use dal_service.Prelude.{
  ℕ, zero, suc, ◌≤◌, ◌≡◌, ◌↔◌, refl, sym, ap, ◌∙◌, inl, inr, Bool, true, false, Option, none, some,
  List, [], ◌∷◌, ◌++◌, arith, nat_eq, length, Option-cases,
}
use mathlib.Core.Path.{subst}
use dal_service.Verify.Linearizability.{
  Op, State, apply, min_ret, first_some, set_used, attempt, search, linearize, is_linearizable,
}
use dal_service.Verify.Linearizability.Indices.{
  op_at, op_at_lt, loop_some, loop_found, earliest, earliest_bound, unused, unused-zero, unused-suc,
  unused-set_used,
}
use dal_service.Verify.Linearizability.Linear.{
  Linear, IsLinearization, IsLinearization-of_Linear, Linear-of_IsLinearization,
}

append_assoc : (xs ys zs : List ℕ) → (xs ++ ys) ++ zs ≡ xs ++ (ys ++ zs)
append_assoc [] ys zs = refl
append_assoc (x ∷ xs) ys zs = ap (λ t. x ∷ t) (append_assoc xs ys zs)

append-nil : (xs : List ℕ) → xs ++ [] ≡ xs
append-nil [] = refl
append-nil (x ∷ xs) = ap (λ t. x ∷ t) (append-nil xs)

-- The body of the loop, where it succeeds.
attempt-some :
    (used : ℕ → Bool) (state : State) (min : ℕ) (order : List ℕ)
    (recurse : (ℕ → Bool) → State → List ℕ → Option (List ℕ)) (i : ℕ) (o : Op) {r : List ℕ}
    → attempt used state min order recurse i o ≡ some r
    → (used i ≡ false)
      × (o.call ≤ min)
      × (next : State) × (apply state o ≡ some next)
      × (recurse (set_used used i) next (order ++ i ∷ []) ≡ some r)
unfolding attempt
attempt-some used state min order recurse i o h = elim (Option-cases (apply state o)) [
  | inl illegal ↦ absurd (ground arith)
  | inr (next, step) ↦ (ground arith, ground arith, next, step, ground arith)
]

attempt-found :
    (used : ℕ → Bool) (state : State) (min : ℕ) (order : List ℕ)
    (recurse : (ℕ → Bool) → State → List ℕ → Option (List ℕ)) (i : ℕ) (o : Op) {next : State}
    {r : List ℕ}
    → used i ≡ false
    → o.call ≤ min
    → apply state o ≡ some next
    → recurse (set_used used i) next (order ++ i ∷ []) ≡ some r
    → attempt used state min order recurse i o ≡ some r
unfolding attempt
attempt-found used state min order recurse i o {next} free early step more =
    rw (free, step) (ground arith)

-- One more operation in front.
search_next :
    (ops : List Op) (used : ℕ → Bool) (state next : State) (acc is found : List ℕ) (i min : ℕ)
    (o : Op)
    → min_ret used 0 ops ≡ some min
    → op_at ops i ≡ some o
    → used i ≡ false
    → o.call ≤ min
    → apply state o ≡ some next
    → found ≡ (acc ++ i ∷ []) ++ is
    → Linear ops (set_used used i) next is
    → (js : List ℕ) × (found ≡ acc ++ js) × Linear ops used state js
search_next ops used state next acc is found i min o first at free early step made linear = (
  i ∷ is,
  made ∙ append_assoc acc (i ∷ []) is,
  (
    o,
    next,
    at,
    step,
    free,
    (λ j p to waits. let (m, same, low) = earliest ops used j to waits in ground arith),
    linear,
  ),
)

search-some :
    (ops : List Op) (r : ℕ) (used : ℕ → Bool) (state : State) (acc : List ℕ) {o : List ℕ}
    → unused used (length ops) ≡ r
    → search ops r used state acc ≡ some o
    → (is : List ℕ) × (o ≡ acc ++ is) × Linear ops used state is
unfolding search
search-some ops zero used state acc {o = found} left h =
    ([], ground (arith, append-nil acc), λ i lt. unused-zero used (length ops) i left lt)
search-some ops (suc r) used state acc {o = found} left h =
    elim (Option-cases (min_ret used 0 ops)) [
      | inl nothing ↦ absurd (ground arith)
      | inr (min, first) ↦
          let body = attempt used state min acc (search ops r) in
          let loop : first_some body 0 ops ≡ some found = ground arith in
          let (i, o, at, tried) = loop_some ops body {r = found} loop in
          let (free, early, next, step, more) =
            attempt-some used state min acc (search ops r) i o {r = found} tried in
          let (is, made, linear) =
            search-some ops r (set_used used i) next (acc ++ i ∷ [])
              (ground (arith, unused-set_used used i (length ops) free (op_at_lt ops i at))) more in
          search_next ops used state next acc is found i min o first at free early step made linear
    ]

unused_all : (n : ℕ) → unused (λ i. false) n ≡ n
unfolding unused
unused_all zero = refl
unused_all (suc n) = ground (arith, unused_all n)

search-found :
    (ops : List Op) (r : ℕ) (used : ℕ → Bool) (state : State) (acc is : List ℕ)
    → unused used (length ops) ≡ r
    → Linear ops used state is
    → (o : List ℕ) × (search ops r used state acc ≡ some o)
unfolding search
search-found ops zero used state acc is left h = (acc, refl)
search-found ops (suc r) used state acc [] left h =
    let (i, lt, free) = unused-suc used (length ops) left in absurd (ground (arith, h i lt))
search-found ops (suc r) used state acc (i ∷ is) left (o, next, at, step, free, early, more) =
    let (min, first, _) = earliest ops used i at free in
    let in_time : o.call ≤ min = earliest_bound ops used o.call first early in
    let (q, rest) =
      search-found ops r (set_used used i) next (acc ++ i ∷ []) is
        (ground (arith, unused-set_used used i (length ops) free (op_at_lt ops i at))) more in
    let tried : attempt used state min acc (search ops r) i o ≡ some q =
      attempt-found used state min acc (search ops r) i o free in_time step rest in
    let (found, loop) = loop_found ops (attempt used state min acc (search ops r)) i at tried in
    (found, ground arith)

-- What the checker returns is a linearization: an order of all operations, each once, in which none
-- was called after a later one returned, and whose outcomes the register gives one after the other.
pub linearize-IsLinearization :
    (ops : List Op) {order : List ℕ} → linearize ops ≡ some order → IsLinearization ops order
unfolding linearize
linearize-IsLinearization ops {order} h =
    let (is, made, linear) =
      search-some ops (length ops) (λ i. false) none [] (unused_all (length ops)) h in
    subst (IsLinearization ops) (sym made) (IsLinearization-of_Linear ops is linear)

-- The checker accepts a history exactly if it has a linearization.
pub is_linearizable_iff :
    (ops : List Op) → (is_linearizable ops ≡ true) ↔ ((order : List ℕ) × IsLinearization ops order)
unfolding is_linearizable linearize
is_linearizable_iff ops = (
  (λ accepted. elim (Option-cases (linearize ops)) [
    | inl refused ↦ absurd (ground arith)
    | inr (order, found) ↦ (order, linearize-IsLinearization ops found)
  ]),
  (λ (order, h).
      let (q, found) =
        search-found ops (length ops) (λ i. false) none [] order (unused_all (length ops))
          (Linear-of_IsLinearization ops order h) in
      ground arith),
)
