-- ===== src/Verify/Linearizability.antt =====
-- The linearizability checker, src/verify/linearizability.rs. A timestamp is a number, `used` is a
-- function from the indices of the operations, and a search that fails returns none, so that it
-- leaves `used` and the order as they were.
pub mod Indices
pub mod Linear
pub mod Decides
pub mod Recorded
use dal_service.Prelude.{
  ℕ, zero, suc, ◌+◌, Bool, true, false, not, ◌&&◌, ◌||◌, Option, none, some, List, [], ◌∷◌, ◌++◌,
  ltb, ◌==◌, nat_eq, list_eq, pair_eq, option_eq, length, if◌then◌else◌,
}
use dal_service.Codec.{Bytes}
use dal_service.Types.{IfVersion}

pub data Invocation : Type 0 where
  read : Invocation
  put : (value : Bytes) (if_version : Option IfVersion) → Invocation

pub data Outcome : Type 0 where
  applied : (version : ℕ) → Outcome
  condition_failed : (present : Option ℕ) → Outcome
  value : Option (ℕ × Bytes) → Outcome

pub record Op : Type 0 where
  pub call : ℕ
  pub ret : ℕ
  pub inv : Invocation
  pub out : Outcome

-- The last committed version and value.
abbrev pub State : Type 0
State = Option (ℕ × Bytes)

abbrev pub version_of : State → ℕ
version_of none = 0
version_of (some (v, bytes)) = v

abbrev pub apply_absent : State → Bytes → Outcome → Option State
apply_absent none bytes (Outcome.applied version) =
    if ltb 0 version then some (some (version, bytes)) else none
apply_absent (some (v, old)) bytes (Outcome.condition_failed (some p)) =
    if p == v then some (some (v, old)) else none
apply_absent _ bytes _ = none

abbrev pub apply_number : State → Bytes → ℕ → Outcome → Option State
apply_number (some (v, old)) bytes n (Outcome.applied version) =
    if v == n && ltb v version then some (some (version, bytes)) else none
apply_number (some (v, old)) bytes n (Outcome.condition_failed (some p)) =
    if p == v && not (v == n) then some (some (v, old)) else none
apply_number none bytes n (Outcome.condition_failed none) = some none
apply_number _ bytes n _ = none

abbrev pub apply_to : State → Invocation → Outcome → Option State
apply_to state Invocation.read (Outcome.value v) = if v == state then some state else none
apply_to state (Invocation.put bytes none) (Outcome.applied version) =
    if ltb (version_of state) version then some (some (version, bytes)) else none
apply_to state (Invocation.put bytes (some IfVersion.absent)) out = apply_absent state bytes out
apply_to state (Invocation.put bytes (some (IfVersion.number n))) out =
    apply_number state bytes n out
apply_to state _ _ = none

unfoldable pub apply : State → Op → Option State
apply state op = apply_to state op.inv op.out

-- The earliest return among the operations that are not used, from an index on.
unfoldable pub min_ret : (ℕ → Bool) → ℕ → List Op → Option ℕ
min_ret used k [] = none
min_ret used k (o ∷ os) =
    let rest = min_ret used (k + 1) os in
    if used k
    then rest
    else elim rest [ none ↦ some o.ret | some m ↦ some (if ltb m o.ret then m else o.ret) ]

-- A loop over the operations with their indices that ends at the first success.
unfoldable pub first_some : (ℕ → Op → Option (List ℕ)) → ℕ → List Op → Option (List ℕ)
first_some f k [] = none
first_some f k (o ∷ os) = elim (f k o) [ some order ↦ some order | none ↦ first_some f (k + 1) os ]

-- `used[i] = true`.
abbrev pub set_used : (ℕ → Bool) → ℕ → ℕ → Bool
set_used used i = λ j. (i == j) || used j

-- The body of the loop of `search`; the last argument is the recursive call.
unfoldable pub attempt :
    (used : ℕ → Bool) (state : State) (min : ℕ) (order : List ℕ)
    → ((ℕ → Bool) → State → List ℕ → Option (List ℕ))
    → ℕ
    → Op
    → Option (List ℕ)
attempt used state min order recurse i op =
    if used i || ltb min op.call then none else elim (apply state op) [
      | none ↦ none
      | some next ↦ recurse (set_used used i) next (order ++ i ∷ [])
    ]

-- With none left to return, `unwrap` is a panic; `remaining` is then 0.
unfoldable pub search : List Op → ℕ → (ℕ → Bool) → State → List ℕ → Option (List ℕ)
search ops zero used state order = some order
search ops (suc remaining) used state order = elim (min_ret used 0 ops) [
  | none ↦ none
  | some min ↦ first_some (attempt used state min order (search ops remaining)) 0 ops
]

unfoldable pub linearize : List Op → Option (List ℕ)
linearize ops = search ops (length ops) (λ i. false) none []

unfoldable pub is_linearizable : List Op → Bool
is_linearizable ops = elim (linearize ops) [ none ↦ false | some order ↦ true ]
