-- ===== src/Verify/Linearizability/Recorded.antt =====
-- Histories that the register of a data group makes: each operation takes effect at some instant
-- between its call and its return.
use dal_service.Prelude.{
  ℕ, zero, suc, ◌+◌, ◌≤◌, ◌<◌, ◌≡◌, refl, sym, ap, ◌∙◌, inl, inr, true, false, none, some, List, [],
  ◌∷◌, arith, ◌==◌, nat_eq, list_eq, pair_eq, option_eq, ==_eq, ==_refl, length, contains,
  Bool-cases,
}
use mathlib.Core.Path.{subst}
use dal_service.Types.{IfVersion, DataOp, KeyPresence, MutationResult}
use dal_service.Partition.StateMachine.{presence}
use dal_service.Partition.Register.{Register, passes, step}
use dal_service.Meta.Store.{range_from}
use dal_service.Verify.Linearizability.{
  Invocation, Outcome, Op, State, version_of, apply_to, apply, is_linearizable,
}
use dal_service.Verify.Linearizability.Indices.{op_at}
use dal_service.Verify.Linearizability.Linear.{IsDistinct, RespectsTime, IsLegal}
use dal_service.Verify.Linearizability.Decides.{is_linearizable_iff}

-- An operation of a client, with the instant of its effect and the log index that it is given.
pub record Event : Type 0 where
  pub call : ℕ
  pub instant : ℕ
  pub ret : ℕ
  pub request : Invocation
  pub index : ℕ

abbrev pub seen : Register → State
seen none = none
seen (some r) = some (r.version, r.value)

abbrev pub outcome_of : MutationResult → Outcome
outcome_of (MutationResult.applied v) = Outcome.applied v
outcome_of (MutationResult.condition_failed KeyPresence.absent) = Outcome.condition_failed none
outcome_of (MutationResult.condition_failed (KeyPresence.present v)) =
    Outcome.condition_failed (some v)

-- What the register answers, and the register afterwards.
abbrev pub answer : Register → Invocation → ℕ → Outcome × Register
answer r Invocation.read i = (Outcome.value (seen r), r)
answer r (Invocation.put bytes condition) i =
    let (result, after) = step r (DataOp.put [] bytes condition) i in (outcome_of result, after)

abbrev pub recorded : Register → Event → Op
recorded r e = record {
  call = e.call;
  ret = e.ret;
  inv = e.request;
  out = (answer r e.request e.index).0;
}

unfoldable pub record_all : Register → List Event → List Op
record_all r [] = []
record_all r (e ∷ es) = recorded r e ∷ record_all (answer r e.request e.index).1 es

-- The operations take effect one after the other, each within its interval, and get increasing log
-- indices.
abbrev pub IsRun : Register → ℕ → List Event → Type 0
IsRun r t [] = Unit
IsRun r t (e ∷ es) =
    (e.call ≤ e.instant)
    × (e.instant ≤ e.ret)
    × (t ≤ e.instant)
    × (version_of (seen r) < e.index)
    × IsRun (answer r e.request e.index).1 e.instant es

-- The checker's register goes through what the data group's register does.
answer-apply_to :
    (r : Register) (q : Invocation) (i : ℕ)
    → version_of (seen r) < i
    → apply_to (seen r) q (answer r q i).0 ≡ some (seen (answer r q i).1)
unfolding step passes presence
answer-apply_to none Invocation.read i h = refl
answer-apply_to (some k) Invocation.read i h = ground (arith, ==_refl k.version, ==_refl k.value)
answer-apply_to none (Invocation.put bytes none) i h = ground arith
answer-apply_to (some k) (Invocation.put bytes none) i h = ground arith
answer-apply_to none (Invocation.put bytes (some IfVersion.absent)) i h = ground arith
answer-apply_to (some k) (Invocation.put bytes (some IfVersion.absent)) i h =
    ground (arith, ==_refl k.version)
answer-apply_to none (Invocation.put bytes (some (IfVersion.number n))) i h = ground arith
answer-apply_to (some k) (Invocation.put bytes (some (IfVersion.number n))) i h =
    ground (arith, ==_refl k.version)

abbrev in_order : List Event → List ℕ
in_order es = range_from 0 (length es)

range_from-contains :
    (k n j : ℕ) → contains (range_from k n) j ≡ true → (m : ℕ) × (j ≡ k + m) × (m < n)
unfolding range_from
range_from-contains k zero j h = absurd (ground arith)
range_from-contains k (suc n) j h = elim (Bool-cases (k == j)) [
  | inl same ↦ (0, ground (arith, ==_eq k j same), omega arith)
  | inr other ↦
      let (m, at, lt) = range_from-contains (k + 1) n j (ground arith) in
      (suc m, omega (arith, at), omega (arith, lt))
]

contains-range_from : (k n j : ℕ) → k ≤ j → j < k + n → contains (range_from k n) j ≡ true
unfolding range_from
contains-range_from k zero j low high = absurd (omega arith)
contains-range_from k (suc n) j low high = ground (arith, contains-range_from (k + 1) n j)

range_from-below : (k n j : ℕ) → j < k → contains (range_from k n) j ≡ false
unfolding range_from
range_from-below k zero j h = refl
range_from-below k (suc n) j h = ground (arith, range_from-below (k + 1) n j)

range_from-IsDistinct : (k n : ℕ) → IsDistinct (range_from k n)
unfolding range_from
range_from-IsDistinct k zero = tt
range_from-IsDistinct k (suc n) =
    (range_from-below (k + 1) n k (omega arith), range_from-IsDistinct (k + 1) n)

length-record_all : (r : Register) (es : List Event) → length (record_all r es) ≡ length es
unfolding record_all
length-record_all r [] = refl
length-record_all r (e ∷ es) = ground (arith, length-record_all (answer r e.request e.index).1 es)

-- Later operations return no earlier.
IsRun-ret :
    (r : Register) (t : ℕ) (es : List Event) (m : ℕ) {p : Op}
    → IsRun r t es
    → op_at (record_all r es) m ≡ some p
    → t ≤ p.ret
unfolding record_all
IsRun-ret r t [] m h at = absurd (ground arith)
IsRun-ret r t (e ∷ es) zero (_, within, after, _, _) at = ground arith
IsRun-ret r t (e ∷ es) (suc m) (_, within, after, _, more) at =
    ground (arith, IsRun-ret (answer r e.request e.index).1 e.instant es m more at)

-- The operations from an index on are those of the rest of the run.
abbrev Suffix : List Op → ℕ → List Op → Type 0
Suffix ops k rest = (m : ℕ) → op_at ops (k + m) ≡ op_at rest m

module _ (ops : List Op) where
  next_suffix :
      (k : ℕ) (o : Op) (rest : List Op) → Suffix ops k (o ∷ rest) → Suffix ops (k + 1) rest
  next_suffix k o rest h m = subst (λ j. op_at ops j ≡ op_at rest m) (omega arith) (h (suc m))

  first_suffix : (k : ℕ) (o : Op) (rest : List Op) → Suffix ops k (o ∷ rest) → op_at ops k ≡ some o
  first_suffix k o rest h = subst (λ j. op_at ops j ≡ some o) (omega arith) (h 0)

  IsRun-IsLegal :
      (r : Register) (t k : ℕ) (es : List Event)
      → IsRun r t es
      → Suffix ops k (record_all r es)
      → IsLegal ops (seen r) (range_from k (length es))
  unfolding record_all range_from apply
  IsRun-IsLegal r t k [] h suffix = tt
  IsRun-IsLegal r t k (e ∷ es) (_, _, _, fresh, more) suffix =
      let after = (answer r e.request e.index).1 in
      let rest = record_all after es in
      (
        recorded r e,
        seen after,
        first_suffix k (recorded r e) rest suffix,
        answer-apply_to r e.request e.index fresh,
        IsRun-IsLegal after e.instant (k + 1) es more (next_suffix k (recorded r e) rest suffix),
      )

  IsRun-RespectsTime :
      (r : Register) (t k : ℕ) (es : List Event)
      → IsRun r t es
      → Suffix ops k (record_all r es)
      → RespectsTime ops (range_from k (length es))
  unfolding range_from record_all
  IsRun-RespectsTime r t k [] h suffix = tt
  IsRun-RespectsTime r t k (e ∷ es) (called, within, after_t, fresh, more) suffix =
      let after = (answer r e.request e.index).1 in
      let rest = record_all after es in
      (
        (λ j at o p from to.
            let (m, same, lt) = range_from-contains k (suc (length es)) j at in
            let here : op_at (recorded r e ∷ rest) m ≡ some p =
              sym (suffix m) ∙ subst (λ i. op_at ops i ≡ some p) same to in
            let first : some (recorded r e) ≡ some o =
              sym (first_suffix k (recorded r e) rest suffix) ∙ from in
            let late : e.call ≤ p.ret =
              IsRun-ret r e.call (e ∷ es) m (called, within, called, fresh, more) here in
            ground arith),
        IsRun-RespectsTime after e.instant (k + 1) es more
            (next_suffix k (recorded r e) rest suffix),
      )

-- A history in which every operation takes effect on the register of a data group at one instant of
-- its interval, in the order of increasing log indices, is accepted by the checker.
pub record_all-is_linearizable :
    (es : List Event) → IsRun none 0 es → is_linearizable (record_all none es) ≡ true
record_all-is_linearizable es h =
    let ops = record_all none es in
    (is_linearizable_iff ops).1 (
      in_order es,
      record {
        distinct = range_from-IsDistinct 0 (length es);
        complete = λ i lt.
            contains-range_from 0 (length es) i (omega arith)
              (ground (arith, length-record_all none es));
        timely = IsRun-RespectsTime ops none 0 0 es h (λ m. ap (op_at ops) (omega arith));
        legal = IsRun-IsLegal ops none 0 0 es h (λ m. ap (op_at ops) (omega arith));
      },
    )
