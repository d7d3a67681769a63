-- ===== src/Partition/Coalesce/Append.antt =====
-- Applying a list of entries with one write each, and then another: the same as both at once. The
-- results that follow results, or the error that ends them.
use dal_service.Prelude.{
  ◌≡◌, refl, sym, ◌∙◌, ap, Option, some, List, [], ◌∷◌, ◌++◌, arith, nat_eq, list_eq,
}
use mathlib.Core.Path.{subst}
use dal_service.Codec.{Error, Result, ok, err, decode-encode}
use dal_service.Types.{LogId}
use dal_service.Storage.{StateMutation, StateCf}
use dal_service.Partition.StateMachine.{ApplyResult, read_state}
use dal_service.Partition.Coalesce.{
  Raft, Applied, Entry, StoredMembership, read_applied, apply_raft, decide_entry, and_then,
  apply_each, apply_per_entry,
}
use dal_service.Partition.Coalesce.Loop.{SameOutcome}

abbrev pub ChunkOutcome : Type 0
ChunkOutcome = Result (List ApplyResult) × StateCf

-- `extend` of the results, and what follows an error.
abbrev pub prepend : List ApplyResult → ChunkOutcome → ChunkOutcome
prepend rs (ok more, cf) = (ok (rs ++ more), cf)
prepend rs (err x, cf) = (err x, cf)

abbrev pub extend : ChunkOutcome → (StateCf → ChunkOutcome) → ChunkOutcome
extend (ok rs, cf) rest = prepend rs (rest cf)
extend (err x, cf) rest = (err x, cf)

-- Both end with the same results and the same state, or with the same error.
abbrev pub SameEnd : ChunkOutcome → ChunkOutcome → Type 0
SameEnd (ok rs, cf) each = each ≡ (ok rs, cf)
SameEnd (err x, cf) each = each.0 ≡ err x

prepend_nil : (o : ChunkOutcome) → prepend [] o ≡ o
prepend_nil (ok rs, cf) = refl
prepend_nil (err x, cf) = refl

module _ {M : Type 0} (c : Raft M) where
  pub outcome_end : (base : StateCf) (a b : ChunkOutcome) → SameOutcome c base a b → SameEnd a b
  outcome_end base (ok rs, cf) (r, cf') h = ap (λ x. (x, cf')) h.0 ∙ ap (λ y. (ok rs, y)) (sym h.1)
  outcome_end base (err x, cf) (r, cf') h = h.0

prepend_end :
    (rs : List ApplyResult) (a b : ChunkOutcome)
    → SameEnd a b
    → SameEnd (prepend rs a) (prepend rs b)
prepend_end rs (ok more, cf) b h = ap (prepend rs) h
prepend_end rs (err x, cf) (ok more, cf') h = ground arith
prepend_end rs (err x, cf) (err y, cf') h = h

module _ {M : Type 0} (c : Raft M) where
  pub extend_end :
      (base : StateCf) (a b : ChunkOutcome) (f g : StateCf → ChunkOutcome)
      → SameOutcome c base a b
      → ((cf : StateCf) → SameEnd (f cf) (g cf))
      → SameEnd (extend a f) (extend b g)
  extend_end base (ok rs, cf) b f g h k =
      let same = outcome_end c base (ok rs, cf) b h in
      subst (λ o. SameEnd (prepend rs (f cf)) (extend o g)) (sym same)
        (prepend_end rs (f cf) (g cf) (k cf))
  extend_end base (err x, cf) (ok rs, cf') f g h k = ground arith
  extend_end base (err x, cf) (err y, cf') f g h k = h.0

  read_applied-apply_raft :
      (cf : StateCf) (ms : List StateMutation) (a : Applied M)
      → read_applied c (apply_raft c cf ms a) ≡ ok a
  unfolding read_applied apply_raft read_state
  read_applied-apply_raft cf ms a = rw (decode-encode c.applied a) refl

  and_then-prepend :
      (r : ApplyResult) (rs : List ApplyResult) (o : ChunkOutcome)
      → and_then c r (prepend rs o) ≡ prepend (r ∷ rs) o
  and_then-prepend r rs (ok more, cf) = refl
  and_then-prepend r rs (err x, cf) = refl

  and_then-extend :
      (r : ApplyResult) (o : ChunkOutcome) (rest : StateCf → ChunkOutcome)
      → and_then c r (extend o rest) ≡ extend (and_then c r o) rest
  and_then-extend r (ok rs, cf) rest = and_then-prepend r rs (rest cf)
  and_then-extend r (err x, cf) rest = refl

  apply_each-append :
      (cf : StateCf) (at : Option LogId) (current : StoredMembership M) (xs ys : List (Entry M))
      → read_applied c cf ≡ ok (at, current)
      → apply_each c cf current (xs ++ ys)
        ≡ extend (apply_each c cf current xs) (λ after. apply_per_entry c after ys)
  unfolding apply_each apply_per_entry
  apply_each-append cf at current [] ys h =
      rw (h, apply_per_entry) (sym (prepend_nil (apply_each c cf current ys)))
  apply_each-append cf at current (e ∷ xs) ys h =
      by_entry (λ cf' last next. apply_each-append cf' last next xs ys)
        (decide_entry c cf current e.log_id e.payload)
    where
      by_entry :
          ((cf' : StateCf) (last : Option LogId) (next : StoredMembership M)
            → read_applied c cf' ≡ ok (last, next)
            → apply_each c cf' next (xs ++ ys)
              ≡ extend (apply_each c cf' next xs) (λ after. apply_per_entry c after ys))
          → (r : Result (ApplyResult × List StateMutation × StoredMembership M))
          → elim r [
            | err x ↦ (err x, cf)
            | ok (result, ms, next) ↦
                and_then c result
                  (apply_each c (apply_raft c cf ms (some e.log_id, next)) next (xs ++ ys))
          ]
            ≡ extend
                (elim r [
                  | err x ↦ (err x, cf)
                  | ok (result, ms, next) ↦
                      and_then c result
                        (apply_each c (apply_raft c cf ms (some e.log_id, next)) next xs)
                ])
                (λ after. apply_per_entry c after ys)
      by_entry ih (err x) = refl
      by_entry ih (ok (result, ms, next)) =
          let cf' = apply_raft c cf ms (some e.log_id, next) in
          ap (and_then c result)
            (ih cf' (some e.log_id) next (read_applied-apply_raft cf ms (some e.log_id, next)))
          ∙ and_then-extend result (apply_each c cf' next xs) (λ after. apply_per_entry c after ys)

  per_entry_eq :
      (cf : StateCf) (at : Option LogId) (current : StoredMembership M) (xs : List (Entry M))
      → read_applied c cf ≡ ok (at, current)
      → apply_per_entry c cf xs ≡ apply_each c cf current xs
  unfolding apply_per_entry
  per_entry_eq cf at current xs h = rw (h, apply_per_entry) refl

  per_entry_err :
      (cf : StateCf) (x : Error) (xs : List (Entry M))
      → read_applied c cf ≡ err x
      → apply_per_entry c cf xs ≡ (err x, cf)
  unfolding apply_per_entry
  per_entry_err cf x xs h = rw (h, apply_per_entry) refl

  pub apply_per_entry-append :
      (cf : StateCf) (xs ys : List (Entry M))
      → apply_per_entry c cf (xs ++ ys)
        ≡ extend (apply_per_entry c cf xs) (λ after. apply_per_entry c after ys)
  apply_per_entry-append cf xs ys = by_record (read_applied c cf) refl
    where
      by_record :
          (r : Result (Applied M))
          → read_applied c cf ≡ r
          → apply_per_entry c cf (xs ++ ys)
            ≡ extend (apply_per_entry c cf xs) (λ after. apply_per_entry c after ys)
      by_record (err x) h =
          per_entry_err cf x (xs ++ ys) h
          ∙ ap (λ o. extend o (λ after. apply_per_entry c after ys)) (sym (per_entry_err cf x xs h))
      by_record (ok (at, current)) h =
          per_entry_eq cf at current (xs ++ ys) h
          ∙ apply_each-append cf at current xs ys h
          ∙ ap (λ o. extend o (λ after. apply_per_entry c after ys))
              (sym (per_entry_eq cf at current xs h))
