-- ===== src/Partition/Coalesce/Loop.antt =====
-- One write for a chunk of entries gives the results and the state of one write for each entry.
use dal_service.Prelude.{
  ◌≡◌, refl, sym, ◌∙◌, ap, inl, inr, Option, none, some, List, [], ◌∷◌, arith, ◌==◌, nat_eq,
  list_eq, Bool-cases, ==_eq,
}
use mathlib.Core.Path.{fun_ext}
use dal_service.Codec.{Result, ok, err, ◌>>=◌}
use dal_service.Types.{LogId}
use dal_service.Keyspace.{raft_applied_key}
use dal_service.Storage.{StateMutation, StateCf}
use dal_service.Partition.StateMachine.{Reader, ApplyResult}
use dal_service.Partition.Overlay
use dal_service.Partition.Overlay.{StateOverlay, into_mutations, lookup, over}
use dal_service.Partition.Overlay.Laws.{Distinct, stage-Distinct, reader-stage, write_all-walk}
use dal_service.Partition.Coalesce.{
  Payload, Entry, StoredMembership, Raft, blank, normal, membership, read_applied, apply_raft,
  decide_entry, decide_chunk, commit_chunk, apply_coalesced_chunk, and_then, apply_each,
  apply_per_entry,
}
use dal_service.Partition.Coalesce.Agreement.{Agree, evaluate-cong, write_all-Agree}

module _ {M : Type 0} (c : Raft M) where
  decide_entry-cong :
      (f g : Reader) (current : StoredMembership M) (at : LogId) (p : Payload M)
      → Agree f g
      → decide_entry c f current at p ≡ decide_entry c g current at p
  unfolding decide_entry
  decide_entry-cong f g current at blank same = refl
  decide_entry-cong f g current at (normal req) same =
      ground (arith, evaluate-cong c.codecs f g same req at.index)
  decide_entry-cong f g current at (membership m) same = refl

  -- The state is the one at the start, or once an entry was seen holds its applied record.
  abbrev Holds : StateCf → Option LogId → StoredMembership M → StateCf → Type 0
  Holds base none current cf = cf ≡ base
  Holds base (some l) current cf = cf raft_applied_key ≡ some (c.applied.encode (some l, current))

  -- The chunk's loop and the loop with one write each have come out alike.
  abbrev Matches :
      StateCf
      → Result (List ApplyResult × StateOverlay × StoredMembership M × Option LogId)
      → Result (List ApplyResult) × StateCf
      → Type 0
  Matches base (err x) each = each.0 ≡ err x
  Matches base (ok (results, overlay, final, last)) each =
      (each.0 ≡ ok results)
      × Agree (Overlay.reader overlay) each.1
      × Holds base last final each.1
      × Distinct overlay.pending
      × (overlay.storage ≡ base)

  Matches-cons :
      (base : StateCf) (r : ApplyResult)
      (chunk : Result (List ApplyResult × StateOverlay × StoredMembership M × Option LogId))
      (each : Result (List ApplyResult) × StateCf)
      → Matches base chunk each
      → Matches base
          (do (results, overlay', final, last') ← chunk; ok (r ∷ results, overlay', final, last'))
          (and_then c r each)
  Matches-cons base r (err x) (ok rs, cf) m = absurd (ground arith)
  Matches-cons base r (err x) (err y, cf) m = m
  Matches-cons base r (ok (results, o, final, last)) (ok rs, cf) m =
      (ground arith, m.1, m.2, m.3, m.4)
  Matches-cons base r (ok (results, o, final, last)) (err y, cf) m = absurd (ground arith)

  applied_record :
      (base cf : StateCf) (ms : List StateMutation) (l : LogId) (current : StoredMembership M)
      → Holds base (some l) current (apply_raft c cf ms (some l, current))
  unfolding apply_raft
  applied_record base cf ms l current = refl

  stage-Agree :
      (o : StateOverlay) (g : StateCf) (ms : List StateMutation) (l : LogId)
      (current : StoredMembership M)
      → Agree (Overlay.reader o) g
      → Agree (Overlay.reader (Overlay.stage o ms)) (apply_raft c g ms (some l, current))
  unfolding apply_raft
  stage-Agree o g ms l current same =
      rw reader-stage
        (write_all-Agree (Overlay.reader o) g ms (c.applied.encode (some l, current)) same)

  storage-stage :
      (o : StateOverlay) (ms : List StateMutation) → (Overlay.stage o ms).storage ≡ o.storage
  unfolding Overlay.stage
  storage-stage o ms = refl

  loops_match :
      (base : StateCf) (o : StateOverlay) (g : StateCf) (current : StoredMembership M)
      (last : Option LogId) (entries : List (Entry M))
      → Agree (Overlay.reader o) g
      → Holds base last current g
      → Distinct o.pending
      → o.storage ≡ base
      → Matches base (decide_chunk c o current last entries) (apply_each c g current entries)
  unfolding decide_chunk apply_each
  loops_match base o g current last [] same held fresh stored = (refl, same, held, fresh, stored)
  loops_match base o g current last (e ∷ entries) same held fresh stored =
      rw (decide_entry-cong (Overlay.reader o) g current e.log_id e.payload same) (
        by_entry (decide_entry c g current e.log_id e.payload) λ ms next.
          loops_match base (Overlay.stage o ms) (apply_raft c g ms (some e.log_id, next)) next
            (some e.log_id) entries (stage-Agree o g ms e.log_id next same)
            (applied_record base g ms e.log_id next) (stage-Distinct o ms fresh)
            (storage-stage o ms ∙ stored))
    where
      by_entry :
          (made : Result (ApplyResult × List StateMutation × StoredMembership M))
          → ((ms : List StateMutation) (next : StoredMembership M)
              → Matches base
                  (decide_chunk c (Overlay.stage o ms) next (some e.log_id) entries)
                  (apply_each c (apply_raft c g ms (some e.log_id, next)) next entries))
          → Matches base
              (do
                (result, mutations, next) ← made
                (results, overlay', final, last') ←
                    decide_chunk c (Overlay.stage o mutations) next (some e.log_id) entries
                ok (result ∷ results, overlay', final, last'))
              (elim made [
                | err x ↦ (err x, g)
                | ok (result, mutations, next) ↦
                    and_then c result
                      (apply_each c (apply_raft c g mutations (some e.log_id, next)) next entries)
              ])
      by_entry (err x) rest = refl
      by_entry (ok (result, ms, next)) rest =
          Matches-cons base result
            (decide_chunk c (Overlay.stage o ms) next (some e.log_id) entries)
            (apply_each c (apply_raft c g ms (some e.log_id, next)) next entries) (rest ms next)

  commit_state :
      (base : StateCf) (o : StateOverlay) (final : StoredMembership M) (l : LogId) (cf : StateCf)
      → Agree (Overlay.reader o) cf
      → Holds base (some l) final cf
      → Distinct o.pending
      → o.storage ≡ base
      → apply_raft c base (into_mutations o.pending) (some l, final) ≡ cf
  unfolding apply_raft
  commit_state base o final l cf same held fresh stored = fun_ext λ key.
      let written = write_all-walk o o.pending fresh (λ j. refl) in
      elim (Bool-cases (raft_applied_key == key)) [
        | inl here ↦ rw here (sym held ∙ ap cf (==_eq raft_applied_key key here))
        | inr away ↦ rw (away, ← stored, written) (same key away)
      ]

  -- What the two ways of applying entries come to.
  abbrev pub SameOutcome :
      StateCf → Result (List ApplyResult) × StateCf → Result (List ApplyResult) × StateCf → Type 0
  SameOutcome base (ok rs, cf) each = (each.0 ≡ ok rs) × (cf ≡ each.1)
  SameOutcome base (err x, cf) each = (each.0 ≡ err x) × (cf ≡ base)

  commit-Matches :
      (base : StateCf)
      (chunk : Result (List ApplyResult × StateOverlay × StoredMembership M × Option LogId))
      (each : Result (List ApplyResult) × StateCf)
      → Matches base chunk each
      → SameOutcome base (commit_chunk c base chunk) each
  unfolding commit_chunk
  commit-Matches base (err x) each m = (m, refl)
  commit-Matches base (ok (results, o, final, none)) each m = (m.0, sym m.2)
  commit-Matches base (ok (results, o, final, some l)) each m =
      (m.0, commit_state base o final l each.1 m.1 m.2 m.3 m.4)

  new-Agree : (cf : StateCf) → Agree (Overlay.reader (Overlay.new cf)) cf
  unfolding Overlay.reader Overlay.new lookup
  new-Agree cf key h = refl

  new-fields : (cf : StateCf) → Distinct (Overlay.new cf).pending × ((Overlay.new cf).storage ≡ cf)
  unfolding Overlay.new
  new-fields cf = (tt, refl)

  -- Applying a chunk of entries through the overlay with one write at its end, and applying them
  -- with one write each, have the same outcome: the same results and the same state, or the same
  -- error, where the chunk has written nothing.
  pub apply_coalesced_chunk-per_entry :
      (cf : StateCf) (entries : List (Entry M))
      → SameOutcome cf (apply_coalesced_chunk c cf entries) (apply_per_entry c cf entries)
  unfolding apply_coalesced_chunk apply_per_entry commit_chunk
  apply_coalesced_chunk-per_entry cf entries = by_record (read_applied c cf)
    where
      by_record :
          (r : Result (Option LogId × StoredMembership M))
          → SameOutcome cf
              (commit_chunk c cf
                (do (_, current) ← r; decide_chunk c (Overlay.new cf) current none entries))
              (elim r [ err x ↦ (err x, cf) | ok (_, current) ↦ apply_each c cf current entries ])
      by_record (err x) = (refl, refl)
      by_record (ok (at, current)) =
          commit-Matches cf (decide_chunk c (Overlay.new cf) current none entries)
            (apply_each c cf current entries)
            (loops_match cf (Overlay.new cf) cf current none entries (new-Agree cf) refl
              (new-fields cf).0 (new-fields cf).1)
