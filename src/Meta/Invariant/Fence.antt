-- ===== src/Meta/Invariant/Fence.antt =====
-- The maintenance fence: what commands may change while an operation is in progress.
use dal_service.Prelude.{
  ℕ, ◌≡◌, refl, sym, Bool, true, false, some, List, [], ◌∷◌, arith, inl, inr, Bool-cases,
}
use mathlib.Core.Path.{subst}
use dal_service.Codec.{Bytes, ok, >>=-eq-ok}
use dal_service.Types.{NodeId, LogId}
use dal_service.Types.Meta.{MetaCommand, MaintenanceRecord}
use dal_service.Search.Definition.{Hashing}
use dal_service.Meta.Store.{
  MetaStore, MetaMutation, MetaApplyResult, Outcome, rejected, write, write_all, apply_state,
  maintenance_active,
}
use dal_service.Meta.Maintenance.{
  begin_after, begin_in, begin_maintenance, release_verified, release_at, release_maintenance,
  acknowledge_in, acknowledge_maintenance, quiesce_maintenance, enter_maintenance_verification,
}
use dal_service.Meta.Maintenance.Recovery.{
  conclude, earlier_proof, recover_topology, recover_proof, acknowledge_maintenance_recovery,
}
use dal_service.Meta.Evaluate.{in_maintenance, is_maintenance, dispatch, evaluate, apply}

-- Nothing is written, or the maintenance record is.
abbrev only_record : List MetaMutation → Bool
only_record [] = true
only_record (MetaMutation.put_maintenance m ∷ []) = true
only_record _ = false

module _ (s : MetaStore) (id generation : ℕ) where
  begin-only_record :
      (ps : List NodeId) → only_record (begin_maintenance s id generation ps).1 ≡ true
  unfolding begin_maintenance begin_in begin_after
  begin-only_record ps = ground arith

  release_at-only_record :
      (r : MaintenanceRecord) (processes incarnations : List (NodeId × ℕ)) (digest : Bytes)
      → only_record (release_at s r r.stage processes incarnations digest).1 ≡ true
  unfolding release_at release_verified
  release_at-only_record r processes incarnations digest = ground arith

  release-only_record :
      (processes incarnations : List (NodeId × ℕ)) (digest : Bytes)
      → only_record (release_maintenance s id generation processes incarnations digest).1 ≡ true
  unfolding release_maintenance
  release-only_record processes incarnations digest = grind (arith, release_at-only_record)

  acknowledge-only_record :
      (n : NodeId) (i : ℕ) → only_record (acknowledge_maintenance s id generation n i).1 ≡ true
  unfolding acknowledge_maintenance acknowledge_in
  acknowledge-only_record n i = ground arith

  quiesce-only_record : only_record (quiesce_maintenance s id generation).1 ≡ true
  unfolding quiesce_maintenance
  quiesce-only_record = ground arith

  verification-only_record : only_record (enter_maintenance_verification s id generation).1 ≡ true
  unfolding enter_maintenance_verification
  verification-only_record = ground arith

  module _ (sha256 : Bytes → Bytes) (n : NodeId) (process : ℕ) (topology policy : Bytes)
      (epoch : ℕ) where
    topology-only_record :
        (r : MaintenanceRecord)
        → only_record (recover_topology sha256 s r n process topology policy epoch).1 ≡ true
    unfolding recover_topology conclude
    topology-only_record r = ground arith

    proof-only_record :
        (r : MaintenanceRecord)
        → only_record (recover_proof sha256 s r n process topology policy epoch).1 ≡ true
    unfolding recover_proof earlier_proof
    proof-only_record r = ground (arith, topology-only_record r)

    recovery-only_record :
        (i : ℕ)
        → only_record
            (acknowledge_maintenance_recovery sha256 s id generation n i process topology policy
              epoch).1
          ≡ true
    unfolding acknowledge_maintenance_recovery
    recovery-only_record i = grind (arith, proof-only_record)

module _ (h : Hashing) (s : MetaStore) (l : LogId) where
  by_outcome :
      (made : Outcome) {o : Outcome}
      → ok made ≡ ok o
      → only_record made.1 ≡ true
      → only_record o.1 ≡ true
  by_outcome made e k = ground arith

  dispatch-only_record :
      (cmd : MetaCommand) {o : Outcome}
      → is_maintenance cmd ≡ true
      → dispatch h s cmd l ≡ ok o
      → only_record o.1 ≡ true
  unfolding dispatch is_maintenance
  dispatch-only_record (MetaCommand.begin_maintenance i g ps) k e =
      by_outcome _ e (begin-only_record s i g ps)
  dispatch-only_record (MetaCommand.release_maintenance i g ps is d) k e =
      by_outcome _ e (release-only_record s i g ps is d)
  dispatch-only_record (MetaCommand.acknowledge_maintenance i g n j) k e =
      by_outcome _ e (acknowledge-only_record s i g n j)
  dispatch-only_record (MetaCommand.quiesce_maintenance i g) k e =
      by_outcome _ e (quiesce-only_record s i g)
  dispatch-only_record (MetaCommand.enter_maintenance_verification i g) k e =
      by_outcome _ e (verification-only_record s i g)
  dispatch-only_record (MetaCommand.acknowledge_maintenance_recovery i g n j p t d q) k e =
      by_outcome _ e (recovery-only_record s i g h.sha256 n p t d q j)
  dispatch-only_record cmd k e = absurd (ground arith)

  written-only_record :
      (ms : List MetaMutation)
      → only_record ms ≡ true
      → apply_state s ms l
        ≡ record s { maintenance = (apply_state s ms l).maintenance; last_applied = some l }
  unfolding apply_state write_all write
  written-only_record [] k = refl
  written-only_record (MetaMutation.put_maintenance m ∷ []) k = refl
  written-only_record (m ∷ ms) k = absurd (ground arith)

  refused :
      (cmd : MetaCommand) {r : MetaApplyResult} {s' : MetaStore}
      → in_maintenance s.maintenance ≡ true
      → is_maintenance cmd ≡ false
      → apply h s cmd l ≡ ok (r, s')
      → (r ≡ rejected maintenance_active) × (s' ≡ record s { last_applied = some l })
  unfolding apply evaluate apply_state write_all
  refused cmd fence other e = ground arith

  fenced :
      (cmd : MetaCommand) {r : MetaApplyResult} {s' : MetaStore}
      → in_maintenance s.maintenance ≡ true
      → is_maintenance cmd ≡ true
      → apply h s cmd l ≡ ok (r, s')
      → (o : Outcome) × (only_record o.1 ≡ true) × (s' ≡ apply_state s o.1 l)
  unfolding apply evaluate
  fenced cmd fence allowed e =
      let (o, made, state) = >>=-eq-ok (evaluate h s cmd l) _ e in
      (o, dispatch-only_record cmd {o = o} allowed (ground arith), ground arith)

  -- While a maintenance operation is in progress, a command that does not fail changes nothing but
  -- the maintenance record and `last_applied`; one that is not a maintenance command is answered
  -- with `MaintenanceActive` and changes the latter only.
  pub apply_fenced :
      (cmd : MetaCommand) {r : MetaApplyResult} {s' : MetaStore}
      → in_maintenance s.maintenance ≡ true
      → apply h s cmd l ≡ ok (r, s')
      → (s' ≡ record s { maintenance = s'.maintenance; last_applied = some l })
        × (is_maintenance cmd ≡ false
            → (r ≡ rejected maintenance_active) × (s' ≡ record s { last_applied = some l }))
  apply_fenced cmd {s' = s'} fence e = elim (Bool-cases (is_maintenance cmd)) [
    | inl allowed ↦
        let (o, only, state) = fenced cmd fence allowed e in
        (
          subst (λ t. t ≡ record s { maintenance = t.maintenance; last_applied = some l })
              (sym state) (written-only_record o.1 only),
          λ other. absurd (ground arith),
        )
    | inr other ↦
        let done = refused cmd fence other e in
        (
          subst (λ t. t ≡ record s { maintenance = t.maintenance; last_applied = some l })
              (sym done.1) refl,
          λ k. done,
        )
  ]
