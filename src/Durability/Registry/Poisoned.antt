-- ===== src/Durability/Registry/Poisoned.antt =====
-- The failure of a database, in the histories of its registry. A step is what happens under one
-- lock, so that the calls of all threads interleave: the second part of a lookup, with a failure that
-- was read earlier, a call on a tracker, and the two parts of `fail_all`. A lookup that read no failure
-- before may so register a tracker that has not failed; the next lookup of the group fails it.
use dal_service.Prelude.{
  ℕ, ◌+◌, ◌≡◌, ◌≢◌, refl, inl, inr, Bool, Option, none, some, String, arith, nat_eq, Option-cases,
}
use dal_service.Codec.{io, err}
use dal_service.Types.{GroupId, group_eq}
use dal_service.Durability.LogIds.{RaftLogId, raft_log_eq, raft_log_beq_iff, advance, mismatch}
use dal_service.Durability.Tracker
use dal_service.Durability.Tracker.{ApplyDurabilityLimits, GroupState, first_failure, to_string}
use dal_service.Durability.Steps.{Call, call, Reaches}
use dal_service.Durability.Lasting.{failed_for_good}
use dal_service.Durability.Registry.{
  ApplyDurabilityRegistry, put_group, fail_with, register_at, tracker, poison, fail_all,
  spread_failure, expire_dirty, visible, ensure_healthy, remove,
}

pub data Steps (limits : ApplyDurabilityLimits) (r : ApplyDurabilityRegistry)
    : ApplyDurabilityRegistry → Type 0 where
  stays : Steps limits r r
  -- The failure that a lookup read, of any earlier time.
  looks_up :
      (t : ApplyDurabilityRegistry) (failure : Option String) (group : GroupId)
      (recovered : Option RaftLogId)
      → Steps limits r t
      → Steps limits r (register_at t failure group recovered).1
  calls_on :
      (t : ApplyDurabilityRegistry) (group : GroupId) (u : GroupState) (c : Call)
      → t.groups group ≡ some u
      → Steps limits r t
      → Steps limits r (put_group t group (call limits u c))
  installs_on :
      (t : ApplyDurabilityRegistry) (group : GroupId) (u : GroupState) (log_id : Option RaftLogId)
      (requires_fence : Bool)
      → t.groups group ≡ some u
      → Steps limits r t
      → Steps limits r (
          put_group
            (record t { next_epoch = t.next_epoch + 1 })
            group
            (Tracker.installed u log_id requires_fence t.next_epoch))
  poisons :
      (t : ApplyDurabilityRegistry) (error : String)
      → Steps limits r t
      → Steps limits r (poison t error)
  fails_group :
      (t : ApplyDurabilityRegistry) (group : GroupId) (u : GroupState) (error : String)
      → t.groups group ≡ some u
      → Steps limits r t
      → Steps limits r (put_group t group (Tracker.fail u error))
  removes :
      (t : ApplyDurabilityRegistry) (group : GroupId)
      → Steps limits r t
      → Steps limits r (remove t group)

advance_conflict :
    (p x : RaftLogId) → p.index ≡ x.index → p ≢ x → advance (some p) x ≡ (some p, some mismatch)
unfolding advance
advance_conflict p x same other = ground (arith, raft_log_beq_iff p x)

register_at-failed :
    (r : ApplyDurabilityRegistry) (failure : Option String) (group : GroupId)
    (recovered : Option RaftLogId)
    → (register_at r failure group recovered).1.failed ≡ r.failed
unfolding register_at
register_at-failed r failure group recovered = elim (Option-cases (r.groups group)) [
  | inl missing ↦ rw (missing, register_at) refl
  | inr (t, there) ↦ rw (there, register_at) refl
]

fail_with_failed :
    (error : String) (t : GroupState)
    → (reason : String) × ((fail_with (some error) t).failed ≡ some reason)
unfolding Tracker.fail
fail_with_failed error t = elim (Option-cases t.failed) [
  | inl sound ↦ (error, rw sound)
  | inr (reason, failed) ↦ (reason, rw failed)
]

-- In a registry that has failed, a lookup gives a tracker that has failed.
tracker_failed :
    (r : ApplyDurabilityRegistry) (group : GroupId) {error : String}
    → r.failed ≡ some error
    → (reason : String) × ((tracker r group).0.failed ≡ some reason)
unfolding register_at
tracker_failed r group {error} failed = elim (Option-cases (r.groups group)) [
  | inl missing ↦ rw (missing, register_at) (rw failed (fail_with_failed error _))
  | inr (t, there) ↦ rw (there, register_at) (rw failed (fail_with_failed error t))
]

lasting_failure :
    (limits : ApplyDurabilityLimits) {r t : ApplyDurabilityRegistry} {error : String}
    → Steps limits r t
    → r.failed ≡ some error
    → t.failed ≡ some error
unfolding poison remove
lasting_failure limits stays h = h
lasting_failure limits (looks_up t failure group recovered r) h =
    rw (register_at-failed t failure group recovered) (lasting_failure limits r h)
lasting_failure limits (calls_on t group u c there r) h = lasting_failure limits r h
lasting_failure limits (installs_on t group u x fence there r) h = lasting_failure limits r h
lasting_failure limits (poisons t error r) h = rw (lasting_failure limits r h) refl
lasting_failure limits (fails_group t group u error there r) h = lasting_failure limits r h
lasting_failure limits (removes t group r) h = lasting_failure limits r h

-- What a tracker does not allow: it admits no batch, a wait for durability ends, and no snapshot
-- passes validation.
pub record Refuses (limits : ApplyDurabilityLimits) (u : GroupState) (reason : String)
    : Type 0 where
  pub admits_none :
      (x : RaftLogId) (entries bytes : ℕ) → Tracker.begin u x entries bytes limits ≡ err (io reason)
  pub waits_none : (x : RaftLogId) → Tracker.wait_durable_round u x ≡ err (io reason)
  pub installs_none :
      (target : Option RaftLogId) → Tracker.validate_install u target ≡ err (io reason)

failed-Refuses :
    (limits : ApplyDurabilityLimits) (held : GroupState) {u : GroupState} {reason : String}
    → held.failed ≡ some reason
    → Reaches limits held u
    → Refuses limits u reason
failed-Refuses limits held why r =
    let (admits, waits, _, _, _, installs) = failed_for_good limits r why in
    record { admits_none = admits; waits_none = waits; installs_none = installs }

-- Once a database has failed, whatever lookups, calls, installs and removals of all groups follow,
-- in any order, it is not healthy, and a tracker that a lookup gives, also of a group that is
-- registered later, refuses with a reason, whatever calls on it follow.
pub poisoned_for_good :
    (limits : ApplyDurabilityLimits) {r t : ApplyDurabilityRegistry} {error : String}
    (overdue : Option GroupId) (group : GroupId) {u : GroupState}
    → Steps limits r t
    → r.failed ≡ some error
    → Reaches limits (tracker t group).0 u
    → ((ensure_healthy t overdue).0 ≡ err (io error))
      × ((reason : String) × Refuses limits u reason)
unfolding ensure_healthy expire_dirty
poisoned_for_good limits {t} overdue group steps failed path =
    let still = lasting_failure limits steps failed in
    let (reason, why) = tracker_failed t group still in
    (rw still refl, (reason, failed-Refuses limits (tracker t group).0 why path))

-- Where a group's visible watermark meets another log id at its index, the tracker fails.
tracker-visible_failed :
    (t : GroupState) (x p : RaftLogId)
    → t.visible_at ≡ some p
    → p.index ≡ x.index
    → p ≢ x
    → (reason : String) × ((Tracker.visible t x).failed ≡ some reason)
unfolding Tracker.visible
tracker-visible_failed t x p here same other =
    let conflicts = advance_conflict p x same other in
    elim (Option-cases t.failed) [
      | inl sound ↦ (to_string mismatch, rw (here, conflicts, sound) refl)
      | inr (reason, failed) ↦ (reason, rw failed refl)
    ]

spread_failure_failed :
    (r : ApplyDurabilityRegistry) (u : GroupState) {reason : String}
    → u.failed ≡ some reason
    → (error : String) × ((spread_failure r u).failed ≡ some error)
unfolding spread_failure fail_all poison
spread_failure_failed r u {reason} failed = elim (Option-cases r.failed) [
  | inl sound ↦ (reason, ground arith)
  | inr (error, earlier) ↦ (error, ground arith)
]

-- The loop of `fail_all` fails every tracker of the registry, whoever holds it.
spread_failure-groups :
    (r : ApplyDurabilityRegistry) (u : GroupState) (group : GroupId) {held : GroupState}
    {reason : String}
    → u.failed ≡ some reason
    → (spread_failure r u).groups group ≡ some held
    → (why : String) × (held.failed ≡ some why)
unfolding spread_failure fail_all poison Tracker.fail
spread_failure-groups r u group {held} {reason} failed there =
    elim (Option-cases (r.groups group)) [
      | inl missing ↦ absurd (ground arith)
      | inr (t, known) ↦ elim (Option-cases t.failed) [
        | inl sound ↦ (reason, ground arith)
        | inr (earlier, why) ↦ (earlier, ground arith)
      ]
    ]

-- Where a group's visible watermark meets another log id at its index, the database fails. A tracker
-- that it has then, which other threads may hold, refuses whatever calls follow on it. After any
-- steps of the database, in any order, a tracker that a lookup gives refuses too, whatever calls
-- follow on it.
pub conflict-Refuses :
    (limits : ApplyDurabilityLimits) (r : ApplyDurabilityRegistry) (group : GroupId)
    (x p : RaftLogId) {t : ApplyDurabilityRegistry} (other later : GroupId) {held u v : GroupState}
    → (tracker r group).0.visible_at ≡ some p
    → p.index ≡ x.index
    → p ≢ x
    → (visible r group x).groups other ≡ some held
    → Reaches limits held u
    → Steps limits (visible r group x) t
    → Reaches limits (tracker t later).0 v
    → ((reason : String) × Refuses limits u reason) × ((reason : String) × Refuses limits v reason)
unfolding visible
conflict-Refuses limits r group x p other later {held} here same differs there path steps more =
    let w = Tracker.visible (tracker r group).0 x in
    let s = put_group (tracker r group).1 group w in
    let (_, failed) = tracker-visible_failed (tracker r group).0 x p here same differs in
    let (_, spread) = spread_failure_failed s w failed in
    let (reason, why) = spread_failure-groups s w other failed there in
    (
      (reason, failed-Refuses limits held why path),
      (poisoned_for_good limits none later steps spread more).1,
    )
