-- ===== src/Durability/Registry.antt =====
-- The trackers of a database, `ApplyDurabilityRegistry` of src/storage/apply_durability.rs. The
-- counter of recovery epochs is a field; the hook into the WAL worker and the watchdog's clock are
-- left out: which group is overdue is an argument. The loop of `begin` looks a tracker up once; its
-- rounds are `expire_dirty` and `Tracker.begin` on the tracker that it holds.
pub mod Poisoned
use dal_service.Prelude.{
  ℕ, ◌+◌, Bool, true, false, not, ◌||◌, Option, none, some, String, ◌==◌, nat_eq, if◌then◌else◌,
}
use dal_service.Codec.{Error, io, raft, corrupt, Result, ok, err}
use dal_service.Types.{GroupId, meta, data_group, group_eq}
use dal_service.Durability.LogIds.{RaftLogId}
use dal_service.Durability.Tracker
use dal_service.Durability.Tracker.{ApplyDurabilityLimits, GroupState, first_failure, to_string}

pub record ApplyDurabilityRegistry : Type 0 where
  pub groups : GroupId → Option GroupState
  pub failed : Option String
  pub next_epoch : ℕ

abbrev pub with_limits : ℕ → ApplyDurabilityRegistry
with_limits next_epoch = record { groups = λ g. none; failed = none; next_epoch = next_epoch }

abbrev pub put_group : ApplyDurabilityRegistry → GroupId → GroupState → ApplyDurabilityRegistry
put_group r group t = record r { groups = λ g. if g == group then some t else r.groups g }

abbrev pub is_meta : GroupId → Bool
is_meta meta = true
is_meta (data_group p) = false

-- `if let Some(error) = failure { tracker.fail(error) }`.
abbrev pub fail_with : Option String → GroupState → GroupState
fail_with none t = t
fail_with (some error) t = Tracker.fail t error

-- `register`, and `tracker` which registers a group with nothing recovered, have two parts: they read
-- the registry's failure, and later, under the lock of the groups, find the group's tracker, new if
-- there was none. It fails with the failure that was read.
unfoldable pub register_at :
    ApplyDurabilityRegistry
    → Option String
    → GroupId
    → Option RaftLogId
    → GroupState × ApplyDurabilityRegistry
register_at r failure group recovered = elim (r.groups group) [
  | some t ↦ let u = fail_with failure t in (u, put_group r group u)
  | none ↦
      let u = fail_with failure (Tracker.new recovered (is_meta group) r.next_epoch) in
      (u, put_group (record r { next_epoch = r.next_epoch + 1 }) group u)
]

-- Without another thread between the parts.
abbrev pub register_in :
    ApplyDurabilityRegistry → GroupId → Option RaftLogId → GroupState × ApplyDurabilityRegistry
register_in r group recovered = register_at r r.failed group recovered

abbrev pub register : ApplyDurabilityRegistry → GroupId → Option RaftLogId → ApplyDurabilityRegistry
register r group recovered = (register_in r group recovered).1

abbrev pub tracker : ApplyDurabilityRegistry → GroupId → GroupState × ApplyDurabilityRegistry
tracker r group = register_in r group none

-- The two parts of `fail_all`: under the lock of the failure, and the loop over the trackers.
unfoldable pub poison : ApplyDurabilityRegistry → String → ApplyDurabilityRegistry
poison r error = record r { failed = first_failure r.failed (some error) }

abbrev pub fail_group : Option GroupState → String → Option GroupState
fail_group none error = none
fail_group (some t) error = some (Tracker.fail t error)

unfoldable pub fail_all : ApplyDurabilityRegistry → String → ApplyDurabilityRegistry
fail_all r error =
    let s = poison r error in record s { groups = λ g. fail_group (s.groups g) error }

-- After a call on a tracker, `if let Some(error) = tracker.failure() { self.fail_all(error) }`.
unfoldable pub spread_failure : ApplyDurabilityRegistry → GroupState → ApplyDurabilityRegistry
spread_failure r t = elim t.failed [ none ↦ r | some error ↦ fail_all r error ]

unfoldable pub fail_on_corruption {μ} :
    {T : Type μ} → ApplyDurabilityRegistry → Result T → Result T × ApplyDurabilityRegistry
fail_on_corruption r (ok t) = (ok t, r)
fail_on_corruption r (err (corrupt what detail)) =
    (err (corrupt what detail), fail_all r (to_string (corrupt what detail)))
fail_on_corruption r (err error) = (err error, r)

-- `expire_dirty`, where `overdue` is a group whose oldest batch exceeds the age limit.
unfoldable pub expire_dirty : ApplyDurabilityRegistry → Option GroupId → ApplyDurabilityRegistry
expire_dirty r overdue = elim r.failed [
  | some _ ↦ r
  | none ↦ elim overdue [
    | none ↦ r
    | some group ↦ fail_all r "materialized state exceeded dirty-age limit"
  ]
]

unfoldable pub visible : ApplyDurabilityRegistry → GroupId → RaftLogId → ApplyDurabilityRegistry
visible r group log_id =
    let (t, s) = tracker r group in
    let u = Tracker.visible t log_id in spread_failure (put_group s group u) u

unfoldable pub durable : ApplyDurabilityRegistry → GroupId → RaftLogId → ApplyDurabilityRegistry
durable r group log_id =
    let (t, s) = tracker r group in
    let u = Tracker.durable t log_id in spread_failure (put_group s group u) u

unfoldable pub cancel :
    ApplyDurabilityRegistry → GroupId → RaftLogId → String → ApplyDurabilityRegistry
cancel r group log_id error =
    let (t, s) = tracker r group in
    fail_all (put_group s group (Tracker.cancel t log_id error)) error

unfoldable pub installed :
    ApplyDurabilityRegistry → GroupId → Option RaftLogId → ApplyDurabilityRegistry
installed r group log_id =
    let (t, s) = tracker r group in
    let u = Tracker.installed t log_id (not (is_meta group)) s.next_epoch in
    spread_failure (put_group (record s { next_epoch = s.next_epoch + 1 }) group u) u

unfoldable pub validate_install :
    ApplyDurabilityRegistry
    → GroupId
    → Option RaftLogId
    → Result (Unit {0}) × ApplyDurabilityRegistry
validate_install r group log_id =
    let (t, s) = tracker r group in fail_on_corruption s (Tracker.validate_install t log_id)

unfoldable pub ensure_healthy :
    ApplyDurabilityRegistry → Option GroupId → Result (Unit {0}) × ApplyDurabilityRegistry
ensure_healthy r overdue =
    let s = expire_dirty r overdue in
    (elim s.failed [ some error ↦ err (io error) | none ↦ ok tt ], s)

unfoldable pub ensure_drained : ApplyDurabilityRegistry → GroupId → Result (Unit {0})
ensure_drained r group = elim (r.groups group) [
  | none ↦ ok tt
  | some t ↦
      if not (t.pending_entries == 0) || not (t.pending_bytes == 0)
      then err (raft "refusing to drop a group with batches awaiting durability")
      else ok tt
]

unfoldable pub remove : ApplyDurabilityRegistry → GroupId → ApplyDurabilityRegistry
remove r group = record r { groups = λ g. if g == group then none else r.groups g }
