-- ===== src/Runtime/Readiness.antt =====
-- The life cycle of a process, src/runtime/readiness.rs. The atomic byte is the state that the tasks
-- share; a load, a store and a compare-and-exchange are one step each.
pub mod Monotone
use dal_service.Prelude.{
  ℕ, ◌≤◌, ◌<◌, ◌≡◌, ◌⊎◌, refl, inl, inr, Bool, true, false, not, ◌||◌, Option, none, some, List, [],
  ◌∷◌, arith, ◌==◌, Eq, nat_eq, ◌↔◌, if◌then◌else◌,
}

pub data RuntimeLifecycle : Type 0 where
  starting running draining failed stopped : RuntimeLifecycle

-- `as u8`, and `from_u8`.
abbrev pub as_u8 : RuntimeLifecycle → ℕ
as_u8 RuntimeLifecycle.starting = 0
as_u8 RuntimeLifecycle.running = 1
as_u8 RuntimeLifecycle.draining = 2
as_u8 RuntimeLifecycle.failed = 3
as_u8 RuntimeLifecycle.stopped = 4

unfoldable pub from_u8 : ℕ → RuntimeLifecycle
from_u8 n =
    if n == 0
    then RuntimeLifecycle.starting
    else if n == 1
    then RuntimeLifecycle.running
    else if n == 2
    then RuntimeLifecycle.draining
    else if n == 3
    then RuntimeLifecycle.failed
    else if n == 4
    then RuntimeLifecycle.stopped
    else RuntimeLifecycle.failed

abbrev pub is_live : RuntimeLifecycle → Bool
is_live RuntimeLifecycle.starting = true
is_live RuntimeLifecycle.running = true
is_live RuntimeLifecycle.draining = true
is_live _ = false

abbrev pub is_ready : RuntimeLifecycle → Bool
is_ready RuntimeLifecycle.running = true
is_ready _ = false

-- The byte that a compare-and-exchange leaves, and whether it exchanged.
unfoldable pub transition : ℕ → RuntimeLifecycle → RuntimeLifecycle → Bool × ℕ
transition byte from to = if byte == as_u8 from then (true, as_u8 to) else (false, byte)

-- A task, between two accesses of the byte.
pub data Task : Type 0 where
  -- `mark_ready`, before its exchange and after a failed one.
  marks_ready reads_ready : Task
  -- `begin_draining`, before its load and before its exchange.
  begins_draining : Task
  exchanges_draining : RuntimeLifecycle → Task
  -- `mark_failed`, before its load and before its exchange.
  marks_failed : Task
  exchanges_failed : RuntimeLifecycle → Task
  marks_stopped : Task
  returned : Bool → Task

-- After the load of `begin_draining`.
unfoldable pub drain_from : RuntimeLifecycle → Task
drain_from RuntimeLifecycle.starting = exchanges_draining RuntimeLifecycle.starting
drain_from RuntimeLifecycle.running = exchanges_draining RuntimeLifecycle.running
drain_from RuntimeLifecycle.draining = returned true
drain_from RuntimeLifecycle.failed = returned false
drain_from RuntimeLifecycle.stopped = returned false

-- After the load of `mark_failed`.
unfoldable pub fail_from : RuntimeLifecycle → Task
fail_from RuntimeLifecycle.stopped = returned false
fail_from RuntimeLifecycle.failed = returned true
fail_from current = exchanges_failed current

-- One access of a task: the task afterwards, and the byte.
unfoldable pub access : Task → ℕ → Task × ℕ
access marks_ready byte =
    let (done, after) = transition byte RuntimeLifecycle.starting RuntimeLifecycle.running in
    (if done then returned true else reads_ready, after)
access reads_ready byte = (returned (is_ready (from_u8 byte)), byte)
access begins_draining byte = (drain_from (from_u8 byte), byte)
access (exchanges_draining current) byte =
    let (done, after) = transition byte current RuntimeLifecycle.draining in
    (if done then returned true else begins_draining, after)
access marks_failed byte = (fail_from (from_u8 byte), byte)
access (exchanges_failed current) byte =
    let (done, after) = transition byte current RuntimeLifecycle.failed in
    (if done then returned true else marks_failed, after)
access marks_stopped byte = (returned true, as_u8 RuntimeLifecycle.stopped)
access (returned result) byte = (returned result, byte)
