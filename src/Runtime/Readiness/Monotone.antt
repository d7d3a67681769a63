-- ===== src/Runtime/Readiness/Monotone.antt =====
-- The life cycle goes forward only, whatever tasks interleave.
use dal_service.Prelude.{
  ℕ, ◌≤◌, ◌<◌, ◌≡◌, refl, inl, inr, Bool, true, false, arith, ◌==◌, nat_eq, Bool-cases,
  if◌then◌else◌,
}
use mathlib.Core.Path.{subst}
use dal_service.Runtime.Readiness.{
  RuntimeLifecycle, as_u8, from_u8, is_ready, transition, Task, marks_ready, reads_ready,
  begins_draining, exchanges_draining, marks_failed, exchanges_failed, marks_stopped, returned,
  drain_from, fail_from, access,
}

-- What a task exchanges lies before what it exchanges it for.
abbrev pub IsFit : Task → Type 0
IsFit (exchanges_draining current) = as_u8 current < as_u8 RuntimeLifecycle.draining
IsFit (exchanges_failed current) = as_u8 current < as_u8 RuntimeLifecycle.failed
IsFit _ = Unit

drain_from-IsFit : (c : RuntimeLifecycle) → IsFit (drain_from c)
unfolding drain_from
drain_from-IsFit RuntimeLifecycle.starting = omega arith
drain_from-IsFit RuntimeLifecycle.running = omega arith
drain_from-IsFit RuntimeLifecycle.draining = tt
drain_from-IsFit RuntimeLifecycle.failed = tt
drain_from-IsFit RuntimeLifecycle.stopped = tt

fail_from-IsFit : (c : RuntimeLifecycle) → IsFit (fail_from c)
unfolding fail_from
fail_from-IsFit RuntimeLifecycle.starting = omega arith
fail_from-IsFit RuntimeLifecycle.running = omega arith
fail_from-IsFit RuntimeLifecycle.draining = omega arith
fail_from-IsFit RuntimeLifecycle.failed = tt
fail_from-IsFit RuntimeLifecycle.stopped = tt

-- The byte is one of the five.
abbrev pub IsByte : ℕ → Type 0
IsByte byte = byte ≤ as_u8 RuntimeLifecycle.stopped

pub from_u8-as_u8 : (c : RuntimeLifecycle) → from_u8 (as_u8 c) ≡ c
unfolding from_u8
from_u8-as_u8 RuntimeLifecycle.starting = refl
from_u8-as_u8 RuntimeLifecycle.running = refl
from_u8-as_u8 RuntimeLifecycle.draining = refl
from_u8-as_u8 RuntimeLifecycle.failed = refl
from_u8-as_u8 RuntimeLifecycle.stopped = refl

as_u8-from_u8 : (byte : ℕ) → IsByte byte → as_u8 (from_u8 byte) ≡ byte
unfolding from_u8
as_u8-from_u8 byte h = ground arith

-- An access leaves a task that is fit, and a byte that is no smaller.
pub access-IsFit :
    (t : Task) (byte : ℕ)
    → IsFit t
    → IsByte byte
    → IsFit (access t byte).0 × IsByte (access t byte).1 × (byte ≤ (access t byte).1)
unfolding access transition
access-IsFit marks_ready byte fit h = ground arith
access-IsFit reads_ready byte fit h = (tt, h, omega arith)
access-IsFit begins_draining byte fit h = (drain_from-IsFit (from_u8 byte), h, omega arith)
access-IsFit (exchanges_draining c) byte fit h = ground arith
access-IsFit marks_failed byte fit h = (fail_from-IsFit (from_u8 byte), h, omega arith)
access-IsFit (exchanges_failed c) byte fit h = ground arith
access-IsFit marks_stopped byte fit h = (tt, omega arith, omega arith)
access-IsFit (returned r) byte fit h = (tt, h, omega arith)

-- The accesses of `begin_draining` and of `mark_failed`.
abbrev pub closes : Task → Bool
closes begins_draining = true
closes (exchanges_draining _) = true
closes marks_failed = true
closes (exchanges_failed _) = true
closes marks_stopped = true
closes _ = false

drain_from-closes :
    (c : RuntimeLifecycle) {r : Bool}
    → drain_from c ≡ returned r
    → as_u8 RuntimeLifecycle.draining ≤ as_u8 c
unfolding drain_from
drain_from-closes RuntimeLifecycle.starting h = absurd (ground arith)
drain_from-closes RuntimeLifecycle.running h = absurd (ground arith)
drain_from-closes RuntimeLifecycle.draining h = omega arith
drain_from-closes RuntimeLifecycle.failed h = omega arith
drain_from-closes RuntimeLifecycle.stopped h = omega arith

fail_from-closes :
    (c : RuntimeLifecycle) {r : Bool}
    → fail_from c ≡ returned r
    → as_u8 RuntimeLifecycle.draining ≤ as_u8 c
unfolding fail_from
fail_from-closes RuntimeLifecycle.starting h = absurd (ground arith)
fail_from-closes RuntimeLifecycle.running h = absurd (ground arith)
fail_from-closes RuntimeLifecycle.draining h = absurd (ground arith)
fail_from-closes RuntimeLifecycle.failed h = omega arith
fail_from-closes RuntimeLifecycle.stopped h = omega arith

-- When a closing call returns, whatever it returns, the process is past running.
access-closes :
    (t : Task) (byte : ℕ) {r : Bool}
    → closes t ≡ true
    → IsByte byte
    → (access t byte).0 ≡ returned r
    → as_u8 RuntimeLifecycle.draining ≤ (access t byte).1
unfolding access transition
access-closes marks_ready byte c h e = absurd (ground arith)
access-closes reads_ready byte c h e = absurd (ground arith)
access-closes begins_draining byte c h e =
    subst (λ n. 2 ≤ n) (as_u8-from_u8 byte h) (drain_from-closes (from_u8 byte) e)
access-closes (exchanges_draining current) byte c h e = ground arith
access-closes marks_failed byte c h e =
    subst (λ n. 2 ≤ n) (as_u8-from_u8 byte h) (fail_from-closes (from_u8 byte) e)
access-closes (exchanges_failed current) byte c h e = ground arith
access-closes marks_stopped byte c h e = omega arith
access-closes (returned r) byte c h e = absurd (ground arith)

-- The tasks of a process and the byte that they share.
pub record Process : Type 0 where
  pub byte : ℕ
  pub task : ℕ → Task

abbrev pub starts_as : ℕ → Process
starts_as byte = record { byte = byte; task = λ i. returned true }

abbrev pub put_task : (ℕ → Task) → ℕ → Task → ℕ → Task
put_task task i t = λ j. if i == j then t else task j

-- A new call: `mark_ready`, `begin_draining`, `mark_failed` or `mark_stopped`.
abbrev pub is_call : Task → Bool
is_call marks_ready = true
is_call begins_draining = true
is_call marks_failed = true
is_call marks_stopped = true
is_call _ = false

abbrev pub run : Process → ℕ → Process
run s i = record {
  byte = (access (s.task i) s.byte).1;
  task = put_task s.task i (access (s.task i) s.byte).0;
}

pub data Steps (s : Process) : Process → Type 0 where
  stays : Steps s s
  calls :
      (t : Process) (i : ℕ) (call : Task) (r : Bool)
      → Steps s t
      → t.task i ≡ returned r
      → is_call call ≡ true
      → Steps s (record t { task = put_task t.task i call })
  accesses : (t : Process) (i : ℕ) → Steps s t → Steps s (run t i)

pub record IsSound (s : Process) : Type 0 where
  pub fits : (i : ℕ) → IsFit (s.task i)
  pub in_range : IsByte s.byte

is_call-IsFit : (t : Task) → is_call t ≡ true → IsFit t
is_call-IsFit marks_ready h = tt
is_call-IsFit begins_draining h = tt
is_call-IsFit marks_failed h = tt
is_call-IsFit marks_stopped h = tt
is_call-IsFit reads_ready h = tt
is_call-IsFit (returned r) h = tt
is_call-IsFit (exchanges_draining c) h = absurd (ground arith)
is_call-IsFit (exchanges_failed c) h = absurd (ground arith)

put_task-IsFit :
    (task : ℕ → Task) (i : ℕ) (t : Task)
    → ((j : ℕ) → IsFit (task j))
    → IsFit t
    → (j : ℕ) → IsFit (put_task task i t j)
put_task-IsFit task i t fits fit j = elim (Bool-cases (i == j)) [
  | inl same ↦ rw (same) fit
  | inr other ↦ rw (other) (fits j)
]

Steps-IsSound : {s t : Process} → Steps s t → IsSound s → IsSound t × (s.byte ≤ t.byte)
Steps-IsSound Steps.stays g = (g, omega arith)
Steps-IsSound (Steps.calls t i call r path idle new) g =
    let (sound, low) = Steps-IsSound path g in
    (
      record {
        fits = put_task-IsFit t.task i call sound.fits (is_call-IsFit call new);
        in_range = sound.in_range;
      },
      low,
    )
Steps-IsSound (Steps.accesses t i path) g =
    let (sound, low) = Steps-IsSound path g in
    let (fit, byte, up) = access-IsFit (t.task i) t.byte (sound.fits i) sound.in_range in
    (
      record {
        fits = put_task-IsFit t.task i (access (t.task i) t.byte).0 sound.fits fit;
        in_range = byte;
      },
      omega (arith, low, up),
    )

is_ready-byte :
    (byte : ℕ) → as_u8 RuntimeLifecycle.draining ≤ byte → is_ready (from_u8 byte) ≡ false
unfolding from_u8
is_ready-byte byte h = ground arith

-- In a process whose tasks call the gate in any number and interleave in any way, from the start of
-- the process: once a call of `begin_draining`, `mark_failed` or `mark_stopped` has returned,
-- whatever it returned, the process is not ready, and is not ready in any state that follows.
pub closed_for_good :
    {s t : Process} (i : ℕ) {r : Bool}
    → Steps (starts_as (as_u8 RuntimeLifecycle.starting)) s
    → closes (s.task i) ≡ true
    → (access (s.task i) s.byte).0 ≡ returned r
    → Steps (run s i) t
    → is_ready (from_u8 t.byte) ≡ false
closed_for_good {s} {t} i path closing done more =
    let (sound, _) = Steps-IsSound path (record { fits = λ j. tt; in_range = omega arith }) in
    let past = access-closes (s.task i) s.byte closing sound.in_range done in
    let (next, _) =
      Steps-IsSound (Steps.accesses s i path) (record { fits = λ j. tt; in_range = omega arith }) in
    let (_, up) = Steps-IsSound more next in is_ready-byte t.byte (omega (arith, past, up))
