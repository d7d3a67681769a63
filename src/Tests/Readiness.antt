-- ===== src/Tests/Readiness.antt =====
-- The theorem about the life cycle, at a drain that overtakes the end of the bootstrap.
use dal_service.Prelude.{◌≡◌, refl, true, false}
use dal_service.Runtime.Readiness.{
  RuntimeLifecycle, marks_ready, begins_draining, exchanges_draining, returned, as_u8, from_u8,
  is_ready, transition, access, drain_from,
}
use dal_service.Runtime.Readiness.Monotone.{
  Process, starts_as, run, put_task, Steps, closes, closed_for_good,
}

abbrev start : Process
start = starts_as (as_u8 RuntimeLifecycle.starting)

-- Task 0 marks the process ready, and task 1 drains it.
abbrev called : Process
called = record start { task = put_task (put_task start.task 0 marks_ready) 1 begins_draining }

abbrev loaded : Process
loaded = run called 1

to_loaded : Steps start loaded
to_loaded = Steps.accesses called 1 (
    Steps.calls (record start { task = put_task start.task 0 marks_ready }) 1 begins_draining true
      (Steps.calls start 0 marks_ready true Steps.stays refl refl) refl refl)

drains_now : (access (loaded.task 1) loaded.byte).0 ≡ returned true
unfolding access from_u8 drain_from transition
drains_now = refl

exchanging : loaded.task 1 ≡ exchanges_draining RuntimeLifecycle.starting
unfolding access from_u8 drain_from transition
exchanging = refl

is_closing : closes (loaded.task 1) ≡ true
unfolding access from_u8 drain_from transition
is_closing = refl

-- After the drain, the bootstrap ends: its exchange fails, and it reads the byte.
abbrev afterwards : Process
afterwards = run (run (run loaded 1) 0) 0

closed_for_good_example : is_ready (from_u8 afterwards.byte) ≡ false
closed_for_good_example =
    closed_for_good 1 to_loaded is_closing drains_now
      (Steps.accesses (run (run loaded 1) 0) 0 (Steps.accesses (run loaded 1) 0 Steps.stays))
