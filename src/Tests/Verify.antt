-- ===== src/Tests/Verify.antt =====
-- The theorems about the linearizability checker, at two overlapping writes and a read.
use dal_service.Prelude.{ℕ, ◌≡◌, ◌↔◌, refl, true, arith, none, some, List, [], ◌∷◌}
use dal_service.Types.{IfVersion}
use dal_service.Partition.StateMachine.{presence}
use dal_service.Partition.Register.{passes, step}
use dal_service.Verify.Linearizability.{
  Invocation, Outcome, Op, apply, min_ret, first_some, attempt, search, linearize, is_linearizable,
}
use dal_service.Verify.Linearizability.Linear.{IsLinearization}
use dal_service.Verify.Linearizability.Decides.{linearize-IsLinearization, is_linearizable_iff}
use dal_service.Verify.Linearizability.Recorded.{
  Event, IsRun, record_all, record_all-is_linearizable,
}

-- The second write takes effect before the first, which is still running.
abbrev history : List Op
history =
    record { call = 0; ret = 5; inv = Invocation.put (8 ∷ []) none; out = Outcome.applied 2 }
    ∷ record { call = 1; ret = 3; inv = Invocation.put (7 ∷ []) none; out = Outcome.applied 1 }
    ∷ record { call = 4; ret = 6; inv = Invocation.read; out = Outcome.value (some (2, 8 ∷ [])) }
    ∷ []

history_order : linearize history ≡ some (1 ∷ 0 ∷ 2 ∷ [])
unfolding linearize search attempt first_some min_ret apply
history_order = refl

linearize-IsLinearization_example : IsLinearization history (1 ∷ 0 ∷ 2 ∷ [])
linearize-IsLinearization_example = linearize-IsLinearization history history_order

is_linearizable_iff_example :
    (is_linearizable history ≡ true) ↔ ((order : List ℕ) × IsLinearization history order)
is_linearizable_iff_example = is_linearizable_iff history

abbrev events : List Event
events =
    record { call = 0; instant = 2; ret = 3; request = Invocation.put (7 ∷ []) none; index = 1 }
    ∷ record {
      call = 1;
      instant = 3;
      ret = 9;
      request = Invocation.put (8 ∷ []) (some IfVersion.absent);
      index = 2;
    }
    ∷ record { call = 4; instant = 5; ret = 6; request = Invocation.read; index = 3 }
    ∷ []

events-IsRun : IsRun none 0 events
unfolding step passes presence
events-IsRun = (
  omega arith,
  omega arith,
  omega arith,
  omega arith,
  (
    omega arith,
    omega arith,
    omega arith,
    omega arith,
    (omega arith, omega arith, omega arith, omega arith, tt),
  ),
)

record_all-is_linearizable_example : is_linearizable (record_all none events) ≡ true
record_all-is_linearizable_example = record_all-is_linearizable events events-IsRun
