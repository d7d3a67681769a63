-- ===== src/Tests/Failure.antt =====
-- The theorems about the heartbeat tracker, after heartbeats of two nodes.
use dal_service.Prelude.{ℕ, ◌≡◌, refl, false, inr, arith, some, List, [], ◌∷◌}
use dal_service.Prelude.Tables.{get, insert}
use dal_service.Types.Meta.{NodeState}
use dal_service.Meta.Failure.{Timeouts}
use dal_service.Meta.Failure.Tracker.{
  Stamp, HeartbeatTracker, Listed, new, observe, suspend_timeouts, evaluate,
}
use dal_service.Meta.Failure.Stamps.{Onward, Onward-observe, Reached, IsBounded, Reached-IsBounded}
use dal_service.Meta.Failure.Verdict.{verdicts, evaluate-verdicts}

abbrev beat : ℕ → ℕ → Stamp
beat process sequence = record { incarnation = 1; process = process; sequence = sequence }

abbrev heard : HeartbeatTracker
heard = (observe (observe new 1 (beat 1 5) 1000).1 2 (beat 1 1) 1500).1

abbrev listed : List Listed
listed =
    record { node = 1; state = NodeState.suspect; incarnation = 1 }
    ∷ record { node = 2; state = NodeState.active; incarnation = 1 }
    ∷ []

abbrev limits : Timeouts
limits = record {
  suspect = 3000000000;
  down = 15000000000;
  request = 5000000000;
  shutdown = 60000000000;
}

-- The process of node 1 restarts, a maintenance begins, and the directory is evaluated.
abbrev later : HeartbeatTracker
later =
    (evaluate (suspend_timeouts (observe heard 1 (beat 2 1) 2000).1 2500 listed) 30000 limits
      listed).1

heard_stamp : get 1 heard.last_stamp ≡ some (beat 1 5)
unfolding get insert observe
heard_stamp = refl

Onward-observe_example : observe later 1 (beat 1 5) 31000 ≡ (false, later)
Onward-observe_example =
    Onward-observe 1 heard later (beat 1 5) (beat 1 5) 31000 heard_stamp
      (Onward.evaluated (suspend_timeouts (observe heard 1 (beat 2 1) 2000).1 2500 listed) 30000
        limits listed refl
        (Onward.suspended (observe heard 1 (beat 2 1) 2000).1 2500 listed refl
          (Onward.observed heard 1 (beat 2 1) 2000 Onward.stays)))
      (inr (refl, inr (refl, omega arith)))

Reached-IsBounded_example : IsBounded (evaluate heard 4000 limits listed).1
Reached-IsBounded_example = Reached-IsBounded (
    Reached.evaluated heard 4000 limits listed (
      Reached.observed (observe new 1 (beat 1 5) 1000).1 2 (beat 1 1) 1500
        (Reached.observed new 1 (beat 1 5) 1000 Reached.fresh)))

evaluate-verdicts_example :
    (evaluate heard 3900 limits listed).0 ≡ verdicts heard 3900 limits listed
evaluate-verdicts_example = evaluate-verdicts heard 3900 limits listed (refl, (refl, tt))
