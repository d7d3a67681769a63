-- ===== src/Tests/Oracles.antt =====
-- The theorem about the oracle of exactly-once application, at a replay and at a clash.
use dal_service.Prelude.{◌≡◌, true, false, List, [], ◌∷◌}
use dal_service.Verify.Oracles.{Applied, exactly_once}
use dal_service.Verify.Oracles.Exact.{has_passed, all_agree, exactly_once-all_agree}

abbrev replayed : List Applied
replayed =
    record { client_id = 1; partition = 0; sequence = 1; digest = 170; fresh = true }
    ∷ record { client_id = 2; partition = 0; sequence = 1; digest = 7; fresh = true }
    ∷ record { client_id = 1; partition = 0; sequence = 1; digest = 170; fresh = false }
    ∷ []

exactly_once-all_agree_example : has_passed (exactly_once replayed) ≡ all_agree replayed
exactly_once-all_agree_example = exactly_once-all_agree replayed
