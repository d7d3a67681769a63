-- ===== src/Verify/Oracles.antt =====
-- The oracles over a recorded run, src/verify/oracles.rs. The map of `exactly_once` is a function
-- from keys, and the final state a function from keys to versions. A failure is its message.
pub mod Exact
use dal_service.Prelude.{
  ℕ, Bool, true, false, not, ◌&&◌, ◌||◌, Option, none, some, List, [], ◌∷◌, String, leb, ◌==◌,
  nat_eq, list_eq, if◌then◌else◌,
}
use dal_service.Codec.{Bytes}
use dal_service.Types.{NodeId}

pub record Applied : Type 0 where
  pub client_id : ℕ
  pub partition : ℕ
  pub sequence : ℕ
  pub digest : ℕ
  pub fresh : Bool

-- `Result<(), String>`.
pub data Verdict : Type 0 where
  passes : Verdict
  fails : String → Verdict

-- `(client_id, partition, sequence)`.
abbrev pub same_key : Applied → Applied → Bool
same_key a b = a.client_id == b.client_id && a.partition == b.partition && a.sequence == b.sequence

-- The digest of a key, and whether a fresh decision of it was seen.
abbrev pub Seen : Type 0
Seen = Applied → Option (ℕ × Bool)

abbrev pub note : Seen → Applied → ℕ × Bool → Seen
note seen a entry = λ b. if same_key a b then some entry else seen b

unfoldable pub exactly_once_from : Seen → List Applied → Verdict
exactly_once_from seen [] = passes
exactly_once_from seen (a ∷ bs) = elim (seen a) [
  | none ↦ exactly_once_from (note seen a (a.digest, a.fresh)) bs
  | some (digest, fresh_seen) ↦
      if not (digest == a.digest)
      then fails "sequence applied for two different commands"
      else if fresh_seen && a.fresh
      then fails "sequence was reported as freshly decided more than once"
      else exactly_once_from (note seen a (digest, fresh_seen || a.fresh)) bs
]

unfoldable pub exactly_once : List Applied → Verdict
exactly_once applied = exactly_once_from (λ a. none) applied

-- A voter set is an increasing list.
pub record PartitionState : Type 0 where
  pub partition : ℕ
  pub meta_voters : List NodeId
  pub data_voters : List NodeId
  pub plan : Option Bool

abbrev pub is_live_plan : Option Bool → Bool
is_live_plan none = false
is_live_plan (some aborting) = not aborting

unfoldable pub converged : List PartitionState → Verdict
converged [] = passes
converged (s ∷ ss) =
    let rest = converged ss in
    if not (s.meta_voters == s.data_voters)
    then fails "partition diverged"
    else if is_live_plan s.plan
    then fails "partition left with a live non-aborting plan"
    else rest

abbrev pub keeps : Option ℕ → ℕ → Verdict → Verdict
keeps none acked_version rest = fails "key acked but absent at end"
keeps (some final_version) acked_version rest =
    if leb acked_version final_version then rest else fails "key regressed"

unfoldable pub no_lost_write : List (Bytes × ℕ) → (Bytes → Option ℕ) → Verdict
no_lost_write [] final_state = passes
no_lost_write ((key, acked_version) ∷ acked) final_state =
    keeps (final_state key) acked_version (no_lost_write acked final_state)
