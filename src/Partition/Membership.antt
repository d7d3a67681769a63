-- ===== src/Partition/Membership.antt =====
-- The membership calls of a data group's leader, src/partition/node.rs. openraft is a parameter: the
-- metrics that the source reads, its calls, and the passing of time between two polls.
use dal_service.Prelude.{
  ℕ, zero, suc, Bool, true, false, not, ◌||◌, Option, none, some, List, leb, contains, nat_eq,
  if◌then◌else◌,
}
use dal_service.Prelude.Sets.{collect_set}
use dal_service.Codec.{Result, ok, err, raft}
use dal_service.Types.{NodeId, LogId}

pub record Openraft : Type 1 where
  pub State : Type 0
  -- `metrics().membership_config`, whose voters are those of both configurations while a change is
  -- in flight.
  pub voter_ids : State → List NodeId
  pub learner_ids : State → List NodeId
  pub membership_log_id : State → Option LogId
  -- `metrics().replication`: on a leader, the index that a node is known to hold, if any.
  pub replication : State → Option (NodeId → Option ℕ)
  pub add_learner : NodeId → State → Result (Unit {0}) × State
  pub remove_nodes : NodeId → State → Result (Unit {0}) × State
  pub change_membership : List NodeId → State → Result (Unit {0}) × State
  -- `ensure_linearizable`, with the group's serving and recovery gates before and after it.
  pub ensure_linearizable : State → Result (Unit {0})
  pub sleep : State → State

module _ (R : Openraft) where
  unfoldable pub add_learner : NodeId → R.State → Result (Unit {0}) × R.State
  add_learner id s =
      if contains (R.learner_ids s) id || contains (R.voter_ids s) id
      then (ok tt, s)
      else R.add_learner id s

  -- Whether the index that the node holds is at the barrier.
  abbrev pub at_barrier : ℕ → Option ℕ → Bool
  at_barrier barrier none = false
  at_barrier barrier (some matched) = leb barrier matched

  unfoldable pub learner_caught_up : NodeId → R.State → Bool
  learner_caught_up id s = elim (R.membership_log_id s) [
    | none ↦ false
    | some barrier ↦ elim (R.replication s) [
      | none ↦ false
      | some replication ↦ at_barrier barrier.index (replication id)
    ]
  ]

  -- The polls until the deadline: there are as many as sleeps of 50 ms fit, and one more.
  unfoldable pub wait_learner_caught_up : ℕ → NodeId → R.State → Result (Unit {0}) × R.State
  wait_learner_caught_up zero id s = elim (learner_caught_up id s) [
    | true ↦ (ok tt, s)
    | false ↦ (err (raft "learner did not reach its admission barrier"), s)
  ]
  wait_learner_caught_up (suc polls) id s =
      let rest = wait_learner_caught_up polls id (R.sleep s) in
      elim (learner_caught_up id s) [ true ↦ (ok tt, s) | false ↦ rest ]

  unfoldable pub remove_learner : NodeId → R.State → Result (Unit {0}) × R.State
  remove_learner id s =
      if not (contains (R.learner_ids s) id)
      then if contains (R.voter_ids s) id
        then (err (raft "remove_learner: node is still a voter"), s)
        else (ok tt, s)
      else R.remove_nodes id s

  unfoldable pub change_voters : List NodeId → R.State → Result (Unit {0}) × R.State
  change_voters voters s = R.change_membership (collect_set voters) s

  abbrev pub committed_config : R.State → Option LogId × List NodeId
  committed_config s = (R.membership_log_id s, R.voter_ids s)

  unfoldable pub confirmed_committed_config : R.State → Result (Option LogId × List NodeId)
  confirmed_committed_config s = elim (R.ensure_linearizable s) [
    | err error ↦ err error
    | ok _ ↦ ok (committed_config s)
  ]

  abbrev pub committed_voter_set : R.State → List NodeId
  committed_voter_set s = collect_set (R.voter_ids s)
