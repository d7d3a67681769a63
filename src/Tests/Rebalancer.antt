-- ===== src/Tests/Rebalancer.antt =====
-- The resumption of a move, at a data group of three replicas whose leader crashed in the middle of
-- the change of its membership.
use dal_service.Prelude.{ℕ, ◌+◌, some, List, [], ◌∷◌, keep, not, ◌==◌, nat_eq}
use dal_service.Codec.{ok}
use dal_service.Partition.Membership.{Openraft}
use dal_service.Rebalancer.{Turn, MetaGroup, World}
use dal_service.Tests.Fixtures.{hashing}
use dal_service.Tests.Config.{planned}

record Members : Type 0 where
  voters : List ℕ
  learners : List ℕ

-- A group whose calls take effect at once.
abbrev prompt : Openraft
prompt = record {
  State = Members;
  voter_ids = λ s. s.voters;
  learner_ids = λ s. s.learners;
  membership_log_id = λ s. some (record { term = 2; index = 30 });
  replication = λ s. some (λ id. some 31);
  add_learner = λ id s. (ok tt, record s { learners = id ∷ s.learners });
  remove_nodes = λ id s. (ok tt, record s { learners = keep (λ n. not (n == id)) s.learners });
  change_membership = λ vs s. (ok tt, record { voters = vs; learners = [] });
  ensure_linearizable = λ s. ok tt;
  sleep = λ s. s;
}

-- A meta leader that answers, and other clients that write nothing.
abbrev ready : MetaGroup
ready = record {
  turn = λ n. Turn.answers;
  others = λ n s. s;
  log_at = λ n. record { term = 3; index = n + 40 };
}

abbrev crashed : World hashing ready prompt
crashed = record {
  store = planned;
  attempt = 0;
  leader = record { voters = 1 ∷ 2 ∷ 3 ∷ 4 ∷ []; learners = [] };
}
