-- ===== src/Rebalancer/Healthy.antt =====
-- What the drivers of src/meta/rebalancer.rs meet in a healthy cluster: a meta leader that answers,
-- other clients that leave the group's placement alone, and a data leader whose calls succeed.
use dal_service.Prelude.{
  ℕ, zero, suc, ◌+◌, ◌≡◌, ◌⊎◌, refl, ap, ◌∙◌, inl, inr, true, false, Option, some, List, [], ◌∷◌,
  String, arith, contains, list_eq, nat_eq, ==_refl,
}
use dal_service.Codec.{ok}
use dal_service.Types.{NodeId, GroupId, LogId, group_eq}
use dal_service.Types.Meta.{MetaCommand, Placement, voter_set}
use dal_service.Search.Definition.{Hashing}
use dal_service.Meta.Store.{MetaStore, applied, put_placement, apply_state, write_all, write}
use dal_service.Meta.Evaluate.{in_maintenance, dispatch, evaluate, apply}
use dal_service.Partition.Membership.{Openraft, learner_caught_up, confirmed_committed_config}
use dal_service.Rebalancer.{
  Turn, MetaGroup, max_attempts, catchup_polls, World, Driver, continue, arrive, ask,
  read_placement, commit, propose, confirmed_voters,
}

-- One of the next attempts, as many as are made, finds a leader that answers, and none faults.
unfoldable pub Answers : MetaGroup → ℕ → ℕ → Type 0
Answers M zero n = ⊥
Answers M (suc f) n =
    (M.turn n ≡ Turn.answers) ⊎ ((M.turn n ≡ Turn.no_leader) × Answers M f (n + 1))

-- A learner is seen to be caught up in one of the next polls.
unfoldable pub CatchesUp : (R : Openraft) → ℕ → NodeId → R.State → Type 0
CatchesUp R zero id s = learner_caught_up R id s ≡ true
CatchesUp R (suc f) id s = (learner_caught_up R id s ≡ true) ⊎ CatchesUp R f id (R.sleep s)

-- The meta group, as the drivers of one group's moves meet it.
pub record IsAnswering (M : MetaGroup) (group : GroupId) : Type 0 where
  pub answering : (n : ℕ) → Answers M max_attempts n
  pub undisturbed : (n : ℕ) (s : MetaStore) → (M.others n s).placement group ≡ s.placement group
  pub calm :
      (n : ℕ) (s : MetaStore)
      → in_maintenance s.maintenance ≡ false
      → in_maintenance (M.others n s).maintenance ≡ false

-- openraft on the leader of a healthy group: the leader is confirmed, a change of the membership is
-- committed, an admitted learner catches up, and time changes no membership.
pub record IsServing (R : Openraft) : Type 0 where
  pub confirmed : (s : R.State) → R.ensure_linearizable s ≡ ok tt
  pub stored : (s : R.State) → (l : LogId) × (R.membership_log_id s ≡ some l)
  pub change : (vs : List NodeId) (s : R.State) → (R.change_membership vs s).0 ≡ ok tt
  pub change_voters :
      (vs : List NodeId) (s : R.State) → R.voter_ids (R.change_membership vs s).1 ≡ vs
  pub add : (id : NodeId) (s : R.State) → (R.add_learner id s).0 ≡ ok tt
  pub add_voters : (id : NodeId) (s : R.State) → R.voter_ids (R.add_learner id s).1 ≡ R.voter_ids s
  pub add_learners :
      (id : NodeId) (s : R.State) → contains (R.learner_ids (R.add_learner id s).1) id ≡ true
  pub remove :
      (id : NodeId) (s : R.State)
      → contains (R.voter_ids s) id ≡ false
      → (R.remove_nodes id s).0 ≡ ok tt
  pub remove_voters :
      (id : NodeId) (s : R.State)
      → contains (R.voter_ids s) id ≡ false
      → R.voter_ids (R.remove_nodes id s).1 ≡ R.voter_ids s
  pub catch_up :
      (id : NodeId) (s : R.State)
      → contains (R.learner_ids s) id ≡ true
      → CatchesUp R catchup_polls id s
  pub sleep_voters : (s : R.State) → R.voter_ids (R.sleep s) ≡ R.voter_ids s

-- A driver that begins with a call goes on from the call's result.
pub bind_ok :
    (h : Hashing) (M : MetaGroup) (R : Openraft) {A B : Type 0} (call : Driver h M R A)
    (f : A → Driver h M R B) {w w' : World h M R} {a : A}
    → call w ≡ (ok a, w')
    → continue h M R (call w) f ≡ f a w'
bind_ok h M R call f done = ap (λ r. continue h M R r f) done

module _ (h : Hashing) (M : MetaGroup) (R : Openraft) (group : GroupId) where
  -- The group's placement, the committed voters, and no maintenance.
  pub record At (p : Option Placement) (vs : List NodeId) (w : World h M R) : Type 0 where
    pub placed : w.store.placement group ≡ p
    pub voters : R.voter_ids w.leader ≡ vs
    pub calm : in_maintenance w.store.maintenance ≡ false

  -- The state after the group's placement is put.
  abbrev put : World h M R → Placement → LogId → World h M R
  put w q l = record w { store = apply_state w.store (put_placement group q ∷ []) l }

  put-At :
      {p : Option Placement} {vs : List NodeId} (w : World h M R) (q : Placement) (l : LogId)
      → At p vs w
      → At (some q) vs (put w q l)
  unfolding apply_state write_all write
  put-At w q l a = record {
    placed = ground (arith, ==_refl group);
    voters = a.voters;
    calm = a.calm;
  }

  apply-put :
      (cmd : MetaCommand) (q : Placement) (s : MetaStore) (l : LogId)
      → in_maintenance s.maintenance ≡ false
      → dispatch h s cmd l ≡ ok (applied, put_placement group q ∷ [])
      → apply h s cmd l ≡ ok (applied, apply_state s (put_placement group q ∷ []) l)
  unfolding apply evaluate
  apply-put cmd q s l calm done = ground arith

  commit-put :
      (cmd : MetaCommand) (q : Placement) (k : ℕ) (w : World h M R)
      → apply h w.store cmd (M.log_at k)
        ≡ ok (applied, apply_state w.store (put_placement group q ∷ []) (M.log_at k))
      → commit h M R cmd k w ≡ (ok applied, put w q (M.log_at k))
  unfolding commit
  commit-put cmd q k w done = rw (done, commit) refl

module _ (h : Hashing) (M : MetaGroup) (R : Openraft) (group : GroupId)
    (meets : IsAnswering M group) (serves : IsServing R) {p : Option Placement}
    {vs : List NodeId} where
  arrive-At : (w : World h M R) → At h M R group p vs w → At h M R group p vs (arrive h M R w)
  arrive-At w a = record {
    placed = meets.undisturbed w.attempt w.store ∙ a.placed;
    voters = a.voters;
    calm = meets.calm w.attempt w.store a.calm;
  }

  -- The request is made once, in a state where the group stands as before.
  ask-At :
      {A : Type 0} (n : ℕ) (message : String) (request : ℕ → Driver h M R A) (w : World h M R)
      → Answers M n w.attempt
      → At h M R group p vs w
      → (k : ℕ) × (w' : World h M R) × (ask h M R n message request w ≡ request k w')
        × At h M R group p vs w'
  unfolding ask Answers
  ask-At zero message request w found a = absurd found
  ask-At (suc n) message request w (inl found) a =
      (w.attempt, arrive h M R w, rw (found, ask) refl, arrive-At w a)
  ask-At (suc n) message request w (inr (none_yet, later)) a =
      let u = arrive-At w a in
      let (k, w', same, at) =
        ask-At n message request (record (arrive h M R w) { leader = R.sleep w.leader }) later
          (record {
            placed = u.placed;
            voters = serves.sleep_voters w.leader ∙ a.voters;
            calm = u.calm;
          }) in
      (k, w', rw (none_yet, ask) same, at)

  pub read_placement-At :
      (w : World h M R)
      → At h M R group p vs w
      → (w' : World h M R) × (read_placement h M R group w ≡ (ok p, w')) × At h M R group p vs w'
  unfolding read_placement
  read_placement-At w a =
      let (k, w', same, at) =
        ask-At max_attempts "no meta leader for placement read" _ w (meets.answering w.attempt) a in
      (w', same ∙ ap (λ q. (ok q, w')) at.placed, at)

  -- A command that puts the group's placement is applied.
  pub propose-At :
      (cmd : MetaCommand) (q : Placement)
      → ((s : MetaStore) (l : LogId)
          → s.placement group ≡ p
          → dispatch h s cmd l ≡ ok (applied, put_placement group q ∷ []))
      → (w : World h M R) → At h M R group p vs w
      → (w' : World h M R) × (propose h M R cmd w ≡ (ok applied, w'))
        × At h M R group (some q) vs w'
  unfolding propose
  propose-At cmd q puts w a =
      let (k, w', same, at) =
        ask-At max_attempts "no meta leader accepted the command" (commit h M R cmd) w
          (meets.answering w.attempt) a in
      let l = M.log_at k in
      let done = apply-put h M R group cmd q w'.store l at.calm (puts w'.store l at.placed) in
      (
        put h M R group w' q l,
        same ∙ commit-put h M R group cmd q k w' done,
        put-At h M R group w' q l at,
      )

  pub confirmed_voters-At :
      (w : World h M R)
      → At h M R group p vs w
      → (l : LogId) × (confirmed_voters h M R w ≡ (ok (some l, voter_set vs), w))
  unfolding confirmed_voters confirmed_committed_config
  confirmed_voters-At w a =
      let (l, stored) = serves.stored w.leader in
      (l, ground (arith, serves.confirmed w.leader, stored, a.voters))
