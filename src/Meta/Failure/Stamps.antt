-- ===== src/Meta/Failure/Stamps.antt =====
-- The heartbeat stamps that the tracker holds: how many, and that they do not go back.
use dal_service.Prelude.{
  ℕ, ◌≤◌, ◌<◌, ◌≡◌, ◌⊎◌, refl, sym, ap, ◌∙◌, inl, inr, Bool, true, false, Option, none, some, List,
  [], ◌∷◌, arith, ◌==◌, nat_eq, ==_eq, length, Bool-cases, Option-cases,
}
use dal_service.Prelude.Tables.{
  Table, get, insert, retain, keys_of, get-insert, get-retain, length-retain, length-insert_le,
  length-insert_old,
}
use dal_service.Types.{NodeId}
use dal_service.Meta.Failure.{Timeouts}
use dal_service.Meta.Failure.Tracker.{
  Stamp, HeartbeatTracker, Listed, max_tracked_nodes, new, is_known, retain_known_nodes,
  suspend_timeouts, is_stale, refuses, observe, silence_ms, judge, leave_grace, evaluate_at,
  evaluate_each, evaluate,
}

-- An evaluation of the listed nodes leaves the heartbeats as they are.
abbrev pub SameHeartbeats : HeartbeatTracker → HeartbeatTracker → Type 0
SameHeartbeats t u = (u.last_stamp ≡ t.last_stamp) × (u.last_seen_ms ≡ t.last_seen_ms)

evaluate_at-heartbeats :
    (now_ms : ℕ) (timeouts : Timeouts) (t : HeartbeatTracker) (e : Listed) (g : Option (ℕ × ℕ))
    → SameHeartbeats t (evaluate_at now_ms timeouts t e g).1
unfolding evaluate_at judge silence_ms leave_grace
evaluate_at-heartbeats now_ms timeouts t e none = ground arith
evaluate_at-heartbeats now_ms timeouts t e (some (expected, start)) = ground arith

evaluate_each-heartbeats :
    (now_ms : ℕ) (timeouts : Timeouts) (t : HeartbeatTracker) (es : List Listed)
    → SameHeartbeats t (evaluate_each now_ms timeouts t es).1
unfolding evaluate_each
evaluate_each-heartbeats now_ms timeouts t [] = (refl, refl)
evaluate_each-heartbeats now_ms timeouts t (e ∷ es) =
    let g = get e.node t.maintenance_grace_since_ms in
    let (stamp, seen) = evaluate_at-heartbeats now_ms timeouts t e g in
    let (stamps, all_seen) =
      evaluate_each-heartbeats now_ms timeouts (evaluate_at now_ms timeouts t e g).1 es in
    (stamps ∙ stamp, all_seen ∙ seen)

-- The stamps after an evaluation, and after a suspension of the timeouts.
evaluate_stamps :
    (t : HeartbeatTracker) (now_ms : ℕ) (timeouts : Timeouts) (states : List Listed)
    → ((evaluate t now_ms timeouts states).1.last_stamp ≡ retain (is_known states) t.last_stamp)
      × ((evaluate t now_ms timeouts states).1.last_seen_ms
          ≡ retain (is_known states) t.last_seen_ms)
unfolding evaluate retain_known_nodes
evaluate_stamps t now_ms timeouts states = evaluate_each-heartbeats now_ms timeouts _ states

-- The first stamp is not later than the second.
abbrev pub NotLater : Stamp → Stamp → Type 0
NotLater s r =
    (s.incarnation < r.incarnation)
    ⊎ ((s.incarnation ≡ r.incarnation)
        × ((s.process < r.process) ⊎ ((s.process ≡ r.process) × (s.sequence ≤ r.sequence))))

-- What a tracker does, in any order: the events of a history in which a node stays listed.
pub data Onward (n : NodeId) (t : HeartbeatTracker) : HeartbeatTracker → Type 0 where
  stays : Onward n t t
  observed :
      (u : HeartbeatTracker) (node : NodeId) (s : Stamp) (now_ms : ℕ)
      → Onward n t u
      → Onward n t (observe u node s now_ms).1
  evaluated :
      (u : HeartbeatTracker) (now_ms : ℕ) (timeouts : Timeouts) (states : List Listed)
      → is_known states n ≡ true
      → Onward n t u
      → Onward n t (evaluate u now_ms timeouts states).1
  suspended :
      (u : HeartbeatTracker) (now_ms : ℕ) (states : List Listed)
      → is_known states n ≡ true
      → Onward n t u
      → Onward n t (suspend_timeouts u now_ms states)

-- The node's stamp, at an earlier stamp or a later one.
abbrev pub HasLater : NodeId → Stamp → HeartbeatTracker → Type 0
HasLater n s t = (r : Stamp) × (get n t.last_stamp ≡ some r) × NotLater s r

is_stale-NotLater : (s r : Stamp) → is_stale r s ≡ false → NotLater s r
is_stale-NotLater s r h = ground arith

NotLater-trans : (s r q : Stamp) → NotLater s r → NotLater r q → NotLater s q
NotLater-trans s r q a b = ground arith

observe-HasLater :
    (t : HeartbeatTracker) (n node : NodeId) (s q : Stamp) (now_ms : ℕ)
    → HasLater n s t
    → HasLater n s (observe t node q now_ms).1
unfolding observe
observe-HasLater t n node s q now_ms (r, held, later) =
    elim (Bool-cases (refuses t q (get node t.last_stamp))) [
      | inl refused ↦ rw (refused) (r, held, later)
      | inr taken ↦ elim (Bool-cases (node == n)) [
        | inl here ↦
            let fresh : is_stale q r ≡ false = ground (arith, ==_eq node n here) in
            rw (taken) (
              q,
              ground (arith, get-insert n node q t.last_stamp),
              NotLater-trans s r q later (is_stale-NotLater r q fresh),
            )
        | inr away ↦ rw (taken) (r, ground (arith, get-insert n node q t.last_stamp), later)
      ]
    ]

-- The stamp of a node that stays listed is kept, or a later one takes its place.
Onward-HasLater :
    (n : NodeId) (t u : HeartbeatTracker) (s : Stamp)
    → get n t.last_stamp ≡ some s
    → Onward n t u
    → HasLater n s u
unfolding suspend_timeouts retain_known_nodes
Onward-HasLater n t _ s held Onward.stays = (s, held, ground arith)
Onward-HasLater n t _ s held (Onward.observed u node q now_ms path) =
    observe-HasLater u n node s q now_ms (Onward-HasLater n t u s held path)
Onward-HasLater n t _ s held (Onward.evaluated u now_ms timeouts states known path) =
    let (r, at, later) = Onward-HasLater n t u s held path in
    let (stamps, _) = evaluate_stamps u now_ms timeouts states in
    (r, ap (get n) stamps ∙ (get-retain n (is_known states) u.last_stamp ∙ ground arith), later)
Onward-HasLater n t _ s held (Onward.suspended u now_ms states known path) =
    let (r, at, later) = Onward-HasLater n t u s held path in
    (r, get-retain n (is_known states) u.last_stamp ∙ ground arith, later)

-- Whatever the tracker observes, evaluates and suspends while a node stays in the directory that it
-- is given: a heartbeat whose stamp is not later than one that the tracker held is refused, and
-- changes nothing.
pub Onward-observe :
    (n : NodeId) (t u : HeartbeatTracker) (s q : Stamp) (now_ms : ℕ)
    → get n t.last_stamp ≡ some s
    → Onward n t u
    → NotLater q s
    → observe u n q now_ms ≡ (false, u)
unfolding observe
Onward-observe n t u s q now_ms held path old =
    let (r, at, later) = Onward-HasLater n t u s held path in
    let stale : is_stale q r ≡ true = ground (arith, NotLater-trans q s r old later) in ground arith

-- What a tracker may be: the states that its operations reach from the new one.
pub data Reached : HeartbeatTracker → Type 0 where
  fresh : Reached new
  observed :
      (t : HeartbeatTracker) (node : NodeId) (s : Stamp) (now_ms : ℕ)
      → Reached t
      → Reached (observe t node s now_ms).1
  evaluated :
      (t : HeartbeatTracker) (now_ms : ℕ) (timeouts : Timeouts) (states : List Listed)
      → Reached t
      → Reached (evaluate t now_ms timeouts states).1
  suspended :
      (t : HeartbeatTracker) (now_ms : ℕ) (states : List Listed)
      → Reached t
      → Reached (suspend_timeouts t now_ms states)

-- The two tables of heartbeats are about the same nodes, and those are few.
abbrev pub IsBounded : HeartbeatTracker → Type 0
IsBounded t =
    (length t.last_stamp ≤ max_tracked_nodes) × (keys_of t.last_seen_ms ≡ keys_of t.last_stamp)

keys_of-insert :
    {V W : Type 0} (k : ℕ) (v : V) (w : W) (t : Table V) (u : Table W)
    → keys_of t ≡ keys_of u
    → keys_of (insert k v t) ≡ keys_of (insert k w u)
unfolding insert
keys_of-insert k v w [] [] h = refl
keys_of-insert k v w [] (e ∷ u) h = absurd (ground arith)
keys_of-insert k v w (e ∷ t) [] h = absurd (ground arith)
keys_of-insert k v w ((i, x) ∷ t) ((j, y) ∷ u) h = ground (arith, keys_of-insert k v w t u)

keys_of-retain :
    {V W : Type 0} (p : ℕ → Bool) (t : Table V) (u : Table W)
    → keys_of t ≡ keys_of u
    → keys_of (retain p t) ≡ keys_of (retain p u)
unfolding retain
keys_of-retain p [] [] h = refl
keys_of-retain p [] (e ∷ u) h = absurd (ground arith)
keys_of-retain p (e ∷ t) [] h = absurd (ground arith)
keys_of-retain p ((i, x) ∷ t) ((j, y) ∷ u) h = ground (arith, keys_of-retain p t u)

observe-IsBounded :
    (t : HeartbeatTracker) (node : NodeId) (s : Stamp) (now_ms : ℕ)
    → IsBounded t
    → IsBounded (observe t node s now_ms).1
unfolding observe
observe-IsBounded t node s now_ms (few, same) =
    let keys = keys_of-insert node now_ms s t.last_seen_ms t.last_stamp same in
    elim (Option-cases (get node t.last_stamp)) [
      | inl unknown ↦ ground (arith, keys, length-insert_le node s t.last_stamp)
      | inr (r, known) ↦ ground (arith, keys, length-insert_old node s r t.last_stamp known)
    ]

-- In every state that the tracker reaches from a new one, by any heartbeats from any senders, it
-- holds the stamps of at most eight nodes, and the instants of the same nodes.
pub Reached-IsBounded : {t : HeartbeatTracker} → Reached t → IsBounded t
unfolding suspend_timeouts retain_known_nodes
Reached-IsBounded Reached.fresh = (omega arith, refl)
Reached-IsBounded (Reached.observed t node s now_ms path) =
    observe-IsBounded t node s now_ms (Reached-IsBounded path)
Reached-IsBounded (Reached.evaluated t now_ms timeouts states path) =
    let (few, same) = Reached-IsBounded path in
    let (stamps, seen) = evaluate_stamps t now_ms timeouts states in
    (
      ground (arith, length-retain (is_known states) t.last_stamp),
      ap keys_of seen
          ∙ (keys_of-retain (is_known states) t.last_seen_ms t.last_stamp same
              ∙ sym (ap keys_of stamps)),
    )
Reached-IsBounded (Reached.suspended t now_ms states path) =
    let (few, same) = Reached-IsBounded path in
    (
      ground (arith, length-retain (is_known states) t.last_stamp),
      keys_of-retain (is_known states) t.last_seen_ms t.last_stamp same,
    )
