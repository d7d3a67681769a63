-- ===== src/Meta/Failure/Verdict.antt =====
-- The evaluation of a directory, against the change that each node's own entries justify.
use dal_service.Prelude.{
  ℕ, ◌-◌, ◌≡◌, refl, ap, ◌∙◌, Bool, true, false, not, ◌&&◌, Option, none, some, List, [], ◌∷◌,
  arith, ltb, leb, ◌*◌, ◌/◌, ◌==◌, nat_eq, if◌then◌else◌,
}
use dal_service.Prelude.Tables.{get, get-insert, get-retain}
use dal_service.Types.{NodeId}
use dal_service.Types.Meta.{NodeState}
use dal_service.Meta.Failure.{Timeouts, classify, next_state}
use dal_service.Meta.Failure.Tracker.{
  Stamp, HeartbeatTracker, Listed, is_known, retain_known_nodes, stamped, silence_ms, justified,
  judge, leave_grace, evaluate_at, evaluate_each, evaluate, prepend_change,
}

-- The entries of a node in the four tables.
pub record Entries : Type 0 where
  pub stamp : Option Stamp
  pub seen : Option ℕ
  pub unobserved_since : Option (ℕ × ℕ)
  pub grace : Option (ℕ × ℕ)

abbrev pub entries : HeartbeatTracker → NodeId → Entries
entries t n = record {
  stamp = get n t.last_stamp;
  seen = get n t.last_seen_ms;
  unobserved_since = get n t.unobserved_since_ms;
  grace = get n t.maintenance_grace_since_ms;
}

-- A heartbeat of the incarnation was accepted.
abbrev pub is_heard : ℕ → Option Stamp → Bool
is_heard incarnation none = false
is_heard incarnation (some stamp) = stamp.incarnation == incarnation

-- An entry is of the incarnation.
abbrev pub is_of : ℕ → Option (ℕ × ℕ) → Bool
is_of incarnation none = false
is_of incarnation (some entry) = entry.0 == incarnation

abbrev pub elapsed : ℕ → Option ℕ → Option ℕ
elapsed now_ms none = none
elapsed now_ms (some start) = some (now_ms - start)

abbrev instant : Option (ℕ × ℕ) → Option ℕ
instant none = none
instant (some (incarnation, start)) = some start

-- The instant that a silence counts from: that of the last heartbeat of the incarnation, or else of
-- the maintenance grace of the incarnation, or else of its first evaluation.
abbrev pub silent_from : Entries → ℕ → Option ℕ
silent_from v incarnation =
    if is_heard incarnation v.stamp
    then v.seen
    else if is_of incarnation v.grace
    then instant v.grace
    else if is_of incarnation v.unobserved_since
    then instant v.unobserved_since
    else none

-- A maintenance grace of the incarnation has not run out.
abbrev pub in_grace : ℕ → Timeouts → ℕ → Option (ℕ × ℕ) → Bool
in_grace now_ms timeouts incarnation none = false
in_grace now_ms timeouts incarnation (some (expected, start)) =
    expected == incarnation && ltb (now_ms - start) (timeouts.down / 1000000)

-- The change that a node which was heard or not is due, after a silence in milliseconds: a node that
-- serves is Down from the down timeout on, an Active one is Suspect from the suspect timeout on, and
-- a Suspect one that was heard within it is Active.
abbrev pub due : Timeouts → Bool → NodeState → ℕ → Option NodeState
due timeouts heard NodeState.active silence =
    if leb timeouts.down (silence * 1000000)
    then some NodeState.down
    else if leb timeouts.suspect (silence * 1000000)
    then some NodeState.suspect
    else none
due timeouts heard NodeState.suspect silence =
    if leb timeouts.down (silence * 1000000)
    then some NodeState.down
    else if heard && ltb (silence * 1000000) timeouts.suspect
    then some NodeState.active
    else none
due timeouts heard _ silence = none

abbrev pub due_after : Timeouts → Bool → NodeState → Option ℕ → Option NodeState
due_after timeouts heard current none = none
due_after timeouts heard current (some silence) = due timeouts heard current silence

justified-due_after :
    (timeouts : Timeouts) (heard : Bool) (current : NodeState) (silence : Option ℕ)
    → justified timeouts heard current silence ≡ due_after timeouts heard current silence
unfolding justified classify next_state
justified-due_after timeouts heard current none = refl
justified-due_after timeouts heard NodeState.active (some silence) = ground arith
justified-due_after timeouts heard NodeState.suspect (some silence) = ground arith
justified-due_after timeouts heard NodeState.down (some silence) = ground arith
justified-due_after timeouts heard NodeState.draining (some silence) = ground arith

unfoldable pub verdict : Entries → ℕ → Timeouts → NodeState → ℕ → Option NodeState
verdict v now_ms timeouts current incarnation =
    if in_grace now_ms timeouts incarnation v.grace
    then none
    else due_after timeouts (is_heard incarnation v.stamp) current
        (elapsed now_ms (silent_from v incarnation))

unfoldable pub verdicts : HeartbeatTracker → ℕ → Timeouts → List Listed → List (NodeId × NodeState)
verdicts t now_ms timeouts [] = []
verdicts t now_ms timeouts (e ∷ es) =
    prepend_change e.node (verdict (entries t e.node) now_ms timeouts e.state e.incarnation)
      (verdicts t now_ms timeouts es)

abbrev pub IsDistinct : List Listed → Type 0
IsDistinct [] = Unit
IsDistinct (e ∷ es) = (is_known es e.node ≡ false) × IsDistinct es

silence_ms_others :
    (t : HeartbeatTracker) (node : NodeId) (incarnation now_ms : ℕ) (n : NodeId)
    → (node == n) ≡ false
    → entries (silence_ms t node incarnation now_ms).1 n ≡ entries t n
unfolding silence_ms
silence_ms_others t node incarnation now_ms n h = ground (
  arith,
  get-insert n node (incarnation, now_ms) t.unobserved_since_ms,
  get-retain n (λ j. not (j == node)) t.unobserved_since_ms,
)

leave_grace_others :
    (t : HeartbeatTracker) (e : Listed) (expected start : ℕ) (n : NodeId)
    → (e.node == n) ≡ false
    → entries (leave_grace t e expected start) n ≡ entries t n
unfolding leave_grace
leave_grace_others t e expected start n h = ground (
  arith,
  get-insert n e.node (e.incarnation, start) t.unobserved_since_ms,
  get-retain n (λ j. not (j == e.node)) t.maintenance_grace_since_ms,
)

-- The evaluation of a node touches its own entries only.
evaluate_at_others :
    (now_ms : ℕ) (timeouts : Timeouts) (t : HeartbeatTracker) (e : Listed) (g : Option (ℕ × ℕ))
    (n : NodeId)
    → (e.node == n) ≡ false
    → entries (evaluate_at now_ms timeouts t e g).1 n ≡ entries t n
unfolding evaluate_at judge
evaluate_at_others now_ms timeouts t e none n h =
    silence_ms_others t e.node e.incarnation now_ms n h
evaluate_at_others now_ms timeouts t e (some (expected, start)) n h = ground (
  arith,
  leave_grace_others t e expected start n h,
  silence_ms_others (leave_grace t e expected start) e.node e.incarnation now_ms n h,
)

-- What a silence counts from, when no maintenance grace is left.
silence_ms-since :
    (t : HeartbeatTracker) (node : NodeId) (incarnation now_ms : ℕ)
    → (silence_ms t node incarnation now_ms).0
      ≡ elapsed now_ms (silent_from (record (entries t node) { grace = none }) incarnation)
unfolding silence_ms
silence_ms-since t node incarnation now_ms = ground arith

leave_grace-entries :
    (t : HeartbeatTracker) (e : Listed) (expected start : ℕ)
    → entries (leave_grace t e expected start) e.node ≡ record (entries t e.node) {
      grace = none;
      unobserved_since =
          if expected == e.incarnation && not (stamped e.incarnation (get e.node t.last_stamp))
          then some (e.incarnation, start)
          else get e.node t.unobserved_since_ms;
    }
unfolding leave_grace
leave_grace-entries t e expected start = ground (
  arith,
  get-insert e.node e.node (e.incarnation, start) t.unobserved_since_ms,
  get-retain e.node (λ j. not (j == e.node)) t.maintenance_grace_since_ms,
)

judge-verdict :
    (now_ms : ℕ) (timeouts : Timeouts) (t : HeartbeatTracker) (e : Listed)
    → (judge now_ms timeouts t e).0
      ≡ verdict (record (entries t e.node) { grace = none }) now_ms timeouts e.state e.incarnation
unfolding judge verdict
judge-verdict now_ms timeouts t e =
    let heard = stamped e.incarnation (get e.node t.last_stamp) in
    let silence = (silence_ms t e.node e.incarnation now_ms).0 in
    ground (
      arith,
      justified-due_after timeouts heard e.state silence,
      silence_ms-since t e.node e.incarnation now_ms,
    )

evaluate_at-verdict :
    (now_ms : ℕ) (timeouts : Timeouts) (t : HeartbeatTracker) (e : Listed) (g : Option (ℕ × ℕ))
    → get e.node t.maintenance_grace_since_ms ≡ g
    → (evaluate_at now_ms timeouts t e g).0
      ≡ verdict (entries t e.node) now_ms timeouts e.state e.incarnation
unfolding evaluate_at verdict
evaluate_at-verdict now_ms timeouts t e none h = ground (arith, judge-verdict now_ms timeouts t e)
evaluate_at-verdict now_ms timeouts t e (some (expected, start)) h = ground (
  arith,
  judge-verdict now_ms timeouts (leave_grace t e expected start) e,
  leave_grace-entries t e expected start,
)

SameAt : HeartbeatTracker → HeartbeatTracker → List Listed → Type 0
SameAt t u [] = Unit
SameAt t u (e ∷ es) = (entries t e.node ≡ entries u e.node) × SameAt t u es

verdicts-SameAt :
    (t u : HeartbeatTracker) (now_ms : ℕ) (timeouts : Timeouts) (es : List Listed)
    → SameAt t u es
    → verdicts t now_ms timeouts es ≡ verdicts u now_ms timeouts es
unfolding verdicts SameAt
verdicts-SameAt t u now_ms timeouts [] h = refl
verdicts-SameAt t u now_ms timeouts (e ∷ es) h =
    ap
      (λ v.
        prepend_change e.node (verdict v now_ms timeouts e.state e.incarnation)
          (verdicts t now_ms timeouts es))
      h.0
    ∙ ap (prepend_change e.node (verdict (entries u e.node) now_ms timeouts e.state e.incarnation))
        (verdicts-SameAt t u now_ms timeouts es h.1)

others-SameAt :
    (now_ms : ℕ) (timeouts : Timeouts) (t : HeartbeatTracker) (e : Listed) (g : Option (ℕ × ℕ))
    (es : List Listed)
    → is_known es e.node ≡ false
    → SameAt (evaluate_at now_ms timeouts t e g).1 t es
unfolding SameAt
others-SameAt now_ms timeouts t e g [] h = tt
others-SameAt now_ms timeouts t e g (f ∷ es) h = (
  evaluate_at_others now_ms timeouts t e g f.node (ground arith),
  others-SameAt now_ms timeouts t e g es (ground arith),
)

evaluate_each-verdicts :
    (now_ms : ℕ) (timeouts : Timeouts) (t : HeartbeatTracker) (es : List Listed)
    → IsDistinct es
    → (evaluate_each now_ms timeouts t es).0 ≡ verdicts t now_ms timeouts es
unfolding evaluate_each verdicts
evaluate_each-verdicts now_ms timeouts t [] h = refl
evaluate_each-verdicts now_ms timeouts t (e ∷ es) h =
    let g = get e.node t.maintenance_grace_since_ms in
    let u = (evaluate_at now_ms timeouts t e g).1 in
    ap (λ o. prepend_change e.node o (evaluate_each now_ms timeouts u es).0)
      (evaluate_at-verdict now_ms timeouts t e g refl)
    ∙ ap (prepend_change e.node (verdict (entries t e.node) now_ms timeouts e.state e.incarnation))
        (evaluate_each-verdicts now_ms timeouts u es h.1
          ∙ verdicts-SameAt u t now_ms timeouts es (others-SameAt now_ms timeouts t e g es h.0))

known-SameAt :
    (t : HeartbeatTracker) (states es : List Listed)
    → ((n : NodeId) → is_known es n ≡ true → is_known states n ≡ true)
    → SameAt (retain_known_nodes t states) t es
unfolding SameAt retain_known_nodes
known-SameAt t states [] sub = tt
known-SameAt t states (e ∷ es) sub =
    let known : is_known states e.node ≡ true = sub e.node (ground arith) in
    let p = is_known states in
    (
      ground (
        arith,
        get-retain e.node p t.last_stamp,
        get-retain e.node p t.last_seen_ms,
        get-retain e.node p t.unobserved_since_ms,
        get-retain e.node p t.maintenance_grace_since_ms,
      ),
      known-SameAt t states es (λ n h. sub n (ground arith)),
    )

-- For a directory with distinct nodes, `evaluate` returns the changes that each node's own entries
-- before the call justify, in the order of the directory, whatever the evaluation of the others
-- does to the tables: none while a maintenance grace of its incarnation lasts; otherwise what the
-- silence since its last heartbeat of the incarnation, or since the grace or the first evaluation
-- that stands in for one, makes due: Down from the down timeout on, Suspect from the suspect timeout
-- on, and Active again only where a heartbeat of the incarnation was heard.
pub evaluate-verdicts :
    (t : HeartbeatTracker) (now_ms : ℕ) (timeouts : Timeouts) (states : List Listed)
    → IsDistinct states
    → (evaluate t now_ms timeouts states).0 ≡ verdicts t now_ms timeouts states
unfolding evaluate
evaluate-verdicts t now_ms timeouts states h =
    evaluate_each-verdicts now_ms timeouts (retain_known_nodes t states) states h
    ∙ verdicts-SameAt (retain_known_nodes t states) t now_ms timeouts states
        (known-SameAt t states states (λ n k. k))
