-- ===== src/Meta/Failure/Tracker.antt =====
-- The heartbeat tracker of src/meta/failure.rs. A `HashMap` is an association list, a `Duration` its
-- nanoseconds, and an instant its milliseconds.
use dal_service.Prelude.{
  ℕ, ◌-◌, ◌*◌, ◌/◌, ◌%◌, ◌^◌, Bool, true, false, not, ◌&&◌, ◌||◌, Option, none, some, List, [], ◌∷◌,
  ltb, leb, ◌==◌, nat_eq, length, any, if◌then◌else◌,
}
use dal_service.Prelude.Tables.{Table, get, insert, remove, retain}
use dal_service.Types.{NodeId, max_cluster_nodes}
use dal_service.Types.Meta.{NodeState}
use dal_service.Meta.Failure.{Liveness, Timeouts, classify, next_state}

-- The directory incarnation, the durable process incarnation and the sequence of a heartbeat.
pub record Stamp : Type 0 where
  pub incarnation : ℕ
  pub process : ℕ
  pub sequence : ℕ

pub record HeartbeatTracker : Type 0 where
  pub last_seen_ms : Table ℕ
  pub last_stamp : Table Stamp
  -- By node, a directory incarnation and the start of a grace period.
  pub unobserved_since_ms : Table (ℕ × ℕ)
  pub maintenance_grace_since_ms : Table (ℕ × ℕ)

-- A node, its committed state and its incarnation.
pub record Listed : Type 0 where
  pub node : NodeId
  pub state : NodeState
  pub incarnation : ℕ

abbrev pub max_tracked_nodes : ℕ
max_tracked_nodes = max_cluster_nodes

abbrev pub new : HeartbeatTracker
new = record {
  last_seen_ms = [];
  last_stamp = [];
  unobserved_since_ms = [];
  maintenance_grace_since_ms = [];
}

-- `Duration::from_millis` and `Duration::as_millis`.
abbrev pub from_millis : ℕ → ℕ
from_millis n = n * 1000000

abbrev pub as_millis : ℕ → ℕ
as_millis d = d / 1000000

abbrev pub is_known : List Listed → NodeId → Bool
is_known states n = any (λ e. e.node == n) states

unfoldable pub retain_known_nodes : HeartbeatTracker → List Listed → HeartbeatTracker
retain_known_nodes t states = record {
  last_seen_ms = retain (is_known states) t.last_seen_ms;
  last_stamp = retain (is_known states) t.last_stamp;
  unobserved_since_ms = retain (is_known states) t.unobserved_since_ms;
  maintenance_grace_since_ms = retain (is_known states) t.maintenance_grace_since_ms;
}

unfoldable pub grant : ℕ → List Listed → Table (ℕ × ℕ) → Table (ℕ × ℕ)
grant now_ms [] grace = grace
grant now_ms (e ∷ es) grace = grant now_ms es (insert e.node (e.incarnation, now_ms) grace)

unfoldable pub suspend_timeouts : HeartbeatTracker → ℕ → List Listed → HeartbeatTracker
suspend_timeouts t now_ms states =
    let kept = retain_known_nodes t states in
    record kept { maintenance_grace_since_ms = grant now_ms states kept.maintenance_grace_since_ms }

-- The stamp is not later than an earlier one.
abbrev pub is_stale : Stamp → Stamp → Bool
is_stale s previous =
    ltb s.incarnation previous.incarnation
    || (s.incarnation == previous.incarnation
        && (ltb s.process previous.process
            || (s.process == previous.process && leb s.sequence previous.sequence)))

abbrev pub refuses : HeartbeatTracker → Stamp → Option Stamp → Bool
refuses t s none = leb max_tracked_nodes (length t.last_stamp)
refuses t s (some previous) = is_stale s previous

-- A table of (incarnation, instant) has this incarnation for the node.
abbrev pub expects : ℕ → Option (ℕ × ℕ) → Bool
expects incarnation none = false
expects incarnation (some (expected, since)) = expected == incarnation

unfoldable pub observe : HeartbeatTracker → NodeId → Stamp → ℕ → Bool × HeartbeatTracker
observe t node s now_ms =
    let grace = t.maintenance_grace_since_ms in
    if refuses t s (get node t.last_stamp) then (false, t) else (
      true,
      record t {
        last_stamp = insert node s t.last_stamp;
        last_seen_ms = insert node now_ms t.last_seen_ms;
        maintenance_grace_since_ms =
            if expects s.incarnation (get node grace) then remove node grace else grace;
      },
    )

abbrev pub fresh_sequence : ℕ → ℕ → ℕ → ℕ → Stamp → ℕ → Option ℕ
fresh_sequence incarnation process_incarnation now_ms max_age s seen_ms =
    if s.incarnation == incarnation
      && s.process == process_incarnation
      && ltb 0 s.sequence
      && leb seen_ms now_ms
      && leb (now_ms - seen_ms) (as_millis max_age % 2 ^ 64)
    then some s.sequence
    else none

unfoldable pub fresh_process_sequence : HeartbeatTracker → NodeId → ℕ → ℕ → ℕ → ℕ → Option ℕ
fresh_process_sequence t node incarnation process_incarnation now_ms max_age =
    elim (get node t.last_stamp) [
      | none ↦ none
      | some s ↦ elim (get node t.last_seen_ms) [
        | none ↦ none
        | some seen_ms ↦ fresh_sequence incarnation process_incarnation now_ms max_age s seen_ms
      ]
    ]

abbrev pub stamped : ℕ → Option Stamp → Bool
stamped incarnation none = false
stamped incarnation (some s) = s.incarnation == incarnation

abbrev pub has_heartbeat : HeartbeatTracker → NodeId → ℕ → Bool
has_heartbeat t node incarnation = stamped incarnation (get node t.last_stamp)

-- `now_ms.saturating_sub(since)`, where there is an instant.
abbrev pub since : ℕ → Option ℕ → Option ℕ
since now_ms none = none
since now_ms (some seen) = some (now_ms - seen)

abbrev pub unobserved :
    HeartbeatTracker → NodeId → ℕ → ℕ → Option (ℕ × ℕ) → Option ℕ × HeartbeatTracker
unobserved t node incarnation now_ms none = (
  none,
  record t { unobserved_since_ms = insert node (incarnation, now_ms) t.unobserved_since_ms },
)
unobserved t node incarnation now_ms (some (expected, start)) =
    if expected == incarnation then (some (now_ms - start), t) else (
      none,
      record t { unobserved_since_ms = insert node (incarnation, now_ms) t.unobserved_since_ms },
    )

unfoldable pub silence_ms : HeartbeatTracker → NodeId → ℕ → ℕ → Option ℕ × HeartbeatTracker
silence_ms t node incarnation now_ms =
    if has_heartbeat t node incarnation
    then (
      since now_ms (get node t.last_seen_ms),
      record t { unobserved_since_ms = remove node t.unobserved_since_ms },
    )
    else unobserved t node incarnation now_ms (get node t.unobserved_since_ms)

abbrev pub is_alive : Liveness → Bool
is_alive Liveness.alive = true
is_alive _ = false

-- The change that the length of a silence justifies.
unfoldable pub justified : Timeouts → Bool → NodeState → Option ℕ → Option NodeState
justified timeouts heard current none = none
justified timeouts heard current (some silence) =
    let evidence = classify (from_millis silence) timeouts in
    if not heard && is_alive evidence then none else next_state current evidence

unfoldable pub judge :
    ℕ → Timeouts → HeartbeatTracker → Listed → Option NodeState × HeartbeatTracker
judge now_ms timeouts t e =
    let heard = has_heartbeat t e.node e.incarnation in
    let silence = silence_ms t e.node e.incarnation now_ms in
    (justified timeouts heard e.state silence.0, silence.1)

-- The end of a maintenance grace.
unfoldable pub leave_grace : HeartbeatTracker → Listed → ℕ → ℕ → HeartbeatTracker
leave_grace t e expected start =
    let left = record t {
      maintenance_grace_since_ms = remove e.node t.maintenance_grace_since_ms;
    } in
    if expected == e.incarnation && not (has_heartbeat left e.node e.incarnation)
    then record left {
      unobserved_since_ms = insert e.node (e.incarnation, start) left.unobserved_since_ms;
    }
    else left

-- The body of `evaluate`, at the node's maintenance grace.
unfoldable pub evaluate_at :
    ℕ → Timeouts → HeartbeatTracker → Listed → Option (ℕ × ℕ) → Option NodeState × HeartbeatTracker
evaluate_at now_ms timeouts t e none = judge now_ms timeouts t e
evaluate_at now_ms timeouts t e (some (expected, start)) =
    if expected == e.incarnation && ltb (now_ms - start) (as_millis timeouts.down)
    then (none, t)
    else judge now_ms timeouts (leave_grace t e expected start) e

abbrev pub prepend_change :
    NodeId → Option NodeState → List (NodeId × NodeState) → List (NodeId × NodeState)
prepend_change node none rest = rest
prepend_change node (some s) rest = (node, s) ∷ rest

unfoldable pub evaluate_each :
    ℕ → Timeouts → HeartbeatTracker → List Listed → List (NodeId × NodeState) × HeartbeatTracker
evaluate_each now_ms timeouts t [] = ([], t)
evaluate_each now_ms timeouts t (e ∷ es) =
    let step = evaluate_at now_ms timeouts t e (get e.node t.maintenance_grace_since_ms) in
    let rest = evaluate_each now_ms timeouts step.1 es in
    (prepend_change e.node step.0 rest.0, rest.1)

unfoldable pub evaluate :
    HeartbeatTracker → ℕ → Timeouts → List Listed → List (NodeId × NodeState) × HeartbeatTracker
evaluate t now_ms timeouts states =
    evaluate_each now_ms timeouts (retain_known_nodes t states) states
