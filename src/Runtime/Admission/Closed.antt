-- ===== src/Runtime/Admission/Closed.antt =====
-- Under a fence that is not released no client operation runs, and a fence does not go back.
use dal_service.Prelude.{
  ◌≤◌, ◌<◌, ◌≡◌, ◌⊎◌, refl, sym, ap, ◌∙◌, inr, true, false, Option, none, some, arith, nat_eq,
  list_eq, list_beq_iff,
}
use mathlib.Core.Path.{subst}
use dal_service.Codec.{Result}
use dal_service.Types.Meta.{MaintenanceRecord, stage_eq}
use dal_service.Runtime.Admission.{
  MaintenanceAdmission, same_fence, maintenance_stage_rank, validate_transition, admits, finished,
  drains, reconcile_begin, install, persisted,
}
use dal_service.Runtime.Admission.Steps.{Process, started, Step, Steps}

-- A fence is followed by one of a later generation, or by the same operation's at no earlier stage.
abbrev pub Supersedes : Option MaintenanceRecord → Option MaintenanceRecord → Type 0
Supersedes none next = Unit
Supersedes (some r) none = ⊥
Supersedes (some r) (some r') =
    (r.generation < r'.generation)
    ⊎ ((r.generation ≡ r'.generation)
        × (r.operation_id ≡ r'.operation_id)
        × (r.participants ≡ r'.participants)
        × (maintenance_stage_rank r.stage ≤ maintenance_stage_rank r'.stage))

Supersedes-refl : (a : Option MaintenanceRecord) → Supersedes a a
Supersedes-refl none = tt
Supersedes-refl (some r) = inr (refl, refl, refl, omega arith)

Supersedes-trans :
    (a b c : Option MaintenanceRecord) → Supersedes a b → Supersedes b c → Supersedes a c
Supersedes-trans none b c h k = tt
Supersedes-trans (some r) none c h k = absurd h
Supersedes-trans (some r) (some q) none h k = absurd k
Supersedes-trans (some r) (some q) (some p) h k = ground arith

validate_transition-Supersedes :
    (a b : Option MaintenanceRecord) → validate_transition a b ≡ none → Supersedes a b
unfolding validate_transition
validate_transition-Supersedes none b h = tt
validate_transition-Supersedes (some r) none h = absurd (ground arith)
validate_transition-Supersedes (some r) (some q) h =
    ground (arith, list_beq_iff q.participants r.participants)

-- A fence that drains is one that may be installed.
abbrev Drains : MaintenanceAdmission → Option MaintenanceRecord → Type 0
Drains gate view =
    (gate.is_open ≡ false)
    × (validate_transition gate.fence view ≡ none)
    × (same_fence gate.fence view ≡ false)

pub record IsGuarded (s : Process) : Type 0 where
  pub durable : s.gate.stored ≡ s.gate.fence
  pub closed : admits s.gate.fence ≡ false → (s.gate.is_open ≡ false) × (s.admitted ≡ 0)
  pub waiting : (view : Option MaintenanceRecord) → s.draining ≡ some view → Drains s.gate view

same_fence-admits : (a b : Option MaintenanceRecord) → same_fence a b ≡ true → admits b ≡ admits a
unfolding same_fence
same_fence-admits none none h = refl
same_fence-admits none (some q) h = absurd (ground arith)
same_fence-admits (some r) none h = absurd (ground arith)
same_fence-admits (some r) (some q) h = ground (arith, stage_eq.beq_iff r.stage q.stage)

-- Where `reconcile` returns at once, it leaves the records as they are, and a closed fence closed.
reconcile_begin-finished :
    (a : MaintenanceAdmission) (view : Option MaintenanceRecord) {r : Result (Unit {0})}
    {b : MaintenanceAdmission}
    → reconcile_begin a view ≡ finished r b
    → (b.stored ≡ a.stored)
      × (b.fence ≡ a.fence)
      × (admits a.fence ≡ false → a.is_open ≡ false → b.is_open ≡ false)
unfolding reconcile_begin
reconcile_begin-finished a view h = ground (arith, same_fence-admits a.fence view)

reconcile_begin-drains :
    (a : MaintenanceAdmission) (view : Option MaintenanceRecord) {b : MaintenanceAdmission}
    → reconcile_begin a view ≡ drains b
    → (b ≡ record a { is_open = false }) × Drains b view
unfolding reconcile_begin
reconcile_begin-drains a view h = ground arith

started-IsGuarded : (stored : Option MaintenanceRecord) → IsGuarded (started stored)
started-IsGuarded stored = record {
  durable = refl;
  closed = λ h. (refl, refl);
  waiting = λ view h. absurd (ground arith);
}

-- The steps of `reconcile`.
module _ (s : Process) (g : IsGuarded s) where
  return_at_once-IsGuarded :
      (view : Option MaintenanceRecord) (r : Result (Unit {0})) (gate : MaintenanceAdmission)
      → s.draining ≡ none
      → reconcile_begin s.gate view ≡ finished r gate
      → IsGuarded (record s { gate = gate })
  return_at_once-IsGuarded view r gate idle h =
      let (stored, fence, shut) = reconcile_begin-finished s.gate view h in
      record {
        durable = stored ∙ (g.durable ∙ sym fence);
        closed = λ k.
            let before : admits s.gate.fence ≡ false = sym (ap admits fence) ∙ k in
            let (was_shut, nobody) = g.closed before in (shut before was_shut, nobody);
        waiting = λ w k. absurd (ground arith);
      }

  drain-IsGuarded :
      (view : Option MaintenanceRecord) (gate : MaintenanceAdmission)
      → reconcile_begin s.gate view ≡ drains gate
      → IsGuarded (record s { gate = gate; draining = some view })
  drain-IsGuarded view gate h =
      let (same, ready) = reconcile_begin-drains s.gate view h in
      record {
        durable =
            ap (λ (a : MaintenanceAdmission). a.stored) same
            ∙ (g.durable ∙ sym (ap (λ (a : MaintenanceAdmission). a.fence) same));
        closed = λ k. (ready.0, (g.closed (ground arith)).1);
        waiting = λ w k. subst (Drains gate) (ground arith) ready;
      }

  persisted-installed :
      (view : Option MaintenanceRecord)
      → validate_transition s.gate.fence view ≡ none
      → same_fence s.gate.fence view ≡ false
      → persisted s.gate.stored view ≡ view
  unfolding validate_transition same_fence
  persisted-installed none h k = ground arith
  persisted-installed (some r) h k = refl

  installed-IsGuarded :
      (view : Option MaintenanceRecord)
      → s.draining ≡ some view
      → s.admitted ≡ 0
      → IsGuarded (record s { gate = install s.gate view; draining = none })
  unfolding install
  installed-IsGuarded view busy nobody =
      let (_, valid, other) = g.waiting view busy in
      record {
        durable = persisted-installed view valid other;
        closed = λ k. (k, nobody);
        waiting = λ w k. absurd (ground arith);
      }

  step-IsGuarded : {t : Process} → Step s t → IsGuarded t
  step-IsGuarded Step.ask = record { durable = g.durable; closed = g.closed; waiting = g.waiting }
  step-IsGuarded (Step.admit n at open_) = record {
    durable = g.durable;
    closed = λ k. absurd (ground (arith, g.closed k));
    waiting = g.waiting;
  }
  step-IsGuarded (Step.turn_away n at shut) = record {
    durable = g.durable;
    closed = g.closed;
    waiting = g.waiting;
  }
  step-IsGuarded (Step.complete n at) = record {
    durable = g.durable;
    closed = λ k. absurd (ground (arith, g.closed k));
    waiting = g.waiting;
  }
  step-IsGuarded (Step.return_at_once view r gate idle h) =
      return_at_once-IsGuarded view r gate idle h
  step-IsGuarded (Step.drain view gate idle h) = drain-IsGuarded view gate h
  step-IsGuarded (Step.installed view busy none_ask nobody) = installed-IsGuarded view busy nobody
  step-IsGuarded (Step.storage_fails view busy none_ask nobody) = record {
    durable = g.durable;
    closed = g.closed;
    waiting = λ w k. absurd (ground arith);
  }
  step-IsGuarded Step.restart = started-IsGuarded s.gate.stored

  -- A step keeps the durable fence, or replaces it by one that may follow it.
  step-Supersedes : {t : Process} → Step s t → Supersedes s.gate.stored t.gate.stored
  unfolding install
  step-Supersedes Step.ask = Supersedes-refl s.gate.stored
  step-Supersedes (Step.admit n at open_) = Supersedes-refl s.gate.stored
  step-Supersedes (Step.turn_away n at shut) = Supersedes-refl s.gate.stored
  step-Supersedes (Step.complete n at) = Supersedes-refl s.gate.stored
  step-Supersedes (Step.return_at_once view r gate idle h) =
      let (stored, _, _) = reconcile_begin-finished s.gate view h in
      subst (Supersedes s.gate.stored) (sym stored) (Supersedes-refl s.gate.stored)
  step-Supersedes (Step.drain view gate idle h) =
      let (same, _) = reconcile_begin-drains s.gate view h in
      subst (Supersedes s.gate.stored) (sym (ap (λ (a : MaintenanceAdmission). a.stored) same))
        (Supersedes-refl s.gate.stored)
  step-Supersedes (Step.installed view busy none_ask nobody) =
      let (_, valid, other) = g.waiting view busy in
      subst (Supersedes s.gate.stored) (sym (persisted-installed view valid other)) (
        subst (λ o. Supersedes o view) (sym g.durable)
          (validate_transition-Supersedes s.gate.fence view valid))
  step-Supersedes (Step.storage_fails view busy none_ask nobody) = Supersedes-refl s.gate.stored
  step-Supersedes Step.restart = Supersedes-refl s.gate.stored

Steps-IsGuarded : {s t : Process} → Steps s t → IsGuarded s → IsGuarded t
Steps-IsGuarded Steps.stays g = g
Steps-IsGuarded (Steps.then_ t u path step) g = step-IsGuarded t (Steps-IsGuarded path g) step

-- From the start of a process on any storage, in any interleaving of clients, of reconciliations
-- with any views, of storage failures and of restarts: while the fence that is installed is not
-- released, the gate is closed, no client operation is admitted, and the fence is the durable one.
pub Steps-closed :
    (stored : Option MaintenanceRecord) {t : Process}
    → Steps (started stored) t
    → admits t.gate.fence ≡ false
    → (t.gate.is_open ≡ false) × (t.admitted ≡ 0) × (t.gate.stored ≡ t.gate.fence)
Steps-closed stored path h =
    let g = Steps-IsGuarded path (started-IsGuarded stored) in
    let (shut, nobody) = g.closed h in (shut, nobody, g.durable)

Steps-Supersedes_from :
    {s t : Process} → IsGuarded s → Steps s t → Supersedes s.gate.stored t.gate.stored
Steps-Supersedes_from {s} g Steps.stays = Supersedes-refl s.gate.stored
Steps-Supersedes_from {s} g (Steps.then_ t u path step) =
    Supersedes-trans s.gate.stored t.gate.stored u.gate.stored (Steps-Supersedes_from g path)
      (step-Supersedes t (Steps-IsGuarded path g) step)

-- From any state that a process reaches on, in any interleaving: the durable fence is kept, or
-- followed by one of a later generation or of the same operation at no earlier stage.
pub Steps-Supersedes :
    (stored : Option MaintenanceRecord) {s t : Process}
    → Steps (started stored) s
    → Steps s t
    → Supersedes s.gate.stored t.gate.stored
Steps-Supersedes stored path more =
    Steps-Supersedes_from (Steps-IsGuarded path (started-IsGuarded stored)) more
