-- ===== src/Runtime/Admission/Confirmed.antt =====
-- The views that a meta group confirms do not conflict with the fences that it confirmed before.
use dal_service.Prelude.{
  ◌≡◌, ◌≢◌, refl, Option, none, some, arith, nat_eq, list_eq, list_beq_iff, String,
}
use dal_service.Types.Meta.{MaintenanceRecord}
use dal_service.Search.Definition.{Hashing}
use dal_service.Meta.Store.{MetaStore}
use dal_service.Meta.Invariant.Valid.{Valid}
use dal_service.Meta.Invariant.Later.{Continues}
use dal_service.Meta.Invariant.History.{Reaches, Reaches-Later}
use dal_service.Runtime.Admission.{conflict, validate_transition}

Continues-confirmed :
    (reason : String) (a b : Option MaintenanceRecord)
    → ((r : MaintenanceRecord) → a ≡ some r → Continues r b)
    → validate_transition a b ≢ some (conflict reason)
unfolding validate_transition
Continues-confirmed reason none b h k = ground arith
Continues-confirmed reason (some r) none h k = absurd (h r refl)
Continues-confirmed reason (some r) (some q) h k =
    let next : Continues r (some q) = h r refl in
    ground (
      arith,
      list_beq_iff q.participants r.participants,
      list_beq_iff r.participants r.participants,
    )

-- Where a fence is what a meta group in a well-formed state recorded, and the view is what it
-- records after any further commands: the fence and the view do not conflict, so that a node that
-- reconciles with confirmed views in their order is never closed by a conflict.
pub Reaches-validate_transition :
    (h : Hashing) (s : MetaStore) {t : MetaStore} (reason : String)
    → Valid s
    → Reaches h s t
    → validate_transition s.maintenance t.maintenance ≢ some (conflict reason)
Reaches-validate_transition h s {t} reason v path =
    let (_, later) = Reaches-Later h s path v in
    Continues-confirmed reason s.maintenance t.maintenance (λ r at. later.maintenance at)
