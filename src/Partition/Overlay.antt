-- ===== src/Partition/Overlay.antt =====
-- `StateOverlay` of src/partition/state_machine.rs: pending writes over the committed state. The
-- pending map is an association list without double keys, in place of a hash map.
pub mod Laws
use dal_service.Prelude.{
  ◌≡◌, Bool, false, Option, none, some, List, [], ◌∷◌, ◌==◌, nat_eq, list_eq, if◌then◌else◌,
}
use dal_service.Codec.{Bytes}
use dal_service.Storage.{StateMutation, StateCf}
use dal_service.Partition.StateMachine.{Reader}

abbrev pub Pending : Type 0
Pending = List (Bytes × Option Bytes)

pub record StateOverlay : Type 0 where
  pub storage : StateCf
  pub pending : Pending

unfoldable pub new : StateCf → StateOverlay
new storage = record { storage = storage; pending = [] }

-- `HashMap::insert`.
unfoldable pub insert : Bytes → Option Bytes → Pending → Pending
insert key v [] = (key, v) ∷ []
insert key v ((j, w) ∷ m) = if j == key then (key, v) ∷ m else (j, w) ∷ insert key v m

-- `HashMap::get`.
unfoldable pub lookup : Bytes → Pending → Option (Option Bytes)
lookup key [] = none
lookup key ((j, w) ∷ m) = if j == key then some w else lookup key m

unfoldable pub stage_one : Pending → StateMutation → Pending
stage_one pending (StateMutation.put key value) = insert key (some value) pending
stage_one pending (StateMutation.delete key) = insert key none pending

unfoldable pub stage_all : Pending → List StateMutation → Pending
stage_all pending [] = pending
stage_all pending (m ∷ ms) = stage_all (stage_one pending m) ms

unfoldable pub stage : StateOverlay → List StateMutation → StateOverlay
stage o mutations = record o { pending = stage_all o.pending mutations }

abbrev pub mutation_of : Bytes × Option Bytes → StateMutation
mutation_of (key, some value) = StateMutation.put key value
mutation_of (key, none) = StateMutation.delete key

-- One mutation for each touched key, in the order in which the map is walked.
unfoldable pub into_mutations : Pending → List StateMutation
into_mutations [] = []
into_mutations (e ∷ m) = mutation_of e ∷ into_mutations m

abbrev pub over : Option (Option Bytes) → Option Bytes → Option Bytes
over none stored = stored
over (some pending) stored = pending

-- A read through the overlay: the pending write of the key, or else the committed state.
unfoldable pub reader : StateOverlay → Reader
reader o key = over (lookup key o.pending) (o.storage key)
