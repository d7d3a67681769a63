-- ===== src/Partition/Overlay/Laws.antt =====
-- Reading through the overlay is reading the state with the staged mutations written, and writing
-- the collapsed mutations gives that state.
use dal_service.Prelude.{
  ◌≡◌, refl, ◌∙◌, ap, Option, none, some, List, [], ◌∷◌, arith, ◌==◌, nat_eq, list_eq, list_beq_iff,
  if◌then◌else◌,
}
use mathlib.Core.Path.{fun_ext}
use dal_service.Codec.{Bytes}
use dal_service.Storage.{StateMutation, StateCf, write, write_all}
use dal_service.Partition.Overlay.{
  Pending, StateOverlay, insert, lookup, stage_one, stage_all, stage, into_mutations, over, reader,
}

-- No key stands twice.
abbrev pub Fresh : Bytes → Pending → Type 0
Fresh key m = lookup key m ≡ none

abbrev pub Distinct : Pending → Type 0
Distinct [] = Unit
Distinct (e ∷ m) = Fresh e.0 m × Distinct m

pub lookup-insert :
    (key : Bytes) (v : Option Bytes) (m : Pending) (j : Bytes)
    → lookup j (insert key v m) ≡ (if key == j then some v else lookup j m)
unfolding lookup insert
lookup-insert key v [] j = refl
lookup-insert key v ((i, w) ∷ m) j =
    ground
      (arith, list_beq_iff key j, list_beq_iff i key, list_beq_iff i j, lookup-insert key v m j)

insert-Distinct :
    (key : Bytes) (v : Option Bytes) (m : Pending) → Distinct m → Distinct (insert key v m)
unfolding lookup insert
insert-Distinct key v [] h = (refl, tt)
insert-Distinct key v ((i, w) ∷ m) h = ground (
  arith,
  list_beq_iff i key,
  list_beq_iff key i,
  lookup-insert key v m i,
  insert-Distinct key v m h.1,
)

stage_all-Distinct :
    (m : Pending) (ms : List StateMutation) → Distinct m → Distinct (stage_all m ms)
unfolding stage_all stage_one
stage_all-Distinct m [] h = h
stage_all-Distinct m (StateMutation.put k v ∷ ms) h =
    stage_all-Distinct (insert k (some v) m) ms (insert-Distinct k (some v) m h)
stage_all-Distinct m (StateMutation.delete k ∷ ms) h =
    stage_all-Distinct (insert k none m) ms (insert-Distinct k none m h)

pub stage-Distinct :
    (o : StateOverlay) (ms : List StateMutation)
    → Distinct o.pending
    → Distinct (stage o ms).pending
unfolding stage
stage-Distinct o ms h = stage_all-Distinct o.pending ms h

reader-stage_one :
    (cf : StateCf) (p : Pending) (m : StateMutation) (j : Bytes)
    → over (lookup j (stage_one p m)) (cf j) ≡ write (λ k. over (lookup k p) (cf k)) m j
unfolding stage_one write
reader-stage_one cf p (StateMutation.put k v) j = ground (arith, lookup-insert k (some v) p j)
reader-stage_one cf p (StateMutation.delete k) j = ground (arith, lookup-insert k none p j)

reader-stage_all :
    (cf : StateCf) (p : Pending) (ms : List StateMutation)
    → (λ (j : Bytes). over (lookup j (stage_all p ms)) (cf j))
      ≡ write_all (λ j. over (lookup j p) (cf j)) ms
unfolding stage_all write_all
reader-stage_all cf p [] = refl
reader-stage_all cf p (m ∷ ms) =
    reader-stage_all cf (stage_one p m) ms
    ∙ ap (λ (f : StateCf). write_all f ms) (fun_ext (reader-stage_one cf p m))

-- A staged mutation is seen by the reads that follow as if it had been written.
pub reader-stage :
    (o : StateOverlay) (ms : List StateMutation) → reader (stage o ms) ≡ write_all (reader o) ms
unfolding reader stage
reader-stage o ms = reader-stage_all o.storage o.pending ms

write-cong : (f g : StateCf) (m : StateMutation) (j : Bytes) → f j ≡ g j → write f m j ≡ write g m j
unfolding write
write-cong f g (StateMutation.put k v) j e = ground arith
write-cong f g (StateMutation.delete k) j e = ground arith

pub write_all-cong :
    (f g : StateCf) (ms : List StateMutation) (j : Bytes)
    → f j ≡ g j
    → write_all f ms j ≡ write_all g ms j
unfolding write_all
write_all-cong f g [] j e = e
write_all-cong f g (m ∷ ms) j e = write_all-cong (write f m) (write g m) ms j (write-cong f g m j e)

write_all-into_mutations :
    (cf : StateCf) (p : Pending) (j : Bytes)
    → Distinct p
    → write_all cf (into_mutations p) j ≡ over (lookup j p) (cf j)
unfolding write_all into_mutations lookup write
write_all-into_mutations cf [] j h = refl
write_all-into_mutations cf ((k, some v) ∷ p) j h =
    ground
      (arith, list_beq_iff k j, write_all-into_mutations (write cf (StateMutation.put k v)) p j h.1)
write_all-into_mutations cf ((k, none) ∷ p) j h =
    ground (
      arith,
      list_beq_iff k j,
      write_all-into_mutations (write cf (StateMutation.delete k)) p j h.1,
    )

-- Writing one mutation per touched key, in any order in which the pending map may be walked, gives
-- the state that the overlay's reads show.
pub write_all-walk :
    (o : StateOverlay) (walk : Pending)
    → Distinct walk
    → ((j : Bytes) → lookup j walk ≡ lookup j o.pending)
    → write_all o.storage (into_mutations walk) ≡ reader o
unfolding reader
write_all-walk o walk h same =
    fun_ext
      (λ j. write_all-into_mutations o.storage walk j h ∙ ap (λ x. over x (o.storage j)) (same j))
