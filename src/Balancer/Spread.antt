-- ===== src/Balancer/Spread.antt =====
-- The loads that placements are heading for, and the measure that a swap of a busy voter for an idle
-- node lowers.
use dal_service.Prelude.{
  ℕ, zero, suc, ◌+◌, ◌≡◌, refl, Bool, true, false, not, none, some, List, [], ◌∷◌, arith, ◌==◌,
  nat_eq, keep, contains, if◌then◌else◌,
}
use dal_service.Prelude.Sets.{IsStrict, set_insert, contains-set_insert}
use dal_service.Types.{NodeId}
use dal_service.Types.Meta.{Placement}
use dal_service.Meta.Step.Moves.{Above-tail}
use dal_service.Balancer.{heading, add_load, load_from, placement_at}
use dal_service.Balancer.Replacement.{contains-Above, contains-keep, set_insert-IsSwap}

abbrev pub ind : Bool → ℕ
ind b = if b then 1 else 0

-- How often a node is among the voters.
pub count : NodeId → List NodeId → ℕ
count n [] = 0
count n (v ∷ vs) = ind (v == n) + count n vs

-- The replicas that the placements are heading to give a node.
pub replicas : NodeId → List (ℕ × Placement) → ℕ
replicas n [] = 0
replicas n ((k, p) ∷ ps) = count n (heading p.voters p.move) + replicas n ps

add_load-count :
    (vs : List NodeId) (load : NodeId → ℕ) (n : NodeId) → add_load vs load n ≡ load n + count n vs
unfolding add_load count
add_load-count [] load n = ground arith
add_load-count (v ∷ vs) load n =
    ground (arith, add_load-count vs (λ m. if v == m then load m + 1 else load m) n)

pub load_from-replicas :
    (ps : List (ℕ × Placement)) (load : NodeId → ℕ) (n : NodeId)
    → load_from ps load n ≡ load n + replicas n ps
unfolding load_from replicas
load_from-replicas [] load n = ground arith
load_from-replicas ((k, p) ∷ ps) load n = ground (
  arith,
  load_from-replicas ps (add_load (heading p.voters p.move) load) n,
  add_load-count (heading p.voters p.move) load n,
)

count_strict : (n : NodeId) (vs : List NodeId) → IsStrict vs → count n vs ≡ ind (contains vs n)
unfolding count
count_strict n [] h = refl
count_strict n (v ∷ vs) h =
    ground (arith, count_strict n vs, Above-tail v vs h, contains-Above v v vs)

-- A swap moves one replica.
pub count-swap :
    (drop dest n : NodeId) (voters : List NodeId)
    → IsStrict voters
    → contains voters drop ≡ true
    → contains voters dest ≡ false
    → count n (set_insert dest (keep (λ v. not (v == drop)) voters)) + ind (n == drop)
      ≡ count n voters + ind (n == dest)
count-swap drop dest n voters strict leaves fresh =
    let stay : List NodeId = keep (λ v. not (v == drop)) voters in
    let swap = set_insert-IsSwap drop dest voters strict leaves fresh in
    ground (
      arith,
      count_strict n voters strict,
      count_strict n (set_insert dest stay) swap.0,
      contains-set_insert dest n stay,
      contains-keep (λ v. not (v == drop)) voters n,
    )

-- The placements after the move of a group to a target is over.
unfoldable pub settle : ℕ → List NodeId → List (ℕ × Placement) → List (ℕ × Placement)
settle k target [] = []
settle k target ((j, p) ∷ ps) =
    let rest = settle k target ps in
    if j == k then (j, record p { voters = target; move = none }) ∷ ps else (j, p) ∷ rest

pub replicas-settle :
    (n : NodeId) (k : ℕ) (target : List NodeId) (ps : List (ℕ × Placement)) (p : Placement)
    → placement_at k ps ≡ some p
    → replicas n (settle k target ps) + count n (heading p.voters p.move)
      ≡ replicas n ps + count n target
unfolding replicas settle placement_at
replicas-settle n k target [] p h = ground arith
replicas-settle n k target ((j, q) ∷ ps) p h = ground (arith, replicas-settle n k target ps p)

-- The sum of the numbers up to a load.
triangle : ℕ → ℕ
triangle zero = 0
triangle (suc n) = suc n + triangle n

-- The measure of the loads of some nodes.
unfoldable pub spread : (NodeId → ℕ) → List NodeId → ℕ
unfolding triangle
spread load [] = 0
spread load (x ∷ xs) = triangle (load x) + spread load xs

-- One replica goes from one node to another.
abbrev pub MovesOne : (load load' : NodeId → ℕ) (drop dest : NodeId) → Type 0
MovesOne load load' drop dest = (n : NodeId) → load' n + ind (n == drop) ≡ load n + ind (n == dest)

triangle-suc : (a b : ℕ) → a ≡ b + 1 → triangle a ≡ a + triangle b
unfolding triangle
triangle-suc zero b h = absurd (ground arith)
triangle-suc (suc a) b h = ground arith

pub spread-MovesOne :
    (load load' : NodeId → ℕ) (drop dest : NodeId) (xs : List NodeId)
    → MovesOne load load' drop dest
    → (drop == dest) ≡ false
    → IsStrict xs
    → spread load' xs + (if contains xs drop then load drop else 0)
      ≡ spread load xs + (if contains xs dest then load dest + 1 else 0)
unfolding spread
spread-MovesOne load load' drop dest [] one apart h = refl
spread-MovesOne load load' drop dest (x ∷ xs) one apart h = ground (
  arith,
  one x,
  spread-MovesOne load load' drop dest xs one apart,
  Above-tail x xs h,
  contains-Above x x xs,
  triangle-suc (load x) (load' x),
  triangle-suc (load' x) (load x),
)
