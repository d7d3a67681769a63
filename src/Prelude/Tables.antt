-- ===== src/Prelude/Tables.antt =====
-- `HashMap` and `BTreeMap` by a number: an association list, in which `get` reads the first entry of
-- a key.
use dal_service.Prelude.Tests.{◌==◌, nat_eq, if◌then◌else◌}
use dal_service.Prelude.Lists.{length}
use Prim.Native.Nat.{ℕ, ◌+◌, ◌≤◌}
use mathlib.Core.Path.{◌≡◌, refl}
use mathlib.Core.Bool.{Bool, not}
use mathlib.Core.Option.{Option, none, some}
use mathlib.Core.List.{List, [], ◌∷◌, map}
use native.Mathlib.Omega.{arith}

abbrev pub Table {ℓ} : Type ℓ → Type ℓ
Table V = List (ℕ × V)

module _ {ℓ} {V : Type ℓ} where
  unfoldable pub get : ℕ → Table V → Option V
  get k [] = none
  get k ((j, v) ∷ t) = let rest = get k t in if j == k then some v else rest

  unfoldable pub insert : ℕ → V → Table V → Table V
  insert k v [] = (k, v) ∷ []
  insert k v ((j, w) ∷ t) = let rest = insert k v t in if j == k then (k, v) ∷ t else (j, w) ∷ rest

  -- `retain`, by the key.
  unfoldable pub retain : (ℕ → Bool) → Table V → Table V
  retain p [] = []
  retain p ((j, v) ∷ t) = let rest = retain p t in if p j then (j, v) ∷ rest else rest

  abbrev pub remove : ℕ → Table V → Table V
  remove k t = retain (λ j. not (j == k)) t

  abbrev pub keys_of : Table V → List ℕ
  keys_of t = map (λ e. e.0) t

  pub get-insert :
      (n k : ℕ) (v : V) (t : Table V) → get n (insert k v t) ≡ (if k == n then some v else get n t)
  unfolding get insert
  get-insert n k v [] = refl
  get-insert n k v ((j, w) ∷ t) = ground (arith, get-insert n k v t)

  pub get-retain :
      (n : ℕ) (p : ℕ → Bool) (t : Table V) → get n (retain p t) ≡ (if p n then get n t else none)
  unfolding get retain
  get-retain n p [] = ground arith
  get-retain n p ((j, v) ∷ t) = ground (arith, get-retain n p t)

  pub length-retain : (p : ℕ → Bool) (t : Table V) → length (retain p t) ≤ length t
  unfolding retain
  length-retain p [] = omega arith
  length-retain p ((j, v) ∷ t) = ground (arith, length-retain p t)

  -- A new key makes the table longer by one, a key of the table not at all.
  pub length-insert_le : (k : ℕ) (v : V) (t : Table V) → length (insert k v t) ≤ length t + 1
  unfolding insert
  length-insert_le k v [] = omega arith
  length-insert_le k v ((j, w) ∷ t) = ground (arith, length-insert_le k v t)

  pub length-insert_old :
      (k : ℕ) (v w : V) (t : Table V) → get k t ≡ some w → length (insert k v t) ≡ length t
  unfolding get insert
  length-insert_old k v w [] h = ground arith
  length-insert_old k v w ((j, x) ∷ t) h = ground (arith, length-insert_old k v w t)
