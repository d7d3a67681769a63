-- ===== src/Transport/LittleEndian.antt =====
-- `to_le_bytes` of an unsigned integer of a given number of bytes, `from_le_bytes`, and slices.
use dal_service.Prelude.{
  ℕ, zero, suc, ◌+◌, ◌-◌, ◌*◌, ◌/◌, ◌%◌, ◌^◌, ◌<◌, ◌≡◌, refl, [], ◌∷◌, arith, length,
}
use native.Mathlib.Nat.{pow-suc}
use dal_service.Codec.{Bytes}

unfoldable pub le_bytes : ℕ → ℕ → Bytes
le_bytes zero x = []
le_bytes (suc w) x = (x % 256) ∷ le_bytes w (x / 256)

unfoldable pub from_le_bytes : Bytes → ℕ
from_le_bytes [] = 0
from_le_bytes (b ∷ bs) = b + 256 * from_le_bytes bs

unfoldable pub take : ℕ → Bytes → Bytes
take zero bs = []
take (suc n) [] = []
take (suc n) (b ∷ bs) = b ∷ take n bs

unfoldable pub drop : ℕ → Bytes → Bytes
drop zero bs = bs
drop (suc n) [] = []
drop (suc n) (b ∷ bs) = drop n bs

-- `bytes[from..to]`, whose bounds the caller has checked.
unfoldable pub slice : ℕ → ℕ → Bytes → Bytes
slice from to bytes = take (to - from) (drop from bytes)

-- A value of w bytes is read back from its little-endian bytes.
pub from_le_bytes-le_bytes : (w x : ℕ) → x < 256 ^ w → from_le_bytes (le_bytes w x) ≡ x
unfolding from_le_bytes le_bytes
from_le_bytes-le_bytes zero x h = omega arith
from_le_bytes-le_bytes (suc w) x h =
    omega (arith, from_le_bytes-le_bytes w (x / 256) (omega (arith, pow-suc 256 w)), pow-suc 256 w)

pub take-length : (bs : Bytes) → take (length bs) bs ≡ bs
unfolding take
take-length [] = refl
take-length (b ∷ bs) = simp (take-length bs)
