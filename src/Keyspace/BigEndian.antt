-- ===== src/Keyspace/BigEndian.antt =====
-- `to_be_bytes` of an unsigned integer of a given number of bytes, and that it loses nothing.
use dal_service.Prelude.{
  ℕ, zero, suc, ◌+◌, ◌*◌, ◌/◌, ◌%◌, ◌^◌, ◌<◌, ◌≡◌, refl, sym, ap, ◌∙◌, [], ◌∷◌, ◌++◌, arith,
}
use native.Mathlib.Nat.{pow-suc}
use dal_service.Codec.{Bytes}

unfoldable pub be_bytes : ℕ → ℕ → Bytes
be_bytes zero x = []
be_bytes (suc w) x = be_bytes w (x / 256) ++ (x % 256) ∷ []

-- `from_be_bytes`.
unfoldable pub from_be_bytes : ℕ → Bytes → ℕ
from_be_bytes acc [] = acc
from_be_bytes acc (b ∷ bs) = from_be_bytes (acc * 256 + b) bs

from_be_bytes-snoc :
    (acc b : ℕ) (bs : Bytes) → from_be_bytes acc (bs ++ b ∷ []) ≡ from_be_bytes acc bs * 256 + b
unfolding from_be_bytes
from_be_bytes-snoc acc b [] = refl
from_be_bytes-snoc acc b (c ∷ bs) = from_be_bytes-snoc (acc * 256 + c) b bs

pow_step : (w : ℕ) → 256 ^ suc w ≡ 256 ^ w * 256
pow_step w = pow-suc 256 w

-- A value of w bytes is read back from its big-endian bytes.
pub from_be_bytes-be_bytes : (w x : ℕ) → x < 256 ^ w → from_be_bytes 0 (be_bytes w x) ≡ x
unfolding be_bytes
from_be_bytes-be_bytes zero x h = unfold from_be_bytes in omega arith
from_be_bytes-be_bytes (suc w) x h =
    rw from_be_bytes-snoc
      (omega (arith, from_be_bytes-be_bytes w (x / 256) (omega (arith, pow_step w))))

pub be_bytes_injective :
    (w x y : ℕ) → x < 256 ^ w → y < 256 ^ w → be_bytes w x ≡ be_bytes w y → x ≡ y
be_bytes_injective w x y hx hy e =
    sym (from_be_bytes-be_bytes w x hx) ∙ ap (from_be_bytes 0) e ∙ from_be_bytes-be_bytes w y hy
