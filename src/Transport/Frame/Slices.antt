-- ===== src/Transport/Frame/Slices.antt =====
-- Slices of a list of bytes: a list is the slices between its bounds, and octets are the bytes of
-- the number they spell.
use dal_service.Prelude.{
  ℕ, zero, suc, ◌+◌, ◌-◌, ◌*◌, ◌/◌, ◌%◌, ◌≤◌, ◌≡◌, refl, sym, ap, ◌∙◌, Bool, true, [], ◌∷◌, ◌++◌,
  arith, ltb, length, all,
}
use dal_service.Codec.{Bytes}
use dal_service.Transport.LittleEndian.{le_bytes, from_le_bytes, take, drop, slice, take-length}

abbrev pub is_octets : Bytes → Bool
is_octets bytes = all (λ b. ltb b 256) bytes

take-drop : (n : ℕ) (bs : Bytes) → take n bs ++ drop n bs ≡ bs
unfolding take drop
take-drop zero bs = refl
take-drop (suc n) [] = refl
take-drop (suc n) (b ∷ bs) = ap (λ rest. b ∷ rest) (take-drop n bs)

drop_nil : (n : ℕ) → drop n [] ≡ []
unfolding drop
drop_nil zero = refl
drop_nil (suc n) = refl

drop-drop : (m n k : ℕ) (bs : Bytes) → m + n ≡ k → drop n (drop m bs) ≡ drop k bs
unfolding drop
drop-drop zero n k bs sum = ap (λ i. drop i bs) (omega arith)
drop-drop (suc m) n k [] sum = drop_nil n ∙ sym (drop_nil k)
drop-drop (suc m) n zero (b ∷ bs) sum = ground arith
drop-drop (suc m) n (suc k) (b ∷ bs) sum = drop-drop m n k bs (omega arith)

length-drop : (n : ℕ) (bs : Bytes) → length (drop n bs) ≡ length bs - n
unfolding drop
length-drop zero bs = omega arith
length-drop (suc n) [] = omega arith
length-drop (suc n) (b ∷ bs) = omega (arith, length-drop n bs)

length-take : (n : ℕ) (bs : Bytes) → n ≤ length bs → length (take n bs) ≡ n
unfolding take
length-take zero bs h = refl
length-take (suc n) [] h = omega arith
length-take (suc n) (b ∷ bs) h = omega (arith, length-take n bs (omega arith))

take-is_octets : (n : ℕ) (bs : Bytes) → is_octets bs ≡ true → is_octets (take n bs) ≡ true
unfolding take
take-is_octets zero bs h = refl
take-is_octets (suc n) [] h = refl
take-is_octets (suc n) (b ∷ bs) h = ground (arith, take-is_octets n bs)

drop-is_octets : (n : ℕ) (bs : Bytes) → is_octets bs ≡ true → is_octets (drop n bs) ≡ true
unfolding drop
drop-is_octets zero bs h = h
drop-is_octets (suc n) [] h = refl
drop-is_octets (suc n) (b ∷ bs) h = drop-is_octets n bs (ground arith)

slice-is_octets :
    (from to : ℕ) (bs : Bytes) → is_octets bs ≡ true → is_octets (slice from to bs) ≡ true
unfolding slice
slice-is_octets from to bs octets =
    take-is_octets (to - from) (drop from bs) (drop-is_octets from bs octets)

low_byte : (b r : ℕ) → ltb b 256 ≡ true → (b + 256 * r) % 256 ≡ b
low_byte b r h = ground arith

high_bytes : (b r : ℕ) → ltb b 256 ≡ true → (b + 256 * r) / 256 ≡ r
high_bytes b r h = ground arith

le_bytes-from_le_bytes :
    (bs : Bytes) → is_octets bs ≡ true → le_bytes (length bs) (from_le_bytes bs) ≡ bs
unfolding le_bytes from_le_bytes
le_bytes-from_le_bytes [] h = refl
le_bytes-from_le_bytes (b ∷ bs) h =
    rw
      (
        low_byte b (from_le_bytes bs) (ground arith),
        high_bytes b (from_le_bytes bs) (ground arith),
        le_bytes-from_le_bytes bs (ground arith),
      )
      refl

module _ (bytes : Bytes) (from to : ℕ) (order : from ≤ to) where
  -- What is left from one index is the slice to another and what is left from there.
  pub slice_then : slice from to bytes ++ drop to bytes ≡ drop from bytes
  unfolding slice
  slice_then =
      ap (λ rest. take (to - from) (drop from bytes) ++ rest)
        (sym (drop-drop from (to - from) to bytes (omega arith)))
      ∙ take-drop (to - from) (drop from bytes)

  pub length-slice : to ≤ length bytes → length (slice from to bytes) ≡ to - from
  unfolding slice
  length-slice h = length-take (to - from) (drop from bytes) (omega (arith, length-drop from bytes))

  -- A slice of octets is the little-endian bytes of what is read there.
  pub le_bytes-slice :
      to ≤ length bytes
      → is_octets bytes ≡ true
      → le_bytes (to - from) (from_le_bytes (slice from to bytes)) ≡ slice from to bytes
  le_bytes-slice h octets =
      ap (λ n. le_bytes n (from_le_bytes (slice from to bytes))) (sym (length-slice h))
      ∙ le_bytes-from_le_bytes (slice from to bytes) (slice-is_octets from to bytes octets)

-- The slice that runs to the end.
pub slice_last : (bytes : Bytes) (from : ℕ) → slice from (length bytes) bytes ≡ drop from bytes
unfolding slice
slice_last bytes from =
    ap (λ n. take n (drop from bytes)) (sym (length-drop from bytes))
    ∙ take-length (drop from bytes)

pub single : (bs : Bytes) → length bs ≡ 1 → from_le_bytes bs ∷ [] ≡ bs
unfolding from_le_bytes
single [] h = ground arith
single (b ∷ []) h = ap (λ x. x ∷ []) (omega arith)
single (b ∷ c ∷ bs) h = ground arith
