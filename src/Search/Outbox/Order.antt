-- ===== src/Search/Outbox/Order.antt =====
-- The order of the outbox's rows: RocksDB compares keys byte by byte, and the integers in a row's key
-- are big-endian.
use dal_service.Prelude.{
  ℕ, zero, suc, ◌^◌, ◌<◌, ◌≤◌, ◌≡◌, ◌⊎◌, inl, inr, refl, sym, ap, ltb, Bool, true, false, ◌||◌,
  ◌&&◌, List, [], ◌∷◌, ◌++◌, map, length, All, ◌==◌, nat_eq, arith, ◌/◌, ◌%◌,
}
use native.Mathlib.Nat.{pow-suc}
use dal_service.Codec.{Bytes}
use dal_service.Keyspace.BigEndian.{be_bytes}
use dal_service.Search.Outbox.{SearchOutboxEntry, entry_bytes, outbox_key}
use dal_service.Search.Outbox.Keys.{IsEntry}

abbrev pub bytes_ltb : Bytes → Bytes → Bool
bytes_ltb [] [] = false
bytes_ltb [] (y ∷ ys) = true
bytes_ltb (x ∷ xs) [] = false
bytes_ltb (x ∷ xs) (y ∷ ys) = ltb x y || ((x == y) && bytes_ltb xs ys)

-- Rows in the order in which an iterator yields them.
abbrev pub IsAscending : List Bytes → Type 0
IsAscending [] = Unit
IsAscending (row ∷ rows) = All (λ r. bytes_ltb row r ≡ true) rows × IsAscending rows

abbrev pub Precedes : SearchOutboxEntry → SearchOutboxEntry → Type 0
Precedes a b =
    (a.epoch < b.epoch) ⊎ ((a.epoch ≡ b.epoch) × (a.source_log_id.index ≤ b.source_log_id.index))

-- In the order of epoch and index.
abbrev pub IsOrdered : List SearchOutboxEntry → Type 0
IsOrdered [] = Unit
IsOrdered (e ∷ es) = All (Precedes e) es × IsOrdered es

++_assoc : (xs ys zs : Bytes) → (xs ++ ys) ++ zs ≡ xs ++ (ys ++ zs)
++_assoc [] ys zs = refl
++_assoc (x ∷ xs) ys zs = ap (x ∷◌) (++_assoc xs ys zs)

bytes_ltb-be_bytes :
    (w x y : ℕ) (s t : Bytes)
    → bytes_ltb (be_bytes w x ++ s) (be_bytes w y ++ t) ≡ true
    → x < 256 ^ w
    → y < 256 ^ w
    → (x < y) ⊎ ((x ≡ y) × (bytes_ltb s t ≡ true))
unfolding be_bytes
bytes_ltb-be_bytes zero x y s t h hx hy = inr (omega arith, h)
bytes_ltb-be_bytes (suc w) x y s t h hx hy =
    let reassociated : bytes_ltb (be_bytes w (x / 256) ++ ((x % 256) ∷ s))
          (be_bytes w (y / 256) ++ ((y % 256) ∷ t))
        ≡ true =
      rw
        (
          sym (++_assoc (be_bytes w (x / 256)) ((x % 256) ∷ []) s),
          sym (++_assoc (be_bytes w (y / 256)) ((y % 256) ∷ []) t),
        )
        h in
    let high =
      bytes_ltb-be_bytes w (x / 256) (y / 256) ((x % 256) ∷ s) ((y % 256) ∷ t) reassociated
        (omega (arith, pow-suc 256 w)) (omega (arith, pow-suc 256 w)) in
    elim high [ inl less ↦ inl (omega arith) | inr (same, low) ↦ ground arith ]

bytes_ltb-prefix :
    (prefix s t : Bytes) → bytes_ltb (prefix ++ s) (prefix ++ t) ≡ true → bytes_ltb s t ≡ true
bytes_ltb-prefix [] s t h = h
bytes_ltb-prefix (p ∷ ps) s t h = ground (arith, bytes_ltb-prefix ps s t)

abbrev rest_of : SearchOutboxEntry → Bytes
rest_of e =
    be_bytes 8 e.source_log_id.term
    ++ be_bytes 8 e.source_log_id.node_id
    ++ be_bytes 4 (length e.user_key)
    ++ e.user_key

entry_bytes-epoch :
    (e : SearchOutboxEntry)
    → entry_bytes e ≡ be_bytes 8 e.epoch ++ (be_bytes 8 e.source_log_id.index ++ rest_of e)
unfolding entry_bytes be_bytes
entry_bytes-epoch e = refl

entry_order :
    (a b : SearchOutboxEntry)
    → IsEntry a
    → IsEntry b
    → bytes_ltb (entry_bytes a) (entry_bytes b) ≡ true
    → Precedes a b
entry_order a b ha hb h =
    let i = a.source_log_id.index in
    let j = b.source_log_id.index in
    let low_a = be_bytes 8 i ++ rest_of a in
    let low_b = be_bytes 8 j ++ rest_of b in
    let read : bytes_ltb (be_bytes 8 a.epoch ++ low_a) (be_bytes 8 b.epoch ++ low_b) ≡ true =
      rw (sym (entry_bytes-epoch a), sym (entry_bytes-epoch b)) h in
    elim (bytes_ltb-be_bytes 8 a.epoch b.epoch low_a low_b read ha.epoch_u64 hb.epoch_u64) [
      | inl less ↦ inl less
      | inr (same, low) ↦
          ground
            (arith, bytes_ltb-be_bytes 8 i j (rest_of a) (rest_of b) low ha.index_u64 hb.index_u64)
    ]

module _ (prefix : Bytes) where
  row_order :
      (a : SearchOutboxEntry) (es : List SearchOutboxEntry)
      → IsEntry a
      → All IsEntry es
      → All (λ r. bytes_ltb (outbox_key prefix a) r ≡ true) (map (outbox_key prefix) es)
      → All (Precedes a) es
  row_order a [] ha hs rows = tt
  row_order a (e ∷ es) ha hs rows = (
    entry_order a e ha hs.0 (bytes_ltb-prefix prefix (entry_bytes a) (entry_bytes e) rows.0),
    row_order a es ha hs.1 rows.1,
  )

  -- Rows in the order of their bytes are in the order of their entries' epochs and indexes.
  pub IsAscending-IsOrdered :
      (es : List SearchOutboxEntry)
      → All IsEntry es
      → IsAscending (map (outbox_key prefix) es)
      → IsOrdered es
  IsAscending-IsOrdered [] hs rows = tt
  IsAscending-IsOrdered (e ∷ es) hs rows =
      (row_order e es hs.0 hs.1 rows.0, IsAscending-IsOrdered es hs.1 rows.1)
