-- ===== src/Partition/Coalesce/Chunks.antt =====
-- `apply_coalesced` of src/partition/sm.rs: the entries of one call, applied in bounded chunks.
use dal_service.Prelude.{
  ℕ, ◌+◌, ◌*◌, ◌/◌, sym, Bool, true, false, not, ◌&&◌, ◌||◌, List, [], ◌∷◌, ◌++◌, ltb, leb, length,
  is_empty, u64_max, nat_eq, list_eq, if◌then◌else◌,
}
use mathlib.Core.Path.{subst}
use mathlib.Core.List.{append-nil, append_assoc}
use dal_service.Codec.{ok}
use dal_service.Storage.{StateCf}
use dal_service.Partition.Coalesce.{Raft, Entry, apply_coalesced_chunk, apply_per_entry}
use dal_service.Partition.Coalesce.Loop.{apply_coalesced_chunk-per_entry}
use dal_service.Partition.Coalesce.Append.{
  ChunkOutcome, extend, SameEnd, outcome_end, extend_end, apply_per_entry-append,
}

-- `saturating_add` of a `usize`.
abbrev pub saturating_add : ℕ → ℕ → ℕ
saturating_add a b = if ltb (a + b) u64_max then a + b else u64_max

abbrev pub apply_chunk_input_bytes : ℕ
apply_chunk_input_bytes = 64 * 1024 * 1024 / 2

abbrev pub apply_chunk_entries : ℕ
apply_chunk_entries = 4096 / 2

module _ {M : Type 0} (c : Raft M) where
  -- A full chunk is applied, and the entry begins the next one.
  full_step :
      (cf : StateCf) (x : Entry M) (chunk : List (Entry M)) (e : Entry M) (entries : List (Entry M))
      (rest : StateCf → ChunkOutcome)
      → ((after : StateCf) → SameEnd (rest after) (apply_per_entry c after (e ∷ entries)))
      → SameEnd
          (extend (apply_coalesced_chunk c cf (x ∷ chunk)) rest)
          (apply_per_entry c cf ((x ∷ chunk) ++ (e ∷ entries)))
  full_step cf x chunk e entries rest h =
      subst (SameEnd (extend (apply_coalesced_chunk c cf (x ∷ chunk)) rest))
        (sym (apply_per_entry-append c cf (x ∷ chunk) (e ∷ entries)))
        (extend_end c cf (apply_coalesced_chunk c cf (x ∷ chunk)) (apply_per_entry c cf (x ∷ chunk))
          rest (λ after. apply_per_entry c after (e ∷ entries))
          (apply_coalesced_chunk-per_entry c cf (x ∷ chunk)) h)

  -- The entry joins the chunk.
  room_step :
      (cf : StateCf) (x : Entry M) (chunk : List (Entry M)) (e : Entry M) (entries : List (Entry M))
      (o : ChunkOutcome)
      → SameEnd o (apply_per_entry c cf ((x ∷ (chunk ++ e ∷ [])) ++ entries))
      → SameEnd o (apply_per_entry c cf ((x ∷ chunk) ++ (e ∷ entries)))
  room_step cf x chunk e entries o =
      subst (λ es. SameEnd o (apply_per_entry c cf es)) (append_assoc (x ∷ chunk) (e ∷ []) entries)

  module _ (encoded_len : Entry M → ℕ) where
    -- The entry would not fit the chunk any more.
    abbrev pub would_exceed : List (Entry M) → ℕ → Entry M → Bool
    would_exceed chunk chunk_bytes e =
        not (is_empty chunk)
        && (leb apply_chunk_entries (length chunk)
            || ltb apply_chunk_input_bytes (saturating_add chunk_bytes (encoded_len e)))

    -- The loop of `apply_coalesced`, with the chunk and its size so far.
    unfoldable pub apply_chunks : StateCf → List (Entry M) → ℕ → List (Entry M) → ChunkOutcome
    apply_chunks cf chunk chunk_bytes [] =
        if is_empty chunk then (ok [], cf) else apply_coalesced_chunk c cf chunk
    apply_chunks cf chunk chunk_bytes (e ∷ entries) = elim (would_exceed chunk chunk_bytes e) [
      | true ↦
          extend (apply_coalesced_chunk c cf chunk)
            (λ after. apply_chunks after (e ∷ []) (saturating_add 0 (encoded_len e)) entries)
      | false ↦
          apply_chunks cf (chunk ++ e ∷ []) (saturating_add chunk_bytes (encoded_len e)) entries
    ]

    -- `apply_coalesced`.
    unfoldable pub apply_coalesced : StateCf → List (Entry M) → ChunkOutcome
    apply_coalesced cf entries = apply_chunks cf [] 0 entries

    -- What follows the loop's test of an entry.
    apply_chunks_end :
        (cf : StateCf) (x : Entry M) (chunk : List (Entry M)) (n : ℕ) (entries : List (Entry M))
        → SameEnd
            (apply_chunks cf (x ∷ chunk) n entries)
            (apply_per_entry c cf ((x ∷ chunk) ++ entries))
    unfolding apply_chunks
    apply_chunks_end cf x chunk n [] =
        subst (λ es. SameEnd (apply_coalesced_chunk c cf (x ∷ chunk)) (apply_per_entry c cf es))
          (sym (append-nil (x ∷ chunk)))
          (outcome_end c cf (apply_coalesced_chunk c cf (x ∷ chunk))
            (apply_per_entry c cf (x ∷ chunk)) (apply_coalesced_chunk-per_entry c cf (x ∷ chunk)))
    apply_chunks_end cf x chunk n (e ∷ entries) =
        by_test (would_exceed (x ∷ chunk) n e)
          (λ after. apply_chunks_end after e [] (saturating_add 0 (encoded_len e)) entries)
          (apply_chunks_end cf x (chunk ++ e ∷ []) (saturating_add n (encoded_len e)) entries)
      where
        by_test :
            (b : Bool)
            → ((after : StateCf)
                → SameEnd
                    (apply_chunks after (e ∷ []) (saturating_add 0 (encoded_len e)) entries)
                    (apply_per_entry c after (e ∷ entries)))
            → SameEnd
                (apply_chunks cf (x ∷ (chunk ++ e ∷ [])) (saturating_add n (encoded_len e)) entries)
                (apply_per_entry c cf ((x ∷ (chunk ++ e ∷ [])) ++ entries))
            → SameEnd
                (elim b [
                  | true ↦ extend (apply_coalesced_chunk c cf (x ∷ chunk)) (λ after.
                      apply_chunks after (e ∷ []) (saturating_add 0 (encoded_len e)) entries)
                  | false ↦
                      apply_chunks cf
                        (x ∷ (chunk ++ e ∷ []))
                        (saturating_add n (encoded_len e))
                        entries
                ])
                (apply_per_entry c cf ((x ∷ chunk) ++ (e ∷ entries)))
        by_test true full room =
            full_step cf x chunk e entries
              (λ after. apply_chunks after (e ∷ []) (saturating_add 0 (encoded_len e)) entries) full
        by_test false full room =
            room_step cf x chunk e entries
              (apply_chunks cf (x ∷ (chunk ++ e ∷ [])) (saturating_add n (encoded_len e)) entries)
              room

    -- At least one entry, applied in chunks that are cut at the bounds on entries and on bytes,
    -- whatever the encoded lengths, and applied with one write each, give the same results and the
    -- same state, or the same error.
    pub apply_coalesced-per_entry :
        (cf : StateCf) (e : Entry M) (entries : List (Entry M))
        → SameEnd (apply_coalesced cf (e ∷ entries)) (apply_per_entry c cf (e ∷ entries))
    unfolding apply_coalesced apply_chunks
    apply_coalesced-per_entry cf e entries =
        apply_chunks_end cf e [] (saturating_add 0 (encoded_len e)) entries
