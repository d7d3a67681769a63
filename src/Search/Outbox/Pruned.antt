-- ===== src/Search/Outbox/Pruned.antt =====
-- What pruning leaves of a group's search outbox.
use dal_service.Prelude.{
  ℕ, ◌≡◌, refl, ltb, Bool, true, false, not, ◌||◌, ◌&&◌, Option, none, some, List, [], ◌∷◌, map,
  length, is_empty, keep, any, All, Bool-cases, Option-cases, inl, inr, ◌==◌, nat_eq, arith,
}
use dal_service.Codec.{Bytes, ok}
use dal_service.Search.Outbox.{
  SearchOutboxEntry, IndexCheckpoint, SearchConsumerState, holds_retention, outbox_key,
  checkpoint_watermark, floor_watermark, watermark, min_with, minimum, covered, prune_rows,
  prune_search_outbox,
}
use dal_service.Search.Outbox.Order.{Precedes, IsOrdered, IsAscending, IsAscending-IsOrdered}
use dal_service.Search.Outbox.Keys.{IsEntry, decode-outbox_key}

-- The epoch and index up to which a consumer has seen the group's changes, where it has any.
abbrev pub position_of : Option IndexCheckpoint → Option (ℕ × ℕ) → Option (ℕ × ℕ)
position_of none floor = floor
position_of (some c) floor = elim c.source_log_id [
  | none ↦ none
  | some log_id ↦ some (c.projection_epoch, log_id.index)
]

abbrev pub is_after : SearchOutboxEntry → ℕ × ℕ → Bool
is_after e p = ltb p.0 e.epoch || ((e.epoch == p.0) && ltb p.1 e.source_log_id.index)

abbrev pub needed_from : ℕ → SearchOutboxEntry → Option (ℕ × ℕ) → Bool
needed_from epoch e none = true
needed_from epoch e (some p) = not (p.0 == epoch) || is_after e p

-- A consumer needs an entry, at a projection epoch.
abbrev pub needs : ℕ → SearchOutboxEntry → SearchConsumerState → Bool
needs epoch e c = needed_from epoch e (position_of c.checkpoint c.retention_floor)

-- Some consumer that holds retention needs the entry.
unfoldable pub is_retained : ℕ → List SearchConsumerState → SearchOutboxEntry → Bool
is_retained epoch registered e = any (needs epoch e) (keep holds_retention registered)

watermark-none :
    (epoch : ℕ) (c : SearchConsumerState) (e : SearchOutboxEntry)
    → watermark epoch c ≡ none
    → needs epoch e c ≡ true
unfolding watermark checkpoint_watermark floor_watermark
watermark-none epoch c e h = ground arith

watermark-some :
    (epoch : ℕ) (c : SearchConsumerState) (e : SearchOutboxEntry) {w : ℕ}
    → watermark epoch c ≡ some w
    → covered false epoch (some w) e ≡ not (needs epoch e c)
unfolding watermark checkpoint_watermark floor_watermark covered
watermark-some epoch c e h = ground arith

covered_min :
    (epoch l w : ℕ) (e : SearchOutboxEntry)
    → covered false epoch (some (min_with (some l) w)) e
      ≡ (covered false epoch (some l) e && covered false epoch (some w) e)
unfolding covered
covered_min epoch l w e = ground arith

minimum-none :
    (epoch : ℕ) (cs : List SearchConsumerState) (lowest : Option ℕ) (e : SearchOutboxEntry)
    → minimum epoch cs lowest ≡ none
    → any (needs epoch e) cs ≡ true
unfolding minimum
minimum-none epoch [] lowest e h = ground arith
minimum-none epoch (c ∷ cs) lowest e h = elim (Option-cases (watermark epoch c)) [
  | inl eq ↦ ground (arith, watermark-none epoch c e eq)
  | inr (w, eq) ↦ ground (arith, minimum-none epoch cs (some (min_with lowest w)) e, eq)
]

minimum-some :
    (epoch : ℕ) (cs : List SearchConsumerState) (l : ℕ) (e : SearchOutboxEntry) (m : Option ℕ)
    → minimum epoch cs (some l) ≡ some m
    → covered false epoch m e ≡ (covered false epoch (some l) e && not (any (needs epoch e) cs))
unfolding minimum
minimum-some epoch [] l e m h = ground arith
minimum-some epoch (c ∷ cs) l e m h = elim (Option-cases (watermark epoch c)) [
  | inl eq ↦ ground (arith, eq)
  | inr (w, eq) ↦ ground (
    arith,
    eq,
    minimum-some epoch cs (min_with (some l) w) e m,
    covered_min epoch l w e,
    watermark-some epoch c e eq,
  )
]

-- An entry is covered exactly if no consumer needs it.
covered-minimum :
    (epoch : ℕ) (cs : List SearchConsumerState) (e : SearchOutboxEntry) (m : Option ℕ)
    → minimum epoch cs none ≡ some m
    → covered (is_empty cs) epoch m e ≡ not (any (needs epoch e) cs)
unfolding minimum
covered-minimum epoch [] e m h = unfold covered in refl
covered-minimum epoch (c ∷ cs) e m h = elim (Option-cases (watermark epoch c)) [
  | inl eq ↦ ground (arith, eq)
  | inr (w, eq) ↦ ground (arith, eq, minimum-some epoch cs w e m, watermark-some epoch c e eq)
]

-- What is needed is needed with every entry after it.
needs-Precedes :
    (epoch : ℕ) (c : SearchConsumerState) (a b : SearchOutboxEntry)
    → Precedes a b
    → needs epoch a c ≡ true
    → needs epoch b c ≡ true
needs-Precedes epoch c a b before h = ground arith

any-needs :
    (epoch : ℕ) (cs : List SearchConsumerState) (a b : SearchOutboxEntry)
    → Precedes a b
    → any (needs epoch a) cs ≡ true
    → any (needs epoch b) cs ≡ true
any-needs epoch [] a b before h = ground arith
any-needs epoch (c ∷ cs) a b before h =
    ground (arith, needs-Precedes epoch c a b before, any-needs epoch cs a b before)

-- Where a test passes, every test after it passes.
abbrev IsMonotone : (SearchOutboxEntry → Bool) → List SearchOutboxEntry → Type 0
IsMonotone needed [] = Unit
IsMonotone needed (e ∷ es) =
    (needed e ≡ true → All (λ x. needed x ≡ true) es) × IsMonotone needed es

keep_all :
    (needed : SearchOutboxEntry → Bool) (es : List SearchOutboxEntry)
    → All (λ x. needed x ≡ true) es
    → (keep (λ x. not (needed x)) es ≡ []) × (keep needed es ≡ es)
keep_all needed [] h = (refl, refl)
keep_all needed (e ∷ es) h = ground (arith, keep_all needed es h.1)

module _ (prefix : Bytes) (p needed : SearchOutboxEntry → Bool)
    (agree : (e : SearchOutboxEntry) → p e ≡ not (needed e)) where
  -- The loop, which ends at the first row that is needed, deletes the rows that are not needed.
  prune_rows-keep :
      (es : List SearchOutboxEntry)
      → All IsEntry es
      → IsMonotone needed es
      → prune_rows prefix p (map (outbox_key prefix) es)
        ≡ ok (length (keep (λ x. not (needed x)) es), map (outbox_key prefix) (keep needed es))
  unfolding prune_rows
  prune_rows-keep [] h mono = refl
  prune_rows-keep (e ∷ es) h mono = elim (Bool-cases (needed e)) [
    | inl eq ↦
        let (none_left, all_left) = keep_all needed es (mono.0 eq) in
        rw (decode-outbox_key prefix e h.0, agree e, eq, none_left, all_left) refl
    | inr eq ↦
        rw (decode-outbox_key prefix e h.0, agree e, eq, prune_rows-keep es h.1 mono.1)
          (ground arith)
  ]

module _ (prefix : Bytes) (epoch : ℕ) (registered : List SearchConsumerState) where
  all_retained :
      (a : SearchOutboxEntry) (es : List SearchOutboxEntry)
      → All (Precedes a) es
      → is_retained epoch registered a ≡ true
      → All (λ x. is_retained epoch registered x ≡ true) es
  unfolding is_retained
  all_retained a [] before h = tt
  all_retained a (b ∷ es) before h = (
    any-needs epoch (keep holds_retention registered) a b before.0 h,
    all_retained a es before.1 h,
  )

  IsOrdered-IsMonotone :
      (es : List SearchOutboxEntry) → IsOrdered es → IsMonotone (is_retained epoch registered) es
  IsOrdered-IsMonotone [] ordered = tt
  IsOrdered-IsMonotone (e ∷ es) ordered =
      (all_retained e es ordered.0, IsOrdered-IsMonotone es ordered.1)

  everything_retained :
      (es : List SearchOutboxEntry)
      → minimum epoch (keep holds_retention registered) none ≡ none
      → All (λ x. is_retained epoch registered x ≡ true) es
  unfolding is_retained
  everything_retained [] h = tt
  everything_retained (e ∷ es) h =
      (minimum-none epoch (keep holds_retention registered) none e h, everything_retained es h)

  -- Of rows in the order of their bytes, whose entries have fields of their widths and a key whose
  -- length fits in 32 bits, pruning deletes exactly those whose entry no consumer holding retention
  -- needs.
  pub prune_search_outbox-keep :
      (es : List SearchOutboxEntry)
      → All IsEntry es
      → IsAscending (map (outbox_key prefix) es)
      → prune_search_outbox prefix epoch registered (map (outbox_key prefix) es)
        ≡ ok (
          length (keep (λ e. not (is_retained epoch registered e)) es),
          map (outbox_key prefix) (keep (is_retained epoch registered) es),
        )
  unfolding prune_search_outbox is_retained
  prune_search_outbox-keep es h rows =
      let consumers = keep holds_retention registered in
      let ordered = IsAscending-IsOrdered prefix es h rows in
      elim (Option-cases (minimum epoch consumers none)) [
        | inl eq ↦
            let (none_left, all_left) =
              keep_all (is_retained epoch registered) es (everything_retained es eq) in
            rw (prune_search_outbox, eq, none_left, all_left) refl
        | inr (m, eq) ↦
            rw (prune_search_outbox, eq)
              (prune_rows-keep prefix (covered (is_empty consumers) epoch m)
                (is_retained epoch registered) (λ e. covered-minimum epoch consumers e m eq) es h
                (IsOrdered-IsMonotone es ordered))
      ]
