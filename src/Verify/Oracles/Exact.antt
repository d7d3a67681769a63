-- ===== src/Verify/Oracles/Exact.antt =====
-- What the oracles decide.
use dal_service.Prelude.{
  ℕ, ◌≡◌, refl, inl, inr, Bool, true, false, not, ◌&&◌, ◌||◌, Option, none, some, List, [], ◌∷◌,
  arith, ◌==◌, nat_eq, list_eq, all, Bool-cases, Option-cases,
}
use dal_service.Verify.Oracles.{
  Applied, Verdict, passes, fails, same_key, Seen, note, exactly_once_from, exactly_once,
}

-- Two observations of a run agree: of one key, they are of one command, and at most one is fresh.
abbrev pub agrees : Applied → Applied → Bool
agrees a b = not (same_key a b) || (a.digest == b.digest && not (a.fresh && b.fresh))

-- Any two observations agree.
abbrev pub all_agree : List Applied → Bool
all_agree [] = true
all_agree (a ∷ bs) = all (agrees a) bs && all_agree bs

-- An observation agrees with what was seen.
abbrev fits : Option (ℕ × Bool) → Applied → Bool
fits none a = true
fits (some (digest, fresh_seen)) a = digest == a.digest && not (fresh_seen && a.fresh)

abbrev after : Option (ℕ × Bool) → Applied → ℕ × Bool
after none a = (a.digest, a.fresh)
after (some (digest, fresh_seen)) a = (digest, fresh_seen || a.fresh)

-- A function of the key only.
abbrev IsKeyed : Seen → Type 0
IsKeyed seen = (a b : Applied) → same_key a b ≡ true → seen a ≡ seen b

same_key_trans : (a b c : Applied) → same_key a b ≡ true → same_key a c ≡ same_key b c
same_key_trans a b c h = ground arith

note-IsKeyed : (seen : Seen) (a : Applied) (e : ℕ × Bool) → IsKeyed seen → IsKeyed (note seen a e)
note-IsKeyed seen a e keyed b c h =
    let same : same_key a b ≡ same_key a c = ground (arith, same_key_trans b c a h) in
    ground (arith, keyed b c h)

-- Of one key, what is noted is seen.
fits_same :
    (o : Option (ℕ × Bool)) (a b : Applied)
    → fits o a ≡ true
    → fits (some (after o a)) b ≡ (fits o b && (a.digest == b.digest && not (a.fresh && b.fresh)))
fits_same none a b h = refl
fits_same (some (d, f)) a b h = ground arith

fits-note :
    (seen : Seen) (a b : Applied)
    → IsKeyed seen
    → fits (seen a) a ≡ true
    → fits (note seen a (after (seen a) a) b) b ≡ (fits (seen b) b && agrees a b)
fits-note seen a b keyed h = elim (Bool-cases (same_key a b)) [
  | inl same ↦ ground (arith, keyed a b same, fits_same (seen a) a b h)
  | inr other ↦ ground arith
]

abbrev all_fit : Seen → List Applied → Bool
all_fit seen bs = all (λ b. fits (seen b) b) bs

all_fit-note :
    (seen : Seen) (a : Applied) (bs : List Applied)
    → IsKeyed seen
    → fits (seen a) a ≡ true
    → all_fit (note seen a (after (seen a) a)) bs ≡ (all_fit seen bs && all (agrees a) bs)
all_fit-note seen a [] keyed h = refl
all_fit-note seen a (b ∷ bs) keyed h =
    ground (arith, fits-note seen a b keyed h, all_fit-note seen a bs keyed h)

abbrev pub has_passed : Verdict → Bool
has_passed passes = true
has_passed (fails _) = false

exactly_once_step :
    (seen : Seen) (a : Applied) (bs : List Applied)
    → has_passed (exactly_once_from seen (a ∷ bs))
      ≡ (fits (seen a) a && has_passed (exactly_once_from (note seen a (after (seen a) a)) bs))
unfolding exactly_once_from
exactly_once_step seen a bs = elim (Option-cases (seen a)) [
  | inl unseen ↦ rw (unseen, exactly_once_from) refl
  | inr ((d, f), known) ↦ rw (known, exactly_once_from) (ground arith)
]

exactly_once_from-all :
    (seen : Seen) (bs : List Applied)
    → IsKeyed seen
    → has_passed (exactly_once_from seen bs) ≡ (all_fit seen bs && all_agree bs)
unfolding exactly_once_from
exactly_once_from-all seen [] keyed = refl
exactly_once_from-all seen (a ∷ bs) keyed = elim (Bool-cases (fits (seen a) a)) [
  | inr clash ↦ ground (arith, exactly_once_step seen a bs)
  | inl fit ↦ ground (
    arith,
    exactly_once_step seen a bs,
    exactly_once_from-all (note seen a (after (seen a) a)) bs
        (note-IsKeyed seen a (after (seen a) a) keyed),
    all_fit-note seen a bs keyed fit,
  )
]

all_fit-none : (bs : List Applied) → all_fit (λ a. none) bs ≡ true
all_fit-none [] = refl
all_fit-none (b ∷ bs) = ground (arith, all_fit-none bs)

-- The oracle of exactly-once application passes a run exactly if any two observations of one
-- client, partition and sequence are of the same command and at most one of them is a fresh
-- decision.
pub exactly_once-all_agree :
    (applied : List Applied) → has_passed (exactly_once applied) ≡ all_agree applied
unfolding exactly_once
exactly_once-all_agree applied =
    ground (arith, exactly_once_from-all (λ a. none) applied (λ a b h. refl), all_fit-none applied)
