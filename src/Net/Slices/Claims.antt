-- ===== src/Net/Slices/Claims.antt =====
-- What a claim of a slice (src/msks/msks/net/manager.py) gives.
use msks.Prelude.{
  ℕ, zero, suc, ◌+◌, ◌-◌, ◌%◌, ◌<◌, Bool, true, false, Option, none, some, List, ◌∷◌, Text, leb,
  leb→le, ◌==◌, if◌then◌else◌, ◌≡◌, ◌⊎◌, refl, sym, ap, ◌∙◌, arith, Bool-cases, Option-cases, inl,
  inr,
}
use native.Mathlib.Nat.{mod-eq_of_lt, add-mod_right, mod-lt}
use msks.Prelude.Dict.{get, text_key, get-put, beq_refl}
use msks.Egress.Address.{Ipv4Network}
use msks.Net.Slices.{
  is_used, walk, Slices, claim, slice_count, slice_index, free_slice, claim_live, record_claim,
  claim_slice,
}

-- the loop ends with a slice of the pool that nobody uses
walk-some :
    (start count : ℕ) (used : List ℕ) (step n slice : ℕ)
    → 0 < count
    → walk start count used step n ≡ some slice
    → (is_used slice used ≡ false) × (slice < count)
unfolding walk
walk-some start count used step zero slice positive h = ground arith
walk-some start count used step (suc n) slice positive h =
    elim (Bool-cases (is_used ((start + step) % count) used)) [
      | inl e ↦ walk-some start count used (suc step) n slice positive (ground arith)
      | inr e ↦ ground (
        arith,
        ap (λ s. is_used s used) {x = (start + step) % count} {y = slice},
        mod-lt (start + step) positive,
      )
    ]

add_zero : (n : ℕ) → n + 0 ≡ n
add_zero n = omega arith

add_suc : (n k : ℕ) → n + suc k ≡ suc n + k
add_suc n k = omega arith

-- the loop fails only where every slice that it tries is used
walk-none :
    (start count : ℕ) (used : List ℕ) (step n k : ℕ)
    → walk start count used step n ≡ none
    → k < n
    → is_used ((start + (step + k)) % count) used ≡ true
unfolding walk
walk-none start count used step (suc n) zero h small =
    ap (λ s. is_used ((start + s) % count) used) (add_zero step) ∙ ground arith
walk-none start count used step (suc n) (suc k) h small =
    ap (λ s. is_used ((start + s) % count) used) (add_suc step k)
    ∙ walk-none start count used (suc step) n k (ground arith) (omega (arith, small))
walk-none start count used step zero k h small = ground (arith, small)

-- The slice after the start that is `distance` steps away, in a circle of `count`.
abbrev distance : ℕ → ℕ → ℕ → ℕ
distance start count slice = if leb start slice then slice - start else slice + count - start

distance_lem :
    (start count slice : ℕ)
    → start < count
    → slice < count
    → ((start + (0 + distance start count slice)) % count ≡ slice)
      × (distance start count slice < count)
distance_lem start count slice hs h = elim (Bool-cases (leb start slice)) [
  | inl e ↦ rw e (
    ap (λ n. n % count) (omega (arith, leb→le start slice e)) ∙ mod-eq_of_lt h,
    omega (arith, leb→le start slice e, h),
  )
  | inr e ↦ rw e (
    ap (λ n. n % count) (ground arith) ∙ add-mod_right slice count ∙ mod-eq_of_lt h,
    ground arith,
  )
]

not_zero : (n : ℕ) → (n == 0) ≡ false → 0 < n
not_zero n h = ground arith

all_used :
    (pool : Ipv4Network) (s : Slices) (start slice : ℕ)
    → walk start (slice_count pool) s.used 0 (slice_count pool) ≡ none
    → start < slice_count pool
    → slice < slice_count pool
    → is_used slice s.used ≡ true
all_used pool s start slice stuck hs h =
    let (there, near) = distance_lem start (slice_count pool) slice hs h in
    ap (λ k. is_used k s.used) (sym there)
    ∙ walk-none start (slice_count pool) s.used 0 (slice_count pool)
        (distance start (slice_count pool) slice) stuck near

-- `free_slice` gives a slice of the pool that nobody uses, and fails only where every slice of
-- the pool is used.
pub free_slice_lem :
    (digest : Text → ℕ) (pool : Ipv4Network) (w : Text) (s : Slices)
    → ((slice : ℕ) × (free_slice digest pool w s ≡ (some slice, claim slice s))
        × (is_used slice s.used ≡ false)
        × (slice < slice_count pool))
      ⊎ ((free_slice digest pool w s ≡ (none, s))
          × ((slice : ℕ) → slice < slice_count pool → is_used slice s.used ≡ true))
unfolding free_slice slice_index
free_slice_lem digest pool w s = elim (Bool-cases (slice_count pool == 0)) [
  | inl e ↦ inr (rw e refl, λ slice h. ground (arith, h))
  | inr e ↦
      let start = slice_index digest pool w (slice_count pool) in
      elim (Option-cases (walk start (slice_count pool) s.used 0 (slice_count pool))) [
        | inl stuck ↦ inr (
          rw (e, stuck) refl,
          λ slice h.
              all_used pool s start slice stuck (mod-lt (digest w) (not_zero (slice_count pool) e))
                h,
        )
        | inr (slice, found) ↦ inl (
          slice,
          rw (e, found) refl,
          (walk-some start (slice_count pool) s.used 0 (slice_count pool) slice
              (not_zero (slice_count pool) e) found).0,
          (walk-some start (slice_count pool) s.used 0 (slice_count pool) slice
              (not_zero (slice_count pool) e) found).1,
        )
      ]
]

-- The results of a claim: a slice that nobody used, which is used from then on and which the row of
-- the workspace records; an error that changes nothing; or, where the write of the row raises, an
-- error that leaves one more slice used and records nothing.
abbrev pub Claimed : Bool → Text → Slices → Option ℕ × Slices → Type 0
Claimed raises w s r =
    ((slice : ℕ) × (r.0 ≡ some slice)
      × (is_used slice s.used ≡ false)
      × (r.1.used ≡ slice ∷ s.used)
      × (get w r.1.recorded ≡ some slice))
    ⊎ ((r ≡ (none, s))
        ⊎ ((slice : ℕ) × (raises ≡ true)
            × (get w s.recorded ≡ none)
            × (is_used slice s.used ≡ false)
            × (r ≡ (none, claim slice s))))

claim_live-Claimed :
    (raises : Bool) (w : Text) (s : Slices) (slice : ℕ)
    → get w s.recorded ≡ some slice
    → Claimed raises w s (claim_live slice s)
unfolding claim_live
claim_live-Claimed raises w s slice e = elim (Bool-cases (is_used slice s.used)) [
  | inl taken ↦ inr (inl (rw taken refl))
  | inr free ↦ inl (slice, rw free refl, free, rw free refl, rw free e)
]

record_claim-Claimed :
    (raises : Bool) (w : Text) (s : Slices)
    → get w s.recorded ≡ none
    → (r : Option ℕ × Slices)
    → ((slice : ℕ) × (r ≡ (some slice, claim slice s)) × (is_used slice s.used ≡ false))
      ⊎ (r ≡ (none, s))
    → Claimed raises w s (record_claim raises w r)
record_claim-Claimed raises w s e r (inr stuck) = rw stuck (inr (inl refl))
record_claim-Claimed true w s e r (inl (slice, found, free)) =
    rw found (inr (inr (slice, refl, e, free, refl)))
record_claim-Claimed false w s e r (inl (slice, found, free)) =
    rw found (inl (slice, refl, free, refl, get-put w w slice s.recorded ∙ rw (beq_refl w) refl))

pub claim_slice-Claimed :
    (digest : Text → ℕ) (pool : Ipv4Network) (raises : Bool) (w : Text) (s : Slices)
    → Claimed raises w s (claim_slice digest pool raises w s)
unfolding claim_slice
claim_slice-Claimed digest pool raises w s = by_record (get w s.recorded) refl
  where
    by_record :
        (o : Option ℕ)
        → get w s.recorded ≡ o
        → Claimed raises w s (elim o as (λ x. Option ℕ × Slices) [
          | some slice ↦ claim_live slice s
          | none ↦ record_claim raises w (free_slice digest pool w s)
        ])
    by_record (some kept) e = claim_live-Claimed raises w s kept e
    by_record none e =
        record_claim-Claimed raises w s e (free_slice digest pool w s)
          (elim (free_slice_lem digest pool w s) [
            | inl (new, found, free, small) ↦ inl (new, found, free)
            | inr (stuck, all) ↦ inr stuck
          ])

live_again :
    (new slice : ℕ) (s : Slices)
    → some new ≡ some slice
    → is_used slice s.used ≡ false
    → (claim_live new s).0 ≡ some slice
unfolding claim_live
live_again new slice s e free =
    ground (arith, ap (λ k. is_used k s.used) {x = new} {y = slice}, e, free)

-- A workspace keeps its slice: after a claim that succeeds and any changes to the live slices
-- that leave its own free again, the next claim gives the same slice.
pub claim_slice-again :
    (digest : Text → ℕ) (pool : Ipv4Network) (raises again : Bool) (w : Text) (s : Slices)
    (slice : ℕ) (used : List ℕ)
    → (claim_slice digest pool raises w s).0 ≡ some slice
    → is_used slice used ≡ false
    → (claim_slice digest pool again w
        (record (claim_slice digest pool raises w s).1 { used = used })).0
      ≡ some slice
unfolding claim_slice claim_live
claim_slice-again digest pool raises again w s slice used h free =
    elim (claim_slice-Claimed digest pool raises w s) [
      | inl (new, e, fresh, marked, kept) ↦
          rw (kept, claim_slice) (live_again new slice _ (sym e ∙ h) free)
      | inr (inl e) ↦ ground (arith, h, ap (λ r. r.0) e)
      | inr (inr (new, failed, unrecorded, fresh, e)) ↦ ground (arith, h, ap (λ r. r.0) e)
    ]
