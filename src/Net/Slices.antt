-- ===== src/Net/Slices.antt =====
-- The address slices of src/msks/msks/net/alloc.py, and how src/msks/msks/net/manager.py claims them.
use msks.Prelude.{
  ℕ, zero, suc, ◌+◌, ◌-◌, ◌*◌, ◌/◌, ◌%◌, ◌^◌, Bool, not, Option, none, some, List, ◌∷◌, Text,
  length, take, ltb, ◌==◌, if◌then◌else◌, any, filter, codes, ◌++◌,
}
use msks.Prelude.Dict.{Dict, get, put, text_key}
use msks.Egress.Address.{Ipv4Network}
pub mod Layout
pub mod Claims

abbrev pub slice_prefix : ℕ
slice_prefix = 30

abbrev pub ifnamsiz : ℕ
ifnamsiz = 16

-- `pool.num_addresses`
abbrev pub num_addresses : Ipv4Network → ℕ
num_addresses pool = 2 ^ (32 - pool.prefixlen)

unfoldable pub slice_count : Ipv4Network → ℕ
slice_count pool = num_addresses pool / 4

-- `IPv4Network((base, 30))` raises where a host bit is set or the address is past 32 bits.
unfoldable pub slice_net : Ipv4Network → ℕ → Option Ipv4Network
slice_net pool index =
    let base = pool.address + index * 4 in
    if base % 2 ^ (32 - slice_prefix) == 0
    then (if ltb base (2 ^ 32)
        then some (record { address = base; prefixlen = slice_prefix })
        else none)
    else none

abbrev pub guest_addr : Ipv4Network → ℕ
guest_addr net = net.address + 1

abbrev pub tap_addr : Ipv4Network → ℕ
tap_addr net = net.address + 2

-- `digest_of` is the hexadecimal digest of a workspace, which the code takes from SHA-256; `digest`
-- is the number that its first eight bytes are.
module _ (digest_of : Text → Text) where
  -- `none` is the failed assertion
  unfoldable pub tap_name : Text → Option Text
  tap_name w =
      let name = codes "msks-" ++ take 10 (digest_of w) in
      if ltb (length name) ifnamsiz then some name else none

  unfoldable pub table_name : Text → Text
  table_name w = codes "msks-e-" ++ take 10 (digest_of w)

abbrev pub is_used : ℕ → List ℕ → Bool
is_used slice used = any (λ s. s == slice) used

-- the loop of `free_slice` from `step` on, for `n` more steps
unfoldable pub walk : ℕ → ℕ → List ℕ → ℕ → ℕ → Option ℕ
walk start count used step zero = none
walk start count used step (suc n) =
    let rest = walk start count used (suc step) n in
    let candidate = (start + step) % count in
    if is_used candidate used then rest else some candidate

-- The live slices of the manager, and the slices that the workspace rows record.
pub record Slices : Type 0 where
  pub used : List ℕ
  pub recorded : Dict Text ℕ

abbrev pub claim : ℕ → Slices → Slices
claim slice s = record s { used = slice ∷ s.used }

-- `_claim_live`
unfoldable pub claim_live : ℕ → Slices → Option ℕ × Slices
claim_live slice s = if is_used slice s.used then (none, s) else (some slice, claim slice s)

-- The write of a fresh slice on the row. Where it raises, the slice stays marked as used.
abbrev pub record_claim : Bool → Text → Option ℕ × Slices → Option ℕ × Slices
record_claim raises w (none, s) = (none, s)
record_claim raises w (some slice, s) =
    if raises then (none, s) else (some slice, record s { recorded = put w slice s.recorded })

module _ (digest : Text → ℕ) (pool : Ipv4Network) where
  -- `slice_index`
  unfoldable pub slice_index : Text → ℕ → ℕ
  slice_index w count = digest w % count

  -- `none` is `ZeroDivisionError` for an empty pool, or the error of an exhausted pool
  unfoldable pub free_slice : Text → Slices → Option ℕ × Slices
  unfolding walk slice_index slice_count
  free_slice w s =
      let count = slice_count pool in
      if count == 0 then (none, s) else elim (walk (slice_index w count) count s.used 0 count) [
        | none ↦ (none, s)
        | some slice ↦ (some slice, claim slice s)
      ]

  -- `claim_slice`; `raises` says whether `set_egress_slice` raises
  unfoldable pub claim_slice : Bool → Text → Slices → Option ℕ × Slices
  unfolding free_slice claim_live
  claim_slice raises w s = elim (get w s.recorded) [
    | some slice ↦ claim_live slice s
    | none ↦ record_claim raises w (free_slice w s)
  ]

-- The `discard` of a detach, or of a boot that fails.
unfoldable pub release_slice : ℕ → Slices → Slices
release_slice slice s = record s { used = filter (λ u. not (u == slice)) s.used }

abbrev pub queue_max : ℕ
queue_max = 65535

-- `queue_for`: `none` is the error of a pool that is too large
unfoldable pub queue_for : ℕ → ℕ → Option ℕ
queue_for queue_base slice =
    if ltb queue_max (queue_base + slice) then none else some (queue_base + slice)
