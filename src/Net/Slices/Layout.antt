-- ===== src/Net/Slices/Layout.antt =====
-- The addresses of the slices of a pool, and the length of the names (src/msks/msks/net/alloc.py).
use msks.Prelude.{
  ℕ, ◌+◌, ◌*◌, ◌%◌, ◌^◌, ◌≤◌, ◌<◌, ◌≢◌, ◌⊎◌, true, some, Text, length, take, ltb, codes, ◌++◌, ◌≡◌,
  refl, arith, length-take, lt→ltb,
}
use msks.Egress.Address.{Ipv4Network}
use msks.Net.Slices.{slice_prefix, num_addresses, slice_count, slice_net, tap_name}

-- A pool as the settings give it: a network with no host bit set, with room for a slice. `size` is
-- the number of its slices.
pub record IsPool (pool : Ipv4Network) (size : ℕ) : Type 0 where
  pub room : num_addresses pool ≡ size * 4
  pub aligned : pool.address % 4 ≡ 0
  pub inside : pool.address + size * 4 ≤ 2 ^ 32

slice_count-pool : (pool : Ipv4Network) (size : ℕ) → IsPool pool size → slice_count pool ≡ size
unfolding slice_count
slice_count-pool pool size p = rw p.room (omega arith)

-- the slice with a number that the pool has
abbrev pub slice_at : Ipv4Network → ℕ → Ipv4Network
slice_at pool index = record { address = pool.address + index * 4; prefixlen = slice_prefix }

aligned_base : (base index : ℕ) → base % 4 ≡ 0 → (base + index * 4) % 4 ≡ 0
aligned_base base index h = omega (arith, h)

inside_base :
    (pool : Ipv4Network) (size index : ℕ)
    → IsPool pool size
    → index < size
    → ltb (pool.address + index * 4) (2 ^ 32) ≡ true
inside_base pool size index p small = lt→ltb _ _ (omega (arith, p.inside, small))

pub slice_net-pool :
    (pool : Ipv4Network) (size index : ℕ)
    → IsPool pool size
    → index < size
    → slice_net pool index ≡ some (slice_at pool index)
unfolding slice_net
slice_net-pool pool size index p small =
    ground (arith, aligned_base pool.address index p.aligned, inside_base pool size index p small)

-- The address ranges of two networks do not meet.
abbrev pub Apart : Ipv4Network → Ipv4Network → Type 0
Apart m n = (m.address + num_addresses m ≤ n.address) ⊎ (n.address + num_addresses n ≤ m.address)

-- The addresses of a network lie in the pool.
abbrev pub In : Ipv4Network → Ipv4Network → Type 0
In m pool =
    (pool.address ≤ m.address) × (m.address + num_addresses m ≤ pool.address + num_addresses pool)

-- In a pool whose network has no host bit and room for `size` slices, every index below `size` gives
-- a slice (the constructor of the network never raises) that lies in the pool, and the
-- slices of two indexes share no address.
pub slice_net-Apart :
    (pool : Ipv4Network) (size i j : ℕ)
    → IsPool pool size
    → i < size
    → j < size
    → i ≢ j
    → (m : Ipv4Network) × (n : Ipv4Network) × (slice_net pool i ≡ some m)
      × (slice_net pool j ≡ some n)
      × Apart m n
      × In m pool
      × In n pool
slice_net-Apart pool size i j p hi hj differ = (
  slice_at pool i,
  slice_at pool j,
  slice_net-pool pool size i p hi,
  slice_net-pool pool size j p hj,
  omega (arith, differ),
  (omega arith, omega (arith, p.room, hi)),
  (omega arith, omega (arith, p.room, hj)),
)

length-name : (digest : Text) → 10 ≤ length digest → length (codes "msks-" ++ take 10 digest) ≡ 15
length-name digest long = omega (arith, length-take 10 digest)

-- A workspace whose digest has ten characters or more, as every SHA-256 digest has, gets a tap name
-- of 15 characters: the assertion of the code holds.
pub tap_name_lem :
    (digest_of : Text → Text) (w : Text)
    → 10 ≤ length (digest_of w)
    → (name : Text) × (tap_name digest_of w ≡ some name) × (length name ≡ 15)
unfolding tap_name
tap_name_lem digest_of w long = (
  codes "msks-" ++ take 10 (digest_of w),
  rw (length-name (digest_of w) long) refl,
  length-name (digest_of w) long,
)
