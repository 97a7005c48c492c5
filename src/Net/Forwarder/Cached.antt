-- ===== src/Net/Forwarder/Cached.antt =====
-- The answer cache of src/msks/msks/net/dns.py: `cache_get` and `cache_put`, and how long an answer
-- is served.
use msks.Prelude.{
  ℕ, suc, ◌+◌, ◌*◌, ◌≤◌, ◌<◌, false, Option, none, some, List, [], ◌∷◌, Text, ◌≡◌, ◌≢◌, refl, sym,
  arith, ltb, leb, if◌then◌else◌, length, drop, text_eq, text_eq_iff, max, min,
}
use msks.Prelude.Dict.{get, put, remove, get-put, text_key}
use msks.Net.Bytes.{Bytes}
use msks.Net.Dnsmsg.{Question, Record}
use msks.Net.Forwarder.{Forwarder, Cache, bounded, cache_max, cache_ttl_floor}

-- The id is not part of the key.
abbrev pub key_of : Question → Bytes
key_of question = drop 2 question.wire

abbrev pub served : ℕ → Bytes → Option (Bytes × ℕ) → Forwarder → Option Bytes × Forwarder
served now key none f = (none, f)
served now key (some (answer, expire)) f =
    if leb expire now then (none, record f { cache = remove key f.cache }) else (some answer, f)

unfoldable pub cache_get : ℕ → Question → Forwarder → Option Bytes × Forwarder
cache_get now question f = served now (key_of question) (get (key_of question) f.cache) f

-- the least time to live of the records, of which `ttl` is the first's
abbrev pub min_ttl : ℕ → List Record → ℕ
min_ttl ttl [] = ttl
min_ttl ttl ((ip, t) ∷ found) = min ttl (min_ttl t found)

abbrev pub expiry : ℕ → ℕ → List Record → ℕ
expiry now ttl found = now + max (min_ttl ttl found * 1000) cache_ttl_floor

unfoldable pub cache_put : ℕ → Question → Bytes → List Record → Forwarder → Forwarder
cache_put now question answer [] f = f
cache_put now question answer ((ip, ttl) ∷ found) f = record f {
  cache = put (key_of question) (answer, expiry now ttl found) (bounded cache_max f.cache);
}

served_until :
    (t : ℕ) (key answer : Bytes) (expire : ℕ) (f : Forwarder)
    → (served t key (some (answer, expire)) f).0 ≡ (if ltb t expire then some answer else none)
served_until t key answer expire f = ground arith

served-same :
    (t : ℕ) (key : Bytes) (o : Option (Bytes × ℕ)) (f g : Forwarder)
    → (served t key o f).0 ≡ (served t key o g).0
served-same t key none f g = refl
served-same t key (some (answer, expire)) f g = ground arith

-- An answer that has addresses is served to every question that differs from its own by the id
-- alone, until its expiry, and never from then on: that is the least time to live of its records, or five
-- seconds where this is less. Every other question of that time is answered as before, unless the
-- cache stood at its bound.
pub cache_get-cache_put :
    (now t : ℕ) (asked question : Question) (answer : Bytes) (ip : Text) (ttl : ℕ)
    (found : List Record) (f : Forwarder)
    → (key_of asked ≡ key_of question
        → (cache_get t asked (cache_put now question answer ((ip, ttl) ∷ found) f)).0
          ≡ (if ltb t (expiry now ttl found) then some answer else none))
      × (key_of asked ≢ key_of question
          → length f.cache < cache_max
          → (cache_get t asked (cache_put now question answer ((ip, ttl) ∷ found) f)).0
            ≡ (cache_get t asked f).0)
unfolding cache_get cache_put
cache_get-cache_put now t asked question answer ip ttl found f = (
  λ same.
      rw
        (
          get-put (key_of question) (key_of asked) (answer, expiry now ttl found)
              (bounded cache_max f.cache),
          (text_eq_iff (key_of question) (key_of asked)).1 (sym same),
        )
        (served_until t (key_of asked) answer (expiry now ttl found)
          (cache_put now question answer ((ip, ttl) ∷ found) f)),
  λ other room.
      rw
        (
          get-put (key_of question) (key_of asked) (answer, expiry now ttl found)
              (bounded cache_max f.cache),
          not_eq (key_of question) (key_of asked) (λ e. other (sym e)),
          within room,
        )
        (served-same t (key_of asked) (get (key_of asked) f.cache) _ f),
)
  where
    not_eq : (a b : Bytes) → a ≢ b → text_eq a b ≡ false
    not_eq a b other = ground (arith, text_eq_iff a b, other)

    within : length f.cache < cache_max → bounded cache_max f.cache ≡ f.cache
    within room = ground (arith, room)

length-put : (key : Bytes) (v : Bytes × ℕ) (d : Cache) → length (put key v d) ≤ suc (length d)
unfolding put
length-put key v [] = omega arith
length-put key v ((k, w) ∷ d) = ground (arith, length-put key v d)

-- The cache never grows past its bound.
pub length-cache_put :
    (now : ℕ) (question : Question) (answer : Bytes) (found : List Record) (f : Forwarder)
    → length f.cache ≤ cache_max
    → length (cache_put now question answer found f).cache ≤ cache_max
unfolding cache_put
length-cache_put now question answer [] f h = h
length-cache_put now question answer ((ip, ttl) ∷ found) f h = ground (
  arith,
  h,
  length-put (key_of question) (answer, expiry now ttl found) (bounded cache_max f.cache),
)
