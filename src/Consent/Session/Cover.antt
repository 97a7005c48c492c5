-- ===== src/Consent/Session/Cover.antt =====
-- The scan of the session memory against two exact lookups.
use msks.Prelude.{
  ℕ, ◌-◌, Option, none, some, [], ◌∷◌, Text, text_eq_iff, ltb, if◌then◌else◌, ◌≡◌, refl, arith,
}
use msks.Prelude.Dict.{get, IsDict}
use msks.Consent.Session.{dest_key, Entries, max_opt, matches}

-- What an entry's expiry is worth at a time.
abbrev pub live : ℕ → Option ℕ → Option ℕ
live now none = none
live now (some expire) = if ltb now expire then some (expire - now) else none

max_opt_comm : (a b : Option ℕ) → max_opt a b ≡ max_opt b a
max_opt_comm none none = refl
max_opt_comm none (some b) = refl
max_opt_comm (some a) none = refl
max_opt_comm (some a) (some b) = ground arith

-- The best remaining time over all entries is that of the two entries that can cover the port: the
-- host's entry for all ports and its entry for this one.
pub matches_lem :
    (entries : Entries) (host : Text) (port now : ℕ)
    → IsDict entries
    → matches entries host port now
      ≡ max_opt (live now (get (host, none) entries)) (live now (get (host, some port) entries))
unfolding matches get
matches_lem [] host port now d = refl
matches_lem (((h, none), expire) ∷ entries) host port now d =
    ground (arith, text_eq_iff h host, matches_lem entries host port now d.1, d.0)
matches_lem (((h, some p), expire) ∷ entries) host port now d = ground (
  arith,
  text_eq_iff h host,
  matches_lem entries host port now d.1,
  d.0,
  max_opt_comm (live now (get (host, none) entries)) (live now (some expire)),
)
