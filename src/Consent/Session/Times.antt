-- ===== src/Consent/Session/Times.antt =====
-- What each verdict, revocation and stop does to the remaining time of every destination.
use msks.Prelude.{
  ℕ, ◌+◌, Bool, true, false, ◌&&◌, Option, none, some, Text, text_eq, if◌then◌else◌, ◌≡◌, refl, ◌∙◌,
  arith, max,
}
use msks.Prelude.Dict.{remove, text_key}
use msks.Consent.Session.{
  dest_key, Memory, SessionMemory, max_opt, covers_port, or_zero, allow_ttl, deny_ttl, entries_of,
  remember, allow, deny, forget_in, forget, clear,
}
use msks.Consent.Session.Cover.{live, matches_lem}
use msks.Consent.Session.Store.{
  lookup, lookup-remember, lookup-forget_in, lookup-remove, IsMemory, allow-IsMemory, deny-IsMemory,
  forget-IsMemory, clear-IsMemory,
}

-- The remaining time of a destination, by the two lookups that can cover it.
unfoldable pub ttl_of : Memory → Text → Text → ℕ → ℕ → Option ℕ
ttl_of table w h q t =
    max_opt (live t (lookup table w (h, none))) (live t (lookup table w (h, some q)))

allow_ttl_lem :
    (s : SessionMemory) (w h : Text) (q t : ℕ)
    → IsMemory s
    → allow_ttl s w h q t ≡ ttl_of s.allows w h q t
unfolding allow_ttl ttl_of lookup
allow_ttl_lem s w h q t m = matches_lem (entries_of w s.allows) h q t (m.allows w)

deny_ttl_lem :
    (s : SessionMemory) (w h : Text) (q t : ℕ)
    → IsMemory s
    → deny_ttl s w h q t ≡ ttl_of s.denies w h q t
unfolding deny_ttl ttl_of lookup
deny_ttl_lem s w h q t m = matches_lem (entries_of w s.denies) h q t (m.denies w)

-- A refreshed entry is worth the better of its old time and the verdict's.
live-max :
    (t e : ℕ) (o : Option ℕ)
    → live t (some (max (or_zero o) e)) ≡ max_opt (live t (some e)) (live t o)
live-max t e none = ground arith
live-max t e (some a) = ground arith

ttl_of-remember :
    (table : Memory) (w w' h h' : Text) (p : Option ℕ) (ttl now q t : ℕ)
    → ttl_of (remember table w h p ttl now) w' h' q t ≡ (
        if text_eq w w' && text_eq h h' && covers_port p q
        then max_opt (live t (some (now + ttl))) (ttl_of table w' h' q t)
        else ttl_of table w' h' q t)
unfolding ttl_of
ttl_of-remember table w w' h h' none ttl now q t =
    rw
      (
        lookup-remember table w w' h none ttl now (h', none),
        lookup-remember table w w' h none ttl now (h', some q),
      )
      (ground (arith, live-max t (now + ttl) (lookup table w' (h', none))))
ttl_of-remember table w w' h h' (some p) ttl now q t =
    rw
      (
        lookup-remember table w w' h (some p) ttl now (h', none),
        lookup-remember table w w' h (some p) ttl now (h', some q),
      )
      (ground (arith, live-max t (now + ttl) (lookup table w' (h', some q))))

ttl_of-forget_in :
    (table : Memory) (w w' h h' : Text) (q t : ℕ)
    → ttl_of (forget_in table w h) w' h' q t
      ≡ (if text_eq w w' && text_eq h' h then none else ttl_of table w' h' q t)
unfolding ttl_of
ttl_of-forget_in table w w' h h' q t =
    ground
      (arith, lookup-forget_in table w w' h (h', none), lookup-forget_in table w w' h (h', some q))

ttl_of-remove :
    (table : Memory) (w w' h : Text) (q t : ℕ)
    → ttl_of (remove w table) w' h q t ≡ (if text_eq w w' then none else ttl_of table w' h q t)
unfolding ttl_of
ttl_of-remove table w w' h q t =
    ground (arith, lookup-remove table w w' (h, none), lookup-remove table w w' (h, some q))

-- The change that a verdict for one destination makes to a remaining time.
abbrev pub raised : Bool → ℕ → ℕ → Option ℕ → Option ℕ
raised true expire t old = max_opt (live t (some expire)) old
raised false expire t old = old

module _ (s : SessionMemory) (w w' h h' : Text) (q t : ℕ) (m : IsMemory s) where
  -- In a memory whose tables are dicts, an allow for a name and port (or all ports) raises the
  -- remaining time of exactly the destinations it covers, to its own if that is better, and leaves
  -- every other one and all denies.
  pub ttl-allow :
      (p : Option ℕ) (ttl now : ℕ)
      → (allow_ttl (allow s w h p ttl now) w' h' q t
          ≡ raised
              (text_eq w w' && text_eq h h' && covers_port p q)
              (now + ttl)
              t
              (allow_ttl s w' h' q t))
        × (deny_ttl (allow s w h p ttl now) w' h' q t ≡ deny_ttl s w' h' q t)
  unfolding allow deny_ttl
  ttl-allow p ttl now = (
    allow_ttl_lem _ w' h' q t (allow-IsMemory s w h p ttl now m)
        ∙ ground
            (arith, ttl_of-remember s.allows w w' h h' p ttl now q t, allow_ttl_lem s w' h' q t m),
    refl,
  )

  -- In a memory whose tables are dicts, a deny for a name and port (or all ports) raises the
  -- remaining time of exactly the denied destinations it covers, to its own if that is better, and
  -- leaves every other one and all allows.
  pub ttl-deny :
      (p : Option ℕ) (ttl now : ℕ)
      → (deny_ttl (deny s w h p ttl now) w' h' q t
          ≡ raised
              (text_eq w w' && text_eq h h' && covers_port p q)
              (now + ttl)
              t
              (deny_ttl s w' h' q t))
        × (allow_ttl (deny s w h p ttl now) w' h' q t ≡ allow_ttl s w' h' q t)
  unfolding deny allow_ttl
  ttl-deny p ttl now = (
    deny_ttl_lem _ w' h' q t (deny-IsMemory s w h p ttl now m)
        ∙ ground
            (arith, ttl_of-remember s.denies w w' h h' p ttl now q t, deny_ttl_lem s w' h' q t m),
    refl,
  )

  -- In a memory whose tables are dicts, a revocation ends every verdict on the name in its workspace, on every port, and no other.
  pub ttl-forget :
      (allow_ttl (forget s w h) w' h' q t
        ≡ (if text_eq w w' && text_eq h' h then none else allow_ttl s w' h' q t))
      × (deny_ttl (forget s w h) w' h' q t
          ≡ (if text_eq w w' && text_eq h' h then none else deny_ttl s w' h' q t))
  unfolding forget
  ttl-forget = (
    allow_ttl_lem _ w' h' q t (forget-IsMemory s w h m)
        ∙ ground (arith, ttl_of-forget_in s.allows w w' h h' q t, allow_ttl_lem s w' h' q t m),
    deny_ttl_lem _ w' h' q t (forget-IsMemory s w h m)
        ∙ ground (arith, ttl_of-forget_in s.denies w w' h h' q t, deny_ttl_lem s w' h' q t m),
  )

  -- In a memory whose tables are dicts, a stop ends every verdict of the workspace and no other.
  pub ttl-clear :
      (allow_ttl (clear s w) w' h' q t ≡ (if text_eq w w' then none else allow_ttl s w' h' q t))
      × (deny_ttl (clear s w) w' h' q t ≡ (if text_eq w w' then none else deny_ttl s w' h' q t))
  unfolding clear
  ttl-clear = (
    allow_ttl_lem _ w' h' q t (clear-IsMemory s w m)
        ∙ ground (arith, ttl_of-remove s.allows w w' h' q t, allow_ttl_lem s w' h' q t m),
    deny_ttl_lem _ w' h' q t (clear-IsMemory s w m)
        ∙ ground (arith, ttl_of-remove s.denies w w' h' q t, deny_ttl_lem s w' h' q t m),
  )
