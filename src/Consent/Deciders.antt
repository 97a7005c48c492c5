-- ===== src/Consent/Deciders.antt =====
-- `DeciderRegistry` of src/msks/msks/consent/deciders.py: the workspaces that each events client
-- watches.
use msks.Prelude.{
  ℕ, Bool, false, not, ◌&&◌, ◌||◌, Option, none, some, List, [], ◌∷◌, Text, text_eq, text_eq_iff,
  mem_text, any, count, ◌==◌, ==_iff, ltb, if◌then◌else◌, ◌≡◌, refl, arith, ap, ◌∙◌, Bool-cases,
  inl, inr,
}
use msks.Prelude.Dict.{Eq, Dict, get, put, remove, get-put, get-remove}

instance abbrev pub client_key : Eq ℕ
client_key = record { beq = ◌==◌; beq_iff = ==_iff }

abbrev pub Registry : Type 0
Registry = Dict ℕ (List Text)

abbrev watched_by : Option (List Text) → List Text
watched_by none = []
watched_by (some ws) = ws

-- `watched.add(workspace_id)`
unfoldable pub add_text : Text → List Text → List Text
add_text w ws = if mem_text w ws then ws else w ∷ ws

unfoldable pub register : ℕ → Text → Registry → Registry
unfolding add_text
register client w r = put client (add_text w (watched_by (get client r))) r

unfoldable pub deregister : ℕ → Registry → Registry
deregister client r = remove client r

abbrev pub watches : Text → ℕ × List Text → Bool
watches w item = mem_text w item.1

unfoldable pub has_decider : Text → Registry → Bool
has_decider w = any (watches w)

unfoldable pub watchers : Text → Registry → ℕ
watchers w = count (watches w)

-- A workspace has a decider exactly when somebody watches it.
pub has_decider-watchers : (w : Text) (r : Registry) → has_decider w r ≡ ltb 0 (watchers w r)
unfolding has_decider watchers any count
has_decider-watchers w [] = refl
has_decider-watchers w (item ∷ r) = ground (arith, has_decider-watchers w r)

abbrev pub client_watches : Text → Option (List Text) → Bool
client_watches w none = false
client_watches w (some ws) = mem_text w ws

mem_text-add_text :
    (w v : Text) (ws : List Text) → mem_text v (add_text w ws) ≡ (text_eq v w || mem_text v ws)
unfolding add_text mem_text
mem_text-add_text w v ws = ground (arith, text_eq_iff v w)

client_watches-add_text :
    (w v : Text) (o : Option (List Text))
    → client_watches v (some (add_text w (watched_by o))) ≡ (text_eq v w || client_watches v o)
client_watches-add_text w v none = unfold mem_text in mem_text-add_text w v []
client_watches-add_text w v (some ws) = mem_text-add_text w v ws

-- After a registration a client watches what it watched before and the new workspace; other
-- clients watch the same.
pub client_watches-register :
    (client c : ℕ) (w v : Text) (r : Registry)
    → client_watches v (get c (register client w r))
      ≡ ((client == c && text_eq v w) || client_watches v (get c r))
unfolding register
client_watches-register client c w v r = rw get-put (elim (Bool-cases (client == c)) [
  | inl e ↦ rw e (
      client_watches-add_text w v (get client r)
      ∙ ap (λ k. text_eq v w || client_watches v (get k r)) ((==_iff client c).0 e))
  | inr e ↦ rw e
])

-- After a deregistration the client watches nothing, and other clients watch the same.
pub client_watches-deregister :
    (client c : ℕ) (v : Text) (r : Registry)
    → client_watches v (get c (deregister client r))
      ≡ (not (client == c) && client_watches v (get c r))
unfolding deregister
client_watches-deregister client c v r = rw get-remove (ground arith)
