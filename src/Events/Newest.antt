-- ===== src/Events/Newest.antt =====
-- What a subscriber of the hub (src/msks/msks/events.py) finds in its queue, and when a shutdown fails.
use msks.Prelude.{
  ℕ, suc, ◌-◌, ◌≤◌, Bool, some, List, [], ◌∷◌, ◌++◌, append-nil, append_assoc, Text, length,
  length-append, drop, ltb, leb, leb→le, all, ◌≡◌, refl, sym, ap, ◌∙◌, arith, Bool-cases, inl, inr,
  length-drop, map, if◌then◌else◌,
}
use msks.Prelude.Dict.{get}
use msks.Consent.Deciders.{client_key}
use msks.Events.{queue_max, Queue, Hub, deliver, broadcast, publish_all, put_nowait, close_all}

-- The last `n` elements.
abbrev pub newest : ℕ → Queue → Queue
newest n queue = drop (length queue - n) queue

suc_sub : (a n : ℕ) → n ≤ a → suc a - n ≡ suc (a - n)
suc_sub a n h = omega (arith, h)

newest-cons : (n : ℕ) (x : Text) (xs : Queue) → n ≤ length xs → newest n (x ∷ xs) ≡ newest n xs
newest-cons n x xs h = ap (λ k. drop k (x ∷ xs)) (suc_sub (length xs) n h)

sub_zero : (a n : ℕ) → a ≤ n → a - n ≡ 0
sub_zero a n h = omega (arith, h)

newest-all : (n : ℕ) (xs : Queue) → length xs ≤ n → newest n xs ≡ xs
newest-all n xs h = ap (λ k. drop k xs) (sub_zero (length xs) n h)

newest-newest : (n : ℕ) (xs ys : Queue) → newest n (newest n xs ++ ys) ≡ newest n (xs ++ ys)
newest-newest n [] ys = ap (λ q. newest n (q ++ ys)) (newest-all n [] (omega arith))
newest-newest n (x ∷ xs) ys = elim (Bool-cases (leb n (length xs))) [
  | inl e ↦
      ap (λ q. newest n (q ++ ys)) (newest-cons n x xs (leb→le n (length xs) e))
      ∙ newest-newest n xs ys
      ∙ sym
          (newest-cons n x (xs ++ ys) (omega (arith, leb→le n (length xs) e, length-append xs ys)))
  | inr e ↦ ap (λ q. newest n (q ++ ys)) (newest-all n (x ∷ xs) (ground (arith, e)))
]

sub_one : (a n : ℕ) → a ≡ suc n → a - n ≡ 1
sub_one a n h = omega (arith, h)

oldest_gone :
    (p : Text) (queue : Queue)
    → length queue ≡ queue_max
    → drop 1 queue ++ p ∷ [] ≡ newest queue_max (queue ++ p ∷ [])
oldest_gone p [] h = ground (arith, h)
oldest_gone p (x ∷ xs) h = sym (
    ap (λ k. drop k ((x ∷ xs) ++ p ∷ []))
      (sub_one (length ((x ∷ xs) ++ p ∷ [])) queue_max
        (omega (arith, h, length-append xs (p ∷ [])))))

-- A delivery leaves the newest payloads.
deliver-newest :
    (queue : Queue) (p : Text)
    → length queue ≤ queue_max
    → deliver queue p ≡ newest queue_max (queue ++ p ∷ [])
unfolding deliver
deliver-newest queue p h = elim (Bool-cases (ltb (length queue) queue_max)) [
  | inl room ↦
      rw (room, deliver)
        (sym (
          newest-all queue_max (queue ++ p ∷ [])
            (ground (arith, length-append queue (p ∷ []), room))))
  | inr full ↦ rw (full, deliver) (oldest_gone p queue (ground (arith, full, h)))
]

length-newest : (n : ℕ) (xs : Queue) → length (newest n xs) ≤ n
length-newest n xs = omega (arith, length-drop (length xs - n) xs)

get-broadcast :
    (client : ℕ) (p : Text) (hub : Hub) (queue : Queue)
    → get client hub ≡ some queue
    → get client (broadcast p hub) ≡ some (deliver queue p)
unfolding broadcast get
get-broadcast client p [] queue h = ground arith
get-broadcast client p ((c, q) ∷ hub) queue h = ground (arith, get-broadcast client p hub queue)

newest-step :
    (queue : Queue) (p : Text) (ps : List Text)
    → newest queue_max (newest queue_max (queue ++ p ∷ []) ++ ps)
      ≡ newest queue_max (queue ++ p ∷ ps)
newest-step queue p ps =
    newest-newest queue_max (queue ++ p ∷ []) ps
    ∙ ap (newest queue_max) (append_assoc queue (p ∷ []) ps)

-- A subscriber that reads nothing while any number of payloads are published finds the newest 100 of
-- its queue and the payloads, in order: the oldest are dropped, and no publish fails.
pub get-publish_all :
    (client : ℕ) (payloads : List Text) (hub : Hub) (queue : Queue)
    → length queue ≤ 100
    → get client hub ≡ some queue
    → get client (publish_all payloads hub) ≡ some (newest 100 (queue ++ payloads))
unfolding publish_all
get-publish_all client [] hub queue small h =
    h ∙ ap some (sym (ap (newest 100) (append-nil queue) ∙ newest-all 100 queue small))
get-publish_all client (p ∷ ps) hub queue small h =
    get-publish_all client ps (broadcast p hub) (newest 100 (queue ++ p ∷ []))
      (length-newest 100 (queue ++ p ∷ []))
      (get-broadcast client p hub queue h ∙ ap some (deliver-newest queue p small))
    ∙ ap some (newest-step queue p ps)

abbrev pub has_room : ℕ × Queue → Bool
has_room item = ltb (length item.1) queue_max

-- the subscribers before the first whose queue is full, and the others
abbrev pub before_full : Hub → Hub
before_full [] = []
before_full (item ∷ hub) = if has_room item then item ∷ before_full hub else []

abbrev pub from_full : Hub → Hub
from_full [] = []
from_full (item ∷ hub) = if has_room item then from_full hub else item ∷ hub

-- the queue with the sentinel behind what it holds
abbrev pub woken : ℕ × Queue → ℕ × Queue
woken (client, queue) = (client, queue ++ [] ∷ [])

-- A shutdown ends with no exception exactly when no queue is full. Every subscriber before the first full
-- queue finds the sentinel behind what its queue holds; from the first full queue on, the
-- queues are as they were.
pub close_all-done :
    (hub : Hub) → close_all hub ≡ (all has_room hub, map woken (before_full hub) ++ from_full hub)
unfolding close_all put_nowait all
close_all-done [] = refl
close_all-done ((client, queue) ∷ hub) = ground (arith, close_all-done hub)
