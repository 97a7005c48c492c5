-- ===== src/Events.antt =====
-- The event hub (src/msks/msks/events.py): bounded queues of payloads, one for each subscriber. The hop
-- to another event loop delivers the same payload later and is not modelled.
use msks.Prelude.{
  ℕ, Bool, true, false, Option, none, some, List, [], ◌∷◌, ◌++◌, Text, length, drop, ltb,
  if◌then◌else◌,
}
use msks.Prelude.Dict.{Dict, put, remove}
use msks.Consent.Deciders.{client_key}
pub mod Newest

abbrev pub queue_max : ℕ
queue_max = 100

abbrev pub Queue : Type 0
Queue = List Text

-- `queue.put_nowait`: `none` is `QueueFull`
unfoldable pub put_nowait : Text → Queue → Option Queue
put_nowait payload queue =
    if ltb (length queue) queue_max then some (queue ++ payload ∷ []) else none

-- `deliver`; after the drop of the oldest the second put finds room
unfoldable pub deliver : Queue → Text → Queue
deliver queue payload =
    if ltb (length queue) queue_max then queue ++ payload ∷ [] else drop 1 queue ++ payload ∷ []

-- The queues by subscriber.
abbrev pub Hub : Type 0
Hub = Dict ℕ Queue

unfoldable pub subscribe : ℕ → Hub → Hub
subscribe client hub = put client [] hub

unfoldable pub unsubscribe : ℕ → Hub → Hub
unsubscribe client hub = remove client hub

-- `_broadcast`
unfoldable pub broadcast : Text → Hub → Hub
unfolding deliver
broadcast payload [] = []
broadcast payload ((client, queue) ∷ hub) = (client, deliver queue payload) ∷ broadcast payload hub

-- `publish` of each payload in turn
unfoldable pub publish_all : List Text → Hub → Hub
unfolding broadcast
publish_all [] hub = hub
publish_all (payload ∷ payloads) hub = publish_all payloads (broadcast payload hub)

-- `close_all`: whether it ends with no exception, and the queues; a `QueueFull` leaves the queues
-- that come after as they are.
unfoldable pub close_all : Hub → Bool × Hub
unfolding put_nowait
close_all [] = (true, [])
close_all ((client, queue) ∷ hub) =
    let (done, rest) = close_all hub in
    elim (put_nowait [] queue) [
      | none ↦ (false, (client, queue) ∷ hub)
      | some closed ↦ (done, (client, closed) ∷ rest)
    ]
