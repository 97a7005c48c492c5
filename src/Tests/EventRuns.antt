-- ===== src/Tests/EventRuns.antt =====
-- Runs of the event hub of src/msks/msks/events.py.
use msks.Prelude.{map, some, [], ◌∷◌, ◌++◌, codes, all, ◌≡◌, refl, arith}
use msks.Prelude.Dict.{get}
use msks.Consent.Deciders.{client_key}
use msks.Events.{Hub, publish_all, close_all}
use msks.Events.Newest.{
  newest, has_room, before_full, from_full, woken, get-publish_all, close_all-done,
}

abbrev hub : Hub
hub = (7, codes "a" ∷ []) ∷ (8, []) ∷ []

get-publish_all_example :
    get 7 (publish_all (codes "b" ∷ codes "c" ∷ []) hub)
    ≡ some (newest 100 ((codes "a" ∷ []) ++ (codes "b" ∷ codes "c" ∷ [])))
unfolding get
get-publish_all_example =
    get-publish_all 7 (codes "b" ∷ codes "c" ∷ []) hub (codes "a" ∷ []) (omega arith) refl

close_all-done_example :
    close_all hub ≡ (all has_room hub, map woken (before_full hub) ++ from_full hub)
close_all-done_example = close_all-done hub
