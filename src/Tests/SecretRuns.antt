-- ===== src/Tests/SecretRuns.antt =====
-- Runs of src/msks/msks/secretcache.py.
use msks.Prelude.{codes, text_eq, none, some, [], ◌∷◌, ◌≡◌, refl, arith}
use msks.Prelude.Dict.{get, put, text_key}
use msks.Secretcache.{
  PlaintextCache, empty, store, read, operator_connected, operator_disconnected, live,
}
use msks.Secretcache.Window.{connects, read-store, read-operator_disconnected}

-- Under a window of ten seconds a value reads until then.
read-store_example :
    (read 14999 (codes "r") (connects 1 (store 10000 5000 ((codes "r", codes "v") ∷ []) empty))).0
    ≡ some (codes "v")
unfolding text_eq operator_connected
read-store_example = read-store 10000 5000 14999 1 (codes "r") ((codes "r", codes "v") ∷ []) empty

-- Under a window of zero, a value that is stored while no operator is connected reads once one connects.
stored_early :
    (read 9000
      (codes "r")
      (operator_connected (store 0 5000 ((codes "r", codes "v") ∷ []) empty))).0
    ≡ some (codes "v")
unfolding store operator_connected read live get put text_eq
stored_early = refl

abbrev session_held : PlaintextCache
session_held = record { values = (codes "r", (codes "v", none)) ∷ []; served = []; operators = 1 }

read-operator_disconnected_example :
    (read 9000 (codes "r") (operator_connected (operator_disconnected session_held))).0 ≡ none
unfolding get text_eq
read-operator_disconnected_example =
    read-operator_disconnected 9000 (codes "r") (codes "v") session_held (refl, tt) (omega arith)
      refl
