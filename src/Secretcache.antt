-- ===== src/Secretcache.antt =====
-- `PlaintextCache` of src/msks/msks/secretcache.py. `now` is the clock of a call and `timeout` the live
-- unlock window, both in milliseconds; a deadline of `none` is held by the operators' session.
pub mod Window
use msks.Prelude.{
  Text, ℕ, Bool, Option, ltb, ◌==◌, filter, is_none, ==_iff, ◌+◌, ◌-◌, true, false, not, none, some,
  List, [], ◌∷◌, if◌then◌else◌, length,
}
use msks.Prelude.Dict.{Dict, Eq, get, put, remove, text_key}

instance abbrev pub id_key : Eq ℕ
id_key = record { beq = λ a b. a == b; beq_iff = ==_iff }

abbrev pub Deadline : Type 0
Deadline = Option ℕ

abbrev pub Values : Type 0
Values = Dict Text (Text × Deadline)

abbrev pub Served : Type 0
Served = Dict ℕ Deadline

pub record PlaintextCache : Type 0 where
  pub values : Values
  pub served : Served
  pub operators : ℕ

abbrev pub empty : PlaintextCache
empty = record { values = []; served = []; operators = 0 }

-- `deadline`
abbrev pub deadline : ℕ → ℕ → Deadline
deadline timeout now = if timeout == 0 then none else some (now + timeout)

abbrev pub put_values : Deadline → List (Text × Text) → Values → Values
put_values stamp [] values = values
put_values stamp ((ref, value) ∷ rest) values =
    put_values stamp rest (put ref (value, stamp) values)

unfoldable pub store : ℕ → ℕ → List (Text × Text) → PlaintextCache → PlaintextCache
store timeout now fresh c = record c { values = put_values (deadline timeout now) fresh c.values }

abbrev pub put_served : Deadline → List ℕ → Served → Served
put_served stamp [] served = served
put_served stamp (id ∷ rest) served = put_served stamp rest (put id stamp served)

-- `served`
unfoldable pub mark_served : ℕ → ℕ → List ℕ → PlaintextCache → PlaintextCache
mark_served timeout now ids c = record c { served = put_served (deadline timeout now) ids c.served }

-- `live`, with the number of connected operators
unfoldable pub live : ℕ → Deadline → ℕ → Bool
live operators none now = ltb 0 operators
live operators (some d) now = ltb now d

unfoldable pub operator_connected : PlaintextCache → PlaintextCache
operator_connected c = record c { operators = c.operators + 1 }

abbrev pub is_dated : Deadline → Bool
is_dated d = not (is_none d)

unfoldable pub drop_session_entries : PlaintextCache → PlaintextCache
drop_session_entries c = record c {
  values = filter (λ item. is_dated item.1.1) c.values;
  served = filter (λ item. is_dated item.1) c.served;
}

unfoldable pub operator_disconnected : PlaintextCache → PlaintextCache
unfolding drop_session_entries
operator_disconnected c =
    let fewer = record c { operators = c.operators - 1 } in
    if fewer.operators == 0 then drop_session_entries fewer else fewer

abbrev pub read_entry :
    ℕ → Text → Option (Text × Deadline) → PlaintextCache → Option Text × PlaintextCache
read_entry now ref none c = (none, c)
read_entry now ref (some (value, stamp)) c =
    if live c.operators stamp now
    then (some value, c)
    else (none, record c { values = remove ref c.values })

-- `read`; `none` is the `SecretLockedError`
unfoldable pub read : ℕ → Text → PlaintextCache → Option Text × PlaintextCache
unfolding live
read now ref c = read_entry now ref (get ref c.values) c

unfoldable pub knows : ℕ → Text → PlaintextCache → Bool × PlaintextCache
unfolding read
knows now ref c = (not (is_none (read now ref c).0), (read now ref c).1)

abbrev pub alive_entry : ℕ → ℕ → Option Deadline → PlaintextCache → Bool × PlaintextCache
alive_entry now id none c = (false, c)
alive_entry now id (some stamp) c =
    if live c.operators stamp now
    then (true, c)
    else (false, record c { served = remove id c.served })

unfoldable pub served_alive : ℕ → ℕ → PlaintextCache → Bool × PlaintextCache
unfolding live
served_alive now id c = alive_entry now id (get id c.served) c

-- the entries that `flush_expired` keeps, and how many it drops
unfoldable pub flush_expired : ℕ → PlaintextCache → ℕ × PlaintextCache
unfolding live
flush_expired now c = (
  length (filter (λ item. not (live c.operators item.1.1 now)) c.values)
      + length (filter (λ item. not (live c.operators item.1 now)) c.served),
  record c {
    values = filter (λ item. live c.operators item.1.1 now) c.values;
    served = filter (λ item. live c.operators item.1 now) c.served;
  },
)

unfoldable pub clear : PlaintextCache → PlaintextCache
clear c = record c { values = []; served = [] }

abbrev pub remove_all {ℓ} : {K V : Type ℓ} → ⦃e : Eq K⦄ → List K → Dict K V → Dict K V
remove_all [] d = d
remove_all (k ∷ keys) d = remove_all keys (remove k d)

unfoldable pub forget : List Text → List ℕ → PlaintextCache → PlaintextCache
forget refs ids c = record c { values = remove_all refs c.values; served = remove_all ids c.served }
