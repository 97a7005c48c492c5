-- ===== src/Secretcache/Window.antt =====
-- The window of a plaintext in src/msks/msks/secretcache.py.
use msks.Prelude.{
  Text, ℕ, Bool, Option, ltb, ◌==◌, filter, text_eq, text_eq_iff, zero, suc, ◌+◌, ◌-◌, ◌≤◌, true,
  none, some, List, [], ◌∷◌, ◌≡◌, refl, sym, ap, ◌∙◌, inl, inr, arith, if◌then◌else◌, Bool-cases,
  Option-cases,
}
use msks.Prelude.Dict.{get, put, get-put, IsDict, text_key}
use msks.Secretcache.{
  PlaintextCache, Deadline, Values, deadline, put_values, store, live, read, read_entry, is_dated,
  drop_session_entries, operator_connected, operator_disconnected,
}

-- The last value that an unlock supplies for a ref.
abbrev pub last_of : Text → List (Text × Text) → Option Text
last_of ref [] = none
last_of ref ((r, value) ∷ rest) = elim (last_of ref rest) [
  | some v ↦ some v
  | none ↦ if text_eq r ref then some value else none
]

abbrev pub or_before : Option Text → Deadline → Option (Text × Deadline) → Option (Text × Deadline)
or_before none stamp before = before
or_before (some v) stamp before = some (v, stamp)

get-put_values :
    (ref : Text) (stamp : Deadline) (fresh : List (Text × Text)) (values : Values)
    → get ref (put_values stamp fresh values) ≡ or_before (last_of ref fresh) stamp (get ref values)
get-put_values ref stamp [] values = refl
get-put_values ref stamp ((r, value) ∷ rest) values = ground (
  arith,
  get-put_values ref stamp rest (put r (value, stamp) values),
  get-put r ref (value, stamp) values,
)

-- An entry, as far as a read sees it.
abbrev pub seen : ℕ → ℕ → Option (Text × Deadline) → Option Text
seen operators now none = none
seen operators now (some (value, stamp)) = if live operators stamp now then some value else none

read-seen :
    (now : ℕ) (ref : Text) (c : PlaintextCache)
    → (read now ref c).0 ≡ seen c.operators now (get ref c.values)
unfolding read
read-seen now ref c = read_entry-seen (get ref c.values)
  where
    read_entry-seen :
        (o : Option (Text × Deadline)) → (read_entry now ref o c).0 ≡ seen c.operators now o
    read_entry-seen none = refl
    read_entry-seen (some (value, stamp)) = ground arith

seen-deadline :
    (timeout now t operators : ℕ) (v : Text)
    → seen operators t (some (v, deadline timeout now))
      ≡ (if (if timeout == 0 then ltb 0 operators else ltb t (now + timeout)) then some v else none)
unfolding live
seen-deadline timeout now t operators v = elim (Bool-cases (timeout == 0)) [
  | inl e ↦ rw e refl
  | inr e ↦ rw e refl
]

-- some more operators connect, one after the other
abbrev pub connects : ℕ → PlaintextCache → PlaintextCache
connects zero c = c
connects (suc n) c = connects n (operator_connected c)

connects_fields :
    (n : ℕ) (c : PlaintextCache)
    → ((connects n c).operators ≡ c.operators + n) × ((connects n c).values ≡ c.values)
unfolding operator_connected
connects_fields zero c = (omega arith, refl)
connects_fields (suc n) c =
    let (operators, values) = connects_fields n (operator_connected c) in
    (operators ∙ omega arith, values)

read-connects :
    (n t : ℕ) (ref : Text) (c : PlaintextCache)
    → (read t ref (connects n c)).0 ≡ seen (c.operators + n) t (get ref c.values)
read-connects n t ref c =
    let (operators, values) = connects_fields n c in
    read-seen t ref (connects n c)
    ∙ ap (λ k. seen k t (get ref (connects n c).values)) operators
    ∙ ap (λ (v : Values). seen (c.operators + n) t (get ref v)) values

-- After an unlock, and after any number of operators have connected since, a ref that the unlock supplied
-- reads as its last value until the window ends, or with a window of zero exactly when some
-- operator was connected at the unlock or has connected since, and is locked otherwise; every
-- other ref reads as it does with the same connections and no unlock.
pub read-store :
    (timeout now t n : ℕ) (ref : Text) (fresh : List (Text × Text)) (c : PlaintextCache)
    → (read t ref (connects n (store timeout now fresh c))).0 ≡ elim (last_of ref fresh) [
      | some v ↦
          if (if timeout == 0 then ltb 0 (c.operators + n) else ltb t (now + timeout))
          then some v
          else none
      | none ↦ (read t ref (connects n c)).0
    ]
unfolding store
read-store timeout now t n ref fresh c =
    read-connects n t ref (store timeout now fresh c)
    ∙ ap (seen (c.operators + n) t) (get-put_values ref (deadline timeout now) fresh c.values)
    ∙ elim (Option-cases (last_of ref fresh)) [
      | inl e ↦ rw e (sym (read-connects n t ref c))
      | inr (v, e) ↦ rw e (seen-deadline timeout now t (c.operators + n) v)
    ]

get-filter-none :
    (p : Text × (Text × Deadline) → Bool) (ref : Text) (values : Values)
    → get ref values ≡ none
    → get ref (filter p values) ≡ none
unfolding get filter
get-filter-none p ref [] h = refl
get-filter-none p ref ((r, entry) ∷ values) h = ground (arith, h, get-filter-none p ref values)

get-filter-dated :
    (ref value : Text) (values : Values)
    → IsDict values
    → get ref values ≡ some (value, none)
    → get ref (filter (λ item. is_dated item.1.1) values) ≡ none
unfolding get filter
get-filter-dated ref value [] d h = refl
get-filter-dated ref value ((r, (v, stamp)) ∷ values) d h = elim (Bool-cases (text_eq r ref)) [
  | inl e ↦
      let same = (text_eq_iff r ref).0 e in
      let gone =
        get-filter-none (λ item. is_dated item.1.1) ref values
          (ap (λ (k : Text). get k values) (sym same) ∙ d.0) in
      ground (arith, e, h, gone)
  | inr e ↦
      let rest = get-filter-dated ref value values d.1 (ground (arith, e, h)) in
      ground (arith, e, rest)
]

no_more : (n : ℕ) → n ≤ 1 → ((n - 1) == 0) ≡ true
no_more n h = ground (arith, h)

operator_disconnected-last :
    (c : PlaintextCache)
    → c.operators ≤ 1
    → operator_disconnected c ≡ drop_session_entries (record c { operators = c.operators - 1 })
unfolding operator_disconnected
operator_disconnected-last c last = rw (no_more c.operators last) refl

-- A disconnect that leaves no operator drops a plaintext that the session held: an operator who connects
-- next does not bring it back. The values are a dict, with every ref once.
pub read-operator_disconnected :
    (t : ℕ) (ref value : Text) (c : PlaintextCache)
    → IsDict c.values
    → c.operators ≤ 1
    → get ref c.values ≡ some (value, none)
    → (read t ref (operator_connected (operator_disconnected c))).0 ≡ none
unfolding operator_connected operator_disconnected drop_session_entries
read-operator_disconnected t ref value c d last h =
    read-seen t ref (operator_connected (operator_disconnected c))
    ∙ ap (λ (f : PlaintextCache). seen (f.operators + 1) t (get ref f.values))
        (operator_disconnected-last c last)
    ∙ ap (seen (c.operators - 1 + 1) t) (get-filter-dated ref value c.values d h)
