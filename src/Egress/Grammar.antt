-- ===== src/Egress/Grammar.antt =====
-- The allowlist grammar of src/msks/msks/spec/egress.py, from `is_port_digits` to `split_port`.
pub mod Allowlist
use msks.Prelude.{
  ℕ, Bool, true, false, not, ◌&&◌, ◌||◌, Option, none, some, List, [], ◌∷◌, ◌++◌, Text, text_eq,
  contains, starts_with, mem_text, split_first, split_last, is_space, strip, is_alnum, all_digits,
  int_of, codes, length, drop, any, all, leb, ltb, ◌==◌, if◌then◌else◌, Result, ok, err, is_none,
}
use msks.Egress.Address.{parse_network, parse_ipv4}

-- `SCOPE_EXACT`, `SCOPE_INCLUSIVE`, `SCOPE_SUBDOMAINS`, and any other string
pub data Scope : Type 0 where
  exact inclusive subdomains : Scope
  unknown : Text → Scope

abbrev pub colon : ℕ
colon = b':'

abbrev pub slash : ℕ
slash = b'/'

abbrev pub max_port : ℕ
max_port = 65535

unfoldable pub is_port_digits : Text → Bool
is_port_digits text = not (text_eq text []) && all_digits text && leb (length text) 5

abbrev pub port_in_range : Option (Text × Text) → Bool
port_in_range none = false
port_in_range (some (host, port)) = is_port_digits port && leb (int_of port) max_port

unfoldable pub valid_port_suffix : Text → Bool
valid_port_suffix spec =
    if not (contains colon spec) then true else port_in_range (split_last colon spec)

unfoldable pub strip_scope_sigil : Text → Text × Scope
strip_scope_sigil spec =
    if starts_with spec (codes "*.")
    then (drop 2 spec, subdomains)
    else if starts_with spec (codes ".")
    then (drop 1 spec, inclusive)
    else (spec, exact)

abbrev pub port_of : Text → Option (Text × Text) → Text × Option ℕ
port_of spec none = (spec, none)
port_of spec (some (host, port)) =
    if is_port_digits port then (host, some (int_of port)) else (spec, none)

unfoldable pub split_port : Text → Text × Option ℕ
split_port spec = port_of spec (split_last colon spec)

abbrev pub port_too_big : Option ℕ → Bool
port_too_big none = false
port_too_big (some port) = ltb max_port port

unfoldable pub valid_cidr_spec : Text → Bool
valid_cidr_spec spec =
    let (cidr, port) = split_port spec in
    if not (contains slash spec)
    then false
    else if port_too_big port
    then false
    else not (is_none (parse_network false cidr))

-- `[A-Za-z0-9.\-]`
unfoldable pub is_name_char : ℕ → Bool
is_name_char c = is_alnum c || c == b'.' || c == b'-'

unfoldable pub ends_alnum : Text → Bool
ends_alnum [] = false
ends_alnum (c ∷ []) = is_alnum c
ends_alnum (c ∷ d ∷ t) = ends_alnum (d ∷ t)

-- `[A-Za-z0-9](?:[A-Za-z0-9.\-]*[A-Za-z0-9])?`
unfoldable pub matches_name : Text → Bool
unfolding is_name_char ends_alnum
matches_name [] = false
matches_name (c ∷ t) = is_alnum c && all is_name_char t && ends_alnum (c ∷ t)

-- `$` also matches before a final newline.
drop_newline : Text → Text
drop_newline [] = []
drop_newline (c ∷ []) = if c == b'\n' then [] else c ∷ []
drop_newline (c ∷ d ∷ t) = c ∷ drop_newline (d ∷ t)

abbrev matches_parts : Text → Option (Text × Text) → Bool
matches_parts text none = matches_name text
matches_parts text (some (host, port)) = matches_name host && is_port_digits port

-- `_DOMAIN_RE.match(text)`
unfoldable pub matches_domain : Text → Bool
unfolding drop_newline
matches_domain text = let line = drop_newline text in matches_parts line (split_first colon line)

unfoldable pub has_space : Text → Bool
has_space = any is_space

unfoldable pub valid_host_spec : Text → Bool
valid_host_spec stripped =
    let (host, scope) = strip_scope_sigil stripped in
    if text_eq host [] then false else matches_domain host && valid_port_suffix host

unfoldable pub valid_spec : Text → Bool
valid_spec spec =
    let stripped = strip spec in
    if text_eq stripped [] || has_space stripped
    then false
    else if contains slash stripped
    then valid_cidr_spec stripped
    else valid_host_spec stripped

-- The accumulators of `parse_allowlist`: `seen` holds the texts of `out`.
pub record Entries : Type 0 where
  pub out : List Text
  pub seen : List Text
  pub invalid : List Text

unfoldable pub collect_entry : Text → Entries → Entries
collect_entry raw e =
    let spec = strip raw in
    if text_eq spec []
    then e
    else if not (valid_spec spec)
    then record e { invalid = e.invalid ++ raw ∷ [] }
    else if not (mem_text spec e.seen)
    then record e { seen = spec ∷ e.seen; out = e.out ++ spec ∷ [] }
    else e

collect : List Text → Entries → Entries
collect [] e = e
collect (raw ∷ values) e = collect values (collect_entry raw e)

-- the tail of `parse_allowlist`; the error names every invalid entry
abbrev pub allowlist_of : Entries → List Text → Result (List Text) (List Text)
allowlist_of e [] = ok e.out
allowlist_of e (raw ∷ more) = err (raw ∷ more)

unfoldable pub parse_allowlist : List Text → Result (List Text) (List Text)
unfolding collect
parse_allowlist values =
    let e = collect values (record { out = []; seen = []; invalid = [] }) in
    allowlist_of e e.invalid

unfoldable pub is_ipv4 : Text → Bool
is_ipv4 text = not (is_none (parse_ipv4 text))
