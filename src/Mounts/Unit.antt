-- ===== src/Mounts/Unit.antt =====
-- The systemd unit of a mount (src/msks/msks/spec/mounts.py): the escape of its path, and the quoting for the
-- seed's shell script.
use msks.Prelude.{
  Text, ℕ, Bool, ◌==◌, ltb, split_last, codes, is_alnum, ◌+◌, ◌-◌, ◌/◌, ◌%◌, true, false, ◌&&◌,
  ◌||◌, Option, none, some, [], ◌∷◌, ◌++◌, if◌then◌else◌,
}
use msks.Mounts.{slash}

-- `str.encode()` of one character that is no surrogate
unfoldable pub utf8_of : ℕ → Text
utf8_of c =
    if ltb c 0x80
    then c ∷ []
    else if ltb c 0x800
    then (0xc0 + c / 64) ∷ (0x80 + c % 64) ∷ []
    else if ltb c 0x10000
    then (0xe0 + c / 4096) ∷ (0x80 + c / 64 % 64) ∷ (0x80 + c % 64) ∷ []
    else (0xf0 + c / 262144) ∷ (0x80 + c / 4096 % 64) ∷ (0x80 + c / 64 % 64) ∷ (0x80 + c % 64) ∷ []

unfoldable pub utf8 : Text → Text
unfolding utf8_of
utf8 [] = []
utf8 (c ∷ t) = utf8_of c ++ utf8 t

-- `guest.lstrip("/")`
unfoldable pub lstrip_slash : Text → Text
lstrip_slash [] = []
lstrip_slash (c ∷ t) = let rest = lstrip_slash t in if c == slash then rest else c ∷ t

-- `UNIT_NAME_CHARS`
unfoldable pub is_unit_char : ℕ → Bool
unfolding is_alnum
is_unit_char b = is_alnum b || b == b'.' || b == b'_' || b == b':'

-- one hexadecimal digit, in lower case
abbrev pub hex_digit : ℕ → ℕ
hex_digit n = if ltb n 10 then b'0' + n else b'a' + (n - 10)

abbrev pub hex_escape : ℕ → Text
hex_escape b = b'\\' ∷ b'x' ∷ hex_digit (b / 16) ∷ hex_digit (b % 16) ∷ []

unfoldable pub escape_byte : ℕ → Bool → Text
unfolding is_unit_char
escape_byte byte leading =
    if byte == slash
    then b'-' ∷ []
    else if byte == b'.' && leading
    then hex_escape b'.'
    else if is_unit_char byte
    then byte ∷ []
    else hex_escape byte

-- The loop behind its first round, after which `out` is not empty.
unfoldable pub escape_rest : Text → Text
unfolding escape_byte
escape_rest [] = []
escape_rest (b ∷ bytes) = escape_byte b false ++ escape_rest bytes

abbrev pub escape_all : Text → Text
escape_all [] = []
escape_all (b ∷ bytes) = escape_byte b true ++ escape_rest bytes

unfoldable pub systemd_escape_path : Text → Text
unfolding utf8 lstrip_slash escape_rest
systemd_escape_path guest = escape_all (utf8 (lstrip_slash guest))

unfoldable pub mount_unit_name : Text → Text
unfolding systemd_escape_path
mount_unit_name guest = systemd_escape_path guest ++ codes ".mount"

abbrev pub or_slash : Text → Text
or_slash [] = slash ∷ []
or_slash (c ∷ t) = c ∷ t

abbrev pub parent_of : Option (Text × Text) → Text → Text
parent_of none guest = or_slash guest
parent_of (some (before, after)) guest = or_slash before

unfoldable pub mount_parent : Text → Text
mount_parent guest = parent_of (split_last slash guest) guest

abbrev pub quote : ℕ
quote = 39

-- `text.replace("'", "'\\''")`
unfoldable pub replace_quotes : Text → Text
replace_quotes [] = []
replace_quotes (c ∷ t) =
    let rest = replace_quotes t in
    if c == quote then quote ∷ b'\\' ∷ quote ∷ quote ∷ rest else c ∷ rest

unfoldable pub sh_quote : Text → Text
unfolding replace_quotes
sh_quote text = quote ∷ replace_quotes text ++ quote ∷ []
