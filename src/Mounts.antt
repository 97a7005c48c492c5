-- ===== src/Mounts.antt =====
-- The vocabulary of host mounts, src/msks/msks/spec/mounts.py: paths, the refusals of one path, and the
-- translation between the host's paths and the daemon's. A text is its code points; the file
-- holds the part of the standard library's `PurePosixPath` that the code calls.
pub mod Spec
pub mod Unit
pub mod Escape
pub mod Quote
pub mod Clean
pub mod Canonical
pub mod Clear
pub mod Translate
use msks.Prelude.{
  split, join, text_eq, filter, codes, starts_with, mem_text, any, leb, ltb, take, drop, length,
  Result, ok, err, Text, ℕ, Bool, ◌+◌, true, false, not, ◌&&◌, ◌||◌, Option, none, some, List, [],
  ◌∷◌, ◌++◌, ◌==◌, if◌then◌else◌,
}

-- The refusals, each the `ValueError` of its rule.
pub data Refusal : Type 0 where
  not_array not_mapping unknown_keys bad_mode no_path not_absolute traversal : Refusal
  filesystem_root control_character unprintable long_unit outside_prefix reserved_prefix : Refusal
  bad_host_mode no_mount_point breaks_prefix mounted_twice shadows : Refusal
  under : Text → Refusal

abbrev pub slash : ℕ
slash = b'/'

pub record PurePosixPath : Type 0 where
  pub root : Text
  pub names : List Text

-- Exactly two leading slashes are an anchor of their own.
unfoldable pub root_of : Text → Text
root_of t =
    if starts_with t (slash ∷ slash ∷ slash ∷ [])
    then slash ∷ []
    else if starts_with t (slash ∷ slash ∷ [])
    then slash ∷ slash ∷ []
    else if starts_with t (slash ∷ [])
    then slash ∷ []
    else []

abbrev pub is_part : Text → Bool
is_part t = not (text_eq t []) && not (text_eq t (b'.' ∷ []))

unfoldable pub pure_path : Text → PurePosixPath
unfolding root_of
pure_path t = record {
  root = root_of t;
  names = filter is_part (split slash (drop (length (root_of t)) t));
}

abbrev pub has_root : PurePosixPath → Bool
has_root p = not (text_eq p.root [])

abbrev pub parts : PurePosixPath → List Text
parts p = if has_root p then p.root ∷ p.names else p.names

abbrev pub or_dot : Text → Text
or_dot [] = b'.' ∷ []
or_dot (c ∷ t) = c ∷ t

-- `str(path)`
unfoldable pub str : PurePosixPath → Text
str p = or_dot (p.root ++ join (slash ∷ []) p.names)

abbrev pub canonical_of : PurePosixPath → Text
canonical_of p =
    if text_eq p.root (slash ∷ slash ∷ []) then slash ∷ join (slash ∷ []) p.names else str p

unfoldable pub canonical_guest : Text → Text
unfolding pure_path str
canonical_guest guest = canonical_of (pure_path guest)

-- `ord(ch) < 0x20 or ord(ch) == 0x7F`
abbrev pub is_control : ℕ → Bool
is_control c = ltb c 0x20 || c == 0x7f

abbrev pub has_traversal : PurePosixPath → Bool
has_traversal p = mem_text (codes "..") (parts p)

abbrev pub no_names : List Text → Bool
no_names [] = true
no_names (n ∷ names) = false

-- the rules of `check_host_path_shape` in their order
abbrev pub shape_of : Text → PurePosixPath → Option Refusal
shape_of host_path path =
    if any is_control host_path
    then some control_character
    else if not (has_root path)
    then some not_absolute
    else if has_traversal path
    then some traversal
    else if no_names (drop 1 (parts path))
    then some filesystem_root
    else none

-- `none` where the path passes
unfoldable pub check_host_path_shape : Text → Option Refusal
unfolding pure_path
check_host_path_shape host_path = shape_of host_path (pure_path host_path)

abbrev pub or_ok : {A : Type 0} → Option Refusal → A → Result Refusal A
or_ok none a = ok a
or_ok (some e) a = err e

abbrev pub is_empty : Text → Bool
is_empty [] = true
is_empty (c ∷ t) = false

unfoldable pub canonical_host_path : Text → Result Refusal Text
unfolding check_host_path_shape canonical_guest
canonical_host_path host_path =
    if is_empty host_path
    then err no_path
    else or_ok (check_host_path_shape host_path) (canonical_guest (str (pure_path host_path)))

abbrev pub texts_eq : List Text → List Text → Bool
texts_eq [] [] = true
texts_eq (s ∷ ss) (t ∷ ts) = text_eq s t && texts_eq ss ts
texts_eq _ _ = false

-- `len(parts) >= len(base) and parts[: len(base)] == base`
abbrev pub leads : List Text → List Text → Bool
leads base names = leb (length base) (length names) && texts_eq (take (length base) names) base

unfoldable pub under_root : PurePosixPath → Text → Bool
unfolding pure_path
under_root path root = leads (drop 1 (parts (pure_path root))) (drop 1 (parts path))

abbrev pub share_root_prefix : Text
share_root_prefix = codes "/mnt/msks"

-- `HOST_MODE_IDENTITY`, `HOST_MODE_PREFIX`, and any other string
pub data HostMode : Type 0 where
  identity prefix : HostMode
  other : Text → HostMode

abbrev pub placed : HostMode → Text → Result Refusal Text
placed identity canonical = ok canonical
placed prefix canonical = ok (share_root_prefix ++ canonical)
placed (other m) canonical = err bad_host_mode

abbrev pub and_then : {A B : Type 0} → Result Refusal A → (A → Result Refusal B) → Result Refusal B
and_then (ok a) f = f a
and_then (err e) f = err e

abbrev pub check_host_mode : HostMode → Option Refusal
check_host_mode identity = none
check_host_mode prefix = none
check_host_mode (other m) = some bad_host_mode

unfoldable pub translate_host_path : HostMode → Text → Result Refusal Text
unfolding canonical_host_path
translate_host_path mode host_path =
    and_then (or_ok (check_host_mode mode) host_path)
      λ h. and_then (canonical_host_path h) (placed mode)

-- what is left of a path under the prefix
abbrev pub behind_prefix : List Text → Result Refusal Text
behind_prefix [] = err reserved_prefix
behind_prefix (n ∷ names) = ok (slash ∷ join (slash ∷ []) (n ∷ names))

abbrev pub host_side : HostMode → PurePosixPath → Result Refusal Text
host_side identity path = ok (str path)
host_side prefix path =
    if not (under_root path share_root_prefix)
    then err outside_prefix
    else behind_prefix
        (drop (1 + length (drop 1 (parts (pure_path share_root_prefix)))) (parts path))
host_side (other m) path = err bad_host_mode

abbrev pub check_daemon_namespace_path : Text → Option Refusal
check_daemon_namespace_path [] = some no_path
check_daemon_namespace_path (c ∷ t) = check_host_path_shape (c ∷ t)

unfoldable pub untranslate_vm_path : HostMode → Text → Result Refusal Text
unfolding check_host_path_shape canonical_guest under_root
untranslate_vm_path mode vm_path = and_then (or_ok (check_host_mode mode) vm_path) λ vm.
    and_then (or_ok (check_daemon_namespace_path vm) vm)
      λ p. host_side mode (pure_path (canonical_guest p))
