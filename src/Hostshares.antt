-- ===== src/Hostshares.antt =====
-- The gates of src/msks/msks/hostshares.py. `resolve_path` and `path_is_dir` stand for the daemon's file
-- system, and the mount table comes as its lines.
pub mod Mounted
pub mod Gates
pub mod Escapes
use msks.Prelude.{
  Text, ℕ, Bool, Option, any, leb, ltb, ◌==◌, is_space, text_eq, codes, Result, ok, err, zero, suc,
  ◌+◌, ◌-◌, ◌*◌, true, false, ◌&&◌, ◌||◌, none, some, List, [], ◌∷◌, ◌++◌, if◌then◌else◌,
}
use msks.Mounts.{
  Refusal, or_ok, pure_path, PurePosixPath, str, under_root, share_root_prefix, HostMode, identity,
  prefix, other, check_host_mode, canonical_host_path, translate_host_path,
}

-- The refusals of this file, or one of a path.
pub data ShareRefusal : Type 0 where
  bad_path : Refusal → ShareRefusal
  not_mounted not_allowed not_a_directory : ShareRefusal

abbrev pub flush : Text → List Text → List Text
flush [] fields = fields
flush (c ∷ word) fields = (c ∷ word) ∷ fields

-- `line.split()`, with the field that is being read
unfoldable pub fields_from : Text → Text → List Text
unfolding is_space
fields_from word [] = flush word []
fields_from word (c ∷ line) = elim (is_space c) [
  | true ↦ flush word (fields_from [] line)
  | false ↦ fields_from (word ++ c ∷ []) line
]

abbrev pub is_octal : ℕ → Bool
is_octal c = leb b'0' c && leb c b'7'

abbrev pub octal_of : ℕ → ℕ → ℕ → ℕ
octal_of a b c = ((a - b'0') * 8 + (b - b'0')) * 8 + (c - b'0')

-- the character that three octal digits behind a backslash stand for
abbrev pub octal_at : Text → Option ℕ
octal_at (a ∷ b ∷ c ∷ t) =
    if is_octal a && is_octal b && is_octal c then some (octal_of a b c) else none
octal_at _ = none

-- The loop of `unescape_mount_field`; `skip` characters belong to an escape that is read.
unfoldable pub unescape_from : ℕ → Text → Text
unescape_from skip [] = []
unescape_from (suc skip) (c ∷ t) = unescape_from skip t
unescape_from zero (c ∷ t) = elim (c == b'\\') [
  | false ↦ c ∷ unescape_from zero t
  | true ↦ elim (octal_at t) [ none ↦ c ∷ unescape_from zero t | some d ↦ d ∷ unescape_from 3 t ]
]

-- The early return for a field with no backslash is the loop's result too.
unfoldable pub unescape_mount_field : Text → Text
unfolding unescape_from
unescape_mount_field field = if any (λ c. c == b'\\') field then unescape_from 0 field else field

abbrev pub share_root_of : List Text → Option PurePosixPath
share_root_of (device ∷ point ∷ fstype ∷ rest) =
    let path = pure_path (unescape_mount_field point) in
    if text_eq fstype (codes "virtiofs") && under_root path share_root_prefix
    then some path
    else none
share_root_of _ = none

unfoldable pub share_root_line : Text → Option PurePosixPath
unfolding fields_from unescape_mount_field under_root
share_root_line line = share_root_of (fields_from [] line)

-- The order of texts.
unfoldable pub text_leb : Text → Text → Bool
text_leb [] t = true
text_leb (c ∷ s) [] = false
text_leb (c ∷ s) (d ∷ t) = ltb c d || (c == d && text_leb s t)

pub insert_text : Text → List Text → List Text
unfolding text_leb
insert_text s [] = s ∷ []
insert_text s (t ∷ ts) =
    let later = insert_text s ts in if text_leb s t then s ∷ t ∷ ts else t ∷ later

abbrev pub add_root : Option PurePosixPath → List Text → List Text
add_root none roots = roots
add_root (some path) roots = insert_text (str path) roots

unfoldable pub mounted_share_roots : List Text → List Text
unfolding share_root_line str insert_text
mounted_share_roots [] = []
mounted_share_roots (line ∷ lines) = add_root (share_root_line line) (mounted_share_roots lines)

abbrev pub path_ok :
    Result Refusal Text → (Text → Result ShareRefusal Text) → Result ShareRefusal Text
path_ok (ok t) f = f t
path_ok (err e) f = err (bad_path e)

unfoldable pub check_mount_gate : HostMode → Text → List Text → Bool
unfolding under_root
check_mount_gate prefix translated roots =
    any (λ root. under_root (pure_path translated) root) roots
check_mount_gate identity translated roots = true
check_mount_gate (other m) translated roots = true

module _ (resolve_path : Text → Text) (path_is_dir : Text → Bool) where
  -- `check_policy_gate`; a root that is no host path raises
  unfoldable pub check_policy_gate : HostMode → List Text → Text → Result ShareRefusal Text
  unfolding canonical_host_path translate_host_path under_root
  check_policy_gate mode [] resolved = err not_allowed
  check_policy_gate mode (root ∷ roots) resolved =
      let rest = check_policy_gate mode roots resolved in
      path_ok (canonical_host_path root) λ canonical.
        path_ok (translate_host_path mode canonical) λ translated.
          if under_root (pure_path resolved) (resolve_path translated) then ok resolved else rest

  abbrev pub check_present : Text → Result ShareRefusal Text
  check_present resolved = if path_is_dir resolved then ok resolved else err not_a_directory

  abbrev pub behind_mount : HostMode → List Text → Text → Result ShareRefusal Text
  behind_mount mode allowed_roots resolved = elim (check_policy_gate mode allowed_roots resolved) [
    | err e ↦ err e
    | ok r ↦ check_present r
  ]

  unfoldable pub check_host_share :
      HostMode → List Text → Text → List Text → Result ShareRefusal Text
  unfolding check_mount_gate check_policy_gate mounted_share_roots
  check_host_share mode allowed_roots host_path lines =
      path_ok (or_ok (check_host_mode mode) host_path) λ h.
        path_ok (canonical_host_path h) λ canonical.
          path_ok (translate_host_path mode canonical) λ translated.
            if check_mount_gate mode translated (mounted_share_roots lines)
            then behind_mount mode allowed_roots (resolve_path translated)
            else err not_mounted
