-- ===== src/Mounts/Spec.antt =====
-- One mount of src/msks/msks/spec/mounts.py: its decoded entry, the rules of one guest path, and the rules of a
-- set of mounts. `sha256` is the hexadecimal digest of a text, a parameter.
pub mod Disjoint
use msks.Prelude.{
  Text, ℕ, Bool, all, codes, leb, ltb, length, take, drop, text_eq, mem_text, Result, ok, err,
  is_none, Option, false, not, ◌&&◌, ◌||◌, none, some, List, [], ◌∷◌, ◌++◌, if◌then◌else◌,
}
use msks.Prelude.Dict.{Dict, get, text_key}
use msks.Mounts.{
  Refusal, not_mapping, unknown_keys, bad_mode, no_path, not_absolute, traversal, filesystem_root,
  unprintable, long_unit, under, no_mount_point, breaks_prefix, mounted_twice, shadows,
  PurePosixPath, pure_path, has_root, parts, has_traversal, no_names, canonical_guest,
  canonical_host_path, under_root, leads, slash, or_ok, and_then, is_empty, prefix,
  translate_host_path,
}
use msks.Mounts.Unit.{utf8, mount_unit_name}

-- `MODE_RO` and `MODE_RW`
pub data MountMode : Type 0 where
  mode_ro mode_rw : MountMode

pub record MountSpec : Type 0 where
  pub guest : Text
  pub host : Text
  pub mode : MountMode

-- A decoded JSON value, as far as an entry tells values apart.
pub data Field : Type 0 where
  text : Text → Field
  not_text : Field

pub data Entry : Type 0 where
  mapping : Dict Text Field → Entry
  not_a_mapping : Entry

abbrev pub mount_keys : List Text
mount_keys = codes "guest" ∷ codes "mode" ∷ codes "host" ∷ []

abbrev pub has_key : Text → Dict Text Field → Bool
has_key key entry = not (is_none (get key entry))

-- `check_mount_keys`; `none` where the keys pass
unfoldable pub check_mount_keys : Dict Text Field → Option Refusal
check_mount_keys entry =
    if all (λ item. mem_text item.0 mount_keys) entry then none else some unknown_keys

abbrev pub text_of : Option Field → Result Refusal Text
text_of (some (text t)) = if is_empty t then err no_path else ok t
text_of _ = err no_path

-- `mount_text_field` and `host_field`
unfoldable pub mount_text_field : Dict Text Field → Text → Result Refusal Text
mount_text_field entry key = text_of (get key entry)

abbrev pub mode_of : Option Field → Result Refusal MountMode
mode_of none = ok mode_rw
mode_of (some not_text) = err bad_mode
mode_of (some (text t)) =
    if text_eq t (codes "ro")
    then ok mode_ro
    else if text_eq t (codes "rw")
    then ok mode_rw
    else err bad_mode

unfoldable pub mount_mode_field : Dict Text Field → Result Refusal MountMode
mount_mode_field entry = mode_of (get (codes "mode") entry)

unfoldable pub mount_entry : Entry → Result Refusal MountSpec
unfolding check_mount_keys mount_text_field mount_mode_field canonical_host_path
mount_entry not_a_mapping = err not_mapping
mount_entry (mapping entry) = and_then (or_ok (check_mount_keys entry) entry) λ checked.
    and_then (mount_text_field checked (codes "guest")) λ guest.
      and_then (mount_text_field checked (codes "host")) λ typed.
        and_then (canonical_host_path typed) λ host.
          and_then (mount_mode_field checked)
            λ mode. ok (record { guest = canonical_guest guest; host = host; mode = mode })

unfoldable pub retired_named_entry : Entry → Bool
retired_named_entry not_a_mapping = false
retired_named_entry (mapping entry) =
    has_key (codes "share") entry && not (has_key (codes "host") entry)

abbrev pub consider :
    Result Refusal MountSpec → Result Refusal (List MountSpec) → Result Refusal (List MountSpec)
consider (err e) rest = err e
consider (ok mount) (err e) = err e
consider (ok mount) (ok mounts) = ok (mount ∷ mounts)

-- `parse_mounts` of the decoded array
unfoldable pub parse_mounts : List Entry → Result Refusal (List MountSpec)
unfolding mount_entry retired_named_entry
parse_mounts [] = ok []
parse_mounts (entry ∷ entries) =
    let rest = parse_mounts entries in
    if retired_named_entry entry then rest else consider (mount_entry entry) rest

abbrev pub forbidden_guest_roots : List Text
forbidden_guest_roots =
    codes "/proc" ∷ codes "/sys" ∷ codes "/dev" ∷ codes "/run" ∷ codes "/home" ∷ []

unfoldable pub check_guest_roots : PurePosixPath → List Text → Option Refusal
unfolding under_root
check_guest_roots path [] = none
check_guest_roots path (root ∷ roots) =
    let rest = check_guest_roots path roots in
    if under_root path root then some (under root) else rest

abbrev pub is_printable : ℕ → Bool
is_printable c = leb 0x20 c && leb c 0x7e

unfoldable pub check_guest_path : Text → Option Refusal
unfolding mount_unit_name check_guest_roots
check_guest_path guest =
    let path = pure_path guest in
    if not (has_root path)
    then some not_absolute
    else if has_traversal path
    then some traversal
    else if text_eq guest (slash ∷ []) || no_names (drop 1 (parts path))
    then some filesystem_root
    else if not (all is_printable guest)
    then some unprintable
    else if ltb 255 (length (utf8 (mount_unit_name guest)))
    then some long_unit
    else check_guest_roots path forbidden_guest_roots

-- `sorted((a, b), key=len)`, then the test whether the shorter leads the longer
unfoldable pub nested : List Text → List Text → Bool
nested a b = if ltb (length b) (length a) then leads b a else leads a b

unfoldable pub check_shadowing : Text → Text → Option Refusal
unfolding nested
check_shadowing prior guest =
    if text_eq prior guest
    then some mounted_twice
    else if nested (parts (pure_path prior)) (parts (pure_path guest))
    then some shadows
    else none

-- The checks of a mount against the guest paths before it, in order.
unfoldable pub check_priors : List Text → Text → Option Refusal
unfolding check_shadowing
check_priors [] guest = none
check_priors (prior ∷ priors) guest =
    let rest = check_priors priors guest in
    let here = check_shadowing prior guest in if is_none here then rest else here

module _ (sha256 : Text → Text) where
  unfoldable pub mount_tag : MountSpec → Text
  mount_tag mount = codes "hs-" ++ take 8 (sha256 (utf8 mount.host))

  -- The loop of `validate_mounts` with the tags and the guest paths so far, which are its dicts' keys.
  unfoldable pub validate_from : List Text → List Text → List MountSpec → Option Refusal
  unfolding check_guest_path mount_tag check_priors
  validate_from tags guests [] = none
  validate_from tags guests (mount ∷ mounts) =
      let rest = validate_from (mount_tag mount ∷ tags) (guests ++ mount.guest ∷ []) mounts in
      let own = check_guest_path mount.guest in
      let shadow = check_priors guests mount.guest in
      if not (is_none own)
      then own
      else if mem_text (mount_tag mount) tags
      then some mounted_twice
      else if not (is_none shadow)
      then shadow
      else rest

  unfoldable pub validate_mounts : List MountSpec → Option Refusal
  unfolding validate_from
  validate_mounts mounts = validate_from [] [] mounts

-- A share root of a template.
pub record ShareRoot : Type 0 where
  pub location : Text
  pub mount_point : Text

-- `share_root_row` behind its reading of the location
abbrev pub root_at : Text → Field → Result Refusal ShareRoot
root_at host_path not_text = err no_mount_point
root_at host_path (text mount_point) = and_then (translate_host_path prefix host_path) λ expected.
    if text_eq (canonical_guest mount_point) expected
    then ok (record { location = host_path; mount_point = canonical_guest mount_point })
    else err breaks_prefix

unfoldable pub share_root_row : Text → Field → Result Refusal ShareRoot
unfolding translate_host_path
share_root_row location mount_point =
    and_then (canonical_host_path location) λ host_path. root_at host_path mount_point
