-- ===== src/Tests/ShareRuns.antt =====
-- Runs of src/msks/msks/hostshares.py.
use msks.Prelude.{
  Text, codes, text_eq, any, filter, join, split, starts_with, mem_text, Bool, is_space, true, List,
  [], ◌∷◌, ◌≡◌, refl,
}
use msks.Mounts.{
  prefix, translate_host_path, canonical_host_path, canonical_guest, check_host_path_shape, str,
  pure_path, root_of, under_root,
}
use msks.Hostshares.{
  check_host_share, share_root_line, fields_from, unescape_mount_field, unescape_from,
  check_policy_gate, text_leb,
}
use msks.Hostshares.Escapes.{kernel_escape, unescape_mount_field-kernel_escape}
use msks.Hostshares.Gates.{Serves, check_host_share-Serves}

unescape_mount_field-kernel_escape_example :
    unescape_mount_field (kernel_escape (codes "/mnt/msks/a b")) ≡ codes "/mnt/msks/a b"
unescape_mount_field-kernel_escape_example =
    unescape_mount_field-kernel_escape (codes "/mnt/msks/a b")

abbrev mount_lines : List Text
mount_lines = codes "share /mnt/msks/a\\040b virtiofs rw 0 0" ∷ []

-- The file system has no symbolic link.
abbrev plain : Text → Text
plain path = path

abbrev is_there : Text → Bool
is_there path = true

check_host_share-Serves_example :
    Serves plain is_there prefix
      (codes "/a b" ∷ [])
      (codes "/a b/c")
      mount_lines
      (codes "/mnt/msks/a b/c")
unfolding check_host_share share_root_line is_space fields_from unescape_mount_field unescape_from
    check_policy_gate translate_host_path canonical_host_path check_host_path_shape canonical_guest
    str pure_path root_of under_root any mem_text filter join split starts_with text_eq text_leb
check_host_share-Serves_example =
    check_host_share-Serves plain is_there prefix (codes "/a b" ∷ []) (codes "/a b/c") mount_lines
      (codes "/mnt/msks/a b/c") refl
