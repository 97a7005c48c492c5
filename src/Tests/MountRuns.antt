-- ===== src/Tests/MountRuns.antt =====
-- Runs of src/msks/msks/spec/mounts.py on concrete paths.
use msks.Prelude.{
  Text, codes, err, is_none, all, any, mem_text, filter, join, split, starts_with, text_eq, ◌&&◌,
  some, List, [], ◌∷◌, ◌≡◌, refl,
}
use msks.Mounts.{
  prefix, translate_host_path, untranslate_vm_path, canonical_host_path, canonical_guest, traversal,
  check_host_path_shape, str, pure_path, root_of,
}
use msks.Mounts.Escape.{unescape, nothing, unescape-systemd_escape_path}
use msks.Mounts.Quote.{read_word, outside, read_word-sh_quote}
use msks.Mounts.Unit.{
  systemd_escape_path, lstrip_slash, sh_quote, utf8, escape_rest, escape_byte, is_unit_char,
}
use msks.Mounts.Spec.{MountSpec, mode_ro, mode_rw, validate_mounts, check_guest_path}
use msks.Mounts.Spec.Disjoint.{pairwise, validate_mounts-none}
use msks.Mounts.Translate.{untranslate-translate}

untranslate-translate_example :
    untranslate_vm_path prefix (codes "/mnt/msks/Users/a b")
    ≡ canonical_host_path (codes "//Users/./a b/")
unfolding translate_host_path canonical_host_path check_host_path_shape canonical_guest str
    pure_path root_of any mem_text filter join split starts_with text_eq
untranslate-translate_example =
    untranslate-translate prefix (codes "//Users/./a b/") (codes "/mnt/msks/Users/a b") refl

refused : canonical_host_path (codes "/a/../b") ≡ err traversal
unfolding canonical_host_path check_host_path_shape pure_path root_of any mem_text filter split
    starts_with text_eq
refused = refl

unescape-systemd_escape_path_example :
    unescape nothing (systemd_escape_path (codes "/.a-b/c d")) ≡ lstrip_slash (codes "/.a-b/c d")
unfolding all
unescape-systemd_escape_path_example = unescape-systemd_escape_path (codes "/.a-b/c d") refl

escaped : systemd_escape_path (codes "/.a-b/c d") ≡ codes "\\x2ea\\x2db-c\\x20d"
unfolding systemd_escape_path utf8 lstrip_slash escape_rest escape_byte is_unit_char
escaped = refl

read_word-sh_quote_example : read_word outside (sh_quote (codes "it's")) ≡ some (codes "it's")
read_word-sh_quote_example = read_word-sh_quote (codes "it's")

abbrev digest : Text → Text
digest bytes = bytes

abbrev two_mounts : List MountSpec
two_mounts =
    record { guest = codes "/srv/a"; host = codes "/a"; mode = mode_ro }
    ∷ record { guest = codes "/srv/a/b"; host = codes "/b"; mode = mode_rw }
    ∷ []

validate_mounts-none_example :
    is_none (validate_mounts digest two_mounts)
    ≡ (all (λ n. is_none (check_guest_path n.guest)) two_mounts && pairwise digest two_mounts)
validate_mounts-none_example = validate_mounts-none digest two_mounts
