-- ===== src/Mounts/Translate.antt =====
-- The translation of src/msks/msks/spec/mounts.py between the operator's paths and the daemon's.
use msks.Prelude.{
  Text, Bool, split, join, filter, any, text_eq, starts_with, mem_text, ok, err, Result, codes, sym,
  true, false, Option, none, some, List, [], ◌∷◌, ◌++◌, ◌≡◌, refl, ap, ◌∙◌, arith, if◌then◌else◌,
}
use msks.Mounts.{
  Refusal, no_path, slash, root_of, pure_path, str, canonical_of, canonical_guest, shape_of,
  no_names, check_host_path_shape, or_ok, and_then, is_empty, canonical_host_path, HostMode,
  identity, prefix, other, bad_host_mode, placed, check_host_mode, share_root_prefix,
  translate_host_path, untranslate_vm_path, host_side, under_root, check_daemon_namespace_path,
}
use msks.Mounts.Clean.{AreNames, absolute, pure_path-AreNames, pure_path-one}
use msks.Mounts.Canonical.{names_of, check_host_path_shape-none, canonical_host_path-absolute}
use msks.Mounts.Clear.{AreClear, IsClear-join, names_of-AreClear}

-- Components that a host path may have.
abbrev IsTree : List Text → Type 0
IsTree names =
    AreNames names
    × AreClear names
    × (mem_text (codes "..") names ≡ false)
    × (no_names names ≡ false)

-- The tree below the reserved prefix.
abbrev below : List Text → List Text
below names = codes "mnt" ∷ codes "msks" ∷ names

below-IsTree : (names : List Text) → IsTree names → IsTree (below names)
unfolding text_eq mem_text any
below-IsTree names tree = (
  (refl, (refl, (refl, (refl, tt))), (refl, (refl, (refl, (refl, (refl, tt)))), tree.0)),
  (refl, (refl, tree.1)),
  tree.2,
  refl,
)

prefix-absolute :
    (n : Text) (names : List Text)
    → share_root_prefix ++ absolute (n ∷ names) ≡ absolute (below (n ∷ names))
unfolding join
prefix-absolute n names = refl

check_host_path_shape-absolute :
    (n : Text) (names : List Text)
    → IsTree (n ∷ names)
    → check_host_path_shape (absolute (n ∷ names)) ≡ none
unfolding check_host_path_shape text_eq mem_text any
check_host_path_shape-absolute n names tree =
    ap (shape_of (absolute (n ∷ names))) (pure_path-one n names tree.0)
    ∙ rw (IsClear-join (n ∷ names) tree.1, tree.2) refl

canonical_guest-absolute :
    (n : Text) (names : List Text)
    → AreNames (n ∷ names)
    → canonical_guest (absolute (n ∷ names)) ≡ absolute (n ∷ names)
unfolding canonical_guest str text_eq
canonical_guest-absolute n names are = ap canonical_of (pure_path-one n names are)

-- A path of components in the daemon's namespace is read as its components.
untranslate-host_side :
    (mode : HostMode) (n : Text) (names : List Text)
    → check_host_mode mode ≡ none
    → IsTree (n ∷ names)
    → untranslate_vm_path mode (absolute (n ∷ names))
      ≡ host_side mode (record { root = slash ∷ []; names = n ∷ names })
unfolding untranslate_vm_path
untranslate-host_side mode n names known tree =
    let v = absolute (n ∷ names) in
    ap
      (λ o. and_then (or_ok o v) λ vm.
        and_then (or_ok (check_daemon_namespace_path vm) vm)
          λ p. host_side mode (pure_path (canonical_guest p)))
      known
    ∙ ap (λ o. and_then (or_ok o v) λ p. host_side mode (pure_path (canonical_guest p)))
        (check_host_path_shape-absolute n names tree)
    ∙ ap (λ g. host_side mode (pure_path g)) (canonical_guest-absolute n names tree.0)
    ∙ ap (host_side mode) (pure_path-one n names tree.0)

host_side-prefix :
    (n : Text) (names : List Text)
    → host_side prefix (record { root = slash ∷ []; names = below (n ∷ names) })
      ≡ ok (absolute (n ∷ names))
unfolding under_root pure_path root_of starts_with split filter text_eq
host_side-prefix n names = ground arith

no_bool : true ≡ false → ⊥
no_bool h = ground (arith, h)

ok_inj : (a b : Text) → ◌≡◌ {A = Result Refusal Text} (ok a) (ok b) → a ≡ b
ok_inj a b h = ground (arith, h)

err_ne_ok : (e : Refusal) (b : Text) → ◌≡◌ {A = Result Refusal Text} (err e) (ok b) → ⊥
err_ne_ok e b h = ground (arith, h)

and_then-ok :
    (r : Result Refusal Text) (f : Text → Result Refusal Text) (v : Text)
    → and_then r f ≡ ok v
    → (c : Text) × (r ≡ ok c) × (f c ≡ ok v)
and_then-ok (ok c) f v h = (c, refl, h)
and_then-ok (err e) f v h = elim (err_ne_ok e v h) [ ]

opened :
    (b : Bool) (o : Option Refusal) (t c : Text)
    → ◌≡◌ {A = Result Refusal Text} (if b then err no_path else or_ok o t) (ok c)
    → (o ≡ none) × (t ≡ c)
opened b none t c h = ground (arith, h)
opened b (some e) t c h = ground (arith, h)

canonical-IsTree :
    (h c : Text) → canonical_host_path h ≡ ok c → (c ≡ absolute (names_of h)) × IsTree (names_of h)
unfolding canonical_host_path
canonical-IsTree h c passes =
    let (shaped, e) = opened (is_empty h) (check_host_path_shape h) _ c passes in
    let (clear, rooted, level, some_name) = check_host_path_shape-none h shaped in
    (
      sym e ∙ canonical_host_path-absolute h shaped,
      (pure_path-AreNames h, names_of-AreClear h clear, level, some_name),
    )

untranslate-placed :
    (mode : HostMode) (names : List Text) (v : Text)
    → IsTree names
    → placed mode (absolute names) ≡ ok v
    → untranslate_vm_path mode v ≡ ok (absolute names)
unfolding str
untranslate-placed mode [] v tree h = elim (no_bool tree.3) [ ]
untranslate-placed identity (n ∷ names) v tree h =
    ap (untranslate_vm_path identity) (sym (ok_inj _ v h))
    ∙ untranslate-host_side identity n names refl tree
untranslate-placed prefix (n ∷ names) v tree h =
    ap (untranslate_vm_path prefix) (sym (ok_inj _ v h) ∙ prefix-absolute n names)
    ∙ untranslate-host_side prefix (codes "mnt") (codes "msks" ∷ n ∷ names) refl
        (below-IsTree (n ∷ names) tree)
    ∙ host_side-prefix n names
untranslate-placed (other m) (n ∷ names) v tree h = elim (err_ne_ok bad_host_mode v h) [ ]

translate-canonical :
    (mode : HostMode) (h v : Text)
    → translate_host_path mode h ≡ ok v
    → and_then (canonical_host_path h) (placed mode) ≡ ok v
unfolding translate_host_path
translate-canonical identity h v e = e
translate-canonical prefix h v e = e
translate-canonical (other m) h v e = elim (err_ne_ok bad_host_mode v e) [ ]

-- In either host mode, the daemon's path of a host path translates back to the canonical form of the host
-- path, whenever the host path translates.
pub untranslate-translate :
    (mode : HostMode) (h v : Text)
    → translate_host_path mode h ≡ ok v
    → untranslate_vm_path mode v ≡ canonical_host_path h
untranslate-translate mode h v translated =
    let (c, canonical, p) =
      and_then-ok (canonical_host_path h) (placed mode) v
        (translate-canonical mode h v translated) in
    let (e, tree) = canonical-IsTree h c canonical in
    untranslate-placed mode (names_of h) v tree (ap (placed mode) (sym e) ∙ p)
    ∙ ap ok (sym e)
    ∙ sym canonical
