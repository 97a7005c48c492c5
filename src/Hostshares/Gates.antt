-- ===== src/Hostshares/Gates.antt =====
-- What a host share that passes the gates of src/msks/msks/hostshares.py serves.
use mathlib.Core.Path.{subst}
use msks.Prelude.{
  Text, Bool, Option, Result, ok, err, true, false, none, some, List, [], ◌∷◌, ◌≡◌, ◌⊎◌, refl, sym,
  ap, ◌∙◌, inl, inr, arith, if◌then◌else◌,
}
use msks.Mounts.{
  Refusal, or_ok, pure_path, under_root, HostMode, check_host_mode, canonical_host_path,
  translate_host_path,
}
use msks.Hostshares.{
  ShareRefusal, bad_path, path_ok, mounted_share_roots, check_mount_gate, check_policy_gate,
  check_present, behind_mount, check_host_share, not_mounted, not_allowed, not_a_directory,
}
use msks.Hostshares.Mounted.{IsMounted, check_mount_gate-IsMounted}

err_ne_ok : (e : ShareRefusal) (b : Text) → ◌≡◌ {A = Result ShareRefusal Text} (err e) (ok b) → ⊥
err_ne_ok e b h = ground (arith, h)

ok_inj : (a b : Text) → ◌≡◌ {A = Result ShareRefusal Text} (ok a) (ok b) → a ≡ b
ok_inj a b h = ground (arith, h)

path_ok-ok :
    (r : Result Refusal Text) (f : Text → Result ShareRefusal Text) (v : Text)
    → path_ok r f ≡ ok v
    → (t : Text) × (r ≡ ok t) × (f t ≡ ok v)
path_ok-ok (ok t) f v h = (t, refl, h)
path_ok-ok (err e) f v h = elim (err_ne_ok (bad_path e) v h) [ ]

chosen :
    (b : Bool) (x rest : Result ShareRefusal Text) (v : Text)
    → (if b then x else rest) ≡ ok v
    → ((b ≡ true) × (x ≡ ok v)) ⊎ (rest ≡ ok v)
chosen true x rest v h = inl (refl, h)
chosen false x rest v h = inr h

or_ok-ok :
    (o : Option Refusal) (h t : Text) → ◌≡◌ {A = Result Refusal Text} (or_ok o h) (ok t) → h ≡ t
or_ok-ok none h t e = ground (arith, e)
or_ok-ok (some f) h t e = ground (arith, e)

-- One of the operator's allowed roots, as the daemon resolves it, lies above the path or is it.
abbrev pub IsAllowed : (Text → Text) → HostMode → List Text → Text → Type 0
IsAllowed resolve_path mode [] resolved = ⊥
IsAllowed resolve_path mode (root ∷ roots) resolved =
    ((canonical : Text) × (translated : Text) × (canonical_host_path root ≡ ok canonical)
      × (translate_host_path mode canonical ≡ ok translated)
      × (under_root (pure_path resolved) (resolve_path translated) ≡ true))
    ⊎ IsAllowed resolve_path mode roots resolved

module _ (resolve_path : Text → Text) (path_is_dir : Text → Bool) (mode : HostMode) where
  check_policy_gate-IsAllowed :
      (roots : List Text) (resolved v : Text)
      → check_policy_gate resolve_path path_is_dir mode roots resolved ≡ ok v
      → IsAllowed resolve_path mode roots resolved × (v ≡ resolved)
  unfolding check_policy_gate
  check_policy_gate-IsAllowed [] resolved v h = elim (err_ne_ok not_allowed v h) [ ]
  check_policy_gate-IsAllowed (root ∷ roots) resolved v h =
      let (canonical, e, k) = path_ok-ok (canonical_host_path root) _ v h in
      let (translated, f, l) = path_ok-ok (translate_host_path mode canonical) _ v k in
      elim (chosen (under_root (pure_path resolved) (resolve_path translated)) _ _ v l) [
        | inl (u, same) ↦ (inl (canonical, translated, e, f, u), sym (ok_inj resolved v same))
        | inr later ↦
            let rest = check_policy_gate-IsAllowed roots resolved v later in (inr rest.0, rest.1)
      ]

  behind_mount-IsAllowed :
      (roots : List Text) (resolved v : Text)
      → behind_mount resolve_path path_is_dir mode roots resolved ≡ ok v
      → IsAllowed resolve_path mode roots resolved × (v ≡ resolved) × (path_is_dir v ≡ true)
  behind_mount-IsAllowed roots resolved v h =
      by_policy (check_policy_gate resolve_path path_is_dir mode roots resolved) refl h
    where
      by_policy :
          (r : Result ShareRefusal Text)
          → check_policy_gate resolve_path path_is_dir mode roots resolved ≡ r
          → (elim r as (λ x. Result ShareRefusal Text) [
            | err e ↦ err e
            | ok p ↦ check_present resolve_path path_is_dir p
          ])
            ≡ ok v
          → IsAllowed resolve_path mode roots resolved × (v ≡ resolved) × (path_is_dir v ≡ true)
      by_policy (err e) q k = elim (err_ne_ok e v k) [ ]
      by_policy (ok p) q k =
          let (inside, same) = check_policy_gate-IsAllowed roots resolved p q in
          elim (chosen (path_is_dir p) _ _ v k) [
            | inl (there, e) ↦
                let here = ok_inj p v e in
                (inside, sym here ∙ same, sym (ap path_is_dir here) ∙ there)
            | inr missing ↦ elim (err_ne_ok not_a_directory v missing) [ ]
          ]

  -- What a share serves.
  abbrev pub Serves : List Text → Text → List Text → Text → Type 0
  Serves allowed_roots host_path lines v =
      (canonical : Text) × (translated : Text) × (canonical_host_path host_path ≡ ok canonical)
      × (translate_host_path mode canonical ≡ ok translated)
      × IsMounted mode translated lines
      × (v ≡ resolve_path translated)
      × IsAllowed resolve_path mode allowed_roots v
      × (path_is_dir v ≡ true)

  -- A host share that the gates accept serves the resolved translation of the canonical host path; on a
  -- host in prefix mode the translation lies in the mount point of a `virtiofs` line of the mount
  -- table that is under /mnt/msks; the resolved path is a
  -- directory, and it lies in an allowed root as the daemon resolves that root, so that no
  -- symbolic link leads out of the allowed roots.
  pub check_host_share-Serves :
      (allowed_roots : List Text) (host_path : Text) (lines : List Text) (v : Text)
      → check_host_share resolve_path path_is_dir mode allowed_roots host_path lines ≡ ok v
      → Serves allowed_roots host_path lines v
  unfolding check_host_share
  check_host_share-Serves allowed_roots host_path lines v h =
      let (typed, a, k) = path_ok-ok (or_ok (check_host_mode mode) host_path) _ v h in
      let same = or_ok-ok (check_host_mode mode) host_path typed a in
      let (canonical, e, l) = path_ok-ok (canonical_host_path typed) _ v k in
      let (translated, f, m) = path_ok-ok (translate_host_path mode canonical) _ v l in
      elim (chosen (check_mount_gate mode translated (mounted_share_roots lines)) _ _ v m) [
        | inr unmounted ↦ elim (err_ne_ok not_mounted v unmounted) [ ]
        | inl (mounted, n) ↦
            let (inside, at, dir) =
              behind_mount-IsAllowed allowed_roots (resolve_path translated) v n in
            (
              canonical,
              translated,
              ap canonical_host_path same ∙ e,
              f,
              check_mount_gate-IsMounted mode translated lines mounted,
              at,
              subst (IsAllowed resolve_path mode allowed_roots) (sym at) inside,
              dir,
            )
      ]
