-- ===== src/Hostshares/Mounted.antt =====
-- What the mount gate of src/msks/msks/hostshares.py asks of the mount table.
use msks.Prelude.{
  Text, Bool, Option, true, false, none, some, List, [], ◌∷◌, ◌≡◌, ◌⊎◌, refl, sym, ap, ◌∙◌, inl,
  inr, arith, if◌then◌else◌, any, codes, text_eq, text_eq_iff, ◌&&◌, ◌||◌,
}
use msks.Mounts.{pure_path, PurePosixPath, str, identity, prefix, other, under_root, HostMode}
use msks.Hostshares.{
  mounted_share_roots, fields_from, unescape_mount_field, share_root_of, share_root_line,
  insert_text, add_root, check_mount_gate,
}

-- A line of the mount table mounts a share root above a path: its third field is `virtiofs`, and its
-- second is, once unescaped, a path under the reserved prefix that the path lies in.
abbrev pub Mounts : Text → Text → Type 0
Mounts translated line =
    (device : Text) × (point : Text) × (rest : List Text) × (fields_from [] line
      ≡ device ∷ point ∷ codes "virtiofs" ∷ rest)
    × (under_root (pure_path (unescape_mount_field point)) (codes "/mnt/msks") ≡ true)
    × (under_root (pure_path translated) (str (pure_path (unescape_mount_field point))) ≡ true)

-- Some line of the table does.
abbrev pub AreMounted : Text → List Text → Type 0
AreMounted translated [] = ⊥
AreMounted translated (line ∷ lines) = Mounts translated line ⊎ AreMounted translated lines

-- On a host in prefix mode the path lies in a mounted share root.
abbrev pub IsMounted : HostMode → Text → List Text → Type 0
IsMounted prefix translated lines = AreMounted translated lines
IsMounted identity translated lines = Unit
IsMounted (other m) translated lines = Unit

any-insert_text :
    (p : Text → Bool) (s : Text) (ts : List Text) → any p (insert_text s ts) ≡ (p s || any p ts)
unfolding insert_text any
any-insert_text p s [] = refl
any-insert_text p s (t ∷ ts) = ground (arith, any-insert_text p s ts)

-- a share root as the path of its mount point
share_root_of-Mounts :
    (translated : Text) (fields : List Text) (path : PurePosixPath)
    → share_root_of fields ≡ some path
    → under_root (pure_path translated) (str path) ≡ true
    → (device : Text) × (point : Text) × (rest : List Text) × (fields
        ≡ device ∷ point ∷ codes "virtiofs" ∷ rest)
      × (under_root (pure_path (unescape_mount_field point)) (codes "/mnt/msks") ≡ true)
      × (under_root (pure_path translated) (str (pure_path (unescape_mount_field point))) ≡ true)
share_root_of-Mounts translated (device ∷ point ∷ fstype ∷ rest) path h u =
    let p = pure_path (unescape_mount_field point) in
    let (kept, same) =
      kept_path (text_eq fstype (codes "virtiofs") && under_root p (codes "/mnt/msks")) p path h in
    let (virtiofs, below) =
      both (text_eq fstype (codes "virtiofs")) (under_root p (codes "/mnt/msks")) kept in
    (
      device,
      point,
      rest,
      ap (λ (f : Text). device ∷ point ∷ f ∷ rest)
          ((text_eq_iff fstype (codes "virtiofs")).0 virtiofs),
      below,
      ap (λ (q : PurePosixPath). under_root (pure_path translated) (str q)) same ∙ u,
    )
  where
    kept_path :
        (b : Bool) (p path : PurePosixPath)
        → (if b then some p else none) ≡ some path
        → (b ≡ true) × (p ≡ path)
    kept_path b p path k = ground (arith, k)

    both : (a b : Bool) → (a && b) ≡ true → (a ≡ true) × (b ≡ true)
    both a b k = ground (arith, k)
share_root_of-Mounts translated [] path h u = ground (arith, h)
share_root_of-Mounts translated (a ∷ []) path h u = ground (arith, h)
share_root_of-Mounts translated (a ∷ b ∷ []) path h u = ground (arith, h)

mounted-AreMounted :
    (translated : Text) (lines : List Text)
    → any (λ root. under_root (pure_path translated) root) (mounted_share_roots lines) ≡ true
    → AreMounted translated lines
unfolding mounted_share_roots share_root_line any
mounted-AreMounted translated [] h = ground (arith, h)
mounted-AreMounted translated (line ∷ lines) h =
    by_line (λ k. mounted-AreMounted translated lines k) (share_root_line line) refl h
  where
    either : (a b : Bool) → (a || b) ≡ true → (a ≡ true) ⊎ (b ≡ true)
    either true b k = inl refl
    either false b k = inr k

    by_line :
        (any (λ root. under_root (pure_path translated) root) (mounted_share_roots lines) ≡ true
          → AreMounted translated lines)
        → (o : Option PurePosixPath) → share_root_line line ≡ o
        → any
            (λ root. under_root (pure_path translated) root)
            (add_root o (mounted_share_roots lines))
          ≡ true
        → AreMounted translated (line ∷ lines)
    by_line later none e k = inr (later k)
    by_line later (some path) e k =
        elim (either (under_root (pure_path translated) (str path)) _ (
          sym (
            any-insert_text (λ root. under_root (pure_path translated) root) (str path)
              (mounted_share_roots lines))
          ∙ k)) [
            | inl u ↦ inl (share_root_of-Mounts translated (fields_from [] line) path e u)
            | inr rest ↦ inr (later rest)
          ]

pub check_mount_gate-IsMounted :
    (mode : HostMode) (translated : Text) (lines : List Text)
    → check_mount_gate mode translated (mounted_share_roots lines) ≡ true
    → IsMounted mode translated lines
unfolding check_mount_gate
check_mount_gate-IsMounted prefix translated lines h = mounted-AreMounted translated lines h
check_mount_gate-IsMounted identity translated lines h = tt
check_mount_gate-IsMounted (other m) translated lines h = tt
