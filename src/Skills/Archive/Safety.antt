-- ===== src/Skills/Archive/Safety.antt =====
-- No archive writes outside its root (backend/app/domain/skills/archive.py): the relative paths that
-- `iter_package_files` returns have no `..` part and no slash in front.
use mathlib.Core.Path.{subst}
use da_swarm.Base.{
  ℕ, ◌-◌, true, false, ◌&&◌, not, List, [], ◌∷◌, ◌++◌, ◌≡◌, refl, sym, ap, ◌∙◌, ◌⊎◌, inl, inr, All,
  length, take, drop, arith, Bool-cases, if◌then◌else◌, length-append,
}
use da_swarm.Base.Text.{same, starts_with}
use da_swarm.Swarm.Errors.{Result, ok, err, value_error, ◌>>◌}
use da_swarm.Skills.Archive.{
  Chars, slash, dots, Member, Package, normalize_posix, split, validate_member_path,
  validate_all_member_paths, is_dir, is_junk_path, file_members, skill_md, is_skill_path,
  skill_paths, resolve_root_prefix, strip_slashes, relative_path, extract, iter_package_files,
}
use da_swarm.Skills.Archive.Steps.{extract-Extracted, iter_package_files-checked}
use da_swarm.Skills.Archive.Split.{
  split-after_slash, split-strip_slashes, strip_slashes-relative, starts_with-append,
  ends_with-append, take-length-append, any-All,
}

abbrev pub IsNoParent : Chars → Type 0
IsNoParent p = same p dots ≡ false

-- A path that stays below the directory it is joined to.
abbrev pub IsSafe : Chars → Type 0
IsSafe rel = (starts_with rel (slash ∷ []) ≡ false) × All IsNoParent (split rel)

abbrev IsChecked : Member → Type 0
IsChecked m = All IsNoParent (split (normalize_posix m.filename))

validate_member_path-IsChecked :
    (m : Member) → validate_member_path m.filename ≡ ok tt → IsChecked m
unfolding validate_member_path
validate_member_path-IsChecked m h =
    any-All (λ p. same p dots) (split (normalize_posix m.filename)) (ground (arith, h))

then-ok : (a b : Result (Unit {0})) → (a >> b) ≡ ok tt → (a ≡ ok tt) × (b ≡ ok tt)
then-ok (ok tt) b h = (refl, h)
then-ok (err e) b h = cc

members-IsChecked : (l : List Member) → validate_all_member_paths l ≡ ok tt → All IsChecked l
unfolding validate_all_member_paths
members-IsChecked [] h = tt
members-IsChecked (m ∷ l) h =
    let (a, b) = then-ok (validate_member_path m.filename) (validate_all_member_paths l) h in
    (validate_member_path-IsChecked m a, members-IsChecked l b)

files-IsChecked : (l : List Member) → All IsChecked l → All IsChecked (file_members l)
unfolding file_members
files-IsChecked [] a = tt
files-IsChecked (m ∷ l) (c, a) =
    elim (Bool-cases (not (is_dir m) && not (is_junk_path m.filename))) [
      | inl e ↦ rw e (c, files-IsChecked l a)
      | inr e ↦ rw e (files-IsChecked l a)
    ]

-- The root of a package is the whole archive or a directory in it.
abbrev IsRoot : Chars → Type 0
IsRoot prefix = (prefix ≡ []) ⊎ ((q : Chars) × (prefix ≡ q ++ (slash ∷ [])))

-- What follows a root in a checked path is safe.
rest-IsSafe :
    (prefix s : Chars)
    → IsRoot prefix
    → starts_with s prefix ≡ true
    → All IsNoParent (split s)
    → IsSafe (strip_slashes (drop (length prefix) s))
rest-IsSafe prefix s root inside checked =
    (strip_slashes-relative rest, split-strip_slashes IsNoParent rest (below root))
  where
    rest : Chars
    rest = drop (length prefix) s

    cut : s ≡ prefix ++ rest
    cut = starts_with-append s prefix inside

    assoc_slash : (q r : Chars) → (q ++ (slash ∷ [])) ++ r ≡ q ++ (slash ∷ r)
    assoc_slash [] r = refl
    assoc_slash (x ∷ q) r = ap (λ t. x ∷ t) (assoc_slash q r)

    below : IsRoot prefix → All IsNoParent (split rest)
    below (inl e) = rw (cut ∙ ap (λ p. p ++ rest) e) at checked
    below (inr (q, e)) =
        split-after_slash IsNoParent q rest
          (rw (cut ∙ ap (λ p. p ++ rest) e ∙ assoc_slash q rest) at checked)

skill_paths-All : (l : List Member) → All (λ p. is_skill_path p ≡ true) (skill_paths l)
unfolding skill_paths
skill_paths-All [] = tt
skill_paths-All (m ∷ l) = elim (Bool-cases (is_skill_path (normalize_posix m.filename))) [
  | inl e ↦ rw e (e, skill_paths-All l)
  | inr e ↦ rw e (skill_paths-All l)
]

-- The directory of a nested SKILL.md.
directory-IsRoot :
    (p : Chars)
    → is_skill_path p ≡ true
    → same p skill_md ≡ false
    → IsRoot (take (length p - length skill_md) p)
directory-IsRoot p s other =
    let (q, e) = ends_with-append p (slash ∷ skill_md) (ground (arith, s, other)) in
    let split_up : p ≡ (q ++ (slash ∷ [])) ++ skill_md = e ∙ regroup q in
    let size : length p - length skill_md ≡ length (q ++ (slash ∷ [])) =
      omega (arith, ap length split_up, length-append (q ++ (slash ∷ [])) skill_md) in
    inr (
      q,
      rw size (
          ap (take (length (q ++ (slash ∷ [])))) split_up
          ∙ take-length-append (q ++ (slash ∷ [])) skill_md),
    )
  where
    regroup : (q : Chars) → q ++ (slash ∷ skill_md) ≡ (q ++ (slash ∷ [])) ++ skill_md
    regroup [] = refl
    regroup (x ∷ q) = ap (λ t. x ∷ t) (regroup q)

resolve_root_prefix-IsRoot :
    (files : List Member) (prefix : Chars) → resolve_root_prefix files ≡ ok prefix → IsRoot prefix
unfolding resolve_root_prefix
resolve_root_prefix-IsRoot files prefix h = go (skill_paths files) (skill_paths-All files) h
  where
    go :
        (l : List Chars)
        → All (λ p. is_skill_path p ≡ true) l
        → (elim l [
          | [] ↦ err value_error
          | p ∷ [] ↦ ok (if same p skill_md then [] else take (length p - length skill_md) p)
          | _ ∷ _ ∷ _ ↦ err value_error
        ])
          ≡ ok prefix
        → IsRoot prefix
    go [] a h = cc
    go (p ∷ q ∷ l) a h = cc
    go (p ∷ []) (s, _) h = elim (Bool-cases (same p skill_md)) [
      | inl e ↦ inl (ground arith)
      | inr e ↦
          let same_prefix : take (length p - length skill_md) p ≡ prefix = ground arith in
          rw same_prefix at (directory-IsRoot p s e)
    ]

relative_path-IsSafe :
    (m : Member) (prefix rel : Chars)
    → IsRoot prefix
    → IsChecked m
    → relative_path m.filename prefix ≡ ok rel
    → IsSafe rel
unfolding relative_path
relative_path-IsSafe m prefix rel root checked h =
    let inside : starts_with (normalize_posix m.filename) prefix ≡ true = ground arith in
    let e : strip_slashes (drop (length prefix) (normalize_posix m.filename)) ≡ rel =
      ground arith in
    rw e at (rest-IsSafe prefix (normalize_posix m.filename) root inside checked)

abbrev pub path_of : Chars × List ℕ → Chars
path_of f = f.0

extract-IsSafe :
    (prefix : Chars) (n : ℕ) (l : List Member) (files : List (Chars × List ℕ))
    → IsRoot prefix
    → All IsChecked l
    → extract prefix n l ≡ ok files
    → All (λ f. IsSafe (path_of f)) files
unfolding extract
extract-IsSafe prefix n [] files root a h = let e : [] ≡ files = ground arith in rw (sym e) tt
extract-IsSafe prefix n (m ∷ l) files root (c, a) h =
    elim (Bool-cases (starts_with (normalize_posix m.filename) prefix)) [
      | inr e ↦ extract-IsSafe prefix n l files root a (ground (arith, h))
      | inl e ↦
          let x = extract-Extracted prefix n m l files e h in
          subst (All (λ (f : Chars × List ℕ). IsSafe (path_of f))) (sym (x.all_files)) (
            relative_path-IsSafe m prefix x.rel root c x.placed,
            extract-IsSafe prefix x.total l x.rest root a x.others,
          )
    ]

-- Whatever an archive holds, the paths of the files that it gives stay below the directory they are
-- unpacked into: none is absolute, and no part of one is `..`.
pub iter_package_files-IsSafe :
    (p : Package) (files : List (Chars × List ℕ))
    → iter_package_files p ≡ ok files
    → All (λ f. IsSafe (path_of f)) files
iter_package_files-IsSafe p files h =
    let (prefix, _, paths, root, e) = iter_package_files-checked p files h in
    extract-IsSafe prefix 0 (file_members p.members) files
      (resolve_root_prefix-IsRoot (file_members p.members) prefix root)
      (files-IsChecked p.members (members-IsChecked p.members paths)) e
