-- ===== src/Skills/Archive/Steps.antt =====
-- One step of the extraction loop (backend/app/domain/skills/archive.py, `iter_package_files`), and what
-- precedes the loop.
use da_swarm.Base.{ℕ, true, List, ◌∷◌, ◌≡◌, inl, inr, arith, leb}
use da_swarm.Base.Text.{starts_with}
use da_swarm.Swarm.Errors.{ok, Result-cases}
use da_swarm.Skills.Archive.{
  Chars, Member, Package, normalize_posix, relative_path, validate_relative_path, read_member,
  extract, iter_package_files, file_members, resolve_root_prefix, validate_all_member_paths,
  max_package_bytes,
}

-- A member that was extracted.
pub record Extracted (prefix : Chars) (n : ℕ) (m : Member) (l : List Member)
    (files : List (Chars × List ℕ)) : Type 0 where
  pub rel : Chars
  pub content : List ℕ
  pub total : ℕ
  pub rest : List (Chars × List ℕ)
  pub placed : relative_path m.filename prefix ≡ ok rel
  pub read : read_member m n ≡ ok (content, total)
  pub others : extract prefix total l ≡ ok rest
  pub all_files : files ≡ (rel, content) ∷ rest

pub extract-Extracted :
    (prefix : Chars) (n : ℕ) (m : Member) (l : List Member) (files : List (Chars × List ℕ))
    → starts_with (normalize_posix m.filename) prefix ≡ true
    → extract prefix n (m ∷ l) ≡ ok files
    → Extracted prefix n m l files
unfolding extract
extract-Extracted prefix n m l files inside h =
    elim (Result-cases (relative_path m.filename prefix)) [
      | inl (c, e) ↦ absurd (ground arith)
      | inr (rel, e) ↦ elim (Result-cases (validate_relative_path rel)) [
        | inl (c, v) ↦ absurd (ground arith)
        | inr (tt, v) ↦ elim (Result-cases (read_member m n)) [
          | inl (c, r) ↦ absurd (ground arith)
          | inr ((content, total), r) ↦ elim (Result-cases (extract prefix total l)) [
            | inl (c, o) ↦ absurd (ground arith)
            | inr (rest, o) ↦ record {
              rel = rel;
              content = content;
              total = total;
              rest = rest;
              placed = e;
              read = r;
              others = o;
              all_files = ground arith;
            }
          ]
        ]
      ]
    ]

-- What was checked before the loop, and the loop.
pub iter_package_files-checked :
    (p : Package) (files : List (Chars × List ℕ))
    → iter_package_files p ≡ ok files
    → (prefix : Chars) × (leb p.size max_package_bytes ≡ true)
      × (validate_all_member_paths p.members ≡ ok tt)
      × (resolve_root_prefix (file_members p.members) ≡ ok prefix)
      × (extract prefix 0 (file_members p.members) ≡ ok files)
unfolding iter_package_files
iter_package_files-checked p files h = elim (Result-cases (validate_all_member_paths p.members)) [
  | inl (c, e) ↦ absurd (ground arith)
  | inr (tt, e) ↦ elim (Result-cases (resolve_root_prefix (file_members p.members))) [
    | inl (c, r) ↦ absurd (ground arith)
    | inr (prefix, r) ↦ (prefix, ground arith, e, r, ground arith)
  ]
]
