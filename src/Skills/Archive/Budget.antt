-- ===== src/Skills/Archive/Budget.antt =====
-- What a package may extract (backend/app/domain/skills/archive.py, `_read_member_with_budget`).
use da_swarm.Base.{
  ℕ, ◌+◌, ◌≤◌, true, List, [], ◌∷◌, ◌++◌, ◌≡◌, ap, inl, inr, arith, Bool-cases, length,
  length-append, leb, leb→le,
}
use da_swarm.Base.Text.{starts_with}
use da_swarm.Swarm.Errors.{ok, Result-cases}
use da_swarm.Skills.Archive.{
  Chars, Member, Package, max_package_bytes, normalize_posix, read_chunks, read_member, extract,
  iter_package_files, file_members,
}
use da_swarm.Skills.Archive.Steps.{extract-Extracted, iter_package_files-checked}

-- The reads of one member count what they give, and stay within the budget.
read_chunks-count :
    (n : ℕ) (l : List (List ℕ)) (content : List ℕ) (total : ℕ)
    → n ≤ max_package_bytes
    → read_chunks n l ≡ ok (content, total)
    → (total ≡ n + length content) × (total ≤ max_package_bytes)
unfolding read_chunks
read_chunks-count n [] content total b h =
    let e : n ≡ total = ground arith in
    let f : [] ≡ content = ground arith in (omega (arith, e, ap length f), omega (arith, e, b))
read_chunks-count n (c ∷ l) content total b h = elim (Result-cases (read_chunks (n + length c) l)) [
  | inl (x, e) ↦ absurd (ground (arith, e, h))
  | inr ((rest, t), e) ↦
      let fits : leb (n + length c) max_package_bytes ≡ true = ground (arith, e, h) in
      let (count, below) = read_chunks-count (n + length c) l rest t (leb→le _ _ fits) e in
      let same : t ≡ total = ground (arith, e, h) in
      let whole : c ++ rest ≡ content = ground (arith, e, h) in
      (
        omega (arith, count, same, ap length whole, length-append c rest),
        omega (arith, below, same),
      )
]

pub read_member-count :
    (m : Member) (n : ℕ) (content : List ℕ) (total : ℕ)
    → n ≤ max_package_bytes
    → read_member m n ≡ ok (content, total)
    → (total ≡ n + length content) × (total ≤ max_package_bytes)
unfolding read_member
read_member-count m n content total b h =
    read_chunks-count n m.chunks content total b (ground (arith, h))

-- The bytes of extracted files.
unfoldable pub bytes_in : List (Chars × List ℕ) → ℕ
bytes_in [] = 0
bytes_in (f ∷ l) = length f.1 + bytes_in l

extract-budget :
    (prefix : Chars) (n : ℕ) (l : List Member) (files : List (Chars × List ℕ))
    → n ≤ max_package_bytes
    → extract prefix n l ≡ ok files
    → n + bytes_in files ≤ max_package_bytes
unfolding extract bytes_in
extract-budget prefix n [] files b h =
    let e : [] ≡ files = ground arith in omega (arith, b, ap bytes_in e)
extract-budget prefix n (m ∷ l) files b h =
    elim (Bool-cases (starts_with (normalize_posix m.filename) prefix)) [
      | inr e ↦ extract-budget prefix n l files b (ground (arith, h))
      | inl e ↦
          let x = extract-Extracted prefix n m l files e h in
          let (count, below) = read_member-count m n x.content x.total b x.read in
          let rest = extract-budget prefix x.total l x.rest below x.others in
          omega (arith, count, rest, ap bytes_in (x.all_files))
    ]

-- A package whose files are returned extracts no more than twenty mebibytes in all, whatever sizes its
-- directory of members declares.
pub iter_package_files-budget :
    (p : Package) (files : List (Chars × List ℕ))
    → iter_package_files p ≡ ok files
    → bytes_in files ≤ max_package_bytes
iter_package_files-budget p files h =
    let (prefix, _, _, _, e) = iter_package_files-checked p files h in
    omega (arith, extract-budget prefix 0 (file_members p.members) files (omega arith) e)
