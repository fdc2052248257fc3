-- ===== src/Skills/Archive.antt =====
-- Skill package archives (backend/app/domain/skills/archive.py). Paths are lists of code points, contents
-- lists of bytes. Reading the zip format and UTF-8 are the standard library's: a package comes with its
-- size and its members, and a member with the chunks that reads of it give.
pub mod Split
pub mod Steps
pub mod Safety
pub mod Budget
use da_swarm.Base.{
  ℕ, ◌+◌, ◌-◌, ◌*◌, ◌<◌, String, Bool, true, false, ◌&&◌, ◌||◌, not, Option, none, some, List, [],
  ◌∷◌, ◌++◌, map, any, length, take, drop, leb, ltb, eqb, reverse, if◌then◌else◌,
}
use da_swarm.Base.Text.{codes, same, starts_with, ends_with}
use da_swarm.Swarm.Errors.{Result, ok, err, value_error, key_error, require, ◌>>=◌, ◌>>◌}

abbrev pub Chars : Type 0
Chars = List ℕ

abbrev pub slash : ℕ
slash = b'/'

abbrev pub max_package_bytes : ℕ
max_package_bytes = 20 * 1024 * 1024

pub record Member : Type 0 where
  pub filename : Chars
  pub file_size : ℕ
  pub chunks : List (List ℕ)

pub record Package : Type 0 where
  pub size : ℕ
  pub members : List Member

-- `ensure_package_size`
abbrev pub ensure_package_size : Package → Result (Unit {0})
ensure_package_size p = require (leb p.size max_package_bytes) value_error

-- `_normalize_posix`: `path.replace("\\", "/")`
abbrev pub normalize_posix : Chars → Chars
normalize_posix = map (λ c. if eqb c b'\\' then slash else c)

-- `path.split("/")`
abbrev pub onto_first : ℕ → List Chars → List Chars
onto_first c [] = (c ∷ []) ∷ []
onto_first c (p ∷ l) = (c ∷ p) ∷ l

unfoldable pub split : Chars → List Chars
split [] = [] ∷ []
split (c ∷ s) = let rest = split s in if eqb c slash then [] ∷ rest else onto_first c rest

abbrev pub is_empty : Chars → Bool
is_empty [] = true
is_empty (_ ∷ _) = false

unfoldable pub non_empty : List Chars → List Chars
non_empty [] = []
non_empty (p ∷ l) = let rest = non_empty l in if is_empty p then rest else p ∷ rest

unfoldable pub last_part : List Chars → Chars
last_part [] = []
last_part (p ∷ []) = p
last_part (p ∷ q ∷ l) = last_part (q ∷ l)

-- `name in parts`
abbrev pub has_part : Chars → List Chars → Bool
has_part name = any (λ p. same p name)

-- `_is_junk_path`
unfoldable pub is_junk_path : Chars → Bool
is_junk_path path =
    let parts = non_empty (split (normalize_posix path)) in
    has_part (codes "__MACOSX") parts
    || same (last_part parts) (codes ".DS_Store")
    || same (last_part parts) (codes "Thumbs.db")
    || starts_with (last_part parts) (codes "._")

abbrev pub dots : Chars
dots = b'.' ∷ b'.' ∷ []

-- `_validate_member_path`
unfoldable pub validate_member_path : Chars → Result (Unit {0})
validate_member_path path = do
  require (not (starts_with (normalize_posix path) (slash ∷ []))) value_error
  require (not (has_part dots (split (normalize_posix path)))) value_error

unfoldable pub validate_all_member_paths : List Member → Result (Unit {0})
validate_all_member_paths [] = ok tt
validate_all_member_paths (m ∷ l) = validate_member_path m.filename >> validate_all_member_paths l

-- `info.is_dir()`, which is `endswith("/")`
abbrev pub is_dir : Member → Bool
is_dir m = ends_with m.filename (slash ∷ [])

unfoldable pub total_size : List Member → ℕ
total_size [] = 0
total_size (m ∷ l) = let rest = total_size l in if is_dir m then rest else m.file_size + rest

-- `_validate_uncompressed_size`
abbrev pub validate_uncompressed_size : List Member → Result (Unit {0})
validate_uncompressed_size l = require (leb (total_size l) max_package_bytes) value_error

-- The members that are files and no junk: `_file_member_names` has their names.
unfoldable pub file_members : List Member → List Member
file_members [] = []
file_members (m ∷ l) =
    let rest = file_members l in
    if not (is_dir m) && not (is_junk_path m.filename) then m ∷ rest else rest

-- One step of `posixpath.normpath`: the components so far, the last one first.
unfoldable pub norm_part : Bool → List Chars → Chars → List Chars
norm_part absolute done p =
    if is_empty p || same p (b'.' ∷ [])
    then done
    else if not (same p dots)
    then p ∷ done
    else elim done [
      | [] ↦ if absolute then [] else p ∷ []
      | q ∷ l ↦ if same q dots then p ∷ q ∷ l else l
    ]

unfoldable pub norm_parts : Bool → List Chars → List Chars → List Chars
norm_parts absolute done [] = done
norm_parts absolute done (p ∷ l) = norm_parts absolute (norm_part absolute done p) l

unfoldable pub join : List Chars → Chars
join [] = []
join (p ∷ []) = p
join (p ∷ q ∷ l) = p ++ (slash ∷ join (q ∷ l))

-- Two slashes in front are kept as two, and more of them as one.
unfoldable pub initial_slashes : Chars → Chars
initial_slashes s =
    if starts_with s (slash ∷ slash ∷ []) && not (starts_with s (slash ∷ slash ∷ slash ∷ []))
    then slash ∷ slash ∷ []
    else if starts_with s (slash ∷ [])
    then slash ∷ []
    else []

-- `os.path.normpath`
unfoldable pub normpath : Chars → Chars
normpath s =
    let out =
      initial_slashes s ++ join (reverse (norm_parts (starts_with s (slash ∷ [])) [] (split s))) in
    if is_empty out then b'.' ∷ [] else out

-- `_validate_relative_path`
unfoldable pub validate_relative_path : Chars → Result (Unit {0})
validate_relative_path rel =
    require (not (starts_with (normpath rel) dots || starts_with (normpath rel) (slash ∷ [])))
      value_error

abbrev pub skill_md : Chars
skill_md = codes "SKILL.md"

abbrev pub is_skill_path : Chars → Bool
is_skill_path p = same p skill_md || ends_with p (slash ∷ skill_md)

unfoldable pub skill_paths : List Member → List Chars
skill_paths [] = []
skill_paths (m ∷ l) =
    let rest = skill_paths l in
    if is_skill_path (normalize_posix m.filename) then normalize_posix m.filename ∷ rest else rest

-- `_resolve_root_prefix`, on files that are no junk.
unfoldable pub resolve_root_prefix : List Member → Result Chars
resolve_root_prefix files = elim (skill_paths files) [
  | [] ↦ err value_error
  | p ∷ [] ↦ ok (if same p skill_md then [] else take (length p - length skill_md) p)
  | _ ∷ _ ∷ _ ↦ err value_error
]

-- `rel.lstrip("/")`
unfoldable pub strip_slashes : Chars → Chars
strip_slashes [] = []
strip_slashes (c ∷ s) = let rest = strip_slashes s in if eqb c slash then rest else c ∷ s

-- `_relative_path`
unfoldable pub relative_path : Chars → Chars → Result Chars
relative_path member prefix = do
  require (starts_with (normalize_posix member) prefix) value_error
  ok (strip_slashes (drop (length prefix) (normalize_posix member)))

-- The reads of one member, within what the package may still extract.
unfoldable pub read_chunks : ℕ → List (List ℕ) → Result (List ℕ × ℕ)
read_chunks extracted [] = ok ([], extracted)
read_chunks extracted (chunk ∷ l) = do
  require (leb (extracted + length chunk) max_package_bytes) value_error
  (rest, n) ← read_chunks (extracted + length chunk) l
  ok (chunk ++ rest, n)

-- `_read_member_with_budget`
unfoldable pub read_member : Member → ℕ → Result (List ℕ × ℕ)
read_member m extracted = do
  require (leb m.file_size max_package_bytes && leb (extracted + m.file_size) max_package_bytes)
      value_error
  read_chunks extracted m.chunks

-- The loop of `iter_package_files`.
unfoldable pub extract : Chars → ℕ → List Member → Result (List (Chars × List ℕ))
extract prefix extracted [] = ok []
extract prefix extracted (m ∷ l) = elim (starts_with (normalize_posix m.filename) prefix) [
  | false ↦ extract prefix extracted l
  | true ↦ do
    rel ← relative_path m.filename prefix
    validate_relative_path rel
    (content, n) ← read_member m extracted
    rest ← extract prefix n l
    ok ((rel, content) ∷ rest)
]

-- `iter_package_files`
unfoldable pub iter_package_files : Package → Result (List (Chars × List ℕ))
iter_package_files p = do
  ensure_package_size p
  validate_all_member_paths p.members
  validate_uncompressed_size p.members
  prefix ← resolve_root_prefix (file_members p.members)
  extract prefix 0 (file_members p.members)

-- `zf.getinfo(name)`: the last member with that name.
unfoldable pub member_named : Chars → List Member → Option Member
member_named name [] = none
member_named name (m ∷ l) = elim (member_named name l) [
  | some n ↦ some n
  | none ↦ if same m.filename name then some m else none
]

-- `read_skill_md_from_package`, whose bytes are then decoded.
unfoldable pub read_skill_md : Package → Result (List ℕ)
read_skill_md p = do
  ensure_package_size p
  validate_all_member_paths p.members
  validate_uncompressed_size p.members
  prefix ← resolve_root_prefix (file_members p.members)
  m ← elim (member_named (prefix ++ skill_md) p.members) [ none ↦ err key_error | some m ↦ ok m ]
  (content, _) ← read_member m 0
  ok content
