-- ===== src/Skills/Examples.antt =====
-- The archive theorems at a concrete package: a folder with its SKILL.md and one more file.
use Prim.Native.String.{◌++◌ as append}
use Prim.Native.Char.{code}
use da_swarm.Agent.Plan.{Plan, pending}
use da_swarm.Skills.PlanSteps.{ensure_skill_read_first_step, plan_already_starts_with_skill_read}
use da_swarm.Skills.PlanSteps.Loading.{IsLoadedOnce, ensure_skill_read_first_step-idempotent}
use da_swarm.Base.Table.{find_by, update_where, count_where}
use da_swarm.Skills.Subscriptions.{
  personal, without_first, Skill, Store, official_skill, ensure_default, save, last_skill, owned_by,
  add_subscription, add_subscriptions, seed, if_enabled, resolve_by_id, resolve_by_name, add_skills,
  set_skill_enabled,
}
use da_swarm.Skills.Subscriptions.Access.{MayRun, resolve_by_id-MayRun, resolve_by_name-MayRun}
use da_swarm.Skills.Subscriptions.Isolation.{IsUntouched, add_skills-IsUntouched}
use da_swarm.Skills.Subscriptions.Fresh.{IsFresh}
use mathlib.Core.Bool.{false≢true}
use da_swarm.Base.{
  Bool, Bool-cases, inl, inr, eq_iff, arith, ◌∙◌, none, eqb, if◌then◌else◌, some, zero, suc, String,
  true, ◌==◌, ap, false, ℕ, ◌≤◌, List, [], ◌∷◌, ◌≡◌, refl, All,
}
use da_swarm.Base.Text.{codes, lower, same, strip, lstrip, rstrip}
use da_swarm.Swarm.Errors.{ok}
use da_swarm.Skills.Archive.{
  Chars, Package, max_package_bytes, iter_package_files, split, non_empty, last_part, is_junk_path,
  validate_member_path, validate_all_member_paths, total_size, file_members, norm_part, norm_parts,
  join, initial_slashes, normpath, validate_relative_path, skill_paths, resolve_root_prefix,
  strip_slashes, relative_path, read_chunks, read_member, extract,
}
use da_swarm.Skills.Archive.Budget.{bytes_in, iter_package_files-budget}
use da_swarm.Skills.Archive.Safety.{IsSafe, path_of, iter_package_files-IsSafe}

abbrev a_package : Package
a_package = record {
  size = 400;
  members =
      record {
        filename = codes "owls/SKILL.md";
        file_size = 3;
        chunks = (79 ∷ 119 ∷ 108 ∷ []) ∷ [];
      }
      ∷ record { filename = codes "owls/data/a.txt"; file_size = 2; chunks = (1 ∷ 2 ∷ []) ∷ [] }
      ∷ record { filename = codes "__MACOSX/._a"; file_size = 1; chunks = (0 ∷ []) ∷ [] }
      ∷ [];
}

abbrev its_files : List (Chars × List ℕ)
its_files = (codes "SKILL.md", 79 ∷ 119 ∷ 108 ∷ []) ∷ (codes "data/a.txt", 1 ∷ 2 ∷ []) ∷ []

iter_package_files_run : iter_package_files a_package ≡ ok its_files
unfolding split non_empty last_part is_junk_path validate_member_path validate_all_member_paths
    total_size file_members norm_part norm_parts join initial_slashes normpath
    validate_relative_path skill_paths resolve_root_prefix strip_slashes relative_path read_chunks
    read_member extract iter_package_files
iter_package_files_run = refl

iter_package_files-IsSafe_example : All (λ f. IsSafe (path_of f)) its_files
iter_package_files-IsSafe_example =
    iter_package_files-IsSafe a_package its_files iter_package_files_run

iter_package_files-budget_example : bytes_in its_files ≤ max_package_bytes
iter_package_files-budget_example =
    iter_package_files-budget a_package its_files iter_package_files_run

abbrev identifier : ℕ → String
identifier zero = "s"
identifier (suc n) = String.◌∷◌ "s" (identifier n)

abbrev no_skills : Store
no_skills = record { skills = []; subscriptions = []; drawn = 0 }

abbrev seeded : Store
seeded = ensure_default identifier "ann" no_skills

abbrev slides : Skill
slides = official_skill "skill_slides" "slides" "Turn an outline into presentation slides"

resolve_by_id-MayRun_example : (slides.id ≡ "skill_slides") × MayRun "ann" seeded slides
unfolding find_by update_where count_where save last_skill owned_by add_subscription
    add_subscriptions seed ensure_default if_enabled resolve_by_id strip lstrip rstrip without_first
resolve_by_id-MayRun_example =
    resolve_by_id-MayRun identifier "ann" "skill_slides" no_skills seeded slides refl

resolve_by_name-MayRun_example :
    (same (lower (codes slides.name)) (strip_slashes (lower (codes (strip " /Slides")))) ≡ true)
    × MayRun "ann" seeded slides
unfolding find_by update_where count_where save last_skill owned_by add_subscription
    add_subscriptions seed ensure_default if_enabled resolve_by_name strip lstrip rstrip
    strip_slashes without_first
resolve_by_name-MayRun_example =
    resolve_by_name-MayRun identifier "ann" " /Slides" no_skills seeded slides refl

-- Bob's skill, and identifiers that begin otherwise than its own.
abbrev bobs_skill : Skill
bobs_skill = record {
  id = "bob's";
  name = "owls";
  description = "Find owls";
  body = none;
  owner_type = personal;
  owner_user_id = some "bob";
}

abbrev bobs_store : Store
bobs_store = record { skills = bobs_skill ∷ []; subscriptions = []; drawn = 0 }

abbrev begins_with_s : String → Bool
begins_with_s String.[] = false
begins_with_s (String.◌∷◌ c _) = eqb (code c) b's'

identifier-begins : (n : ℕ) → begins_with_s (identifier n) ≡ true
identifier-begins zero = refl
identifier-begins (suc n) = refl

identifier-IsFresh : IsFresh identifier bobs_store
unfolding find_by
identifier-IsFresh n h = elim (Bool-cases ("bob's" == identifier n)) [
  | inl e ↦
      let same : "bob's" ≡ identifier n = ground (arith, eq_iff "bob's" (identifier n)) in
      let begins : begins_with_s "bob's" ≡ begins_with_s (identifier n) = ap begins_with_s same in
      absurd (false≢true (begins ∙ identifier-begins n))
  | inr e ↦ rw e refl
]

add_skills-IsUntouched_example :
    IsUntouched "bob" bobs_store
      ((add_skills identifier "ann" ("skill_slides" ∷ "none" ∷ []) bobs_store).1)
    × IsUntouched "bob" bobs_store ((set_skill_enabled "ann" "skill_slides" false bobs_store).1)
add_skills-IsUntouched_example =
    add_skills-IsUntouched identifier "ann" "bob" ("skill_slides" ∷ "none" ∷ []) "skill_slides"
      false bobs_store
      (λ e. let x : ("ann" == "bob") ≡ ("bob" == "bob") = ap (λ s. s == "bob") e in cc)
      identifier-IsFresh

-- `lower`, as far as the steps of the skill "owls" need it.
abbrev lower_l : String → String
lower_l String.[] = ""
lower_l (String.◌∷◌ c s) =
    let rest = lower_l s in append (if eqb (code c) b'L' then "l" else String.◌∷◌ c "") rest

abbrev an_owl_plan : Plan
an_owl_plan = record {
  id = "plan";
  title = "Owls";
  goal = "Find owls";
  language = some "en";
  steps = [];
  message = none;
  status = pending;
  result = none;
  error = none;
}

ensure_skill_read_first_step-idempotent_example :
    let result = ensure_skill_read_first_step lower_l "s1" " owls " an_owl_plan in
    (plan_already_starts_with_skill_read lower_l result "owls" ≡ true)
    × (ensure_skill_read_first_step lower_l "s2" " owls " result ≡ result)
    × IsLoadedOnce lower_l "s1" "owls" an_owl_plan result
unfolding strip lstrip rstrip
ensure_skill_read_first_step-idempotent_example =
    ensure_skill_read_first_step-idempotent lower_l "s1" "s2" " owls " an_owl_plan refl refl refl
      refl
