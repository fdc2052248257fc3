-- ===== src/Skills/PlanSteps.antt =====
-- The step that loads a skill, which a plan starts with when a skill is active
-- (backend/app/domain/services/skills/plan_steps.py, backend/app/domain/skills/package.py). `str.lower` and
-- the identifier of the new step are parameters.
pub mod Loading
use da_swarm.Base.{
  not, String, ◌==◌, eq_refl, Bool, true, false, ◌&&◌, ◌||◌, Option, none, some, [], ◌∷◌, map, eqb,
  ◌⊎◌, List, arith, ◌≡◌, refl, sym, ◌∙◌, inl, inr, Bool-cases, if◌then◌else◌,
}
use da_swarm.Base.{List-cases}
use Prim.Native.Char.{code}
use da_swarm.Base.Text.{rstrip, lstrip, codes, starts_with, contains, strip, strip-strip, append}
use da_swarm.Agent.Plan.{Step, Plan, pending}

-- `s.lstrip("/")`
unfoldable pub lstrip_slashes : String → String
lstrip_slashes String.[] = String.[]
lstrip_slashes (String.◌∷◌ c s) =
    let rest = lstrip_slashes s in if eqb (code c) b'/' then rest else String.◌∷◌ c s

abbrev pub skills_root : String
skills_root = "/home/ubuntu/skills"

-- `skill_dir` and `skill_md_path`
abbrev pub skill_dir : String → String
skill_dir name = append skills_root (append "/" (lstrip_slashes (strip name)))

abbrev pub skill_md_path : String → String
skill_md_path name = append (skill_dir name) "/SKILL.md"

-- `s or default`
abbrev pub or_default : String → Option String → String
or_default default none = default
or_default default (some s) = if s == "" then default else s

abbrev pub has_text : String → String → Bool
has_text part s = contains (codes s) (codes part)

module _ (lower : String → String) where
  -- `_normalize_language` is "zh".
  abbrev pub is_chinese : Option String → Bool
  is_chinese language =
      starts_with
        (map (λ c. if eqb c b'_' then b'-' else c)
          (codes (lower (strip (or_default "en" language)))))
        (codes "zh")

  -- `skill_read_step_description`
  unfoldable pub skill_read_step_description : String → Option String → String
  skill_read_step_description skill_name language =
      let name = strip skill_name in
      if is_chinese language
      then append "加载 " (append name " 技能")
      else append "Load " (append name " skill")

  -- `plan_already_starts_with_skill_read`, on the description of the first step.
  unfoldable pub starts_with_skill_read : String → String → Bool
  starts_with_skill_read skill_name first_raw =
      let first = lower first_raw in
      let name = lower skill_name in
      let path = lower (skill_md_path skill_name) in
      not (name == "")
        && (first_raw == skill_read_step_description name (some "zh")
            || first_raw == skill_read_step_description name (some "en"))
      || has_text "加载" first_raw && has_text "技能" first_raw && has_text name first
      || starts_with (codes first) (codes "load ") && has_text " skill" first && has_text name first
      || has_text "load_skill" first && (has_text name first || has_text (append "/" name) first)
      || has_text path first
      || has_text "skill.md" first
        && (has_text name first || has_text (append "/skills/" (append name "/")) first)

  abbrev pub plan_already_starts_with_skill_read : Plan → String → Bool
  plan_already_starts_with_skill_read plan skill_name = elim plan.steps [
    | [] ↦ false
    | s ∷ _ ↦ starts_with_skill_read skill_name s.description
  ]

  abbrev pub skill_step : String → String → Option String → Step
  skill_step id name language = record {
    id = id;
    description = skill_read_step_description name language;
    status = pending;
    result = none;
    error = none;
    success = false;
    attachments = [];
  }

  -- `ensure_skill_read_first_step`
  unfoldable pub ensure_skill_read_first_step : String → String → Plan → Plan
  ensure_skill_read_first_step id skill_name plan =
      let name = strip skill_name in
      if name == ""
      then plan
      else if plan_already_starts_with_skill_read plan name
      then plan
      else record plan { steps = skill_step id name plan.language ∷ plan.steps }
