-- ===== src/Skills/PlanSteps/Loading.antt =====
-- The step that loads a skill is put before a plan once
-- (backend/app/domain/services/skills/plan_steps.py).
use da_swarm.Base.{List-cases}
use da_swarm.Base.{
  not, String, ◌==◌, eq_refl, Bool, true, false, ◌&&◌, ◌||◌, Option, some, ◌∷◌, ◌⊎◌, List, arith,
  ◌≡◌, refl, sym, ◌∙◌, inl, inr, Bool-cases, if◌then◌else◌,
}
use da_swarm.Base.Text.{rstrip, lstrip, codes, starts_with, strip, strip-strip, append}
use da_swarm.Agent.Plan.{Step, Plan, pending}
use da_swarm.Skills.PlanSteps.{
  skill_md_path, has_text, is_chinese, skill_read_step_description, starts_with_skill_read,
  plan_already_starts_with_skill_read, skill_step, ensure_skill_read_first_step,
}

and-false : (b : Bool) → (b && false) ≡ false
and-false true = refl
and-false false = refl

-- The tests of a first step, of which one names the skill.
some_name :
    (e a b l t n p s r d path m k : Bool)
    → (not e && (a || b) || l && t && n || p && s && n || r && (n || d) || path || m && (n || k))
      ≡ true
    → (a || b || n || d || k || path) ≡ true
some_name e true b l t n p s r d path m k h = refl
some_name e false true l t n p s r d path m k h = refl
some_name e false false l t true p s r d path m k h = refl
some_name e false false l t false p s r true path m k h = refl
some_name e false false l t false p s r false path m true h = refl
some_name e false false l t false p s r false true m false h = refl
some_name e false false l t false p s r false false m false h = ground (
  arith,
  and-false t,
  and-false l,
  and-false s,
  and-false p,
  and-false r,
  and-false m,
  and-false (not e),
)

module _ (lower : String → String) where
  same-description :
      (name : String) (language other : Option String)
      → is_chinese lower language ≡ is_chinese lower other
      → skill_read_step_description lower name language
        ≡ skill_read_step_description lower name other
  unfolding skill_read_step_description
  same-description name language other e = rw e refl

  chinese : lower "zh" ≡ "zh" → is_chinese lower (some "zh") ≡ true
  unfolding strip lstrip rstrip
  chinese zh = rw zh refl

  not-chinese : lower "en" ≡ "en" → is_chinese lower (some "en") ≡ false
  unfolding strip lstrip rstrip
  not-chinese en = rw en refl

  description-starts :
      (name : String) (language : Option String)
      → lower "zh" ≡ "zh"
      → lower "en" ≡ "en"
      → lower name ≡ name
      → name == "" ≡ false
      → starts_with_skill_read lower name (skill_read_step_description lower name language) ≡ true
  unfolding starts_with_skill_read
  description-starts name language zh en l h = elim (Bool-cases (is_chinese lower language)) [
    | inl e ↦
        rw
          (
            same-description name language (some "zh") (e ∙ sym (chinese zh)),
            l,
            h,
            eq_refl (skill_read_step_description lower name (some "zh")),
          )
          refl
    | inr e ↦
        rw (same-description name language (some "en") (e ∙ sym (not-chinese en)), l, h)
          (elim (Bool-cases (
            skill_read_step_description lower name (some "en")
            == skill_read_step_description lower name (some "zh"))) [
              | inl k ↦ rw k refl
              | inr k ↦ rw (k, eq_refl (skill_read_step_description lower name (some "en"))) refl
            ])
  ]

  -- What every recognised first step has: it is the text of the step, or it names the skill, its directory
  -- or its file.
  abbrev pub names_skill : String → String → Bool
  names_skill name first =
      first == skill_read_step_description lower (lower name) (some "zh")
      || first == skill_read_step_description lower (lower name) (some "en")
      || has_text (lower name) (lower first)
      || has_text (append "/" (lower name)) (lower first)
      || has_text (append "/skills/" (append (lower name) "/")) (lower first)
      || has_text (lower (skill_md_path name)) (lower first)

  -- How a plan comes to start with the step that loads a skill: it had such a step, or it got one with the
  -- text of its language before its own.
  abbrev pub IsLoadedOnce : String → String → Plan → Plan → Type 0
  IsLoadedOnce id name plan result =
      ((result ≡ plan)
        × (first : Step) × (rest : List Step) × (plan.steps ≡ first ∷ rest)
        × (names_skill name first.description ≡ true))
      ⊎ ((first : Step) × (result ≡ record plan { steps = first ∷ plan.steps })
          × (first.id ≡ id)
          × (first.status ≡ pending)
          × (first.description ≡ (
              if is_chinese lower plan.language
              then append "加载 " (append name " 技能")
              else append "Load " (append name " skill"))))

  -- A plan that starts with the step stays as it is.
  unchanged :
      (id name : String) (plan : Plan)
      → plan_already_starts_with_skill_read lower plan (strip name) ≡ true
      → ensure_skill_read_first_step lower id name plan ≡ plan
  unfolding ensure_skill_read_first_step
  unchanged id name plan e = elim (Bool-cases (strip name == "")) [
    | inl h ↦ rw (ensure_skill_read_first_step, h) refl
    | inr h ↦ rw (ensure_skill_read_first_step, h, e) refl
  ]

  ensure-starts :
      (id name : String) (plan : Plan)
      → lower "zh" ≡ "zh"
      → lower "en" ≡ "en"
      → lower (strip name) ≡ strip name
      → strip name == "" ≡ false
      → plan_already_starts_with_skill_read lower
          (ensure_skill_read_first_step lower id name plan)
          (strip name)
        ≡ true
  unfolding ensure_skill_read_first_step
  ensure-starts id name plan zh en l h =
      elim (Bool-cases (plan_already_starts_with_skill_read lower plan (strip name))) [
        | inl e ↦ rw (ensure_skill_read_first_step, h, e, e) refl
        | inr e ↦
            rw
              (
                ensure_skill_read_first_step,
                h,
                e,
                description-starts (strip name) plan.language zh en l h,
              )
              refl
      ]

  recognised-names :
      (name first : String)
      → starts_with_skill_read lower name first ≡ true
      → names_skill name first ≡ true
  unfolding starts_with_skill_read
  recognised-names name first h =
      some_name (lower name == "")
        (first == skill_read_step_description lower (lower name) (some "zh"))
        (first == skill_read_step_description lower (lower name) (some "en")) (has_text "加载" first)
        (has_text "技能" first) (has_text (lower name) (lower first))
        (starts_with (codes (lower first)) (codes "load ")) (has_text " skill" (lower first))
        (has_text "load_skill" (lower first)) (has_text (append "/" (lower name)) (lower first))
        (has_text (lower (skill_md_path name)) (lower first)) (has_text "skill.md" (lower first))
        (has_text (append "/skills/" (append (lower name) "/")) (lower first)) h

  ensure-IsLoadedOnce :
      (id name : String) (plan : Plan)
      → strip name == "" ≡ false
      → IsLoadedOnce id (strip name) plan (ensure_skill_read_first_step lower id name plan)
  unfolding ensure_skill_read_first_step skill_read_step_description
  ensure-IsLoadedOnce id name plan h =
      elim (Bool-cases (plan_already_starts_with_skill_read lower plan (strip name))) [
        | inl e ↦ elim (List-cases plan.steps) [
          | inl q ↦ absurd (cc)
          | inr (first, rest, q) ↦
              rw (ensure_skill_read_first_step, h, e)
                (inl (
                  refl,
                  first,
                  rest,
                  q,
                  recognised-names (strip name) first.description (rw q at e),
                ))
        ]
        | inr e ↦
            rw (ensure_skill_read_first_step, h, e)
              (inr (skill_step lower id (strip name) plan.language, refl, refl, refl, text))
      ]
    where
      text : skill_read_step_description lower (strip name) plan.language ≡ (
          if is_chinese lower plan.language
          then append "加载 " (append (strip name) " 技能")
          else append "Load " (append (strip name) " skill"))
      text = rw (strip-strip name) refl

  -- For a name with text, in lower case, the plan that comes out already starts with the step that loads the
  -- skill, so that putting it there again changes nothing; the plan had a first step that names the skill or
  -- its file and stays as it is, or gets the step with the text of its language before its own steps.
  pub ensure_skill_read_first_step-idempotent :
      (id id' skill_name : String) (plan : Plan)
      → lower "zh" ≡ "zh"
      → lower "en" ≡ "en"
      → lower (strip skill_name) ≡ strip skill_name
      → strip skill_name == "" ≡ false
      → let result = ensure_skill_read_first_step lower id skill_name plan in
        (plan_already_starts_with_skill_read lower result (strip skill_name) ≡ true)
        × (ensure_skill_read_first_step lower id' skill_name result ≡ result)
        × IsLoadedOnce id (strip skill_name) plan result
  ensure_skill_read_first_step-idempotent id id' skill_name plan zh en l h =
      let starts = ensure-starts id skill_name plan zh en l h in
      (
        starts,
        unchanged id' skill_name (ensure_skill_read_first_step lower id skill_name plan) starts,
        ensure-IsLoadedOnce id skill_name plan h,
      )
