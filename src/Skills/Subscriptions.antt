-- ===== src/Skills/Subscriptions.antt =====
-- Skill subscriptions (backend/app/application/services/skill_service.py), over the repositories
-- (backend/app/infrastructure/repositories/mongo_user_skill_repository.py and mongo_skill_repository.py)
-- as lists: subscriptions oldest first, personal skills newest first, which is the order of their time
-- stamps. Fresh identifiers (`uuid4`) are a parameter. A call that raises keeps what it has saved by then.
pub mod Fresh
pub mod Isolation
pub mod Access
use mathlib.Core.Option
use da_swarm.Base.{
  ℕ, ◌+◌, String, Bool, true, false, ◌&&◌, ◌||◌, not, Option, none, some, List, [], ◌∷◌, ◌++◌, ◌==◌,
  eqb, map, if◌then◌else◌,
}
use da_swarm.Base.Table.{find_by, update_where, count_where}
use da_swarm.Base.Text.{codes, lower, same, strip}
use da_swarm.Swarm.Errors.{Result, ok, err, not_found}
use da_swarm.Skills.Archive.{strip_slashes}

pub data SkillOwnerType : Type 0 where
  official : SkillOwnerType
  personal : SkillOwnerType

-- `Skill`; the package's columns are not kept.
pub record Skill : Type 0 where
  pub id : String
  pub name : String
  pub description : String
  pub body : Option String
  pub owner_type : SkillOwnerType
  pub owner_user_id : Option String

pub record UserSkill : Type 0 where
  pub id : String
  pub user_id : String
  pub skill_id : String
  pub enabled : Bool

pub record Store : Type 0 where
  pub skills : List Skill
  pub subscriptions : List UserSkill
  pub drawn : ℕ

abbrev pub official_skill : String → String → String → Skill
official_skill id name description = record {
  id = id;
  name = name;
  description = description;
  body = none;
  owner_type = official;
  owner_user_id = none;
}

abbrev pub official_skills : List Skill
official_skills =
    official_skill "skill_creator" "skill-creator" "Build a reusable skill together with Manus"
    ∷ official_skill "skill_market_research" "market-research"
        "Research markets and competitors into a structured brief"
    ∷ official_skill "skill_slides" "slides" "Turn an outline into presentation slides"
    ∷ official_skill "skill_web_research" "web-research"
        "Search the web and synthesize findings with citations"
    ∷ official_skill "skill_summarize" "summarize" "Summarize long documents into concise takeaways"
    ∷ []

abbrev pub default_added : List String
default_added =
    "skill_creator" ∷ "skill_web_research" ∷ "skill_summarize" ∷ "skill_slides"
    ∷ "skill_market_research" ∷ []

abbrev pub is_of : String → String → UserSkill → Bool
is_of user skill u = u.user_id == user && u.skill_id == skill

-- `find_by_user_id_and_skill_id`
abbrev pub subscription_of : String → String → Store → Option UserSkill
subscription_of user skill s = find_by (is_of user skill) s.subscriptions

unfoldable pub of_user : String → List UserSkill → List UserSkill
of_user user [] = []
of_user user (u ∷ l) = let rest = of_user user l in if u.user_id == user then u ∷ rest else rest

-- `UserSkillRepository.save`: an existing row keeps its identifier.
unfoldable pub save : UserSkill → Store → Store
save u s = elim (subscription_of u.user_id u.skill_id s) [
  | none ↦ record s { subscriptions = s.subscriptions ++ (u ∷ []) }
  | some old ↦ record s {
    subscriptions =
        update_where (is_of u.user_id u.skill_id) (λ (v : UserSkill). record u { id = old.id })
          s.subscriptions;
  }
]

-- `catalog_by_id.get(id)`: the last skill with that identifier.
unfoldable pub last_skill : (Skill → Bool) → List Skill → Option Skill
last_skill p [] = none
last_skill p (k ∷ l) = elim (last_skill p l) [
  | some j ↦ some j
  | none ↦ if p k then some k else none
]

abbrev pub is_owned : String → Skill → Bool
is_owned user k = elim k.owner_user_id [ none ↦ false | some o ↦ o == user ]

unfoldable pub owned_by : String → List Skill → List Skill
owned_by user [] = []
owned_by user (k ∷ l) = let rest = owned_by user l in if is_owned user k then k ∷ rest else rest

-- `[*OFFICIAL_SKILLS, *personal_skills]`
abbrev pub catalog_of : String → Store → List Skill
catalog_of user s = official_skills ++ owned_by user s.skills

abbrev pub with_added : Option Skill → Result (List Skill) → Result (List Skill)
with_added (some k) (ok l) = ok (k ∷ l)
with_added _ r = r

-- `set_skill_enabled`
unfoldable pub set_skill_enabled : String → String → Bool → Store → Result UserSkill × Store
set_skill_enabled user skill enabled s = elim (subscription_of user skill s) [
  | none ↦ (err not_found, s)
  | some old ↦ (ok (record old { enabled = enabled }), save (record old { enabled = enabled }) s)
]

-- `if not subscription or not subscription.enabled: return None`
unfoldable pub if_enabled : String → Skill → Store → Option Skill
if_enabled user k s = elim (subscription_of user k.id s) [
  | none ↦ none
  | some u ↦ if u.enabled then some k else none
]

-- The rows but the one that `find_one` gives.
unfoldable pub without_first {ℓ} : {A : Type ℓ} → (A → Bool) → List A → List A
without_first p [] = []
without_first p (x ∷ l) = let rest = without_first p l in if p x then l else x ∷ rest

module _ (uuid : ℕ → String) where
  abbrev pub new_subscription : String → String → Bool → Store → UserSkill
  new_subscription user skill enabled s = record {
    id = uuid s.drawn;
    user_id = user;
    skill_id = skill;
    enabled = enabled;
  }

  -- `_add_subscription`
  unfoldable pub add_subscription : String → String → Bool → Store → Store
  add_subscription user skill enabled s = elim (subscription_of user skill s) [
    | some old ↦
        if (old.enabled && enabled) || not (old.enabled || enabled)
        then s
        else save (record old { enabled = enabled }) s
    | none ↦ save (new_subscription user skill enabled s) (record s { drawn = s.drawn + 1 })
  ]

  unfoldable pub add_subscriptions : String → List String → Store → Store
  add_subscriptions user [] s = s
  add_subscriptions user (k ∷ l) s = add_subscriptions user l (add_subscription user k true s)

  abbrev pub personal_skill : String → Store → Skill
  personal_skill user s = record {
    id = uuid s.drawn;
    name = "data-viz";
    description = "Plot CSV data with clear charts";
    body =
        some
          "# Data Visualization\n\nLoad the user's CSV, pick appropriate chart types, and save plots to files with clear labels and legends.";
    owner_type = personal;
    owner_user_id = some user;
  }

  -- `save_personal_skill`: it overwrites what it finds under the identifier, whoever owns that, and what is
  -- saved is the newest. The skill's identifier is drawn with it.
  abbrev pub save_personal : Skill → Store → Store
  save_personal k s = record s {
    skills = k ∷ without_first (λ x. x.id == k.id) s.skills;
    drawn = s.drawn + 1;
  }

  unfoldable pub seed : String → Store → Store
  seed user s =
      add_subscription user (personal_skill user s).id true
        (save_personal (personal_skill user s) s)

  -- `_ensure_default_subscriptions`
  unfoldable pub ensure_default : String → Store → Store
  ensure_default user s =
      if eqb (count_where (λ (u : UserSkill). u.user_id == user) s.subscriptions) 0
      then seed user (add_subscriptions user default_added s)
      else s

  -- One identifier of `add_skills`: the skill if it is new, and the store.
  unfoldable pub add_skill : String → Skill → Store → Option Skill × Store
  add_skill user k s = elim (subscription_of user k.id s) [
    | some old ↦ (none, if old.enabled then s else save (record old { enabled = true }) s)
    | none ↦ (some k, save (new_subscription user k.id true s) (record s { drawn = s.drawn + 1 }))
  ]

  unfoldable pub add_all : String → List Skill → List String → Store → Result (List Skill) × Store
  add_all user catalog [] s = (ok [], s)
  add_all user catalog (id ∷ l) s = elim (last_skill (λ k. k.id == id) catalog) [
    | none ↦ (err not_found, s)
    | some k ↦
        let step = add_skill user k s in
        let rest = add_all user catalog l step.1 in (with_added step.0 rest.0, rest.1)
  ]

  -- `add_skills`
  unfoldable pub add_skills : String → List String → Store → Result (List Skill) × Store
  add_skills user ids s =
      let seeded = ensure_default user s in add_all user (catalog_of user seeded) ids seeded

  -- `resolve_enabled_skill_by_id` for an identifier that is not blank.
  unfoldable pub resolve_by_id : String → String → Store → Option Skill × Store
  resolve_by_id user id s =
      let seeded = ensure_default user s in
      (
        if strip id == ""
            then none
            else elim (last_skill (λ k. k.id == id) (catalog_of user seeded)) [
              | some k ↦ if_enabled user k seeded
              | none ↦ elim (find_by (λ k. k.id == id && is_owned user k) seeded.skills) [
                | none ↦ none
                | some k ↦ if_enabled user k seeded
              ]
            ],
        if strip id == "" then s else seeded,
      )

  -- `resolve_enabled_skill_by_name`
  unfoldable pub resolve_by_name : String → String → Store → Option Skill × Store
  resolve_by_name user name s =
      let wanted = strip_slashes (lower (codes (strip name))) in
      let seeded = ensure_default user s in
      (
        if same wanted []
            then none
            else elim (last_skill (λ k. same (lower (codes k.name)) wanted)
                (catalog_of user seeded)) [ none ↦ none | some k ↦ if_enabled user k seeded ],
        if same wanted [] then s else seeded,
      )
