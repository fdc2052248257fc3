-- ===== src/Skills/Subscriptions/Access.antt =====
-- Which skills a user may run (backend/app/application/services/skill_service.py,
-- `resolve_enabled_skill_by_id` and `resolve_enabled_skill_by_name`).
use da_swarm.Base.{
  ℕ, String, Bool, true, ◌&&◌, Option, none, some, List, [], ◌∷◌, ◌==◌, ◌≡◌, refl, ap, ◌∙◌, ◌⊎◌,
  inl, inr, arith, All, All-append, Bool-cases, Option-cases, eq_iff,
}
use da_swarm.Base.Table.{find_by}
use da_swarm.Base.Text.{codes, lower, same, strip}
use da_swarm.Skills.Archive.{strip_slashes}
use da_swarm.Skills.Subscriptions.{
  Skill, UserSkill, Store, official_skills, subscription_of, last_skill, is_owned, owned_by,
  catalog_of, ensure_default, if_enabled, resolve_by_id, resolve_by_name,
}
use da_swarm.Skills.Subscriptions.Isolation.{find_by-holds}

-- A skill that a user may see: everyone's, or the user's own.
abbrev pub MaySee : String → Skill → Type 0
MaySee user k = (k.owner_user_id ≡ none) ⊎ (k.owner_user_id ≡ some user)

-- A skill that a user may run: one to see, with a subscription that is enabled.
pub record MayRun (user : String) (s : Store) (k : Skill) : Type 0 where
  pub seen : MaySee user k
  pub subscription : UserSkill
  pub found : subscription_of user k.id s ≡ some subscription
  pub enabled : subscription.enabled ≡ true

owned-MaySee : (user : String) (k : Skill) → is_owned user k ≡ true → MaySee user k
owned-MaySee user k h = go k.owner_user_id refl
  where
    go : (o : Option String) → k.owner_user_id ≡ o → MaySee user k
    go none e = inl e
    go (some x) e =
        let same_user : x ≡ user = ground (arith, e, eq_iff x user) in inr (e ∙ ap some same_user)

owned_by-MaySee : (user : String) (l : List Skill) → All (MaySee user) (owned_by user l)
unfolding owned_by
owned_by-MaySee user [] = tt
owned_by-MaySee user (k ∷ l) = elim (Bool-cases (is_owned user k)) [
  | inl e ↦ rw e (owned-MaySee user k e, owned_by-MaySee user l)
  | inr e ↦ rw e (owned_by-MaySee user l)
]

official-MaySee : (user : String) → All (MaySee user) official_skills
official-MaySee user = (inl refl, (inl refl, (inl refl, (inl refl, (inl refl, tt)))))

catalog-MaySee : (user : String) (s : Store) → All (MaySee user) (catalog_of user s)
catalog-MaySee user s =
    All-append (MaySee user) official_skills (owned_by user s.skills) (official-MaySee user)
      (owned_by-MaySee user s.skills)

last_skill-All :
    (P : Skill → Type 0) (p : Skill → Bool) (l : List Skill) (k : Skill)
    → All P l
    → last_skill p l ≡ some k
    → P k × (p k ≡ true)
unfolding last_skill
last_skill-All P p [] k a h = cc
last_skill-All P p (x ∷ l) k (px, a) h = elim (Option-cases (last_skill p l)) [
  | inr (j, e) ↦ last_skill-All P p l k a (ground (arith, e, h))
  | inl e ↦ elim (Bool-cases (p x)) [
    | inl t ↦ let i : k ≡ x = ground arith in rw i (px, t)
    | inr f ↦ absurd (ground arith)
  ]
]

if_enabled-MayRun :
    (user : String) (k r : Skill) (s : Store)
    → MaySee user k
    → if_enabled user k s ≡ some r
    → (r ≡ k) × MayRun user s r
unfolding if_enabled
if_enabled-MayRun user k r s seen h = elim (Option-cases (subscription_of user k.id s)) [
  | inl e ↦ absurd (ground arith)
  | inr (u, e) ↦
      let i : r ≡ k = ground arith in
      let on : u.enabled ≡ true = ground arith in
      (i, rw i (record { seen = seen; subscription = u; found = e; enabled = on }))
]

resolved :
    (user : String) (p : Skill → Bool) (l : List Skill) (k r : Skill) (s : Store)
    → All (MaySee user) l
    → last_skill p l ≡ some k
    → if_enabled user k s ≡ some r
    → (p r ≡ true) × MayRun user s r
resolved user p l k r s a e h =
    let (seen, holds) = last_skill-All (MaySee user) p l k a e in
    let (same_skill, runs) = if_enabled-MayRun user k r s seen h in (rw same_skill holds, runs)

-- A skill that is resolved by its name is one that the user may run in the store that the call leaves, and
-- its name is the one asked for, but for case, surrounding white space and slashes in front.
pub resolve_by_name-MayRun :
    (uuid : ℕ → String) (user name : String) (s s' : Store) (r : Skill)
    → resolve_by_name uuid user name s ≡ (some r, s')
    → (same (lower (codes r.name)) (strip_slashes (lower (codes (strip name)))) ≡ true)
      × MayRun user s' r
unfolding resolve_by_name
resolve_by_name-MayRun uuid user name s s' r h =
    let wanted = strip_slashes (lower (codes (strip name))) in
    let seeded = ensure_default uuid user s in
    let p : Skill → Bool = λ k. same (lower (codes k.name)) wanted in
    elim (Bool-cases (same wanted [])) [
      | inl e ↦ absurd (ground arith)
      | inr e ↦ elim (Option-cases (last_skill p (catalog_of user seeded))) [
        | inl n ↦ absurd (ground arith)
        | inr (k, n) ↦
            let there : seeded ≡ s' = ground arith in
            let given : if_enabled user k seeded ≡ some r = ground arith in
            rw there at (
              resolved user p (catalog_of user seeded) k r seeded (catalog-MaySee user seeded) n
                given)
      ]
    ]

-- A skill that is resolved by its identifier is that skill, and one that the user may run in the store
-- that the call leaves.
pub resolve_by_id-MayRun :
    (uuid : ℕ → String) (user id : String) (s s' : Store) (r : Skill)
    → resolve_by_id uuid user id s ≡ (some r, s')
    → (r.id ≡ id) × MayRun user s' r
unfolding resolve_by_id
resolve_by_id-MayRun uuid user id s s' r h =
    let seeded = ensure_default uuid user s in
    let p : Skill → Bool = λ k. k.id == id in
    elim (Bool-cases (strip id == "")) [
      | inl e ↦ absurd (ground arith)
      | inr e ↦
          let there : seeded ≡ s' = ground arith in
          elim (Option-cases (last_skill p (catalog_of user seeded))) [
            | inr (k, n) ↦
                let given : if_enabled user k seeded ≡ some r = ground arith in
                let (holds, runs) =
                  resolved user p (catalog_of user seeded) k r seeded (catalog-MaySee user seeded) n
                    given in
                (ground (arith, holds, eq_iff r.id id), rw there at runs)
            | inl n ↦
                elim (Option-cases (find_by (λ k. k.id == id && is_owned user k) seeded.skills)) [
                  | inl m ↦ absurd (ground arith)
                  | inr (k, m) ↦
                      let holds =
                        find_by-holds (λ (k : Skill). k.id == id && is_owned user k) seeded.skills k
                          m in
                      let given : if_enabled user k seeded ≡ some r = ground arith in
                      let owned : is_owned user k ≡ true = ground (arith, holds) in
                      let (same_skill, runs) =
                        if_enabled-MayRun user k r seeded (owned-MaySee user k owned) given in
                      (ground (arith, holds, same_skill, eq_iff k.id id), rw there at runs)
                ]
          ]
    ]
