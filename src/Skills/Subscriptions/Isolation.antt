-- ===== src/Skills/Subscriptions/Isolation.antt =====
-- What one user does with skills touches no other user's (backend/app/application/services/skill_service.py).
use da_swarm.Base.{
  ℕ, ◌+◌, String, Bool, true, false, ◌&&◌, ◌||◌, not, Option, none, some, List, [], ◌∷◌, ◌++◌, ◌==◌,
  ◌≡◌, ◌≢◌, refl, sym, ◌∙◌, arith, inl, inr, Bool-cases, Option-cases, eq_iff, eqb, if◌then◌else◌,
}
use da_swarm.Base.Table.{find_by, update_where, count_where}
use da_swarm.Swarm.Errors.{Result, ok, err, not_found}
use da_swarm.Skills.Subscriptions.{
  Skill, UserSkill, Store, default_added, is_of, subscription_of, of_user, save, last_skill,
  owned_by, catalog_of, new_subscription, add_subscription, add_subscriptions, personal_skill,
  save_personal, seed, ensure_default, add_skill, add_all, add_skills, set_skill_enabled,
}
use da_swarm.Skills.Subscriptions.Fresh.{
  IsFresh, without_first-none, Kept-IsFresh, add_subscriptions-Kept,
}

-- The subscriptions and the personal skills of a user stay as they are.
pub record IsUntouched (v : String) (s s' : Store) : Type 0 where
  pub subscriptions : of_user v s'.subscriptions ≡ of_user v s.subscriptions
  pub skills : owned_by v s'.skills ≡ owned_by v s.skills

IsUntouched-refl : (v : String) (s : Store) → IsUntouched v s s
IsUntouched-refl v s = record { subscriptions = refl; skills = refl }

IsUntouched-trans :
    {v : String} {a b c : Store} → IsUntouched v a b → IsUntouched v b c → IsUntouched v a c
IsUntouched-trans x y = record {
  subscriptions = y.subscriptions ∙ x.subscriptions;
  skills = y.skills ∙ x.skills;
}

module _ (user v : String) (other : user ≢ v) where
  of_user-append :
      (l : List UserSkill) (u : UserSkill)
      → u.user_id ≡ user
      → of_user v (l ++ (u ∷ [])) ≡ of_user v l
  unfolding of_user
  of_user-append [] u e = ground (arith, other, eq_iff u.user_id v)
  of_user-append (x ∷ l) u e = ground (arith, of_user-append l u e)

  of_user-update :
      (l : List UserSkill) (skill : String) (u : UserSkill)
      → u.user_id ≡ user
      → of_user v (update_where (is_of user skill) (λ _. u) l) ≡ of_user v l
  unfolding of_user update_where
  of_user-update [] skill u e = refl
  of_user-update (x ∷ l) skill u e = ground (
    arith,
    of_user-update l skill u e,
    other,
    eq_iff u.user_id v,
    eq_iff x.user_id v,
    eq_iff x.user_id user,
  )

save-IsUntouched :
    (v : String) (u : UserSkill) (s : Store) → u.user_id ≢ v → IsUntouched v s (save u s)
unfolding save
save-IsUntouched v u s other = elim (Option-cases (subscription_of u.user_id u.skill_id s)) [
  | inl n ↦ record {
    subscriptions = rw (save, n) (of_user-append u.user_id v other s.subscriptions u refl);
    skills = rw (save, n) refl;
  }
  | inr (old, n) ↦ record {
    subscriptions =
        rw (save, n)
          (of_user-update u.user_id v other s.subscriptions u.skill_id (record u { id = old.id })
            refl);
    skills = rw (save, n) refl;
  }
]

pub find_by-holds :
    {A : Type 0} (p : A → Bool) (l : List A) (r : A) → find_by p l ≡ some r → p r ≡ true
unfolding find_by
find_by-holds p [] r h = cc
find_by-holds p (x ∷ l) r h = elim (Bool-cases (p x)) [
  | inl e ↦ let same : x ≡ r = ground arith in rw same at e
  | inr e ↦ find_by-holds p l r (ground arith)
]

-- A subscription that is found is the user's.
subscription_of-user :
    (user skill : String) (s : Store) (u : UserSkill)
    → subscription_of user skill s ≡ some u
    → u.user_id ≡ user
subscription_of-user user skill s u h =
    let found = find_by-holds (is_of user skill) s.subscriptions u h in
    ground (arith, found, eq_iff u.user_id user)

module _ (uuid : ℕ → String) (user v : String) (other : user ≢ v) where
  changed-IsUntouched :
      (skill : String) (enabled : Bool) (s : Store) (u : UserSkill)
      → subscription_of user skill s ≡ some u
      → IsUntouched v s (save (record u { enabled = enabled }) s)
  changed-IsUntouched skill enabled s u h =
      save-IsUntouched v (record u { enabled = enabled }) s
        (λ e. other (sym (subscription_of-user user skill s u h) ∙ e))

  new-IsUntouched :
      (skill : String) (s : Store)
      → IsUntouched v s
          (save (new_subscription uuid user skill true s) (record s { drawn = s.drawn + 1 }))
  new-IsUntouched skill s =
      let i =
        save-IsUntouched v (new_subscription uuid user skill true s)
          (record s { drawn = s.drawn + 1 }) other in
      record { subscriptions = i.subscriptions; skills = i.skills }

  either-IsUntouched :
      (b : Bool) {s x y : Store}
      → IsUntouched v s x
      → IsUntouched v s y
      → IsUntouched v s (if b then x else y)
  either-IsUntouched true i j = i
  either-IsUntouched false i j = j

  add_subscription-IsUntouched :
      (skill : String) (s : Store) → IsUntouched v s (add_subscription uuid user skill true s)
  unfolding add_subscription
  add_subscription-IsUntouched skill s = go (subscription_of user skill s) refl
    where
      go :
          (o : Option UserSkill)
          → subscription_of user skill s ≡ o
          → IsUntouched v s (elim o [
            | some old ↦
                if (old.enabled && true) || not (old.enabled || true)
                then s
                else save (record old { enabled = true }) s
            | none ↦
                save (new_subscription uuid user skill true s) (record s { drawn = s.drawn + 1 })
          ])
      go none e = new-IsUntouched skill s
      go (some old) e =
          either-IsUntouched ((old.enabled && true) || not (old.enabled || true))
            (IsUntouched-refl v s) (changed-IsUntouched skill true s old e)

  add_subscriptions-IsUntouched :
      (l : List String) (s : Store) → IsUntouched v s (add_subscriptions uuid user l s)
  unfolding add_subscriptions
  add_subscriptions-IsUntouched [] s = IsUntouched-refl v s
  add_subscriptions-IsUntouched (k ∷ l) s =
      IsUntouched-trans (add_subscription-IsUntouched k s)
        (add_subscriptions-IsUntouched l (add_subscription uuid user k true s))

  save_personal-IsUntouched :
      (s : Store)
      → IsFresh uuid s
      → IsUntouched v s (save_personal uuid (personal_skill uuid user s) s)
  unfolding owned_by
  save_personal-IsUntouched s fresh =
      let same =
        without_first-none (λ k. k.id == uuid s.drawn) s.skills (fresh s.drawn (omega arith)) in
      record { subscriptions = refl; skills = rw same (ground (arith, other, eq_iff user v)) }

  seed-IsUntouched : (s : Store) → IsFresh uuid s → IsUntouched v s (seed uuid user s)
  unfolding seed
  seed-IsUntouched s fresh = IsUntouched-trans (save_personal-IsUntouched s fresh) (
      add_subscription-IsUntouched (personal_skill uuid user s).id
        (save_personal uuid (personal_skill uuid user s) s))

  ensure_default-IsUntouched :
      (s : Store) → IsFresh uuid s → IsUntouched v s (ensure_default uuid user s)
  unfolding ensure_default
  ensure_default-IsUntouched s fresh =
      either-IsUntouched
        (eqb (count_where (λ (u : UserSkill). u.user_id == user) s.subscriptions) 0)
        (IsUntouched-trans (add_subscriptions-IsUntouched default_added s) (
          seed-IsUntouched (add_subscriptions uuid user default_added s)
            (Kept-IsFresh uuid (add_subscriptions-Kept uuid user default_added s) fresh)))
        (IsUntouched-refl v s)

  add_skill-IsUntouched : (k : Skill) (s : Store) → IsUntouched v s (add_skill uuid user k s).1
  unfolding add_skill
  add_skill-IsUntouched k s = go (subscription_of user k.id s) refl
    where
      go :
          (o : Option UserSkill)
          → subscription_of user k.id s ≡ o
          → IsUntouched v s
              (elim o as (λ _. Option Skill × Store) [
                | some old ↦
                    (none, if old.enabled then s else save (record old { enabled = true }) s)
                | none ↦ (
                  some k,
                  save (new_subscription uuid user k.id true s) (record s { drawn = s.drawn + 1 }),
                )
              ]).1
      go none e = new-IsUntouched k.id s
      go (some old) e =
          either-IsUntouched old.enabled (IsUntouched-refl v s)
            (changed-IsUntouched k.id true s old e)

  add_all-IsUntouched :
      (catalog : List Skill) (l : List String) (s : Store)
      → IsUntouched v s (add_all uuid user catalog l s).1
  unfolding add_all
  add_all-IsUntouched catalog [] s = IsUntouched-refl v s
  add_all-IsUntouched catalog (id ∷ l) s =
      elim (Option-cases (last_skill (λ k. k.id == id) catalog)) [
        | inl e ↦ record { subscriptions = rw (add_all, e) refl; skills = rw (add_all, e) refl }
        | inr (k, e) ↦
            let i =
              IsUntouched-trans (add_skill-IsUntouched k s)
                (add_all-IsUntouched catalog l (add_skill uuid user k s).1) in
            record {
              subscriptions = rw (add_all, e) i.subscriptions;
              skills = rw (add_all, e) i.skills;
            }
      ]

-- Adding skills for a user, the seeding of the defaults included, and enabling or disabling one leave the
-- subscriptions and the personal skills of every other user as they are, also where the call raises, if the
-- identifiers that are drawn belong to no personal skill that is there.
pub add_skills-IsUntouched :
    (uuid : ℕ → String) (user v : String) (ids : List String) (skill : String) (enabled : Bool)
    (s : Store)
    → user ≢ v
    → IsFresh uuid s
    → IsUntouched v s (add_skills uuid user ids s).1
      × IsUntouched v s (set_skill_enabled user skill enabled s).1
unfolding add_skills set_skill_enabled
add_skills-IsUntouched uuid user v ids skill enabled s other fresh = (
  IsUntouched-trans (ensure_default-IsUntouched uuid user v other s fresh) (
      add_all-IsUntouched uuid user v other (catalog_of user (ensure_default uuid user s)) ids
        (ensure_default uuid user s)),
  go (subscription_of user skill s) refl,
)
  where
    go :
        (o : Option UserSkill)
        → subscription_of user skill s ≡ o
        → IsUntouched v s
            (elim o as (λ _. Result UserSkill × Store) [
              | none ↦ (err not_found, s)
              | some old ↦
                  (ok (record old { enabled = enabled }), save (record old { enabled = enabled }) s)
            ]).1
    go none e = IsUntouched-refl v s
    go (some old) e = changed-IsUntouched uuid user v other skill enabled s old e
