-- ===== src/Skills/Subscriptions/Fresh.antt =====
-- Subscribing draws identifiers and keeps the personal skills, so that fresh identifiers stay fresh
-- (backend/app/application/services/skill_service.py).
use da_swarm.Base.{
  ℕ, ◌+◌, ◌≤◌, String, Bool, true, none, List, [], ◌∷◌, ◌==◌, ◌≡◌, refl, ◌∙◌, arith, inl, inr,
  Bool-cases, Option-cases,
}
use da_swarm.Base.Table.{find_by}
use da_swarm.Skills.Subscriptions.{
  UserSkill, Store, subscription_of, save, new_subscription, without_first, add_subscription,
  add_subscriptions,
}

-- No identifier that is drawn from now on belongs to a personal skill that is there.
abbrev pub IsFresh : (ℕ → String) → Store → Type 0
IsFresh uuid s = (n : ℕ) → s.drawn ≤ n → find_by (λ k. k.id == uuid n) s.skills ≡ none

pub without_first-none :
    {A : Type 0} (p : A → Bool) (l : List A) → find_by p l ≡ none → without_first p l ≡ l
unfolding find_by without_first
without_first-none p [] h = refl
without_first-none p (x ∷ l) h = elim (Bool-cases (p x)) [
  | inl e ↦ absurd (ground arith)
  | inr e ↦ rw (e, without_first-none p l (ground arith)) refl
]

-- What draws subscriptions keeps the personal skills.
pub record Kept (s s' : Store) : Type 0 where
  pub skills : s'.skills ≡ s.skills
  pub drawn : s.drawn ≤ s'.drawn

save-Kept : (u : UserSkill) (s : Store) → Kept s (save u s)
unfolding save
save-Kept u s = elim (Option-cases (subscription_of u.user_id u.skill_id s)) [
  | inl e ↦ record { skills = rw (save, e) refl; drawn = rw (save, e) (omega arith) }
  | inr (old, e) ↦ record { skills = rw (save, e) refl; drawn = rw (save, e) (omega arith) }
]

module _ (uuid : ℕ → String) where
  pub Kept-IsFresh : {s s' : Store} → Kept s s' → IsFresh uuid s → IsFresh uuid s'
  Kept-IsFresh k fresh n h = rw k.skills (fresh n (omega (arith, k.drawn, h)))

  add_subscription-Kept :
      (user skill : String) (s : Store) → Kept s (add_subscription uuid user skill true s)
  unfolding add_subscription
  add_subscription-Kept user skill s = elim (Option-cases (subscription_of user skill s)) [
    | inl e ↦
        let k =
          save-Kept (new_subscription uuid user skill true s) (record s { drawn = s.drawn + 1 }) in
        record {
          skills = rw (add_subscription, e) k.skills;
          drawn = rw (add_subscription, e) (omega (arith, k.drawn));
        }
    | inr (old, e) ↦ elim (Bool-cases old.enabled) [
      | inl y ↦ record {
        skills = rw (add_subscription, e, y) refl;
        drawn = rw (add_subscription, e, y) (omega arith);
      }
      | inr y ↦
          let k = save-Kept (record old { enabled = true }) s in
          record {
            skills = rw (add_subscription, e, y) k.skills;
            drawn = rw (add_subscription, e, y) (k.drawn);
          }
    ]
  ]

  pub add_subscriptions-Kept :
      (user : String) (l : List String) (s : Store) → Kept s (add_subscriptions uuid user l s)
  unfolding add_subscriptions
  add_subscriptions-Kept user [] s = record { skills = refl; drawn = omega arith }
  add_subscriptions-Kept user (id ∷ l) s =
      let one = add_subscription-Kept user id s in
      let rest = add_subscriptions-Kept user l (add_subscription uuid user id true s) in
      record { skills = rest.skills ∙ one.skills; drawn = omega (arith, one.drawn, rest.drawn) }
