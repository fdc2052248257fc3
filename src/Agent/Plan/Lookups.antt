-- ===== src/Agent/Plan/Lookups.antt =====
-- The dictionaries of `apply_plan_report` (backend/app/domain/services/plan_progress.py): what they
-- have, and that a report renames no step.
use da_swarm.Base.{
  ℕ, zero, suc, String, Option, none, some, List, [], ◌∷◌, ◌≡◌, ◌≢◌, refl, sym, ◌∙◌, map, arith,
  All, inl, inr, Bool-cases, Option-cases, if◌then◌else◌, ◌==◌, eq_refl,
}
use da_swarm.Swarm.Errors.{ok}
use da_swarm.Agent.Plan.{
  ExecutionStatus, pending, running, completed, failed, Step, StepUpdate, Progress, is_running,
  last_index, step_at, update_at, updated_step, apply_update, apply_updates, step_of, halted,
  demote,
}

abbrev pub step_id : Step → String
step_id s = s.id

-- The identifiers decide what the dictionaries hold.
unfoldable pub last_of : String → List String → Option ℕ
last_of id [] = none
last_of id (x ∷ l) = elim (last_of id l) [
  | some n ↦ some (suc n)
  | none ↦ if x == id then some 0 else none
]

pub last_index-last_of :
    (id : String) (l : List Step) → last_index id l ≡ last_of id (map step_id l)
unfolding last_index last_of
last_index-last_of id [] = refl
last_index-last_of id (s ∷ l) = rw (last_index-last_of id l)

-- An identifier that a dictionary over these identifiers has.
abbrev pub IsKnown : List String → String → Type 0
IsKnown ids id = last_of id ids ≢ none

IsKnown-later : (x id : String) (ids : List String) → IsKnown ids id → IsKnown (x ∷ ids) id
unfolding last_of
IsKnown-later x id ids k h = elim (Option-cases (last_of id ids)) [
  | inl e ↦ k e
  | inr (n, e) ↦ ground arith
]

pub ids-IsKnown : (ids : List String) → All (IsKnown ids) ids
unfolding last_of
ids-IsKnown ids = go ids ids (λ id k. k)
  where
    go : (l m : List String) → ((id : String) → IsKnown l id → IsKnown m id) → All (IsKnown m) l
    go [] m f = tt
    go (x ∷ l) m f = (f x (head x l), go l m (λ id k. f id (IsKnown-later x id l k)))
      where
        head : (x : String) (l : List String) → IsKnown (x ∷ l) x
        head x l h = ground (arith, eq_refl x, h)

step_at-found :
    (id : String) (l : List Step) (n : ℕ)
    → last_index id l ≡ some n
    → (s : Step) × (step_at n l ≡ some s)
unfolding last_index step_at
step_at-found id [] n h = cc
step_at-found id (s ∷ l) n h = elim (Option-cases (last_index id l)) [
  | inr (m, e) ↦
      let found = step_at-found id l m e in let i : n ≡ suc m = ground arith in rw i found
  | inl e ↦ elim (Bool-cases (s.id == id)) [
    | inl t ↦ let i : n ≡ 0 = ground arith in rw i (s, refl)
    | inr t ↦ absurd (ground arith)
  ]
]

pub step_of-ok :
    (id : String) (l : List Step)
    → IsKnown (map step_id l) id
    → (r : ℕ × Step) × (step_of id l ≡ ok r)
unfolding step_of
step_of-ok id l k = elim (Option-cases (last_index id l)) [
  | inl e ↦ absurd (k (sym (last_index-last_of id l) ∙ e))
  | inr (n, e) ↦ let (s, t) = step_at-found id l n e in ((n, s), ground (arith, e, t))
]

-- No part of a report renames a step.
pub update_at-ids :
    (n : ℕ) (f : Step → Step) (l : List Step)
    → ((s : Step) → (f s).id ≡ s.id)
    → map step_id (update_at n f l) ≡ map step_id l
unfolding update_at
update_at-ids n f [] same = refl
update_at-ids zero f (s ∷ l) same = rw (same s)
update_at-ids (suc n) f (s ∷ l) same = rw (update_at-ids n f l same)

halted-id : (s : Step) → (halted s).id ≡ s.id
halted-id s = elim (Bool-cases (is_running s.status)) [ inl e ↦ rw e refl | inr e ↦ rw e refl ]

pub demote-ids : (keep : Option ℕ) (l : List Step) → map step_id (demote keep l) ≡ map step_id l
unfolding demote
demote-ids none [] = refl
demote-ids (some zero) [] = refl
demote-ids (some (suc n)) [] = refl
demote-ids none (s ∷ l) = rw (halted-id s, demote-ids none l)
demote-ids (some zero) (s ∷ l) = rw (demote-ids none l)
demote-ids (some (suc n)) (s ∷ l) = rw (halted-id s, demote-ids (some n) l)

updated_step-id : (u : StepUpdate) (s : Step) → (updated_step u s).id ≡ s.id
updated_step-id u s = by_cases u.status u.reflection s
  where
    by_cases :
        (e : ExecutionStatus) (r : Option String) (s : Step)
        → (updated_step (record { id = u.id; status = e; reflection = r }) s).id ≡ s.id
    by_cases pending none s = refl
    by_cases pending (some r) s = refl
    by_cases running none s = refl
    by_cases running (some r) s = refl
    by_cases completed none s = refl
    by_cases completed (some r) s = refl
    by_cases failed none s = refl
    by_cases failed (some r) s = refl

-- What the loop over the updates keeps: the identifiers, and that it has noted only known ones.
pub record Tracks (ids : List String) (p : Progress) : Type 0 where
  pub same : map step_id p.steps ≡ ids
  pub known : All (IsKnown ids) p.running_updates

apply_update-Tracks :
    (ids : List String) (u : StepUpdate) (p : Progress)
    → Tracks ids p
    → Tracks ids (apply_update u p)
unfolding apply_update
apply_update-Tracks ids u p t = elim (Option-cases (last_index u.id p.steps)) [
  | inl e ↦ let idle : apply_update u p ≡ p = rw (apply_update, e) refl in rw idle t
  | inr (n, e) ↦
      let k : IsKnown ids u.id =
        λ h. ground (arith, last_index-last_of u.id p.steps, t.same, e, h) in
      rw (apply_update, e)
        (record {
          same = update_at-ids n (updated_step u) p.steps (updated_step-id u) ∙ t.same;
          known = elim (Bool-cases (is_running u.status)) [
            | inl r ↦ rw r (k, t.known)
            | inr r ↦ rw r t.known
          ];
        })
]

pub apply_updates-Tracks :
    (ids : List String) (l : List StepUpdate) (p : Progress)
    → Tracks ids p
    → Tracks ids (apply_updates l p)
unfolding apply_updates
apply_updates-Tracks ids [] p t = t
apply_updates-Tracks ids (u ∷ l) p t =
    apply_updates-Tracks ids l (apply_update u p) (apply_update-Tracks ids u p t)
