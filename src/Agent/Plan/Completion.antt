-- ===== src/Agent/Plan/Completion.antt =====
-- Which step is next, and what completing a plan leaves (backend/app/domain/models/plan.py,
-- backend/app/domain/services/plan_progress.py).
use da_swarm.Base.{
  true, none, some, List, [], ◌∷◌, ◌≡◌, refl, ◌↔◌, map, all, arith, inl, inr, Bool-cases,
}
use da_swarm.Agent.Plan.{
  running, Step, Plan, is_over, is_done, next_open, get_next_step, is_plan_finished, mark_steps,
  mark_first_step_running, finished_step, complete_plan,
}

next_open_iff : (l : List Step) → (next_open l ≡ none) ↔ (all is_done l ≡ true)
unfolding next_open
next_open_iff [] = (λ _. refl, λ _. refl)
next_open_iff (s ∷ l) = elim (Bool-cases (is_done s)) [
  | inl e ↦ rw e (next_open_iff l)
  | inr e ↦ rw e (λ h. cc, λ h. cc)
]

-- A plan has no next step exactly when it is finished.
pub get_next_step_iff : (p : Plan) → (get_next_step p ≡ none) ↔ (is_plan_finished p ≡ true)
get_next_step_iff p = next_open_iff p.steps

next-mark :
    (l : List Step) (s : Step)
    → next_open l ≡ some s
    → next_open (mark_steps l) ≡ some (record s { status = running })
unfolding next_open mark_steps
next-mark [] s h = cc
next-mark (x ∷ l) s h = elim (Bool-cases (is_over x.status)) [
  | inl e ↦ ground (arith, next-mark l s)
  | inr e ↦ ground arith
]

-- Marking the first step running is about the next step: it stays the next one, and runs.
get_next_step-mark :
    (p : Plan) (s : Step)
    → get_next_step p ≡ some s
    → get_next_step (mark_first_step_running p) ≡ some (record s { status = running })
get_next_step-mark p s h = next-mark p.steps s h

finished-over : (s : Step) → is_over (finished_step s).status ≡ true
finished-over s = elim (Bool-cases (is_over s.status)) [
  | inl e ↦ rw (e, e) refl
  | inr e ↦ rw e refl
]

all-finished : (l : List Step) → all is_done (map finished_step l) ≡ true
all-finished [] = refl
all-finished (s ∷ l) = rw (finished-over s, all-finished l)

-- Completing a plan finishes it, and no step is next.
complete_plan-finished :
    (p : Plan)
    → (is_plan_finished (complete_plan p) ≡ true) × (get_next_step (complete_plan p) ≡ none)
complete_plan-finished p =
    let f = all-finished p.steps in (f, (get_next_step_iff (complete_plan p)).1 f)
