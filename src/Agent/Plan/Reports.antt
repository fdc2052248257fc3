-- ===== src/Agent/Plan/Reports.antt =====
-- `apply_plan_report` (backend/app/domain/services/plan_progress.py): it raises no KeyError, and leaves
-- at most one step running.
use da_swarm.Base.{
  ℕ, zero, suc, ◌+◌, ◌≤◌, String, false, Option, none, some, List, [], ◌∷◌, ◌≡◌, refl, sym, ◌∙◌,
  map, arith, All, inl, inr, Bool-cases, if◌then◌else◌, ◌==◌,
}
use da_swarm.Swarm.Errors.{ok}
use da_swarm.Agent.Plan.{
  Step, Plan, PlanningEvent, plan_event, updated, Report, Progress, is_running, update_at,
  apply_updates, first_running, preferred_running, halted, demote, has_result, reflect, status_of,
  step_events, apply_plan_report,
}
use da_swarm.Agent.Plan.Lookups.{
  step_id, IsKnown, ids-IsKnown, step_of-ok, update_at-ids, demote-ids, apply_updates-Tracks,
}

unfoldable pub count_running : List Step → ℕ
count_running [] = 0
count_running (s ∷ l) = let n = count_running l in if is_running s.status then n + 1 else n

halted-idle : (s : Step) → is_running (halted s).status ≡ false
halted-idle s = elim (Bool-cases (is_running s.status)) [
  | inl e ↦ rw e refl
  | inr e ↦ rw (e, e) refl
]

demote-none : (l : List Step) → count_running (demote none l) ≡ 0
unfolding demote count_running
demote-none [] = refl
demote-none (s ∷ l) = rw (halted-idle s, demote-none l)

demote-count : (keep : Option ℕ) (l : List Step) → count_running (demote keep l) ≤ 1
unfolding demote count_running
demote-count keep [] = omega arith
demote-count none (s ∷ l) = omega (arith, demote-none (s ∷ l))
demote-count (some zero) (s ∷ l) = ground (arith, demote-none l)
demote-count (some (suc n)) (s ∷ l) = ground (arith, halted-idle s, demote-count (some n) l)

update_at-count :
    (n : ℕ) (f : Step → Step) (l : List Step)
    → ((s : Step) → (f s).status ≡ s.status)
    → count_running (update_at n f l) ≡ count_running l
unfolding update_at count_running
update_at-count n f [] same = refl
update_at-count zero f (s ∷ l) same = rw (same s)
update_at-count (suc n) f (s ∷ l) same = rw (update_at-count n f l same)

-- The overall reflection changes no status and no identifier.
reflect-same :
    (text : String) (touched : Option ℕ) (l : List Step)
    → (count_running (reflect text touched l) ≡ count_running l)
      × (map step_id (reflect text touched l) ≡ map step_id l)
unfolding reflect
reflect-same text none l = (refl, refl)
reflect-same text (some n) l = elim (Bool-cases (text == "")) [
  | inl e ↦ rw e (refl, refl)
  | inr e ↦ rw e (update_at-count n _ l (λ s. (noted s).0), update_at-ids n _ l (λ s. (noted s).1))
]
  where
    noted :
        (s : Step)
        → ((if has_result s then s else record s { result = some text }).status ≡ s.status)
          × ((if has_result s then s else record s { result = some text }).id ≡ s.id)
    noted s = elim (Bool-cases (has_result s)) [
      | inl e ↦ rw e (refl, refl)
      | inr e ↦ rw e (refl, refl)
    ]

preferred_running-ok :
    (l : List Step) (ids : List String)
    → All (IsKnown (map step_id l)) ids
    → (keep : Option ℕ) × (preferred_running l ids ≡ ok keep)
unfolding preferred_running
preferred_running-ok l [] k = (first_running l, refl)
preferred_running-ok l (id ∷ ids) (k, ks) =
    let ((n, s), e) = step_of-ok id l k in
    let (keep, e') = preferred_running-ok l ids ks in
    elim (Bool-cases (is_running s.status)) [
      | inl r ↦ (some n, ground (arith, e))
      | inr r ↦ (keep, ground (arith, e, e'))
    ]

step_events-ok :
    (old l : List Step)
    → All (IsKnown (map step_id old)) (map step_id l)
    → (events : List PlanningEvent) × (step_events old l ≡ ok events)
unfolding step_events status_of
step_events-ok old [] k = ([], refl)
step_events-ok old (s ∷ l) (k, ks) =
    let ((n, t), e) = step_of-ok s.id old k in
    let (rest, e') = step_events-ok old l ks in rw (step_events, status_of, e, e') (_, refl)

-- Whatever a report says, it is applied without a KeyError; the plan keeps its steps' identifiers in their
-- order, at most one step runs afterwards, and the first event shows the plan as updated.
pub apply_plan_report-ok :
    (plan : Plan) (report : Report)
    → (new : Plan) × (events : List PlanningEvent) × (apply_plan_report plan report
        ≡ ok (new, plan_event updated new ∷ events))
      × (map step_id new.steps ≡ map step_id plan.steps)
      × (count_running new.steps ≤ 1)
unfolding apply_plan_report
apply_plan_report-ok plan report =
    let start : Progress = record {
      steps = plan.steps;
      running_updates = [];
      last_touched = none;
    } in
    let p = apply_updates report.steps start in
    let t =
      apply_updates-Tracks (map step_id plan.steps) report.steps start
        (record { same = refl; known = tt }) in
    let (keep, e) = preferred_running-ok p.steps p.running_updates (rw (sym t.same) at (t.known)) in
    let (count, ids) = reflect-same report.reflection p.last_touched (demote keep p.steps) in
    let new : Plan = record plan {
      steps = reflect report.reflection p.last_touched (demote keep p.steps);
    } in
    let same : map step_id new.steps ≡ map step_id plan.steps =
      ids ∙ demote-ids keep p.steps ∙ t.same in
    let (events, e') =
      step_events-ok plan.steps new.steps (rw same (ids-IsKnown (map step_id plan.steps))) in
    (new, events, rw (e, e') refl, same, omega (arith, count, demote-count keep p.steps))
