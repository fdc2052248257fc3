-- ===== src/Agent/Todo/Projection.antt =====
-- A todo list projects to events without a KeyError (backend/app/domain/services/todo_projection.py).
use da_swarm.Base.{
  ℕ, suc, ◌≤◌, String, Bool, true, false, List, [], ◌∷◌, ◌≡◌, refl, map, arith, All, if◌then◌else◌,
  length,
}
use da_swarm.Swarm.Errors.{ok}
use da_swarm.Agent.Plan.{Step, Plan, PlanningEvent, plan_event, step_event, started, step_completed}
use da_swarm.Agent.Plan.Lookups.{step_id, IsKnown, ids-IsKnown, step_of-ok}
use da_swarm.Agent.Todo.{
  TodoItem, todo_item_to_step, todos_to_plan, todo_events, projected_status, project_todo_write,
  last_item, emits_started, emits_completed,
}

abbrev pub item_id : TodoItem → String
item_id i = i.id

ids-steps : (l : List TodoItem) → map step_id (map todo_item_to_step l) ≡ map item_id l
ids-steps [] = refl
ids-steps (i ∷ l) = rw (ids-steps l)

todo_events-ok :
    (previous : List TodoItem) (steps : List Step) (l : List TodoItem)
    → All (IsKnown (map step_id steps)) (map item_id l)
    → (events : List PlanningEvent) × (todo_events previous steps l ≡ ok events)
      × (length events ≤ length l)
unfolding todo_events
todo_events-ok previous steps [] k = ([], refl, omega arith)
todo_events-ok previous steps (i ∷ l) (k, ks) =
    let ((n, s), e) = step_of-ok i.id steps k in
    let (rest, e', short) = todo_events-ok previous steps l ks in
    let out : List PlanningEvent =
      if emits_started (last_item i.id previous) i
      then step_event started s ∷ rest
      else if emits_completed (last_item i.id previous) i
      then step_event step_completed s ∷ rest
      else rest in
    (
      out,
      rw (e, e') refl,
      at_most_one (emits_started (last_item i.id previous) i)
          (emits_completed (last_item i.id previous) i) s rest (length l) short,
    )
  where
    at_most_one :
        (b c : Bool) (s : Step) (rest : List PlanningEvent) (n : ℕ)
        → length rest ≤ n
        → length (
            if b
            then step_event started s ∷ rest
            else if c
            then step_event step_completed s ∷ rest
            else rest)
          ≤ suc n
    at_most_one true c s rest n h = omega (arith, h)
    at_most_one false true s rest n h = omega (arith, h)
    at_most_one false false s rest n h = omega (arith, h)

-- A todo list projects without a KeyError, whatever list came before it: the first event is the plan's,
-- whose steps have the items' identifiers in their order, and each item adds at most one event.
pub project_todo_write-ok :
    (id : String) (items previous : List TodoItem) (title : String)
    → (plan : Plan) × (events : List PlanningEvent) × (project_todo_write id items previous title
        ≡ ok (plan_event (projected_status previous items) plan ∷ events))
      × (map step_id plan.steps ≡ map item_id items)
      × (length events ≤ length items)
unfolding project_todo_write
project_todo_write-ok id items previous title =
    let plan = todos_to_plan id items title "" in
    let (events, e, short) =
      todo_events-ok previous plan.steps items
        (rw (ids-steps items) (ids-IsKnown (map item_id items))) in
    (plan, events, rw e refl, ids-steps items, short)
