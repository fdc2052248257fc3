-- ===== src/Agent/Todo.antt =====
-- The plan that the todo list projects to (backend/app/domain/services/todo_projection.py). The new plan's
-- own identifier, a `uuid4`, is a parameter.
pub mod Projection
use da_swarm.Base.{
  String, Bool, true, false, ◌&&◌, ◌||◌, not, Option, none, some, List, [], ◌∷◌, ◌==◌, map,
  if◌then◌else◌,
}
use da_swarm.Swarm.Errors.{Result, ok, err, key_error, ◌>>=◌}
use da_swarm.Agent.Plan.{
  ExecutionStatus, pending, running, completed, failed, Step, Plan, PlanStatus, created, updated,
  StepStatus, started, step_completed, PlanningEvent, plan_event, step_event, step_of,
}

pub data TodoStatus : Type 0 where
  todo_pending : TodoStatus
  in_progress : TodoStatus
  todo_completed : TodoStatus
  cancelled : TodoStatus

pub record TodoItem : Type 0 where
  pub id : String
  pub content : String
  pub status : TodoStatus

-- `_todo_status_to_execution`
abbrev pub todo_status_to_execution : TodoStatus → ExecutionStatus × Bool
todo_status_to_execution todo_pending = (pending, false)
todo_status_to_execution in_progress = (running, false)
todo_status_to_execution todo_completed = (completed, true)
todo_status_to_execution cancelled = (completed, false)

-- `_todo_item_to_step`
abbrev pub todo_item_to_step : TodoItem → Step
todo_item_to_step item = record {
  id = item.id;
  description = item.content;
  status = (todo_status_to_execution item.status).0;
  result = none;
  error = none;
  success = (todo_status_to_execution item.status).1;
  attachments = [];
}

abbrev pub is_todo_pending : TodoStatus → Bool
is_todo_pending todo_pending = true
is_todo_pending _ = false

-- The goal that is found when none is given: the first pending item's content.
unfoldable pub first_goal : List TodoItem → String
first_goal [] = ""
first_goal (i ∷ l) = let rest = first_goal l in if is_todo_pending i.status then i.content else rest

-- `todos_to_plan`
abbrev pub todos_to_plan : String → List TodoItem → String → String → Plan
todos_to_plan id items title goal = record {
  id = id;
  title = title;
  goal = if goal == "" then first_goal items else goal;
  language = some "en";
  steps = map todo_item_to_step items;
  message = none;
  status = pending;
  result = none;
  error = none;
}

-- `prev_by_id.get(id)`: the last item with that identifier.
unfoldable pub last_item : String → List TodoItem → Option TodoItem
last_item id [] = none
last_item id (i ∷ l) = elim (last_item id l) [
  | some j ↦ some j
  | none ↦ if i.id == id then some i else none
]

-- `_should_emit_started`
abbrev pub emits_started : Option TodoItem → TodoItem → Bool
emits_started prev item = elim item.status [
  | in_progress ↦ elim prev [ none ↦ true | some p ↦ is_todo_pending p.status ]
  | _ ↦ false
]

abbrev pub is_same_end : TodoStatus → TodoStatus → Bool
is_same_end todo_completed todo_completed = true
is_same_end cancelled cancelled = true
is_same_end _ _ = false

-- `_should_emit_completed`
abbrev pub emits_completed : Option TodoItem → TodoItem → Bool
emits_completed prev item =
    (elim item.status [ todo_completed ↦ true | cancelled ↦ true | _ ↦ false ])
    && elim prev [ none ↦ true | some p ↦ not (is_same_end p.status item.status) ]

unfoldable pub todo_events : List TodoItem → List Step → List TodoItem → Result (List PlanningEvent)
todo_events previous steps [] = ok []
todo_events previous steps (i ∷ l) = do
  (_, step) ← step_of i.id steps
  rest ← todo_events previous steps l
  ok (
      if emits_started (last_item i.id previous) i
      then step_event started step ∷ rest
      else if emits_completed (last_item i.id previous) i
      then step_event step_completed step ∷ rest
      else rest)

-- `PlanStatus.CREATED` for the first list that is not empty.
unfoldable pub projected_status : List TodoItem → List TodoItem → PlanStatus
projected_status [] (_ ∷ _) = created
projected_status _ _ = updated

-- `project_todo_write`; `none` and the empty list are treated alike as `previous_items`.
unfoldable pub project_todo_write :
    String → List TodoItem → List TodoItem → String → Result (List PlanningEvent)
project_todo_write id items previous title = do
  let plan = todos_to_plan id items title ""
  events ← todo_events previous plan.steps items
  ok (plan_event (projected_status previous items) plan ∷ events)
