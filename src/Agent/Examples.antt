-- ===== src/Agent/Examples.antt =====
-- The agent theorems at concrete plans, reports, lists and memories.
use da_swarm.Base.{
  ◌≤◌, ◌⊎◌, true, false, String, none, some, List, [], ◌∷◌, ◌++◌, ◌≡◌, map, drop, All,
}
use da_swarm.Swarm.Errors.{ok}
use da_swarm.Agent.Plan.{
  ExecutionStatus, pending, running, completed, Step, Plan, PlanningEvent, plan_event, updated,
  Report, apply_plan_report,
}
use da_swarm.Agent.Plan.Lookups.{step_id}
use da_swarm.Agent.Plan.Reports.{count_running, apply_plan_report-ok}
use da_swarm.Agent.Memory.{Role, user, tool, Message, fits, cutoff, compact}
use da_swarm.Agent.Memory.Compaction.{skeleton, IsSettled, compact-ok}
use da_swarm.Agent.Todo.{TodoItem, todo_pending, in_progress}

abbrev a_step : String → ExecutionStatus → Step
a_step id status = record {
  id = id;
  description = "";
  status = status;
  result = none;
  error = none;
  success = false;
  attachments = [];
}

abbrev a_plan : Plan
a_plan = record {
  id = "plan";
  title = "Trip";
  goal = "Plan a trip";
  language = some "en";
  steps = a_step "1" running ∷ a_step "2" pending ∷ a_step "3" pending ∷ [];
  message = none;
  status = pending;
  result = none;
  error = none;
}

-- Two steps are reported as running, and one that the plan does not have.
abbrev a_report : Report
a_report = record {
  steps =
      record { id = "2"; status = running; reflection = some "searching" }
      ∷ record { id = "9"; status = completed; reflection = none }
      ∷ record { id = "3"; status = running; reflection = none }
      ∷ [];
  reflection = "on the way";
}

apply_plan_report-ok_example :
    (new : Plan) × (events : List PlanningEvent) × (apply_plan_report a_plan a_report
      ≡ ok (new, plan_event updated new ∷ events))
    × (map step_id new.steps ≡ map step_id a_plan.steps)
    × (count_running new.steps ≤ 1)
apply_plan_report-ok_example = apply_plan_report-ok a_plan a_report

abbrev a_message : Role → String → Message
a_message role content = record {
  role = role;
  content = content;
  tool_calls = [];
  tool_call_id = none;
  name = none;
}

abbrev a_memory : List Message
a_memory =
    a_message user "find owls"
    ∷ a_message tool "a long page about owls, their calls and their prey, with all of its text"
    ∷ a_message tool "another page"
    ∷ []

compact-ok_example :
    (map skeleton (compact (λ _. "") 20 1 a_memory) ≡ map skeleton a_memory)
    × (old : List Message) × (compact (λ _. "") 20 1 a_memory
        ≡ old ++ drop (cutoff 1 a_memory) a_memory)
    × ((fits (λ _. "") 20 (compact (λ _. "") 20 1 a_memory) ≡ true) ⊎ All IsSettled old)
compact-ok_example = compact-ok (λ _. "") 20 1 a_memory

abbrev the_items : List TodoItem
the_items =
    record { id = "a"; content = "search"; status = in_progress }
    ∷ record { id = "b"; content = "write"; status = todo_pending }
    ∷ []
