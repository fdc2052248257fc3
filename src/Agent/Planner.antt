-- ===== src/Agent/Planner.antt =====
-- The planner agent over its tool loop (backend/app/domain/services/agents/planner.py). The prompts, the
-- checks of pydantic and `uuid4` are parameters.
use da_swarm.Agent.Calls.{
  Agency, OutputTool, AgentEvent, calling, called, error_event, message_event, structured_output,
}
use da_swarm.Base.{
  Bool, ℕ, suc, String, false, Option, none, some, List, [], ◌∷◌, ◌++◌, ◌⊎◌, if◌then◌else◌, map,
  take,
}
use mathlib.Core.Option
use da_swarm.Swarm.Json.{Fields}
use da_swarm.Agent.Plan.{pending, Step, Plan, plan_event, updated, is_done}
use da_swarm.Agent.Memory.{Message}
use da_swarm.Agent.Loop.{Run, is_broken, execute_agent}
use da_swarm.Agent.Execution.{FlowEvent, planning, said, failed_with, tool_calling, tool_called}

pub record PlanStepDraft : Type 0 where
  pub id : String
  pub description : String

pub record PlanOutput : Type 0 where
  pub message : String
  pub language : String
  pub title : String
  pub goal : String
  pub steps : List PlanStepDraft

abbrev pub PlanUpdateOutput : Type 0
PlanUpdateOutput = List PlanStepDraft

-- The prompts, what pydantic makes of the arguments of the output tools, and the identifier of a new plan.
pub record Drafting : Type 0 where
  pub create_request : String
  pub update_request : Plan → Option Step → String
  pub validate_plan : Fields → PlanOutput ⊎ String
  pub validate_update : Fields → PlanUpdateOutput ⊎ String
  pub plan_id : PlanOutput → String

-- `Step.model_validate(s.model_dump())`
abbrev pub step_of_draft : PlanStepDraft → Step
step_of_draft s = record {
  id = s.id;
  description = s.description;
  status = pending;
  result = none;
  error = none;
  success = false;
  attachments = [];
}

-- `first_pending_index`
unfoldable pub first_pending_index : List Step → Option ℕ
first_pending_index [] = none
first_pending_index (s ∷ l) =
    let rest = first_pending_index l in if is_done s then Option.map suc rest else some 0

-- The steps after a plan was rewritten: the new ones take the place of all from the first open one on, or
-- come after the others if none is open.
unfoldable pub replanned : PlanUpdateOutput → List Step → List Step
replanned new steps = elim (first_pending_index steps) [
  | some n ↦ take n steps ++ map step_of_draft new
  | none ↦ steps ++ map step_of_draft new
]

-- What the planner made of the events of its run: the plans it submitted in their order, among the others.
unfoldable pub update_events : Plan → List (AgentEvent PlanUpdateOutput) → Plan × List FlowEvent
update_events p [] = (p, [])
update_events p (e ∷ l) = elim e [
  | structured_output new ↦
      let p' = record p { steps = replanned new p.steps } in
      let (last, rest) = update_events p' l in (last, planning (plan_event updated p') ∷ rest)
  | message_event m ↦ let (last, rest) = update_events p l in (last, said m [] ∷ rest)
  | error_event m ↦ let (last, rest) = update_events p l in (last, failed_with m ∷ rest)
  | calling c ↦ let (last, rest) = update_events p l in (last, tool_calling c ∷ rest)
  | called c ↦ let (last, rest) = update_events p l in (last, tool_called c ∷ rest)
]

module _ (d : Drafting) where
  abbrev pub create_plan_tool : OutputTool PlanOutput
  create_plan_tool = record {
    name = "create_plan";
    validate = d.validate_plan;
    succeeds = λ _. false;
  }

  abbrev pub update_plan_tool : OutputTool PlanUpdateOutput
  update_plan_tool = record {
    name = "update_plan";
    validate = d.validate_update;
    succeeds = λ _. false;
  }

  -- `Plan.model_validate(output.model_dump())`
  abbrev pub plan_of_output : PlanOutput → Plan
  plan_of_output o = record {
    id = d.plan_id o;
    title = o.title;
    goal = o.goal;
    language = some o.language;
    steps = map step_of_draft o.steps;
    message = some o.message;
    status = pending;
    result = none;
    error = none;
  }

  module _ (a : Agency) where
    -- The run of `create_plan`; the flow reads its events.
    abbrev pub create_plan : List Message → Run PlanOutput
    create_plan memory = execute_agent a (some create_plan_tool) false 0 memory d.create_request

    -- `update_plan`, and whether it raised.
    unfoldable pub update_plan :
        Plan → Option Step → List Message → (Plan × List FlowEvent) × (Bool × List Message)
    update_plan plan step memory =
        let run =
          execute_agent a (some update_plan_tool) false 0 memory (d.update_request plan step) in
        (update_events plan run.events, (is_broken run.ending, run.memory))
