-- ===== src/Agent/Execution.antt =====
-- The execution agent over its tool loop (backend/app/domain/services/agents/execution.py). The prompts, the
-- checks of pydantic, the language model and the tools are parameters.
pub mod Verdict
use da_swarm.Agent.Calls.{
  Agency, OutputTool, AgentEvent, ask_user, calling, called, error_event, message_event,
  structured_output,
}
use da_swarm.Base.{
  ℕ, String, ◌==◌, Bool, true, false, Option, none, some, List, [], ◌∷◌, ◌++◌, ◌⊎◌, if◌then◌else◌,
  map,
}
use da_swarm.Swarm.Json.{Fields, Value, null, boolean, int, real, str, arr, dict, get_field}
use da_swarm.Agent.Plan.{
  ExecutionStatus, running, completed, failed, Step, Plan, PlanningEvent, step_event, started,
  step_failed, step_completed,
}
use da_swarm.Agent.Memory.{ToolCall, Message, compact}
use da_swarm.Agent.Loop.{Run, is_broken, execute_agent}

pub record StepReport : Type 0 where
  pub success : Bool
  pub result : String
  pub attachments : List String

pub record FinalResult : Type 0 where
  pub message : String
  pub attachments : List String

-- The events of a flow; `live_update` is a `TerminalUpdateEvent` or a `FileUpdateEvent`, `said` is a
-- `MessageEvent` with its files, `user_said` one of the user, `asked` one with the `text` of a question.
pub data FlowEvent : Type 0 where
  planning : PlanningEvent → FlowEvent
  titled : String → FlowEvent
  user_said : String → FlowEvent
  said : String → List String → FlowEvent
  asked : Value → FlowEvent
  tool_calling tool_called : ToolCall → FlowEvent
  failed_with : String → FlowEvent
  wait done : FlowEvent
  live_update : String → FlowEvent

-- What `_fan_out_step` makes of the events of a run: the step as it stands afterwards, what it yields, whether
-- it stopped at a question to the user, and whether it raised.
pub record FanOut : Type 0 where
  pub step : Step
  pub events : List FlowEvent
  pub waited : Bool
  pub raised : Bool

abbrev pub yielding : List FlowEvent → FanOut → FanOut
yielding es f = record f { events = es ++ f.events }

abbrev pub failed_step : String → Step → Step
failed_step e s = record s { status = failed; error = some e }

abbrev pub reported_step : StepReport → Step → Step
reported_step r s = record s {
  status = completed;
  success = r.success;
  result = some r.result;
  attachments = r.attachments;
}

-- `MessageEvent(message=function_args.get("text", ""))`, which takes a text only.
abbrev pub question_text : Fields → Option String
question_text args = elim (get_field "text" args) [
  | none ↦ some ""
  | some v ↦ elim v [
    | str text ↦ some text
    | null ↦ none
    | boolean b ↦ none
    | int i ↦ none
    | real r ↦ none
    | arr l ↦ none
    | dict d ↦ none
  ]
]

-- `_fan_out_step`, of the events of a run and whether the run ends in an exception.
unfoldable pub fan_out_step : Step → List (AgentEvent StepReport) → Bool → FanOut
fan_out_step s [] cut = record { step = s; events = []; waited = false; raised = cut }
fan_out_step s (error_event e ∷ l) cut =
    let s' = failed_step e s in
    yielding (planning (step_event step_failed s') ∷ failed_with e ∷ []) (fan_out_step s' l cut)
fan_out_step s (structured_output r ∷ l) cut =
    let s' = reported_step r s in
    yielding (planning (step_event step_completed s') ∷ []) (fan_out_step s' l cut)
fan_out_step s (message_event m ∷ l) cut = fan_out_step s l cut
fan_out_step s (calling c ∷ l) cut =
    let rest = fan_out_step s l cut in
    if c.name == ask_user
    then elim (question_text c.args) [
      | some text ↦ yielding (asked (str text) ∷ []) rest
      | none ↦ record { step = s; events = []; waited = false; raised = true }
    ]
    else yielding (tool_calling c ∷ []) rest
fan_out_step s (called c ∷ l) cut =
    let rest = fan_out_step s l cut in
    if c.name == ask_user
    then record { step = s; events = wait ∷ []; waited = true; raised = false }
    else yielding (tool_called c ∷ []) rest

-- The prompts, and what pydantic makes of the arguments of the output tools.
pub record Desk : Type 0 where
  pub execution_request : Plan → Step → String
  pub resume_request : Plan → Step → String
  pub summarize_prompt : String
  pub validate_report : Fields → StepReport ⊎ String
  pub validate_result : Fields → FinalResult ⊎ String

-- The execution agent: its memory and `_step_work_tool_calls`.
pub record Executor : Type 0 where
  pub memory : List Message
  pub step_work_tool_calls : ℕ

abbrev pub after_run : {O : Type 0} → Run O → Executor
after_run r = record { memory = r.memory; step_work_tool_calls = r.work }

-- What `summarize` yields of the events of its run.
unfoldable pub final_events : List (AgentEvent FinalResult) → List FlowEvent
final_events [] = []
final_events (structured_output r ∷ l) = said r.message r.attachments ∷ final_events l
final_events (message_event m ∷ l) = final_events l
final_events (error_event e ∷ l) = failed_with e ∷ final_events l
final_events (calling c ∷ l) = tool_calling c ∷ final_events l
final_events (called c ∷ l) = tool_called c ∷ final_events l

-- `compact_memory`
unfoldable pub compact_memory : Agency → Executor → Executor
compact_memory a x = record x { memory = compact a.dumps 0 10 x.memory }

module _ (d : Desk) where
  abbrev pub complete_step_tool : OutputTool StepReport
  complete_step_tool = record {
    name = "complete_step";
    validate = d.validate_report;
    succeeds = λ r. r.success;
  }

  abbrev pub deliver_result_tool : OutputTool FinalResult
  deliver_result_tool = record {
    name = "deliver_result";
    validate = d.validate_result;
    succeeds = λ _. false;
  }

  module _ (a : Agency) where
    abbrev pub step_run : Executor → String → Run StepReport
    step_run x request =
        execute_agent a (some complete_step_tool) true x.step_work_tool_calls x.memory request

    -- `execute_step`
    unfoldable pub execute_step : Plan → Step → Executor → FanOut × Executor
    execute_step plan step x =
        let run =
          step_run (record x { step_work_tool_calls = 0 }) (d.execution_request plan step) in
        let s = record step { status = running } in
        (
          yielding (planning (step_event started s) ∷ [])
              (fan_out_step s run.events (is_broken run.ending)),
          after_run run,
        )

    -- `resume_step`
    unfoldable pub resume_step : Plan → Step → Executor → FanOut × Executor
    resume_step plan step x =
        let run = step_run x (d.resume_request plan step) in
        (
          fan_out_step (record step { status = running }) run.events (is_broken run.ending),
          after_run run,
        )

    -- `summarize`, and whether it raised.
    unfoldable pub summarize : Executor → (List FlowEvent × Bool) × Executor
    summarize x =
        let run =
          execute_agent a (some deliver_result_tool) false x.step_work_tool_calls x.memory
            d.summarize_prompt in
        ((final_events run.events, is_broken run.ending), after_run run)
