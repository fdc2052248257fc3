-- ===== src/Agent/Flow.antt =====
-- The plan-act flow (backend/app/domain/services/flows/plan_act.py), one turn of its loop at a time, over the
-- planner and the execution agent.
pub mod Completed
pub mod Turns
use da_swarm.Agent.Calls.{
  Agency, AgentEvent, calling, called, error_event, message_event, structured_output,
}
use da_swarm.Base.{
  ℕ, zero, suc, String, ◌==◌, Bool, true, false, ◌&&◌, not, Option, none, some, List, [], ◌∷◌, ◌++◌,
  if◌then◌else◌,
}
use da_swarm.Agent.Plan.{
  ExecutionStatus, pending, running, completed, failed, Step, Plan, PlanningEvent, plan_event,
  created, updated, plan_completed, is_done, get_next_step, mark_first_step_running,
}
use da_swarm.Agent.Memory.{ToolCall, Message}
use da_swarm.Agent.Loop.{Run, is_broken, roll_back_agent, sync_system_prompt}
use da_swarm.Agent.Execution.{
  FlowEvent, planning, titled, said, failed_with, tool_calling, tool_called, wait, done, FanOut,
  Desk, Executor, execute_step, resume_step, summarize, compact_memory,
}
use da_swarm.Skills.PlanSteps.{ensure_skill_read_first_step}
use da_swarm.Agent.Planner.{PlanOutput, Drafting, plan_of_output, create_plan, update_plan}

pub data AgentStatus : Type 0 where
  idle agent_planning executing summarizing agent_completed updating : AgentStatus

pub data SessionStatus : Type 0 where
  session_pending session_running session_waiting session_completed : SessionStatus

-- What a flow is built of, and what it takes of the message: `is_blank` is `not text.strip()`, `skill` the
-- name of the message's skill, and `skill_step_id` the identifier of a step that loads it.
pub record Crew : Type 0 where
  pub planner : Agency
  pub executor : Agency
  pub drafting : Drafting
  pub desk : Desk
  pub is_blank : String → Bool
  pub skill : Option String
  pub skill_step_id : String
  pub lower : String → String

-- `PlanActFlow` and its agents; `step` is the local variable of the loop.
pub record Flow : Type 0 where
  pub status : AgentStatus
  pub plan : Option Plan
  pub is_done : Bool
  pub resume_waiting : Bool
  pub step : Option Step
  pub planner_memory : List Message
  pub executor : Executor

-- How a turn ends: the loop goes on, `run` returns, the loop is left and `DoneEvent` follows, or an exception
-- leaves `run`.
pub data Next : Type 0 where
  goes_on returns breaks raises : Next

-- The loop goes on unless an exception came.
abbrev pub unless_raised : Bool → Next
unless_raised true = raises
unless_raised false = goes_on

pub record Turn : Type 0 where
  pub flow : Flow
  pub events : List FlowEvent
  pub next : Next

-- `step_needs_replan`
abbrev pub step_needs_replan : Step → Bool
step_needs_replan s = elim s.status [
  | failed ↦ true
  | completed ↦ not s.success
  | pending ↦ false
  | running ↦ false
]

-- The first open step of a plan, changed in place.
unfoldable pub put_next_step : Step → List Step → List Step
put_next_step new [] = []
put_next_step new (s ∷ l) =
    let rest = put_next_step new l in if is_done s then s ∷ rest else new ∷ l

abbrev pub to_status : AgentStatus → Flow → Turn
to_status to f = record { flow = record f { status = to }; events = []; next = goes_on }

abbrev pub unless_blank : Bool → FlowEvent → List FlowEvent
unless_blank true e = []
unless_blank false e = e ∷ []

abbrev pub marked_first : Plan → Plan
marked_first p = elim p.steps [ [] ↦ p | _ ∷ _ ↦ mark_first_step_running p ]

-- `if not self.plan or not self.plan.steps`
abbrev pub after_planning : Option Plan → AgentStatus
after_planning none = agent_completed
after_planning (some p) = elim p.steps [ [] ↦ agent_completed | _ ∷ _ ↦ executing ]

abbrev pub status_of_session : SessionStatus → AgentStatus
status_of_session session_waiting = executing
status_of_session session_running = agent_planning
status_of_session session_pending = idle
status_of_session session_completed = idle

abbrev pub rolled_back : SessionStatus → String → List Message → List Message
rolled_back session_pending text memory = memory
rolled_back _ text memory = roll_back_agent text memory

module _ (c : Crew) where
  -- `ensure_skill_read_first_step`, where the message has a skill.
  abbrev pub with_skill_step : Plan → Plan
  with_skill_step plan = elim c.skill [
    | none ↦ plan
    | some name ↦ ensure_skill_read_first_step c.lower c.skill_step_id name plan
  ]

  -- The plan that the flow takes from the planner, and its events.
  abbrev pub taken_plan : PlanOutput → Plan
  taken_plan o = marked_first (with_skill_step (plan_of_output c.drafting o))

  abbrev pub taken_events : Plan → List FlowEvent
  taken_events p =
      unless_blank (c.is_blank p.title) (titled p.title)
      ++ (elim p.message [ none ↦ [] | some m ↦ unless_blank (c.is_blank m) (said m []) ]
          ++ (planning (plan_event created p) ∷ []))

  -- The loop over `planner.create_plan(message)`.
  unfoldable pub take_plans :
      Option Plan → List (AgentEvent PlanOutput) → Option Plan × List FlowEvent
  take_plans p [] = (p, [])
  take_plans p (e ∷ l) = elim e [
    | structured_output o ↦
        let (last, rest) = take_plans (some (taken_plan o)) l in
        (last, taken_events (taken_plan o) ++ rest)
    | message_event m ↦ let (last, rest) = take_plans p l in (last, said m [] ∷ rest)
    | error_event m ↦ let (last, rest) = take_plans p l in (last, failed_with m ∷ rest)
    | calling t ↦ let (last, rest) = take_plans p l in (last, tool_calling t ∷ rest)
    | called t ↦ let (last, rest) = take_plans p l in (last, tool_called t ∷ rest)
  ]

  unfoldable pub planning_turn : Flow → Turn
  planning_turn f =
      let run = create_plan c.drafting c.planner f.planner_memory in
      let (plan, events) = take_plans f.plan run.events in
      let cut = is_broken run.ending in
      record {
        flow = record f {
          status = if cut then f.status else after_planning plan;
          plan = plan;
          planner_memory = run.memory;
        };
        events = events;
        next = unless_raised cut;
      }

  -- After the step has run: a turn that waited returns, and one that raised ends `run`; otherwise the plan is
  -- updated, by the planner if the step needs it.
  unfoldable pub after_step : Flow → Plan → FanOut → Executor → Turn
  after_step f plan out x =
      let plan' = record plan { steps = put_next_step out.step plan.steps } in
      let f' = record f {
        plan = some plan';
        step = some out.step;
        resume_waiting = false;
        executor = x;
      } in
      elim out.waited [
        | true ↦ record {
          flow = record f' { is_done = false };
          events = out.events;
          next = returns;
        }
        | false ↦ elim out.raised [
          | true ↦ record { flow = f'; events = out.events; next = raises }
          | false ↦
              let f'' = record f' { executor = compact_memory c.executor x } in
              elim (step_needs_replan out.step) [
                | true ↦ record {
                  flow = record f'' { status = updating };
                  events = out.events;
                  next = goes_on;
                }
                | false ↦ record {
                  flow = record f'' { status = executing };
                  events = out.events ++ (planning (plan_event updated plan') ∷ []);
                  next = goes_on;
                }
              ]
        ]
      ]

  unfoldable pub executing_turn : Flow → Turn
  executing_turn f = elim f.plan [
    | none ↦ to_status agent_completed f
    | some p ↦
        let plan = record p { status = running } in
        elim (get_next_step plan) [
          | none ↦ to_status summarizing (record f { plan = some plan; step = none })
          | some s ↦ elim f.resume_waiting [
            | true ↦
                let (out, x) = resume_step c.desk c.executor plan s f.executor in
                after_step f plan out x
            | false ↦
                let (out, x) = execute_step c.desk c.executor plan s f.executor in
                after_step f plan out x
          ]
        ]
  ]

  -- There is a plan whenever a step asks for a new one.
  unfoldable pub updating_turn : Flow → Turn
  updating_turn f = elim f.plan [
    | none ↦ to_status executing f
    | some p ↦
        let ((plan, events), (cut, memory)) =
          update_plan c.drafting c.planner p f.step f.planner_memory in
        record {
          flow = record f {
            status = if cut then f.status else executing;
            plan = some plan;
            planner_memory = memory;
          };
          events = events;
          next = unless_raised cut;
        }
  ]

  unfoldable pub summarizing_turn : Flow → Turn
  summarizing_turn f =
      let ((events, cut), x) = summarize c.desk c.executor f.executor in
      record {
        flow = record f { status = if cut then f.status else agent_completed; executor = x };
        events = events;
        next = unless_raised cut;
      }

  unfoldable pub completed_turn : Flow → Turn
  completed_turn f = elim f.plan [
    | none ↦ record {
      flow = record f { status = idle; is_done = true };
      events = done ∷ [];
      next = breaks;
    }
    | some p ↦
        let plan = record p { status = completed } in
        record {
          flow = record f { status = idle; plan = some plan; is_done = true };
          events = planning (plan_event plan_completed plan) ∷ done ∷ [];
          next = breaks;
        }
  ]

  -- A turn of `while True`.
  unfoldable pub turn : Flow → Turn
  turn f = elim f.status [
    | idle ↦ to_status agent_planning f
    | agent_planning ↦ planning_turn f
    | executing ↦ executing_turn f
    | updating ↦ updating_turn f
    | summarizing ↦ summarizing_turn f
    | agent_completed ↦ completed_turn f
  ]

  -- The loop, for as many turns as are given; it may replan for ever.
  unfoldable pub run_turns : ℕ → Flow → Turn
  run_turns zero f = record { flow = f; events = []; next = goes_on }
  run_turns (suc n) f =
      let t = turn f in
      elim t.next [
        | returns ↦ t
        | breaks ↦ t
        | raises ↦ t
        | goes_on ↦
            let rest = run_turns n t.flow in record rest { events = t.events ++ rest.events }
      ]

  -- What `run` does before its loop, with the session's status, the last plan of its events and the text of
  -- the message.
  unfoldable pub start_run : SessionStatus → Option Plan → String → Flow → Flow
  start_run status plan text f = record {
    status = status_of_session status;
    plan = plan;
    is_done = false;
    resume_waiting = elim status [
      | session_waiting ↦ true
      | session_running ↦ false
      | session_pending ↦ false
      | session_completed ↦ false
    ];
    step = none;
    planner_memory = rolled_back status text (sync_system_prompt c.planner f.planner_memory);
    executor = record f.executor {
      memory = rolled_back status text (sync_system_prompt c.executor f.executor.memory);
    };
  }
