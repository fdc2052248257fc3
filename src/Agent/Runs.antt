-- ===== src/Agent/Runs.antt =====
-- The theorems of the agents at a model that works from a script.
use da_swarm.Agent.Calls.{
  Agency, plain_message, handle_output_call, truncate_tool_result, invoke_from, process, gave,
}
use da_swarm.Agent.Calls.Answered.{open_calls, still_open}
use da_swarm.Base.{
  ℕ, ◌+◌, ◌≤◌, String, Bool, true, false, Option, none, some, List, [], ◌∷◌, ◌++◌, ◌≡◌, refl, ◌⊎◌,
  inl, inr, if◌then◌else◌, leb, length, ◌==◌, arith,
}
use da_swarm.Swarm.Json.{end}
use da_swarm.Agent.Plan.{Step, Plan, pending, running}
use da_swarm.Agent.Memory.{user, assistant, ToolCall, Message}
use da_swarm.Agent.Loop.{continue_execute, execute_agent, roll_back_agent}
use da_swarm.Agent.Loop.Pairing.{IsPaired, execute_agent-IsPaired}
use da_swarm.Agent.Loop.Resumption.{roll_back_agent-open_calls}
use da_swarm.Agent.Execution.{Desk, Executor, complete_step_tool}
use da_swarm.Agent.Planner.{Drafting}
use da_swarm.Agent.Flow.{Crew, Flow, executing, idle, run_turns, start_run, session_pending, breaks}
use da_swarm.Agent.Runner.{AgentSession, agent_mode, TaskState, user_message, Arrivals, run_task}
use da_swarm.Agent.Chat.{no_cut, Answer, ChatRoom}
use da_swarm.Agent.Runner.Records.{Records}
use da_swarm.Agent.Runner.Settled.{IsSettledTask, run_task-settles, count_arrivals}
use da_swarm.Agent.Flow.Completed.{IsFinished, run_turns-completes}
use da_swarm.Agent.Flow.Turns.{Ends, executing-Ends, count_open}

abbrev a_call : String → String → ToolCall
a_call id name = record { id = id; name = name; args = end }

abbrev a_reply : List ToolCall → Message
a_reply calls = record (plain_message assistant "") { tool_calls = calls }

-- First the calls, then the one of the output tool.
abbrev an_agency : List ToolCall → String → Agency
an_agency calls output = record {
  ask_model = λ l. some (a_reply (if leb (length l) 2 then calls else a_call "" output ∷ []));
  toolkit_of = λ name. if name == "shell_exec" then some "shell" else none;
  attempt = λ _ _ _. gave "ok";
  uuid = λ _ _. "u";
  dumps = λ _. "{}";
  show = λ _. "";
  system_prompt = "You are an agent.";
}

abbrev worker : Agency
worker = an_agency (a_call "a" "shell_exec" ∷ a_call "b" "no_such_tool" ∷ []) "complete_step"

abbrev a_desk : Desk
a_desk = record {
  execution_request = λ _ s. s.description;
  resume_request = λ _ s. s.description;
  summarize_prompt = "Sum up.";
  validate_report = λ _. inl (record { success = true; result = "found"; attachments = [] });
  validate_result = λ _. inl (record { message = "Owls hoot."; attachments = [] });
}

execute_agent-IsPaired_example :
    IsPaired (execute_agent worker (some (complete_step_tool a_desk)) true 0 [] "Find owls")
    × IsPaired (continue_execute worker (some (complete_step_tool a_desk)) true 0 [])
unfolding still_open
execute_agent-IsPaired_example =
    execute_agent-IsPaired worker true (λ _. refl) (some (complete_step_tool a_desk)) [] 0
      "Find owls" refl

-- A question and a second call in one message.
roll_back_agent-open_calls_example :
    open_calls (
      roll_back_agent "yes" (
        plain_message user "Find owls"
        ∷ a_reply (a_call "a" "message_ask_user" ∷ a_call "b" "shell_exec" ∷ [])
        ∷ []))
    ≡ some ("b" ∷ [])
unfolding still_open
roll_back_agent-open_calls_example =
    roll_back_agent-open_calls "yes" (plain_message user "Find owls" ∷ [])
      (a_reply (a_call "a" "message_ask_user" ∷ a_call "b" "shell_exec" ∷ [])) refl refl

abbrev a_drafting : Drafting
a_drafting = record {
  create_request = "Plan it.";
  update_request = λ _ _. "Plan the rest.";
  validate_plan = λ _. inl (record {
    message = "I look for owls.";
    language = "en";
    title = "Owls";
    goal = "Find owls";
    steps = record { id = "1"; description = "search" } ∷ [];
  });
  validate_update = λ _. inl [];
  plan_id = λ _. "plan";
}

abbrev a_crew : Crew
a_crew = record {
  planner = an_agency [] "create_plan";
  executor = record worker {
    ask_model = λ l. some (
        a_reply (
          if leb (length l) 2
          then a_call "a" "shell_exec" ∷ []
          else a_call "" (if leb (length l) 5 then "complete_step" else "deliver_result") ∷ []));
  };
  drafting = a_drafting;
  desk = a_desk;
  is_blank = λ text. text == "";
  skill = none;
  skill_step_id = "load";
  lower = λ text. text;
}

abbrev a_flow : Flow
a_flow = record {
  status = idle;
  plan = none;
  is_done = false;
  resume_waiting = false;
  step = none;
  planner_memory = [];
  executor = record { memory = []; step_work_tool_calls = 0 };
}

-- The whole of a run with one step: planning, working, summing up.
run_turns-completes_example :
    IsFinished
      (run_turns a_crew 6 (start_run a_crew session_pending none "Find owls" a_flow)).flow.plan
unfolding run_turns da_swarm.Agent.Flow.turn start_run da_swarm.Agent.Flow.planning_turn
    da_swarm.Agent.Flow.take_plans execute_agent da_swarm.Agent.Loop.tool_loop
    da_swarm.Agent.Loop.context_of da_swarm.Agent.Memory.estimate_tokens
    da_swarm.Agent.Loop.add_to_memory da_swarm.Agent.Loop.sync_system_prompt
    da_swarm.Agent.Memory.tokens_of da_swarm.Agent.Memory.call_tokens da_swarm.Base.Text.append
    da_swarm.Agent.Calls.process da_swarm.Agent.Calls.handle_output_call
    da_swarm.Agent.Plan.mark_steps da_swarm.Agent.Execution.compact_memory
    da_swarm.Agent.Execution.execute_step da_swarm.Agent.Execution.fan_out_step
    da_swarm.Agent.Execution.final_events da_swarm.Agent.Execution.summarize
    da_swarm.Agent.Flow.after_step da_swarm.Agent.Flow.completed_turn
    da_swarm.Agent.Flow.executing_turn da_swarm.Agent.Flow.put_next_step
    da_swarm.Agent.Flow.summarizing_turn da_swarm.Agent.Calls.invoke_from
    da_swarm.Agent.Calls.truncate_tool_result da_swarm.Agent.Memory.compact
    da_swarm.Agent.Memory.elide da_swarm.Agent.Memory.fits da_swarm.Agent.Memory.is_elidable
    da_swarm.Agent.Plan.next_open da_swarm.Base.Text.prefix
run_turns-completes_example =
    run_turns-completes a_crew session_pending none "Find owls" a_flow 6 refl

abbrev a_step : String → Step
a_step id = record {
  id = id;
  description = "search";
  status = pending;
  result = none;
  error = none;
  success = false;
  attachments = [];
}

abbrev two_steps : Plan
two_steps = record {
  id = "plan";
  title = "Owls";
  goal = "Find owls";
  language = some "en";
  steps = a_step "1" ∷ a_step "2" ∷ [];
  message = none;
  status = running;
  result = none;
  error = none;
}

executing-Ends_example : Ends a_crew (record a_flow { status = executing; plan = some two_steps }) 5
unfolding count_open
executing-Ends_example =
    executing-Ends a_crew 5 (record a_flow { status = executing; plan = some two_steps }) two_steps
      refl refl (omega arith)

-- The plan-act flow as the task runner meets it.
abbrev flow_answer : AgentSession → String → Answer
flow_answer session message = record {
  events = (run_turns a_crew 9 (start_run a_crew session.status none message a_flow)).events;
  cut = no_cut;
}

abbrev a_room : ChatRoom
a_room = record {
  ask_model = λ _. gave "Owls hoot.";
  system_content = "You are a helpful assistant.";
}

abbrev a_task : TaskState
a_task = record {
  session = record {
    status = session_pending;
    task_mode = agent_mode;
    title = none;
    latest_message = none;
    unread_message_count = 0;
    events = [];
  };
  input_stream = user_message "Find owls" ∷ [];
  output_stream = [];
}

-- A second message arrives after the third look at the input.
abbrev some_arrivals : Arrivals
some_arrivals = [] ∷ [] ∷ (user_message "In Norway" ∷ []) ∷ []

run_task-settles_example : IsSettledTask (run_task flow_answer a_room 3 some_arrivals a_task)
unfolding count_arrivals
run_task-settles_example = run_task-settles flow_answer a_room 3 some_arrivals a_task (omega arith)
