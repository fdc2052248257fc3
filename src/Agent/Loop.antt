-- ===== src/Agent/Loop.antt =====
-- The tool loop of an agent and its memory (backend/app/domain/services/agents/base.py).
pub mod Pairing
pub mod Resumption
use da_swarm.Agent.Calls.{
  Agency, OutputTool, AgentEvent, plain_message, tool_message, ask_user, process, calling,
  error_event, message_event, structured_output,
}
use da_swarm.Base.{
  ℕ, zero, suc, ◌-◌, String, ◌==◌, Bool, true, false, ◌&&◌, Option, none, some, List, [], ◌∷◌, ◌++◌,
  ◌⊎◌, inl, inr, any, leb, ltb, eqb, length, if◌then◌else◌,
}
use da_swarm.Base.Text.{codes, prefix, append}
use da_swarm.Swarm.Json.{Fields}
use da_swarm.Agent.Memory.{
  Role, system, user, assistant, tool, ToolCall, Message, get_last_message, roll_back,
  estimate_tokens, compact,
}

abbrev pub max_iterations : ℕ
max_iterations = 100

abbrev pub max_context_tokens : ℕ
max_context_tokens = 100_000

-- How a run ends: with a plain message, with an output, at the limit of rounds, waiting for the user, or with
-- an exception of the language model.
pub data Ending (O : Type 0) : Type 0 where
  finished : Ending O
  submitted : O → Ending O
  exhausted waiting broken : Ending O

pub record Run (O : Type 0) : Type 0 where
  pub memory : List Message
  pub work : ℕ
  pub events : List (AgentEvent O)
  pub ending : Ending O

-- Whether the run leaves its caller with an exception.
abbrev pub is_broken : {O : Type 0} → Ending O → Bool
is_broken broken = true
is_broken _ = false

abbrev pub after_events : {O : Type 0} → List (AgentEvent O) → Run O → Run O
after_events es r = record r { events = es ++ r.events }

-- What asks for the output.
abbrev pub nudge : {O : Type 0} → OutputTool O → Message
nudge o =
    plain_message user (append "Submit your result by calling the `" (append o.name "` tool."))

module _ (a : Agency) where
  -- `sync_system_prompt`
  unfoldable pub sync_system_prompt : List Message → List Message
  sync_system_prompt [] = plain_message system a.system_prompt ∷ []
  sync_system_prompt (m ∷ memory) = elim m.role [
    | system ↦ record m { content = a.system_prompt } ∷ memory
    | user ↦ m ∷ memory
    | assistant ↦ m ∷ memory
    | tool ↦ m ∷ memory
  ]

  -- `_add_to_memory`
  unfoldable pub add_to_memory : List Message → List Message → List Message
  add_to_memory messages [] = plain_message system a.system_prompt ∷ messages
  add_to_memory messages (m ∷ memory) = (m ∷ memory) ++ messages

  -- The memory that `ask_with_messages` sends: compacted, where it is over the budget.
  unfoldable pub context_of : List Message → List Message → List Message
  context_of messages memory =
      let added = add_to_memory messages memory in
      if ltb max_context_tokens (estimate_tokens a.dumps added)
      then compact a.dumps max_context_tokens 10 added
      else added

module _ {O : Type 0} (a : Agency) where
  -- `_tool_loop`, with the rounds that are left, the memory before the model's message, and that message, or
  -- nothing where asking for it raised.
  unfoldable pub tool_loop :
      Option (OutputTool O) → Bool → ℕ → List Message → ℕ → Option Message → Run O
  tool_loop o waits zero memory work none = record {
    memory = memory;
    work = work;
    events = [];
    ending = broken;
  }
  tool_loop o waits (suc n) memory work none = record {
    memory = memory;
    work = work;
    events = [];
    ending = broken;
  }
  tool_loop o waits zero memory work (some message) = record {
    memory = memory ++ (message ∷ []);
    work = work;
    events =
        error_event "Maximum iteration count reached, failed to complete the task"
        ∷ message_event message.content
        ∷ [];
    ending = exhausted;
  }
  tool_loop o waits (suc n) memory work (some message) = elim message.tool_calls [
    | [] ↦ elim o [
      | none ↦ record {
        memory = memory ++ (message ∷ []);
        work = work;
        events = message_event message.content ∷ [];
        ending = finished;
      }
      | some ot ↦
          let sent = context_of a (nudge ot ∷ []) (memory ++ (message ∷ [])) in
          tool_loop o waits n sent work (a.ask_model sent)
    ]
    | c ∷ cs ↦
        let round = process a o waits memory none work (c ∷ cs) in
        let kept = memory ++ (record message { tool_calls = round.calls } ∷ []) in
        elim round.waited [
          | true ↦ record {
            memory = kept;
            work = round.work;
            events = round.events;
            ending = waiting;
          }
          | false ↦ elim round.output [
            | some out ↦ record {
              memory = kept ++ round.responses;
              work = round.work;
              events = round.events ++ (structured_output out ∷ []);
              ending = submitted out;
            }
            | none ↦
                let sent = context_of a round.responses kept in
                after_events round.events (tool_loop o waits n sent round.work (a.ask_model sent))
          ]
        ]
  ]

  -- `execute`
  unfoldable pub execute_agent : Option (OutputTool O) → Bool → ℕ → List Message → String → Run O
  execute_agent o waits work memory request =
      let sent = context_of a (plain_message user request ∷ []) memory in
      tool_loop o waits max_iterations sent work (a.ask_model sent)

  -- `continue_execute`: no message is added.
  unfoldable pub continue_execute : Option (OutputTool O) → Bool → ℕ → List Message → Run O
  continue_execute o waits work memory =
      let sent =
        if ltb max_context_tokens (estimate_tokens a.dumps memory)
        then compact a.dumps max_context_tokens 10 memory
        else memory in
      tool_loop o waits max_iterations sent work (a.ask_model sent)

-- `roll_back` of the agent, with the user's message.
unfoldable pub roll_back_agent : String → List Message → List Message
roll_back_agent reply memory = elim (get_last_message memory) [
  | none ↦ memory
  | some last ↦ elim last.role [
    | assistant ↦ elim last.tool_calls [
      | [] ↦ memory
      | c ∷ _ ↦
          if c.name == ask_user then memory ++ (tool_message c reply ∷ []) else roll_back memory
    ]
    | system ↦ memory
    | user ↦ memory
    | tool ↦ memory
  ]
]
