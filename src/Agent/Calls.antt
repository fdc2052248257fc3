-- ===== src/Agent/Calls.antt =====
-- The tool calls of a message of the model: one round of an agent's tool loop
-- (backend/app/domain/services/agents/base.py) with the checks of the execution agent
-- (backend/app/domain/services/agents/execution.py). The language model, the tools, `uuid4`, `str` of a
-- number and `json.dumps` are parameters, which may answer by all that the memory holds; `ask_model` gives
-- nothing where `llm.ask` raises.
pub mod Answered
use da_swarm.Base.{
  ℕ, zero, suc, ◌-◌, String, ◌==◌, Bool, true, false, ◌&&◌, Option, none, some, List, [], ◌∷◌, ◌++◌,
  ◌⊎◌, inl, inr, any, leb, ltb, eqb, length, if◌then◌else◌,
}
use da_swarm.Base.Text.{codes, prefix, append}
use da_swarm.Swarm.Json.{Fields}
use da_swarm.Agent.Memory.{
  Role, system, user, assistant, tool, ToolCall, Message, get_last_message, roll_back,
  estimate_tokens, compact,
}

-- A run of a tool gives a text or raises.
pub data Attempt : Type 0 where
  gave raised : String → Attempt

pub record Agency : Type 0 where
  pub ask_model : List Message → Option Message
  pub toolkit_of : String → Option String
  pub attempt : List Message → ToolCall → ℕ → Attempt
  pub uuid : List Message → List ToolCall → String
  pub dumps : Fields → String
  pub show : ℕ → String
  pub system_prompt : String

-- `OutputTool`; `validate` gives the output or the text of a `ValidationError`, `succeeds` is
-- `getattr(output, "success", False)`.
pub record OutputTool (O : Type 0) : Type 0 where
  pub name : String
  pub validate : Fields → O ⊎ String
  pub succeeds : O → Bool

pub data AgentEvent (O : Type 0) : Type 0 where
  calling called : ToolCall → AgentEvent O
  error_event message_event : String → AgentEvent O
  structured_output : O → AgentEvent O

abbrev pub max_retries : ℕ
max_retries = 3

abbrev pub max_tool_result_chars : ℕ
max_tool_result_chars = 16_000

abbrev pub plain_message : Role → String → Message
plain_message role content = record {
  role = role;
  content = content;
  tool_calls = [];
  tool_call_id = none;
  name = none;
}

-- `LLMMessage.tool`
abbrev pub tool_message : ToolCall → String → Message
tool_message c content = record (plain_message tool content) {
  tool_call_id = some c.id;
  name = some c.name;
}

abbrev pub work_toolkits : List String
work_toolkits = "shell" ∷ "file" ∷ "browser" ∷ "search" ∷ "mcp" ∷ []

abbrev pub is_work : String → Bool
is_work toolkit = any (λ t. t == toolkit) work_toolkits

abbrev pub ask_user : String
ask_user = "message_ask_user"

-- One round over the tool calls of a message: the calls with their identifiers, what goes to the memory,
-- the output that the last call of the output tool gave, the count of work tools, the events, and whether
-- the consumer stopped at a question to the user.
pub record Round (O : Type 0) : Type 0 where
  pub calls : List ToolCall
  pub responses : List Message
  pub output : Option O
  pub work : ℕ
  pub events : List (AgentEvent O)
  pub waited : Bool

abbrev pub answered : {O : Type 0} → ToolCall → Message → List (AgentEvent O) → Round O → Round O
answered c m es r = record r {
  calls = c ∷ r.calls;
  responses = m ∷ r.responses;
  events = es ++ r.events;
}

abbrev pub rejected : String
rejected =
    "Rejected: you called complete_step(success=true) without using any work tools (shell/file/browser/search/mcp) in this step. Do the work and verify it, then call complete_step again. If truly blocked, call complete_step with success=false and explain why."

-- `_handle_output_call` of the execution agent.
unfoldable pub handle_output_call : {O : Type 0} → OutputTool O → ℕ → ToolCall → Message × Option O
handle_output_call o work c = elim (o.validate c.args) [
  | inr e ↦ (
    tool_message c (
        append "Invalid arguments, please correct and call " (append c.name (append " again: " e))),
    none,
  )
  | inl out ↦
      if o.name == "complete_step" && o.succeeds out && eqb work 0
      then (tool_message c rejected, none)
      else (tool_message c "{\"success\": true}", some out)
]

-- The output tool of the run, if the call is one of it.
abbrev pub output_tool_of : {O : Type 0} → Option (OutputTool O) → String → Option (OutputTool O)
output_tool_of none name = none
output_tool_of (some o) name = if name == o.name then some o else none

module _ (a : Agency) where
  -- `_truncate_tool_result`
  unfoldable pub truncate_tool_result : String → String
  truncate_tool_result content =
      if leb (length (codes content)) max_tool_result_chars
      then content
      else append (prefix max_tool_result_chars content) (
          append "... [truncated " (
            append (a.show (length (codes content) - max_tool_result_chars))
              " chars to save context; for files, re-read with start_line/end_line]"))

  -- `invoke_tool`, with the retries that are left.
  unfoldable pub invoke_from : ℕ → ℕ → List Message → ToolCall → String
  invoke_from zero k memory c = elim (a.attempt memory c k) [
    | gave content ↦ truncate_tool_result content
    | raised e ↦ e
  ]
  invoke_from (suc n) k memory c = elim (a.attempt memory c k) [
    | gave content ↦ truncate_tool_result content
    | raised e ↦ invoke_from n (suc k) memory c
  ]

  abbrev pub invoke_tool : List Message → ToolCall → String
  invoke_tool = invoke_from max_retries 0

  -- `if not tool_call.id: tool_call.id = str(uuid.uuid4())`, with the calls that are left for uuid to go by.
  abbrev pub with_id : List Message → List ToolCall → ToolCall → ToolCall
  with_id memory left c = if c.id == "" then record c { id = a.uuid memory left } else c

module _ {O : Type 0} (a : Agency) where
  -- The loop over `message.tool_calls`; `waits` says whether the consumer stops at a question.
  unfoldable pub process :
      Option (OutputTool O) → Bool → List Message → Option O → ℕ → List ToolCall → Round O
  process o waits memory output work [] = record {
    calls = [];
    responses = [];
    output = output;
    work = work;
    events = [];
    waited = false;
  }
  process o waits memory output work (c ∷ cs) =
      let c' = with_id a memory cs c in
      elim (output_tool_of o c.name) [
        | some ot ↦
            let (response, out) = handle_output_call ot work c' in
            answered c' response [] (process o waits memory out work cs)
        | none ↦ elim (a.toolkit_of c.name) [
          | none ↦
              answered c' (tool_message c' (append "Unknown tool: " c.name))
                (error_event (append "Unknown tool: " c.name) ∷ [])
                (process o waits memory output work cs)
          | some toolkit ↦
              let work' = if is_work toolkit then suc work else work in
              elim (waits && c.name == ask_user) [
                | true ↦ record {
                  calls = c' ∷ cs;
                  responses = [];
                  output = none;
                  work = work';
                  events = calling c' ∷ called c' ∷ [];
                  waited = true;
                }
                | false ↦
                    answered c' (tool_message c' (invoke_tool a memory c'))
                      (calling c' ∷ called c' ∷ []) (process o waits memory output work' cs)
              ]
        ]
      ]
