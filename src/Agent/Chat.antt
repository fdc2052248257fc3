-- ===== src/Agent/Chat.antt =====
-- The answer in chat mode, one reply of the model without tools (`_run_chat` of
-- backend/app/domain/services/agent_task_runner.py). The model and the system prompt are parameters.
use Prim.Native.Char.{code}
use da_swarm.Base.{
  not, ◌||◌, String, ◌==◌, Bool, false, Option, none, some, List, [], ◌∷◌, ◌++◌, eqb, if◌then◌else◌,
}
use da_swarm.Base.Text.{append, strip, prefix}
use da_swarm.Swarm.Json.{str}
use da_swarm.Agent.Memory.{Role, system, user, assistant, Message}
use da_swarm.Agent.Calls.{Attempt, gave, raised, plain_message}
use da_swarm.Agent.Execution.{FlowEvent, titled, said, asked, user_said, done}

-- How the events of a message end: they do, or an exception or a cancellation cuts them off.
pub data Cut : Type 0 where
  no_cut cancelled : Cut
  failing : String → Cut

pub record Answer : Type 0 where
  pub events : List FlowEvent
  pub cut : Cut

pub record ChatRoom : Type 0 where
  pub ask_model : List Message → Attempt
  pub system_content : String

-- What the events of a session say, by whom: the messages of the user and of the assistant with a text.
unfoldable pub chat_history : List FlowEvent → List Message
chat_history [] = []
chat_history (e ∷ l) =
    let rest = chat_history l in
    let spoken : Role → String → List Message =
      λ role text. if text == "" then rest else plain_message role text ∷ rest in
    elim e [
      | user_said text ↦ spoken user text
      | said text files ↦ spoken assistant text
      | asked v ↦ elim v [ str text ↦ spoken assistant text | _ ↦ rest ]
      | _ ↦ rest
    ]

-- `s.replace("\n", " ")`
unfoldable pub one_line : String → String
one_line String.[] = String.[]
one_line (String.◌∷◌ c s) =
    let rest = one_line s in if eqb (code c) 10 then append " " rest else String.◌∷◌ c rest

abbrev has_title : Option String → Bool
has_title none = false
has_title (some title) = not (title == "")

-- The TitleEvent for a session that has no title.
abbrev pub first_title : Option String → String → List FlowEvent
first_title title message =
    let new = prefix 50 (one_line (strip message)) in
    if has_title title || new == "" then [] else titled new ∷ []

-- `_run_chat`, after its look at an empty message.
unfoldable pub run_chat : ChatRoom → Option String → List FlowEvent → String → Answer
run_chat room title events message =
    elim (room.ask_model (plain_message system room.system_content ∷ chat_history events)) [
      | raised text ↦ record { events = []; cut = failing text }
      | gave reply ↦
          let content = strip reply in
          record {
            events =
                first_title title message
                ++ (said (if content == "" then "(No response)" else content) [] ∷ done ∷ []);
            cut = no_cut;
          }
    ]
