-- ===== src/Agent/Runner.antt =====
-- The task runner of a session (backend/app/domain/services/agent_task_runner.py) with the session fields
-- that it writes (backend/app/infrastructure/repositories/mongo_session_repository.py). What the flow
-- yields for a message is a parameter, which may go by all that the session holds. A pop of the input gets
-- its lock.
pub mod Live
pub mod Records
pub mod Settled
use da_swarm.Base.{
  ℕ, zero, suc, ◌+◌, String, ◌==◌, Bool, true, false, Option, none, some, List, [], ◌∷◌, ◌++◌,
  if◌then◌else◌,
}
use da_swarm.Base.Text.{append}
use da_swarm.Swarm.Json.{Value, str}
use da_swarm.Agent.Chat.{Cut, no_cut, cancelled, failing, Answer, ChatRoom, run_chat}
use da_swarm.Agent.Execution.{
  user_said, FlowEvent, titled, said, asked, failed_with, wait, done, live_update,
}
use da_swarm.Agent.Flow.{SessionStatus, session_waiting, session_completed}

pub data TaskMode : Type 0 where
  agent_mode chat_mode : TaskMode

pub record AgentSession : Type 0 where
  pub status : SessionStatus
  pub task_mode : TaskMode
  pub title : Option String
  pub latest_message : Option String
  pub unread_message_count : ℕ
  pub events : List FlowEvent

-- What stands in the input stream: a message of the user, or an event of another kind, with the text of
-- the AttributeError that reading its attachments raises.
pub data InputEvent : Type 0 where
  user_message other_event : String → InputEvent

-- The session, the input and output streams of the task.
pub record TaskState : Type 0 where
  pub session : AgentSession
  pub input_stream : List InputEvent
  pub output_stream : List FlowEvent

-- What `_put_and_add_event` adds to the session of an event: nothing of a live update of the terminal or of a
-- file.
abbrev pub recorded_event : FlowEvent → List FlowEvent
recorded_event (live_update text) = []
recorded_event e = e ∷ []

-- `_put_and_add_event`
abbrev pub put_and_add_event : FlowEvent → TaskState → TaskState
put_and_add_event e d = record {
  session = record d.session { events = d.session.events ++ recorded_event e };
  input_stream = d.input_stream;
  output_stream = d.output_stream ++ (e ∷ []);
}

abbrev pub update_status : SessionStatus → TaskState → TaskState
update_status status d = record d { session = record d.session { status = status } }

-- The text of a `MessageEvent`.
abbrev pub text_of_message : FlowEvent → Option String
text_of_message (user_said text) = some text
text_of_message (said text files) = some text
text_of_message (asked (str text)) = some text
text_of_message _ = none

-- `update_title`, or `update_latest_message` and `increment_unread_message_count`.
unfoldable pub note_event : FlowEvent → TaskState → TaskState
note_event e d = elim (text_of_message e) [
  | some text ↦ record d {
    session = record d.session {
      latest_message = some text;
      unread_message_count = d.session.unread_message_count + 1;
    };
  }
  | none ↦ elim e [
    | titled title ↦ record d { session = record d.session { title = some title } }
    | _ ↦ d
  ]
]

abbrev pub is_wait : FlowEvent → Bool
is_wait wait = true
is_wait _ = false

-- What arrives before each look at the input stream, from one look to the next.
abbrev pub Arrivals : Type 0
Arrivals = List (List InputEvent)

unfoldable pub arrive : Arrivals → TaskState → Arrivals × TaskState
arrive [] d = ([], d)
arrive (new ∷ later) d = (later, record d { input_stream = d.input_stream ++ new })

-- How the loop over the events of a message ends: at their end, at a new message, or at a WaitEvent.
pub data Pause : Type 0 where
  drained interrupted waits : Pause

-- The loop over the events of a message.
unfoldable pub consume : List FlowEvent → Arrivals → TaskState → Pause × Arrivals × TaskState
consume [] later d = (drained, later, d)
consume (e ∷ es) later d = elim (is_wait e) [
  | true ↦ (waits, later, put_and_add_event e (update_status session_waiting d))
  | false ↦
      let (later', d') = arrive later (note_event e (put_and_add_event e d)) in
      elim d'.input_stream [ [] ↦ consume es later' d' | _ ∷ _ ↦ (interrupted, later', d') ]
]

-- The handlers of CancelledError and of the other exceptions.
abbrev pub cancel_task : TaskState → TaskState
cancel_task d = update_status session_completed (put_and_add_event done d)

abbrev pub fail_task : String → TaskState → TaskState
fail_task e d =
    update_status session_completed (put_and_add_event (failed_with (append "Task error: " e)) d)

-- How `run` ends; `unfinished` is for a loop that was given too few rounds.
pub data RunEnd : Type 0 where
  all_read waiting_for_user given_up unfinished : RunEnd

module _ (flow : AgentSession → String → Answer) (room : ChatRoom) where
  -- `_run_flow` and `_run_chat`
  unfoldable pub answer_to : AgentSession → String → Answer
  answer_to session message =
      if message == ""
      then record { events = failed_with "No message" ∷ []; cut = no_cut }
      else elim session.task_mode [
        | agent_mode ↦ flow session message
        | chat_mode ↦ run_chat room session.title session.events message
      ]

  -- `run`, with the rounds of its loop that are left.
  unfoldable pub run_task : ℕ → Arrivals → TaskState → RunEnd × TaskState
  run_task zero later d = (unfinished, d)
  run_task (suc n) later d =
      let (later', d') = arrive later d in
      elim d'.input_stream [
        | [] ↦ (all_read, update_status session_completed d')
        | e ∷ l ↦
            let popped = record d' { input_stream = l } in
            elim e [
              | other_event text ↦ (given_up, fail_task text popped)
              | user_message message ↦
                  let answer = answer_to popped.session message in
                  let (pause, later'', d'') = consume answer.events later' popped in
                  elim pause [
                    | waits ↦ (waiting_for_user, d'')
                    | interrupted ↦ run_task n later'' d''
                    | drained ↦ elim answer.cut [
                      | no_cut ↦ run_task n later'' d''
                      | cancelled ↦ (given_up, cancel_task d'')
                      | failing text ↦ (given_up, fail_task text d'')
                    ]
                  ]
            ]
      ]
