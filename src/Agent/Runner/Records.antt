-- ===== src/Agent/Runner/Records.antt =====
-- What a task streams it records in the session, live updates excepted
-- (backend/app/domain/services/agent_task_runner.py).
use da_swarm.Base.{ℕ, suc, ◌+◌, none, some, List, [], ◌∷◌, ◌++◌, ◌≡◌}
use da_swarm.Agent.Execution.{FlowEvent}
use da_swarm.Agent.Runner.{TaskState, text_of_message}
use da_swarm.Agent.Runner.Live.{without_live}

unfoldable pub count_messages : List FlowEvent → ℕ
count_messages [] = 0
count_messages (e ∷ l) =
    let n = count_messages l in elim (text_of_message e) [ none ↦ n | some text ↦ suc n ]

-- From one state to the other events were streamed, those of them that are no live updates were recorded,
-- and the messages among them were counted as unread.
pub record Records (d d' : TaskState) : Type 0 where
  pub new : List FlowEvent
  pub recorded : d'.session.events ≡ d.session.events ++ without_live new
  pub streamed : d'.output_stream ≡ d.output_stream ++ new
  pub counted :
      d'.session.unread_message_count ≡ d.session.unread_message_count + count_messages new
