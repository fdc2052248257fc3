-- ===== src/Agent/Loop/Resumption.antt =====
-- What `roll_back` makes of a memory that a run left open (backend/app/domain/services/agents/base.py).
use da_swarm.Agent.Calls.{tool_message, ask_user}
use da_swarm.Agent.Calls.Answered.{ids, still_open, open_calls}
use da_swarm.Base.{
  String, ◌==◌, eq_refl, some, List, [], ◌∷◌, ◌++◌, ◌≡◌, refl, ap, ◌∙◌, inl, inr, if◌then◌else◌,
  Bool-cases,
}
use da_swarm.Agent.Memory.{assistant, ToolCall, Message, roll_back, get_last_message}
use da_swarm.Agent.Loop.{roll_back_agent}
use da_swarm.Agent.Loop.Pairing.{open_calls-reply, open_calls-append}

get_last_message-append :
    (before : List Message) (m : Message) → get_last_message (before ++ (m ∷ [])) ≡ some m
unfolding get_last_message
get_last_message-append [] m = refl
get_last_message-append (n ∷ before) m = rw (get_last_message-append before m) refl

roll_back-append : (before : List Message) (m : Message) → roll_back (before ++ (m ∷ [])) ≡ before
unfolding roll_back
roll_back-append [] m = refl
roll_back-append (n ∷ []) m = refl
roll_back-append (n ∷ n' ∷ before) m = ap (λ l. n ∷ l) (roll_back-append (n' ∷ before) m)

-- The calls that a reply of the user leaves open.
abbrev pub unanswered : List ToolCall → List ToolCall
unanswered [] = []
unanswered (c ∷ cs) = if c.name == ask_user then cs else []

-- After `roll_back` with the user's message, on a memory whose last message is the model's and whose earlier
-- calls are answered: the first call of that message, if it asks the user, is answered by the message and
-- the calls after it stay open; otherwise no call is open.
pub roll_back_agent-open_calls :
    (reply : String) (before : List Message) (last : Message)
    → open_calls before ≡ some []
    → last.role ≡ assistant
    → open_calls (roll_back_agent reply (before ++ (last ∷ [])))
      ≡ some (ids (unanswered last.tool_calls))
unfolding roll_back_agent still_open
roll_back_agent-open_calls reply before last closed role = go last.tool_calls refl
  where
    opened : open_calls (before ++ (last ∷ [])) ≡ some (ids last.tool_calls)
    opened = open_calls-reply before last closed role

    go :
        (calls : List ToolCall)
        → last.tool_calls ≡ calls
        → open_calls (roll_back_agent reply (before ++ (last ∷ [])))
          ≡ some (ids (unanswered last.tool_calls))
    go [] h =
        rw (roll_back_agent, get_last_message-append before last, role, h)
          (opened ∙ ap (λ l. some (ids l)) h)
    go (c ∷ cs) h = elim (Bool-cases (c.name == ask_user)) [
      | inl e ↦
          rw (roll_back_agent, get_last_message-append before last, role, h, e)
            (open_calls-append (before ++ (last ∷ [])) (tool_message c reply ∷ [])
                (ids last.tool_calls) opened
              ∙ rw (h, eq_refl c.id) refl)
      | inr e ↦
          rw
            (
              roll_back_agent,
              get_last_message-append before last,
              role,
              h,
              e,
              roll_back-append before last,
            )
            closed
    ]
