-- ===== src/Agent/Loop/Pairing.antt =====
-- Every tool call in the memory is answered, in its order (backend/app/domain/services/agents/base.py).

use da_swarm.Agent.Calls.{Agency, OutputTool, plain_message, Round, process}
use da_swarm.Agent.Calls.Answered.{
  ids, still_open, open_calls, then_open, still_open-append, process-IsAnswered,
}
use da_swarm.Base.{List-cases}
use da_swarm.Base.{
  ltb, ℕ, zero, suc, String, Bool, Option, none, some, List, [], ◌∷◌, ◌++◌, map, ◌≡◌, refl, ap, ◌∙◌,
  inl, inr, Bool-cases, Option-cases,
}
use da_swarm.Agent.Memory.{user, assistant, ToolCall, Message, compact, estimate_tokens}
use da_swarm.Agent.Memory.Compaction.{skeleton, map-append, compact-ok}
use da_swarm.Agent.Loop.{
  continue_execute, nudge, max_iterations, max_context_tokens, Run, finished, submitted, exhausted,
  waiting, broken, add_to_memory, context_of, tool_loop, execute_agent,
}

pub open_calls-append :
    (memory messages : List Message) (p : List String)
    → open_calls memory ≡ some p
    → open_calls (memory ++ messages) ≡ still_open p (map skeleton messages)
open_calls-append memory messages p h =
    ap (still_open []) (map-append skeleton memory messages)
    ∙ still_open-append [] (map skeleton memory) (map skeleton messages)
    ∙ ap (λ q. then_open q (map skeleton messages)) h

pub open_calls-reply :
    (memory : List Message) (m : Message)
    → open_calls memory ≡ some []
    → m.role ≡ assistant
    → open_calls (memory ++ (m ∷ [])) ≡ some (ids m.tool_calls)
unfolding still_open
open_calls-reply memory m h role = open_calls-append memory (m ∷ []) [] h ∙ rw role refl

open_calls-plain :
    (memory : List Message) (message : Message)
    → message.role ≡ assistant
    → open_calls memory ≡ some []
    → message.tool_calls ≡ []
    → open_calls (memory ++ (message ∷ [])) ≡ some []
open_calls-plain memory message role closed none_called =
    open_calls-reply memory message closed role ∙ ap (λ l. some (ids l)) none_called

open_calls-compact :
    (a : Agency) (memory : List Message)
    → open_calls (compact a.dumps max_context_tokens 10 memory) ≡ open_calls memory
open_calls-compact a memory = ap (still_open []) (compact-ok a.dumps max_context_tokens 10 memory).0

module _ (a : Agency) where
  -- What is sent to the model holds the new messages after the old ones, compacted or not.
  open_calls-context_of :
      (messages memory : List Message) (p : List String)
      → open_calls memory ≡ some p
      → open_calls (context_of a messages memory) ≡ still_open p (map skeleton messages)
  unfolding context_of add_to_memory still_open
  open_calls-context_of messages memory p h =
      elim (Bool-cases
        (ltb max_context_tokens (estimate_tokens a.dumps (add_to_memory a messages memory)))) [
          | inl e ↦
              rw (context_of, e)
                (open_calls-compact a (add_to_memory a messages memory) ∙ added memory h)
          | inr e ↦ rw (context_of, e) (added memory h)
        ]
    where
      added :
          (memory : List Message)
          → open_calls memory ≡ some p
          → open_calls (add_to_memory a messages memory) ≡ still_open p (map skeleton messages)
      added [] h = ap (λ q. then_open q (map skeleton messages)) h
      added (m ∷ memory) h = open_calls-append (m ∷ memory) messages p h

-- A memory in which every call is answered, but those of its last message.
abbrev pub IsOpenAtEnd : List Message → Type 0
IsOpenAtEnd memory =
    (before : List Message) × (last : Message) × (memory ≡ before ++ (last ∷ []))
    × (open_calls before ≡ some [])
    × (last.role ≡ assistant)

-- How a run leaves the memory.
abbrev pub IsPaired : {O : Type 0} → Run O → Type 0
IsPaired r = elim r.ending [
  | finished ↦ open_calls r.memory ≡ some []
  | submitted _ ↦ open_calls r.memory ≡ some []
  | exhausted ↦ IsOpenAtEnd r.memory
  | waiting ↦ IsOpenAtEnd r.memory
  | broken ↦ open_calls r.memory ≡ some []
]

-- A reply of the model is of the assistant.
abbrev pub IsReply : Option Message → Type 0
IsReply none = Unit
IsReply (some m) = m.role ≡ assistant

module _ {O : Type 0} (a : Agency) (waits : Bool)
    (replies : (l : List Message) → IsReply (a.ask_model l)) where
  round_step :
      (o : Option (OutputTool O)) (n : ℕ) (memory : List Message) (work : ℕ) (message : Message)
      (c : ToolCall) (cs : List ToolCall)
      → message.role ≡ assistant
      → open_calls memory ≡ some []
      → message.tool_calls ≡ c ∷ cs
      → ((sent : List Message) (work' : ℕ)
          → open_calls sent ≡ some []
          → IsPaired (tool_loop a o waits n sent work' (a.ask_model sent)))
      → IsPaired (tool_loop a o waits (suc n) memory work (some message))
  unfolding tool_loop
  round_step o n memory work message c cs role closed calls next = elim (Bool-cases round.waited) [
    | inl w ↦
        rw (tool_loop, calls, w)
          (memory, record message { tool_calls = round.calls }, refl, closed, role)
    | inr w ↦ elim (Option-cases round.output) [
      | inr (out, e) ↦
          rw (tool_loop, calls, w, e)
            (open_calls-append kept round.responses (ids round.calls) opened
              ∙ process-IsAnswered a o waits memory none work (c ∷ cs) w)
      | inl e ↦
          rw (tool_loop, calls, w, e)
            (next (context_of a round.responses kept) round.work (
              open_calls-context_of a round.responses kept (ids round.calls) opened
              ∙ process-IsAnswered a o waits memory none work (c ∷ cs) w))
    ]
  ]
    where
      round : Round O
      round = process a o waits memory none work (c ∷ cs)

      kept : List Message
      kept = memory ++ (record message { tool_calls = round.calls } ∷ [])

      opened : open_calls kept ≡ some (ids round.calls)
      opened = open_calls-reply memory (record message { tool_calls = round.calls }) closed role

  plain_step :
      (o : Option (OutputTool O)) (n : ℕ) (memory : List Message) (work : ℕ) (message : Message)
      → message.role ≡ assistant
      → open_calls memory ≡ some []
      → message.tool_calls ≡ []
      → ((sent : List Message) (work' : ℕ)
          → open_calls sent ≡ some []
          → IsPaired (tool_loop a o waits n sent work' (a.ask_model sent)))
      → IsPaired (tool_loop a o waits (suc n) memory work (some message))
  unfolding tool_loop still_open
  plain_step none n memory work message role closed none_called next =
      rw (tool_loop, none_called) (open_calls-plain memory message role closed none_called)
  plain_step (some ot) n memory work message role closed none_called next =
      rw (tool_loop, none_called)
        (next _ work (
          open_calls-context_of a (nudge ot ∷ []) (memory ++ (message ∷ [])) []
            (open_calls-plain memory message role closed none_called)))

  tool_loop-IsPaired :
      (o : Option (OutputTool O)) (n : ℕ) (memory : List Message) (work : ℕ)
      (reply : Option Message)
      → IsReply reply
      → open_calls memory ≡ some []
      → IsPaired (tool_loop a o waits n memory work reply)
  unfolding tool_loop
  tool_loop-IsPaired o zero memory work none role closed = closed
  tool_loop-IsPaired o (suc n) memory work none role closed = closed
  tool_loop-IsPaired o zero memory work (some message) role closed =
      (memory, message, refl, closed, role)
  tool_loop-IsPaired o (suc n) memory work (some message) role closed =
      elim (List-cases message.tool_calls) [
        | inr (c, cs, e) ↦
            round_step o n memory work message c cs role closed e (λ sent work' h.
              tool_loop-IsPaired o n sent work' (a.ask_model sent) (replies sent) h)
        | inl e ↦
            plain_step o n memory work message role closed e (λ sent work' h.
              tool_loop-IsPaired o n sent work' (a.ask_model sent) (replies sent) h)
      ]

-- Starting where every call is answered, the tool loop leaves each call of the model answered, once and in
-- the calls' order, whatever the model, the tools and the compaction do, with a request or continuing: a run
-- that finished or took an output, or whose model raised, leaves no call open, and one that ran out of rounds
-- or waits for the user leaves only calls of its last message. The model's replies are of the assistant.
pub execute_agent-IsPaired :
    {O : Type 0} (a : Agency) (waits : Bool)
    → ((l : List Message) → IsReply (a.ask_model l))
    → (o : Option (OutputTool O)) (memory : List Message) (work : ℕ) (request : String)
    → open_calls memory ≡ some []
    → IsPaired (execute_agent a o waits work memory request)
      × IsPaired (continue_execute a o waits work memory)
unfolding execute_agent continue_execute still_open
execute_agent-IsPaired a waits replies o memory work request closed = (
  tool_loop-IsPaired a waits replies o max_iterations _ work _ (replies _)
      (open_calls-context_of a (plain_message user request ∷ []) memory [] closed),
  elim (Bool-cases (ltb max_context_tokens (estimate_tokens a.dumps memory))) [
    | inl e ↦ rw e (
        tool_loop-IsPaired a waits replies o max_iterations _ work _ (replies _)
          (open_calls-compact a memory ∙ closed))
    | inr e ↦
        rw e (tool_loop-IsPaired a waits replies o max_iterations memory work _ (replies _) closed)
  ],
)
