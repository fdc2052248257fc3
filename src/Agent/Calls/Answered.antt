-- ===== src/Agent/Calls/Answered.antt =====
-- Every tool call of a round is answered, in its order (backend/app/domain/services/agents/base.py).

use da_swarm.Agent.Calls.{
  Agency, OutputTool, AgentEvent, tool_message, ask_user, Round, answered, rejected,
  handle_output_call, output_tool_of, with_id, process, calling, called, error_event,
}
use mathlib.Core.Bool.{false≢true}
use da_swarm.Base.Text.{append}
use da_swarm.Base.{
  eqb, ℕ, String, ◌==◌, eq_refl, Bool, true, false, ◌&&◌, Option, none, some, List, [], ◌∷◌, ◌++◌,
  map, ◌≡◌, refl, sym, ◌∙◌, ◌⊎◌, inl, inr, arith, if◌then◌else◌, Bool-cases, Option-cases,
}
use da_swarm.Agent.Memory.{Role, is_tool, ToolCall, Message}
use da_swarm.Agent.Memory.Compaction.{skeleton}

abbrev pub Skeleton : Type 0
Skeleton = Role × List ToolCall × Option String × Option String

abbrev pub ids : List ToolCall → List String
ids = map λ c. c.id

abbrev answers : String → Option String → Bool
answers i none = false
answers i (some j) = j == i

-- The calls that are open after some messages, where `open_ids` were open before; `none` if a call was left
-- behind or a result answers none.
unfoldable pub still_open : List String → List Skeleton → Option (List String)
still_open open_ids [] = some open_ids
still_open [] ((role, calls, id, name) ∷ l) =
    if is_tool role then none else still_open (ids calls) l
still_open (i ∷ open_ids) ((role, calls, id, name) ∷ l) =
    if is_tool role && answers i id then still_open open_ids l else none

abbrev pub open_calls : List Message → Option (List String)
open_calls l = still_open [] (map skeleton l)

abbrev pub then_open : Option (List String) → List Skeleton → Option (List String)
then_open none l = none
then_open (some p) l = still_open p l

pub still_open-append :
    (p : List String) (l k : List Skeleton) → still_open p (l ++ k) ≡ then_open (still_open p l) k
unfolding still_open
still_open-append p [] k = refl
still_open-append [] ((role, calls, id, name) ∷ l) k =
    ground (arith, still_open-append (ids calls) l k)
still_open-append (i ∷ p) ((role, calls, id, name) ∷ l) k = ground (arith, still_open-append p l k)

handle_output_call-answers :
    {O : Type 0}
    → (ot : OutputTool O) (work : ℕ) (c : ToolCall)
    → (content : String) × ((handle_output_call ot work c).0 ≡ tool_message c content)
unfolding handle_output_call
handle_output_call-answers {O = O} ot work c = go (ot.validate c.args) refl
  where
    go :
        (v : O ⊎ String)
        → ot.validate c.args ≡ v
        → (content : String) × ((handle_output_call ot work c).0 ≡ tool_message c content)
    go (inr e) h = (
      append "Invalid arguments, please correct and call " (append c.name (append " again: " e)),
      rw (handle_output_call, h) refl,
    )
    go (inl out) h =
        elim (Bool-cases (ot.name == "complete_step" && ot.succeeds out && eqb work 0)) [
          | inl k ↦ (rejected, rw (handle_output_call, h, k) refl)
          | inr k ↦ ("{\"success\": true}", rw (handle_output_call, h, k) refl)
        ]

-- What a round may do with its first call.
process-cases :
    {O : Type 0}
    → (a : Agency) (P : Round O → Type 0) (o : Option (OutputTool O)) (waits : Bool)
      (memory : List Message) (output : Option O) (work : ℕ) (c : ToolCall) (cs : List ToolCall)
    → (let c' = with_id a memory cs c in
        ((ot : OutputTool O)
          → P (
              answered c'
                (handle_output_call ot work c').0
                []
                (process a o waits memory (handle_output_call ot work c').1 work cs)))
        → ((content : String) (es : List (AgentEvent O)) (work' : ℕ)
            → P (
                answered c'
                  (tool_message c' content)
                  es
                  (process a o waits memory output work' cs)))
        → ((r : Round O) → r.waited ≡ true → r.calls ≡ c' ∷ cs → P r)
        → P (process a o waits memory output work (c ∷ cs)))
unfolding process
process-cases a P o waits memory output work c cs submits answers_it stops =
    elim (Option-cases (output_tool_of o c.name)) [
      | inr (ot, e) ↦ rw (process, e) (submits ot)
      | inl e ↦ elim (Option-cases (a.toolkit_of c.name)) [
        | inl e' ↦
            rw (process, e, e')
              (answers_it _ (error_event (append "Unknown tool: " c.name) ∷ []) work)
        | inr (toolkit, e') ↦ elim (Bool-cases (waits && c.name == ask_user)) [
          | inl w ↦ rw (process, e, e', w) (stops _ refl refl)
          | inr w ↦
              rw (process, e, e', w)
                (answers_it _
                  (calling (with_id a memory cs c) ∷ called (with_id a memory cs c) ∷ []) _)
        ]
      ]
    ]

-- A round that did not wait has answered every call, in its order.
abbrev pub IsAnswered : {O : Type 0} → Round O → Type 0
IsAnswered r = r.waited ≡ false → still_open (ids r.calls) (map skeleton r.responses) ≡ some []

answered-IsAnswered :
    {O : Type 0}
    → (c : ToolCall) (content : String) (es : List (AgentEvent O)) (r : Round O) → IsAnswered r
    → IsAnswered (answered c (tool_message c content) es r)
unfolding still_open
answered-IsAnswered c content es r h w = rw (eq_refl c.id) (h w)

pub process-IsAnswered :
    {O : Type 0}
    → (a : Agency) (o : Option (OutputTool O)) (waits : Bool) (memory : List Message)
      (output : Option O) (work : ℕ) (cs : List ToolCall)
    → IsAnswered (process a o waits memory output work cs)
unfolding process still_open
process-IsAnswered a o waits memory output work [] = λ _. refl
process-IsAnswered a o waits memory output work (c ∷ cs) =
    process-cases a IsAnswered o waits memory output work c cs
      (λ ot.
        let (content, e) = handle_output_call-answers ot work (with_id a memory cs c) in
        let out = (handle_output_call ot work (with_id a memory cs c)).1 in
        rw e (
          answered-IsAnswered (with_id a memory cs c) content []
            (process a o waits memory out work cs)
            (process-IsAnswered a o waits memory out work cs)))
      (λ content es work'.
        answered-IsAnswered (with_id a memory cs c) content es
          (process a o waits memory output work' cs)
          (process-IsAnswered a o waits memory output work' cs))
      (λ r waited calls h. absurd (false≢true (sym h ∙ waited)))
