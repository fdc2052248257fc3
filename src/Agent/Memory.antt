-- ===== src/Agent/Memory.antt =====
-- The agent's memory and its compaction (backend/app/domain/models/memory.py). `dumps` stands for
-- `json.dumps(args, default=str)`, whose text only its length counts.
pub mod Compaction
use da_swarm.Base.{
  ℕ, ◌+◌, ◌-◌, ◌/◌, max, String, Bool, true, false, ◌&&◌, not, Option, none, some, List, [], ◌∷◌,
  ◌++◌, ◌==◌, leb, eqb, length, take, drop, if◌then◌else◌,
}
use da_swarm.Base.Text.{codes}
use da_swarm.Swarm.Json.{Fields}

pub data Role : Type 0 where
  system : Role
  user : Role
  assistant : Role
  tool : Role

pub record ToolCall : Type 0 where
  pub id : String
  pub name : String
  pub args : Fields

-- `LLMMessage`; its `artifact` is not kept.
pub record Message : Type 0 where
  pub role : Role
  pub content : String
  pub tool_calls : List ToolCall
  pub tool_call_id : Option String
  pub name : Option String

abbrev pub elided_content : String
elided_content =
    "{\"success\": true, \"message\": \"(result elided to save context)\", \"data\": null}"

-- `estimate_tokens(text)`
unfoldable pub tokens_of : String → ℕ
tokens_of text = if text == "" then 0 else max 1 (length (codes text) / 4)

-- `get_last_message`
unfoldable pub get_last_message : List Message → Option Message
get_last_message [] = none
get_last_message (m ∷ l) = elim (get_last_message l) [ none ↦ some m | some n ↦ some n ]

-- `roll_back`: the messages without the last one.
unfoldable pub roll_back : List Message → List Message
roll_back [] = []
roll_back (m ∷ []) = []
roll_back (m ∷ n ∷ l) = m ∷ roll_back (n ∷ l)

abbrev pub elided : Message → Message
elided m = record m { content = elided_content }

abbrev pub is_tool : Role → Bool
is_tool tool = true
is_tool _ = false

-- A tool result that is still whole.
unfoldable pub is_elidable : Message → Bool
is_elidable m = is_tool m.role && not (m.content == elided_content)

-- `max(0, len(self.messages) - keep_recent)`
abbrev pub cutoff : ℕ → List Message → ℕ
cutoff keep_recent l = length l - keep_recent

module _ (dumps : Fields → String) where
  unfoldable pub call_tokens : List ToolCall → ℕ
  call_tokens [] = 0
  call_tokens (c ∷ l) = tokens_of c.name + tokens_of (dumps c.args) + call_tokens l

  -- `Memory.estimate_tokens`
  unfoldable pub estimate_tokens : List Message → ℕ
  estimate_tokens [] = 0
  estimate_tokens (m ∷ l) = tokens_of m.content + call_tokens m.tool_calls + estimate_tokens l

  -- `max_tokens and self.estimate_tokens() <= max_tokens`
  unfoldable pub fits : ℕ → List Message → Bool
  fits budget l = not (eqb budget 0) && leb (estimate_tokens l) budget

  -- The loop of `compact` over the messages before the cutoff: `before` it has passed, and `recent` it
  -- never reaches.
  unfoldable pub elide : ℕ → List Message → List Message → List Message → List Message
  elide budget before recent [] = []
  elide budget before recent (m ∷ l) = elim (is_elidable m) [
    | false ↦ m ∷ elide budget (before ++ (m ∷ [])) recent l
    | true ↦ elim (fits budget (before ++ (elided m ∷ l) ++ recent)) [
      | true ↦ elided m ∷ l
      | false ↦ elided m ∷ elide budget (before ++ (elided m ∷ [])) recent l
    ]
  ]

  -- `Memory.compact`
  unfoldable pub compact : ℕ → ℕ → List Message → List Message
  compact budget keep_recent l =
      if fits budget l
      then l
      else elide budget [] (drop (cutoff keep_recent l) l) (take (cutoff keep_recent l) l)
        ++ drop (cutoff keep_recent l) l
