-- ===== src/Agent/Memory/Compaction.antt =====
-- Compaction keeps the conversation's skeleton and ends within the budget or with nothing left to elide
-- (backend/app/domain/models/memory.py, `Memory.compact`).
use da_swarm.Base.{
  ℕ, String, true, false, Option, List, [], ◌∷◌, ◌++◌, ◌≡◌, refl, sym, ap, ◌∙◌, ◌⊎◌, inl, inr, take,
  drop, map, arith, All, Bool-cases, eq_refl, take-append-drop,
}
use da_swarm.Swarm.Json.{Fields}
use da_swarm.Agent.Memory.{
  Role, ToolCall, Message, elided_content, elided, is_elidable, fits, elide, cutoff, compact,
}

-- What pairs tool calls with their results: all of a message but its content.
abbrev pub skeleton : Message → Role × List ToolCall × Option String × Option String
skeleton m = (m.role, m.tool_calls, m.tool_call_id, m.name)

-- A message that compaction has nothing to do with any more.
abbrev pub IsSettled : Message → Type 0
IsSettled m = is_elidable m ≡ false

elided-IsSettled : (m : Message) → IsSettled (elided m)
unfolding is_elidable
elided-IsSettled m = ground (arith, eq_refl elided_content)

module _ (dumps : Fields → String) (budget : ℕ) where
  module _ (before recent : List Message) (m : Message) (l : List Message) where
    elide-kept :
        IsSettled m
        → elide dumps budget before recent (m ∷ l)
          ≡ m ∷ elide dumps budget (before ++ (m ∷ [])) recent l
    unfolding elide
    elide-kept e = rw (elide, e) refl

    elide-done :
        is_elidable m ≡ true
        → fits dumps budget (before ++ (elided m ∷ l) ++ recent) ≡ true
        → elide dumps budget before recent (m ∷ l) ≡ elided m ∷ l
    unfolding elide
    elide-done e f = rw (elide, e, f) refl

    elide-more :
        is_elidable m ≡ true
        → fits dumps budget (before ++ (elided m ∷ l) ++ recent) ≡ false
        → elide dumps budget before recent (m ∷ l)
          ≡ elided m ∷ elide dumps budget (before ++ (elided m ∷ [])) recent l
    unfolding elide
    elide-more e f = rw (elide, e, f) refl

  elide-skeleton :
      (before recent l : List Message)
      → map skeleton (elide dumps budget before recent l) ≡ map skeleton l
  unfolding elide
  elide-skeleton before recent [] = refl
  elide-skeleton before recent (m ∷ l) = elim (Bool-cases (is_elidable m)) [
    | inr e ↦ rw (elide-kept before recent m l e, elide-skeleton (before ++ (m ∷ [])) recent l) refl
    | inl e ↦ elim (Bool-cases (fits dumps budget (before ++ (elided m ∷ l) ++ recent))) [
      | inl f ↦ rw (elide-done before recent m l e f) refl
      | inr f ↦
          rw (elide-more before recent m l e f, elide-skeleton (before ++ (elided m ∷ [])) recent l)
            refl
    ]
  ]

  -- Where the loop ends: within the budget, or with nothing left to elide.
  abbrev Ends : List Message → List Message → List Message → Type 0
  Ends before recent out = (fits dumps budget (before ++ out ++ recent) ≡ true) ⊎ All IsSettled out

  Ends-cons :
      (before recent : List Message) (m : Message) (out : List Message)
      → IsSettled m
      → Ends (before ++ (m ∷ [])) recent out
      → Ends before recent (m ∷ out)
  Ends-cons before recent m out s (inl f) = inl (rw (shift before m out recent) at f)
    where
      shift :
          (b : List Message) (m : Message) (out r : List Message)
          → (b ++ (m ∷ [])) ++ out ++ r ≡ b ++ (m ∷ out) ++ r
      shift [] m out r = refl
      shift (x ∷ b) m out r = rw (shift b m out r)
  Ends-cons before recent m out s (inr a) = inr (s, a)

  elide-Ends :
      (before recent l : List Message) → Ends before recent (elide dumps budget before recent l)
  unfolding elide
  elide-Ends before recent [] = inr tt
  elide-Ends before recent (m ∷ l) = elim (Bool-cases (is_elidable m)) [
    | inr e ↦
        rw (elide-kept before recent m l e)
          (Ends-cons before recent m _ e (elide-Ends (before ++ (m ∷ [])) recent l))
    | inl e ↦ elim (Bool-cases (fits dumps budget (before ++ (elided m ∷ l) ++ recent))) [
      | inl f ↦ rw (elide-done before recent m l e f) (inl f)
      | inr f ↦ rw (elide-more before recent m l e f) (
          Ends-cons before recent (elided m) _ (elided-IsSettled m)
            (elide-Ends (before ++ (elided m ∷ [])) recent l))
    ]
  ]

pub map-append :
    {A B : Type 0} (f : A → B) (xs ys : List A) → map f (xs ++ ys) ≡ map f xs ++ map f ys
map-append f [] ys = refl
map-append f (x ∷ xs) ys = rw (map-append f xs ys)

-- Compaction keeps every message's role, calls and names in their order, and so the pairing of calls with
-- results; the most recent messages stay as they are, and it ends within the budget or with every tool
-- result before them elided.
pub compact-ok :
    (dumps : Fields → String) (budget keep_recent : ℕ) (l : List Message)
    → (map skeleton (compact dumps budget keep_recent l) ≡ map skeleton l)
      × (old : List Message) × (compact dumps budget keep_recent l
          ≡ old ++ drop (cutoff keep_recent l) l)
      × ((fits dumps budget (compact dumps budget keep_recent l) ≡ true) ⊎ All IsSettled old)
unfolding compact
compact-ok dumps budget keep_recent l = elim (Bool-cases (fits dumps budget l)) [
  | inl f ↦
      rw f (
        refl,
        take (cutoff keep_recent l) l,
        sym (take-append-drop (cutoff keep_recent l) l),
        inl f,
      )
  | inr f ↦
      let old = take (cutoff keep_recent l) l in
      let recent = drop (cutoff keep_recent l) l in
      rw f (
        map-append skeleton (elide dumps budget [] recent old) recent
            ∙ ap (λ s. s ++ map skeleton recent) (elide-skeleton dumps budget [] recent old)
            ∙ sym (map-append skeleton old recent)
            ∙ ap (map skeleton) (take-append-drop (cutoff keep_recent l) l),
        elide dumps budget [] recent old,
        refl,
        elide-Ends dumps budget [] recent old,
      )
]
