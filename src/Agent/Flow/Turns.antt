-- ===== src/Agent/Flow/Turns.antt =====
-- How many turns a flow takes (backend/app/domain/services/flows/plan_act.py).
use da_swarm.Base.{
  ℕ, zero, suc, ◌+◌, ◌≤◌, true, some, List, [], ◌∷◌, ◌≡◌, refl, sym, ap, subst, ◌∙◌, ◌⊎◌, inl, inr,
  Bool-cases, Option-cases, arith, if◌then◌else◌,
}
use mathlib.Core.Bool.{false≢true}
use da_swarm.Agent.Plan.{Step, Plan, running, get_next_step, is_done, next_open}
use da_swarm.Agent.Execution.{FanOut, Executor, summarize}
use da_swarm.Agent.Execution.Verdict.{IsConcluded, execute_step-over}
use da_swarm.Agent.Flow.{
  false, executing, summarizing, agent_completed, updating, Crew, Flow, Next, goes_on, returns,
  breaks, raises, Turn, executing_turn, summarizing_turn, completed_turn, turn, run_turns,
  step_needs_replan, after_step, put_next_step,
}

unfoldable pub count_open : List Step → ℕ
count_open [] = 0
count_open (s ∷ l) = let n = count_open l in if is_done s then n else suc n

count_open-put :
    (l : List Step) (s new : Step)
    → next_open l ≡ some s
    → is_done new ≡ true
    → suc (count_open (put_next_step new l)) ≡ count_open l
unfolding next_open put_next_step count_open
count_open-put [] s new h o = cc
count_open-put (x ∷ l) s new h o = elim (Bool-cases (is_done x)) [
  | inl e ↦ ground (arith, count_open-put l s new)
  | inr e ↦ ground arith
]

-- `run` has ended, with an answer still to come, with its DoneEvent or with an exception.
abbrev pub IsOver : Next → Type 0
IsOver k = (k ≡ returns) ⊎ ((k ≡ breaks) ⊎ (k ≡ raises))

-- What a turn that executes a step may come to, when so many steps were open before.
data Outcome (t : Turn) (open_steps : ℕ) : Type 0 where
  ended : IsOver t.next → Outcome t open_steps
  replans : t.next ≡ goes_on → t.flow.status ≡ updating → Outcome t open_steps
  sums_up : t.next ≡ goes_on → t.flow.status ≡ summarizing → Outcome t open_steps
  proceeds :
      (p : Plan)
      → t.next ≡ goes_on
      → t.flow.status ≡ executing
      → t.flow.plan ≡ some p
      → suc (count_open p.steps) ≡ open_steps
      → Outcome t open_steps

done_step :
    (out : FanOut)
    → out.waited ≡ false
    → out.raised ≡ false
    → IsConcluded out
    → is_done out.step ≡ true
done_step out w q (inl w') = absurd (false≢true (sym w ∙ w'))
done_step out w q (inr (inl q')) = absurd (false≢true (sym q ∙ q'))
done_step out w q (inr (inr o)) = o

module _ (c : Crew) where
  after_step-Outcome :
      (f : Flow) (p : Plan) (s : Step) (out : FanOut) (x : Executor)
      → next_open p.steps ≡ some s
      → IsConcluded out
      → Outcome (after_step c f p out x) (count_open p.steps)
  unfolding after_step
  after_step-Outcome f p s out x h conclusion = elim (Bool-cases out.waited) [
    | inl w ↦ rw (after_step, w) (ended (inl refl))
    | inr w ↦ elim (Bool-cases out.raised) [
      | inl q ↦ rw (after_step, w, q) (ended (inr (inr refl)))
      | inr q ↦ elim (Bool-cases (step_needs_replan out.step)) [
        | inl r ↦ rw (after_step, w, q, r) (replans refl refl)
        | inr r ↦
            rw (after_step, w, q, r)
              (proceeds _ refl refl refl
                (count_open-put p.steps s out.step h (done_step out w q conclusion)))
      ]
    ]
  ]

  executing-Outcome :
      (f : Flow) (p : Plan) → f.plan ≡ some p → Outcome (executing_turn c f) (count_open p.steps)
  unfolding executing_turn
  executing-Outcome f p e = elim (Option-cases (get_next_step p)) [
    | inl e' ↦ rw (executing_turn, e, e') (sums_up refl refl)
    | inr (s, e') ↦ elim (Bool-cases f.resume_waiting) [
      | inl r ↦
          rw (executing_turn, e, e', r)
            (after_step-Outcome f (record p { status = running }) s _ _ e'
              (execute_step-over c.desk c.executor (record p { status = running }) s f.executor).1)
      | inr r ↦
          rw (executing_turn, e, e', r)
            (after_step-Outcome f (record p { status = running }) s _ _ e'
              (execute_step-over c.desk c.executor (record p { status = running }) s f.executor).0)
    ]
  ]

  -- Within so many turns the flow ends, or comes to a turn that asks for a new plan.
  abbrev pub Ends : Flow → ℕ → Type 0
  Ends f n =
      IsOver (run_turns c n f).next
      ⊎ ((m : ℕ) × (m ≤ n) × ((run_turns c m f).flow.status ≡ updating))

  Ends-stop : (f : Flow) (n : ℕ) → IsOver (turn c f).next → Ends f (suc n)
  unfolding run_turns
  Ends-stop f n (inl e) = inl (rw (run_turns, e) (inl e))
  Ends-stop f n (inr (inl e)) = inl (rw (run_turns, e) (inr (inl e)))
  Ends-stop f n (inr (inr e)) = inl (rw (run_turns, e) (inr (inr e)))

  run_turns-suc :
      (n : ℕ) (f : Flow)
      → (turn c f).next ≡ goes_on
      → ((run_turns c (suc n) f).next ≡ (run_turns c n (turn c f).flow).next)
        × ((run_turns c (suc n) f).flow ≡ (run_turns c n (turn c f).flow).flow)
  unfolding run_turns
  run_turns-suc n f e = (rw (run_turns, e) refl, rw (run_turns, e) refl)

  Ends-next :
      (f : Flow) (n : ℕ) → (turn c f).next ≡ goes_on → Ends (turn c f).flow n → Ends f (suc n)
  Ends-next f n e (inl h) = inl (subst IsOver (sym (run_turns-suc n f e).0) h)
  Ends-next f n e (inr (m, h, u)) =
      inr (suc m, omega arith, ap (λ g. g.status) (run_turns-suc m f e).1 ∙ u)

  Ends-replan :
      (f : Flow) (n : ℕ)
      → (turn c f).next ≡ goes_on
      → (turn c f).flow.status ≡ updating
      → Ends f (suc n)
  unfolding run_turns
  Ends-replan f n e u = Ends-next f n e (inr (0, omega arith, u))

  Ends-completed : (f : Flow) (n : ℕ) → f.status ≡ agent_completed → Ends f (suc n)
  unfolding turn completed_turn
  Ends-completed f n e = Ends-stop f n (
      inr (
        inl (
          rw (turn, e)
            (elim (Option-cases f.plan) [
              | inl e' ↦ rw (completed_turn, e') refl
              | inr (p, e') ↦ rw (completed_turn, e') refl
            ]))))

  Ends-summarizing : (f : Flow) (n : ℕ) → f.status ≡ summarizing → Ends f (suc (suc n))
  unfolding turn summarizing_turn
  Ends-summarizing f n e = elim (Bool-cases (summarize c.desk c.executor f.executor).0.1) [
    | inl q ↦ Ends-stop f (suc n) (inr (inr (rw (turn, e, summarizing_turn, q) refl)))
    | inr q ↦
        Ends-next f (suc n) (rw (turn, e, summarizing_turn, q) refl)
          (Ends-completed (turn c f).flow n (rw (turn, e, summarizing_turn, q) refl))
  ]

  Ends-enough : (n : ℕ) (f : Flow) → f.status ≡ summarizing → 2 ≤ n → Ends f n
  Ends-enough zero f e h = absurd (omega arith)
  Ends-enough (suc zero) f e h = absurd (omega arith)
  Ends-enough (suc (suc n)) f e h = Ends-summarizing f n e

  Ends-Outcome :
      (n k : ℕ) (f : Flow)
      → k + 3 ≤ suc n
      → ((p : Plan)
          → (turn c f).flow.status ≡ executing
          → (turn c f).flow.plan ≡ some p
          → count_open p.steps + 3 ≤ n
          → Ends (turn c f).flow n)
      → Outcome (turn c f) k
      → Ends f (suc n)
  Ends-Outcome n k f h next (ended e) = Ends-stop f n e
  Ends-Outcome n k f h next (replans e u) = Ends-replan f n e u
  Ends-Outcome n k f h next (sums_up e u) =
      Ends-next f n e (Ends-enough n (turn c f).flow u (omega arith))
  Ends-Outcome n k f h next (proceeds p e u plan count) =
      Ends-next f n e (next p u plan (omega arith))

-- A flow that executes a plan ends within as many turns as steps of the plan are open and three more, with
-- its DoneEvent, because a step waits for the user, or with an exception of the model or of an ill-formed
-- question, unless one of those turns asks for a new plan, whatever the tools do.
pub executing-Ends :
    (c : Crew) (n : ℕ) (f : Flow) (p : Plan)
    → f.status ≡ executing
    → f.plan ≡ some p
    → count_open p.steps + 3 ≤ n
    → Ends c f n
unfolding turn
executing-Ends c zero f p e e' h = absurd (omega arith)
executing-Ends c (suc n) f p e e' h =
    Ends-Outcome c n (count_open p.steps) f h
      (λ p' s plan. executing-Ends c n (turn c f).flow p' s plan)
      (rw (turn, e) (executing-Outcome c f p e'))
