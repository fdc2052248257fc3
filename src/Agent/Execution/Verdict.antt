-- ===== src/Agent/Execution/Verdict.antt =====
-- How a step stands after it ran (backend/app/domain/services/agents/execution.py).
use da_swarm.Agent.Calls.{
  Agency, OutputTool, AgentEvent, is_work, ask_user, handle_output_call, output_tool_of, with_id,
  process, calling, called, error_event, message_event, structured_output,
}
use da_swarm.Base.{List-cases}
use da_swarm.Base.{
  ℕ, zero, suc, String, ◌==◌, Bool, true, false, ◌&&◌, Option, none, some, List, [], ◌∷◌, ◌++◌, ◌≡◌,
  refl, ap, ◌∙◌, ◌⊎◌, if◌then◌else◌, inl, inr, Bool-cases, Option-cases,
}
use mathlib.Core.Bool.{false≢true}
use da_swarm.Agent.Plan.{Step, Plan, is_done}
use da_swarm.Agent.Memory.{ToolCall, Message}
use da_swarm.Agent.Loop.{is_broken, execute_agent, tool_loop, max_iterations}
use da_swarm.Agent.Execution.{
  StepReport, FanOut, question_text, fan_out_step, Desk, Executor, execute_step, resume_step,
  complete_step_tool, step_run, failed_step, reported_step,
}

-- The step is over, the run waits for the user, or an exception left it.
abbrev pub IsConcluded : FanOut → Type 0
IsConcluded f = (f.waited ≡ true) ⊎ ((f.raised ≡ true) ⊎ (is_done f.step ≡ true))

abbrev Concludes : List (AgentEvent StepReport) → Bool → Type 0
Concludes es cut = (s : Step) → IsConcluded (fan_out_step s es cut)

-- A question is put or raises.
asks-IsConcluded :
    (c : ToolCall) (s : Step) (l : List (AgentEvent StepReport)) (cut : Bool)
    → IsConcluded (fan_out_step s l cut)
    → IsConcluded (fan_out_step s (calling c ∷ l) cut)
unfolding fan_out_step
asks-IsConcluded c s l cut h = elim (Bool-cases (c.name == ask_user)) [
  | inr e ↦ rw (fan_out_step, e) h
  | inl e ↦ elim (Option-cases (question_text c.args)) [
    | inl q ↦ rw (fan_out_step, e, q) (inr (inl refl))
    | inr (text, q) ↦ rw (fan_out_step, e, q) h
  ]
]

-- A step that is over stays so, whatever else the run yields.
Concludes-over :
    (es : List (AgentEvent StepReport)) (cut : Bool) (s : Step)
    → is_done s ≡ true
    → IsConcluded (fan_out_step s es cut)
unfolding fan_out_step
Concludes-over [] cut s h = inr (inr h)
Concludes-over (error_event e ∷ es) cut s h = Concludes-over es cut (failed_step e s) refl
Concludes-over (structured_output r ∷ es) cut s h = Concludes-over es cut (reported_step r s) refl
Concludes-over (message_event m ∷ es) cut s h = Concludes-over es cut s h
Concludes-over (calling c ∷ es) cut s h = asks-IsConcluded c s es cut (Concludes-over es cut s h)
Concludes-over (called c ∷ es) cut s h = elim (Bool-cases (c.name == ask_user)) [
  | inl e ↦ rw e (inl refl)
  | inr e ↦ rw e (Concludes-over es cut s h)
]

Concludes-append :
    (es es' : List (AgentEvent StepReport)) (cut : Bool)
    → Concludes es' cut
    → Concludes (es ++ es') cut
unfolding fan_out_step
Concludes-append [] es' cut h s = h s
Concludes-append (error_event e ∷ es) es' cut h s = Concludes-append es es' cut h (failed_step e s)
Concludes-append (structured_output r ∷ es) es' cut h s =
    Concludes-append es es' cut h (reported_step r s)
Concludes-append (message_event m ∷ es) es' cut h s = Concludes-append es es' cut h s
Concludes-append (calling c ∷ es) es' cut h s =
    asks-IsConcluded c s (es ++ es') cut (Concludes-append es es' cut h s)
Concludes-append (called c ∷ es) es' cut h s = elim (Bool-cases (c.name == ask_user)) [
  | inl e ↦ rw e (inl refl)
  | inr e ↦ rw e (Concludes-append es es' cut h s)
]

with_id-name :
    (a : Agency) (memory : List Message) (cs : List ToolCall) (c : ToolCall)
    → (with_id a memory cs c).name ≡ c.name
with_id-name a memory cs c = elim (Bool-cases (c.id == "")) [
  | inl e ↦ rw e refl
  | inr e ↦ rw e refl
]

and-right : (p q : Bool) → p && q ≡ true → q ≡ true
and-right true q h = h
and-right false q h = absurd (false≢true h)

Concludes-question :
    (c : ToolCall) (cut : Bool)
    → c.name == ask_user ≡ true
    → Concludes (calling c ∷ called c ∷ []) cut
unfolding fan_out_step
Concludes-question c cut e s =
    asks-IsConcluded c s (called c ∷ []) cut (rw (fan_out_step, e) (inl refl))

Concludes-error :
    (e : String) (es : List (AgentEvent StepReport)) (cut : Bool)
    → Concludes (error_event e ∷ es) cut
unfolding fan_out_step
Concludes-error e es cut s = Concludes-over es cut (failed_step e s) refl

Concludes-output : (r : StepReport) (cut : Bool) → Concludes (structured_output r ∷ []) cut
unfolding fan_out_step
Concludes-output r cut s = inr (inr refl)

Concludes-raised : Concludes [] true
unfolding fan_out_step
Concludes-raised s = inr (inl refl)

-- A round that stopped at a question yields it.
process-Concludes :
    (a : Agency) (o : Option (OutputTool StepReport)) (waits : Bool) (memory : List Message)
    (output : Option StepReport) (work : ℕ) (cs : List ToolCall) (cut : Bool)
    → (process a o waits memory output work cs).waited ≡ true
    → Concludes (process a o waits memory output work cs).events cut
unfolding process
process-Concludes a o waits memory output work [] cut = λ h. absurd (false≢true h)
process-Concludes a o waits memory output work (c ∷ cs) cut =
    elim (Option-cases (output_tool_of o c.name)) [
      | inr (ot, e) ↦
          rw (process, e)
            (process-Concludes a o waits memory
              (handle_output_call ot work (with_id a memory cs c)).1 work cs cut)
      | inl e ↦ elim (Option-cases (a.toolkit_of c.name)) [
        | inl e' ↦
            rw (process, e, e')
              (λ h.
                Concludes-append (error_event _ ∷ []) _ cut
                  (process-Concludes a o waits memory output work cs cut h))
        | inr (toolkit, e') ↦ elim (Bool-cases (waits && c.name == ask_user)) [
          | inl w ↦
              rw (process, e, e', w)
                (λ h. Concludes-question (with_id a memory cs c) cut (
                  ap (λ n. n == ask_user) (with_id-name a memory cs c)
                  ∙ and-right waits (c.name == ask_user) w))
          | inr w ↦
              rw (process, e, e', w)
                (λ h.
                  Concludes-append
                    (calling (with_id a memory cs c) ∷ called (with_id a memory cs c) ∷ []) _ cut
                    (process-Concludes a o waits memory output
                      (if is_work toolkit then suc work else work) cs cut h))
        ]
      ]
    ]

tool_loop-Concludes :
    (a : Agency) (ot : OutputTool StepReport) (waits : Bool) (n : ℕ) (memory : List Message)
    (work : ℕ) (reply : Option Message)
    → (let run = tool_loop a (some ot) waits n memory work reply in
        Concludes run.events (is_broken run.ending))
unfolding tool_loop
tool_loop-Concludes a ot waits zero memory work none = Concludes-raised
tool_loop-Concludes a ot waits (suc n) memory work none = Concludes-raised
tool_loop-Concludes a ot waits zero memory work (some message) = Concludes-error _ _ _
tool_loop-Concludes a ot waits (suc n) memory work (some message) =
    elim (List-cases message.tool_calls) [
      | inl e ↦ rw (tool_loop, e) (tool_loop-Concludes a ot waits n _ work _)
      | inr (c, cs, e) ↦
          elim (Bool-cases (process a (some ot) waits memory none work (c ∷ cs)).waited) [
            | inl w ↦
                rw (tool_loop, e, w)
                  (process-Concludes a (some ot) waits memory none work (c ∷ cs) false w)
            | inr w ↦
                elim (Option-cases (process a (some ot) waits memory none work (c ∷ cs)).output) [
                  | inr (out, e') ↦
                      rw (tool_loop, e, w, e')
                        (Concludes-append _ (structured_output out ∷ []) false
                          (Concludes-output out false))
                  | inl e' ↦
                      rw (tool_loop, e, w, e')
                        (Concludes-append _ _ _ (tool_loop-Concludes a ot waits n _ _ _))
                ]
          ]
    ]

step_run-Concludes :
    (d : Desk) (a : Agency) (x : Executor) (request : String)
    → Concludes (step_run d a x request).events (is_broken (step_run d a x request).ending)
unfolding execute_agent
step_run-Concludes d a x request =
    tool_loop-Concludes a (complete_step_tool d) true max_iterations _ _ _

-- A step that was executed or resumed is over, COMPLETED or FAILED, unless the run waits for the user or an
-- exception of the model or of an ill-formed question left it, whatever the tools do.
pub execute_step-over :
    (d : Desk) (a : Agency) (plan : Plan) (s : Step) (x : Executor)
    → IsConcluded (execute_step d a plan s x).0 × IsConcluded (resume_step d a plan s x).0
unfolding execute_step resume_step
execute_step-over d a plan s x = (step_run-Concludes d a _ _ _, step_run-Concludes d a _ _ _)
