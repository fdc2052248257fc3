-- ===== src/Agent/Flow/Completed.antt =====
-- What holds when the flow is left with a DoneEvent (backend/app/domain/services/flows/plan_act.py).
use da_swarm.Base.{List-cases}
use da_swarm.Agent.Loop.{is_broken}
use da_swarm.Agent.Planner.{create_plan, update_plan}
use da_swarm.Agent.Execution.{summarize}
use da_swarm.Base.{
  subst, ℕ, zero, suc, String, Bool, true, false, Option, none, some, ◌≡◌, refl, sym, inl, inr,
  Bool-cases, Option-cases,
}
use da_swarm.Agent.Plan.{Plan, completed, get_next_step, is_plan_finished, next_open}
use da_swarm.Agent.Plan.Completion.{get_next_step_iff}
use da_swarm.Agent.Flow.{
  status_of_session, after_step, Executor, FanOut, AgentStatus, idle, agent_planning, executing,
  summarizing, agent_completed, updating, SessionStatus, session_pending, session_running,
  session_waiting, session_completed, Crew, Flow, Next, goes_on, returns, breaks, raises,
  unless_raised, Turn, after_planning, planning_turn, executing_turn, updating_turn,
  summarizing_turn, completed_turn, turn, run_turns, start_run, step_needs_replan,
}

abbrev IsAllOver : Option Plan → Type 0
IsAllOver none = Unit
IsAllOver (some p) = get_next_step p ≡ none

-- Once a flow is past its steps, none of its plan is open.
abbrev IsSettled : AgentStatus → Option Plan → Type 0
IsSettled summarizing plan = IsAllOver plan
IsSettled agent_completed plan = IsAllOver plan
IsSettled _ plan = Unit

-- A flow with no plan, or with one that is COMPLETED and has only steps that are over.
abbrev pub IsFinished : Option Plan → Type 0
IsFinished none = Unit
IsFinished (some p) = (is_plan_finished p ≡ true) × (p.status ≡ completed)

abbrev IsSound : Turn → Type 0
IsSound t = elim t.next [
  | goes_on ↦ IsSettled t.flow.status t.flow.plan
  | returns ↦ Unit
  | raises ↦ Unit
  | breaks ↦ IsFinished t.flow.plan
]

after_planning-IsSettled : (p : Option Plan) → IsSettled (after_planning p) p
unfolding next_open
after_planning-IsSettled none = tt
after_planning-IsSettled (some p) = elim (List-cases p.steps) [
  | inl e ↦ rw e refl
  | inr (s, l, e) ↦ rw e tt
]

module _ (c : Crew) where
  after_step-IsSound :
      (f : Flow) (p : Plan) (out : FanOut) (x : Executor) → IsSound (after_step c f p out x)
  unfolding after_step
  after_step-IsSound f p out x = elim (Bool-cases out.waited) [
    | inl w ↦ rw (after_step, w) tt
    | inr w ↦ elim (Bool-cases out.raised) [
      | inl q ↦ rw (after_step, w, q) tt
      | inr q ↦ elim (Bool-cases (step_needs_replan out.step)) [
        | inl r ↦ rw (after_step, w, q, r) tt
        | inr r ↦ rw (after_step, w, q, r) tt
      ]
    ]
  ]

  -- A turn of an agent's run: with an exception nothing is claimed of it.
  raised-IsSound :
      (cut : Bool) (t : Turn)
      → t.next ≡ unless_raised cut
      → (cut ≡ false → IsSettled t.flow.status t.flow.plan)
      → IsSound t
  raised-IsSound true t n h = subst (λ k. IsSound (record t { next = k })) (sym n) tt
  raised-IsSound false t n h = subst (λ k. IsSound (record t { next = k })) (sym n) (h refl)

  executing_turn-IsSound : (f : Flow) → IsSound (executing_turn c f)
  unfolding executing_turn
  executing_turn-IsSound f = elim (Option-cases f.plan) [
    | inl e ↦ rw (executing_turn, e) (subst IsAllOver (sym e) tt)
    | inr (p, e) ↦ elim (Option-cases (get_next_step p)) [
      | inl e' ↦ rw (executing_turn, e, e') e'
      | inr (s, e') ↦ elim (Bool-cases f.resume_waiting) [
        | inl r ↦ rw (executing_turn, e, e', r) (after_step-IsSound f _ _ _)
        | inr r ↦ rw (executing_turn, e, e', r) (after_step-IsSound f _ _ _)
      ]
    ]
  ]

  completed_turn-IsSound : (f : Flow) → IsAllOver f.plan → IsSound (completed_turn c f)
  unfolding completed_turn
  completed_turn-IsSound f h = elim (Option-cases f.plan) [
    | inl e ↦ rw (completed_turn, e) (subst IsFinished (sym e) tt)
    | inr (p, e) ↦ rw (completed_turn, e) ((get_next_step_iff p).0 (subst IsAllOver e h), refl)
  ]

  updating_turn-IsSound : (f : Flow) → IsSound (updating_turn c f)
  unfolding updating_turn
  updating_turn-IsSound f = elim (Option-cases f.plan) [
    | inl e ↦ rw (updating_turn, e) tt
    | inr (p, e) ↦
        let up = update_plan c.drafting c.planner p f.step f.planner_memory in
        raised-IsSound up.1.0 (updating_turn c f) (rw (updating_turn, e) refl)
          (λ e'. rw (updating_turn, e, e') tt)
  ]

  turn-IsSound : (f : Flow) → IsSettled f.status f.plan → IsSound (turn c f)
  unfolding turn planning_turn summarizing_turn
  turn-IsSound f h = go f.status refl
    where
      settled : {s : AgentStatus} → f.status ≡ s → IsSettled s f.plan
      settled e = subst (λ s. IsSettled s f.plan) e h

      go : (s : AgentStatus) → f.status ≡ s → IsSound (turn c f)
      go idle e = rw (turn, e) tt
      go agent_planning e =
          let run = create_plan c.drafting c.planner f.planner_memory in
          rw (turn, e)
            (raised-IsSound (is_broken run.ending) (planning_turn c f) refl (λ e'.
              rw (planning_turn, e') (after_planning-IsSettled (planning_turn c f).flow.plan)))
      go executing e = rw (turn, e) (executing_turn-IsSound f)
      go updating e = rw (turn, e) (updating_turn-IsSound f)
      go summarizing e =
          let summary = summarize c.desk c.executor f.executor in
          rw (turn, e)
            (raised-IsSound summary.0.1 (summarizing_turn c f) refl
              (λ e'. rw (summarizing_turn, e') (settled e)))
      go agent_completed e = rw (turn, e) (completed_turn-IsSound f (settled e))

  run_turns-step :
      (n : ℕ) (f : Flow)
      → IsSound (turn c f)
      → (IsSettled (turn c f).flow.status (turn c f).flow.plan
          → IsSound (run_turns c n (turn c f).flow))
      → IsSound (run_turns c (suc n) f)
  unfolding run_turns
  run_turns-step n f h after = go (turn c f).next refl
    where
      go : (k : Next) → (turn c f).next ≡ k → IsSound (run_turns c (suc n) f)
      go returns e = rw (run_turns, e, e) tt
      go raises e = rw (run_turns, e, e) tt
      go breaks e = rw (run_turns, e) h
      go goes_on e =
          rw (run_turns, e) (after (subst (λ k. IsSound (record (turn c f) { next = k })) e h))

  run_turns-IsSound : (n : ℕ) (f : Flow) → IsSettled f.status f.plan → IsSound (run_turns c n f)
  unfolding run_turns
  run_turns-IsSound zero f h = h
  run_turns-IsSound (suc n) f h =
      run_turns-step n f (turn-IsSound f h) (run_turns-IsSound n (turn c f).flow)

start_run-IsSettled :
    (status : SessionStatus) (plan : Option Plan) → IsSettled (status_of_session status) plan
start_run-IsSettled session_pending plan = tt
start_run-IsSettled session_running plan = tt
start_run-IsSettled session_waiting plan = tt
start_run-IsSettled session_completed plan = tt

-- However long it ran and whatever the model, the tools and the planner did, a flow that is left with its
-- DoneEvent has no plan, or a COMPLETED one of which every step is over.
pub run_turns-completes :
    (c : Crew) (status : SessionStatus) (plan : Option Plan) (text : String) (f : Flow) (n : ℕ)
    → (run_turns c n (start_run c status plan text f)).next ≡ breaks
    → IsFinished (run_turns c n (start_run c status plan text f)).flow.plan
unfolding start_run
run_turns-completes c status plan text f n h =
    subst (λ k. IsSound (record (run_turns c n (start_run c status plan text f)) { next = k })) h
      (run_turns-IsSound c n (start_run c status plan text f) (start_run-IsSettled status plan))
