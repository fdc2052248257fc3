-- ===== src/Agent/Runner/Settled.antt =====
-- How a task leaves its session (backend/app/domain/services/agent_task_runner.py).
use da_swarm.Base.{List-cases}
use mathlib.Core.Bool.{false≢true}
use da_swarm.Base.{
  Option-cases, ℕ, zero, suc, ◌+◌, ◌<◌, String, true, none, List, [], ◌∷◌, ◌++◌, length,
  length-append, ◌≡◌, refl, ap, ◌∙◌, inl, inr, Bool-cases, arith,
}
use da_swarm.Agent.Execution.{
  live_update, user_said, done, failed_with, tool_called, tool_calling, asked, planning, said,
  titled, FlowEvent, wait,
}
use da_swarm.Agent.Flow.{session_waiting, session_completed}
use da_swarm.Agent.Runner.{
  recorded_event, text_of_message, AgentSession, InputEvent, user_message, other_event, TaskState,
  put_and_add_event, note_event, is_wait, Arrivals, arrive, Pause, drained, interrupted, waits,
  consume, RunEnd, all_read, waiting_for_user, given_up, unfinished, answer_to, run_task,
}
use da_swarm.Agent.Chat.{Cut, no_cut, cancelled, failing, Answer, ChatRoom}

unfoldable pub count_arrivals : Arrivals → ℕ
count_arrivals [] = 0
count_arrivals (new ∷ later) = length new + count_arrivals later

-- The events that a task has still to read, those to come included.
abbrev pub unread_input : Arrivals → TaskState → ℕ
unread_input later d = length d.input_stream + count_arrivals later

-- How `run` leaves the task: it read all and the session is COMPLETED, or the last event asks the user to
-- answer and the session is WAITING, or it gave up and the session is COMPLETED.
abbrev pub IsSettledTask : RunEnd × TaskState → Type 0
IsSettledTask (all_read, d) = (d.session.status ≡ session_completed) × (d.input_stream ≡ [])
IsSettledTask (waiting_for_user, d) =
    (d.session.status ≡ session_waiting)
    × ((before : List FlowEvent) × (d.session.events ≡ before ++ (wait ∷ [])))
IsSettledTask (given_up, d) = d.session.status ≡ session_completed
IsSettledTask (unfinished, d) = ⊥

arrive-unread :
    (later : Arrivals) (d : TaskState)
    → unread_input (arrive later d).0 (arrive later d).1 ≡ unread_input later d
unfolding arrive count_arrivals
arrive-unread [] d = refl
arrive-unread (new ∷ later) d = omega (arith, length-append d.input_stream new)

note_event-input : (e : FlowEvent) (d : TaskState) → (note_event e d).input_stream ≡ d.input_stream
unfolding note_event
note_event-input e d = elim (Option-cases (text_of_message e)) [
  | inr (text, h) ↦ rw (note_event, h) refl
  | inl h ↦ go e h
]
  where
    go : (e : FlowEvent) → text_of_message e ≡ none → (note_event e d).input_stream ≡ d.input_stream
    go (titled t) h = refl
    go (user_said text) h = absurd cc
    go (said text files) h = absurd cc
    go (planning p) h = refl
    go (asked v) h = rw (note_event, h) refl
    go (tool_calling c) h = refl
    go (tool_called c) h = refl
    go (failed_with text) h = refl
    go wait h = refl
    go done h = refl
    go (live_update text) h = refl

wait-only : (e : FlowEvent) → is_wait e ≡ true → e ≡ wait
wait-only wait h = refl
wait-only (titled t) h = absurd (false≢true h)
wait-only (user_said text) h = absurd (false≢true h)
wait-only (said text files) h = absurd (false≢true h)
wait-only (planning p) h = absurd (false≢true h)
wait-only (asked v) h = absurd (false≢true h)
wait-only (tool_calling c) h = absurd (false≢true h)
wait-only (tool_called c) h = absurd (false≢true h)
wait-only (failed_with text) h = absurd (false≢true h)
wait-only done h = absurd (false≢true h)
wait-only (live_update text) h = absurd (false≢true h)

noted-unread :
    (e : FlowEvent) (later : Arrivals) (d : TaskState)
    → (let (later', d') = arrive later (note_event e (put_and_add_event e d)) in
        unread_input later' d' ≡ unread_input later d)
noted-unread e later d =
    arrive-unread later (note_event e (put_and_add_event e d))
    ∙ ap (λ l. length l + count_arrivals later) (note_event-input e (put_and_add_event e d))

-- Streaming an answer reads nothing of the input.
consume-unread :
    (es : List FlowEvent) (later : Arrivals) (d : TaskState)
    → unread_input (consume es later d).1 (consume es later d).2 ≡ unread_input later d
unfolding consume
consume-unread [] later d = refl
consume-unread (e ∷ es) later d = elim (Bool-cases (is_wait e)) [
  | inl w ↦ rw (consume, w) refl
  | inr w ↦ elim (List-cases (arrive later (note_event e (put_and_add_event e d))).1.input_stream) [
    | inl h ↦ rw (consume, w, h) (consume-unread es _ _ ∙ noted-unread e later d)
    | inr (x, xs, h) ↦ rw (consume, w, h) (noted-unread e later d)
  ]
]

abbrev IsWaiting : Pause × Arrivals × TaskState → Type 0
IsWaiting r = r.0 ≡ waits → IsSettledTask (waiting_for_user, r.2)

consume-IsWaiting :
    (es : List FlowEvent) (later : Arrivals) (d : TaskState) → IsWaiting (consume es later d)
unfolding consume
consume-IsWaiting [] later d = λ h. absurd cc
consume-IsWaiting (e ∷ es) later d = elim (Bool-cases (is_wait e)) [
  | inl w ↦
      rw (consume, w)
        (λ h. (
          refl,
          (d.session.events, ap (λ z. d.session.events ++ recorded_event z) (wait-only e w)),
        ))
  | inr w ↦ elim (List-cases (arrive later (note_event e (put_and_add_event e d))).1.input_stream) [
    | inl h ↦ rw (consume, w, h) (consume-IsWaiting es _ _)
    | inr (x, xs, h) ↦ rw (consume, w, h) (λ k. absurd cc)
  ]
]

module _ (flow : AgentSession → String → Answer) (room : ChatRoom) where
  answer-settles :
      (n : ℕ) (message : String) (l : List InputEvent) (later : Arrivals) (d : TaskState)
      → (arrive later d).1.input_stream ≡ user_message message ∷ l
      → unread_input later d < suc n
      → ((later : Arrivals) (d : TaskState)
          → unread_input later d < n
          → IsSettledTask (run_task flow room n later d))
      → IsSettledTask (run_task flow room (suc n) later d)
  unfolding run_task
  answer-settles n message l later d h enough next = go streamed.0 refl
    where
      popped : TaskState
      popped = record (arrive later d).1 { input_stream = l }

      answer : Answer
      answer = answer_to flow room popped.session message

      streamed : Pause × Arrivals × TaskState
      streamed = consume answer.events (arrive later d).0 popped

      fewer : unread_input streamed.1 streamed.2 < n
      fewer = omega (
        arith,
        enough,
        consume-unread answer.events (arrive later d).0 popped,
        arrive-unread later d,
        ap length h,
      )

      go : (k : Pause) → streamed.0 ≡ k → IsSettledTask (run_task flow room (suc n) later d)
      go waits e = rw (run_task, h, e) (consume-IsWaiting answer.events (arrive later d).0 popped e)
      go interrupted e = rw (run_task, h, e) (next _ _ fewer)
      go drained e = cut answer.cut refl
        where
          cut : (x : Cut) → answer.cut ≡ x → IsSettledTask (run_task flow room (suc n) later d)
          cut no_cut e' = rw (run_task, h, e, e') (next _ _ fewer)
          cut cancelled e' = rw (run_task, h, e, e') refl
          cut (failing text) e' = rw (run_task, h, e, e') refl

  -- With a round for every event that the task has to read and one more, `run` does not stop short, and it
  -- leaves the session COMPLETED with all input read, WAITING with a WaitEvent as its last event, or
  -- COMPLETED after an exception or a cancellation, whatever arrives meanwhile.
  pub run_task-settles :
      (n : ℕ) (later : Arrivals) (d : TaskState)
      → unread_input later d < n
      → IsSettledTask (run_task flow room n later d)
  unfolding run_task
  run_task-settles zero later d h = absurd (omega arith)
  run_task-settles (suc n) later d enough = elim (List-cases (arrive later d).1.input_stream) [
    | inl h ↦ rw (run_task, h) (refl, h)
    | inr (user_message message, l, h) ↦
        answer-settles n message l later d h enough (run_task-settles n)
    | inr (other_event text, l, h) ↦ rw (run_task, h) refl
  ]
