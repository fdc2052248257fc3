-- ===== src/Agent/Runner/Live.antt =====
-- The events that a task records of those that it streams
-- (backend/app/domain/services/agent_task_runner.py, `_put_and_add_event`).
use da_swarm.Base.{List, [], ◌∷◌, ◌++◌, ◌≡◌, refl, sym, ap, ◌∙◌}
use mathlib.Core.List.{append-nil, append_assoc}
use da_swarm.Agent.Execution.{
  live_update, user_said, wait, done, failed_with, tool_called, tool_calling, asked, planning, said,
  titled, FlowEvent,
}
use da_swarm.Agent.Runner.{recorded_event}

-- Live updates are left out of the record.
unfoldable pub without_live : List FlowEvent → List FlowEvent
without_live [] = []
without_live (live_update text ∷ l) = without_live l
without_live (planning p ∷ l) = planning p ∷ without_live l
without_live (titled t ∷ l) = titled t ∷ without_live l
without_live (user_said text ∷ l) = user_said text ∷ without_live l
without_live (said text files ∷ l) = said text files ∷ without_live l
without_live (asked v ∷ l) = asked v ∷ without_live l
without_live (tool_calling c ∷ l) = tool_calling c ∷ without_live l
without_live (tool_called c ∷ l) = tool_called c ∷ without_live l
without_live (failed_with text ∷ l) = failed_with text ∷ without_live l
without_live (wait ∷ l) = wait ∷ without_live l
without_live (done ∷ l) = done ∷ without_live l

without_live-cons :
    (e : FlowEvent) (l : List FlowEvent) → without_live (e ∷ l) ≡ recorded_event e ++ without_live l
unfolding without_live
without_live-cons (live_update text) l = refl
without_live-cons (planning p) l = refl
without_live-cons (titled t) l = refl
without_live-cons (user_said text) l = refl
without_live-cons (said text files) l = refl
without_live-cons (asked v) l = refl
without_live-cons (tool_calling c) l = refl
without_live-cons (tool_called c) l = refl
without_live-cons (failed_with text) l = refl
without_live-cons wait l = refl
without_live-cons done l = refl

pub without_live-append :
    (l k : List FlowEvent) → without_live (l ++ k) ≡ without_live l ++ without_live k
unfolding without_live
without_live-append [] k = refl
without_live-append (e ∷ l) k =
    without_live-cons e (l ++ k)
    ∙ ap (λ z. recorded_event e ++ z) (without_live-append l k)
    ∙ sym (append_assoc (recorded_event e) (without_live l) (without_live k))
    ∙ ap (λ z. z ++ without_live k) (sym (without_live-cons e l))

pub without_live-one : (e : FlowEvent) → recorded_event e ≡ without_live (e ∷ [])
unfolding without_live
without_live-one e = sym (without_live-cons e [] ∙ append-nil (recorded_event e))
