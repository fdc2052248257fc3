-- ===== src/Agent/Plan.antt =====
-- Plans and their progress (backend/app/domain/models/plan.py,
-- backend/app/domain/services/plan_progress.py). A step object is the position of it in its plan, so the
-- dictionaries of the source, which share the plan's steps, give positions.
pub mod Lookups
pub mod Reports
pub mod Completion
use mathlib.Core.Option
use da_swarm.Base.{
  ℕ, zero, suc, String, Bool, true, false, ◌&&◌, ◌||◌, not, Option, none, some, List, [], ◌∷◌, ◌++◌,
  ◌==◌, map, reverse, all, if◌then◌else◌,
}
use da_swarm.Swarm.Errors.{Result, ok, err, key_error, ◌>>=◌}
use da_swarm.Swarm.Json.{Fields}

pub data ExecutionStatus : Type 0 where
  pending : ExecutionStatus
  running : ExecutionStatus
  completed : ExecutionStatus
  failed : ExecutionStatus

pub record Step : Type 0 where
  pub id : String
  pub description : String
  pub status : ExecutionStatus
  pub result : Option String
  pub error : Option String
  pub success : Bool
  pub attachments : List String

pub record Plan : Type 0 where
  pub id : String
  pub title : String
  pub goal : String
  pub language : Option String
  pub steps : List Step
  pub message : Option String
  pub status : ExecutionStatus
  pub result : Option Fields
  pub error : Option String

pub data PlanStatus : Type 0 where
  created : PlanStatus
  updated : PlanStatus
  plan_completed : PlanStatus

pub data StepStatus : Type 0 where
  started : StepStatus
  step_failed : StepStatus
  step_completed : StepStatus

pub data PlanningEvent : Type 0 where
  plan_event : PlanStatus → Plan → PlanningEvent
  step_event : StepStatus → Step → PlanningEvent

abbrev pub is_over : ExecutionStatus → Bool
is_over completed = true
is_over failed = true
is_over _ = false

abbrev pub is_running : ExecutionStatus → Bool
is_running running = true
is_running _ = false

-- `Step.is_done`
abbrev pub is_done : Step → Bool
is_done s = is_over s.status

-- `Plan.is_done`
abbrev pub is_plan_done : Plan → Bool
is_plan_done p = is_over p.status

unfoldable pub next_open : List Step → Option Step
next_open [] = none
next_open (s ∷ l) = let rest = next_open l in if is_done s then rest else some s

-- `Plan.get_next_step`
abbrev pub get_next_step : Plan → Option Step
get_next_step p = next_open p.steps

-- `is_plan_finished`
abbrev pub is_plan_finished : Plan → Bool
is_plan_finished p = all is_done p.steps

unfoldable pub mark_steps : List Step → List Step
mark_steps [] = []
mark_steps (s ∷ l) =
    let rest = mark_steps l in
    if is_over s.status then s ∷ rest else record s { status = running } ∷ l

-- `mark_first_step_running`
abbrev pub mark_first_step_running : Plan → Plan
mark_first_step_running p = record p { steps = mark_steps p.steps }

-- `_set_step_success`
abbrev pub set_step_success : ExecutionStatus → Step → Step
set_step_success completed s = record s { success = true }
set_step_success failed s = record s { success = false }
set_step_success _ s = s

-- `_should_emit_started`
abbrev pub should_emit_started : ExecutionStatus → ExecutionStatus → Bool
should_emit_started pending running = true
should_emit_started _ _ = false

-- `_should_emit_completed`
abbrev pub should_emit_completed : ExecutionStatus → ExecutionStatus → Bool
should_emit_completed completed completed = false
should_emit_completed _ completed = true
should_emit_completed _ _ = false

pub record StepUpdate : Type 0 where
  pub id : String
  pub status : ExecutionStatus
  pub reflection : Option String

pub record Report : Type 0 where
  pub steps : List StepUpdate
  pub reflection : String

-- `step_by_id.get(id)`: the last step with that identifier.
unfoldable pub last_index : String → List Step → Option ℕ
last_index id [] = none
last_index id (s ∷ l) = elim (last_index id l) [
  | some n ↦ some (suc n)
  | none ↦ if s.id == id then some 0 else none
]

unfoldable pub step_at : ℕ → List Step → Option Step
step_at n [] = none
step_at zero (s ∷ l) = some s
step_at (suc n) (s ∷ l) = step_at n l

unfoldable pub update_at : ℕ → (Step → Step) → List Step → List Step
update_at n f [] = []
update_at zero f (s ∷ l) = f s ∷ l
update_at (suc n) f (s ∷ l) = s ∷ update_at n f l

-- The loop over `report.steps`: the steps, `running_updates` (newest first) and `last_touched`.
pub record Progress : Type 0 where
  pub steps : List Step
  pub running_updates : List String
  pub last_touched : Option ℕ

abbrev pub updated_step : StepUpdate → Step → Step
updated_step u s =
    let with_status = set_step_success u.status (record s { status = u.status }) in
    elim u.reflection [ none ↦ with_status | some r ↦ record with_status { result = some r } ]

unfoldable pub apply_update : StepUpdate → Progress → Progress
apply_update u p = elim (last_index u.id p.steps) [
  | none ↦ p
  | some n ↦ record {
    steps = update_at n (updated_step u) p.steps;
    running_updates = if is_running u.status then u.id ∷ p.running_updates else p.running_updates;
    last_touched = some n;
  }
]

unfoldable pub apply_updates : List StepUpdate → Progress → Progress
apply_updates [] p = p
apply_updates (u ∷ l) p = apply_updates l (apply_update u p)

-- `running_steps[0] if running_steps else None`
unfoldable pub first_running : List Step → Option ℕ
first_running [] = none
first_running (s ∷ l) =
    let rest = first_running l in if is_running s.status then some 0 else Option.map suc rest

-- `step_by_id[id]`
unfoldable pub step_of : String → List Step → Result (ℕ × Step)
step_of id steps = elim (last_index id steps) [
  | none ↦ err key_error
  | some n ↦ elim (step_at n steps) [ none ↦ err key_error | some s ↦ ok (n, s) ]
]

-- The step that stays RUNNING: the last one that the report set so, or else the first that runs.
unfoldable pub preferred_running : List Step → List String → Result (Option ℕ)
preferred_running steps [] = ok (first_running steps)
preferred_running steps (id ∷ l) = do
  (n, s) ← step_of id steps
  elim (is_running s.status) [ true ↦ ok (some n) | false ↦ preferred_running steps l ]

abbrev pub halted : Step → Step
halted s = if is_running s.status then record s { status = pending } else s

-- Every other running step goes back to PENDING.
unfoldable pub demote : Option ℕ → List Step → List Step
demote n [] = []
demote none (s ∷ l) = halted s ∷ demote none l
demote (some zero) (s ∷ l) = s ∷ demote none l
demote (some (suc n)) (s ∷ l) = halted s ∷ demote (some n) l

-- `not step.result`
abbrev pub has_result : Step → Bool
has_result s = elim s.result [ none ↦ false | some r ↦ not (r == "") ]

unfoldable pub reflect : String → Option ℕ → List Step → List Step
reflect text none l = l
reflect text (some n) l =
    if text == ""
    then l
    else update_at n (λ s. if has_result s then s else record s { result = some text }) l

-- `previous_status[id]`
unfoldable pub status_of : String → List Step → Result ExecutionStatus
status_of id steps = do (_, s) ← step_of id steps; ok s.status

unfoldable pub step_events : List Step → List Step → Result (List PlanningEvent)
step_events old [] = ok []
step_events old (s ∷ l) = do
  before ← status_of s.id old
  rest ← step_events old l
  ok (
      if should_emit_started before s.status
      then step_event started s ∷ rest
      else if should_emit_completed before s.status
      then step_event step_completed s ∷ rest
      else rest)

-- `apply_plan_report`: the plan as it stands afterwards, and the events.
unfoldable pub apply_plan_report : Plan → Report → Result (Plan × List PlanningEvent)
apply_plan_report plan report = do
  let p =
      apply_updates report.steps
        (record { steps = plan.steps; running_updates = []; last_touched = none })
  keep ← preferred_running p.steps p.running_updates
  let new = record plan { steps = reflect report.reflection p.last_touched (demote keep p.steps) }
  events ← step_events plan.steps new.steps
  ok (new, plan_event updated new ∷ events)

abbrev pub finished_step : Step → Step
finished_step s = if is_over s.status then s else record s { status = completed; success = true }

-- `complete_plan`
abbrev pub complete_plan : Plan → Plan
complete_plan p = record p { steps = map finished_step p.steps; status = completed }

-- `step_started_events`
unfoldable pub step_started_events : List Step → List PlanningEvent
step_started_events [] = []
step_started_events (s ∷ l) =
    let rest = step_started_events l in
    if is_running s.status then step_event started s ∷ rest else rest

unfoldable pub completed_events : List Step → List PlanningEvent
completed_events [] = []
completed_events (s ∷ l) =
    let rest = completed_events l in
    if is_running s.status then step_event step_completed (finished_step s) ∷ rest else rest

-- `complete_plan_events`
abbrev pub complete_plan_events : Plan → Plan × List PlanningEvent
complete_plan_events p = (
  complete_plan p,
  completed_events p.steps ++ (plan_event plan_completed (complete_plan p) ∷ []),
)
