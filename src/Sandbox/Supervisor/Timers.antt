-- ===== src/Sandbox/Supervisor/Timers.antt =====
-- Of all the timers that were started at most one waits to shut the sandbox down, and it does so at the
-- time that the service reports (sandbox/app/services/supervisor.py).
use mathlib.Core.Option
use da_swarm.Base.Int.{ℤ}
use mathlib.Core.List.{append-nil}
use da_swarm.Base.{
  ◌∙◌, ap, Option-cases, ◌⊎◌, ℕ, String, Bool, true, false, Option, none, some, List, [], ◌∷◌, ◌++◌,
  ◌≡◌, refl, arith, inl, inr, Bool-cases, if◌then◌else◌,
}
use da_swarm.Swarm.Errors.{Result, ok, err}
use da_swarm.Sandbox.Supervisor.{
  activate_timeout, Timer, Supervisor, Timeout, effective, setup_timer, set_timeout,
  without_timeout, extend_timeout, initial, cancel_timeout, later, is_datetime, forget, disarmed,
  by_user, auto_extend, TimeoutRequest, activate, extend, cancel, other, handle, handle_all,
}

abbrev deadline_of : Option Timer → List ℤ
deadline_of none = []
deadline_of (some t) = if t.armed then t.deadline ∷ [] else []

unfoldable pub deadlines : List Timer → List ℤ
deadlines [] = []
deadlines (t ∷ l) = deadline_of (some t) ++ deadlines l

-- When the sandbox will be shut down by a timer, of those that the service holds and those that it holds no
-- more.
abbrev pub armed_deadlines : Supervisor → List ℤ
armed_deadlines s =
    deadline_of s.shutdown_task ++ deadline_of s.shutdown_timer ++ deadlines s.replaced

abbrev pub reported : Option ℤ → List ℤ
reported none = []
reported (some t) = t ∷ []

-- The kind of timer that is not in use.
abbrev idle : Bool → Supervisor → Option Timer
idle true s = s.shutdown_timer
idle false s = s.shutdown_task

-- The timers of a service agree with what it reports.
record IsTimed (has_loop : Bool) (s : Supervisor) : Type 0 where
  held : deadline_of s.shutdown_task ++ deadline_of s.shutdown_timer ≡ reported s.shutdown_time
  silent : deadlines s.replaced ≡ []
  active : (s.timeout_active ≡ true) ⊎ (s.shutdown_time ≡ none)
  unused : idle has_loop s ≡ none

-- A timer that was cancelled may be forgotten.
forget-silent :
    (o : Option Timer) (l : List Timer)
    → deadlines l ≡ []
    → deadlines (forget (Option.map disarmed o) l) ≡ []
unfolding deadlines
forget-silent none l h = h
forget-silent (some t) l h = h

setup_timer-IsTimed :
    (now : ℕ) (m : ℤ) (has_loop : Bool) (s : Supervisor)
    → idle has_loop s ≡ none
    → deadlines s.replaced ≡ []
    → IsTimed has_loop (
        setup_timer has_loop now m
          (record s { timeout_active = true; shutdown_time = some (later now m) }))
unfolding setup_timer
setup_timer-IsTimed now m true s u quiet = record {
  held = rw u refl;
  silent = forget-silent s.shutdown_task s.replaced quiet;
  active = inl refl;
  unused = u;
}
setup_timer-IsTimed now m false s u quiet = record {
  held = rw u refl;
  silent = forget-silent s.shutdown_timer s.replaced quiet;
  active = inl refl;
  unused = rw u refl;
}

active-IsTimed :
    (has_loop : Bool) (s : Supervisor)
    → IsTimed has_loop s
    → IsTimed has_loop (record s { timeout_active = true })
active-IsTimed true s t = record {
  held = t.held;
  silent = t.silent;
  active = inl refl;
  unused = t.unused;
}
active-IsTimed false s t = record {
  held = t.held;
  silent = t.silent;
  active = inl refl;
  unused = t.unused;
}

by_user-IsTimed :
    (has_loop : Bool) (r : Result Timeout × Supervisor)
    → IsTimed has_loop r.1
    → IsTimed has_loop (by_user r).1
by_user-IsTimed true (ok t, s) i = record {
  held = i.held;
  silent = i.silent;
  active = i.active;
  unused = i.unused;
}
by_user-IsTimed false (ok t, s) i = record {
  held = i.held;
  silent = i.silent;
  active = i.active;
  unused = i.unused;
}
by_user-IsTimed has_loop (err e, s) i = i

module _ (has_loop : Bool) (default : Option ℤ) where
  -- What a request leaves, also where it raises.
  set_timeout-IsTimed :
      (status : String) (now : ℕ) (minutes : Option ℤ) (s : Supervisor)
      → IsTimed has_loop s
      → IsTimed has_loop (set_timeout has_loop status default now minutes s).1
  unfolding set_timeout
  set_timeout-IsTimed status now minutes s t = elim (Option-cases (effective default minutes)) [
    | inl e ↦ rw (set_timeout, e) t
    | inr (m, e) ↦ elim (Bool-cases (is_datetime (later now m))) [
      | inl d ↦ rw (set_timeout, e, d) (setup_timer-IsTimed now m has_loop s t.unused t.silent)
      | inr d ↦ rw (set_timeout, e, d) (active-IsTimed has_loop s t)
    ]
  ]

  cancel_timeout-IsTimed :
      (s : Supervisor) → IsTimed has_loop s → IsTimed has_loop ((cancel_timeout s).1)
  unfolding cancel_timeout
  cancel_timeout-IsTimed s t = elim (Bool-cases s.timeout_active) [
    | inl e ↦ rw (cancel_timeout, e) (none_left has_loop)
    | inr e ↦ simp e t
  ]
    where
      quiet :
          deadlines (
            forget
              (Option.map disarmed s.shutdown_timer)
              (forget (Option.map disarmed s.shutdown_task) s.replaced))
          ≡ []
      quiet =
          forget-silent s.shutdown_timer (forget (Option.map disarmed s.shutdown_task) s.replaced)
            (forget-silent s.shutdown_task s.replaced t.silent)

      none_left :
          (b : Bool)
          → IsTimed b (record {
            timeout_active = false;
            shutdown_task = none;
            shutdown_timer = none;
            shutdown_time = none;
            auto_expand_enabled = true;
            replaced =
                forget
                  (Option.map disarmed s.shutdown_timer)
                  (forget (Option.map disarmed s.shutdown_task) s.replaced);
          })
      none_left true = record { held = refl; silent = quiet; active = inr refl; unused = refl }
      none_left false = record { held = refl; silent = quiet; active = inr refl; unused = refl }

auto_extend-IsTimed :
    (has_loop : Bool) (default : Option ℤ) (now : ℕ) (path : String) (s : Supervisor)
    → IsTimed has_loop s
    → IsTimed has_loop (auto_extend has_loop default now path s)
unfolding auto_extend
auto_extend-IsTimed has_loop none now path s t = t
auto_extend-IsTimed has_loop (some m) now path s t =
    either _ (set_timeout-IsTimed has_loop (some m) "timeout_extended" now none s t) t
  where
    either :
        (b : Bool) {x y : Supervisor}
        → IsTimed has_loop x
        → IsTimed has_loop y
        → IsTimed has_loop (if b then x else y)
    either true i j = i
    either false i j = j

handle-IsTimed :
    (has_loop : Bool) (default : Option ℤ) (now : ℕ) (r : TimeoutRequest) (s : Supervisor)
    → IsTimed has_loop s
    → IsTimed has_loop (handle has_loop default now r s)
unfolding handle
handle-IsTimed has_loop default now (activate m) s t =
    by_user-IsTimed has_loop (activate_timeout has_loop default now m s)
      (set_timeout-IsTimed has_loop default "timeout_activated" now m s t)
handle-IsTimed has_loop default now (extend m) s t =
    by_user-IsTimed has_loop (extend_timeout has_loop default now m s)
      (set_timeout-IsTimed has_loop default "timeout_extended" now m s t)
handle-IsTimed has_loop default now cancel s t = cancel_timeout-IsTimed has_loop default s t
handle-IsTimed has_loop default now (other path) s t =
    auto_extend-IsTimed has_loop default now path s t

handle_all-IsTimed :
    (has_loop : Bool) (default : Option ℤ) (l : List (ℕ × TimeoutRequest)) (s : Supervisor)
    → IsTimed has_loop s
    → IsTimed has_loop (handle_all has_loop default l s)
unfolding handle_all
handle_all-IsTimed has_loop default [] s t = t
handle_all-IsTimed has_loop default ((now, r) ∷ l) s t =
    handle_all-IsTimed has_loop default l (handle has_loop default now r s)
      (handle-IsTimed has_loop default now r s t)

initial-IsTimed :
    (has_loop : Bool) (default : Option ℤ) (now : ℕ) (s : Supervisor)
    → initial has_loop default now ≡ some s
    → IsTimed has_loop s
unfolding initial deadlines
initial-IsTimed true none now s h =
    let e : without_timeout ≡ s = cc in
    rw (← e) (record { held = refl; silent = refl; active = inr refl; unused = refl })
initial-IsTimed false none now s h =
    let e : without_timeout ≡ s = cc in
    rw (← e) (record { held = refl; silent = refl; active = inr refl; unused = refl })
initial-IsTimed has_loop (some m) now s h = elim (Bool-cases (is_datetime (later now m))) [
  | inl d ↦
      let e : setup_timer has_loop now m
            (record without_timeout { timeout_active = true; shutdown_time = some (later now m) })
          ≡ s =
        ground arith in
      rw (← e) (setup_timer-IsTimed now m has_loop without_timeout (nothing has_loop) refl)
  | inr d ↦ absurd (ground arith)
]
  where
    nothing : (b : Bool) → idle b without_timeout ≡ none
    nothing true = refl
    nothing false = refl

-- After any requests in any order, also those that raise, as long as the timers are all of one kind, one of
-- all the timers that were started will shut the sandbox down, at the time that the service reports, if it
-- reports one, and none otherwise; while the timeout is not active it reports none.
pub handle_all-timers :
    (has_loop : Bool) (default : Option ℤ) (started : ℕ) (first : Supervisor)
    (l : List (ℕ × TimeoutRequest))
    → initial has_loop default started ≡ some first
    → let s = handle_all has_loop default l first in
      (armed_deadlines s ≡ reported s.shutdown_time)
      × ((s.timeout_active ≡ true) ⊎ (s.shutdown_time ≡ none))
handle_all-timers has_loop default started first l h =
    let s = handle_all has_loop default l first in
    let t =
      handle_all-IsTimed has_loop default l first
        (initial-IsTimed has_loop default started first h) in
    (
      ap (λ q. deadline_of s.shutdown_task ++ deadline_of s.shutdown_timer ++ q) t.silent
          ∙ append-nil (deadline_of s.shutdown_task ++ deadline_of s.shutdown_timer)
          ∙ t.held,
      t.active,
    )
