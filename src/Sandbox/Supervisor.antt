-- ===== src/Sandbox/Supervisor.antt =====
-- The timeout of a sandbox (sandbox/app/services/supervisor.py), the routes that set it
-- (sandbox/app/api/v1/supervisor.py) and the middleware that extends it (sandbox/app/core/middleware.py).
-- Times are in milliseconds from 1970 on the clock of the machine; a time that `datetime` cannot hold raises.
-- Whether `asyncio.get_event_loop` gives a loop to put the timer on is a parameter; without one the timer is a
-- thread's. What a timer that fires does is not modelled: it ends the service.
pub mod Timers
use mathlib.Core.Option
use da_swarm.Base.{
  ℕ, zero, suc, ◌+◌, ◌-◌, ◌*◌, String, Bool, true, false, ◌&&◌, ◌||◌, not, Option, none, some, List,
  [], ◌∷◌, ltb, if◌then◌else◌,
}
use da_swarm.Base.Text.{codes, starts_with}
use da_swarm.Base.Int.{ℤ, pos, negsuc, pos_part, leb_ℤ}
use da_swarm.Swarm.Errors.{Result, ok, err, value_error}

-- A timer: when it shuts the sandbox down, and whether it still will.
pub record Timer : Type 0 where
  pub deadline : ℤ
  pub armed : Bool

-- `SupervisorService`, with the timers that it started and holds no more: an attribute forgets a timer that
-- it is set over, and the timer runs on unless it was cancelled.
pub record Supervisor : Type 0 where
  pub timeout_active : Bool
  pub shutdown_task : Option Timer
  pub shutdown_timer : Option Timer
  pub shutdown_time : Option ℤ
  pub auto_expand_enabled : Bool
  pub replaced : List Timer

-- `SupervisorTimeout`, with the remaining time in milliseconds.
pub record Timeout : Type 0 where
  pub status : Option String
  pub active : Bool
  pub shutdown_time : Option ℤ
  pub timeout_minutes : Option ℤ
  pub remaining : Option ℕ

abbrev pub minute : ℕ
minute = 60_000

abbrev pub disarmed : Timer → Timer
disarmed t = record t { armed = false }

abbrev pub disable_auto_expand : Supervisor → Supervisor
disable_auto_expand s = record s { auto_expand_enabled = false }

abbrev pub enable_auto_expand : Supervisor → Supervisor
enable_auto_expand s = record s { auto_expand_enabled = true }

-- The service before its first timer.
abbrev pub without_timeout : Supervisor
without_timeout = record {
  timeout_active = false;
  shutdown_task = none;
  shutdown_timer = none;
  shutdown_time = none;
  auto_expand_enabled = true;
  replaced = [];
}

-- `minutes or settings.SERVICE_TIMEOUT_MINUTES`
abbrev pub effective : Option ℤ → Option ℤ → Option ℤ
effective default none = default
effective default (some (pos zero)) = default
effective default (some (pos (suc n))) = some (pos (suc n))
effective default (some (negsuc n)) = some (negsuc n)

-- `datetime.now() + timedelta(minutes=minutes)`
unfoldable pub later : ℕ → ℤ → ℤ
later now (pos n) = pos (now + n * minute)
later now (negsuc n) =
    if ltb now (suc n * minute)
    then negsuc (suc n * minute - now - 1)
    else pos (now - suc n * minute)

-- A time of the years 1 to 9999, which a `datetime` holds.
abbrev pub is_datetime : ℤ → Bool
is_datetime t = leb_ℤ (negsuc 62_135_596_799_999) t && leb_ℤ t (pos 253_402_300_799_999)

-- A timer that an attribute forgets, as it was left.
abbrev pub forget : Option Timer → List Timer → List Timer
forget none l = l
forget (some t) l = t ∷ l

module _ (has_loop : Bool) where
  -- `_setup_timer`: the old task is cancelled; the old thread timer only where a new one replaces it.
  unfoldable pub setup_timer : ℕ → ℤ → Supervisor → Supervisor
  setup_timer now minutes s =
      let timer : Timer = record { deadline = later now minutes; armed = true } in
      let old = Option.map disarmed s.shutdown_task in
      if has_loop
      then record s { shutdown_task = some timer; replaced = forget old s.replaced }
      else record s {
        shutdown_task = old;
        shutdown_timer = some timer;
        replaced = forget (Option.map disarmed s.shutdown_timer) s.replaced;
      }

  -- The two operations that set the timeout differ in the status that they answer.
  unfoldable pub set_timeout :
      String → Option ℤ → ℕ → Option ℤ → Supervisor → Result Timeout × Supervisor
  set_timeout status default now minutes s = elim (effective default minutes) [
    | none ↦ (err value_error, s)
    | some m ↦
        if is_datetime (later now m)
        then (
          ok (record {
            status = some status;
            active = true;
            shutdown_time = some (later now m);
            timeout_minutes = some m;
            remaining = none;
          }),
          setup_timer now m
              (record s { timeout_active = true; shutdown_time = some (later now m) }),
        )
        else (err value_error, record s { timeout_active = true })
  ]

  -- `activate_timeout`
  abbrev pub activate_timeout : Option ℤ → ℕ → Option ℤ → Supervisor → Result Timeout × Supervisor
  activate_timeout = set_timeout "timeout_activated"

  -- `extend_timeout`
  abbrev pub extend_timeout : Option ℤ → ℕ → Option ℤ → Supervisor → Result Timeout × Supervisor
  extend_timeout = set_timeout "timeout_extended"

  -- `SupervisorService()`, which a configured timeout that `datetime` cannot hold does not let start.
  unfoldable pub initial : Option ℤ → ℕ → Option Supervisor
  initial default now = elim default [
    | none ↦ some without_timeout
    | some m ↦
        if is_datetime (later now m)
        then some (
            setup_timer now m (record without_timeout {
              timeout_active = true;
              shutdown_time = some (later now m);
            }))
        else none
  ]

-- `cancel_timeout`
unfoldable pub cancel_timeout : Supervisor → Timeout × Supervisor
cancel_timeout s =
    if s.timeout_active
    then (
      record {
        status = some "timeout_cancelled";
        active = false;
        shutdown_time = none;
        timeout_minutes = none;
        remaining = none;
      },
      record {
        timeout_active = false;
        shutdown_task = none;
        shutdown_timer = none;
        shutdown_time = none;
        auto_expand_enabled = true;
        replaced =
            forget (Option.map disarmed s.shutdown_timer)
              (forget (Option.map disarmed s.shutdown_task) s.replaced);
      },
    )
    else (
      record {
        status = some "no_timeout_active";
        active = false;
        shutdown_time = none;
        timeout_minutes = none;
        remaining = none;
      },
      s,
    )

-- `get_timeout_status`
unfoldable pub get_timeout_status : ℕ → Supervisor → Timeout
get_timeout_status now s =
    if s.timeout_active
    then record {
      status = none;
      active = true;
      shutdown_time = s.shutdown_time;
      timeout_minutes = none;
      remaining = some (elim s.shutdown_time [ none ↦ 0 | some t ↦ pos_part t - now ]);
    }
    else record {
      status = none;
      active = false;
      shutdown_time = none;
      timeout_minutes = none;
      remaining = none;
    }

-- What a route does when its service call succeeds.
abbrev pub by_user : Result Timeout × Supervisor → Result Timeout × Supervisor
by_user (ok t, s) = (ok t, disable_auto_expand s)
by_user (err e, s) = (err e, s)

-- `auto_extend_timeout_middleware`, before the request is handled.
unfoldable pub auto_extend : Bool → Option ℤ → ℕ → String → Supervisor → Supervisor
auto_extend has_loop default now path s = elim default [
  | none ↦ s
  | some m ↦
      if s.timeout_active
        && starts_with (codes path) (codes "/api/")
        && not (starts_with (codes path) (codes "/api/v1/supervisor/timeout/"))
        && s.auto_expand_enabled
      then (extend_timeout has_loop (some m) now none s).1
      else s
]

-- The requests that the timeout depends on.
pub data TimeoutRequest : Type 0 where
  activate : Option ℤ → TimeoutRequest
  extend : Option ℤ → TimeoutRequest
  cancel : TimeoutRequest
  other : String → TimeoutRequest

-- A request at a time: the middleware, and then the route.
unfoldable pub handle : Bool → Option ℤ → ℕ → TimeoutRequest → Supervisor → Supervisor
handle has_loop default now (activate m) s = (by_user (activate_timeout has_loop default now m s)).1
handle has_loop default now (extend m) s = (by_user (extend_timeout has_loop default now m s)).1
handle has_loop default now cancel s = (cancel_timeout s).1
handle has_loop default now (other path) s = auto_extend has_loop default now path s

unfoldable pub handle_all : Bool → Option ℤ → List (ℕ × TimeoutRequest) → Supervisor → Supervisor
handle_all has_loop default [] s = s
handle_all has_loop default ((now, r) ∷ l) s =
    handle_all has_loop default l (handle has_loop default now r s)
