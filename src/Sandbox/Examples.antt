-- ===== src/Sandbox/Examples.antt =====
-- The theorems of the timeout at concrete requests.
use da_swarm.Base.{ℕ, true, none, some, List, [], ◌∷◌, ◌≡◌, ◌⊎◌, refl}
use da_swarm.Base.Int.{pos, negsuc}
use da_swarm.Sandbox.Supervisor.{
  later, setup_timer, Supervisor, TimeoutRequest, activate, extend, cancel, other, initial,
  handle_all,
}
use da_swarm.Sandbox.Supervisor.Timers.{armed_deadlines, reported, handle_all-timers}

abbrev the_requests : List (ℕ × TimeoutRequest)
the_requests =
    (1000, other "/api/v1/file/read")
    ∷ (2000, extend (some (pos 5)))
    ∷ (2500, extend (some (negsuc 0)))
    ∷ (3000, other "/api/v1/shell/exec")
    ∷ (4000, cancel)
    ∷ (5000, activate none)
    ∷ []

abbrev the_start : Supervisor
the_start = record {
  timeout_active = true;
  shutdown_task = some (record { deadline = pos 600_000; armed = true });
  shutdown_timer = none;
  shutdown_time = some (pos 600_000);
  auto_expand_enabled = true;
  replaced = [];
}

abbrev the_end : Supervisor
the_end = handle_all true (some (pos 10)) the_requests the_start

handle_all-timers_example :
    (armed_deadlines the_end ≡ reported the_end.shutdown_time)
    × ((the_end.timeout_active ≡ true) ⊎ (the_end.shutdown_time ≡ none))
unfolding later setup_timer initial
handle_all-timers_example = handle_all-timers true (some (pos 10)) 0 the_start the_requests refl
