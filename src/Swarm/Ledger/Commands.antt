-- ===== src/Swarm/Ledger/Commands.antt =====
-- Every command keeps the tables faithful to the ledger.
use da_swarm.Base.{ℕ, String, refl, Option, none, some, ◌∷◌}
use da_swarm.Swarm.Json.{Value, Fields}
use da_swarm.Swarm.Database.{modify, Object, Idem, Config}
use da_swarm.Swarm.Database.Steps.{Keeps-modify, Keeps}
use da_swarm.Swarm.Commands.Discovery.{
  Command, titled, discovery_source, start_discovery, discover, create_object,
}
use da_swarm.Swarm.Commands.Actions.{timeline, Setting}
use da_swarm.Swarm.Commands.{
  configure_with, cancel_jobs, Action, cancel_task, act, on_object, Request, start, discovery,
  creation, setting, start_trace, perform, remember, replayed, execute,
}
use da_swarm.Swarm.Ledger.{IsFaithful, IsFaithful-same}
use da_swarm.Swarm.Ledger.Writes.{faithful_rules}

discovery_source-IsFaithful :
    (found : Option Object) (title : String) (metadata : Fields) (trace actor : String)
    → Keeps IsFaithful (discovery_source found title metadata trace actor)
unfolding discovery_source
discovery_source-IsFaithful none title metadata trace actor = search faithful_rules
discovery_source-IsFaithful (some s) title metadata trace actor = search faithful_rules

titled-IsFaithful : (kind title : String) → Keeps IsFaithful (titled kind title)
unfolding titled
titled-IsFaithful kind title = search faithful_rules

start_discovery-IsFaithful :
    (p : Fields) (trace actor : String) → Keeps IsFaithful (start_discovery p trace actor)
unfolding start_discovery
start_discovery-IsFaithful p trace actor =
    search (faithful_rules, titled-IsFaithful, discovery_source-IsFaithful) depth 16

discover-IsFaithful : (p : Fields) (trace : String) → Keeps IsFaithful (discover p trace)
unfolding discover
discover-IsFaithful p trace = search (faithful_rules, titled-IsFaithful) depth 16

create_object-IsFaithful : (p : Fields) (trace : String) → Keeps IsFaithful (create_object p trace)
unfolding create_object
create_object-IsFaithful p trace = search faithful_rules depth 12

config_set : (c : Config) → Keeps IsFaithful (modify (λ db. record db { config = some c }))
config_set c = Keeps-modify _ (λ db f. IsFaithful-same f refl refl refl refl refl)

configure_with-IsFaithful :
    (s : Setting) (expected : Option ℕ) (p : Fields) (trace actor : String)
    → Keeps IsFaithful (configure_with s expected p trace actor)
unfolding configure_with
configure_with-IsFaithful s expected p trace actor = search (faithful_rules, config_set) depth 12

cancel_jobs-IsFaithful : (id : String) → Keeps IsFaithful (modify (cancel_jobs id))
unfolding cancel_jobs
cancel_jobs-IsFaithful id = Keeps-modify _ (λ db f. IsFaithful-same f refl refl refl refl refl)

act-IsFaithful :
    (a : Action) (obj : Object) (p : Fields) (actor trace cause : String)
    → Keeps IsFaithful (act a obj p actor trace cause)
unfolding act
act-IsFaithful cancel_task obj p actor trace cause =
    search (faithful_rules, cancel_jobs-IsFaithful) depth 12
act-IsFaithful _ obj p actor trace cause = search faithful_rules depth 12

timeline-IsFaithful : (id : String) → Keeps IsFaithful (timeline id)
unfolding timeline
timeline-IsFaithful id = search faithful_rules

on_object-IsFaithful : (cmd : Command) (actor : String) → Keeps IsFaithful (on_object cmd actor)
unfolding on_object
on_object-IsFaithful cmd actor =
    search (faithful_rules, timeline-IsFaithful, act-IsFaithful) depth 16

start_trace-IsFaithful :
    (r : Request) (cmd : Command) (trace actor : String)
    → Keeps IsFaithful (start_trace r cmd trace actor)
unfolding start_trace
start_trace-IsFaithful start cmd trace actor = search (faithful_rules, start_discovery-IsFaithful)
start_trace-IsFaithful discovery cmd trace actor = search (faithful_rules, discover-IsFaithful)
start_trace-IsFaithful creation cmd trace actor = search (faithful_rules, create_object-IsFaithful)
start_trace-IsFaithful (setting s) cmd trace actor =
    search (faithful_rules, configure_with-IsFaithful)

perform-IsFaithful : (cmd : Command) (actor : String) → Keeps IsFaithful (perform cmd actor)
unfolding perform
perform-IsFaithful cmd actor =
    search (faithful_rules, start_trace-IsFaithful, on_object-IsFaithful) depth 8

idem_added : (i : Idem) → Keeps IsFaithful (modify (λ db. record db { idem = i ∷ db.idem }))
idem_added i = Keeps-modify _ (λ db f. IsFaithful-same f refl refl refl refl refl)

remember-IsFaithful :
    (cmd : Command) (actor fingerprint : String) (x : Value × String)
    → Keeps IsFaithful (remember cmd actor fingerprint x)
unfolding remember
remember-IsFaithful cmd actor fingerprint (r, t) = search (faithful_rules, idem_added) depth 8

replayed-IsFaithful :
    (fingerprint : String) (old : Idem) → Keeps IsFaithful (replayed fingerprint old)
unfolding replayed
replayed-IsFaithful fingerprint old = search faithful_rules

-- Whatever the operator sends, a command that commits leaves every object and every projection equal to
-- the last snapshot in the ledger, every event in the outbox, and the events numbered in a rising order.
pub execute-IsFaithful : (cmd : Command) (actor : String) → Keeps IsFaithful (execute cmd actor)
unfolding execute
execute-IsFaithful cmd actor =
    search (faithful_rules, replayed-IsFaithful, perform-IsFaithful, remember-IsFaithful) depth 16
