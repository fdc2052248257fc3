-- ===== src/Swarm/Ledger/Workers.antt =====
-- Every step of a worker keeps the tables faithful to the ledger.
use da_swarm.Base.{String, ◌≡◌, refl, false, Option, some, List, arith, eq_iff}
use da_swarm.Base.Table.{key-find, find}
use da_swarm.Swarm.Errors.{ok}
use da_swarm.Swarm.Json.{Fields}
use da_swarm.Swarm.Database.{modify, Object, Event, Job, Db, World, Tx, ◌>>=◌, lift, gets}
use da_swarm.Swarm.Database.Steps.{
  >>=-eq-ok, Keeps, Keeps-pure, Keeps-if, Keeps-modify, Keeps-bind, Keeps-then,
}
use da_swarm.Swarm.Objects.{object_key, Source}
use da_swarm.Swarm.Service.{get}
use da_swarm.Swarm.Worker.Endings.{succeed, heartbeat, current_job, finish, fail}
use da_swarm.Swarm.Worker.{
  announce, update_job, transition, bury, take_lease, enroll, hand_out, requeue, recover, claim_job,
  claim,
}
use da_swarm.Swarm.Ledger.{IsFaithful, IsFaithful-same, Logged-some}
use da_swarm.Swarm.Ledger.Writes.{faithful_rules}
use da_swarm.Swarm.Service.Events.{Logged, event-Logged}

transition-IsFaithful :
    (job : Job) (at : Object × String) (status event_type : String)
    → Keeps IsFaithful (transition job at status event_type)
unfolding transition
transition-IsFaithful job (task, cause) status event_type = search faithful_rules depth 8

jobs_updated : (id : String) (f : Job → Job) → Keeps IsFaithful (modify (update_job id f))
unfolding update_job
jobs_updated id f = Keeps-modify _ (λ db h. IsFaithful-same h refl refl refl refl refl)

jobs_written : (f : Db → List Job) → Keeps IsFaithful (modify (λ db. record db { jobs = f db }))
jobs_written f = Keeps-modify _ (λ db h. IsFaithful-same h refl refl refl refl refl)

bury-IsFaithful : (job : Job) (at : Object × String) → Keeps IsFaithful (bury job at)
unfolding bury
bury-IsFaithful job (task, cause) =
    search (faithful_rules, transition-IsFaithful, jobs_updated) depth 16

-- A heartbeat's event shows the worker as it stands.
get-eq-ok :
    (id : String) (w : World) (db : Db) (o : Object) (db' : Db)
    → get id w db ≡ ok (o, db')
    → (find object_key id db.objects ≡ some o) × (db ≡ db')
unfolding get ◌>>=◌ lift gets
get-eq-ok id w db o db' h = ground arith

-- An event that shows an object as it stands.
snapshot-IsFaithful :
    (kind : String) (source : Source) (id : String) (o : Object) (db mid : Db) (ev : Event)
    (db' : Db)
    → IsFaithful db
    → find object_key id db.objects ≡ some o
    → db ≡ mid
    → Logged kind (some o) source mid ev db'
    → IsFaithful db'
snapshot-IsFaithful kind source id o db mid ev db' f found same logged =
    let at_key = key-find object_key id db.objects o found in
    Logged-some f (λ k. ground (arith, eq_iff o.id k)) (ground arith) (ground arith) (ground arith)
      (ground arith) logged

announce-IsFaithful :
    (worker : String) (source : Source) (payload : Fields)
    → Keeps IsFaithful (announce worker source payload)
unfolding announce
announce-IsFaithful worker source payload = record {
  at = λ w db f ev db' h.
      let (self, mid, e, e') = >>=-eq-ok w db _ _ h in
      let (found, same) = get-eq-ok worker w db self mid e in
      snapshot-IsFaithful "WORKER_HEARTBEAT" source worker self db mid ev db' f found same
        (event-Logged "WORKER_HEARTBEAT" (some self) source payload w mid ev db' e');
}

enroll-IsFaithful : (worker : String) (job : Job) → Keeps IsFaithful (enroll worker job)
unfolding enroll
enroll-IsFaithful worker job = search faithful_rules depth 12

hand_out-IsFaithful :
    (worker : String) (cfg : Fields) (job : Job) (id cause : String)
    → Keeps IsFaithful (hand_out worker cfg job id cause)
unfolding hand_out
hand_out-IsFaithful worker cfg job id cause = search (faithful_rules, jobs_updated) depth 12

requeue-IsFaithful : (job : Job) (at : Object × String) → Keeps IsFaithful (requeue job at)
unfolding requeue
requeue-IsFaithful job (task, cause) = search (faithful_rules, transition-IsFaithful)

take_lease-IsFaithful :
    (worker : String) (cfg : Fields) (job : Job) (at : Object × String)
    → Keeps IsFaithful (take_lease worker cfg job at)
unfolding take_lease
take_lease-IsFaithful worker cfg job (task, cause) =
    search
      (
        faithful_rules, transition-IsFaithful, announce-IsFaithful, enroll-IsFaithful,
        hand_out-IsFaithful, requeue-IsFaithful,
      )
      depth 16

recover-IsFaithful : (job : Job) (task : Object) → Keeps IsFaithful (recover job task)
unfolding recover
recover-IsFaithful job task = search (faithful_rules, transition-IsFaithful)

claim_job-IsFaithful :
    (worker : String) (cfg : Fields) (job : Job) → Keeps IsFaithful (claim_job worker cfg job)
unfolding claim_job
claim_job-IsFaithful worker cfg job =
    search (faithful_rules, recover-IsFaithful, bury-IsFaithful, take_lease-IsFaithful) depth 12

-- Whatever a worker finds and takes, its claim keeps the tables faithful.
pub claim-IsFaithful :
    (worker : String) (task_id resource : Option String)
    → Keeps IsFaithful (claim worker task_id resource)
unfolding claim
claim-IsFaithful worker task_id resource = search (faithful_rules, claim_job-IsFaithful) depth 12

pub heartbeat-IsFaithful : (job : Job) → Keeps IsFaithful (heartbeat job)
unfolding heartbeat
heartbeat-IsFaithful job = search (faithful_rules, jobs_written) depth 12

current_job-IsFaithful : (id : String) → Keeps IsFaithful (current_job id)
unfolding current_job
current_job-IsFaithful id = search faithful_rules

succeed-IsFaithful : (job : Job) → Keeps IsFaithful (succeed job)
unfolding succeed
succeed-IsFaithful job = search (faithful_rules, jobs_updated) depth 16

-- The ending of a task that went well, whatever faithful effect it has.
pub finish-IsFaithful :
    (job : Job) (effect : Tx (Unit {0}))
    → Keeps IsFaithful effect
    → Keeps IsFaithful (finish job effect)
unfolding finish
finish-IsFaithful job effect kept =
    Keeps-bind _ _ (current_job-IsFaithful job.task_id)
      (λ current. Keeps-if _ _ _ (Keeps-then _ _ kept (succeed-IsFaithful job)) (Keeps-pure false))

pub fail-IsFaithful : (job : Job) (error_class : String) → Keeps IsFaithful (fail job error_class)
unfolding fail
fail-IsFaithful job error_class =
    search (faithful_rules, current_job-IsFaithful, jobs_updated) depth 24
