-- ===== src/Swarm/Worker.antt =====
-- `Worker.claim` (backend/app/swarm/application/worker.py): leases, fencing tokens, bounded retries.
pub mod Endings
pub mod Exclusive
pub mod Fencing
pub mod Leases
use da_swarm.Base.{
  ℕ, zero, suc, ◌+◌, ◌-◌, ◌*◌, ◌/◌, ◌%◌, ◌^◌, ◌≤◌, ◌<◌, min, max, String, ◌≡◌, refl, sym, ap, ◌∙◌,
  ◌≢◌, ◌↔◌, ◌⊎◌, inl, inr, Bool, true, false, not, ◌&&◌, ◌||◌, Option, none, some, List, [], ◌∷◌,
  ◌++◌, map, reverse, arith, ◌==◌, eq_iff, eq_refl, ltb, leb, eqb, if◌then◌else◌, ltb→lt, lt→ltb,
  leb→le, eqb_iff, tests, Bool-cases, Option-cases, length, take, drop, any, all, All, All-append,
  length-append, length-map, length-take, take-append-drop,
}
use da_swarm.Base.Table.{update_where, find, count_where}
use da_swarm.Base.Int.{pos_part}
use da_swarm.Base.Text.{prefix}
use da_swarm.Swarm.Errors.{
  Error, conflict, not_found, forbidden, value_error, key_error, type_error, index_error,
  integrity_error, timeout_error, Result, ok, err, require, Result-cases,
}
use da_swarm.Swarm.Json.{
  Value, null, boolean, int, real, str, arr, dict, Items, nil, cons, Fields, end, field, nat,
  get_field, set_field, update_fields, field_names, truthy, get_or, millionths, items,
}
use da_swarm.Swarm.Contracts.{
  mem, assoc, targets_of, validate_transition, Environ, is_forbidden, holds_secret, walk,
  walk_items, walk_fields, validate_metadata, states, relations, resources, object_types,
  upper_kinds, Machine, Relation,
}
use da_swarm.Swarm.Database.{
  pure, modify, Object, Edge, Event, Body, event_body, task_body, Entry, Idem, Job, Projection,
  Config, Db, World, Tx, ◌>>=◌, ◌>>◌, raise, lift, gets, ask, uid, if_found,
}
use da_swarm.Swarm.Objects.{
  object_key, projection_key, job_task, job_idempotency, Source, by_worker, by_human, object_value,
  project, with_snapshot, record_event, text_column, patched, check_status, patch_columns,
  checked_update, nat_setting, new_object, created_event, job_key, joins,
}
use da_swarm.Swarm.Service.{
  get, enqueue_outbox, trace_or_uid, event, insert_object, create, write_object, change, new_edge,
  link, settings, insert_job, new_job, schedule,
}
use da_swarm.Swarm.Configuration.{
  default_config, item, number, in_range, sum_weights, weight_names, same_names, valid_weights,
  positive, characters, iterate, is_queue, are_placeholders, valid_providers, validate_config,
  texts, insert_sorted, sorted_set, discard, to_items,
}
use da_swarm.Swarm.Commands.Discovery.{as_fields}
use Prim.Native.String.{◌++◌ as append}

-- `lease_seconds`, in milliseconds. A configuration that an operator sets has from 1 to 3600 of them
-- (`Service.validate_config`, backend/app/swarm/application/service.py), so that less than none, which
-- counts as none here, does not occur.
unfoldable pub milliseconds : String → Fields → Result ℕ
milliseconds k d = elim (get_field k d) [
  | none ↦ err key_error
  | some v ↦ elim (millionths v) [ none ↦ err type_error | some m ↦ ok (pos_part m / 1000) ]
]

-- `a == b` on lease tokens.
unfoldable pub same_token : Option String → Option String → Bool
same_token (some a) (some b) = a == b
same_token none none = true
same_token _ _ = false

-- The jobs that a worker may take now: waiting ones that are due, and running ones whose lease has run
-- out, unless they were cancelled or their queue is paused.
unfoldable pub is_claimable : ℕ → List String → Job → Bool
is_claimable t paused j =
    not j.cancelled
    && leb j.not_before t
    && (j.status == "QUEUED"
        || j.status == "WAITING_RETRY"
        || j.status == "RUNNING" && ltb j.lease_until t)
    && not (mem j.task_type paused)

-- The filters of a caller that wants one task, or one resource class.
abbrev pub matches : Option String → (Job → String) → Job → Bool
matches none f j = true
matches (some k) f j = f j == k

-- `order_by(priority desc, created_at)`
abbrev pub precedes : Job → Job → Bool
precedes a b =
    ltb b.priority a.priority || eqb a.priority b.priority && leb a.created_at b.created_at

-- The first row in that order of those that meet `p`; between equals the older row goes first.
unfoldable pub first_by : (Job → Bool) → List Job → Option Job
first_by p [] = none
first_by p (j ∷ l) =
    let best = first_by p l in
    if p j
    then elim best [ none ↦ some j | some b ↦ if precedes b j then some b else some j ]
    else best

unfoldable pub update_job : String → (Job → Job) → Db → Db
update_job id f db = record db { jobs = update_where (λ (j : Job). j.task_id == id) f db.jobs }

-- A step of the task's state machine: the task as it stands after it, and the event's identifier.
unfoldable pub transition : Job → Object × String → String → String → Tx (Object × String)
transition job (task, cause) status event_type = do
  (new, ev) ←
      change task.id task.version (by_worker (some job.trace_id) (some cause)) event_type
        (field "status" (str status) end)
  pure (new, ev.event_id)

-- A task that is out of attempts goes to DEAD_LETTER, by the transitions that its machine has.
unfoldable pub bury : Job → Object × String → Tx (Option Job)
bury job (task, cause) = do
  at ←
      if task.status == "QUEUED"
      then (do
        a ← transition job (task, cause) "CLAIMED" "TASK_CLAIMED"
        b ← transition job a "RUNNING" "TASK_STARTED"
        transition job b "WAITING_RETRY" "TASK_RETRY_SCHEDULED")
      else pure (task, cause)
  (dead, _) ← transition job at "DEAD_LETTER" "TASK_DEAD_LETTERED"
  modify (update_job dead.id (λ (j : Job). record j { status = "DEAD_LETTER" }))
  pure none

-- The lease that a claim hands out.
abbrev pub leased : Job → ℕ → String → String → String → Job
leased job until token worker cause = record job {
  status = "RUNNING";
  attempt = job.attempt + 1;
  lease_until = until;
  lease_token = some token;
  worker_id = some worker;
  causation_event_id = cause;
}

-- `self.s.event(c, 'WORKER_HEARTBEAT', self.s.get(c, self.id), ...)`
unfoldable pub announce : String → Source → Fields → Tx Event
announce worker source payload = do
  self ← get worker
  event "WORKER_HEARTBEAT" (some self) source payload

-- The worker's own object, made when it is not there yet. (The process identifier that its metadata
-- holds is left out.)
unfoldable pub enroll : String → Job → Tx (Unit {0})
enroll worker job = do
  known ← gets (λ db. find object_key worker db.objects)
  if_found known (λ _. pure tt)
      (do
        create "Worker" (append "worker-" (prefix 8 worker)) (dict end)
            (by_worker (some job.trace_id) none) none (some worker)
        pure tt)

-- The update of `swarm_jobs` that hands the lease out, and the row as it stands then.
unfoldable pub hand_out : String → Fields → Job → String → String → Tx (Option Job)
hand_out worker cfg job id cause = do
  now ← ask (λ w. w.clock)
  seconds ← lift (milliseconds "lease_seconds" cfg)
  token ← uid
  modify (update_job id (λ _. leased job (now + seconds) token worker cause))
  pure (some (leased job (now + seconds) token worker cause))

-- `if task['status'] == 'WAITING_RETRY'`: back to QUEUED first.
unfoldable pub requeue : Job → Object × String → Tx (Object × String)
requeue job (task, cause) =
    if task.status == "WAITING_RETRY"
    then transition job (task, cause) "QUEUED" "TASK_CREATED"
    else pure (task, cause)

unfoldable pub take_lease : String → Fields → Job → Object × String → Tx (Option Job)
take_lease worker cfg job (task, cause) = do
  at ← requeue job (task, cause)
  claimed ← transition job at "CLAIMED" "TASK_CLAIMED"
  running ← transition job claimed "RUNNING" "TASK_STARTED"
  enroll worker job
  link running.0.id worker "EXECUTED_BY" (some job.trace_id) (some running.1)
  announce worker (by_worker (some job.trace_id) (some running.1))
      (field "task_id" (str running.0.id) end)
  hand_out worker cfg job running.0.id running.1

-- `if job['status'] == 'RUNNING'`: its lease has run out, and the task waits for another try first.
unfoldable pub recover : Job → Object → Tx (Object × String)
recover job task =
    if job.status == "RUNNING"
    then transition job (task, job.causation_event_id) "WAITING_RETRY" "TASK_RETRY_SCHEDULED"
    else pure (task, job.causation_event_id)

unfoldable pub claim_job : String → Fields → Job → Tx (Option Job)
claim_job worker cfg job = do
  task ← get job.task_id
  at ← recover job task
  if leb job.max_attempts job.attempt then bury job at else take_lease worker cfg job at

-- The row that `claim` selects.
abbrev pub chosen_job : ℕ → List String → Option String → Option String → List Job → Option Job
chosen_job now paused task_id resource = first_by (λ j.
    is_claimable now paused j
    && matches task_id job_task j
    && matches resource (λ j. j.resource_class) j)

unfoldable pub claim : String → Option String → Option String → Tx (Option Job)
claim worker task_id resource = do
  cfg ← settings
  now ← ask (λ w. w.clock)
  paused ← lift (item "paused_queues" cfg)
  queues ← lift (iterate paused)
  found ← gets (λ db. chosen_job now (texts queues) task_id resource db.jobs)
  if_found found (claim_job worker cfg) (pure none)
