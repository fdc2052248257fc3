-- ===== src/Swarm/Service.antt =====
-- The writes of `Service` (backend/app/swarm/application/service.py): every change of an object, an
-- edge or a job comes with its event, the event's projection and its outbox entry.
pub mod Events
pub mod Statuses
pub mod Versions
pub mod Writes
use da_swarm.Base.{
  ℕ, ◌+◌, String, false, ◌&&◌, Option, none, some, ◌∷◌, ◌==◌, eqb, leb, all, if◌then◌else◌,
}
use da_swarm.Base.Table.{find, find_by, update_where, count_where}
use da_swarm.Swarm.Errors.{
  ok, err, conflict, not_found, require, value_error, key_error, type_error, integrity_error,
}
use da_swarm.Swarm.Json.{Value, str, arr, dict, nil, Fields, end, field, field_names, truthy}
use da_swarm.Swarm.Contracts.{
  states, relations, resources, object_types, mem, assoc, validate_metadata,
}
use da_swarm.Swarm.Objects.{
  Source, by_worker, object_key, job_task, job_idempotency, with_snapshot, record_event,
  checked_update, new_object, nat_setting, created_event, job_key, joins,
}
use da_swarm.Swarm.Database.{
  Object, Edge, Event, Job, Body, event_body, task_body, Tx, ◌>>=◌, ◌>>◌, pure, lift, gets, ask,
  modify, if_found, uid,
}

-- `Service.get`
unfoldable pub get : String → Tx Object
get id = do
  found ← gets (λ db. find object_key id db.objects)
  lift (elim found [ none ↦ err not_found | some o ↦ ok o ])

unfoldable pub enqueue_outbox : String → String → Body → Tx (Unit {0})
enqueue_outbox topic key body = do
  id ← uid
  now ← ask (λ w. w.clock)
  modify (λ db. record db {
    outbox =
        record {
          id = id;
          topic = topic;
          message_key = key;
          payload = body;
          created_at = now;
          dispatched_at = none;
          attempts = 0;
          last_error = none;
        }
        ∷ db.outbox;
  })

-- `trace or uid()`
unfoldable pub trace_or_uid : Option String → Tx String
trace_or_uid none = uid
trace_or_uid (some t) = if t == "" then uid else pure t

-- `Service.event`
unfoldable pub event : String → Option Object → Source → Fields → Tx Event
event kind obj source payload = do
  trace ← trace_or_uid source.trace
  eid ← uid
  env ← ask (λ w. w.environ)
  lift (validate_metadata env (dict payload))
  lift (validate_metadata env (dict (with_snapshot payload obj)))
  now ← ask (λ w. w.clock)
  last ← gets (λ db. db.sequence)
  let ev : Event = record {
    sequence = last + 1;
    event_id = eid;
    event_type = kind;
    snapshot = obj;
    actor_type = source.actor;
    actor_id = source.actor_id;
    timestamp = now;
    trace_id = trace;
    causation_id = source.cause;
    payload = payload;
  }
  modify (record_event ev)
  enqueue_outbox "event" eid (event_body ev)
  pure ev

-- The insertion into `swarm_objects`, whose primary key is `id`.
unfoldable pub insert_object : Object → Tx (Unit {0})
insert_object o = do
  old ← gets (λ db. find object_key o.id db.objects)
  lift (elim old [ none ↦ ok tt | some _ ↦ err integrity_error ])
  modify (λ db. record db { objects = o ∷ db.objects })

-- `Service.create`; `status` is not passed by any caller.
unfoldable pub create :
    String → String → Value → Source → Option String → Option String → Tx (Object × Event)
create kind title metadata source event_type id = do
  fresh ← elim id [ none ↦ uid | some given ↦ pure given ]
  env ← ask (λ w. w.environ)
  now ← ask (λ w. w.clock)
  obj ← lift (new_object env now fresh kind title metadata)
  insert_object obj
  ev ← event (elim event_type [ none ↦ created_event kind | some t ↦ t ]) (some obj) source end
  pure (obj, ev)

-- The write that is guarded by the version once more: `rowcount` must be one.
unfoldable pub write_object : String → ℕ → Object → Tx (Unit {0})
write_object id version new = do
  n ← gets (λ db. count_where (λ (o : Object). o.id == id && eqb o.version version) db.objects)
  lift (if eqb n 1 then ok tt else err conflict)
  modify (λ db. record db {
    objects =
        update_where (λ (o : Object). o.id == id && eqb o.version version) (λ _. new) db.objects;
  })

-- `Service.change`
unfoldable pub change : String → ℕ → Source → String → Fields → Tx (Object × Event)
change id version source event_type patch = do
  obj ← get id
  env ← ask (λ w. w.environ)
  updated ← lift (checked_update env obj version patch)
  now ← ask (λ w. w.clock)
  let new : Object = record updated { version = version + 1; updated_at = now }
  write_object id version new
  ev ← event event_type (some new) source end
  pure (new, ev)

unfoldable pub new_edge : String → String → String → Option String → Option String → Tx Edge
new_edge source target kind trace cause = do
  id ← uid
  now ← ask (λ w. w.clock)
  let edge : Edge = record {
    id = id;
    from_object_id = source;
    to_object_id = target;
    edge_type = kind;
    created_at = now;
  }
  modify (λ db. record db { edges = edge ∷ db.edges })
  event "EDGE_CREATED" none (by_worker trace cause) (
      field "edge"
        (dict (
          field "id" (str id) (
            field "from_object_id" (str source)
              (field "to_object_id" (str target) (field "edge_type" (str kind) end)))))
        end)
  pure edge

-- `Service.link`: an edge that the ontology allows, made once.
unfoldable pub link : String → String → String → Option String → Option String → Tx Edge
link source target kind trace cause = do
  a ← get source
  b ← get target
  lift (elim (assoc kind relations) [
    | none ↦ err value_error
    | some r ↦ require (mem a.object_type r.sources && mem b.object_type r.targets) value_error
  ])
  old ← gets (λ db. find_by (joins source target kind) db.edges)
  if_found old pure (new_edge source target kind trace cause)

-- `Service.settings(c)['data']`
unfoldable pub settings : Tx Fields
settings = do
  row ← gets (λ db. db.config)
  lift (elim row [ none ↦ err type_error | some c ↦ ok c.settings ])

-- The insertion into `swarm_jobs`, with its primary key and its unique `idempotency_key`.
unfoldable pub insert_job : Job → Tx (Unit {0})
insert_job j = do
  old ← gets (λ db. find job_task j.task_id db.jobs)
  same ← gets (λ db. find job_idempotency j.idempotency_key db.jobs)
  lift (elim old [ none ↦ ok tt | some _ ↦ err integrity_error ])
  lift (elim same [ none ↦ ok tt | some _ ↦ err integrity_error ])
  modify (λ db. record db { jobs = j ∷ db.jobs })

-- The job of `schedule` that is not there yet.
unfoldable pub new_job : String → String → Object → String → Option String → Fields → ℕ → Tx String
new_job key kind obj trace cause payload due = do
  (task, ev) ←
      create "Task" kind
        (dict (
          field "task_type" (str kind) (
            field "object_ref"
              (dict (field "objectId" (str obj.id) (field "objectType" (str obj.object_type) end)))
              end)))
        (by_worker (some trace) cause) (some "TASK_CREATED") none
  cfg ← settings
  max_attempts ← lift (nat_setting "max_attempts" cfg)
  resource ← lift (elim (assoc kind resources) [ none ↦ err key_error | some r ↦ ok r ])
  now ← ask (λ w. w.clock)
  insert_job (record {
    task_id = task.id;
    task_type = kind;
    object_id = obj.id;
    object_type = obj.object_type;
    trace_id = trace;
    causation_event_id = ev.event_id;
    idempotency_key = key;
    priority = 0;
    attempt = 0;
    max_attempts = max_attempts;
    resource_class = resource;
    created_at = now;
    not_before = due;
    lease_until = 0;
    lease_token = none;
    worker_id = none;
    cancelled = false;
    status = "QUEUED";
    payload = payload;
  })
  if leb due now then enqueue_outbox "task" key (task_body task.id resource) else pure tt
  pure task.id

-- `Service.schedule`: one job for a trace, a task type and an object, whoever asks again.
unfoldable pub schedule : String → Object → String → Option String → Fields → ℕ → Tx String
schedule kind obj trace cause payload not_before = do
  old ← gets (λ db. find job_idempotency (job_key trace kind obj.id) db.jobs)
  if_found old (λ j. pure j.task_id)
      (new_job (job_key trace kind obj.id) kind obj trace cause payload not_before)
