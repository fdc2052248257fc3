-- ===== src/Swarm/Commands.antt =====
-- `Service.execute` (backend/app/swarm/application/service.py): the operator's commands, each in one
-- transaction with its idempotency record.
pub mod Discovery
pub mod Actions
pub mod Replay
use da_swarm.Base.{
  ℕ, zero, suc, ◌+◌, ◌-◌, ◌*◌, ◌/◌, ◌%◌, ◌^◌, ◌≤◌, ◌<◌, min, max, String, ◌≡◌, refl, sym, ap, ◌∙◌,
  ◌≢◌, ◌↔◌, ◌⊎◌, inl, inr, Bool, true, false, not, ◌&&◌, ◌||◌, Option, none, some, List, [], ◌∷◌,
  ◌++◌, map, reverse, arith, ◌==◌, eq_iff, eq_refl, ltb, leb, eqb, if◌then◌else◌, ltb→lt, lt→ltb,
  leb→le, eqb_iff, tests, Bool-cases, Option-cases, length, take, drop, any, all, All, All-append,
  length-append, length-map, length-take, take-append-drop,
}
use da_swarm.Base.Int.{ℤ, pos, negsuc, pos_part, neg_part, ◌≤ℤ◌, leb_ℤ, clamp}
use da_swarm.Base.Table.{update_where, find, find_by}
use da_swarm.Base.Text.{codes, same, lower, strip, prefix}
use da_swarm.Swarm.Errors.{
  Error, conflict, not_found, forbidden, value_error, key_error, type_error, index_error,
  integrity_error, timeout_error, Result, ok, err, require, Result-cases,
}
use da_swarm.Swarm.Json.{
  Value, null, boolean, int, real, str, arr, dict, Items, nil, cons, Fields, end, field, nat,
  get_field, set_field, update_fields, field_names, truthy, get_or, millionths, items,
}
use da_swarm.Swarm.Contracts.{
  mem, assoc, targets_of, validate_transition, Environ, is_forbidden, holds_secret, walk,
  walk_items, walk_fields, validate_metadata, states, relations, resources, object_types,
  upper_kinds, Machine, Relation,
}
use da_swarm.Swarm.Database.{
  modify, Object, Edge, Event, Body, event_body, task_body, Entry, Idem, Job, Projection, Config,
  Db, World, Tx, ◌>>=◌, ◌>>◌, pure, raise, lift, gets, ask, uid, if_found,
}
use da_swarm.Swarm.Objects.{
  object_key, projection_key, job_task, job_idempotency, Source, by_worker, by_human, object_value,
  project, with_snapshot, record_event, text_column, patched, check_status, patch_columns,
  checked_update, nat_setting, new_object, created_event, job_key, joins,
}
use da_swarm.Swarm.Service.{
  event, change, get, enqueue_outbox, trace_or_uid, insert_object, create, write_object, new_edge,
  link, settings, insert_job, new_job, schedule,
}
use da_swarm.Swarm.Configuration.{
  default_config, item, number, in_range, sum_weights, weight_names, same_names, valid_weights,
  positive, characters, iterate, is_queue, are_placeholders, valid_providers, validate_config,
  texts, insert_sorted, sorted_set, discard, to_items,
}
use da_swarm.Swarm.Commands.Discovery.{
  Command, option_value, command_value, to_text, to_int, as_text, as_fields, is_simulation, titled,
  pending_statuses, is_pending, result_of, discovery_source, start_discovery, get_default, discover,
  create_object,
}
use da_swarm.Swarm.Commands.Actions.{
  events_of, timeline, first_trace, last_event, with_pause, with_settings, Setting, pause, resume,
  configure, new_settings, setting_event, remove_field, update_arguments,
}

-- `pause_queue`, `resume_queue` and `configure`, under the configuration's version.
unfoldable pub configure_with : Setting → Option ℕ → Fields → String → String → Tx Value
configure_with setting expected p trace actor = do
  row ← gets (λ db. db.config)
  config ← lift (elim row [ none ↦ err type_error | some c ↦ ok c ])
  lift (require (elim expected [ none ↦ false | some v ↦ eqb v config.version ]) conflict)
  new ← lift (new_settings setting p config.settings)
  modify
      (λ db. record db { config = some (record { version = config.version + 1; settings = new }) })
  event (setting_event setting) none (by_human actor (some trace) none)
      (field "configuration" (dict new) end)
  pure (dict (field "version" (nat (config.version + 1)) (field "data" (dict new) end)))

-- A change of status, and its event.
abbrev set_status : Object → String → String → String → String → String → Tx (Object × Event)
set_status obj event_type status actor trace cause =
    change obj.id obj.version (by_human actor (some trace) (some cause)) event_type
      (field "status" (str status) end)

-- `raise` unless the object is of the kind, and in one of the statuses.
abbrev is_ready : String → List String → Object → Bool
is_ready kind statuses o = o.object_type == kind && mem o.status statuses

unfoldable pub cancel_jobs : String → Db → Db
cancel_jobs id db = record db {
  jobs =
      update_where (λ (j : Job). j.task_id == id)
        (λ (j : Job). record j { cancelled = true; status = "CANCELLED" }) db.jobs;
}

-- The commands on one object, by their names.
pub data Action : Type 0 where
  update pause_account resume_account approve reject synthesize publish cancel_task annotate :
      Action

unfoldable pub act : Action → Object → Fields → String → String → String → Tx Object
act update obj p actor trace cause = do
  (event_type, patch) ← lift (update_arguments p)
  (new, _) ← change obj.id obj.version (by_human actor (some trace) (some cause)) event_type patch
  pure new
act pause_account obj p actor trace cause = do
  lift (require (obj.object_type == "Account") value_error)
  (new, _) ← set_status obj "ACCOUNT_PAUSED" "PAUSED" actor trace cause
  pure new
act resume_account obj p actor trace cause = do
  lift (require (obj.object_type == "Account") value_error)
  (new, _) ← set_status obj "ACCOUNT_RESUMED" "ACTIVE" actor trace cause
  pure new
act approve obj p actor trace cause = do
  lift (require (obj.object_type == "Composition") value_error)
  (new, _) ← set_status obj "COMPOSITION_APPROVED" "APPROVED" actor trace cause
  pure new
act reject obj p actor trace cause = do
  lift (require (obj.object_type == "Composition") value_error)
  (new, _) ← set_status obj "COMPOSITION_REJECTED" "REJECTED" actor trace cause
  pure new
act synthesize obj p actor trace cause = do
  lift (require (is_ready "Candidate" ("ROUTED" ∷ "REVIEW_PENDING" ∷ "HELD" ∷ []) obj) conflict)
  (new, ev) ← set_status obj "COMPOSITION_REQUESTED" "SYNTHESIS_QUEUED" actor trace cause
  schedule "COMPOSE" new trace (some ev.event_id) p 0
  pure new
act publish obj p actor trace cause = do
  env ← ask (λ w. w.environ)
  lift (require (is_simulation env) forbidden)
  lift (require (is_ready "Composition" ("APPROVED" ∷ []) obj) conflict)
  (new, ev) ← set_status obj "PUBLISH_REQUESTED" "PUBLISH_QUEUED" actor trace cause
  schedule "PUBLISH" new trace (some ev.event_id) p 0
  pure new
act cancel_task obj p actor trace cause = do
  lift (require (obj.object_type == "Task") value_error)
  (new, _) ← set_status obj "TASK_CANCELLED" "CANCELLED" actor trace cause
  modify (cancel_jobs obj.id)
  pure new
act annotate obj p actor trace cause = do
  given ← lift (item "body" p)
  body ← lift (as_text given)
  (annotation, _) ←
      create "Annotation" (prefix 120 body)
        (dict (field "target_id" (str obj.id) (field "body" given end)))
        (by_worker (some trace) (some cause)) (some "OBJECT_ANNOTATED") none
  pure annotation

abbrev actions : List (String × Action)
actions =
    ("update", update)
    ∷ ("pause_account", pause_account)
    ∷ ("resume_account", resume_account)
    ∷ ("approve", approve)
    ∷ ("reject", reject)
    ∷ ("synthesize", synthesize)
    ∷ ("publish", publish)
    ∷ ("cancel_task", cancel_task)
    ∷ ("annotate", annotate)
    ∷ []

-- The commands on one object: it must be there at the version that the operator saw. Returns the result
-- and the trace that the command belongs to.
unfoldable pub on_object : Command → String → Tx (Value × String)
on_object cmd actor = do
  obj ← if_found cmd.object_id get (raise not_found)
  lift (require (elim cmd.expected_version [ none ↦ false | some v ↦ eqb v obj.version ]) conflict)
  original ← timeline obj.id
  trace ← lift (first_trace original)
  cause ← lift (last_event original)
  action ← lift (elim (assoc cmd.action actions) [ none ↦ err value_error | some a ↦ ok a ])
  new ← act action obj cmd.payload actor trace cause
  pure (result_of new trace, trace)

pub data Request : Type 0 where
  start discovery creation : Request
  setting : Setting → Request

abbrev requests : List (String × Request)
requests =
    ("start_discovery", start)
    ∷ ("discover", discovery)
    ∷ ("create", creation)
    ∷ ("pause_queue", setting pause)
    ∷ ("resume_queue", setting resume)
    ∷ ("configure", setting configure)
    ∷ []

-- The commands that start a trace of their own.
unfoldable pub start_trace : Request → Command → String → String → Tx (Value × String)
start_trace start cmd trace actor = do
  result ← start_discovery cmd.payload trace actor
  pure (result, trace)
start_trace discovery cmd trace actor = do result ← discover cmd.payload trace; pure (result, trace)
start_trace creation cmd trace actor = do
  result ← create_object cmd.payload trace
  pure (result, trace)
start_trace (setting s) cmd trace actor = do
  result ← configure_with s cmd.expected_version cmd.payload trace actor
  pure (result, trace)

unfoldable pub perform : Command → String → Tx (Value × String)
perform cmd actor = do
  trace ← uid
  if_found (assoc cmd.action requests) (λ r. start_trace r cmd trace actor) (on_object cmd actor)

abbrev pub idem_key : Idem → String
idem_key r = r.key

-- The command's last writes: the event of its execution, and its idempotency record.
unfoldable pub remember : Command → String → String → Value × String → Tx Value
remember cmd actor fingerprint (result, trace) = do
  event "COMMAND_EXECUTED" none (by_human actor (some trace) none)
      (field "action" (str cmd.action) (field "object_id" (option_value cmd.object_id) end))
  now ← ask (λ w. w.clock)
  modify (λ db. record db {
    idem =
        record {
          key = cmd.idempotency_key;
          operation = cmd.action;
          fingerprint = fingerprint;
          result = result;
          created_at = now;
        }
        ∷ db.idem;
  })
  pure result

-- The answer to a key that was used: the recorded result, if the command is the same.
unfoldable pub replayed : String → Idem → Tx Value
replayed fingerprint old =
    lift (require (old.fingerprint == fingerprint) conflict) >> pure old.result

unfoldable pub execute : Command → String → Tx Value
execute cmd actor = do
  lift (require (cmd.mode == "LIVE") forbidden)
  env ← ask (λ w. w.environ)
  lift (validate_metadata env (dict cmd.payload))
  fingerprint ← ask (λ w. w.digest (command_value cmd))
  old ← gets (λ db. find idem_key cmd.idempotency_key db.idem)
  if_found old (replayed fingerprint)
      (do result ← perform cmd actor; remember cmd actor fingerprint result)
