-- ===== src/Swarm/Examples/Changes.antt =====
-- The theorems on changes of objects at the task of a discovery.
use da_swarm.Base.{◌⊎◌, String, none, some, [], ◌∷◌, ◌≡◌, refl}
use da_swarm.Swarm.Errors.{err, conflict}
use da_swarm.Swarm.Json.{Value, null, str, arr, dict, nil, cons, end, field}
use da_swarm.Swarm.Database.{Object, Event, Db, Tx}
use da_swarm.Swarm.Service.Versions.{change-change}
use da_swarm.Swarm.Service.Statuses.{Moves, change-Moves, change-terminal}
use da_swarm.Swarm.Contracts.{Machine, states}
use da_swarm.Swarm.Contracts.Secrets.{AreClean, keys_in, texts_in, validate_metadata-AreClean}
use da_swarm.Swarm.Objects.{by_worker, object_key}
use da_swarm.Base.Table.{find_by, update_where, count_where, find}
use da_swarm.Base.Text.{strip, prefix}
use da_swarm.Swarm.Commands.{start_trace, perform, remember, execute}
use da_swarm.Swarm.Commands.Discovery.{
  to_text, to_int, titled, is_pending, discovery_source, start_discovery,
}
use da_swarm.Swarm.Configuration.{item, iterate, texts}
use da_swarm.Swarm.Contracts.{
  mem, assoc, targets_of, validate_transition, is_forbidden, holds_secret, validate_metadata,
}
use da_swarm.Swarm.Database.{◌>>◌, pure, lift, gets, ask, modify, uid, if_found}
use da_swarm.Swarm.Json.{update_fields, field_names, get_or, millionths}
use da_swarm.Swarm.Objects.{
  object_value, with_snapshot, record_event, text_column, patched, check_status, checked_update,
  nat_setting, new_object, job_key,
}
use da_swarm.Swarm.Service.{
  get, enqueue_outbox, trace_or_uid, event, insert_object, create, write_object, change, new_edge,
  link, settings, insert_job, new_job, schedule,
}
use da_swarm.Swarm.Worker.{
  milliseconds, same_token, is_claimable, first_by, update_job, transition, announce, enroll,
  hand_out, requeue, take_lease, recover, claim_job, claim,
}
use da_swarm.Swarm.Examples.{at_time, after, answer, one_discovery}

-- The task of the first discovery, and its cancelling.
abbrev task_id : String
task_id = elim one_discovery.jobs [ j ∷ _ ↦ j.task_id | [] ↦ "" ]

abbrev cancelling : Tx (Object × Event)
cancelling =
    change task_id 1 (by_worker none none) "TASK_CANCELLED" (field "status" (str "CANCELLED") end)

abbrev nothing : Object × Event
nothing = (
  record {
    id = "";
    object_type = "";
    version = 0;
    title = "";
    status = "";
    tags = null;
    metadata = null;
    created_at = 0;
    updated_at = 0;
  },
  record {
    sequence = 0;
    event_id = "";
    event_type = "";
    snapshot = none;
    actor_type = "";
    actor_id = none;
    timestamp = 0;
    trace_id = "";
    causation_id = none;
    payload = end;
  },
)

abbrev cancelled_task : Object × Event
cancelled_task = answer nothing cancelling (at_time 6000) one_discovery

abbrev cancelled_db : Db
cancelled_db = after cancelling (at_time 6000) one_discovery

change-change_example :
    change task_id 1
      (by_worker none none)
      "TASK_CLAIMED"
      (field "status" (str "CLAIMED") end)
      (at_time 7000)
      cancelled_db
    ≡ err conflict
unfolding find_by update_where count_where find strip prefix start_trace perform remember execute
    to_text to_int titled is_pending discovery_source start_discovery item iterate texts mem assoc
    targets_of validate_transition is_forbidden holds_secret validate_metadata ◌>>◌ pure lift gets
    ask modify uid if_found update_fields field_names get_or millionths object_value with_snapshot
    record_event text_column patched check_status checked_update nat_setting new_object job_key get
    enqueue_outbox trace_or_uid event insert_object create write_object change new_edge link
    settings insert_job new_job schedule milliseconds same_token is_claimable first_by update_job
    transition announce enroll hand_out requeue take_lease recover claim_job claim
change-change_example =
    change-change task_id 1 (by_worker none none) (by_worker none none) "TASK_CANCELLED"
      "TASK_CLAIMED" (field "status" (str "CANCELLED") end) (field "status" (str "CLAIMED") end)
      (at_time 6000) (at_time 7000) one_discovery cancelled_task.0 cancelled_task.1 cancelled_db
      refl

abbrev task_machine : Machine
task_machine = elim (assoc "Task" states) [
  | some m ↦ m
  | none ↦ record { initial = ""; transitions = []; terminal = [] }
]

change-Moves_example :
    (old : Object) × (find object_key task_id one_discovery.objects ≡ some old)
    × Moves task_machine old.status cancelled_task.0.status
unfolding find_by update_where count_where find strip prefix start_trace perform remember execute
    to_text to_int titled is_pending discovery_source start_discovery item iterate texts mem assoc
    targets_of validate_transition is_forbidden holds_secret validate_metadata ◌>>◌ pure lift gets
    ask modify uid if_found update_fields field_names get_or millionths object_value with_snapshot
    record_event text_column patched check_status checked_update nat_setting new_object job_key get
    enqueue_outbox trace_or_uid event insert_object create write_object change new_edge link
    settings insert_job new_job schedule milliseconds same_token is_claimable first_by update_job
    transition announce enroll hand_out requeue take_lease recover claim_job claim
change-Moves_example =
    change-Moves task_id 1 (by_worker none none) "TASK_CANCELLED"
      (field "status" (str "CANCELLED") end) (at_time 6000) one_discovery cancelled_task.0
      cancelled_task.1 cancelled_db task_machine refl refl

abbrev retitling : Tx (Object × Event)
retitling = change task_id 2 (by_worker none none) "OBJECT_UPDATED" (field "title" (str "owls") end)

abbrev retitled : Object × Event
retitled = answer nothing retitling (at_time 8000) cancelled_db

change-terminal_example : (retitled.0.status ≡ cancelled_task.0.status) ⊎ (retitled.0.status ≡ "")
unfolding find_by update_where count_where find strip prefix start_trace perform remember execute
    to_text to_int titled is_pending discovery_source start_discovery item iterate texts mem assoc
    targets_of validate_transition is_forbidden holds_secret validate_metadata ◌>>◌ pure lift gets
    ask modify uid if_found update_fields field_names get_or millionths object_value with_snapshot
    record_event text_column patched check_status checked_update nat_setting new_object job_key get
    enqueue_outbox trace_or_uid event insert_object create write_object change new_edge link
    settings insert_job new_job schedule milliseconds same_token is_claimable first_by update_job
    transition announce enroll hand_out requeue take_lease recover claim_job claim
change-terminal_example =
    change-terminal task_id 2 (by_worker none none) "OBJECT_UPDATED"
      (field "title" (str "owls") end) (at_time 8000) cancelled_db cancelled_task.0 retitled.0
      retitled.1 (after retitling (at_time 8000) cancelled_db) task_machine refl refl refl refl

abbrev metadata : Value
metadata = dict (field "topic" (str "nature") (field "tags" (arr (cons (str "owl") nil)) end))

validate_metadata-AreClean_example :
    (metadata ≡ metadata)
    × AreClean (("DB_PASSWORD", "hunter22") ∷ []) (keys_in metadata) (texts_in metadata)
unfolding find_by update_where count_where find strip prefix start_trace perform remember execute
    to_text to_int titled is_pending discovery_source start_discovery item iterate texts mem assoc
    targets_of validate_transition is_forbidden holds_secret validate_metadata ◌>>◌ pure lift gets
    ask modify uid if_found update_fields field_names get_or millionths object_value with_snapshot
    record_event text_column patched check_status checked_update nat_setting new_object job_key get
    enqueue_outbox trace_or_uid event insert_object create write_object change new_edge link
    settings insert_job new_job schedule milliseconds same_token is_claimable first_by update_job
    transition announce enroll hand_out requeue take_lease recover claim_job claim
validate_metadata-AreClean_example =
    validate_metadata-AreClean (("DB_PASSWORD", "hunter22") ∷ []) metadata metadata refl
