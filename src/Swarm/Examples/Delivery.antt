-- ===== src/Swarm/Examples/Delivery.antt =====
-- The theorems on the dispatcher at a transport that refuses one entry.
use da_swarm.Base.{
  ◌⊎◌, inl, All, map, take, ◌==◌, eq_refl, if◌then◌else◌, String, true, false, Option, none, some,
  ◌∷◌, ◌≡◌, ◌≢◌, refl, arith,
}
use da_swarm.Swarm.Errors.{Error, timeout_error}
use da_swarm.Swarm.Database.{Entry}
use da_swarm.Swarm.Dispatcher.Delivery.{content, once-AtLeastOnce, once-settles, once-content}
use da_swarm.Base.Table.{find_by, update_where, count_where, find}
use da_swarm.Base.Text.{strip, prefix}
use da_swarm.Swarm.Commands.{start_trace, perform, remember, execute}
use da_swarm.Swarm.Commands.Discovery.{
  to_text, to_int, titled, is_pending, discovery_source, start_discovery,
}
use da_swarm.Swarm.Configuration.{item, iterate, texts}
use da_swarm.Swarm.Contracts.{
  mem, assoc, targets_of, validate_transition, is_forbidden, holds_secret, validate_metadata,
}
use da_swarm.Swarm.Database.{◌>>◌, pure, lift, gets, ask, modify, uid, if_found}
use da_swarm.Swarm.Dispatcher.{
  is_undelivered, select, insert_entry, by_age, mark, deliver, once, is_due, announce_all,
  requeue_due,
}
use da_swarm.Swarm.Json.{update_fields, field_names, get_or, millionths}
use da_swarm.Swarm.Objects.{
  object_value, with_snapshot, record_event, text_column, patched, check_status, checked_update,
  nat_setting, new_object, job_key,
}
use da_swarm.Swarm.Service.{
  get, enqueue_outbox, trace_or_uid, event, insert_object, create, write_object, change, new_edge,
  link, settings, insert_job, new_job, schedule,
}
use da_swarm.Swarm.Worker.{
  milliseconds, same_token, is_claimable, first_by, update_job, transition, announce, enroll,
  hand_out, requeue, take_lease, recover, claim_job, claim,
}
use da_swarm.Swarm.Examples.{at_time, after, one_discovery}

-- A transport that refuses one entry.
abbrev refuses : String → Entry → Option Error
refuses id e = if e.id == id then some timeout_error else none

abbrev third_id : String
third_id = elim one_discovery.outbox [ _ ∷ e ∷ _ ↦ e.id | _ ↦ "" ]

taken_ids : (e : Entry) → refuses third_id e ≡ none → e.id ≢ third_id
taken_ids e h = ground (arith, eq_refl third_id)

once-AtLeastOnce_example :
    All
      (λ f. (is_undelivered f ≡ true) ⊎ (f.id ≢ third_id))
      (after (once (refuses third_id)) (at_time 9000) one_discovery).outbox
unfolding find_by update_where count_where find strip prefix start_trace perform remember execute
    to_text to_int titled is_pending discovery_source start_discovery item iterate texts mem assoc
    targets_of validate_transition is_forbidden holds_secret validate_metadata ◌>>◌ pure lift gets
    ask modify uid if_found is_undelivered select insert_entry by_age mark deliver once is_due
    announce_all requeue_due update_fields field_names get_or millionths object_value with_snapshot
    record_event text_column patched check_status checked_update nat_setting new_object job_key get
    enqueue_outbox trace_or_uid event insert_object create write_object change new_edge link
    settings insert_job new_job schedule milliseconds same_token is_claimable first_by update_job
    transition announce enroll hand_out requeue take_lease recover claim_job claim
once-AtLeastOnce_example =
    once-AtLeastOnce (refuses third_id) (λ id. id ≢ third_id) (at_time 9000) one_discovery 4
      (after (once (refuses third_id)) (at_time 9000) one_discovery) taken_ids
      (inl refl, (inl refl, (inl refl, (inl refl, tt)))) refl

once-settles_example :
    All
      (λ (e : Entry).
        All
          (λ f. f.id ≡ e.id → is_undelivered f ≡ false)
          (after (once (λ _. none)) (at_time 9000) one_discovery).outbox)
      (take 100 (by_age (select is_undelivered one_discovery.outbox)))
unfolding find_by update_where count_where find strip prefix start_trace perform remember execute
    to_text to_int titled is_pending discovery_source start_discovery item iterate texts mem assoc
    targets_of validate_transition is_forbidden holds_secret validate_metadata ◌>>◌ pure lift gets
    ask modify uid if_found is_undelivered select insert_entry by_age mark deliver once is_due
    announce_all requeue_due update_fields field_names get_or millionths object_value with_snapshot
    record_event text_column patched check_status checked_update nat_setting new_object job_key get
    enqueue_outbox trace_or_uid event insert_object create write_object change new_edge link
    settings insert_job new_job schedule milliseconds same_token is_claimable first_by update_job
    transition announce enroll hand_out requeue take_lease recover claim_job claim
once-settles_example =
    once-settles (λ _. none) (at_time 9000) one_discovery 4
      (after (once (λ _. none)) (at_time 9000) one_discovery) (λ e. refl) refl

once-content_example :
    map content (after (once (refuses third_id)) (at_time 9000) one_discovery).outbox
    ≡ map content one_discovery.outbox
unfolding find_by update_where count_where find strip prefix start_trace perform remember execute
    to_text to_int titled is_pending discovery_source start_discovery item iterate texts mem assoc
    targets_of validate_transition is_forbidden holds_secret validate_metadata ◌>>◌ pure lift gets
    ask modify uid if_found is_undelivered select insert_entry by_age mark deliver once is_due
    announce_all requeue_due update_fields field_names get_or millionths object_value with_snapshot
    record_event text_column patched check_status checked_update nat_setting new_object job_key get
    enqueue_outbox trace_or_uid event insert_object create write_object change new_edge link
    settings insert_job new_job schedule milliseconds same_token is_claimable first_by update_job
    transition announce enroll hand_out requeue take_lease recover claim_job claim
once-content_example =
    once-content (refuses third_id) (at_time 9000) one_discovery 4
      (after (once (refuses third_id)) (at_time 9000) one_discovery) refl
