-- ===== src/Swarm/Commands/Actions.antt =====
-- The commands of `Service.execute` (backend/app/swarm/application/service.py) on the configuration and
-- on an object that is there.
use da_swarm.Base.{
  String, Bool, true, false, not, none, some, List, [], ◌∷◌, reverse, ◌==◌, if◌then◌else◌, take,
  all,
}
use da_swarm.Swarm.Errors.{
  ok, require, value_error, type_error, index_error, Result, err, ◌>>=◌, ◌>>◌,
}
use da_swarm.Swarm.Json.{
  Value, arr, Fields, end, field, get_field, set_field, update_fields, field_names,
}
use da_swarm.Swarm.Contracts.{mem}
use da_swarm.Swarm.Database.{Event, Tx, gets}
use da_swarm.Swarm.Commands.Discovery.{as_text}
use da_swarm.Swarm.Objects.{text_column}
use da_swarm.Swarm.Configuration.{
  default_config, item, iterate, is_queue, validate_config, texts, sorted_set, discard, to_items,
}

-- `Service.timeline`: the events of an object, oldest first, the first 2000 of them.
unfoldable pub events_of : String → List Event → List Event
events_of id [] = []
events_of id (e ∷ l) =
    let rest = events_of id l in
    elim e.snapshot [ none ↦ rest | some o ↦ if o.id == id then e ∷ rest else rest ]

unfoldable pub timeline : String → Tx (List Event)
timeline id = gets (λ db. take 2000 (reverse (events_of id db.events)))

-- `original[0]['trace_id']` and `original[-1]['event_id']`
unfoldable pub first_trace : List Event → Result String
first_trace [] = err index_error
first_trace (e ∷ l) = ok e.trace_id

unfoldable pub last_event : List Event → Result String
last_event [] = err index_error
last_event (e ∷ []) = ok e.event_id
last_event (e ∷ f ∷ l) = last_event (f ∷ l)

-- `data['paused_queues']` with a queue added or taken out.
unfoldable pub with_pause : Bool → Value → Fields → Result Fields
with_pause pausing q data' = do
  require (is_queue q) value_error
  name ← as_text q
  old ← item "paused_queues" data'
  queues ← iterate old
  let paused = sorted_set (texts queues)
  ok (
      set_field "paused_queues"
        (arr (to_items (if pausing then sorted_set (name ∷ paused) else discard name paused)))
        data')

-- `data.update(p)`, once its keys are known, and the check of the whole.
unfoldable pub with_settings : Fields → Fields → Result Fields
with_settings p data' = do
  require (all (λ k. mem k (field_names default_config)) (field_names p)) value_error
  validate_config (update_fields data' p)
  ok (update_fields data' p)

pub data Setting : Type 0 where
  pause resume configure : Setting

unfoldable pub new_settings : Setting → Fields → Fields → Result Fields
new_settings pause p data' = item "queue" p >>= λ q. with_pause true q data'
new_settings resume p data' = item "queue" p >>= λ q. with_pause false q data'
new_settings configure p data' = with_settings p data'

abbrev pub setting_event : Setting → String
setting_event pause = "QUEUE_PAUSED"
setting_event resume = "QUEUE_RESUMED"
setting_event configure = "CONFIGURATION_UPDATED"

-- The patch and the event type of the command `update`, whose payload is handed to `change` as keyword
-- arguments: a name that the call already gives is a `TypeError`. (A null `event_type`, which the column
-- would take, counts as an error here.)
unfoldable pub remove_field : String → Fields → Fields
remove_field k end = end
remove_field k (field j v d) =
    let rest = remove_field k d in if j == k then rest else field j v rest

abbrev given_arguments : List String
given_arguments = "self" ∷ "c" ∷ "id" ∷ "version" ∷ "trace" ∷ "cause" ∷ "actor" ∷ "actor_id" ∷ []

unfoldable pub update_arguments : Fields → Result (String × Fields)
update_arguments p = do
  require (all (λ k. not (mem k given_arguments)) (field_names p)) type_error
  event_type ← elim (get_field "event_type" p) [
    | none ↦ ok "OBJECT_UPDATED"
    | some v ↦ text_column v
  ]
  ok (event_type, remove_field "event_type" p)
