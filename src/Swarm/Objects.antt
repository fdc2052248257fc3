-- ===== src/Swarm/Objects.antt =====
-- The parts of `Service` (backend/app/swarm/application/service.py) that touch no table: keys, patches
-- and their checks, the JSON of an object, and the row that an event leaves.
use Prim.Native.String.{◌++◌ as append}
use da_swarm.Base.{
  ℕ, ◌/◌, String, Bool, ◌&&◌, ◌||◌, Option, none, some, List, [], ◌∷◌, ◌==◌, eqb, all,
  if◌then◌else◌,
}
use da_swarm.Base.Int.{pos_part}
use da_swarm.Swarm.Errors.{
  Result, ok, err, conflict, key_error, type_error, integrity_error, ◌>>=◌, ◌>>◌, value_error,
  require,
}
use da_swarm.Swarm.Json.{
  Value, null, str, dict, arr, nil, Fields, end, field, nat, get_field, set_field, field_names,
  truthy, millionths,
}
use da_swarm.Swarm.Contracts.{
  Environ, states, object_types, upper_kinds, assoc, mem, validate_metadata, validate_transition,
}
use da_swarm.Swarm.Database.{Object, Edge, Event, Job, Projection, Db}

abbrev pub object_key : Object → String
object_key o = o.id

abbrev pub projection_key : Projection → String
projection_key p = p.object_id

abbrev pub job_task : Job → String
job_task j = j.task_id

abbrev pub job_idempotency : Job → String
job_idempotency j = j.idempotency_key

-- Who acts, and what the action follows from: the keyword arguments of `event`.
pub record Source : Type 0 where
  pub trace : Option String
  pub cause : Option String
  pub actor : String
  pub actor_id : Option String

abbrev pub by_worker : Option String → Option String → Source
by_worker trace cause = record { trace = trace; cause = cause; actor = "worker"; actor_id = none }

abbrev pub by_human : String → Option String → Option String → Source
by_human actor_id trace cause = record {
  trace = trace;
  cause = cause;
  actor = "human";
  actor_id = some actor_id;
}

-- An object as the JSON value that an event's payload holds.
unfoldable pub object_value : Object → Value
object_value o = dict (
    field "id" (str o.id) (
      field "object_type" (str o.object_type) (
        field "version" (nat o.version) (
          field "title" (str o.title) (
            field "status" (str o.status)
              (field "metadata" o.metadata (field "tags" o.tags end)))))))

-- The row of `swarm_projections` for an object: written anew, or inserted.
unfoldable pub project : Projection → List Projection → List Projection
project p [] = p ∷ []
project p (q ∷ l) = if q.object_id == p.object_id then p ∷ l else q ∷ project p l

-- `data['snapshot'] = obj`, for what is validated.
unfoldable pub with_snapshot : Fields → Option Object → Fields
with_snapshot d none = d
with_snapshot d (some o) = set_field "snapshot" (object_value o) d

-- The insertion into `swarm_events` (`sequence` is its serial number), and the projection.
unfoldable pub record_event : Event → Db → Db
record_event ev db = record db {
  events = ev ∷ db.events;
  sequence = ev.sequence;
  projections = elim ev.snapshot [
    | none ↦ db.projections
    | some o ↦
        project
          (record {
            object_id = o.id;
            object_type = o.object_type;
            last_sequence = ev.sequence;
            state = o;
          })
          db.projections
  ];
}

-- A text column takes a text: `null` breaks NOT NULL, and another value has the wrong type.
unfoldable pub text_column : Value → Result String
text_column (str s) = ok s
text_column null = err integrity_error
text_column _ = err type_error

-- `obj.update(patch)` for the four columns that a patch may name; an absent key keeps the column.
unfoldable pub patched : Object → Fields → Result Object
patched o patch = do
  status ← elim (get_field "status" patch) [ none ↦ ok o.status | some v ↦ text_column v ]
  title ← elim (get_field "title" patch) [ none ↦ ok o.title | some v ↦ text_column v ]
  ok (record o {
    status = status;
    title = title;
    metadata = elim (get_field "metadata" patch) [ none ↦ o.metadata | some v ↦ v ];
    tags = elim (get_field "tags" patch) [ none ↦ o.tags | some v ↦ v ];
  })

-- `if patch.get('status') and patch['status'] != obj['status']: validate_transition(...)`
unfoldable pub check_status : Object → Fields → Result (Unit {0})
check_status o patch = elim (get_field "status" patch) [
  | none ↦ ok tt
  | some (str s) ↦
      if s == "" || s == o.status then ok tt else validate_transition o.object_type o.status s
  | some v ↦
      if truthy v
      then elim (assoc o.object_type states) [ none ↦ ok tt | some _ ↦ err conflict ]
      else ok tt
]

abbrev pub patch_columns : List String
patch_columns = "status" ∷ "metadata" ∷ "title" ∷ "tags" ∷ []

-- The checks of `change` before it writes, in their order, and the object that it then writes.
unfoldable pub checked_update : Environ → Object → ℕ → Fields → Result Object
checked_update env obj version patch = do
  require (eqb obj.version version) conflict
  check_status obj patch
  require (all (λ k. mem k patch_columns) (field_names patch)) value_error
  validate_metadata env (dict patch)
  patched obj patch

-- A number of the configuration, whole: what an integer column keeps of it.
unfoldable pub nat_setting : String → Fields → Result ℕ
nat_setting k d = elim (get_field k d) [
  | none ↦ err key_error
  | some v ↦ elim (millionths v) [ none ↦ err type_error | some m ↦ ok (pos_part m / 1_000_000) ]
]

-- The object that `create` inserts, if its kind and its metadata pass.
unfoldable pub new_object : Environ → ℕ → String → String → String → Value → Result Object
new_object env now id kind title metadata = do
  require (mem kind object_types) value_error
  checked ← validate_metadata env (if truthy metadata then metadata else dict end)
  ok (record {
    id = id;
    object_type = kind;
    version = 1;
    title = title;
    status = elim (assoc kind states) [ none ↦ "ACTIVE" | some m ↦ m.initial ];
    tags = arr nil;
    metadata = checked;
    created_at = now;
    updated_at = now;
  })

-- `f'{kind.upper()}_CREATED'`
unfoldable pub created_event : String → String
created_event kind = append (elim (assoc kind upper_kinds) [ none ↦ kind | some u ↦ u ]) "_CREATED"

unfoldable pub job_key : String → String → String → String
job_key trace kind id = append trace (append ":" (append kind (append ":" id)))

-- `where from_object_id == source and to_object_id == target and edge_type == kind`
abbrev pub joins : String → String → String → Edge → Bool
joins source target kind e =
    e.from_object_id == source && e.to_object_id == target && e.edge_type == kind
