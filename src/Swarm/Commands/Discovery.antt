-- ===== src/Swarm/Commands/Discovery.antt =====
-- The commands of `Service.execute` (backend/app/swarm/application/service.py) that make new objects:
-- `start_discovery`, `discover` and `create`. Where a query's first row is not the only one, the newest
-- row is taken.
use da_swarm.Base.{
  ℕ, suc, ◌-◌, ◌/◌, String, Bool, true, false, ◌&&◌, Option, none, some, List, [], ◌∷◌, ◌==◌, eqb,
  if◌then◌else◌,
}
use da_swarm.Base.Int.{ℤ, pos, negsuc, clamp}
use da_swarm.Base.Table.{find_by}
use da_swarm.Base.Text.{codes, same, lower, strip, prefix}
use da_swarm.Swarm.Errors.{forbidden, value_error, type_error, Result, ok, err, require}
use da_swarm.Swarm.Json.{
  dict, Value, null, boolean, int, real, str, Fields, end, field, nat, get_field, update_fields,
  truthy, get_or, items,
}
use da_swarm.Swarm.Contracts.{mem, assoc, Environ}
use da_swarm.Swarm.Database.{
  gets, Object, Event, Job, World, Tx, ◌>>=◌, ◌>>◌, pure, lift, ask, if_found,
}
use da_swarm.Swarm.Objects.{by_worker, by_human, object_value, text_column}
use da_swarm.Swarm.Service.{create, change, link, schedule}
use da_swarm.Swarm.Configuration.{item}
use Prim.Native.String.{◌++◌ as append}

pub record Command : Type 0 where
  pub action : String
  pub object_id : Option String
  pub expected_version : Option ℕ
  pub idempotency_key : String
  pub payload : Fields
  pub mode : String

abbrev pub option_value : Option String → Value
option_value none = null
option_value (some s) = str s

-- `command.model_dump(exclude={'idempotency_key'})`
unfoldable pub command_value : Command → Value
command_value c = dict (
    field "action" (str c.action) (
      field "object_id" (option_value c.object_id) (
        field "expected_version" (elim c.expected_version [ none ↦ null | some n ↦ nat n ])
          (field "payload" (dict c.payload) (field "mode" (str c.mode) end)))))

-- `str(v)`
unfoldable pub to_text : World → Value → String
to_text w (str s) = s
to_text w v = w.show v

-- `int(v)`: a fraction is cut towards zero.
unfoldable pub to_int : World → Value → Result ℤ
to_int w (int z) = ok z
to_int w (boolean true) = ok (pos 1)
to_int w (boolean false) = ok (pos 0)
to_int w (real (pos m)) = ok (pos (m / 1_000_000))
to_int w (real (negsuc m)) =
    let q = suc m / 1_000_000 in ok (if eqb q 0 then pos 0 else negsuc (q - 1))
to_int w (str s) = elim (w.parse_int s) [ none ↦ err value_error | some z ↦ ok z ]
to_int w _ = err type_error

unfoldable pub as_text : Value → Result String
as_text (str s) = ok s
as_text _ = err type_error

-- `{**v, ...}` wants a mapping.
unfoldable pub as_fields : Value → Result Fields
as_fields (dict d) = ok d
as_fields _ = err type_error

-- `os.environ.get('SWARM_TEST_SIMULATION', 'false').lower() == 'true'`
unfoldable pub is_simulation : Environ → Bool
is_simulation env = elim (assoc "SWARM_TEST_SIMULATION" env) [
  | none ↦ false
  | some v ↦ same (lower (codes v)) (codes "true")
]

-- `select(objects).where(object_type == kind, title == title)`
unfoldable pub titled : String → String → Tx (Option Object)
titled kind title =
    gets (λ db. find_by (λ (o : Object). o.object_type == kind && o.title == title) db.objects)

abbrev pub pending_statuses : List String
pending_statuses = "QUEUED" ∷ "CLAIMED" ∷ "RUNNING" ∷ "WAITING_RETRY" ∷ []

-- A `DISCOVER` job of the source that has not ended.
unfoldable pub is_pending : String → Job → Bool
is_pending source j =
    j.task_type == "DISCOVER" && mem j.status pending_statuses && j.object_id == source

abbrev pub result_of : Object → String → Value
result_of obj trace = dict (field "object" (object_value obj) (field "trace_id" (str trace) end))

-- The source of `start_discovery`: a new one, or the one of that title, configured anew.
unfoldable pub discovery_source :
    Option Object → String → Fields → String → String → Tx (Object × Event)
discovery_source none title metadata trace actor =
    create "Source" title (dict metadata) (by_worker (some trace) none) (some "SOURCE_CREATED") none
discovery_source (some source) title metadata trace actor = do
  old ← lift (as_fields source.metadata)
  change source.id source.version (by_human actor (some trace) none) "SOURCE_CONFIGURED"
      (field "metadata" (dict (update_fields old metadata)) end)

unfoldable pub start_discovery : Fields → String → String → Tx Value
start_discovery p trace actor = do
  w ← ask (λ w. w)
  let provider = to_text w (get_or "provider" (str "wikimedia_commons") p)
  let asked = prefix 200 (strip (to_text w (get_or "query" (str "nature") p)))
  let query = if asked == "" then "nature" else asked
  items ← lift (to_int w (get_or "budget" (nat 8) p))
  let budget = clamp 1 25 items
  let continuous = truthy (elim (get_field "continuous" p) [ none ↦ boolean true | some v ↦ v ])
  seconds ← lift (to_int w (get_or "cadence_seconds" (nat 60) p))
  let cadence = clamp 15 86400 seconds
  let title = append provider (append " · " query)
  found ← titled "Source" title
  (source, ev) ←
      discovery_source found title
        (field "provider" (str provider) (
          field "query" (str query) (
            field "item_budget" (nat budget) (
              field "live" (boolean true) (
                field "continuous" (boolean continuous) (
                  field "cadence_seconds" (nat cadence)
                    (field "discovery_active" (boolean true) end)))))))
        trace actor
  pending ← gets (λ db. find_by (is_pending source.id) db.jobs)
  task ←
      if_found pending (λ j. pure j.task_id)
        (schedule "DISCOVER" source trace (some ev.event_id)
          (field "query" (str query) (
            field "budget" (nat budget) (
              field "continuous" (boolean continuous) (field "cadence_seconds" (nat cadence) end))))
          0)
  pure (
      dict (
        field "object" (object_value source) (
          field "task_id" (str task) (
            field "trace_id" (str trace) (
              field "live" (boolean true) (
                field "continuous" (boolean continuous)
                  (field "cadence_seconds" (nat cadence) end)))))))

-- `p.get(k, default)`
abbrev pub get_default : String → Value → Fields → Value
get_default k v p = elim (get_field k p) [ none ↦ v | some u ↦ u ]

unfoldable pub discover : Fields → String → Tx Value
discover p trace = do
  env ← ask (λ w. w.environ)
  lift (require (is_simulation env) forbidden)
  found ← titled "Source" "Simulated wildlife source"
  source ← if_found found pure (do
    (fresh, _) ←
        create "Source" "Simulated wildlife source"
          (dict (field "adapter" (str "simulated_source") end)) (by_worker (some trace) none) none
          none
    pure fresh)
  title ← lift (text_column (get_default "title" (str "Dog helps deer reach shore") p))
  (obj, ev) ←
      create "Candidate" title
        (dict (
          field "provenance_status" (get_default "provenance_status" (str "UNKNOWN") p) (
            field "media_type" (str "video") (
              field "fixture" (str "E2E_FIXTURE_001") (
                field "asset_signature"
                  (get_default "asset_signature" (str "wildlife-fixture-v1") p)
                  (field "duration_seconds" (nat 42)
                    (field "topic" (get_default "topic" (str "nature") p) end)))))))
        (by_worker (some trace) none) (some "CANDIDATE_DISCOVERED") none
  link obj.id source.id "SOURCED_FROM" (some trace) (some ev.event_id)
  link obj.id source.id "FOUND_BY" (some trace) (some ev.event_id)
  task ← schedule "NORMALIZE" obj trace (some ev.event_id) end 0
  pure (
      dict (
        field "object" (object_value obj)
          (field "task_id" (str task) (field "trace_id" (str trace) end))))

unfoldable pub create_object : Fields → String → Tx Value
create_object p trace = do
  given ← lift (item "object_type" p)
  kind ← lift (elim given [ str s ↦ ok s | _ ↦ err value_error ])
  name ← lift (item "title" p)
  title ← lift (text_column name)
  (obj, ev) ←
      create kind title (get_default "metadata" (dict end) p) (by_worker (some trace) none) none
        none
  pure (result_of obj trace)
