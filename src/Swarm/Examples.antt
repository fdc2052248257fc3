-- ===== src/Swarm/Examples.antt =====
-- The Swarm theorems at concrete runs: two discoveries that an operator starts in a new installation, the
-- claims of their tasks, and the rounds of the dispatcher.
mod Changes
mod Delivery
use Prim.Native.String.{◌++◌ as append}
use da_swarm.Base.{
  ℕ, zero, suc, ◌+◌, ◌≤◌, ◌⊎◌, inl, All, map, take, ◌==◌, eq_refl, if◌then◌else◌, String, Bool,
  true, false, Option, none, some, List, [], ◌∷◌, ◌≡◌, ◌≢◌, refl, ap, arith,
}
use da_swarm.Swarm.Errors.{Error, Result, ok, err, conflict, timeout_error}
use da_swarm.Swarm.Json.{Value, null, str, arr, dict, nil, cons, end, field}
use da_swarm.Swarm.Database.{Object, Event, Entry, Idem, Job, Config, Db, World, Tx}
use da_swarm.Swarm.Configuration.{default_config}
use da_swarm.Swarm.Commands.Discovery.{Command}
use da_swarm.Swarm.Ledger.Reachable.{
  installed, Reaches, start, next, commanded, claimed, Reaches-IsFaithful,
}
use da_swarm.Swarm.Ledger.{IsFaithful}
use da_swarm.Swarm.Worker.Exclusive.{claim-exclusive, claim-lease}
use da_swarm.Swarm.Worker.Fencing.{claim-fences}
use da_swarm.Swarm.Worker.{chosen_job}
use da_swarm.Swarm.Commands.Replay.{execute-replay}
use da_swarm.Swarm.Commands.{idem_key}
use da_swarm.Swarm.Service.Versions.{change-change}
use da_swarm.Swarm.Service.Statuses.{Moves, change-Moves, change-terminal}
use da_swarm.Swarm.Contracts.{Machine, states}
use da_swarm.Swarm.Contracts.Secrets.{AreClean, keys_in, texts_in, validate_metadata-AreClean}
use da_swarm.Swarm.Objects.{by_worker, object_key}
use da_swarm.Swarm.Dispatcher.Delivery.{content, once-AtLeastOnce, once-settles, once-content}
use da_swarm.Base.Table.{find_by, update_where, count_where, find}
use da_swarm.Base.Text.{strip, prefix}
use da_swarm.Swarm.Commands.{start_trace, perform, remember, execute}
use da_swarm.Swarm.Commands.Discovery.{
  to_text, to_int, titled, is_pending, discovery_source, start_discovery,
}
use da_swarm.Swarm.Configuration.{item, iterate, texts}
use da_swarm.Swarm.Contracts.{
  mem, assoc, targets_of, validate_transition, is_forbidden, holds_secret, validate_metadata,
}
use da_swarm.Swarm.Database.{◌>>◌, pure, lift, gets, ask, modify, uid, if_found}
use da_swarm.Swarm.Dispatcher.{
  is_undelivered, select, insert_entry, by_age, mark, deliver, once, is_due, announce_all,
  requeue_due,
}
use da_swarm.Swarm.Json.{update_fields, field_names, get_or, millionths}
use da_swarm.Swarm.Objects.{
  object_value, with_snapshot, record_event, text_column, patched, check_status, checked_update,
  nat_setting, new_object, job_key,
}
use da_swarm.Swarm.Service.{
  get, enqueue_outbox, trace_or_uid, event, insert_object, create, write_object, change, new_edge,
  link, settings, insert_job, new_job, schedule,
}
use da_swarm.Swarm.Worker.{
  milliseconds, same_token, is_claimable, first_by, update_job, transition, announce, enroll,
  hand_out, requeue, take_lease, recover, claim_job, claim,
}
use da_swarm.Swarm.Worker.Endings.{fence, finish, fail}

abbrev identifier : ℕ → String
identifier zero = "i"
identifier (suc n) = append "i" (identifier n)

abbrev at_time : ℕ → World
at_time t = record {
  clock = t;
  uuid = identifier;
  environ = ("DB_PASSWORD", "hunter22") ∷ [];
  show = λ _. "";
  parse_int = λ _. none;
  digest = λ v. "digest";
  random = 500;
}

abbrev discovery : String → String → Command
discovery key query = record {
  action = "start_discovery";
  object_id = none;
  expected_version = none;
  idempotency_key = key;
  payload = field "query" (str query) end;
  mode = "LIVE";
}

abbrev fresh : Db
fresh = installed (record { version = 1; settings = default_config })

-- The state after a transaction, which a failure rolls back.
abbrev after : {A : Type 0} → Tx A → World → Db → Db
after m w db = elim (m w db) [ ok (_, db') ↦ db' | err _ ↦ db ]

abbrev answer : {A : Type 0} → A → Tx A → World → Db → A
answer a m w db = elim (m w db) [ ok (r, _) ↦ r | err _ ↦ a ]

abbrev is_ok : {A : Type 0} → Result A → Bool
is_ok (ok _) = true
is_ok (err _) = false

-- A transaction that commits ends as `answer` and `after` say.
ran :
    {A : Type 0} (a : A) (m : Tx A) (w : World) (db : Db)
    → is_ok (m w db) ≡ true
    → m w db ≡ ok (answer a m w db, after m w db)
ran {A = A} a m w db = go (m w db)
  where
    go :
        (x : Result (A × Db))
        → is_ok x ≡ true
        → x ≡ ok ((elim x [ ok (r, _) ↦ r | err _ ↦ a ]), (elim x [ ok (_, d) ↦ d | err _ ↦ db ]))
    go (ok (r, d)) h = refl
    go (err e) h = cc

abbrev one_discovery : Db
one_discovery = after (execute (discovery "k1" "owls") "operator") (at_time 1000) fresh

abbrev two_discoveries : Db
two_discoveries = after (execute (discovery "k2" "foxes") "operator") (at_time 2000) one_discovery

-- The job that a claim hands out; when there is none, a job of no task.
abbrev taken : Option Job → Job
taken (some j) = j
taken none = record {
  task_id = "";
  task_type = "";
  object_id = "";
  object_type = "";
  trace_id = "";
  causation_event_id = "";
  idempotency_key = "";
  priority = 0;
  attempt = 0;
  max_attempts = 0;
  resource_class = "";
  created_at = 0;
  not_before = 0;
  lease_until = 0;
  lease_token = none;
  worker_id = none;
  cancelled = false;
  status = "";
  payload = end;
}

abbrev hands_out : Result (Option Job × Db) → Bool
hands_out (ok (some _, _)) = true
hands_out _ = false

-- A claim that hands a job out.
handed :
    (m : Tx (Option Job)) (w : World) (db : Db)
    → hands_out (m w db) ≡ true
    → m w db ≡ ok (some (taken (answer none m w db)), after m w db)
handed m w db = go (m w db)
  where
    go :
        (x : Result (Option Job × Db))
        → hands_out x ≡ true
        → x
          ≡ ok (
            some (taken (elim x [ ok (r, _) ↦ r | err _ ↦ none ])),
            (elim x [ ok (_, d) ↦ d | err _ ↦ db ]),
          )
    go (ok (some j, d)) h = refl
    go (ok (none, d)) h = cc
    go (err e) h = cc

abbrev first : Job
first = taken (answer none (claim "worker-one" none none) (at_time 3000) two_discoveries)

abbrev claimed_once : Db
claimed_once = after (claim "worker-one" none none) (at_time 3000) two_discoveries

abbrev second : Job
second = taken (answer none (claim "worker-two" none none) (at_time 4000) claimed_once)

abbrev claimed_twice : Db
claimed_twice = after (claim "worker-two" none none) (at_time 4000) claimed_once

claim-exclusive_example : second.task_id ≢ first.task_id
unfolding find_by update_where count_where find strip prefix start_trace perform remember execute
    to_text to_int titled is_pending discovery_source start_discovery item iterate texts mem assoc
    targets_of validate_transition is_forbidden holds_secret validate_metadata ◌>>◌ pure lift gets
    ask modify uid if_found update_fields field_names get_or millionths object_value with_snapshot
    record_event text_column patched check_status checked_update nat_setting new_object job_key get
    enqueue_outbox trace_or_uid event insert_object create write_object change new_edge link
    settings insert_job new_job schedule milliseconds is_claimable first_by update_job transition
    announce enroll hand_out requeue take_lease recover claim_job claim
claim-exclusive_example =
    claim-exclusive "worker-one" "worker-two" none none none none (at_time 3000) (at_time 4000)
      two_discoveries first second claimed_once claimed_twice
      (handed (claim "worker-one" none none) (at_time 3000) two_discoveries refl)
      (handed (claim "worker-two" none none) (at_time 4000) claimed_once refl) (omega arith)

claim-lease_example :
    (paused : List String) × (old : Job) × (chosen_job 3000 paused none none two_discoveries.jobs
      ≡ some old)
    × (first.task_id ≡ old.task_id)
    × (first.attempt ≡ old.attempt + 1)
    × (first.attempt ≤ old.max_attempts)
    × (first.status ≡ "RUNNING")
    × (3000 ≤ first.lease_until)
    × (first.worker_id ≡ some "worker-one")
    × (claimed_once.jobs
        ≡ update_where (λ (k : Job). k.task_id == first.task_id) (λ _. first) two_discoveries.jobs)
unfolding find_by update_where count_where find strip prefix start_trace perform remember execute
    to_text to_int titled is_pending discovery_source start_discovery item iterate texts mem assoc
    targets_of validate_transition is_forbidden holds_secret validate_metadata ◌>>◌ pure lift gets
    ask modify uid if_found update_fields field_names get_or millionths object_value with_snapshot
    record_event text_column patched check_status checked_update nat_setting new_object job_key get
    enqueue_outbox trace_or_uid event insert_object create write_object change new_edge link
    settings insert_job new_job schedule milliseconds same_token is_claimable first_by update_job
    transition announce enroll hand_out requeue take_lease recover claim_job claim
claim-lease_example =
    claim-lease "worker-one" none none (at_time 3000) two_discoveries first claimed_once refl

-- The lease of the first claim has run out by then, and another worker takes the same task.
abbrev later : Job
later =
    taken (answer none (claim "worker-two" (some first.task_id) none) (at_time 40_000) claimed_once)

abbrev claimed_over : Db
claimed_over = after (claim "worker-two" (some first.task_id) none) (at_time 40_000) claimed_once

claim-fences_example :
    (finish first (pure tt) (at_time 41_000) claimed_over ≡ ok (false, claimed_over))
    × (fail first "TimeoutError" (at_time 41_000) claimed_over ≡ ok (false, claimed_over))
    × (fence first (at_time 41_000) claimed_over ≡ err conflict)
unfolding find_by update_where count_where find strip prefix start_trace perform remember execute
    to_text to_int titled is_pending discovery_source start_discovery item iterate texts mem assoc
    targets_of validate_transition is_forbidden holds_secret validate_metadata ◌>>◌ pure lift gets
    ask modify uid if_found update_fields field_names get_or millionths object_value with_snapshot
    record_event text_column patched check_status checked_update nat_setting new_object job_key get
    enqueue_outbox trace_or_uid event insert_object create write_object change new_edge link
    settings insert_job new_job schedule milliseconds same_token is_claimable first_by update_job
    transition announce enroll hand_out requeue take_lease recover claim_job claim
claim-fences_example =
    claim-fences first (pure tt) "TimeoutError" "worker-two" (some first.task_id) none
      (at_time 40_000) (at_time 41_000) claimed_once later claimed_over
      (handed (claim "worker-two" (some first.task_id) none) (at_time 40_000) claimed_once refl)
      refl (λ e. let x : true ≡ false = ap (same_token first.lease_token) e in cc)

abbrev configuration : Config
configuration = record { version = 1; settings = default_config }

reached_one : Reaches configuration one_discovery
unfolding find_by update_where count_where find strip prefix start_trace perform remember execute
    to_text to_int titled is_pending discovery_source start_discovery item iterate texts mem assoc
    targets_of validate_transition is_forbidden holds_secret validate_metadata ◌>>◌ pure lift gets
    ask modify uid if_found update_fields field_names get_or millionths object_value with_snapshot
    record_event text_column patched check_status checked_update nat_setting new_object job_key get
    enqueue_outbox trace_or_uid event insert_object create write_object change new_edge link
    settings insert_job new_job schedule milliseconds same_token is_claimable first_by update_job
    transition announce enroll hand_out requeue take_lease recover claim_job claim
reached_one = next start (
    commanded (discovery "k1" "owls") "operator" (at_time 1000) {db = fresh} {db' = one_discovery}
      (ran null (execute (discovery "k1" "owls") "operator") (at_time 1000) fresh refl))

reached_two : Reaches configuration two_discoveries
unfolding find_by update_where count_where find strip prefix start_trace perform remember execute
    to_text to_int titled is_pending discovery_source start_discovery item iterate texts mem assoc
    targets_of validate_transition is_forbidden holds_secret validate_metadata ◌>>◌ pure lift gets
    ask modify uid if_found update_fields field_names get_or millionths object_value with_snapshot
    record_event text_column patched check_status checked_update nat_setting new_object job_key get
    enqueue_outbox trace_or_uid event insert_object create write_object change new_edge link
    settings insert_job new_job schedule milliseconds same_token is_claimable first_by update_job
    transition announce enroll hand_out requeue take_lease recover claim_job claim
reached_two = next reached_one (
    commanded (discovery "k2" "foxes") "operator" (at_time 2000) {db = one_discovery}
      {db' = two_discoveries}
      (ran null (execute (discovery "k2" "foxes") "operator") (at_time 2000) one_discovery refl))

Reaches-IsFaithful_example : IsFaithful claimed_once
unfolding find_by update_where count_where find strip prefix start_trace perform remember execute
    to_text to_int titled is_pending discovery_source start_discovery item iterate texts mem assoc
    targets_of validate_transition is_forbidden holds_secret validate_metadata ◌>>◌ pure lift gets
    ask modify uid if_found update_fields field_names get_or millionths object_value with_snapshot
    record_event text_column patched check_status checked_update nat_setting new_object job_key get
    enqueue_outbox trace_or_uid event insert_object create write_object change new_edge link
    settings insert_job new_job schedule milliseconds is_claimable first_by transition announce
    enroll hand_out requeue take_lease recover claim_job claim
Reaches-IsFaithful_example = Reaches-IsFaithful configuration claimed_once (
    next {db = two_discoveries} {db' = claimed_once} reached_two (
      claimed "worker-one" none none (at_time 3000) {db = two_discoveries} {db' = claimed_once}
        (ran none (claim "worker-one" none none) (at_time 3000) two_discoveries refl)))

execute-replay_example :
    execute (discovery "k1" "owls") "another" (at_time 5000) one_discovery
    ≡ ok (
      answer null (execute (discovery "k1" "owls") "operator") (at_time 1000) fresh,
      one_discovery,
    )
unfolding find_by update_where count_where find strip prefix start_trace perform remember execute
    to_text to_int titled is_pending discovery_source start_discovery item iterate texts mem assoc
    targets_of validate_transition is_forbidden holds_secret validate_metadata ◌>>◌ pure lift gets
    ask modify uid if_found update_fields field_names get_or millionths object_value with_snapshot
    record_event text_column patched check_status checked_update nat_setting new_object job_key get
    enqueue_outbox trace_or_uid event insert_object create write_object change new_edge link
    settings insert_job new_job schedule milliseconds same_token is_claimable first_by update_job
    transition announce enroll hand_out requeue take_lease recover claim_job claim
execute-replay_example =
    execute-replay (discovery "k1" "owls") "operator" "another" (at_time 1000) (at_time 5000) fresh
      (answer null (execute (discovery "k1" "owls") "operator") (at_time 1000) fresh) one_discovery
      refl refl refl

-- A world in which the command's fingerprint is another one.
abbrev other_digest : World
other_digest = record (at_time 5000) { digest = λ _. "other" }

abbrev kept : Idem
kept = elim (find idem_key "k1" one_discovery.idem) [
  | some i ↦ i
  | none ↦ record { key = ""; operation = ""; fingerprint = ""; result = null; created_at = 0 }
]
