-- ===== src/Swarm/Database.antt =====
-- backend/app/swarm/infrastructure/database.py: the rows and tables, and a transaction over them.
-- A transaction that raises is rolled back, so a failure carries no state. Times are milliseconds.
pub mod Steps
use da_swarm.Base.{none, some, ℕ, ◌+◌, String, Bool, Option, List}
use da_swarm.Base.Int.{ℤ}
use da_swarm.Swarm.Errors.{Error, Result, ok, err}
use da_swarm.Swarm.Json.{Value, Fields}
use da_swarm.Swarm.Contracts.{Environ}

pub record Object : Type 0 where
  pub id : String
  pub object_type : String
  pub version : ℕ
  pub title : String
  pub status : String
  pub tags : Value
  pub metadata : Value
  pub created_at : ℕ
  pub updated_at : ℕ

pub record Edge : Type 0 where
  pub id : String
  pub from_object_id : String
  pub to_object_id : String
  pub edge_type : String
  pub created_at : ℕ

-- The payload's `snapshot` is kept as the object that it is.
pub record Event : Type 0 where
  pub sequence : ℕ
  pub event_id : String
  pub event_type : String
  pub snapshot : Option Object
  pub actor_type : String
  pub actor_id : Option String
  pub timestamp : ℕ
  pub trace_id : String
  pub causation_id : Option String
  pub payload : Fields

pub data Body : Type 0 where
  event_body : Event → Body
  task_body : String → String → Body

pub record Entry : Type 0 where
  pub id : String
  pub topic : String
  pub message_key : String
  pub payload : Body
  pub created_at : ℕ
  pub dispatched_at : Option ℕ
  pub attempts : ℕ
  pub last_error : Option Error

pub record Idem : Type 0 where
  pub key : String
  pub operation : String
  pub fingerprint : String
  pub result : Value
  pub created_at : ℕ

pub record Job : Type 0 where
  pub task_id : String
  pub task_type : String
  pub object_id : String
  pub object_type : String
  pub trace_id : String
  pub causation_event_id : String
  pub idempotency_key : String
  pub priority : ℕ
  pub attempt : ℕ
  pub max_attempts : ℕ
  pub resource_class : String
  pub created_at : ℕ
  pub not_before : ℕ
  pub lease_until : ℕ
  pub lease_token : Option String
  pub worker_id : Option String
  pub cancelled : Bool
  pub status : String
  pub payload : Fields

pub record Projection : Type 0 where
  pub object_id : String
  pub object_type : String
  pub last_sequence : ℕ
  pub state : Object

pub record Config : Type 0 where
  pub version : ℕ
  pub settings : Fields

-- `drawn` counts the identifiers that `uid()` has given out, and `sequence` the events.
pub record Db : Type 0 where
  pub objects : List Object
  pub edges : List Edge
  pub events : List Event
  pub outbox : List Entry
  pub idem : List Idem
  pub jobs : List Job
  pub projections : List Projection
  pub config : Option Config
  pub sequence : ℕ
  pub drawn : ℕ

-- What a transaction takes from outside: the time, `uuid4`, the environment, `str()` of a value that
-- is no text, `int()` of a text, SHA-256 of the canonical JSON, and `random()` in milliseconds.
pub record World : Type 0 where
  pub clock : ℕ
  pub uuid : ℕ → String
  pub environ : Environ
  pub show : Value → String
  pub parse_int : String → Option ℤ
  pub digest : Value → String
  pub random : ℕ

abbrev pub Tx : Type 0 → Type 0
Tx A = World → Db → Result (A × Db)

infixl 5 ◌>>=◌ ◌>>◌
unfoldable pub ◌>>=◌ : {A B : Type 0} → Tx A → (A → Tx B) → Tx B
◌>>=◌ m f w db = elim (m w db) [ ok (a, db') ↦ f a w db' | err e ↦ err e ]

unfoldable pub ◌>>◌ : {A B : Type 0} → Tx A → Tx B → Tx B
unfolding ◌>>=◌
m >> k = m >>= λ _. k

module _ {A : Type 0} where
  unfoldable pub pure : A → Tx A
  pure a w db = ok (a, db)

  unfoldable pub raise : Error → Tx A
  raise e w db = err e

  -- A pure check or lookup that may raise.
  unfoldable pub lift : Result A → Tx A
  lift (ok a) w db = ok (a, db)
  lift (err e) w db = err e

  unfoldable pub gets : (Db → A) → Tx A
  gets f w db = ok (f db, db)

  unfoldable pub ask : (World → A) → Tx A
  ask f w db = ok (f w, db)

unfoldable pub modify : (Db → Db) → Tx (Unit {0})
modify f w db = ok (tt, f db)

unfoldable pub uid : Tx String
uid w db = ok (w.uuid db.drawn, record db { drawn = db.drawn + 1 })

-- `if found: ... else: ...` on the row of a query.
unfoldable pub if_found : {A B : Type 0} → Option A → (A → Tx B) → Tx B → Tx B
if_found none f m = m
if_found (some a) f m = f a
