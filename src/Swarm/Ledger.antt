-- ===== src/Swarm/Ledger.antt =====
-- The event ledger as the specification of the control plane's tables: what `swarm_objects` and
-- `swarm_projections` hold is the last snapshot of each object in `swarm_events`, every event stands in
-- the outbox, and the numbers of the events rise. They may leave gaps: PostgreSQL does not take back the
-- numbers that a failed transaction drew.
pub mod Writes
pub mod Commands
pub mod Workers
pub mod Delivery
pub mod Reachable
use mathlib.Core.Option
use da_swarm.Base.{
  ℕ, ◌+◌, String, ◌≡◌, refl, Option, none, some, List, [], ◌∷◌, ◌==◌, arith, eq_iff, ◌<◌, ◌≤◌,
  if◌then◌else◌,
}
use da_swarm.Base.Table.{find}
use da_swarm.Swarm.Database.{Object, Event, Projection, Db}
use da_swarm.Swarm.Objects.{Source, object_key, projection_key, project, record_event}
use da_swarm.Swarm.Service.Events.{Logged, event_bodies}

-- The last snapshot of an object; the list is newest first.
abbrev pub latest : String → List Event → Option Object
latest k [] = none
latest k (e ∷ l) = elim e.snapshot [
  | none ↦ latest k l
  | some o ↦ if o.id == k then some o else latest k l
]

-- The numbers rise from event to event, and stay below the bound; the list is newest first.
abbrev pub AreNumbered : ℕ → List Event → Type 0
AreNumbered bound [] = Unit
AreNumbered bound (e ∷ l) = (e.sequence < bound) × AreNumbered e.sequence l

AreNumbered-mono : (n m : ℕ) (l : List Event) → n ≤ m → AreNumbered n l → AreNumbered m l
AreNumbered-mono n m [] h a = tt
AreNumbered-mono n m (e ∷ l) h (b, a) = (omega (arith, b, h), a)

abbrev pub state_of : Projection → Object
state_of p = p.state

-- The projection's row of a key.
abbrev pub projected : String → List Projection → Option Object
projected k l = Option.map state_of (find projection_key k l)

pub record IsFaithful (db : Db) : Type 0 where
  pub objects : (k : String) → find object_key k db.objects ≡ latest k db.events
  pub states : (k : String) → projected k db.projections ≡ latest k db.events
  pub published : event_bodies db.outbox ≡ db.events
  pub numbered : AreNumbered (db.sequence + 1) db.events

projected-project :
    (p : Projection) (k : String) (l : List Projection)
    → projected k (project p l) ≡ (if p.object_id == k then some p.state else projected k l)
unfolding project find
projected-project p k [] = ground arith
projected-project p k (q ∷ l) = ground (
  arith,
  projected-project p k l,
  eq_iff p.object_id k,
  eq_iff q.object_id k,
  eq_iff q.object_id p.object_id,
)

-- An event about no object keeps the tables faithful.
pub Logged-none :
    {kind : String} {source : Source} {db : Db} {ev : Event} {db' : Db}
    → IsFaithful db
    → Logged kind none source db ev db'
    → IsFaithful db'
unfolding record_event
Logged-none {db = db} f l = record {
  objects = λ k. ground (arith, f.objects k);
  states = λ k. ground (arith, f.states k);
  published = ground arith;
  numbered = ground arith;
}

-- So does an event about an object that `mid` has just been given.
pub Logged-some :
    {kind : String} {o : Object} {source : Source} {db : Db} {mid : Db} {ev : Event} {db' : Db}
    → IsFaithful db
    → ((k : String)
        → find object_key k mid.objects
          ≡ (if o.id == k then some o else find object_key k db.objects))
    → mid.events ≡ db.events
    → mid.projections ≡ db.projections
    → mid.outbox ≡ db.outbox
    → mid.sequence ≡ db.sequence
    → Logged kind (some o) source mid ev db'
    → IsFaithful db'
unfolding record_event
Logged-some {o = o} {db = db} {mid = mid} {ev = ev} f written e1 e2 e3 e4 l = record {
  objects = λ k. ground (arith, f.objects k, written k);
  states = λ k. ground (
    arith,
    f.states k,
    projected-project
        (record {
          object_id = o.id;
          object_type = o.object_type;
          last_sequence = ev.sequence;
          state = o;
        })
        k mid.projections,
  );
  published = ground (arith, f.published);
  numbered = ground (arith, f.numbered);
}

-- A change of what the ledger does not speak of.
pub IsFaithful-same :
    {db db' : Db}
    → IsFaithful db
    → db'.objects ≡ db.objects
    → db'.events ≡ db.events
    → db'.projections ≡ db.projections
    → event_bodies db'.outbox ≡ event_bodies db.outbox
    → db'.sequence ≡ db.sequence
    → IsFaithful db'
IsFaithful-same f e1 e2 e3 e4 e5 = record {
  objects = λ k. ground (arith, f.objects k);
  states = λ k. ground (arith, f.states k);
  published = ground arith;
  numbered = ground arith;
}

-- Numbers that a failed transaction drew are lost.
pub burnt-IsFaithful :
    (n : ℕ) (db : Db) → IsFaithful db → IsFaithful (record db { sequence = db.sequence + n })
burnt-IsFaithful n db f = record {
  objects = f.objects;
  states = f.states;
  published = f.published;
  numbered =
      AreNumbered-mono (db.sequence + 1) (db.sequence + n + 1) db.events (omega arith) f.numbered;
}
