-- ===== src/Swarm/Service/Events.antt =====
-- What `Service.event` leaves behind: the event, its projection and its outbox entry.
use da_swarm.Base.{◌+◌, String, ◌≡◌, Option, List, [], ◌∷◌, arith}
use da_swarm.Swarm.Errors.{ok}
use da_swarm.Swarm.Json.{Fields}
use da_swarm.Swarm.Database.{
  Object, Event, Entry, event_body, task_body, Db, World, ◌>>=◌, ◌>>◌, pure, gets, ask, lift,
  modify, uid,
}
use da_swarm.Swarm.Objects.{Source, record_event}
use da_swarm.Swarm.Service.{trace_or_uid, enqueue_outbox, event}

-- The events of the outbox, in its order.
abbrev pub event_bodies : List Entry → List Event
event_bodies [] = []
event_bodies (e ∷ l) = elim e.payload [
  | event_body ev ↦ ev ∷ event_bodies l
  | task_body _ _ ↦ event_bodies l
]

-- What a logged event changes of the state, and what it leaves.
pub record Logged (kind : String) (obj : Option Object) (source : Source) (db : Db) (ev : Event)
    (db' : Db) : Type 0 where
  pub event_type : ev.event_type ≡ kind
  pub snapshot : ev.snapshot ≡ obj
  pub actor : ev.actor_type ≡ source.actor
  pub cause : ev.causation_id ≡ source.cause
  pub number : ev.sequence ≡ db.sequence + 1
  pub events : db'.events ≡ ev ∷ db.events
  pub sequence : db'.sequence ≡ db.sequence + 1
  pub outbox : event_bodies db'.outbox ≡ ev ∷ event_bodies db.outbox
  pub projections : db'.projections ≡ (record_event ev db).projections
  pub objects : db'.objects ≡ db.objects
  pub edges : db'.edges ≡ db.edges
  pub jobs : db'.jobs ≡ db.jobs
  pub idem : db'.idem ≡ db.idem
  pub config : db'.config ≡ db.config

pub event-Logged :
    (kind : String) (obj : Option Object) (source : Source) (payload : Fields) (w : World) (db : Db)
    (ev : Event) (db' : Db)
    → event kind obj source payload w db ≡ ok (ev, db')
    → Logged kind obj source db ev db'
unfolding event ◌>>=◌ ◌>>◌ lift gets ask modify uid pure trace_or_uid enqueue_outbox record_event
event-Logged kind obj source payload w db ev db' h = ground arith
