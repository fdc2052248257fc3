-- ===== src/Swarm/Ledger/Reachable.antt =====
-- Every state that the control plane reaches, by commands of operators, the work of workers and the rounds
-- of the dispatcher in any order, is faithful to its ledger.
use da_swarm.Base.{ℕ, ◌+◌, String, Option, none, some, List, [], ◌∷◌, ◌≡◌, refl, Bool}
use da_swarm.Base.Table.{find}
use da_swarm.Swarm.Errors.{Error, ok}
use da_swarm.Swarm.Json.{Value, Fields}
use da_swarm.Swarm.Database.{Object, Entry, Config, Job, Db, World, Tx, ◌>>◌, pure}
use da_swarm.Swarm.Database.Steps.{Keeps, Keeps-then, Keeps-pure}
use da_swarm.Swarm.Objects.{Source}
use da_swarm.Swarm.Service.{create, change, link, schedule}
use da_swarm.Swarm.Commands.Discovery.{Command}
use da_swarm.Swarm.Commands.{execute}
use da_swarm.Swarm.Worker.{claim}
use da_swarm.Swarm.Worker.Endings.{heartbeat, finish, fail}
use da_swarm.Swarm.Dispatcher.{once, requeue_due}
use da_swarm.Swarm.Ledger.{IsFaithful, burnt-IsFaithful}
use da_swarm.Swarm.Ledger.Writes.{
  create-IsFaithful, change-IsFaithful, link-IsFaithful, schedule-IsFaithful,
}
use da_swarm.Swarm.Ledger.Commands.{execute-IsFaithful}
use da_swarm.Swarm.Ledger.Workers.{
  claim-IsFaithful, heartbeat-IsFaithful, finish-IsFaithful, fail-IsFaithful,
}
use da_swarm.Swarm.Ledger.Delivery.{once-IsFaithful, requeue_due-IsFaithful}

-- The tables of a new installation, with its configuration.
abbrev pub installed : Config → Db
installed cfg = record {
  objects = [];
  edges = [];
  events = [];
  outbox = [];
  idem = [];
  jobs = [];
  projections = [];
  config = some cfg;
  drawn = 0;
  sequence = 0;
}

-- The calls of the service that a task's effect consists of.
pub data Call : Type 0 where
  creates : String → String → Value → Source → Option String → Call
  changes : String → ℕ → Source → String → Fields → Call
  links : String → String → String → Option String → Option String → Call
  schedules : String → Object → String → Option String → Fields → ℕ → Call

unfoldable pub effect_of : List Call → Tx (Unit {0})
effect_of [] = pure tt
effect_of (creates kind title given source event_type ∷ l) =
    create kind title given source event_type none >> effect_of l
effect_of (changes id version source event_type patch ∷ l) =
    change id version source event_type patch >> effect_of l
effect_of (links source target kind trace cause ∷ l) =
    link source target kind trace cause >> effect_of l
effect_of (schedules kind obj trace cause payload due ∷ l) =
    schedule kind obj trace cause payload due >> effect_of l

-- One committed transaction, or the numbers of events that a transaction drew which failed.
pub data Step : Db → Db → Type 0 where
  commanded :
      (cmd : Command) (actor : String) (w : World) {db db' : Db} {r : Value}
      → execute cmd actor w db ≡ ok (r, db')
      → Step db db'
  claimed :
      (worker : String) (task_id resource : Option String) (w : World) {db db' : Db}
      {r : Option Job}
      → claim worker task_id resource w db ≡ ok (r, db')
      → Step db db'
  beaten :
      (job : Job) (w : World) {db db' : Db} {r : Bool}
      → heartbeat job w db ≡ ok (r, db')
      → Step db db'
  finished :
      (job : Job) (effect : List Call) (w : World) {db db' : Db} {r : Bool}
      → finish job (effect_of effect) w db ≡ ok (r, db')
      → Step db db'
  failed :
      (job : Job) (error_class : String) (w : World) {db db' : Db} {r : Bool}
      → fail job error_class w db ≡ ok (r, db')
      → Step db db'
  dispatched :
      (publish : Entry → Option Error) (w : World) {db db' : Db} {n : ℕ}
      → once publish w db ≡ ok (n, db')
      → Step db db'
  burnt : (n : ℕ) {db : Db} → Step db (record db { sequence = db.sequence + n })
  requeued : (w : World) {db db' : Db} {u : Unit {0}} → requeue_due w db ≡ ok (u, db') → Step db db'

-- The states that a new installation reaches. A transaction that fails is rolled back, and leaves nothing but
-- a gap in the numbers.
pub data Reaches (cfg : Config) : Db → Type 0 where
  start : Reaches cfg (installed cfg)
  next : {db db' : Db} → Reaches cfg db → Step db db' → Reaches cfg db'

effect_of-IsFaithful : (l : List Call) → Keeps IsFaithful (effect_of l)
unfolding effect_of
effect_of-IsFaithful [] = Keeps-pure tt
effect_of-IsFaithful (creates kind title given source event_type ∷ l) =
    Keeps-then _ _ (create-IsFaithful kind title given source event_type none)
      (effect_of-IsFaithful l)
effect_of-IsFaithful (changes id version source event_type patch ∷ l) =
    Keeps-then _ _ (change-IsFaithful id version source event_type patch) (effect_of-IsFaithful l)
effect_of-IsFaithful (links source target kind trace cause ∷ l) =
    Keeps-then _ _ (link-IsFaithful source target kind trace cause) (effect_of-IsFaithful l)
effect_of-IsFaithful (schedules kind obj trace cause payload due ∷ l) =
    Keeps-then _ _ (schedule-IsFaithful kind obj trace cause payload due) (effect_of-IsFaithful l)

Step-IsFaithful : {db db' : Db} → Step db db' → IsFaithful db → IsFaithful db'
Step-IsFaithful (commanded cmd actor w h) f = (execute-IsFaithful cmd actor).at w _ f _ _ h
Step-IsFaithful (claimed worker t r w h) f = (claim-IsFaithful worker t r).at w _ f _ _ h
Step-IsFaithful (beaten job w h) f = (heartbeat-IsFaithful job).at w _ f _ _ h
Step-IsFaithful (finished job l w h) f =
    (finish-IsFaithful job (effect_of l) (effect_of-IsFaithful l)).at w _ f _ _ h
Step-IsFaithful (failed job c w h) f = (fail-IsFaithful job c).at w _ f _ _ h
Step-IsFaithful (dispatched publish w h) f = (once-IsFaithful publish).at w _ f _ _ h
Step-IsFaithful (burnt n {db = db}) f = burnt-IsFaithful n db f
Step-IsFaithful (requeued w h) f = requeue_due-IsFaithful.at w _ f _ _ h

-- In every state that a new installation reaches by transactions, failed ones among them, in whatever order
-- commands, claims, heartbeats, endings and dispatches come, each object and each projection is the last
-- snapshot of its events, every event stands in the outbox, and the numbers of the events rise, though with
-- gaps, up to the last number drawn.
pub Reaches-IsFaithful : (cfg : Config) (db : Db) → Reaches cfg db → IsFaithful db
unfolding find
Reaches-IsFaithful cfg db start = record {
  objects = λ k. refl;
  states = λ k. refl;
  published = refl;
  numbered = tt;
}
Reaches-IsFaithful cfg db (next r s) = Step-IsFaithful s (Reaches-IsFaithful cfg _ r)
