-- ===== src/Swarm/Dispatcher.antt =====
-- `Dispatcher` (backend/app/swarm/infrastructure/dispatch.py): the outbox goes to the transport, and due
-- jobs are announced again. The transport is a parameter: `none` for an entry that it took. The tables are
-- one dispatcher's (no other one holds locks on rows), and of equal times the older row goes first.
pub mod Delivery
use da_swarm.Base.{
  false, true, ℕ, ◌+◌, String, Bool, ◌&&◌, ◌||◌, not, Option, none, some, List, [], ◌∷◌, ◌==◌, leb,
  ltb, reverse, take, length, if◌then◌else◌,
}
use da_swarm.Base.Table.{update_where}
use da_swarm.Swarm.Errors.{Error}
use da_swarm.Swarm.Database.{Entry, Job, Db, Tx, task_body, ◌>>=◌, ◌>>◌, gets, ask, modify, pure}
use da_swarm.Swarm.Service.{enqueue_outbox}

unfoldable pub is_undelivered : Entry → Bool
is_undelivered e = elim e.dispatched_at [ none ↦ true | some _ ↦ false ]

-- The rows that meet a condition.
unfoldable pub select {ℓ} : {A : Type ℓ} → (A → Bool) → List A → List A
select p [] = []
select p (x ∷ l) = let rest = select p l in if p x then x ∷ rest else rest

-- `order_by(created_at)`
unfoldable pub insert_entry : Entry → List Entry → List Entry
insert_entry e [] = e ∷ []
insert_entry e (f ∷ l) =
    let rest = insert_entry e l in if ltb e.created_at f.created_at then e ∷ f ∷ l else f ∷ rest

unfoldable pub by_age : List Entry → List Entry
by_age [] = []
by_age (e ∷ l) = insert_entry e (by_age l)

-- The update of one outbox row after its publication, or after the failure of it.
abbrev pub delivered : ℕ → Option Error → Entry → Entry
delivered now none e = record e {
  dispatched_at = some now;
  attempts = e.attempts + 1;
  last_error = none;
}
delivered now (some x) e = record e { attempts = e.attempts + 1; last_error = some x }

unfoldable pub mark : ℕ → Entry → Option Error → Db → Db
mark now e outcome db = record db {
  outbox = update_where (λ (f : Entry). f.id == e.id) (delivered now outcome) db.outbox;
}

module _ (publish : Entry → Option Error) where
  -- The loop of `once`: it ends at the first entry that the transport refuses.
  unfoldable pub deliver : ℕ → List Entry → Db → Db
  deliver now [] db = db
  deliver now (e ∷ l) db = elim (publish e) [
    | some x ↦ mark now e (some x) db
    | none ↦ deliver now l (mark now e none db)
  ]

  -- `Dispatcher.once`
  unfoldable pub once : Tx ℕ
  once = do
    entries ← gets (λ db. take 100 (by_age (select is_undelivered db.outbox)))
    now ← ask (λ w. w.clock)
    modify (deliver now entries)
    pure (length entries)

unfoldable pub is_due : ℕ → Job → Bool
is_due now j =
    (j.status == "QUEUED" || j.status == "WAITING_RETRY" || j.status == "RUNNING")
    && leb j.not_before now
    && ltb j.lease_until now
    && not j.cancelled

unfoldable pub announce_all : List Job → Tx (Unit {0})
announce_all [] = pure tt
announce_all (j ∷ l) = do
  enqueue_outbox "task" j.idempotency_key (task_body j.task_id j.resource_class)
  announce_all l

-- `Dispatcher.requeue_due` (which 200 due rows the query takes is left open by the source: the oldest here)
unfoldable pub requeue_due : Tx (Unit {0})
requeue_due = do
  now ← ask (λ w. w.clock)
  due ← gets (λ db. take 200 (select (is_due now) (reverse db.jobs)))
  announce_all due
