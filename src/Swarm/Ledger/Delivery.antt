-- ===== src/Swarm/Ledger/Delivery.antt =====
-- The dispatcher keeps the tables faithful to the ledger.
use da_swarm.Base.{ℕ, Bool, Option, none, some, List, [], ◌∷◌, ◌==◌, ◌≡◌, refl, arith}
use da_swarm.Base.Table.{update_where}
use da_swarm.Swarm.Errors.{Error}
use da_swarm.Swarm.Database.{Entry, Job, Db, modify}
use da_swarm.Swarm.Database.Steps.{Keeps, Keeps-modify, Keeps-pure, Keeps-then}
use da_swarm.Swarm.Service.Events.{event_bodies}
use da_swarm.Swarm.Dispatcher.{delivered, mark, deliver, once, announce_all, requeue_due}
use da_swarm.Swarm.Ledger.{IsFaithful, IsFaithful-same}
use da_swarm.Swarm.Ledger.Writes.{faithful_rules, enqueue_task-IsFaithful}

update_where-event_bodies :
    (p : Entry → Bool) (now : ℕ) (o : Option Error) (l : List Entry)
    → event_bodies (update_where p (delivered now o) l) ≡ event_bodies l
unfolding update_where
update_where-event_bodies p now o [] = refl
update_where-event_bodies p now none (e ∷ l) =
    ground (arith, update_where-event_bodies p now none l)
update_where-event_bodies p now (some x) (e ∷ l) =
    ground (arith, update_where-event_bodies p now (some x) l)

mark-IsFaithful :
    (now : ℕ) (e : Entry) (o : Option Error) (db : Db)
    → IsFaithful db
    → IsFaithful (mark now e o db)
unfolding mark
mark-IsFaithful now e o db f =
    IsFaithful-same f refl refl refl (update_where-event_bodies (λ x. x.id == e.id) now o db.outbox)
      refl

deliver-IsFaithful :
    (publish : Entry → Option Error) (now : ℕ) (l : List Entry) (db : Db)
    → IsFaithful db
    → IsFaithful (deliver publish now l db)
unfolding deliver
deliver-IsFaithful publish now [] db f = f
deliver-IsFaithful publish now (e ∷ l) db f =
    outcome (publish e) (mark-IsFaithful now e none db f)
      (deliver-IsFaithful publish now l (mark now e none db))
  where
    outcome :
        (o : Option Error)
        → IsFaithful (mark now e none db)
        → (IsFaithful (mark now e none db)
            → IsFaithful (deliver publish now l (mark now e none db)))
        → IsFaithful (elim o [
          | some x ↦ mark now e (some x) db
          | none ↦ deliver publish now l (mark now e none db)
        ])
    outcome (some x) g k = mark-IsFaithful now e (some x) db f
    outcome none g k = k g

delivered_rows :
    (publish : Entry → Option Error) (now : ℕ) (l : List Entry)
    → Keeps IsFaithful (modify (deliver publish now l))
delivered_rows publish now l = Keeps-modify _ (deliver-IsFaithful publish now l)

pub once-IsFaithful : (publish : Entry → Option Error) → Keeps IsFaithful (once publish)
unfolding once
once-IsFaithful publish = search (faithful_rules, delivered_rows) depth 8

announce_all-IsFaithful : (l : List Job) → Keeps IsFaithful (announce_all l)
unfolding announce_all
announce_all-IsFaithful [] = Keeps-pure tt
announce_all-IsFaithful (j ∷ l) =
    Keeps-then _ _ (enqueue_task-IsFaithful _ _ _ _) (announce_all-IsFaithful l)

pub requeue_due-IsFaithful : Keeps IsFaithful requeue_due
unfolding requeue_due
requeue_due-IsFaithful = search (faithful_rules, announce_all-IsFaithful) depth 8
