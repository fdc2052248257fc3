-- ===== src/Swarm/Ledger/Writes.antt =====
-- The writes of `Service` keep the tables faithful to the ledger.
use da_swarm.Base.{
  ℕ, String, ◌≡◌, refl, Option, none, some, ◌∷◌, ◌==◌, arith, eq_iff, Option-cases, inl, inr, ◌&&◌,
  eqb, if◌then◌else◌,
}
use da_swarm.Base.Table.{find, find-cons, find-update_where, key-find}
use da_swarm.Swarm.Json.{Value, Fields}
use da_swarm.Swarm.Database.{Object, Edge, Job, task_body, Db, ◌>>=◌, ask, modify, uid}
use da_swarm.Swarm.Database.Steps.{
  Triple, Keeps, Keeps-pure, Keeps-raise, Keeps-modify, keeps_rules,
}
use da_swarm.Swarm.Objects.{Source, object_key}
use da_swarm.Swarm.Service.{
  get, event, enqueue_outbox, create, change, link, new_edge, settings, insert_job, new_job,
  schedule,
}
use da_swarm.Swarm.Service.Events.{event-Logged}
use da_swarm.Swarm.Service.Writes.{
  checked_update-id, change-Changed, create-Created, rewritten, with_object,
}
use da_swarm.Swarm.Ledger.{IsFaithful, IsFaithful-same, Logged-none, Logged-some}

-- Under the key of `change`'s write there is the new row, and under each other what was there.
find-rewritten :
    (id : String) (version : ℕ) (old new : Object) (db : Db) (k : String)
    → find object_key id db.objects ≡ some old
    → old.version ≡ version
    → new.id ≡ id
    → find object_key k (rewritten id version new db).objects
      ≡ (if new.id == k then some new else find object_key k db.objects)
find-rewritten id version old new db k found v e =
    let updated =
      find-update_where object_key (λ (o : Object). o.id == id && eqb o.version version)
        (λ (_ : Object). new) (λ o h. ground (arith, eq_iff o.id id)) k db.objects in
    elim (Option-cases (find object_key k db.objects)) [
      | inl none_there ↦ ground (arith, eq_iff new.id k)
      | inr (r, there) ↦
          ground (arith, key-find object_key k db.objects r there, eq_iff new.id k, eq_iff r.id id)
    ]

-- A patch changes neither the key nor the kind, so `change` writes under the key that it was given.
pub change-IsFaithful :
    (id : String) (version : ℕ) (source : Source) (event_type : String) (patch : Fields)
    → Keeps IsFaithful (change id version source event_type patch)
change-IsFaithful id version source event_type patch = record {
  at = λ w db f (new, ev) db' h.
      let c = change-Changed id version source event_type patch w db new ev db' h in
      let kept = checked_update-id w c.old version patch c.update c.applied in
      let at_key = key-find object_key id db.objects c.old c.found in
      Logged-some f
        (λ k. find-rewritten id version c.old new db k c.found kept.2 (ground (arith, c.result)))
        refl refl refl refl c.logged;
}

pub create-IsFaithful :
    (kind title : String) (given : Value) (source : Source) (event_type id : Option String)
    → Keeps IsFaithful (create kind title given source event_type id)
create-IsFaithful kind title given source event_type id = record {
  at = λ w db f (new, ev) db' h.
      let c = create-Created kind title given source event_type id w db new ev db' h in
      Logged-some {mid = with_object new (record db { drawn = c.drawn })} f
        (λ k. find-cons object_key k new db.objects) refl refl refl refl c.logged;
}

pub event-IsFaithful :
    (kind : String) (source : Source) (payload : Fields)
    → Keeps IsFaithful (event kind none source payload)
event-IsFaithful kind source payload = record {
  at = λ w db f ev db' h. Logged-none f (event-Logged kind none source payload w db ev db' h);
}

pub get-IsFaithful : (id : String) → Keeps IsFaithful (get id)
unfolding get
get-IsFaithful id = search keeps_rules

pub uid-IsFaithful : Keeps IsFaithful uid
unfolding uid
uid-IsFaithful = record {
  at = λ w db f id db' h.
      IsFaithful-same f (ground arith) (ground arith) (ground arith) (ground arith) (ground arith);
}

pub enqueue_task-IsFaithful :
    (topic key task resource : String)
    → Keeps IsFaithful (enqueue_outbox topic key (task_body task resource))
unfolding enqueue_outbox uid ◌>>=◌ ask modify
enqueue_task-IsFaithful topic key task resource = record {
  at = λ w db f u db' h.
      IsFaithful-same f (ground arith) (ground arith) (ground arith) (ground arith) (ground arith);
}

new_edge-IsFaithful :
    (source target kind : String) (trace cause : Option String)
    → Keeps IsFaithful (new_edge source target kind trace cause)
unfolding new_edge
new_edge-IsFaithful source target kind trace cause =
    search (keeps_rules, uid-IsFaithful, event-IsFaithful, edge_added) depth 8
  where
    edge_added : (e : Edge) → Keeps IsFaithful (modify (λ db. record db { edges = e ∷ db.edges }))
    edge_added e = Keeps-modify _ (λ db f. IsFaithful-same f refl refl refl refl refl)

pub link-IsFaithful :
    (source target kind : String) (trace cause : Option String)
    → Keeps IsFaithful (link source target kind trace cause)
unfolding link
link-IsFaithful source target kind trace cause =
    search (keeps_rules, get-IsFaithful, new_edge-IsFaithful) depth 8

pub settings-IsFaithful : Keeps IsFaithful settings
unfolding settings
settings-IsFaithful = search keeps_rules

job_added : (j : Job) → Keeps IsFaithful (modify (λ db. record db { jobs = j ∷ db.jobs }))
job_added j = Keeps-modify _ (λ db f. IsFaithful-same f refl refl refl refl refl)

insert_job-IsFaithful : (j : Job) → Keeps IsFaithful (insert_job j)
unfolding insert_job
insert_job-IsFaithful j = search (keeps_rules, job_added) depth 12

new_job-IsFaithful :
    (key kind : String) (obj : Object) (trace : String) (cause : Option String) (payload : Fields)
    (due : ℕ)
    → Keeps IsFaithful (new_job key kind obj trace cause payload due)
unfolding new_job
new_job-IsFaithful key kind obj trace cause payload due =
    search
      (
        keeps_rules, create-IsFaithful, settings-IsFaithful, insert_job-IsFaithful,
        enqueue_task-IsFaithful,
      )
      depth 12

pub schedule-IsFaithful :
    (kind : String) (obj : Object) (trace : String) (cause : Option String) (payload : Fields)
    (due : ℕ)
    → Keeps IsFaithful (schedule kind obj trace cause payload due)
unfolding schedule
schedule-IsFaithful kind obj trace cause payload due =
    search (keeps_rules, new_job-IsFaithful) depth 8

pub ruleset faithful_rules = (
  keeps_rules, get-IsFaithful, uid-IsFaithful, event-IsFaithful, create-IsFaithful,
  change-IsFaithful, link-IsFaithful, settings-IsFaithful, schedule-IsFaithful,
  enqueue_task-IsFaithful,
)
