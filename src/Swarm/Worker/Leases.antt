-- ===== src/Swarm/Worker/Leases.antt =====
-- What a claim hands out: a lease that nobody can claim until it runs out, within the attempts that the
-- job has; and what a worker whose lease is another's by now can still do, which is nothing.
use da_swarm.Base.{
  ℕ, ◌+◌, String, ◌≡◌, ◌∙◌, inl, inr, Option, some, List, ◌∷◌, arith, ◌==◌, Bool-cases,
}
use da_swarm.Base.Table.{update_where}
use da_swarm.Swarm.Errors.{ok, Result-cases}
use da_swarm.Swarm.Json.{Value, Fields}
use da_swarm.Swarm.Database.{
  modify, Object, Edge, Job, Db, World, Tx, ◌>>=◌, ◌>>◌, pure, lift, ask, uid,
}
use da_swarm.Swarm.Database.Steps.{
  Triple, Keeps, Keeps-modify, Triple-bind, keeps_rules, Runs, Triple-Runs, Runs-bind,
}
use da_swarm.Swarm.Objects.{Source}
use da_swarm.Swarm.Service.{get, event, create, change, new_edge, link}
use da_swarm.Swarm.Worker.{
  milliseconds, update_job, transition, leased, announce, take_lease, enroll, hand_out, requeue,
}
use da_swarm.Swarm.Service.Events.{event-Logged}
use da_swarm.Swarm.Service.Writes.{Changed-same, change-Changed, create-Created}

-- Objects, edges and events change no job.
abbrev pub JobsAre : List Job → Db → Type 0
JobsAre js db = db.jobs ≡ js

module _ (js : List Job) where
  event-jobs :
      (kind : String) (o : Option Object) (source : Source) (payload : Fields)
      → Keeps (JobsAre js) (event kind o source payload)
  event-jobs kind o source payload = record {
    at = λ w db e ev db' h. ground (arith, event-Logged kind o source payload w db ev db' h);
  }

  change-jobs :
      (id : String) (version : ℕ) (source : Source) (event_type : String) (patch : Fields)
      → Keeps (JobsAre js) (change id version source event_type patch)
  change-jobs id version source event_type patch = record {
    at = λ w db e (new, ev) db' h.
        let c = change-Changed id version source event_type patch w db new ev db' h in
        c.logged.jobs ∙ e;
  }

  create-jobs :
      (kind title : String) (given : Value) (source : Source) (event_type id : Option String)
      → Keeps (JobsAre js) (create kind title given source event_type id)
  create-jobs kind title given source event_type id = record {
    at = λ w db e (new, ev) db' h.
        let c = create-Created kind title given source event_type id w db new ev db' h in
        c.logged.jobs ∙ e;
  }

  uid-jobs : Keeps (JobsAre js) uid
  unfolding uid
  uid-jobs = record { at = λ w db e a db' h. ground arith }

  pub get-jobs : (id : String) → Keeps (JobsAre js) (get id)
  unfolding get
  get-jobs id = search keeps_rules

  edge_added : (e : Edge) → Keeps (JobsAre js) (modify (λ db. record db { edges = e ∷ db.edges }))
  edge_added e = Keeps-modify _ (λ db h. h)

  link-jobs :
      (source target kind : String) (trace cause : Option String)
      → Keeps (JobsAre js) (link source target kind trace cause)
  unfolding link new_edge
  link-jobs source target kind trace cause =
      search (keeps_rules, get-jobs, uid-jobs, event-jobs, edge_added) depth 16

  announce-jobs :
      (worker : String) (source : Source) (payload : Fields)
      → Keeps (JobsAre js) (announce worker source payload)
  unfolding announce
  announce-jobs worker source payload = search (keeps_rules, get-jobs, event-jobs)

  change-same :
      (id : String) (version : ℕ) (source : Source) (event_type : String) (patch : Fields)
      → Triple
          (JobsAre js)
          (change id version source event_type patch)
          (λ r db. (db.jobs ≡ js) × (r.0.id ≡ id))
  change-same id version source event_type patch = record {
    at = λ w db e (new, ev) db' h.
        let c = change-Changed id version source event_type patch w db new ev db' h in
        (c.logged.jobs ∙ e, (Changed-same c).0);
  }

  -- A transition is one of the task's, and no other object's.
  pub transition-same :
      (job : Job) (at : Object × String) (status event_type : String)
      → Triple
          (JobsAre js)
          (transition job at status event_type)
          (λ r db. (db.jobs ≡ js) × (r.0.id ≡ at.0.id))
  unfolding transition pure
  transition-same job (task, cause) status event_type =
      Triple-bind _ _ (change-same task.id task.version _ event_type _)
        (λ r. record { at = λ w db p a db' h. ground arith })

  -- What `take_lease` hands out, and where it is kept.
  pub record Taken (w : World) (worker : String) (cfg : Fields) (job : Job) (id : String)
      (r : Option Job) (db' : Db) : Type 0 where
    pub seconds : ℕ
    pub token : String
    pub cause : String
    pub lease : milliseconds "lease_seconds" cfg ≡ ok seconds
    pub given : r ≡ some (leased job (w.clock + seconds) token worker cause)
    pub stored :
        db'.jobs
        ≡ update_where
            (λ (j : Job). j.task_id == id)
            (λ _. leased job (w.clock + seconds) token worker cause)
            js

  requeue-same :
      (job : Job) (at : Object × String)
      → Triple (JobsAre js) (requeue job at) (λ r db. (db.jobs ≡ js) × (r.0.id ≡ at.0.id))
  unfolding requeue pure
  requeue-same job (task, cause) = elim (Bool-cases (task.status == "WAITING_RETRY")) [
    | inl e ↦ rw e (transition-same job (task, cause) "QUEUED" "TASK_CREATED")
    | inr e ↦ rw e (record { at = λ w db p a db' h. ground arith })
  ]

  moved :
      (at : Object × String) (id : String) (job : Job) (status event_type : String)
      → Triple
          (λ db. (db.jobs ≡ js) × (at.0.id ≡ id))
          (transition job at status event_type)
          (λ r db. (db.jobs ≡ js) × (r.0.id ≡ id))
  moved at id job status event_type = record {
    at = λ w db p a db' h.
        let (e, i) = (transition-same job at status event_type).at w db p.0 a db' h in (e, i ∙ p.1);
  }

  kept :
      {A : Type 0} {m : Tx A} (at : Object × String) (id : String)
      → Keeps (JobsAre js) m
      → Triple (λ db. (db.jobs ≡ js) × (at.0.id ≡ id)) m (λ _ db. (db.jobs ≡ js) × (at.0.id ≡ id))
  kept at id k = record { at = λ w db p a db' h. (k.at w db p.0 a db' h, p.1) }

  enroll-jobs : (worker : String) (job : Job) → Keeps (JobsAre js) (enroll worker job)
  unfolding enroll
  enroll-jobs worker job = search (keeps_rules, create-jobs) depth 8

  hand_out-Taken :
      (w : World) (worker : String) (cfg : Fields) (job : Job) (id cause : String)
      → Runs w (JobsAre js) (hand_out worker cfg job id cause) (Taken w worker cfg job id)
  unfolding hand_out ◌>>=◌ ◌>>◌ lift uid ask modify pure update_job
  hand_out-Taken w worker cfg job id cause = record {
    at = λ db e r db' h. elim (Result-cases (milliseconds "lease_seconds" cfg)) [
      | inl (c, k) ↦ absurd (ground arith)
      | inr (s, k) ↦ record {
        seconds = s;
        token = w.uuid db.drawn;
        cause = cause;
        lease = k;
        given = ground arith;
        stored = ground arith;
      }
    ];
  }

  -- What precedes the lease moves no job, and runs on the same task.
  pub take_lease-Taken :
      (w : World) (worker : String) (cfg : Fields) (job : Job) (at : Object × String)
      → Runs w (JobsAre js) (take_lease worker cfg job at) (Taken w worker cfg job at.0.id)
  unfolding take_lease ◌>>◌
  take_lease-Taken w worker cfg job (task, cause) =
      Runs-bind w _ _ (Triple-Runs w _ (requeue-same job (task, cause))) (λ at.
        Runs-bind w _ _ (Triple-Runs w _ (moved at task.id job "CLAIMED" "TASK_CLAIMED"))
          (λ claimed.
            Runs-bind w _ _ (Triple-Runs w _ (moved claimed task.id job "RUNNING" "TASK_STARTED"))
              (λ running.
                Runs-bind w _ _ (Triple-Runs w _ (kept running task.id (enroll-jobs worker job)))
                  (λ _.
                    Runs-bind w _ _ (Triple-Runs w _ (kept running task.id (link-jobs _ _ _ _ _)))
                      (λ _.
                        Runs-bind w _ _
                          (Triple-Runs w _ (kept running task.id (announce-jobs _ _ _)))
                          (λ _. record {
                            at = λ db p r db' h. rw (p.1) at (
                                (hand_out-Taken w worker cfg job running.0.id running.1).at db p.0 r
                                  db' h);
                          }))))))
