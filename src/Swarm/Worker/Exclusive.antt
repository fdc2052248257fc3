-- ===== src/Swarm/Worker/Exclusive.antt =====
-- Two claims: the first one's lease keeps the second from the same task until it runs out
-- (backend/app/swarm/application/worker.py, `Worker.claim`).
use da_swarm.Base.{
  ℕ, ◌+◌, ◌≤◌, ◌<◌, String, ◌≡◌, refl, sym, ap, ◌∙◌, ◌≢◌, inl, inr, Bool, true, false, Option, none,
  some, List, [], ◌∷◌, arith, ◌==◌, eq_iff, leb, if◌then◌else◌, Bool-cases, Option-cases, All,
}
use da_swarm.Base.Table.{update_where, find, key-find}
use da_swarm.Swarm.Errors.{ok, Result-cases}
use da_swarm.Swarm.Json.{Fields}
use da_swarm.Swarm.Database.{
  Object, Job, Db, World, Tx, ◌>>=◌, ◌>>◌, pure, lift, gets, ask, if_found,
}
use da_swarm.Swarm.Database.Steps.{Triple, Triple-bind, Runs, Triple-Runs, Runs-bind}
use da_swarm.Swarm.Objects.{object_key}
use da_swarm.Swarm.Service.{get, settings}
use da_swarm.Swarm.Worker.{
  is_claimable, precedes, first_by, bury, leased, recover, chosen_job, claim_job, claim,
}
use da_swarm.Swarm.Configuration.{item, iterate, texts}
use da_swarm.Swarm.Worker.Leases.{JobsAre, get-jobs, transition-same, Taken, take_lease-Taken}

moved :
    (P : Job → Type 0) (p : Job → Bool) {x j : Job}
    → x ≡ j
    → P x × (p x ≡ true)
    → P j × (p j ≡ true)
moved P p e h = rw e at h

-- What the query selects is a row of the table that meets the condition.
pub first_by-All :
    (P : Job → Type 0) (p : Job → Bool) (l : List Job) (j : Job)
    → All P l
    → first_by p l ≡ some j
    → P j × (p j ≡ true)
unfolding first_by
first_by-All P p [] j a h = cc
first_by-All P p (x ∷ l) j (px, a) h = elim (Option-cases (first_by p l)) [
  | inl e ↦ elim (Bool-cases (p x)) [
    | inl t ↦ moved P p (ground arith) (px, t)
    | inr f ↦ absurd (ground arith)
  ]
  | inr (b, e) ↦
      let (pb, tb) = first_by-All P p l b a e in
      elim (Bool-cases (p x)) [
        | inl t ↦ elim (Bool-cases (precedes b x)) [
          | inl u ↦ moved P p (ground arith) (pb, tb)
          | inr u ↦ moved P p (ground arith) (px, t)
        ]
        | inr f ↦ moved P p (ground arith) (pb, tb)
      ]
]

-- After an update by key, every row with that key is the row written.
update_where-All :
    (id : String) (new : Job) (l : List Job)
    → All (λ j. j.task_id ≡ id → j ≡ new) (update_where (λ (j : Job). j.task_id == id) (λ _. new) l)
unfolding update_where
update_where-All id new [] = tt
update_where-All id new (x ∷ l) = (head, update_where-All id new l)
  where
    head :
        (if x.task_id == id then new else x).task_id ≡ id
        → (if x.task_id == id then new else x) ≡ new
    head = elim (Bool-cases (x.task_id == id)) [
      | inl e ↦ rw e (λ _. refl)
      | inr e ↦ λ h. absurd (ground (arith, eq_iff x.task_id id))
    ]

-- A transaction that hands out nothing, whatever it does.
abbrev HandsOutNone : Tx (Option Job) → Type 0
HandsOutNone m = Triple (λ _. Unit) m (λ r _. r ≡ none)

none-HandsOutNone : HandsOutNone (pure none)
unfolding pure
none-HandsOutNone = record { at = λ w db p a db' h. ground arith }

module _ {A : Type 0} where
  bind-HandsOutNone :
      (m : Tx A) (f : A → Tx (Option Job)) → ((a : A) → HandsOutNone (f a)) → HandsOutNone (m >>= f)
  bind-HandsOutNone m f h = Triple-bind m f (record { at = λ w db p a db' e. tt }) h

  then-HandsOutNone : (m : Tx A) (n : Tx (Option Job)) → HandsOutNone n → HandsOutNone (m >> n)
  unfolding ◌>>◌
  then-HandsOutNone m n h = bind-HandsOutNone m (λ _. n) (λ _. h)

-- A task that is buried is handed to nobody.
bury-none : (job : Job) (at : Object × String) → HandsOutNone (bury job at)
unfolding bury
bury-none job (task, cause) =
    search (none-HandsOutNone, bind-HandsOutNone, then-HandsOutNone) depth 8

get-id :
    (js : List Job) (id : String)
    → Triple (JobsAre js) (get id) (λ o db. (db.jobs ≡ js) × (o.id ≡ id))
unfolding get ◌>>=◌ lift gets
get-id js id = record {
  at = λ w db e o db' h.
      let found : find object_key id db.objects ≡ some o = ground arith in
      ((get-jobs js id).at w db e o db' h, key-find object_key id db.objects o found);
}

recover-same :
    (js : List Job) (job : Job) (task : Object)
    → Triple
        (λ db. (db.jobs ≡ js) × (task.id ≡ job.task_id))
        (recover job task)
        (λ r db. (db.jobs ≡ js) × (r.0.id ≡ job.task_id))
unfolding recover pure
recover-same js job task = elim (Bool-cases (job.status == "RUNNING")) [
  | inl e ↦ rw e (record {
    at = λ w db p a db' h.
        let (k, i) =
          (transition-same js job (task, job.causation_event_id) "WAITING_RETRY"
              "TASK_RETRY_SCHEDULED").at
            w db p.0 a db' h in
        (k, i ∙ p.1);
  })
  | inr e ↦ rw e (record { at = λ w db p a db' h. ground arith })
]

-- A claim that hands a job out: it had an attempt left, and its row is the lease.
pub record Leased (w : World) (worker : String) (cfg : Fields) (job : Job) (js : List Job)
    (r : Option Job) (db' : Db) : Type 0 where
  pub attempts : job.attempt < job.max_attempts
  pub taken : Taken js w worker cfg job job.task_id r db'

claim_job-Leased :
    (js : List Job) (w : World) (worker : String) (cfg : Fields) (job : Job)
    → Runs w
        (JobsAre js)
        (claim_job worker cfg job)
        (λ r db. r ≢ none → Leased w worker cfg job js r db)
unfolding claim_job
claim_job-Leased js w worker cfg job =
    Runs-bind w _ _ (Triple-Runs w _ (get-id js job.task_id)) (λ task.
      Runs-bind w _ _ (Triple-Runs w _ (recover-same js job task)) (λ at. record {
        at = λ db p r db' h some_job. elim (Bool-cases (leb job.max_attempts job.attempt)) [
          | inl e ↦ absurd (some_job ((bury-none job at).at w db tt r db' (rw e at h)))
          | inr e ↦ record {
            attempts = ground arith;
            taken =
                rw (p.1) at ((take_lease-Taken js w worker cfg job at).at db p.0 r db' (rw e at h));
          }
        ];
      }))

claim-opened :
    (worker : String) (task_id resource : Option String) (w : World) (db : Db) (r : Option Job)
    (db' : Db)
    → claim worker task_id resource w db ≡ ok (r, db')
    → (cfg : Fields) × (paused : List String) × (if_found
          (chosen_job w.clock paused task_id resource db.jobs)
          (claim_job worker cfg)
          (pure none)
          w
          db
        ≡ ok (r, db'))
unfolding claim settings ◌>>=◌ ◌>>◌ lift gets ask
claim-opened worker task_id resource w db r db' h = elim (Option-cases db.config) [
  | inl e ↦ absurd (ground arith)
  | inr (c, e) ↦ elim (Result-cases (item "paused_queues" c.settings)) [
    | inl (_, k) ↦ absurd (ground arith)
    | inr (v, k) ↦ elim (Result-cases (iterate v)) [
      | inl (_, l) ↦ absurd (ground arith)
      | inr (q, l) ↦ (c.settings, texts q, ground arith)
    ]
  ]
]

-- The row that a claim selects and what becomes of it.
record Claimed (worker : String) (task_id resource : Option String) (w : World) (db : Db)
    (r : Option Job) (db' : Db) : Type 0 where
  cfg : Fields
  paused : List String
  old : Job
  found : chosen_job w.clock paused task_id resource db.jobs ≡ some old
  leased : Leased w worker cfg old db.jobs r db'

claim-Claimed :
    (worker : String) (task_id resource : Option String) (w : World) (db : Db) (j : Job) (db' : Db)
    → claim worker task_id resource w db ≡ ok (some j, db')
    → Claimed worker task_id resource w db (some j) db'
unfolding if_found pure
claim-Claimed worker task_id resource w db j db' h =
    let (cfg, paused, e) = claim-opened worker task_id resource w db (some j) db' h in
    elim (Option-cases (chosen_job w.clock paused task_id resource db.jobs)) [
      | inl k ↦ absurd (ground arith)
      | inr (old, k) ↦ record {
        cfg = cfg;
        paused = paused;
        old = old;
        found = k;
        leased =
            (claim_job-Leased db.jobs w worker cfg old).at db refl (some j) db' (rw k at e)
              (λ n. absurd (cc));
      }
    ]

-- Whatever a claim hands out was claimable, had an attempt left and now runs under a fresh lease of the
-- worker, and the table holds it in place of the row that was selected, all other rows being as they were.
pub claim-lease :
    (worker : String) (task_id resource : Option String) (w : World) (db : Db) (j : Job) (db' : Db)
    → claim worker task_id resource w db ≡ ok (some j, db')
    → (paused : List String) × (old : Job) × (chosen_job w.clock paused task_id resource db.jobs
        ≡ some old)
      × (j.task_id ≡ old.task_id)
      × (j.attempt ≡ old.attempt + 1)
      × (j.attempt ≤ old.max_attempts)
      × (j.status ≡ "RUNNING")
      × (w.clock ≤ j.lease_until)
      × (j.worker_id ≡ some worker)
      × (db'.jobs ≡ update_where (λ (k : Job). k.task_id == j.task_id) (λ _. j) db.jobs)
claim-lease worker task_id resource w db j db' h =
    let c = claim-Claimed worker task_id resource w db j db' h in
    let t = c.leased.taken in
    let e : j ≡ leased c.old (w.clock + t.seconds) t.token worker t.cause = cc in
    (
      c.paused,
      c.old,
      c.found,
      ap (λ (k : Job). k.task_id) e,
      ap (λ (k : Job). k.attempt) e,
      omega (arith, ap (λ (k : Job). k.attempt) e, c.leased.attempts),
      ap (λ (k : Job). k.status) e,
      omega (arith, ap (λ (k : Job). k.lease_until) e),
      ap (λ (k : Job). k.worker_id) e,
      t.stored
          ∙ ap (λ (x : Job). update_where (λ (k : Job). k.task_id == x.task_id) (λ _. x) db.jobs)
              (sym e),
    )

-- A row that runs under a lease is not claimable before the lease has run out.
running-not_claimable :
    (t : ℕ) (paused : List String) (j : Job)
    → j.status ≡ "RUNNING"
    → t ≤ j.lease_until
    → is_claimable t paused j ≡ false
unfolding is_claimable
running-not_claimable t paused j e h = rw e (ground arith)

-- A second claim that runs on the tables as the first one left them, by any worker and however it filters,
-- takes another task, as long as the first lease has not run out by the clock of the second.
pub claim-exclusive :
    (a b : String) (at bt ar br : Option String) (w w' : World) (db : Db) (j k : Job)
    (db' db'' : Db)
    → claim a at ar w db ≡ ok (some j, db')
    → claim b bt br w' db' ≡ ok (some k, db'')
    → w'.clock ≤ j.lease_until
    → k.task_id ≢ j.task_id
claim-exclusive a b at bt ar br w w' db j k db' db'' h h' in_time same =
    let (_, _, _, _, _, _, running, _, _, stored) = claim-lease a at ar w db j db' h in
    let (paused, old, found, id, _, _, _, _, _, _) = claim-lease b bt br w' db' k db'' h' in
    let (is_lease, claimable) =
      first_by-All (λ r. r.task_id ≡ j.task_id → r ≡ j) _ db'.jobs old
        (rw stored (update_where-All j.task_id j db.jobs)) found in
    let e : old ≡ j = is_lease (sym id ∙ same) in
    let c : is_claimable w'.clock paused j ≡ true = rw (sym e) (ground (arith, claimable)) in
    ground (arith, running-not_claimable w'.clock paused j running in_time)
