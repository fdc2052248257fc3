-- ===== src/Swarm/Worker/Fencing.antt =====
-- Fencing (backend/app/swarm/application/worker.py, `Worker.fence`, `Worker.execute`): what a worker can
-- still do with a lease that another one holds by now.
use da_swarm.Base.{
  String, Bool, true, false, ◌≡◌, ◌≢◌, refl, sym, Option, none, some, arith, inl, inr, ◌==◌, eq_iff,
  Bool-cases, Option-cases,
}
use da_swarm.Base.Table.{find, find-none-All, key-find, find-update_where}
use da_swarm.Swarm.Errors.{ok, err, conflict}
use da_swarm.Swarm.Database.{Job, Db, World, Tx, ◌>>=◌, lift, gets, ask, pure}
use da_swarm.Swarm.Objects.{job_task}
use da_swarm.Swarm.Worker.{claim, same_token}
use da_swarm.Swarm.Worker.Exclusive.{claim-lease, first_by-All}
use da_swarm.Swarm.Worker.Endings.{holds, fence, finish, fail, current_job}

-- A worker whose lease is not the one in the table commits nothing: neither ending changes any table,
-- whatever the task's effect is, and the fence refuses.
stale-finish-fail :
    (job current : Job) (effect : Tx (Unit {0})) (error_class : String) (w : World) (db : Db)
    → find job_task job.task_id db.jobs ≡ some current
    → holds job.lease_token current ≡ false
    → (finish job effect w db ≡ ok (false, db))
      × (fail job error_class w db ≡ ok (false, db))
      × (fence job w db ≡ err conflict)
unfolding finish fail fence current_job ◌>>=◌ gets lift ask pure
stale-finish-fail job current effect error_class w db found stale =
    (ground arith, ground arith, ground arith)

-- A token is only held by its own value.
same_token_iff : (a b : Option String) → same_token a b ≡ true → a ≡ b
unfolding same_token
same_token_iff (some a) (some b) h = ground (arith, eq_iff a b)
same_token_iff none none h = refl
same_token_iff (some a) none h = cc
same_token_iff none (some b) h = cc

-- The row that the second holder's claim leaves.
claim-find :
    (worker : String) (task_id resource : Option String) (w : World) (db : Db) (j : Job) (db' : Db)
    → claim worker task_id resource w db ≡ ok (some j, db')
    → find job_task j.task_id db'.jobs ≡ some j
claim-find worker task_id resource w db j db' h =
    let (paused, old, found, id, _, _, _, _, _, stored) =
      claim-lease worker task_id resource w db j db' h in
    let there : find job_task j.task_id db.jobs ≢ none = λ n.
      (first_by-All (λ r. r.task_id ≢ j.task_id) _ db.jobs old
          (find-none-All job_task j.task_id db.jobs n) found).0
        (sym id) in
    let p : Job → Bool = λ k. k.task_id == j.task_id in
    let updated =
      find-update_where job_task p (λ _. j) (λ r e. ground (arith, eq_iff r.task_id j.task_id))
        j.task_id db.jobs in
    elim (Option-cases (find job_task j.task_id db.jobs)) [
      | inl e ↦ absurd (there e)
      | inr (r, e) ↦
          let k = key-find job_task j.task_id db.jobs r e in
          rw stored (ground (arith, updated, eq_iff r.task_id j.task_id))
    ]

-- Once another claim has taken a task, the worker that held it before commits nothing more of it: both of
-- its endings leave every table as it is, and its fence refuses, provided that its token differs.
pub claim-fences :
    (job : Job) (effect : Tx (Unit {0})) (error_class worker : String)
    (task_id resource : Option String) (w w' : World) (db : Db) (j : Job) (db' : Db)
    → claim worker task_id resource w db ≡ ok (some j, db')
    → job.task_id ≡ j.task_id
    → job.lease_token ≢ j.lease_token
    → (finish job effect w' db' ≡ ok (false, db'))
      × (fail job error_class w' db' ≡ ok (false, db'))
      × (fence job w' db' ≡ err conflict)
claim-fences job effect error_class worker task_id resource w w' db j db' h same differs =
    let found = claim-find worker task_id resource w db j db' h in
    stale-finish-fail job j effect error_class w' db' (rw same found)
      (elim (Bool-cases (holds job.lease_token j)) [
        | inl e ↦ absurd (differs (same_token_iff job.lease_token j.lease_token (ground arith)))
        | inr e ↦ e
      ])
