-- ===== src/Swarm/Worker/Endings.antt =====
-- `Worker.heartbeat`, `Worker.fence` and the two endings of `Worker.execute`
-- (backend/app/swarm/application/worker.py). What a task does (`prepare`, `apply`) is a parameter of the
-- ending that commits it.
use da_swarm.Base.{
  ℕ, ◌+◌, ◌*◌, ◌^◌, min, String, Bool, true, false, not, ◌&&◌, Option, none, some, ◌==◌, leb, eqb,
  if◌then◌else◌,
}
use da_swarm.Base.Table.{update_where, find, count_where}
use da_swarm.Swarm.Errors.{conflict, type_error, ok, err, require}
use da_swarm.Swarm.Json.{str, dict, end, field, set_field}
use da_swarm.Swarm.Database.{pure, modify, Job, Tx, ◌>>=◌, ◌>>◌, lift, gets, ask}
use da_swarm.Swarm.Objects.{job_task, by_worker}
use da_swarm.Swarm.Service.{get, create, change, settings}
use da_swarm.Swarm.Commands.Discovery.{as_fields}
use da_swarm.Swarm.Worker.{milliseconds, same_token, update_job}

-- Who holds the lease: the token of the claim, on a job that runs.
abbrev pub holds : Option String → Job → Bool
holds token j = same_token token j.lease_token && j.status == "RUNNING"

unfoldable pub heartbeat : Job → Tx Bool
heartbeat job = do
  cfg ← settings
  seconds ← lift (milliseconds "lease_seconds" cfg)
  now ← ask (λ w. w.clock)
  n ← gets (λ db.
      count_where
        (λ (j : Job). j.task_id == job.task_id && holds job.lease_token j && not j.cancelled)
        db.jobs)
  modify (λ db. record db {
    jobs =
        update_where
          (λ (j : Job). j.task_id == job.task_id && holds job.lease_token j && not j.cancelled)
          (λ (j : Job). record j { lease_until = now + seconds }) db.jobs;
  })
  pure (eqb n 1)

unfoldable pub current_job : String → Tx Job
current_job id = do
  row ← gets (λ db. find job_task id db.jobs)
  lift (elim row [ none ↦ err type_error | some j ↦ ok j ])

-- `Worker.fence`
unfoldable pub fence : Job → Tx (Unit {0})
fence job = do
  current ← current_job job.task_id
  now ← ask (λ w. w.clock)
  lift (
      require
        (holds job.lease_token current && not current.cancelled && leb now current.lease_until)
        conflict)

-- The task has succeeded: its status, and its job's.
unfoldable pub succeed : Job → Tx Bool
succeed job = do
  task ← get job.task_id
  change task.id task.version (by_worker (some job.trace_id) (some job.causation_event_id))
      "TASK_SUCCEEDED" (field "status" (str "SUCCEEDED") end)
  modify (update_job task.id (λ (j : Job). record j { status = "SUCCEEDED"; lease_until = 0 }))
  pure true

-- The ending of `execute` when the task was prepared: its effect and SUCCEEDED, or nothing at all if the
-- lease is another's by now.
unfoldable pub finish : Job → Tx (Unit {0}) → Tx Bool
finish job effect = do
  current ← current_job job.task_id
  if holds job.lease_token current && not current.cancelled
      then effect >> succeed job
      else pure false

-- `min(2 ** attempt, 60) + random()`, in milliseconds.
abbrev pub backoff : ℕ → ℕ → ℕ
backoff attempt jitter = min (2 ^ attempt) 60 * 1000 + jitter

-- The ending of `execute` when it raised: another try later, or DEAD_LETTER and an alert.
unfoldable pub fail : Job → String → Tx Bool
fail job error_class = do
  current ← current_job job.task_id
  if holds job.lease_token current
      then (do
        task ← get job.task_id
        old ← lift (as_fields task.metadata)
        (waiting, ev) ←
            change task.id task.version
              (by_worker (some job.trace_id) (some job.causation_event_id)) "TASK_RETRY_SCHEDULED"
              (field "status" (str "WAITING_RETRY")
                (field "metadata" (dict (set_field "last_error_class" (str error_class) old)) end))
        status ←
            if leb job.max_attempts job.attempt
            then (do
              change waiting.id waiting.version (by_worker (some job.trace_id) (some ev.event_id))
                  "TASK_DEAD_LETTERED" (field "status" (str "DEAD_LETTER") end)
              create "Alert" "Task exhausted retries"
                  (dict (field "task_id" (str task.id) (field "error_class" (str error_class) end)))
                  (by_worker (some job.trace_id) none) none none
              pure "DEAD_LETTER")
            else pure "WAITING_RETRY"
        now ← ask (λ w. w.clock)
        jitter ← ask (λ w. w.random)
        modify (
            update_job task.id (λ (j : Job). record j {
              status = status;
              lease_until = 0;
              not_before = now + backoff job.attempt jitter;
            }))
        pure false)
      else pure false
