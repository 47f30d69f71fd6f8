-- ===== src/Job/Control.antt =====
-- Foreground and background, and what a status of `waitpid` changes: shell/job.c.
use mrsh.Base.{
  ℕ, ◌==◌, ◌&&◌, ◌||◌, Bool, true, false, not, if◌then◌else◌, Outcome, ok, undefined, ◌>>=◌, ℤ, pos,
  negsuc, eq_ℤ, List, [], ◌∷◌, none, some,
}
use mrsh.Task.Run.{is_neg}
use mrsh.Job.Process.{
  WaitStatus, Processes, task_wait, task_stopped, fetch, store_process, update_process,
}
use mrsh.Job.Table.{Job, Table, job_poll, find_job, remove_job, store_job, destroy_all}

abbrev pub is_foreground : Table → Job → Bool
is_foreground t job = elim t.foreground_job [ none ↦ false | some id ↦ id == job.job_id ]

abbrev pub has_group : Job → Bool
has_group job = elim job.pgid [ pos n ↦ not (n == 0) | negsuc n ↦ false ]

-- `proc->stopped = false` for each process of a job that is continued.
unfoldable pub continue_all : Processes → List ℕ → Outcome Processes
unfolding fetch store_process
continue_all ps [] = ok ps
continue_all ps (a ∷ as') =
    fetch ps a >>= λ p. continue_all (store_process ps a (record p { stopped = false })) as'

-- `continues` says whether `kill(-pgid, SIGCONT)` succeeds.
module _ (decode : ℕ → WaitStatus) (continues : ℤ → Bool) where
  unfoldable pub job_queue_notification : Table → Job → Outcome Table
  unfolding job_poll
  job_queue_notification t job = job_poll decode t job >>= λ status. ok (
      store_job t (record job {
        pending_notification =
            job.pending_notification
            || (not (eq_ℤ status job.last_status) && (has_group job && not (is_foreground t job)));
        last_status = status;
      }))

  -- The two changes of the foreground job. The shell asserts that there was none when a job is put in
  -- the foreground.
  unfoldable pub move_job : Bool → Table → Job → Outcome Table
  move_job true t job = if is_foreground t job then ok t else elim t.foreground_job [
    | none ↦ ok (record t { foreground_job = some job.job_id })
    | some id ↦ undefined
  ]
  move_job false t job = ok (if is_foreground t job then record t { foreground_job = none } else t)

  unfoldable pub continue_job : Bool → Table → Job → Outcome (Bool × Table)
  unfolding continue_all job_queue_notification
  continue_job cont t job =
      if not cont
      then (job_queue_notification t job >>= λ u. ok (true, u))
      else (if continues job.pgid
          then (continue_all t.procs job.processes >>= λ ps.
              job_queue_notification (record t { procs = ps }) job >>= λ u. ok (true, u))
          else ok (false, t))

  unfoldable pub job_set_foreground : Table → Job → Bool → Bool → Outcome (Bool × Table)
  unfolding job_poll move_job continue_job
  job_set_foreground t job foreground cont =
      if not (has_group job)
      then undefined
      else (if not t.job_control
          then ok (false, t)
          else (job_poll decode t job >>= λ status. move_job foreground t job >>= λ u.
              continue_job (cont && eq_ℤ status task_stopped) u job))

  unfoldable pub job_destroy : Table → Job → Outcome Table
  unfolding job_set_foreground destroy_all
  job_destroy t job =
      (if is_foreground t job then job_set_foreground t job false false else ok (false, t)) >>= λ r.
      ok (record (r.1) {
        jobs = remove_job job.job_id r.1.jobs;
        procs = destroy_all job.processes r.1.procs;
      })

  -- One round of the loop of `update_job`.
  unfoldable pub update_one : Table → Job → Outcome Table
  unfolding job_poll job_queue_notification job_set_foreground
  update_one t job = job_poll decode t job >>= λ status.
      (if is_neg status then ok t else job_queue_notification t job) >>= λ u.
      if not (eq_ℤ status task_wait) && has_group job
      then elim (find_job job.job_id u.jobs) [
        | none ↦ undefined
        | some job' ↦ job_set_foreground u job' false false >>= λ r. ok r.1
      ]
      else ok u

  -- The rounds for these ids, each on the job as the rounds before it left it.
  unfoldable pub update_rounds : List Job → Table → Outcome Table
  unfolding update_one
  update_rounds [] t = ok t
  update_rounds (old ∷ rest) t = elim (find_job old.job_id t.jobs) [
    | none ↦ undefined
    | some job ↦ update_one t job >>= λ u. update_rounds rest u
  ]

  unfoldable pub update_job : Table → ℕ → ℕ → Outcome Table
  unfolding update_process update_rounds
  update_job t pid stat = update_process decode t.procs pid stat >>= λ ps.
      let u = record t { procs = ps } in if not t.job_control then ok u else update_rounds t.jobs u
