-- ===== src/Job/Wait.antt =====
-- Waiting for processes: `_job_wait` and its callers in shell/job.c. What `waitpid` answers, call by
-- call, is an input; a call that has no answer yet blocks the shell.
use mrsh.Base.{
  ℕ, zero, suc, ◌==◌, Bool, true, false, if◌then◌else◌, Outcome, ok, failed, undefined, ℤ, eq_ℤ,
  List, [], ◌∷◌, none, some,
}
use mrsh.Task.Run.{task_error}
use mrsh.Job.Process.{WaitStatus, task_wait, fetch, process_poll}
use mrsh.Job.Table.{Job, Table, find_job, job_poll, job_get_running_process}
use mrsh.Job.Control.{update_job}

-- A status for the pid asked for, 0, -1 with EINTR, or -1 with another error.
pub data Answer : Type 0 where
  status : ℕ → Answer
  no_status interrupted failure : Answer

-- A call that returns leaves the answers that it did not use. `aborted` is a failed assertion, and
-- `out_of_fuel` has no counterpart in the program.
pub data Waited {ℓ} (A : Type ℓ) : Type ℓ where
  returned : A → Table → List Answer → Waited A
  blocked aborted out_of_fuel : Waited A

abbrev pub when {ℓ κ} : {A : Type ℓ} {B : Type κ} → Outcome A → (A → Waited B) → Waited B
when (ok a) f = f a
when failed f = aborted
when undefined f = aborted

module _ (decode : ℕ → WaitStatus) (continues : ℤ → Bool) where
  -- `no_hang` says that the options have WNOHANG.
  unfoldable pub job_wait_pid : ℕ → Bool → Table → List Answer → Waited Bool
  unfolding update_job
  job_wait_pid pid no_hang t [] = blocked
  job_wait_pid pid no_hang t (interrupted ∷ answers) = job_wait_pid pid no_hang t answers
  job_wait_pid pid no_hang t (failure ∷ answers) = returned false t answers
  job_wait_pid pid no_hang t (no_status ∷ answers) =
      if no_hang then returned true t answers else aborted
  job_wait_pid pid no_hang t (status stat ∷ answers) =
      when (update_job decode continues t pid stat) (λ u. returned true u answers)

  -- The assertion `pid > 0` comes first; that the pid is not the shell's own is left out of it.
  unfoldable pub wait_pid : ℕ → Bool → Table → List Answer → Waited Bool
  unfolding job_wait_pid
  wait_pid pid no_hang t answers = if pid == 0 then aborted else job_wait_pid pid no_hang t answers

  abbrev pub after_wait {ℓ} :
      {A : Type ℓ} → Waited Bool → (Bool → Table → List Answer → Waited A) → Waited A
  after_wait (returned waited t answers) f = f waited t answers
  after_wait blocked f = blocked
  after_wait aborted f = aborted
  after_wait out_of_fuel f = out_of_fuel

  unfoldable pub job_wait_process : ℕ → ℕ → Table → List Answer → Waited ℤ
  unfolding fetch process_poll wait_pid
  job_wait_process zero proc t answers = out_of_fuel
  job_wait_process (suc fuel) proc t answers = when (fetch t.procs proc) (λ p.
      when (process_poll decode p) (λ ret. elim (eq_ℤ ret task_wait) [
        | false ↦ returned ret t answers
        | true ↦ after_wait (wait_pid p.pid false t answers) (λ waited u rest. elim waited [
          | true ↦ job_wait_process fuel proc u rest
          | false ↦ returned task_error u rest
        ])
      ]))

  -- The job is the one with this id in each round.
  unfoldable pub job_wait : ℕ → (Table → Job) → Table → List Answer → Waited ℤ
  unfolding job_poll job_get_running_process wait_pid
  job_wait zero job t answers = out_of_fuel
  job_wait (suc fuel) job t answers = when (job_poll decode t (job t)) (λ ret.
      elim (eq_ℤ ret task_wait) [
        | false ↦ returned ret t answers
        | true ↦ when (job_get_running_process decode t (job t)) (λ found. elim found [
          | none ↦ aborted
          | some r ↦ after_wait (wait_pid r.1.pid false t answers) (λ waited u rest. elim waited [
            | true ↦ job_wait fuel job u rest
            | false ↦ returned task_error u rest
          ])
        ])
      ])

  -- The rounds for these jobs, each as the rounds before it left it.
  unfoldable pub refresh_rounds : List Job → Table → List Answer → Waited Bool
  unfolding job_get_running_process wait_pid
  refresh_rounds [] t answers = returned true t answers
  refresh_rounds (old ∷ jobs) t answers = elim (find_job old.job_id t.jobs) [
    | none ↦ aborted
    | some job ↦ when (job_get_running_process decode t job) (λ found. elim found [
      | none ↦ refresh_rounds jobs t answers
      | some r ↦ after_wait (wait_pid r.1.pid true t answers) (λ waited u rest. elim waited [
        | true ↦ refresh_rounds jobs u rest
        | false ↦ returned false u rest
      ])
    ])
  ]

  unfoldable pub refresh_jobs_status : Table → List Answer → Waited Bool
  unfolding refresh_rounds
  refresh_jobs_status t answers = refresh_rounds t.jobs t answers
