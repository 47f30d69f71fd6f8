-- ===== src/Job/Table.antt =====
-- The table of jobs: creation, destruction and status, from shell/job.c. A `struct mrsh_job *` is the
-- `job_id`, which no other job of the table has. Terminal modes are left out.
use mrsh.Base.{
  ℕ, ◌+◌, ◌==◌, ltb, ◌||◌, Bool, true, false, if◌then◌else◌, Outcome, ok, ◌>>=◌, ℤ, pos, negsuc,
  eq_ℤ, List, [], ◌∷◌, ◌++◌, Option, none, some,
}
use mrsh.Ast.Node.{Node, node_copy}
use mrsh.Job.Process.{
  WaitStatus, Process, Processes, task_wait, task_stopped, fetch, process_poll, process_destroy,
}

-- `pgid` is -1 until the job has a process.
pub record Job : Type 0 where
  pub node : Node
  pub pgid : ℤ
  pub job_id : ℕ
  pub processes : List ℕ
  pub pending_notification : Bool
  pub last_status : ℤ

pub record Table : Type 0 where
  pub procs : Processes
  pub jobs : List Job
  pub foreground_job : Option ℕ
  pub job_control : Bool

unfoldable pub next_id : ℕ → List Job → ℕ
next_id id [] = id
next_id id (job ∷ jobs) = next_id (if ltb id (job.job_id + 1) then job.job_id + 1 else id) jobs

abbrev pub new_job : ℕ → Node → Job
new_job id node = record {
  node = node;
  pgid = negsuc 0;
  job_id = id;
  processes = [];
  pending_notification = false;
  last_status = task_wait;
}

unfoldable pub job_create : Table → Node → Outcome (Job × Table)
unfolding next_id
job_create t node = node_copy node >>= λ copy.
    let job = new_job (next_id 1 t.jobs) copy in ok (job, record t { jobs = t.jobs ++ job ∷ [] })

unfoldable pub find_job : ℕ → List Job → Option Job
find_job id [] = none
find_job id (job ∷ jobs) = if job.job_id == id then some job else find_job id jobs

unfoldable pub remove_job : ℕ → List Job → List Job
remove_job id [] = []
remove_job id (job ∷ jobs) = if job.job_id == id then jobs else job ∷ remove_job id jobs

-- The job with this id, after a change to it.
unfoldable pub put_job : Job → List Job → List Job
put_job new [] = []
put_job new (job ∷ jobs) = if job.job_id == new.job_id then new ∷ jobs else job ∷ put_job new jobs

abbrev pub store_job : Table → Job → Table
store_job t job = record t { jobs = put_job job t.jobs }

unfoldable pub destroy_all : List ℕ → Processes → Processes
unfolding process_destroy
destroy_all [] ps = ps
destroy_all (a ∷ as') ps = destroy_all as' (process_destroy ps a)

-- `set_pgid` says whether `setpgid` succeeds, or fails with EPERM. A job that is given a process
-- before it has a group takes the process's pid for it, whether `setpgid` succeeds or not.
unfoldable pub job_add_process : Bool → Table → Job → ℕ → Outcome Table
job_add_process set_pgid t job proc = fetch t.procs proc >>= λ p.
    let grouped = record job {
      pgid = elim job.pgid [ pos n ↦ if n == 0 then pos p.pid else pos n | negsuc n ↦ pos p.pid ];
    } in
    ok (
      store_job t
        (if set_pgid then record grouped { processes = job.processes ++ proc ∷ [] } else grouped))

module _ (decode : ℕ → WaitStatus) where
  -- The loop of `job_poll`, with the last status and whether a process was stopped.
  unfoldable pub poll_from : Processes → List ℕ → ℤ → Bool → Outcome ℤ
  unfolding fetch process_poll
  poll_from ps [] proc_status stopped = ok (if stopped then task_stopped else proc_status)
  poll_from ps (a ∷ as') proc_status stopped = fetch ps a >>= λ p.
      process_poll decode p >>= λ status. elim (eq_ℤ status task_wait) [
        | true ↦ ok task_wait
        | false ↦ poll_from ps as' status (stopped || eq_ℤ status task_stopped)
      ]

  unfoldable pub job_poll : Table → Job → Outcome ℤ
  unfolding poll_from
  job_poll t job = poll_from t.procs job.processes (pos 0) false

  -- The first process that is running.
  unfoldable pub running_process : Processes → List ℕ → Outcome (Option (ℕ × Process))
  unfolding fetch process_poll
  running_process ps [] = ok none
  running_process ps (a ∷ as') = fetch ps a >>= λ p. process_poll decode p >>= λ status.
      elim (eq_ℤ status task_wait) [ true ↦ ok (some (a, p)) | false ↦ running_process ps as' ]

  unfoldable pub job_get_running_process : Table → Job → Outcome (Option (ℕ × Process))
  unfolding running_process
  job_get_running_process t job = running_process t.procs job.processes
