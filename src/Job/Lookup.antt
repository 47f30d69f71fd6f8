-- ===== src/Job/Lookup.antt =====
-- Jobs by their names, and what is shown of them: `job_by_id` and `job_state_str` of shell/job.c.
use mrsh.Base.{
  ℕ, zero, suc, ◌==◌, leb, ◌&&◌, ◌||◌, Bool, true, false, not, if◌then◌else◌, Outcome, ok,
  undefined, ◌>>=◌, ℤ, pos, negsuc, eq_ℤ, List, [], ◌∷◌, ◌++◌, Option, none, some, Text, text,
  length,
}
use mathlib.Core.List.{reverse}
use mrsh.Task.Run.{task_error, is_neg}
use mrsh.Ast.Node.{node_format}
use mrsh.Builtin.Control.{Strtol, to_int}
use mrsh.Job.Process.{WaitStatus, task_wait, task_stopped, fetch}
use mrsh.Job.Table.{Job, Table, job_poll, find_job}

-- `strstr(str, part) == str`, and `strstr(str, part) != NULL`.
unfoldable pub starts_with : Text → Text → Bool
starts_with str [] = true
starts_with [] (c ∷ part) = false
starts_with (d ∷ str) (c ∷ part) = d == c && starts_with str part

unfoldable pub contains : Text → Text → Bool
unfolding starts_with
contains [] part = starts_with [] part
contains (d ∷ str) part = starts_with (d ∷ str) part || contains str part

unfoldable pub matching_job : (Text → Bool) → List Job → Option Job
unfolding node_format
matching_job matches [] = none
matching_job matches (job ∷ jobs) =
    if matches (node_format job.node) then some job else matching_job matches jobs

module _ (decode : ℕ → WaitStatus) where
  -- The job with this status that has `n` others before it in the list.
  unfoldable pub nth_with_status : Table → ℤ → ℕ → List Job → Outcome (Option Job)
  unfolding job_poll
  nth_with_status t wanted n [] = ok none
  nth_with_status t wanted n (job ∷ jobs) = job_poll decode t job >>= λ status.
      elim (eq_ℤ status wanted) [
        | false ↦ nth_with_status t wanted n jobs
        | true ↦ elim n [ zero ↦ ok (some job) | suc m ↦ nth_with_status t wanted m jobs ]
      ]

  -- The stopped jobs first, and then those that run, each from the last to the first.
  unfoldable pub recent_job : Table → ℕ → Outcome (Option Job)
  unfolding nth_with_status
  recent_job t n = nth_with_status t task_stopped n (reverse t.jobs) >>= λ found. elim found [
    | some job ↦ ok (some job)
    | none ↦ nth_with_status t task_wait n (reverse t.jobs)
  ]

  module _ (strtol : Strtol) where
    job_by_number : Table → Text → Option Job
    job_by_number t digits =
        let r = strtol digits in
        if not (r.end == length digits)
        then none
        else elim (to_int r.value) [ pos n ↦ find_job n t.jobs | negsuc n ↦ none ]

    -- `id` is what stands behind the `%`.
    named_job : Table → Text → Outcome (Option Job)
    unfolding job_by_number to_int find_job matching_job starts_with contains
    named_job t [] = ok none
    named_job t (c ∷ id) =
        if leb b'0' c && leb c b'9'
        then ok (job_by_number t (c ∷ id))
        else ok (
            matching_job (λ cmd. if c == b'?' then contains cmd id else starts_with cmd (c ∷ id))
              t.jobs)

    unfoldable pub job_by_id : Table → Text → Outcome (Option Job)
    unfolding recent_job named_job
    job_by_id t [] = ok none
    job_by_id t (p ∷ []) = ok none
    job_by_id t (p ∷ c ∷ []) =
        if not (p == b'%')
        then ok none
        else (if c == b'%' || c == b'+'
            then recent_job t 0
            else (if c == b'-' then recent_job t 1 else named_job t (c ∷ [])))
    job_by_id t (p ∷ c ∷ d ∷ id) = if not (p == b'%') then ok none else named_job t (c ∷ d ∷ id)

  -- The signal numbers SIGSTOP, SIGTTIN and SIGTTOU, and `snprintf` with "%d". `r` picks the word for
  -- a stopped job.
  module _ (sigstop sigttin sigttou : ℕ) (format_int : ℕ → Text) where
    stop_name : Bool → ℕ → Text
    stop_name r sig =
        (if r then text "Stopped" else text "Suspended")
        ++ (if sig == sigstop
            then text " (SIGSTOP)"
            else (if sig == sigttin
                then text " (SIGTTIN)"
                else (if sig == sigttou then text " (SIGTTOU)" else [])))

    stopped_str : Table → List ℕ → Bool → Outcome Text
    unfolding stop_name fetch
    stopped_str t [] r = ok (if r then text "Stopped" else text "Suspended")
    stopped_str t (a ∷ as') r = fetch t.procs a >>= λ p. ok (stop_name r p.signal)

    done_str : Table → List ℕ → Outcome Text
    unfolding fetch
    done_str t [] = ok (text "Done")
    done_str t (a ∷ as') = fetch t.procs a >>= λ p.
        if p.stat == 0
        then ok (text "Done")
        else ok (text "Done(" ++ (format_int p.stat ++ text ")"))

    unfoldable pub job_state_str : Table → Job → Bool → Outcome Text
    unfolding job_poll stopped_str done_str
    job_state_str t job r = job_poll decode t job >>= λ status.
        if eq_ℤ status task_wait
        then ok (text "Running")
        else (if eq_ℤ status task_error
            then ok (text "Error")
            else (if eq_ℤ status task_stopped
                then stopped_str t job.processes r
                else done_str t job.processes))

  sighup_groups : Table → List Job → Outcome (List ℤ)
  unfolding job_poll
  sighup_groups t [] = ok []
  sighup_groups t (job ∷ jobs) = job_poll decode t job >>= λ status.
      sighup_groups t jobs >>= λ rest. ok (if is_neg status then job.pgid ∷ rest else rest)

  -- The process groups that `broadcast_sighup_to_jobs` sends SIGHUP to, in order.
  unfoldable pub broadcast_sighup : Table → Outcome (List ℤ)
  unfolding sighup_groups
  broadcast_sighup t = if t.job_control then sighup_groups t t.jobs else undefined
