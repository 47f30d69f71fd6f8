-- ===== src/Job/Laws/Status.antt =====
-- The status of a job, from those of its processes.
use mrsh.Base.{
  ℕ, ◌≡◌, ap, ◌∙◌, ◌||◌, Bool, true, false, Bool-cases, inl, inr, if◌then◌else◌, ok, ◌>>=◌, ℤ, pos,
  eq_ℤ, List, [], ◌∷◌, arith,
}
use mrsh.Job.Process.{WaitStatus, Process, Processes, task_wait, task_stopped, fetch, process_poll}
use mrsh.Job.Table.{Job, Table, poll_from, job_poll}

-- Whether a status is among these.
unfoldable pub any_is : ℤ → List ℤ → Bool
any_is wanted [] = false
any_is wanted (r ∷ rs) = eq_ℤ r wanted || any_is wanted rs

unfoldable pub last_of : ℤ → List ℤ → ℤ
last_of d [] = d
last_of d (r ∷ rs) = last_of r rs

-- The status of a job by the comments of include/shell/job.h: running if a process runs, or else
-- stopped if a process is stopped, or else the last process's status.
unfoldable pub combined : ℤ → Bool → List ℤ → ℤ
combined d stopped rs =
    if any_is task_wait rs
    then task_wait
    else (if stopped || any_is task_stopped rs then task_stopped else last_of d rs)

combined-cons :
    (r d : ℤ) (stopped : Bool) (rs : List ℤ)
    → eq_ℤ r task_wait ≡ false
    → combined r (stopped || eq_ℤ r task_stopped) rs ≡ combined d stopped (r ∷ rs)
unfolding combined any_is last_of
combined-cons r d stopped rs h = ground arith

combined_wait :
    (r d : ℤ) (stopped : Bool) (rs : List ℤ)
    → eq_ℤ r task_wait ≡ true
    → combined d stopped (r ∷ rs) ≡ task_wait
unfolding combined any_is last_of
combined_wait r d stopped rs h = rw h

module _ (decode : ℕ → WaitStatus) (ps : Processes) where
  -- These are the statuses that the processes poll to.
  abbrev pub HaveStatuses : List ℕ → List ℤ → Type 0
  HaveStatuses [] [] = Unit
  HaveStatuses (a ∷ as') (r ∷ rs) =
      ((p : Process) × (fetch ps a ≡ ok p) × (process_poll decode p ≡ ok r)) × HaveStatuses as' rs
  HaveStatuses _ _ = ⊥

  poll_from-combined :
      (as' : List ℕ) (rs : List ℤ) (d : ℤ) (stopped : Bool)
      → HaveStatuses as' rs
      → poll_from decode ps as' d stopped ≡ ok (combined d stopped rs)
  unfolding poll_from
  poll_from-combined [] [] d stopped h = unfold combined any_is last_of in ground arith
  poll_from-combined [] (r ∷ rs) d stopped h = elim h [ ]
  poll_from-combined (a ∷ as') [] d stopped h = elim h [ ]
  poll_from-combined (a ∷ as') (r ∷ rs) d stopped h =
      let ((p, e, f), rest) = h in
      elim (Bool-cases (eq_ℤ r task_wait)) [
        | inl runs ↦ rw (e, ◌>>=◌, f) (rw (runs, combined_wait r d stopped rs runs))
        | inr over ↦
            rw (e, ◌>>=◌, f)
              (rw over (
                poll_from-combined as' rs r (stopped || eq_ℤ r task_stopped) rest
                ∙ ap ok (combined-cons r d stopped rs over)))
      ]

-- A job runs if one of its processes runs; or else it is stopped if one of them is stopped; or else its
-- status is that of its last process, and 0 if it has none.
pub job_poll-combined :
    (decode : ℕ → WaitStatus) (t : Table) (job : Job) (rs : List ℤ)
    → HaveStatuses decode t.procs job.processes rs
    → job_poll decode t job ≡ ok (combined (pos 0) false rs)
unfolding job_poll
job_poll-combined decode t job rs h =
    poll_from-combined decode t.procs job.processes rs (pos 0) false h
