-- ===== src/Job/Laws/Wait.antt =====
-- Statuses that `waitpid` gives: what they make of a process, and that a wait for it ends.
use mrsh.Base.{
  ℕ, zero, suc, ◌≡◌, refl, ap, ◌∙◌, ◌⊎◌, ◌==◌, Bool, true, false, inl, inr, Outcome, ok, >>=-ok, ℤ,
  pos, List, [], ◌∷◌, ◌++◌, replicate, get_elem?, set, Option, none, some,
}
use mrsh.Job.Process.{
  WaitStatus, exited, Process, Processes, known, task_wait, task_stopped, fetch, find_pid,
  process_poll, store_process, update_process,
}
use mrsh.Job.Table.{Table}
use mrsh.Job.Control.{update_job}
use mrsh.Job.Wait.{Answer, status, interrupted, returned, job_wait_pid, wait_pid, job_wait_process}

get_elem?-set {ℓ} :
    {A : Type ℓ} (xs : List A) (i : ℕ) (v w : A)
    → get_elem? xs i ≡ some w
    → get_elem? (set xs i v) i ≡ some v
get_elem?-set [] i v w h = cc
get_elem?-set (x ∷ xs) zero v w h = refl
get_elem?-set (x ∷ xs) (suc i) v w h = get_elem?-set xs i v w h

known-ok {ℓ} : {A : Type ℓ} (o : Option A) (a : A) → known o ≡ ok a → o ≡ some a
known-ok none a h = cc
known-ok (some b) a h = cc

fetched : (ps : Processes) (a : ℕ) (p : Process) → fetch ps a ≡ ok p → get_elem? ps.store a ≡ some p
unfolding fetch
fetched ps a p h = known-ok _ p h

fetch-store :
    (ps : Processes) (a : ℕ) (p q : Process)
    → fetch ps a ≡ ok p
    → fetch (store_process ps a q) a ≡ ok q
unfolding fetch store_process
fetch-store ps a p q h = ap known (get_elem?-set ps.store a q p (fetched ps a p h))

first_or_later :
    (here : Bool) (b a : ℕ) (q p : Process) (rest : Outcome (Option (ℕ × Process)))
    → (elim here [ true ↦ ok (some (b, q)) | false ↦ rest ]) ≡ ok (some (a, p))
    → ((b ≡ a) × (q ≡ p)) ⊎ (rest ≡ ok (some (a, p)))
first_or_later true b a q p rest h = inl (cc, cc)
first_or_later false b a q p rest h = inr h

-- What `update_process` finds is the process that it changes.
find_pid-fetch :
    (ps : Processes) (pid : ℕ) (as' : List ℕ) (a : ℕ) (p : Process)
    → find_pid ps pid as' ≡ ok (some (a, p))
    → fetch ps a ≡ ok p
unfolding find_pid
find_pid-fetch ps pid [] a p h = cc
find_pid-fetch ps pid (b ∷ bs) a p h =
    let (q, e, k) = >>=-ok (fetch ps b) _ _ h in
    elim (first_or_later (q.pid == pid) b a q p (find_pid ps pid bs) k) [
      | inl first ↦ rw (← first.0) (e ∙ ap ok first.1)
      | inr later ↦ find_pid-fetch ps pid bs a p later
    ]

module _ (decode : ℕ → WaitStatus) where
  abbrev pub exit_of : Process → ℕ → Process
  exit_of p stat = record p { terminated = true; stat = stat }

  update_exited :
      (ps : Processes) (pid stat code a : ℕ) (p : Process)
      → decode stat ≡ exited code
      → find_pid ps pid ps.array ≡ ok (some (a, p))
      → update_process decode ps pid stat ≡ ok (store_process ps a (exit_of p stat))
  unfolding update_process
  update_exited ps pid stat code a p d f = rw f (rw d refl)

  -- When `waitpid` gives the exit status of a process that was stopped before, the process still polls
  -- as stopped: the status sets `terminated`, and `stopped`, which is tested first, stays.
  pub update_process-stopped :
      (ps : Processes) (pid stat code a : ℕ) (p : Process)
      → decode stat ≡ exited code
      → find_pid ps pid ps.array ≡ ok (some (a, p))
      → p.stopped ≡ true
      → (ps' : Processes) × (q : Process) × (update_process decode ps pid stat ≡ ok ps')
        × (fetch ps' a ≡ ok q)
        × (process_poll decode q ≡ ok task_stopped)
  unfolding process_poll
  update_process-stopped ps pid stat code a p d f s = (
    store_process ps a (exit_of p stat),
    exit_of p stat,
    update_exited ps pid stat code a p d f,
    fetch-store ps a p (exit_of p stat) (find_pid-fetch ps pid ps.array a p f),
    rw s refl,
  )

  poll_exited :
      (p : Process) (stat code : ℕ)
      → decode stat ≡ exited code
      → p.stopped ≡ false
      → process_poll decode (exit_of p stat) ≡ ok (pos code)
  unfolding process_poll
  poll_exited p stat code d s = rw (s, d)

  poll_running :
      (p : Process)
      → p.stopped ≡ false
      → p.terminated ≡ false
      → process_poll decode p ≡ ok task_wait
  unfolding process_poll
  poll_running p s r = rw (s, r)

module _ (decode : ℕ → WaitStatus) (continues : ℤ → Bool) where
  -- Interrupted calls of `waitpid` are made again.
  wait_interrupted :
      (k pid : ℕ) (no_hang : Bool) (t : Table) (answers : List Answer)
      → job_wait_pid decode continues pid no_hang t (replicate k interrupted ++ answers)
        ≡ job_wait_pid decode continues pid no_hang t answers
  unfolding job_wait_pid
  wait_interrupted zero pid no_hang t answers = refl
  wait_interrupted (suc k) pid no_hang t answers = wait_interrupted k pid no_hang t answers

  module _ (t : Table) (a stat code k : ℕ) (p : Process) (answers : List Answer) where
    abbrev pub reaped : Table
    reaped = record t { procs = store_process t.procs a (exit_of decode p stat) }

    reap :
        decode stat ≡ exited code
        → t.job_control ≡ false
        → find_pid t.procs p.pid t.procs.array ≡ ok (some (a, p))
        → job_wait_pid decode continues p.pid false t
            (replicate k interrupted ++ (status stat ∷ answers))
          ≡ returned true reaped answers
    unfolding job_wait_pid update_job
    reap d alone found =
        wait_interrupted k p.pid false t (status stat ∷ answers)
        ∙ rw (update_exited decode t.procs p.pid stat code a p d found) (rw alone refl)

    -- Without job control, a wait for a process that runs, whose pid is positive and the first of its
    -- kind in the array, ends with the exit status that `waitpid` gives after any number of
    -- interruptions, in two rounds of the loop.
    pub job_wait_process-exited :
        decode stat ≡ exited code
        → t.job_control ≡ false
        → (p.pid == 0) ≡ false
        → find_pid t.procs p.pid t.procs.array ≡ ok (some (a, p))
        → p.stopped ≡ false
        → p.terminated ≡ false
        → job_wait_process decode continues 2 a t
            (replicate k interrupted ++ (status stat ∷ answers))
          ≡ returned (pos code) reaped answers
    unfolding job_wait_process wait_pid
    job_wait_process-exited d alone pid found s r =
        let e : fetch t.procs a ≡ ok p = find_pid-fetch t.procs p.pid t.procs.array a p found in
        rw (e, poll_running decode p s r, pid, reap d alone found)
          (rw
            (fetch-store t.procs a p (exit_of decode p stat) e, poll_exited decode p stat code d s)
            refl)
