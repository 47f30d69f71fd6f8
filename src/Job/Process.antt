-- ===== src/Job/Process.antt =====
-- Child processes: shell/process.c. A `struct mrsh_process *` is the index of the process in a store,
-- which a process never leaves; the array `processes` of the shell holds such pointers.
use mrsh.Base.{
  ℕ, ◌==◌, length, get_elem?, set, Bool, true, false, not, if◌then◌else◌, Outcome, ok, undefined,
  ◌>>=◌, ℤ, pos, negsuc, List, [], ◌∷◌, ◌++◌, Option, none, some,
}

abbrev pub task_wait : ℤ
task_wait = negsuc 0

abbrev pub task_stopped : ℤ
task_stopped = negsuc 2

-- What WIFEXITED, WIFSIGNALED, WIFSTOPPED and the macros beside them say of a status.
pub data WaitStatus : Type 0 where
  exited signaled stopped_by : ℕ → WaitStatus
  other : WaitStatus

pub record Process : Type 0 where
  pub pid : ℕ
  pub stopped : Bool
  pub terminated : Bool
  pub stat : ℕ
  pub signal : ℕ

-- The part of the shell's state that is about processes.
pub record Processes : Type 0 where
  pub store : List Process
  pub array : List ℕ

unfoldable pub process_create : Processes → ℕ → ℕ × Processes
process_create ps pid = (
  length ps.store,
  record {
    store =
        ps.store
        ++ record { pid = pid; stopped = false; terminated = false; stat = 0; signal = 0 } ∷ [];
    array = ps.array ++ length ps.store ∷ [];
  },
)

-- `array_remove` at the first element that is this pointer.
unfoldable pub remove_first : ℕ → List ℕ → List ℕ
remove_first a [] = []
remove_first a (b ∷ bs) = if b == a then bs else b ∷ remove_first a bs

unfoldable pub process_destroy : Processes → ℕ → Processes
unfolding remove_first
process_destroy ps proc = record ps { array = remove_first proc ps.array }

abbrev pub known {ℓ} : {A : Type ℓ} → Option A → Outcome A
known none = undefined
known (some a) = ok a

-- A pointer that is not in the store cannot be read.
unfoldable pub fetch : Processes → ℕ → Outcome Process
fetch ps proc = known (get_elem? ps.store proc)

unfoldable pub store_process : Processes → ℕ → Process → Processes
store_process ps proc p = record ps { store = set ps.store proc p }

-- The first process of the array that has this pid.
unfoldable pub find_pid : Processes → ℕ → List ℕ → Outcome (Option (ℕ × Process))
find_pid ps pid [] = ok none
find_pid ps pid (a ∷ as') = fetch ps a >>= λ p. elim (p.pid == pid) [
  | true ↦ ok (some (a, p))
  | false ↦ find_pid ps pid as'
]

-- The macros of sys/wait.h, on a status that `waitpid` gave.
module _ (decode : ℕ → WaitStatus) where
  exit_status : WaitStatus → Outcome ℤ
  exit_status (exited code) = ok (pos code)
  exit_status (signaled sig) = ok (pos 129)
  exit_status (stopped_by sig) = undefined
  exit_status other = undefined

  unfoldable pub process_poll : Process → Outcome ℤ
  unfolding exit_status
  process_poll proc =
      if proc.stopped
      then ok task_stopped
      else (if not proc.terminated then ok task_wait else exit_status (decode proc.stat))

  updated : Process → ℕ → WaitStatus → Outcome Process
  updated proc stat (exited code) = ok (record proc { terminated = true; stat = stat })
  updated proc stat (signaled sig) = ok (record proc { terminated = true; stat = stat })
  updated proc stat (stopped_by sig) = ok (record proc { stopped = true; signal = sig })
  updated proc stat other = undefined

  unfoldable pub update_process : Processes → ℕ → ℕ → Outcome Processes
  unfolding updated find_pid fetch store_process
  update_process ps pid stat = find_pid ps pid ps.array >>= λ found. elim found [
    | none ↦ ok ps
    | some r ↦ updated r.1 stat (decode stat) >>= λ p. ok (store_process ps r.0 p)
  ]
