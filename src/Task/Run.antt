-- ===== src/Task/Run.antt =====
-- The outcome of running a part of a program, and the statuses of include/shell/task.h.
use mrsh.Base.{◌%◌, ◌==◌, Bool, true, false, if◌then◌else◌, ℤ, pos, negsuc, eq_ℤ, ◌-ℤ◌, ◌+ℤ◌}
use mrsh.Shell.{State}

-- A status with the state that is left. `undefined` is an assertion that fails or a value that was
-- never set, and `out_of_fuel` has no counterpart in the program.
pub data Run : Type 0 where
  done : ℤ → State → Run
  undefined : Run
  out_of_fuel : Run

abbrev pub M : Type 0
M = State → Run

abbrev pub next : Run → (ℤ → M) → Run
next (done ret s) k = k ret s
next undefined k = undefined
next out_of_fuel k = out_of_fuel

infixl 5 ◌>>=◌
abbrev pub ◌>>=◌ : M → (ℤ → M) → M
◌>>=◌ m k s = next (m s) k

abbrev pub task_error : ℤ
task_error = negsuc 1

abbrev pub interrupted : ℤ
interrupted = negsuc 3

abbrev pub is_neg : ℤ → Bool
is_neg (pos n) = false
is_neg (negsuc n) = true

abbrev pub is_zero : ℤ → Bool
is_zero (pos n) = n == 0
is_zero (negsuc n) = false

-- `state->exit == -1`
abbrev pub running : State → Bool
running s = eq_ℤ s.exit (negsuc 0)

-- `!ret` on a status that is not negative.
abbrev pub negate : Bool → ℤ → ℤ
negate false ret = ret
negate true (pos n) = if n == 0 then pos 1 else pos 0
negate true (negsuc n) = negsuc n

abbrev pub set_nloops : State → ℤ → State
set_nloops s n = record s { frame = record (s.frame) { nloops = n } }

-- `++frame_priv->nloops` and `--frame_priv->nloops`.
unfoldable pub enter_loop : State → State
enter_loop s = set_nloops s (s.frame.nloops +ℤ pos 1)

unfoldable pub leave_loop : State → State
leave_loop s = set_nloops s (s.frame.nloops -ℤ pos 1)

-- `exit(code)` as the parent sees it: the low eight bits.
abbrev pub exit_code : ℤ → ℤ
exit_code (pos n) = pos (n % 256)
exit_code (negsuc n) = pos 127
