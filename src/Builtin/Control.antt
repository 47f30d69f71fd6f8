-- ===== src/Builtin/Control.antt =====
-- `break` and `continue` (builtin/break.c), `return` (builtin/return.c), `exit` (builtin/exit.c).
pub mod Laws
use mrsh.Base.{
  ℕ, suc, ◌+◌, ◌-◌, ◌%◌, ◌^◌, ◌==◌, ◌||◌, not, ltb, Bool, true, false, if◌then◌else◌, ℤ, pos,
  negsuc, ◌+ℤ◌, ◌-ℤ◌, ltb_ℤ, Text, text, List, [], ◌∷◌, str_eq, length,
}
use mrsh.Shell.{State, CallFrame, BranchControl, break, continue, return, exit}
use mrsh.Task.Run.{interrupted, set_nloops, is_neg}

-- `(int)n` for a `long`, modulo 2^32.
unfoldable pub to_int : ℤ → ℤ
to_int (pos n) = let m = n % 2 ^ 32 in if ltb m (2 ^ 31) then pos m else negsuc (2 ^ 32 - 1 - m)
to_int (negsuc n) = let m = n % 2 ^ 32 in if ltb m (2 ^ 31) then negsuc m else pos (2 ^ 32 - 1 - m)

-- From the C library: `strtol(str, &end, 10)`, its value, the bytes it read, and whether it set
-- `errno`.
abbrev pub Strtol : Type 0
Strtol = Text → record { value : ℤ; end : ℕ; errno : Bool }

abbrev pub is_null : Text → Bool
is_null [] = true
is_null (c ∷ str) = false

set_control : State → BranchControl → State
set_control s b = record s { frame = record (s.frame) { branch_control = b } }

-- The end of `builtin_break`, with the number that was read.
unfoldable pub break_loops : Text → ℤ → State → ℤ × State
unfolding set_control
break_loops name n s =
    let m = if ltb_ℤ s.frame.nloops n then s.frame.nloops else n in
    (
      interrupted,
      set_control (set_nloops s (s.frame.nloops -ℤ (m -ℤ pos 1)))
          (if str_eq name (text "break") then break else continue),
    )

module _ (strtol : Strtol) where
  -- The name is the first argument; a second one is the number of loops.
  unfoldable pub builtin_break : List Text → State → ℤ × State
  unfolding break_loops to_int
  builtin_break [] s = break_loops [] (pos 1) s
  builtin_break (name ∷ []) s = break_loops name (pos 1) s
  builtin_break (name ∷ arg ∷ []) s =
      let r = strtol arg in
      let n = to_int r.value in
      if not (r.end == length arg) || (is_null name || is_neg n)
      then (pos 1, s)
      else break_loops name n s
  builtin_break (name ∷ arg ∷ more ∷ args) s = (pos 1, s)

  unfoldable pub return_with : ℤ → State → ℤ × State
  unfolding set_control
  return_with n s =
      (interrupted, record (set_control (set_nloops s (pos 0)) return) { last_status = n })

  unfoldable pub builtin_return : List Text → State → ℤ × State
  unfolding return_with to_int
  builtin_return [] s = return_with (pos 0) s
  builtin_return (name ∷ []) s = return_with (pos 0) s
  builtin_return (name ∷ arg ∷ []) s =
      let r = strtol arg in
      let n = to_int r.value in
      if not (r.end == length arg) || (is_null name || (is_neg n || ltb_ℤ (pos 255) n))
      then (pos 1, s)
      else return_with n s
  builtin_return (name ∷ arg ∷ more ∷ args) s = (pos 1, s)

  exit_with : ℤ → State → ℤ × State
  unfolding set_control
  exit_with status s = (interrupted, record (set_control s exit) { exit = status })

  unfoldable pub builtin_exit : List Text → State → ℤ × State
  unfolding exit_with
  builtin_exit [] s = exit_with (pos 0) s
  builtin_exit (name ∷ []) s = exit_with (pos 0) s
  builtin_exit (name ∷ arg ∷ []) s =
      let r = strtol arg in
      if not (r.end == length arg) || (r.errno || (is_neg r.value || ltb_ℤ (pos 255) r.value))
      then (pos 1, s)
      else exit_with r.value s
  builtin_exit (name ∷ arg ∷ more ∷ args) s = (pos 1, s)
