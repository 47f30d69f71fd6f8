-- ===== src/Builtin/Shift.antt =====
-- The utility `shift`: builtin/shift.c.
pub mod Laws
use mrsh.Base.{
  ℕ, zero, suc, ◌+◌, ◌-◌, ◌==◌, ◌||◌, not, ltb, leb, Bool, true, false, if◌then◌else◌, ℤ, pos,
  ltb_ℤ, negsuc, Text, List, [], ◌∷◌, length, get_or, set,
}
use mrsh.Task.Run.{is_neg}
use mrsh.Builtin.Control.{Strtol, to_int}

-- The positional parameters of the frame, as the addresses of their strings, which the list `freed`
-- shows the end of.
pub record Params : Type 0 where
  pub argv : List ℕ
  pub argc : ℕ
  pub freed : List ℕ

-- What `shift` changes: `exit` is -1 while the shell runs.
pub record Shifted : Type 0 where
  pub exit : ℤ
  pub interactive : Bool
  pub params : Params

-- One round of the loop. `n` is less than `argc`.
unfoldable pub shift_param : ℕ → ℕ → ℕ → Params → Params
shift_param n i j p =
    if leb j (p.argc - n)
    then record p { argv = set p.argv i (get_or p.argv j 0) }
    else record p { freed = get_or p.argv i 0 ∷ p.freed }

-- The loop, with the rounds that are left.
unfoldable pub shift_params : ℕ → ℕ → ℕ → ℕ → Params → Params
unfolding shift_param
shift_params zero n i j p = p
shift_params (suc rounds) n i j p = shift_params rounds n (suc i) (suc j) (shift_param n i j p)

fail_shift : Shifted → ℤ × Shifted
fail_shift s = (pos 1, if s.interactive then s else record s { exit = pos 1 })

-- What follows the reading of `n`.
unfoldable pub shift_by : ℤ → Shifted → ℤ × Shifted
unfolding fail_shift shift_params
shift_by (negsuc n) s = fail_shift s
shift_by (pos zero) s = (pos 0, s)
shift_by (pos (suc k)) s =
    let n = suc k in
    let p = s.params in
    if ltb (p.argc - 1) n
    then fail_shift s
    else (let q = shift_params (p.argc - (n + 1)) n 1 (n + 1) p in
        (pos 0, record s { params = record q { argc = q.argc - n } }))

-- The arguments begin with the name.
unfoldable pub builtin_shift : Strtol → List Text → Shifted → ℤ × Shifted
unfolding shift_by fail_shift to_int
builtin_shift strtol [] s = shift_by (pos 1) s
builtin_shift strtol (name ∷ []) s = shift_by (pos 1) s
builtin_shift strtol (name ∷ arg ∷ []) s =
    let r = strtol arg in
    if not (r.end == length arg) || r.errno then fail_shift s else shift_by (to_int r.value) s
builtin_shift strtol (name ∷ arg ∷ more ∷ args) s = (pos 1, s)
