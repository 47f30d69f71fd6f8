-- ===== src/Tests/Arithmetic.antt =====
-- Arithmetic on concrete inputs, with a C library that reads and prints one decimal digit.
use mrsh.Base.{
  ℕ, ◌+◌, ◌-◌, ◌≡◌, refl, Outcome, ok, none, some, [], ◌∷◌, Text, text, ℤ, pos, negsuc, ◌+ℤ◌,
  str_eq, arith,
}
use mrsh.Shell.{State, state_create, env_get}
use mrsh.Shell.Env.{HasTables, state_create-HasTables}
use mrsh.Arithm.Syntax.{Expr, BinopType, AssignOp, literal, binop, assign}
use mrsh.Arithm.Long.{checked}
use mrsh.Arithm.Eval.{
  finish_assign, current, run_arithm_assign_op, Libc, run_arithm_expr, apply_binop,
}
use mrsh.Arithm.Eval.Purity.{run_arithm_expr-pure}
use mrsh.Arithm.Eval.Frame.{run_arithm_expr-Leaves, run_arithm_expr-assign}
use mrsh.Arithm.Eval.Results.{IsExact, run_arithm_expr-no_shortcut}

abbrev digit_of : Text → Outcome ℤ × ℕ
digit_of [] = (ok (pos 0), 0)
digit_of (c ∷ str) = (ok (pos (c - 48)), 1)

abbrev to_digit : ℤ → Text
to_digit (pos n) = (n + 48) ∷ []
to_digit (negsuc n) = b'-' ∷ (n + 49) ∷ []

abbrev libc : Libc
libc = record { strtod = digit_of; format_long = to_digit }

abbrev three : Expr
three = literal (pos 3)

abbrev x_gets_three : Expr
x_gets_three = assign AssignOp.none' (text "x") three

two_plus_three :
    (run_arithm_expr libc (binop BinopType.plus (literal (pos 2)) three) none state_create).0
    ≡ ok (some (pos 5))
unfolding run_arithm_expr apply_binop checked ◌+ℤ◌
two_plus_three = refl

run_arithm_expr-pure_example :
    (run_arithm_expr libc (binop BinopType.slash three (literal (pos 0))) none state_create).1
    ≡ state_create
run_arithm_expr-pure_example =
    run_arithm_expr-pure libc (binop BinopType.slash three (literal (pos 0))) none state_create
      (tt, tt)

run_arithm_expr-Leaves_example :
    HasTables (run_arithm_expr libc x_gets_three none state_create).1
    × (env_get (run_arithm_expr libc x_gets_three none state_create).1 (text "y")
        ≡ env_get state_create (text "y"))
run_arithm_expr-Leaves_example =
    run_arithm_expr-Leaves libc x_gets_three none state_create (text "y")
      (unfold str_eq in refl, tt) state_create-HasTables

three_runs : run_arithm_expr libc three none state_create ≡ (ok (some (pos 3)), state_create)
unfolding run_arithm_expr
three_runs = refl

zero_runs :
    run_arithm_expr libc (literal (pos 0)) none state_create ≡ (ok (some (pos 0)), state_create)
unfolding run_arithm_expr
zero_runs = refl

run_arithm_expr-assign_example :
    ((run_arithm_expr libc x_gets_three none state_create).0 ≡ ok (some (pos 3)))
    × (env_get (run_arithm_expr libc x_gets_three none state_create).1 (text "x")
        ≡ some (record { value = to_digit (pos 3); attribs = 0 }))
run_arithm_expr-assign_example =
    run_arithm_expr-assign libc (text "x") three none state_create state_create (pos 3) three_runs
      state_create-HasTables

abbrev with_three : State
with_three = (run_arithm_expr libc x_gets_three none state_create).1

x_runs : run_arithm_expr libc x_gets_three none state_create ≡ (ok (some (pos 3)), with_three)
unfolding run_arithm_expr finish_assign current run_arithm_assign_op
x_runs = refl

-- `0 && (x = 3)` and `3 || (x = 3)`
run_arithm_expr-no_shortcut_example :
    (run_arithm_expr libc (binop BinopType.dand (literal (pos 0)) x_gets_three) none state_create
      ≡ (ok (some (pos 0)), with_three))
    × (run_arithm_expr libc (binop BinopType.dor three x_gets_three) none state_create
        ≡ (ok (some (pos 1)), with_three))
run_arithm_expr-no_shortcut_example =
    run_arithm_expr-no_shortcut libc (literal (pos 0)) three x_gets_three none state_create
      state_create with_three 2 (pos 3) zero_runs three_runs x_runs

three-IsExact : IsExact libc (pos 3)
three-IsExact = record { reads = refl; whole = refl; digits = omega arith }
