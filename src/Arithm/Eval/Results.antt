-- ===== src/Arithm/Eval/Results.antt =====
-- The values that expressions evaluate to.
use mrsh.Base.{
  ℕ, suc, ◌∙◌, ◌≡◌, refl, false, Outcome, ok, failed, undefined, none, some, Text, ℤ, pos, length,
  ◌≢◌, arith, ◌==◌, not, ◌||◌,
}
use mrsh.Shell.{State, env_get, attrib_none}
use mrsh.Shell.Env.{HasTables}
use mrsh.Arithm.Syntax.{Expr, UnopType, BinopType, AssignOp, variable, unop, binop, assign}
use mrsh.Arithm.Eval.{
  after, lift, ◌>>=◌, Cell, Libc, number_of, apply_binop, apply_unop, run_variable, run_arithm_expr,
}
use mrsh.Arithm.Eval.Frame.{run_arithm_expr-assign}

-- A result stored in the cell.
abbrev pub stored : Outcome ℤ → Outcome Cell
stored (ok v) = ok (some v)
stored failed = failed
stored undefined = undefined

-- When both operands of a binary operator evaluate, left before right, `&&` and `||` included, the
-- operator is applied to the two values, and the state is the one that the right operand leaves.
pub run_arithm_expr-binop :
    (libc : Libc) (type' : BinopType) (left right : Expr) (c : Cell) (s t u : State) (l r : ℤ)
    → run_arithm_expr libc left none s ≡ (ok (some l), t)
    → run_arithm_expr libc right none t ≡ (ok (some r), u)
    → run_arithm_expr libc (binop type' left right) c s ≡ (stored (apply_binop type' l r), u)
unfolding run_arithm_expr
run_arithm_expr-binop libc type' left right c s t u l r e f =
    rw (e, ◌>>=◌, f) (finish (apply_binop type' l r))
  where
    finish : (o : Outcome ℤ) → after o u (λ v. lift (ok (some v))) ≡ (stored o, u)
    finish (ok v) = refl
    finish failed = refl
    finish undefined = refl

-- `&&` evaluates its right operand also when the left one is 0, and `||` also when the left one is
-- not, here `suc k`: when left and right evaluate one after the other, `&&` is then 0 and `||` is 1, and
-- the state is the one that the right operand leaves, with the assignments in it.
pub run_arithm_expr-no_shortcut :
    (libc : Libc) (zero_left one_left right : Expr) (c : Cell) (s t u : State) (k : ℕ) (r : ℤ)
    → run_arithm_expr libc zero_left none s ≡ (ok (some (pos 0)), t)
    → run_arithm_expr libc one_left none s ≡ (ok (some (pos (suc k))), t)
    → run_arithm_expr libc right none t ≡ (ok (some r), u)
    → (run_arithm_expr libc (binop BinopType.dand zero_left right) c s ≡ (ok (some (pos 0)), u))
      × (run_arithm_expr libc (binop BinopType.dor one_left right) c s ≡ (ok (some (pos 1)), u))
unfolding apply_binop
run_arithm_expr-no_shortcut libc zero_left one_left right c s t u k r e e' f = (
  run_arithm_expr-binop libc BinopType.dand zero_left right c s t u (pos 0) r e f,
  run_arithm_expr-binop libc BinopType.dor one_left right c s t u (pos (suc k)) r e' f
      ∙ rw (nonzero_suc k) refl,
)
  where
    nonzero_suc : (k : ℕ) → (suc k == 0) ≡ false
    nonzero_suc k = ground arith

-- When the left operand fails the right one is not evaluated.
pub run_arithm_expr-binop_failed :
    (libc : Libc) (type' : BinopType) (left right : Expr) (c : Cell) (s t : State)
    → run_arithm_expr libc left none s ≡ (failed, t)
    → run_arithm_expr libc (binop type' left right) c s ≡ (failed, t)
unfolding run_arithm_expr
run_arithm_expr-binop_failed libc type' left right c s t e = rw (e, ◌>>=◌)

-- When both operands evaluate, a quotient or remainder by a right operand of value zero fails.
run_arithm_expr-by_zero :
    (libc : Libc) (left right : Expr) (c : Cell) (s t u : State) (l : ℤ)
    → run_arithm_expr libc left none s ≡ (ok (some l), t)
    → run_arithm_expr libc right none t ≡ (ok (some (pos 0)), u)
    → (run_arithm_expr libc (binop BinopType.slash left right) c s ≡ (failed, u))
      × (run_arithm_expr libc (binop BinopType.percent left right) c s ≡ (failed, u))
unfolding apply_binop
run_arithm_expr-by_zero libc left right c s t u l e f = (
  run_arithm_expr-binop libc _ left right c s t u l (pos 0) e f,
  run_arithm_expr-binop libc _ left right c s t u l (pos 0) e f,
)

-- A unary plus whose operand is evaluated succeeds and leaves the result that its caller passed
-- down unwritten.
pub run_arithm_expr-plus :
    (libc : Libc) (body : Expr) (c v : Cell) (s t : State)
    → run_arithm_expr libc body none s ≡ (ok v, t)
    → run_arithm_expr libc (unop UnopType.plus body) c s ≡ (ok c, t)
unfolding run_arithm_expr apply_unop
run_arithm_expr-plus libc body c v s t e = rw (e, ◌>>=◌)

-- What `strtod` and `snprintf` must do with a value for it to survive in a variable: every integer
-- of at most 53 bits does, as a `double` holds it.
pub record IsExact (libc : Libc) (v : ℤ) : Type 0 where
  pub reads : (libc.strtod (libc.format_long v)).0 ≡ ok v
  pub whole : (libc.strtod (libc.format_long v)).1 ≡ length (libc.format_long v)
  pub digits : length (libc.format_long v) ≢ 0

whole_read : (n : ℕ) → n ≢ 0 → ((n == 0) || not (n == n)) ≡ false
whole_read n h = ground arith

run_variable-exact :
    (libc : Libc) (s : State) (name : Text) (v : ℤ) (attribs : ℕ)
    → env_get s name ≡ some (record { value = libc.format_long v; attribs = attribs })
    → IsExact libc v
    → run_variable libc s name ≡ ok (v, attribs)
unfolding run_variable
run_variable-exact libc s name v attribs found exact =
    rw (found, run_variable)
      (rw (exact.reads, number_of) (rw (exact.whole, whole_read _ exact.digits)))

run_arithm_expr-variable :
    (libc : Libc) (name : Text) (c : Cell) (s : State) (r : ℤ × ℕ)
    → run_variable libc s name ≡ ok r
    → run_arithm_expr libc (variable name) c s ≡ (ok (some r.0), s)
unfolding run_arithm_expr
run_arithm_expr-variable libc name c s r e = rw (e, run_arithm_expr)

-- After `name=value`, where the value evaluates, the tables are valid and strtod reads its decimal
-- form back in full, the variable evaluates to the value assigned, and evaluating it changes
-- nothing.
pub variable-assign :
    (libc : Libc) (name : Text) (value : Expr) (c : Cell) (s t : State) (v : ℤ)
    → run_arithm_expr libc value none s ≡ (ok (some v), t)
    → HasTables t
    → IsExact libc v
    → let after_assign = (run_arithm_expr libc (assign AssignOp.none' name value) c s).1 in
      run_arithm_expr libc (variable name) c after_assign ≡ (ok (some v), after_assign)
variable-assign libc name value c s t v e h exact =
    let found = (run_arithm_expr-assign libc name value c s t v e h).1 in
    run_arithm_expr-variable libc name c _ (v, attrib_none)
      (run_variable-exact libc _ name v attrib_none found exact)
