-- ===== src/Arithm/Eval.antt =====
-- Evaluation of arithmetic expressions: shell/arithm.c. A call returns its outcome and the state it
-- leaves, also when it fails, since the assignments made by then stay. The `long *result` that C
-- passes down is a cell, `none` while nothing was written to it.
pub mod Purity
pub mod Frame
pub mod Results
use mrsh.Base.{
  ℕ, ◌+◌, ◌==◌, ◌&&◌, ◌||◌, Bool, true, false, not, if◌then◌else◌, Outcome, ok, failed, undefined,
  Option, none, some, Text, length, ℤ, pos, ◌+ℤ◌, ◌-ℤ◌, ◌*ℤ◌, neg_ℤ, eq_ℤ, ltb_ℤ, leb_ℤ,
}
use mrsh.Shell.{State, Variable, has_bit, opt_nounset, attrib_none, env_get, env_set}
use mrsh.Arithm.Syntax.{
  Expr, UnopType, BinopType, AssignOp, literal, variable, unop, binop, cond, assign,
}
use mrsh.Arithm.Long.{
  checked, of_bool, nonzero, long_div, long_rem, bitwise, complement, shift_left, shift_right,
}
use Prim.Native.Nat.{bit_and, bit_or, bit_xor}

abbrev pub M {ℓ} : Type ℓ → Type ℓ
M A = State → Outcome A × State

abbrev pub after {ℓ κ} :
    {A : Type ℓ} {B : Type κ} → Outcome A → State → (A → M B) → Outcome B × State
after (ok a) s f = f a s
after failed s f = (failed, s)
after undefined s f = (undefined, s)

infixl 5 ◌>>=◌
abbrev pub ◌>>=◌ {ℓ κ} : {A : Type ℓ} {B : Type κ} → M A → (A → M B) → M B
◌>>=◌ m f s = let (r, s') = m s in after r s' f

abbrev pub lift {ℓ} : {A : Type ℓ} → Outcome A → M A
lift r s = (r, s)

abbrev pub Cell : Type 0
Cell = Option ℤ

-- To read a cell that was not written is undefined.
abbrev pub read : Cell → M ℤ
read (some v) = lift (ok v)
read none = lift undefined

division : (ℤ → ℤ → Outcome ℤ) → ℤ → ℤ → Outcome ℤ
division f a b = if eq_ℤ b (pos 0) then failed else f a b

-- The `switch` of `run_arithm_binop`.
unfoldable pub apply_binop : BinopType → ℤ → ℤ → Outcome ℤ
unfolding division
apply_binop BinopType.asterisk left right = checked (left *ℤ right)
apply_binop BinopType.slash left right = division long_div left right
apply_binop BinopType.percent left right = division long_rem left right
apply_binop BinopType.plus left right = checked (left +ℤ right)
apply_binop BinopType.minus left right = checked (left -ℤ right)
apply_binop BinopType.dless left right = shift_left left right
apply_binop BinopType.dgreat left right = shift_right left right
apply_binop BinopType.less left right = ok (of_bool (ltb_ℤ left right))
apply_binop BinopType.lesseq left right = ok (of_bool (leb_ℤ left right))
apply_binop BinopType.great left right = ok (of_bool (ltb_ℤ right left))
apply_binop BinopType.greateq left right = ok (of_bool (leb_ℤ right left))
apply_binop BinopType.deq left right = ok (of_bool (eq_ℤ left right))
apply_binop BinopType.bangeq left right = ok (of_bool (not (eq_ℤ left right)))
apply_binop BinopType.and left right = ok (bitwise bit_and left right)
apply_binop BinopType.circ left right = ok (bitwise bit_xor left right)
apply_binop BinopType.or left right = ok (bitwise bit_or left right)
apply_binop BinopType.dand left right = ok (of_bool (nonzero left && nonzero right))
apply_binop BinopType.dor left right = ok (of_bool (nonzero left || nonzero right))

-- The `switch` of `run_arithm_unop`, on the body's cell and on the one that the caller passed.
unfoldable pub apply_unop : UnopType → Cell → Cell → M Cell
apply_unop UnopType.plus val result = lift (ok result)
apply_unop UnopType.minus val result = do
  v ← read val
  r ← lift (checked (neg_ℤ v))
  lift (ok (some r))
apply_unop UnopType.tilde val result = do v ← read val; lift (ok (some (complement v)))
apply_unop UnopType.bang val result = do v ← read val; lift (ok (some (of_bool (not (nonzero v)))))

unfoldable pub run_arithm_assign_op : AssignOp → ℤ → ℤ → Outcome ℤ
unfolding division
run_arithm_assign_op AssignOp.none' cur val = ok val
run_arithm_assign_op AssignOp.asterisk cur val = checked (cur *ℤ val)
run_arithm_assign_op AssignOp.slash cur val = division long_div cur val
run_arithm_assign_op AssignOp.percent cur val = division long_rem cur val
run_arithm_assign_op AssignOp.plus cur val = checked (cur +ℤ val)
run_arithm_assign_op AssignOp.minus cur val = checked (cur -ℤ val)
run_arithm_assign_op AssignOp.dless cur val = shift_left cur val
run_arithm_assign_op AssignOp.dgreat cur val = shift_right cur val
run_arithm_assign_op AssignOp.and cur val = ok (bitwise bit_and cur val)
run_arithm_assign_op AssignOp.circ cur val = ok (bitwise bit_xor cur val)
run_arithm_assign_op AssignOp.or cur val = ok (bitwise bit_or cur val)

-- From the C library: `strtod` with the conversion of its result to `long`, which is undefined out
-- of range, and the bytes that it read; `snprintf` with "%ld".
pub record Libc : Type 0 where
  pub strtod : Text → Outcome ℤ × ℕ
  pub format_long : ℤ → Text

module _ (libc : Libc) where
  number_of : Variable → Outcome (ℤ × ℕ)
  number_of var = elim (libc.strtod var.value).0 [
    | ok val ↦
        let end = (libc.strtod var.value).1 in
        if end == 0 || not (end == length var.value) then failed else ok (val, var.attribs)
    | failed ↦ failed
    | undefined ↦ undefined
  ]

  -- The value, and the attributes of the variable.
  unfoldable pub run_variable : State → Text → Outcome (ℤ × ℕ)
  unfolding number_of
  run_variable state name = elim (env_get state name) [
    | none ↦ if has_bit state.options opt_nounset then failed else ok (pos 0, attrib_none)
    | some var ↦ number_of var
  ]

  -- An assignment with `=` does not read the variable, and keeps no attribute of it.
  unfoldable pub current : AssignOp → State → Text → Outcome (ℤ × ℕ)
  unfolding run_variable
  current AssignOp.none' state name = ok (pos 0, attrib_none)
  current _ state name = run_variable state name

  unfoldable pub finish_assign : AssignOp → Text → ℤ → M Cell
  unfolding current run_arithm_assign_op
  finish_assign op name val = do
    (cur, attribs) ← λ s. (current op s name, s)
    result ← lift (run_arithm_assign_op op cur val)
    λ s. (ok (some result), env_set s name (libc.format_long result) attribs)

  unfoldable pub run_arithm_expr : Expr → Cell → M Cell
  run_arithm_expr (literal value) result s = (ok (some value), s)
  run_arithm_expr (variable name) result s = elim (run_variable s name) [
    | ok r ↦ (ok (some r.0), s)
    | failed ↦ (failed, s)
    | undefined ↦ (undefined, s)
  ]
  run_arithm_expr (unop type' body) result s =
      (run_arithm_expr body none >>= λ val. apply_unop type' val result) s
  run_arithm_expr (binop type' left right) result s =
      (run_arithm_expr left none >>= λ cl. run_arithm_expr right none >>= λ cr.
      read cl >>= λ l. read cr >>= λ r. lift (apply_binop type' l r) >>= λ v. lift (ok (some v)))
        s
  run_arithm_expr (cond condition body else_part) result s =
      (run_arithm_expr condition none >>= λ c. read c >>= λ v. λ s'. elim (nonzero v) [
        | true ↦ run_arithm_expr body result s'
        | false ↦ run_arithm_expr else_part result s'
      ])
        s
  run_arithm_expr (assign op name value) result s =
      (run_arithm_expr value none >>= λ c. read c >>= λ val. finish_assign op name val) s
