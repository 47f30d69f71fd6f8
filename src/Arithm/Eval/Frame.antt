-- ===== src/Arithm/Eval/Frame.antt =====
-- The variables that an evaluation leaves alone, and those that it writes.
use mrsh.Base.{◌≡◌, refl, ◌∙◌, false, ok, none, some, Text, ℤ, str_eq, str_eq_refl}
use mrsh.Shell.{State, env_get, attrib_none}
use mrsh.Shell.Env.{HasTables, env_set-HasTables, env_get-set}
use mrsh.Arithm.Syntax.{Expr, AssignOp, assign}
use mrsh.Arithm.Eval.{
  ◌>>=◌, lift, Cell, Libc, current, run_arithm_assign_op, finish_assign, run_arithm_expr,
}
use mrsh.Arithm.Eval.Purity.{Assigns, Respects, bind-Respects, run_arithm_expr-Respects}

-- From valid tables to valid tables, with `q` reading as before.
abbrev pub Leaves : Text → State → State → Type 0
Leaves q s t = HasTables s → HasTables t × (env_get t q ≡ env_get s q)

Leaves-refl : (q : Text) (s : State) → Leaves q s s
Leaves-refl q s h = (h, refl)

Leaves-trans : (q : Text) (s t u : State) → Leaves q s t → Leaves q t u → Leaves q s u
Leaves-trans q s t u f g h = let (ht, e) = f h in let (hu, e') = g ht in (hu, e' ∙ e)

finish_assign-Leaves :
    (libc : Libc) (q : Text) (op : AssignOp) (name : Text) (val : ℤ)
    → str_eq q name ≡ false
    → Respects (Leaves q) (finish_assign libc op name val)
unfolding finish_assign
finish_assign-Leaves libc q op name val other =
    bind-Respects (Leaves q) (Leaves-refl q) (Leaves-trans q) (λ s. (current libc op s name, s)) _
      (Leaves-refl q)
      λ r.
        bind-Respects (Leaves q) (Leaves-refl q) (Leaves-trans q)
          (lift (run_arithm_assign_op op r.0 val)) _ (Leaves-refl q)
          λ v s h. (env_set-HasTables s name _ r.1 h, env_get-set s name _ r.1 q h ∙ rw other)

-- In a state whose tables are valid, an evaluation, whatever its outcome, leaves the value and the
-- attributes of every variable that the expression does not assign to, and the tables stay valid.
pub run_arithm_expr-Leaves :
    (libc : Libc) (e : Expr) (c : Cell) (s : State) (q : Text)
    → Assigns (λ name. str_eq q name ≡ false) e
    → HasTables s
    → HasTables (run_arithm_expr libc e c s).1
      × (env_get (run_arithm_expr libc e c s).1 q ≡ env_get s q)
run_arithm_expr-Leaves libc e c s q h =
    run_arithm_expr-Respects (Leaves q) (Leaves-refl q) (Leaves-trans q) libc
      (λ name. str_eq q name ≡ false) (finish_assign-Leaves libc q) e c h s

-- `name=value`, once the value is there and the tables are valid, writes the value in decimal with
-- no attributes: an export or readonly attribute that the variable had is lost, and a readonly
-- variable is written.
pub run_arithm_expr-assign :
    (libc : Libc) (name : Text) (value : Expr) (c : Cell) (s t : State) (v : ℤ)
    → run_arithm_expr libc value none s ≡ (ok (some v), t)
    → HasTables t
    → ((run_arithm_expr libc (assign AssignOp.none' name value) c s).0 ≡ ok (some v))
      × (env_get (run_arithm_expr libc (assign AssignOp.none' name value) c s).1 name
          ≡ some (record { value = libc.format_long v; attribs = attrib_none }))
unfolding run_arithm_expr finish_assign
run_arithm_expr-assign libc name value c s t v e h =
    rw (e, ◌>>=◌) (refl, env_get-set t name _ _ name h ∙ rw (str_eq_refl name))
