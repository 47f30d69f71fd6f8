-- ===== src/Arithm/Eval/Purity.antt =====
-- What an evaluation can change: a relation between states that the assignments of an expression
-- keep, its evaluation keeps.
use mrsh.Base.{
  ℕ, ◌≡◌, refl, ◌∙◌, Bool, true, false, Outcome, ok, failed, undefined, none, some, Text, ℤ,
}
use mrsh.Shell.{State}
use mrsh.Arithm.Syntax.{Expr, UnopType, AssignOp, literal, variable, unop, binop, cond, assign}
use mrsh.Arithm.Long.{nonzero}
use mrsh.Arithm.Eval.{
  M, after, ◌>>=◌, lift, Cell, read, apply_unop, apply_binop, Libc, run_variable, finish_assign,
  run_arithm_expr,
}

-- `P` holds of every name that the expression assigns to.
abbrev pub Assigns {ℓ} : (Text → Type ℓ) → Expr → Type ℓ
Assigns P (literal value) = Unit
Assigns P (variable name) = Unit
Assigns P (unop type' body) = Assigns P body
Assigns P (binop type' left right) = Assigns P left × Assigns P right
Assigns P (cond condition body else_part) =
    Assigns P condition × Assigns P body × Assigns P else_part
Assigns P (assign op name value) = P name × Assigns P value

abbrev pub Respects {ℓ κ} : {A : Type ℓ} → (State → State → Type κ) → M A → Type κ
Respects R m = (s : State) → R s (m s).1

module _ {κ} (R : State → State → Type κ) (here : (s : State) → R s s)
    (then_ : (s t u : State) → R s t → R t u → R s u) where
  after-Respects {ℓ ℓ'} :
      {A : Type ℓ} {B : Type ℓ'} (f : A → M B) (r : Outcome A) (s t : State)
      → R s t
      → ((a : A) → Respects R (f a))
      → R s (after r t f).1
  after-Respects f (ok a) s t h k = then_ s t _ h (k a t)
  after-Respects f failed s t h k = h
  after-Respects f undefined s t h k = h

  pub bind-Respects {ℓ ℓ'} :
      {A : Type ℓ} {B : Type ℓ'} (m : M A) (f : A → M B)
      → Respects R m
      → ((a : A) → Respects R (f a))
      → Respects R (m >>= f)
  bind-Respects m f h k s = after-Respects f (m s).0 s (m s).1 (h s) k

  read-Respects : (c : Cell) → Respects R (read c)
  read-Respects none s = here s
  read-Respects (some v) s = here s

  apply_unop-Respects : (t : UnopType) (v c : Cell) → Respects R (apply_unop t v c)
  unfolding apply_unop
  apply_unop-Respects UnopType.plus v c = here
  apply_unop-Respects UnopType.minus v c =
      bind-Respects (read v) _ (read-Respects v) λ z. bind-Respects (lift _) _ here λ r. here
  apply_unop-Respects UnopType.tilde v c = bind-Respects (read v) _ (read-Respects v) λ z. here
  apply_unop-Respects UnopType.bang v c = bind-Respects (read v) _ (read-Respects v) λ z. here

  module _ {ℓ} (libc : Libc) (P : Text → Type ℓ)
      (assigned : (op : AssignOp) (name : Text) (val : ℤ)
        → P name
        → Respects R (finish_assign libc op name val)) where
    branch-Respects :
        (b : Bool) (x y : M Cell)
        → Respects R x
        → Respects R y
        → Respects {A = Cell} R (λ s. elim b [ true ↦ x s | false ↦ y s ])
    branch-Respects true x y hx hy = hx
    branch-Respects false x y hx hy = hy

    variable-Respects :
        (name : Text) (c : Cell) → Respects R (run_arithm_expr libc (variable name) c)
    unfolding run_arithm_expr
    variable-Respects name c s = go (run_variable libc s name)
      where
        go :
            (r : Outcome (ℤ × ℕ))
            → R s
                (elim r as (λ _. Outcome Cell × State) [
                  | ok r ↦ (ok (some r.0), s)
                  | failed ↦ (failed, s)
                  | undefined ↦ (undefined, s)
                ]).1
        go (ok r) = here s
        go failed = here s
        go undefined = here s

    pub run_arithm_expr-Respects :
        (e : Expr) (c : Cell) → Assigns P e → Respects R (run_arithm_expr libc e c)
    unfolding run_arithm_expr
    run_arithm_expr-Respects (literal value) c h s = here s
    run_arithm_expr-Respects (variable name) c h s = variable-Respects name c s
    run_arithm_expr-Respects (unop t body) c h s =
        bind-Respects (run_arithm_expr libc body none) _ (run_arithm_expr-Respects body none h)
          (λ v. apply_unop-Respects t v c) s
    run_arithm_expr-Respects (binop t left right) c h s =
        bind-Respects (run_arithm_expr libc left none) _ (run_arithm_expr-Respects left none h.0)
          (λ cl.
            bind-Respects (run_arithm_expr libc right none) _
              (run_arithm_expr-Respects right none h.1)
              λ cr. bind-Respects (read cl) _ (read-Respects cl) λ l.
                bind-Respects (read cr) _ (read-Respects cr)
                  λ r. bind-Respects (lift (apply_binop t l r)) _ here λ v. here)
          s
    run_arithm_expr-Respects (cond condition body else_part) c h s =
        bind-Respects (run_arithm_expr libc condition none) _
          (run_arithm_expr-Respects condition none h.0)
          (λ cc'. bind-Respects (read cc') _ (read-Respects cc') λ v.
            branch-Respects (nonzero v) _ _ (run_arithm_expr-Respects body c h.1)
              (run_arithm_expr-Respects else_part c h.2))
          s
    run_arithm_expr-Respects (assign op name value) c h s =
        bind-Respects (run_arithm_expr libc value none) _ (run_arithm_expr-Respects value none h.1)
          (λ cv. bind-Respects (read cv) _ (read-Respects cv) λ val. assigned op name val h.0) s

-- An expression without assignments leaves the state as it was, whether its evaluation succeeds,
-- fails or is undefined.
pub run_arithm_expr-pure :
    (libc : Libc) (e : Expr) (c : Cell) (s : State)
    → Assigns (λ _. ⊥) e
    → (run_arithm_expr libc e c s).1 ≡ s
run_arithm_expr-pure libc e c s h =
    run_arithm_expr-Respects (λ s t. t ≡ s) (λ s. refl) (λ s t u p q. q ∙ p) libc (λ _. ⊥)
      (λ op name val n. absurd n) e c h s
