-- ===== src/Parser/Arithm/Forms.antt =====
-- How `arithm_expr` reads each form of a printed expression, from what it reads the parts as.
use mrsh.Base.{
  ℕ, suc, ◌<◌, ◌≡◌, refl, inl, inr, [], ◌∷◌, ◌++◌, Option, none, some, Text, false, arith, length,
  ℤ,
}
use mrsh.Arithm.Syntax.{
  Expr, literal, variable, cond, assign, UnopType, AssignOp, plus, minus, tilde, bang,
}
use mrsh.Builtin.Control.{Strtol}
use mrsh.Parser.Input.{Parser, parsed, isdigit, is_name_char}
use mrsh.Parser.Arithm.Terms.{parse_term}
use mrsh.Parser.Arithm.Levels.{logical_or}
use mrsh.Parser.Arithm.Entry.{assignment, ternary, arithm_expr}
use mrsh.Parser.Arithm.Print.{unop_char, assign_text, IsName, IsNumber, print, IsPrintable}
use mrsh.Parser.Arithm.Climbs.{ready, Decline}
use mrsh.Parser.Arithm.Operators.{all_ops, Stops, qmark_declines, colon_declines, stop_declines}
use mrsh.Parser.Arithm.Atoms.{
  Stops-Ended_name, Stops-Ended_digit, term_paren, term_literal, term_variable,
}
use mrsh.Parser.Arithm.Reads.{
  logical_or-term, assignment-none, assignment-variable, assignment_reads, no_qmark, ternary_plain,
  ternary-cond,
}
use mrsh.Parser.Arithm.Printed.{print-skip}

module _ (digits : ℤ → Text) (strtol : Strtol) where
  pub opens : is_name_char b'(' ≡ false
  unfolding is_name_char isdigit
  opens = refl

  -- What follows is read as the operand in parentheses.
  pub paren_term :
      (n : ℕ) (error : Option Text) (e : Expr) (rest : Text)
      → IsPrintable digits strtol e
      → arithm_expr strtol n (ready error (print digits e (b')' ∷ rest)))
        ≡ parsed (some e) (ready error (b')' ∷ rest))
      → parse_term strtol (arithm_expr strtol n) (ready error (b'(' ∷ print digits e (b')' ∷ rest)))
        ≡ parsed (some e) (ready error rest)
  paren_term n error e rest h r =
      term_paren strtol (arithm_expr strtol n) error (print digits e (b')' ∷ rest)) rest e
        (print-skip digits strtol e (b')' ∷ rest) h) r

  -- An expression that is no assignment.
  from_ternary :
      (n : ℕ) (p q : Parser) (e : Expr)
      → assignment (arithm_expr strtol n) p ≡ parsed none p
      → ternary (suc n) (logical_or strtol (suc n) (arithm_expr strtol n)) p ≡ parsed (some e) q
      → arithm_expr strtol (suc n) p ≡ parsed (some e) q
  unfolding arithm_expr
  from_ternary n p q e a t = rw a t

  -- An expression that is no assignment and no ternary.
  pub plain :
      (n : ℕ) (error : Option Text) (c : ℕ) (str rest : Text) (e : Expr)
      → assignment (arithm_expr strtol n) (ready error (c ∷ str))
        ≡ parsed none (ready error (c ∷ str))
      → logical_or strtol (suc n) (arithm_expr strtol n) (ready error (c ∷ str))
        ≡ parsed (some e) (ready error rest)
      → Stops rest
      → arithm_expr strtol (suc n) (ready error (c ∷ str)) ≡ parsed (some e) (ready error rest)
  plain n error c str rest e a l s = from_ternary n (ready error (c ∷ str)) (ready error rest) e a (
      ternary_plain (logical_or strtol (suc n) (arithm_expr strtol n)) n (ready error (c ∷ str))
        error rest e l (no_qmark error rest s))

  -- An operand in parentheses with no operator behind it.
  operand_reads :
      (n : ℕ) (error : Option Text) (e : Expr) (rest : Text)
      → IsPrintable digits strtol e
      → Decline all_ops (ready error rest)
      → arithm_expr strtol n (ready error (print digits e (b')' ∷ rest)))
        ≡ parsed (some e) (ready error (b')' ∷ rest))
      → logical_or strtol
          (suc n)
          (arithm_expr strtol n)
          (ready error (b'(' ∷ print digits e (b')' ∷ rest)))
        ≡ parsed (some e) (ready error rest)
  operand_reads n error e rest h d r =
      logical_or-term strtol n (arithm_expr strtol n)
        (ready error (b'(' ∷ print digits e (b')' ∷ rest))) (ready error rest) e
        (paren_term n error e rest h r) d

  pub unop_opens : (type' : UnopType) → is_name_char (unop_char type') ≡ false
  unfolding is_name_char isdigit
  unop_opens plus = refl
  unop_opens minus = refl
  unop_opens tilde = refl
  unop_opens bang = refl

  pub IsName-length : (name : Text) → IsName name → 0 < length name
  IsName-length [] n = elim n [ ]
  IsName-length (c ∷ name) n = omega arith

  pub number_reads :
      (n : ℕ) (error : Option Text) (str rest : Text) (v : ℤ)
      → IsNumber str
      → strtol str ≡ record { value = v; end = length str; errno = false }
      → Stops rest
      → arithm_expr strtol (suc n) (ready error (str ++ rest))
        ≡ parsed (some (literal v)) (ready error rest)
  number_reads n error [] rest v h r s = elim h [ ]
  number_reads n error (c ∷ str) rest v h r s =
      plain n error c (str ++ rest) rest (literal v) (assignment-none _ error c _ (inr h.0))
        (logical_or-term strtol n _ _ (ready error rest) (literal v)
          (term_literal strtol (arithm_expr strtol n) error (c ∷ str) rest v h r
            (Stops-Ended_digit rest s))
          (stop_declines error rest s))
        s

  pub name_reads :
      (n : ℕ) (error : Option Text) (name rest : Text)
      → IsName name
      → Stops rest
      → arithm_expr strtol (suc n) (ready error (name ++ rest))
        ≡ parsed (some (variable name)) (ready error rest)
  name_reads n error [] rest h s = elim h [ ]
  name_reads n error (c ∷ name) rest h s =
      plain n error c (name ++ rest) rest (variable (c ∷ name))
        (assignment-variable _ error (c ∷ name) rest h s)
        (logical_or-term strtol n _ _ (ready error rest) (variable (c ∷ name))
          (term_variable strtol (arithm_expr strtol n) error (c ∷ name) rest h
            (Stops-Ended_name rest s))
          (stop_declines error rest s))
        s

  pub paren_reads :
      (n : ℕ) (error : Option Text) (e : Expr) (rest : Text)
      → IsPrintable digits strtol e
      → Stops rest
      → arithm_expr strtol n (ready error (print digits e (b')' ∷ rest)))
        ≡ parsed (some e) (ready error (b')' ∷ rest))
      → arithm_expr strtol (suc n) (ready error (b'(' ∷ print digits e (b')' ∷ rest)))
        ≡ parsed (some e) (ready error rest)
  paren_reads n error e rest h s r =
      plain n error b'(' (print digits e (b')' ∷ rest)) rest e
        (assignment-none _ error b'(' _ (inl opens))
        (operand_reads n error e rest h (stop_declines error rest s) r) s

  pub cond_reads :
      (n : ℕ) (error : Option Text) (c a d : Expr) (rest : Text)
      → IsPrintable digits strtol c × IsPrintable digits strtol a × IsPrintable digits strtol d
      → Stops rest
      → (let third = print digits d (b')' ∷ rest) in
          let second = print digits a (b')' ∷ b':' ∷ b'(' ∷ third) in
          (arithm_expr strtol (suc n) (ready error (print digits c (b')' ∷ b'?' ∷ b'(' ∷ second)))
            ≡ parsed (some c) (ready error (b')' ∷ b'?' ∷ b'(' ∷ second)))
          → arithm_expr strtol (suc n) (ready error second)
            ≡ parsed (some a) (ready error (b')' ∷ b':' ∷ b'(' ∷ third))
          → arithm_expr strtol (suc n) (ready error third)
            ≡ parsed (some d) (ready error (b')' ∷ rest))
          → arithm_expr strtol
              (suc (suc n))
              (ready error (b'(' ∷ print digits c (b')' ∷ b'?' ∷ b'(' ∷ second)))
            ≡ parsed (some (cond c a d)) (ready error rest))
  cond_reads n error c a d rest h s rc ra rd =
      let third = print digits d (b')' ∷ rest) in
      let second = print digits a (b')' ∷ b':' ∷ b'(' ∷ third) in
      let start = ready error (b'(' ∷ print digits c (b')' ∷ b'?' ∷ b'(' ∷ second)) in
      from_ternary (suc n) start (ready error rest) (cond c a d)
        (assignment-none (arithm_expr strtol (suc n)) error b'(' _ (inl opens))
        (ternary-cond (logical_or strtol (suc (suc n)) (arithm_expr strtol (suc n))) n start error
          (b'(' ∷ second) (b'(' ∷ third) rest c a d
          (operand_reads (suc n) error c (b'?' ∷ b'(' ∷ second) h.0 (qmark_declines error _) rc)
          (operand_reads (suc n) error a (b':' ∷ b'(' ∷ third) h.1 (colon_declines error _) ra)
          (operand_reads (suc n) error d rest h.2 (stop_declines error rest s) rd) s)

  pub assign_reads :
      (n : ℕ) (error : Option Text) (op : AssignOp) (name str rest : Text) (e : Expr)
      → IsName name
      → arithm_expr strtol n (ready error str) ≡ parsed (some e) (ready error rest)
      → arithm_expr strtol (suc n) (ready error (name ++ (assign_text op ++ str)))
        ≡ parsed (some (assign op name e)) (ready error rest)
  unfolding arithm_expr
  assign_reads n error op name str rest e h r =
      rw (assignment_reads (arithm_expr strtol n) error name str op e (ready error rest) h r) refl
