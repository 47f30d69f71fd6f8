-- ===== src/Parser/Arithm/RoundTrip.antt =====
-- The parser reads a printed expression back.
use mrsh.Base.{
  ℕ, zero, suc, ◌<◌, ◌≡◌, refl, inl, [], ◌∷◌, ◌++◌, Option, some, Text, arith, length,
  length-append, ℤ,
}
use mrsh.Arithm.Syntax.{Expr, literal, variable, unop, binop, cond, assign, UnopType}
use mrsh.Builtin.Control.{Strtol}
use mrsh.Parser.Input.{parsed}
use mrsh.Parser.Arithm.Entry.{arithm_expr}
use mrsh.Parser.Arithm.Print.{unop_char, binop_text, assign_text, print, IsPrintable}
use mrsh.Parser.Arithm.Climbs.{ready}
use mrsh.Parser.Arithm.Operators.{Stops, stop_declines}
use mrsh.Parser.Arithm.Atoms.{term_unop}
use mrsh.Parser.Arithm.Reads.{logical_or-term, logical_or-binop, assignment-none}
use mrsh.Parser.Arithm.Printed.{print-le}
use mrsh.Parser.Arithm.Forms.{
  opens, paren_term, plain, unop_opens, IsName-length, number_reads, name_reads, paren_reads,
  cond_reads, assign_reads,
}

module _ (digits : ℤ → Text) (strtol : Strtol) where
  pub reads :
      (e : Expr) (n : ℕ) (error : Option Text) (rest : Text)
      → IsPrintable digits strtol e
      → Stops rest
      → length (print digits e rest) < n
      → arithm_expr strtol n (ready error (print digits e rest))
        ≡ parsed (some e) (ready error rest)
  unfolding print IsPrintable
  reads e zero error rest h s b = absurd (omega arith)
  reads (literal v) (suc n) error rest h s b =
      number_reads digits strtol n error (digits v) rest v h.0 h.1 s
  reads (variable name) (suc n) error rest h s b = name_reads digits strtol n error name rest h s
  reads (unop type' e) (suc zero) error rest h s b = absurd (omega arith)
  reads (unop type' e) (suc (suc n)) error rest h s b =
      plain digits strtol (suc n) error (unop_char type') _ rest (unop type' e)
        (assignment-none _ error (unop_char type') _ (inl (unop_opens digits strtol type')))
        (logical_or-term strtol (suc n) _ _ (ready error rest) (unop type' e)
          (term_unop strtol (arithm_expr strtol (suc n)) error type' _ rest e (
            paren_reads digits strtol n error e rest h s
              (reads e n error (b')' ∷ rest) h refl (omega arith))))
          (stop_declines error rest s))
        s
  reads (binop type' l r) (suc zero) error rest h s b = absurd (omega arith)
  reads (binop type' l r) (suc (suc n)) error rest h s b =
      let tail = print digits r (b')' ∷ rest) in
      let middle = binop_text type' ++ (b'(' ∷ tail) in
      let left =
        paren_term digits strtol (suc n) error l middle h.0
          (reads l (suc n) error (b')' ∷ middle) h.0 refl (omega arith)) in
      let right = paren_term digits strtol (suc n) error r rest h.1 (
        reads r (suc n) error (b')' ∷ rest) h.1 refl (
          omega (
            arith,
            print-le digits strtol l (b')' ∷ middle),
            length-append (binop_text type') (b'(' ∷ tail),
          ))) in
      plain digits strtol (suc n) error b'(' _ rest (binop type' l r)
        (assignment-none _ error b'(' _ (inl (opens digits strtol)))
        (logical_or-binop strtol n _ error _ (ready error rest) tail type' l r left right
          (stop_declines error rest s))
        s
  reads (cond c a d) (suc zero) error rest h s b = absurd (omega arith)
  reads (cond c a d) (suc (suc n)) error rest h s b =
      let third = print digits d (b')' ∷ rest) in
      let second = print digits a (b')' ∷ b':' ∷ b'(' ∷ third) in
      cond_reads digits strtol n error c a d rest h s
        (reads c (suc n) error (b')' ∷ b'?' ∷ b'(' ∷ second) h.0 refl (omega arith))
        (reads a (suc n) error (b')' ∷ b':' ∷ b'(' ∷ third) h.1 refl
          (omega (arith, print-le digits strtol c (b')' ∷ b'?' ∷ b'(' ∷ second))))
        (reads d (suc n) error (b')' ∷ rest) h.2 refl (
          omega (
            arith,
            print-le digits strtol c (b')' ∷ b'?' ∷ b'(' ∷ second),
            print-le digits strtol a (b')' ∷ b':' ∷ b'(' ∷ third),
          )))
  reads (assign op name e) (suc n) error rest h s b =
      let tail = print digits e rest in
      assign_reads digits strtol n error op name tail rest e h.0 (
        reads e n error rest h.1 s (
          omega (
            arith,
            IsName-length digits strtol name h.0,
            length-append (assign_text op) tail,
            length-append name (assign_text op ++ tail),
          )))

  -- The operand of a unary operator is all that follows.
  pub unop_reads :
      (type' : UnopType) (e : Expr) (n : ℕ) (error : Option Text)
      → IsPrintable digits strtol e
      → length (print digits e []) < n
      → arithm_expr strtol (suc n) (ready error (unop_char type' ∷ print digits e []))
        ≡ parsed (some (unop type' e)) (ready error [])
  unop_reads type' e n error h b =
      plain digits strtol n error (unop_char type') (print digits e []) [] (unop type' e)
        (assignment-none _ error (unop_char type') _ (inl (unop_opens digits strtol type')))
        (logical_or-term strtol n _ _ (ready error []) (unop type' e)
          (term_unop strtol (arithm_expr strtol n) error type' (print digits e []) [] e
            (reads e n error [] h tt b))
          (stop_declines error [] tt))
        tt
