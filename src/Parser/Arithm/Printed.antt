-- ===== src/Parser/Arithm/Printed.antt =====
-- The text of a printed expression: its length and its first byte.
use mrsh.Base.{◌≤◌, ◌≡◌, refl, [], ◌∷◌, ◌++◌, Text, arith, length, length-append, ℤ}
use mrsh.Arithm.Syntax.{
  Expr, literal, variable, unop, binop, cond, assign, plus, minus, tilde, bang,
}
use mrsh.Builtin.Control.{Strtol}
use mrsh.Word.Split.{isspace}
use mrsh.Parser.Arithm.Terms.{skip_space}
use mrsh.Parser.Arithm.Print.{binop_text, assign_text, IsName, IsNumber, print, IsPrintable}
use mrsh.Parser.Arithm.Atoms.{digit-facts, name-facts}

number_skip : (str rest : Text) → IsNumber str → skip_space (str ++ rest) ≡ str ++ rest
unfolding skip_space
number_skip [] rest n = elim n [ ]
number_skip (c ∷ str) rest n = rw (skip_space, (digit-facts c n.0).2) refl

name_skip : (str rest : Text) → IsName str → skip_space (str ++ rest) ≡ str ++ rest
unfolding skip_space
name_skip [] rest n = elim n [ ]
name_skip (c ∷ str) rest n = rw (skip_space, (name-facts c n.1.0).2) refl

module _ (digits : ℤ → Text) (strtol : Strtol) where
  pub print-le : (e : Expr) (rest : Text) → length rest ≤ length (print digits e rest)
  unfolding print
  print-le (literal v) rest = omega (arith, length-append (digits v) rest)
  print-le (variable name) rest = omega (arith, length-append name rest)
  print-le (unop type' e) rest = omega (arith, print-le e (b')' ∷ rest))
  print-le (binop type' l r) rest =
      let tail = b'(' ∷ print digits r (b')' ∷ rest) in
      omega (
        arith,
        print-le r (b')' ∷ rest),
        print-le l (b')' ∷ (binop_text type' ++ tail)),
        length-append (binop_text type') tail,
      )
  print-le (cond c a b) rest =
      let third = print digits b (b')' ∷ rest) in
      let second = print digits a (b')' ∷ b':' ∷ b'(' ∷ third) in
      omega (
        arith,
        print-le b (b')' ∷ rest),
        print-le a (b')' ∷ b':' ∷ b'(' ∷ third),
        print-le c (b')' ∷ b'?' ∷ b'(' ∷ second),
      )
  print-le (assign op name e) rest =
      let tail = print digits e rest in
      omega (
        arith,
        print-le e rest,
        length-append (assign_text op) tail,
        length-append name (assign_text op ++ tail),
      )

  -- No printed expression begins with white space.
  pub print-skip :
      (e : Expr) (rest : Text)
      → IsPrintable digits strtol e
      → skip_space (print digits e rest) ≡ print digits e rest
  unfolding print IsPrintable skip_space isspace
  print-skip (literal v) rest h = number_skip (digits v) rest h.0
  print-skip (variable name) rest h = name_skip name rest h
  print-skip (unop plus e) rest h = refl
  print-skip (unop minus e) rest h = refl
  print-skip (unop tilde e) rest h = refl
  print-skip (unop bang e) rest h = refl
  print-skip (binop type' l r) rest h = refl
  print-skip (cond c a b) rest h = refl
  print-skip (assign op name e) rest h = name_skip name (assign_text op ++ print digits e rest) h.0
