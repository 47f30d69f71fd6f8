-- ===== src/Parser/Arithm/Print.antt =====
-- A text for each arithmetic expression, which the parser is to read back: every operand in
-- parentheses. `digits` writes the literals.
use mrsh.Base.{ℕ, ◌≡◌, Bool, true, false, ℤ, [], ◌∷◌, ◌++◌, Text, text, length}
use mrsh.Arithm.Syntax.{
  Expr, literal, variable, unop, binop, cond, assign, UnopType, BinopType, AssignOp, asterisk,
  slash, percent, dless, dgreat, less, lesseq, great, greateq, deq, bangeq, and, circ, or, dand,
  dor, tilde, bang,
}
use mrsh.Builtin.Control.{Strtol}
use mrsh.Parser.Input.{isdigit, is_name_char}

abbrev pub unop_char : UnopType → ℕ
unop_char UnopType.plus = b'+'
unop_char UnopType.minus = b'-'
unop_char tilde = b'~'
unop_char bang = b'!'

abbrev pub binop_text : BinopType → Text
binop_text asterisk = text "*"
binop_text slash = text "/"
binop_text percent = text "%"
binop_text BinopType.plus = text "+"
binop_text BinopType.minus = text "-"
binop_text dless = text "<<"
binop_text dgreat = text ">>"
binop_text less = text "<"
binop_text lesseq = text "<="
binop_text great = text ">"
binop_text greateq = text ">="
binop_text deq = text "=="
binop_text bangeq = text "!="
binop_text and = text "&"
binop_text circ = text "^"
binop_text or = text "|"
binop_text dand = text "&&"
binop_text dor = text "||"

abbrev pub assign_text : AssignOp → Text
assign_text AssignOp.none' = text "="
assign_text AssignOp.asterisk = text "*="
assign_text AssignOp.slash = text "/="
assign_text AssignOp.percent = text "%="
assign_text AssignOp.plus = text "+="
assign_text AssignOp.minus = text "-="
assign_text AssignOp.dless = text "<<="
assign_text AssignOp.dgreat = text ">>="
assign_text AssignOp.and = text "&="
assign_text AssignOp.circ = text "^="
assign_text AssignOp.or = text "|="

abbrev pub All : (ℕ → Bool) → Text → Type 0
All test [] = Unit
All test (c ∷ cs) = (test c ≡ true) × All test cs

abbrev pub IsName : Text → Type 0
IsName [] = ⊥
IsName (c ∷ cs) = (isdigit c ≡ false) × All is_name_char (c ∷ cs)

abbrev pub IsNumber : Text → Type 0
IsNumber [] = ⊥
IsNumber (c ∷ cs) = All isdigit (c ∷ cs)

module _ (digits : ℤ → Text) where
  -- The text of an expression, with what is to follow it.
  unfoldable pub print : Expr → Text → Text
  print (literal v) rest = digits v ++ rest
  print (variable name) rest = name ++ rest
  print (unop type' e) rest = unop_char type' ∷ b'(' ∷ print e (b')' ∷ rest)
  print (binop type' l r) rest =
      b'(' ∷ print l (b')' ∷ (binop_text type' ++ (b'(' ∷ print r (b')' ∷ rest))))
  print (cond c a b) rest =
      b'(' ∷ print c (b')' ∷ b'?' ∷ b'(' ∷ print a (b')' ∷ b':' ∷ b'(' ∷ print b (b')' ∷ rest)))
  print (assign op name e) rest = name ++ (assign_text op ++ print e rest)

  module _ (strtol : Strtol) where
    -- `strtol` reads the digits of every literal as its value, and the names are names.
    unfoldable pub IsPrintable : Expr → Type 0
    IsPrintable (literal v) =
        IsNumber (digits v)
        × (strtol (digits v) ≡ record { value = v; end = length (digits v); errno = false })
    IsPrintable (variable name) = IsName name
    IsPrintable (unop type' e) = IsPrintable e
    IsPrintable (binop type' l r) = IsPrintable l × IsPrintable r
    IsPrintable (cond c a b) = IsPrintable c × IsPrintable a × IsPrintable b
    IsPrintable (assign op name e) = IsName name × IsPrintable e
