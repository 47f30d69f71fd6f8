-- ===== src/Parser/Arithm/Levels.antt =====
-- The binary operators: parser/arithm.c from `factor` to `logical_or`. The fuel bounds the operators of
-- one level.
use mrsh.Base.{
  ℕ, zero, suc, ◌==◌, ◌||◌, true, false, if◌then◌else◌, List, [], ◌∷◌, Option, none, some, Text,
  text,
}
use mrsh.Arithm.Syntax.{
  Expr, binop, BinopType, asterisk, slash, percent, plus, minus, dless, dgreat, less, lesseq, great,
  greateq, deq, bangeq, and, circ, or, dand, dor,
}
use mrsh.Builtin.Control.{Strtol}
use mrsh.Parser.Input.{
  Parser, Parsed, parsed, out_of_fuel, after, and_then, at, parser_set_error, parser_peek_char,
  strip,
}
use mrsh.Parser.Arithm.Terms.{parse_str, skip_space, consume_whitespace, parse_term}

-- The operator of a level at the front of the input, if there is one, and the input that the next
-- operand, or the level above, is read from.
abbrev pub Reader : Type 0
Reader = Parser → Option BinopType × Parser

-- The first of these tokens that the input begins with.
unfoldable pub first_of : List (Text × BinopType) → Reader
unfolding parse_str
first_of [] p = (none, p)
first_of (candidate ∷ rest) p =
    let (here, q) = parse_str candidate.0 p in
    elim here [ true ↦ (some candidate.1, q) | false ↦ first_of rest q ]

-- White space behind an operator.
abbrev pub then_space : Option BinopType × Parser → Option BinopType × Parser
then_space (none, p) = (none, p)
then_space (some type', p) = (some type', consume_whitespace p)

abbrev pub factor_tokens : List (Text × BinopType)
factor_tokens = (text "*", asterisk) ∷ (text "/", slash) ∷ (text "%", percent) ∷ []

abbrev pub addend_tokens : List (Text × BinopType)
addend_tokens = (text "+", plus) ∷ (text "-", minus) ∷ []

abbrev pub shift_tokens : List (Text × BinopType)
shift_tokens = (text "<<", dless) ∷ (text ">>", dgreat) ∷ []

abbrev pub comp_tokens : List (Text × BinopType)
comp_tokens = (text "<=", lesseq) ∷ (text "<", less) ∷ (text ">=", greateq) ∷ (text ">", great) ∷ []

abbrev pub equal_tokens : List (Text × BinopType)
equal_tokens = (text "==", deq) ∷ (text "!=", bangeq) ∷ []

unfoldable pub factor_op : Reader
unfolding first_of skip_space
factor_op p = then_space (first_of factor_tokens (consume_whitespace p))

unfoldable pub addend_op : Reader
unfolding first_of skip_space
addend_op p = then_space (first_of addend_tokens p)

unfoldable pub shift_op : Reader
unfolding first_of skip_space
shift_op p = then_space (first_of shift_tokens p)

unfoldable pub comp_op : Reader
unfolding first_of skip_space
comp_op p = then_space (first_of comp_tokens p)

-- No white space is read behind `==` and `!=`.
unfoldable pub equal_op : Reader
unfolding first_of
equal_op p = first_of equal_tokens p

-- `parse_binop`, and the white space behind it.
unfoldable pub binop_op : BinopType → Text → Reader
unfolding strip skip_space
binop_op type' str p = elim (strip str p.rest) [
  | none ↦ (none, p)
  | some behind ↦
      let c = parser_peek_char (at p behind) in
      if c == b'|' || c == b'&' then (none, p) else (some type', consume_whitespace (at p behind))
]

-- The loops of `factor` and `addend`.
unfoldable pub left_loop : ℕ → Text → Reader → (Parser → Parsed Expr) → Expr → Parser → Parsed Expr
unfolding parser_set_error
left_loop zero msg op operand expr p = out_of_fuel
left_loop (suc fuel) msg op operand expr p =
    let (found, q) = op p in
    elim found [
      | none ↦ parsed (some expr) q
      | some type' ↦ after (operand q) (λ right r. elim right [
        | none ↦ parsed none (parser_set_error msg r)
        | some e ↦ left_loop fuel msg op operand (binop type' expr e) r
      ])
    ]

-- `factor` and `addend` with their operator and the message of a missing operand.
unfoldable pub left_level : ℕ → Text → Reader → (Parser → Parsed Expr) → Parser → Parsed Expr
unfolding left_loop
left_level fuel msg op operand p =
    after (operand p) (λ left q. and_then left q (left_loop fuel msg op operand))

-- `shift`, `comp`, `equal` and `binop`, which call themselves for the right operand.
unfoldable pub right_level : ℕ → Reader → (Parser → Parsed Expr) → Parser → Parsed Expr
unfolding parser_set_error
right_level zero op operand p = out_of_fuel
right_level (suc fuel) op operand p = after (operand p) (λ left q. and_then left q (λ expr q'.
    let (found, r) = op q' in
    elim found [
      | none ↦ parsed (some expr) r
      | some type' ↦ after (right_level fuel op operand r) (λ right s. elim right [
        | none ↦ parsed none (parser_set_error (text "expected a term") s)
        | some e ↦ parsed (some (binop type' expr e)) s
      ])
    ]))

-- The levels of `shift` and up, the lowest first.
abbrev pub right_ops : List Reader
right_ops =
    shift_op
    ∷ comp_op
    ∷ equal_op
    ∷ binop_op and (text "&")
    ∷ binop_op circ (text "^")
    ∷ binop_op or (text "|")
    ∷ binop_op dand (text "&&")
    ∷ binop_op dor (text "||")
    ∷ []

-- Each level takes the one below it for its operands.
unfoldable pub climb : ℕ → List Reader → (Parser → Parsed Expr) → Parser → Parsed Expr
unfolding right_level
climb fuel [] operand = operand
climb fuel (op ∷ ops) operand = climb fuel ops (right_level fuel op operand)

module _ (strtol : Strtol) (fuel : ℕ) (expr : Parser → Parsed Expr) where
  unfoldable pub factor : Parser → Parsed Expr
  unfolding left_level parse_term factor_op
  factor =
      left_level fuel (text "expected a term after *, / or % operator") factor_op
        (parse_term strtol expr)

  unfoldable pub addend : Parser → Parsed Expr
  unfolding left_level factor addend_op
  addend = left_level fuel (text "expected a factor after + or - operator") addend_op factor

  unfoldable pub logical_or : Parser → Parsed Expr
  unfolding climb addend shift_op comp_op equal_op binop_op
  logical_or = climb fuel right_ops addend
