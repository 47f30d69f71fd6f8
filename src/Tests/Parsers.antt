-- ===== src/Tests/Parsers.antt =====
-- The arithmetic parser on concrete inputs.
use mrsh.Base.{
  ℕ, ◌+◌, true, ◌++◌, get_or, ok, ◌-◌, ◌*◌, ◌≡◌, refl, false, ℤ, pos, negsuc, [], ◌∷◌, none, some,
  Text, text, length, arith,
}
use mrsh.Arithm.Syntax.{Expr, literal, variable, unop, binop, cond, assign, plus, minus, AssignOp}
use mrsh.Builtin.Control.{Strtol}
use mrsh.Word.Split.{isspace}
use mrsh.Parser.Input.{
  Parser, Parsed, parsed, token, isdigit, is_name_char, strip, parser_set_error, find_operator,
  next_symbol, get_symbol, span, peek_name,
}
use mrsh.Parser.Source.{
  bytes, interrupted, fd, Source, parser_with_fd, peek_fd, peek_more, peeked, parser_peek, has_nul,
  parser_read,
}
use mrsh.Parser.Source.Shows.{coming, remaining, unread, IsOpen}
use mrsh.Parser.Source.Marked.{Sees, IsEnded, parser_peek-Sees}
use mrsh.Parser.Source.Advances.{parser_read-advances}
use mrsh.Parser.Arithm.Terms.{
  skip_space, parse_str, expect_char, parse_term, parse_paren, parse_unop, parse_literal,
  parse_variable,
}
use mrsh.Parser.Arithm.Levels.{
  first_of, factor_op, addend_op, shift_op, comp_op, equal_op, binop_op, left_loop, left_level,
  right_level, climb, factor, addend, logical_or,
}
use mrsh.Parser.Arithm.Entry.{
  arithm_expr, parse_arithm_expr, assignment, assign_with, find_assign, ternary,
}
use mrsh.Parser.Arithm.Print.{print, IsPrintable}
use mrsh.Parser.Arithm.Climbs.{ready}
use mrsh.Parser.Arithm.Within.{Within}
use mrsh.Parser.Arithm.Ends.{parse_arithm_expr-Ends}
use mrsh.Parser.Arithm.Start.{data_parser, parse_arithm_expr-print}

-- Decimal digits only.
abbrev decimal_from : ℕ → Text → ℕ
decimal_from n [] = n
decimal_from n (c ∷ cs) = decimal_from (10 * n + (c - b'0')) cs

abbrev decimal : Strtol
decimal str = record { value = pos (decimal_from 0 str); end = length str; errno = false }

abbrev failing : Text → Text → Parser
failing rest msg = record { rest = rest; sym = some token; error = some msg }

abbrev run : Text → Parsed Expr
run str = parse_arithm_expr decimal 12 (data_parser str)

-- `==` is taken for an assignment, and white space behind `?` for the end.
equal_fails :
    run (text "a==b") ≡ parsed none (failing (text "=b") (text "expected an assignment value"))
unfolding parse_arithm_expr arithm_expr skip_space isspace assignment assign_with find_assign
    peek_name get_symbol next_symbol find_operator span is_name_char isdigit ternary logical_or
    climb right_level addend factor left_level left_loop factor_op addend_op shift_op comp_op
    equal_op binop_op first_of parse_term parse_paren parse_unop parse_literal parse_variable
    parse_str strip expect_char parser_set_error
equal_fails = refl

ternary_fails :
    run (text "1 ? 2:3") ≡ parsed none (failing (text " 2:3") (text "expected a logical or term"))
unfolding parse_arithm_expr arithm_expr skip_space isspace assignment assign_with find_assign
    peek_name get_symbol next_symbol find_operator span is_name_char isdigit ternary logical_or
    climb right_level addend factor left_level left_loop factor_op addend_op shift_op comp_op
    equal_op binop_op first_of parse_term parse_paren parse_unop parse_literal parse_variable
    parse_str strip expect_char parser_set_error
ternary_fails = refl

-- A number behind an unfinished parenthesis is the result, with a message set.
unclosed_reads :
    run (text "(1 2") ≡ parsed (some (literal (pos 2))) (failing [] (text "expected ')'"))
unfolding parse_arithm_expr arithm_expr skip_space isspace assignment assign_with find_assign
    peek_name get_symbol next_symbol find_operator span is_name_char isdigit ternary logical_or
    climb right_level addend factor left_level left_loop factor_op addend_op shift_op comp_op
    equal_op binop_op first_of parse_term parse_paren parse_unop parse_literal parse_variable
    parse_str strip expect_char parser_set_error
unclosed_reads = refl

-- `(1)+(2)`
abbrev sum : Expr
sum = binop plus (literal (pos 1)) (literal (pos 2))

-- One digit is enough here.
abbrev digit : ℤ → Text
digit (pos n) = (b'0' + n) ∷ []
digit (negsuc n) = []

abbrev scaled : Expr
scaled = cond (variable (text "x")) (assign AssignOp.asterisk (text "x") sum) (unop minus sum)

sum-IsPrintable : IsPrintable digit decimal sum
unfolding IsPrintable isdigit
sum-IsPrintable = (((refl, tt), refl), ((refl, tt), refl))

scaled-IsPrintable : IsPrintable digit decimal scaled
unfolding IsPrintable isdigit is_name_char
scaled-IsPrintable = ((refl, (refl, tt)), ((refl, (refl, tt)), sum-IsPrintable), sum-IsPrintable)

parse_arithm_expr-print_example :
    parse_arithm_expr decimal 40 (data_parser (text "(x)?(x*=(1)+(2)):(-((1)+(2)))"))
    ≡ parsed (some scaled) (ready none [])
unfolding print
parse_arithm_expr-print_example =
    parse_arithm_expr-print digit decimal scaled 40 scaled-IsPrintable (omega arith)

parse_arithm_expr-Ends_example :
    Within 6 (parse_arithm_expr decimal 7 (data_parser (text "1 + x)")))
parse_arithm_expr-Ends_example =
    parse_arithm_expr-Ends decimal 7 (data_parser (text "1 + x)")) (omega arith)

-- `+1` comes behind an interruption; the byte `x` before it is in the buffer already.
abbrev pieces : Source
pieces = record (parser_with_fd (interrupted ∷ bytes (text "+1") ∷ [])) { buf = text "x" }

abbrev whole_input : Source
whole_input = record { buf = text "x+1" ++ 0 ∷ []; eof = true; origin = fd []; error = none }

peek_past : parser_peek 5 pieces ≡ (4, whole_input)
unfolding parser_peek peeked peek_more peek_fd
peek_past = refl

pieces-IsOpen : IsOpen pieces
unfolding remaining coming
pieces-IsOpen = (tt, λ e. cc)

-- The input of the pieces, with its NUL.
pieces-IsEnded : IsEnded pieces
pieces-IsEnded = (unread pieces, refl)

parser_peek-Sees_example :
    Sees 9 pieces (parser_peek 9 pieces)
    × IsOpen (parser_peek 9 pieces).1
    × IsEnded (parser_peek 9 pieces).1
parser_peek-Sees_example = parser_peek-Sees 9 pieces pieces-IsOpen pieces-IsEnded

abbrev behind_two : Source
behind_two = record { buf = text "1"; eof = false; origin = fd []; error = none }

read_two : parser_read 2 pieces ≡ ok (2, behind_two)
unfolding parser_read parser_peek peeked peek_more peek_fd has_nul
read_two = refl

parser_read-advances_example :
    ((i : ℕ) → get_or (unread behind_two) i 0 ≡ get_or (unread pieces) (2 + i) 0)
    × IsOpen behind_two
parser_read-advances_example = parser_read-advances 2 2 pieces behind_two pieces-IsOpen read_two
