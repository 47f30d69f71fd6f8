-- ===== src/Parser/Arithm/Start.antt =====
-- The parser on a printed expression, from its first symbol to its end.
use mrsh.Base.{
  ℕ, zero, suc, ◌<◌, ◌≡◌, refl, ◌==◌, [], ◌∷◌, ◌++◌, none, some, Text, true, false, ap, arith,
  length, ℤ,
}
use mrsh.Arithm.Syntax.{
  Expr, literal, variable, unop, binop, cond, assign, UnopType, plus, minus, tilde, bang,
}
use mrsh.Builtin.Control.{Strtol}
use mrsh.Word.Split.{isspace}
use mrsh.Parser.Input.{
  token, Parser, Parsed, parsed, is_operator_start, isblank, isdigit, is_name_char, next_symbol,
  get_symbol, peek_name,
}
use mrsh.Parser.Arithm.Terms.{skip_space}
use mrsh.Parser.Arithm.Entry.{
  assign_ops, find_assign, assign_with, assignment, arithm_expr, parse_arithm_expr,
}
use mrsh.Parser.Arithm.Print.{unop_char, assign_text, IsName, IsNumber, print, IsPrintable}
use mrsh.Parser.Arithm.Climbs.{ready}
use mrsh.Parser.Arithm.Atoms.{digit-facts}
use mrsh.Parser.Arithm.RoundTrip.{reads, unop_reads}
use mrsh.Parser.Arithm.Printed.{print-skip}

-- A parser as `mrsh_data_parser` creates it.
abbrev pub data_parser : Text → Parser
data_parser buf = record { rest = buf; sym = none; error = none }

name-symbol-facts :
    (c : ℕ)
    → is_name_char c ≡ true
    → ((c == 0) ≡ false)
      × ((c == 10) ≡ false)
      × (is_operator_start c ≡ false)
      × (isblank c ≡ false)
      × ((c == b'#') ≡ false)
unfolding is_name_char isdigit
name-symbol-facts c h = ground arith

name_symbol :
    (c : ℕ) (str : Text) → is_name_char c ≡ true → next_symbol (c ∷ str) ≡ (token, c ∷ str)
unfolding next_symbol
name_symbol c str h =
    let f = name-symbol-facts c h in rw (next_symbol, f.0, f.1, f.2, f.3, f.4) refl

number_symbol : (str rest : Text) → IsNumber str → next_symbol (str ++ rest) ≡ (token, str ++ rest)
number_symbol [] rest n = elim n [ ]
number_symbol (c ∷ str) rest n = name_symbol c (str ++ rest) (digit-facts c n.0).3

names_symbol : (str rest : Text) → IsName str → next_symbol (str ++ rest) ≡ (token, str ++ rest)
names_symbol [] rest n = elim n [ ]
names_symbol (c ∷ str) rest n = name_symbol c (str ++ rest) n.1.0

module _ (digits : ℤ → Text) (strtol : Strtol) where
  print_symbol :
      (e : Expr) (rest : Text)
      → IsPrintable digits strtol e
      → next_symbol (print digits e rest) ≡ (token, print digits e rest)
  unfolding print IsPrintable next_symbol
  print_symbol (literal v) rest h = number_symbol (digits v) rest h.0
  print_symbol (variable name) rest h = names_symbol name rest h
  print_symbol (unop plus e) rest h = refl
  print_symbol (unop minus e) rest h = refl
  print_symbol (unop tilde e) rest h = refl
  print_symbol (unop bang e) rest h = refl
  print_symbol (binop type' l r) rest h = refl
  print_symbol (cond c a b) rest h = refl
  print_symbol (assign op name e) rest h =
      names_symbol name (assign_text op ++ print digits e rest) h.0

  peek_start :
      (str : Text)
      → next_symbol str ≡ (token, str)
      → peek_name false (data_parser str) ≡ peek_name false (ready none str)
  unfolding peek_name get_symbol
  peek_start str h = rw h refl

  assignment_start :
      (expr : Parser → Parsed Expr) (str : Text)
      → next_symbol str ≡ (token, str)
      → assignment expr (data_parser str) ≡ assignment expr (ready none str)
  unfolding assignment
  assignment_start expr str h =
      ap
        (λ (r : (Text × Text) × Parser). elim r.0.0 as (λ x. Parsed Expr) [
          | [] ↦ parsed none (r.1)
          | c ∷ cs ↦ assign_with expr (c ∷ cs) (r.1) (find_assign assign_ops (r.0.1))
        ])
        (peek_start str h)

  expr_start :
      (n : ℕ) (str : Text)
      → next_symbol str ≡ (token, str)
      → arithm_expr strtol n (data_parser str) ≡ arithm_expr strtol n (ready none str)
  unfolding arithm_expr
  expr_start zero str h = refl
  expr_start (suc n) str h = rw (assignment_start (arithm_expr strtol n) str h) refl

  -- The parser, with fuel above the length of the text, reads the text of an expression as that
  -- expression, whatever its operators, and leaves nothing. The text has every operand in parentheses;
  -- its names are names, and `strtol` reads its literals as their values.
  pub parse_arithm_expr-print :
      (e : Expr) (fuel : ℕ)
      → IsPrintable digits strtol e
      → length (print digits e []) < fuel
      → parse_arithm_expr strtol fuel (data_parser (print digits e []))
        ≡ parsed (some e) (ready none [])
  unfolding parse_arithm_expr
  parse_arithm_expr-print e fuel h b =
      rw
        (
          print-skip digits strtol e [] h,
          expr_start fuel (print digits e []) (print_symbol e [] h),
          reads digits strtol e fuel none [] h tt b,
        )
        refl

  unop_symbol :
      (type' : UnopType) (str : Text)
      → next_symbol (unop_char type' ∷ str) ≡ (token, unop_char type' ∷ str)
  unfolding next_symbol
  unop_symbol plus str = refl
  unop_symbol minus str = refl
  unop_symbol tilde str = refl
  unop_symbol bang str = refl

  unop_skip :
      (type' : UnopType) (str : Text) → skip_space (unop_char type' ∷ str) ≡ unop_char type' ∷ str
  unfolding skip_space isspace
  unop_skip plus str = refl
  unop_skip minus str = refl
  unop_skip tilde str = refl
  unop_skip bang str = refl

  -- A unary operator takes the whole expression behind it for its operand, also when that is a binary
  -- one, a ternary or an assignment: with fuel above its length, `-` and the text of `e` are read as
  -- the negation of `e`.
  pub parse_arithm_expr-unop :
      (type' : UnopType) (e : Expr) (fuel : ℕ)
      → IsPrintable digits strtol e
      → length (print digits e []) < fuel
      → parse_arithm_expr strtol (suc fuel) (data_parser (unop_char type' ∷ print digits e []))
        ≡ parsed (some (unop type' e)) (ready none [])
  unfolding parse_arithm_expr
  parse_arithm_expr-unop type' e fuel h b =
      rw
        (
          unop_skip type' (print digits e []),
          expr_start (suc fuel) (unop_char type' ∷ print digits e []) (unop_symbol type' _),
          unop_reads digits strtol type' e fuel none h b,
        )
        refl
