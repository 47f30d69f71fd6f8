-- ===== src/Parser/Arithm/Terms.antt =====
-- The terms of arithmetic expressions, and the characters that all levels read: parser/arithm.c up to
-- `term`. `expr` stands for the call of `arithm_expr`.
use mrsh.Base.{
  ℕ, ◌==◌, ◌||◌, Bool, true, false, not, if◌then◌else◌, [], ◌∷◌, ◌++◌, Option, none, some, Text,
  text, length,
}
use mrsh.Arithm.Syntax.{Expr, literal, variable, unop, UnopType, plus, minus, tilde, bang}
use mrsh.Word.Split.{isspace}
use mrsh.Builtin.Control.{Strtol}
use mrsh.Parser.Input.{
  Parser, Parsed, parsed, after, or_else, at, parser_set_error, strip, isdigit, span, peek_name,
}

-- Whether the input begins with this, which is then read.
unfoldable pub parse_str : Text → Parser → Bool × Parser
unfolding strip
parse_str str p = elim (strip str p.rest) [ none ↦ (false, p) | some behind ↦ (true, at p behind) ]

abbrev pub parse_char : ℕ → Parser → Bool × Parser
parse_char c p = parse_str (c ∷ []) p

unfoldable pub skip_space : Text → Text
unfolding isspace
skip_space [] = []
skip_space (c ∷ rest) = let behind = skip_space rest in if isspace c then behind else c ∷ rest

abbrev pub consume_whitespace : Parser → Parser
consume_whitespace p = at p (skip_space p.rest)

unfoldable pub expect_char : ℕ → Parser → Bool × Parser
unfolding parse_str parser_set_error
expect_char c p =
    let r = parse_char c p in
    if r.0 then r else (false, parser_set_error (text "expected '" ++ (c ∷ text "'")) r.1)

abbrev pub unop_type : ℕ → Option UnopType
unop_type c =
    if c == b'+'
    then some plus
    else (if c == b'-'
        then some minus
        else (if c == b'~' then some tilde else (if c == b'!' then some bang else none)))

unfoldable pub parse_unop : (Parser → Parsed Expr) → Parser → Parsed Expr
unfolding parser_set_error
parse_unop expr p = elim p.rest [
  | [] ↦ parsed none p
  | c ∷ rest ↦ elim (unop_type c) [
    | none ↦ parsed none p
    | some type' ↦ after (expr (at p rest)) (λ body q. elim body [
      | some e ↦ parsed (some (unop type' e)) q
      | none ↦
          parsed none
            (parser_set_error (text "expected an arithmetic expression after unary operator") q)
    ])
  ]
]

unfoldable pub parse_paren : (Parser → Parsed Expr) → Parser → Parsed Expr
unfolding parse_str expect_char skip_space
parse_paren expr p =
    let (opened, q) = parse_char b'(' p in
    elim opened [
      | false ↦ parsed none q
      | true ↦ after (expr (consume_whitespace q)) (λ e q'.
          let (closed, end) = expect_char b')' q' in
          if closed then parsed e end else parsed none end)
    ]

-- From the C library: `strtol(str, &end, 0)`.
module _ (strtol : Strtol) where
  unfoldable pub parse_literal : Parser → Parsed Expr
  unfolding span isdigit parser_set_error
  parse_literal p =
      let (digits, behind) = span isdigit p.rest in
      elim digits [
        | [] ↦ parsed none p
        | c ∷ cs ↦
            let r = strtol (c ∷ cs) in
            if not (r.end == length (c ∷ cs)) || r.errno
            then parsed none (parser_set_error (text "failed to parse literal") (at p behind))
            else parsed (some (literal r.value)) (at p behind)
      ]

  unfoldable pub parse_variable : Parser → Parsed Expr
  unfolding peek_name
  parse_variable p =
      let ((name, behind), q) = peek_name false p in
      elim name [ [] ↦ parsed none q | c ∷ cs ↦ parsed (some (variable (c ∷ cs))) (at q behind) ]

  -- A branch that returns NULL can have read input; the next one goes on from there.
  unfoldable pub parse_term : (Parser → Parsed Expr) → Parser → Parsed Expr
  unfolding parse_paren parse_unop parse_literal parse_variable
  parse_term expr p = after (parse_paren expr p) (λ e q. or_else e q (λ q'.
      after (parse_unop expr q') (λ au r.
        or_else au r (λ r'. after (parse_literal r') (λ al s. or_else al s parse_variable)))))
