-- ===== src/Parser/Arithm/Entry.antt =====
-- Ternary expressions, assignments and the entry: parser/arithm.c from `ternary` on.
use mrsh.Base.{
  ℕ, zero, suc, ◌==◌, true, false, if◌then◌else◌, List, [], ◌∷◌, Option, none, some, Text, text,
}
use mrsh.Arithm.Syntax.{Expr, cond, assign, AssignOp}
use mrsh.Builtin.Control.{Strtol}
use mrsh.Parser.Input.{
  Parser, Parsed, parsed, out_of_fuel, after, or_else, and_then, at, parser_set_error,
  parser_peek_char, strip, peek_name,
}
use mrsh.Parser.Arithm.Terms.{parse_str, parse_char, skip_space, consume_whitespace, expect_char}
use mrsh.Parser.Arithm.Levels.{logical_or}

-- The first of the assignment operators that the input begins with, and what follows it.
unfoldable pub find_assign : List (Text × AssignOp) → Text → Option (AssignOp × Text)
unfolding strip
find_assign [] rest = none
find_assign (candidate ∷ candidates) rest = elim (strip candidate.0 rest) [
  | some behind ↦ some (candidate.1, behind)
  | none ↦ find_assign candidates rest
]

abbrev pub assign_ops : List (Text × AssignOp)
assign_ops =
    (text "=", AssignOp.none')
    ∷ (text "*=", AssignOp.asterisk)
    ∷ (text "/=", AssignOp.slash)
    ∷ (text "%=", AssignOp.percent)
    ∷ (text "+=", AssignOp.plus)
    ∷ (text "-=", AssignOp.minus)
    ∷ (text "<<=", AssignOp.dless)
    ∷ (text ">>=", AssignOp.dgreat)
    ∷ (text "&=", AssignOp.and)
    ∷ (text "^=", AssignOp.circ)
    ∷ (text "|=", AssignOp.or)
    ∷ []

-- The end of `assignment`, with the operator that was found.
unfoldable pub assign_with :
    (Parser → Parsed Expr) → Text → Parser → Option (AssignOp × Text) → Parsed Expr
unfolding parser_set_error
assign_with expr name p none = parsed none p
assign_with expr name p (some (op, behind)) = after (expr (at p behind)) (λ value q. elim value [
  | none ↦ parsed none (parser_set_error (text "expected an assignment value") q)
  | some e ↦ parsed (some (assign op name e)) q
])

unfoldable pub assignment : (Parser → Parsed Expr) → Parser → Parsed Expr
unfolding peek_name find_assign assign_with
assignment expr p =
    let ((name, behind), q) = peek_name false p in
    elim name [
      | [] ↦ parsed none q
      | c ∷ cs ↦ assign_with expr (c ∷ cs) q (find_assign assign_ops behind)
    ]

-- `condition` is `logical_or`.
unfoldable pub ternary : ℕ → (Parser → Parsed Expr) → Parser → Parsed Expr
unfolding parse_str expect_char parser_set_error
ternary zero condition p = out_of_fuel
ternary (suc fuel) condition p = after (condition p) (λ e q. and_then e q (λ c q'.
    let (asks, r) = parse_char b'?' q' in
    elim asks [
      | false ↦ parsed (some c) r
      | true ↦ after (ternary fuel condition r) (λ body s. elim body [
        | none ↦ parsed none (parser_set_error (text "expected a logical or term") s)
        | some b ↦
            let (colon, t) = expect_char b':' s in
            elim colon [
              | false ↦ parsed none t
              | true ↦ after (ternary fuel condition t) (λ else_part u. elim else_part [
                | none ↦ parsed none (parser_set_error (text "expected an or term") u)
                | some d ↦ parsed (some (cond c b d)) u
              ])
            ]
      ])
    ]))

module _ (strtol : Strtol) where
  -- The loops and levels of a call have its fuel, the calls of `arithm_expr` that it makes one less.
  unfoldable pub arithm_expr : ℕ → Parser → Parsed Expr
  unfolding assignment ternary logical_or
  arithm_expr zero p = out_of_fuel
  arithm_expr (suc fuel) p =
      let expr = arithm_expr fuel in
      after (assignment expr p)
        (λ a q. or_else a q (ternary (suc fuel) (logical_or strtol (suc fuel) expr)))

  unfoldable pub parse_arithm_expr : ℕ → Parser → Parsed Expr
  unfolding arithm_expr skip_space parser_set_error
  parse_arithm_expr fuel p = after (arithm_expr fuel (consume_whitespace p)) (λ e q.
      and_then e q (λ expr r.
        if parser_peek_char r == 0
        then parsed (some expr) r
        else parsed none
            (parser_set_error (text "garbage at the end of the arithmetic expression") r)))
