-- ===== src/Parser/Arithm/TermEnds.antt =====
-- The terms of arithmetic expressions return, if the expressions in them do.
use mrsh.Base.{
  ℕ, suc, ◌≤◌, ◌<◌, ◌≡◌, refl, ◌⊎◌, inl, inr, ◌==◌, ◌||◌, not, false, Bool-cases, if◌then◌else◌, [],
  ◌∷◌, Option, none, some, Option-cases, Text, text, length, arith, ap,
}
use mrsh.Arithm.Syntax.{Expr}
use mrsh.Builtin.Control.{Strtol}
use mrsh.Parser.Input.{Parser, Parsed, parsed, after, or_else, at, isdigit, span, peek_name}
use mrsh.Parser.Sizes.{
  size, parse_str-cases, skip_space-le, expect_char-cases, span_size, peek_name_size,
}
use mrsh.Parser.Arithm.Terms.{
  consume_whitespace, expect_char, unop_type, parse_unop, parse_paren, parse_literal,
  parse_variable, parse_term,
}
use mrsh.Parser.Arithm.Within.{Within, Ends, Within-weaken, after-Within, error-Within}

pub Text-cases : (rest : Text) → (rest ≡ []) ⊎ ((c : ℕ) × (cs : Text) × (rest ≡ c ∷ cs))
Text-cases [] = inl refl
Text-cases (c ∷ cs) = inr (c, cs, refl)

-- `expr` is called behind a byte that was read.
parse_unop-Within :
    (n : ℕ) (expr : Parser → Parsed Expr) (p : Parser)
    → Ends n expr
    → size p < suc n
    → Within (size p) (parse_unop expr p)
unfolding parse_unop
parse_unop-Within n expr p h b = elim (Text-cases p.rest) [
  | inl e ↦ rw e (omega arith)
  | inr (c, rest, e) ↦ rw e (elim (Option-cases (unop_type c)) [
    | inl none' ↦ rw (parse_unop, none') (omega arith)
    | inr (type', found) ↦
        rw (parse_unop, found)
          (after-Within (length rest) (suc (length rest)) (expr (at p rest)) _
            (h (at p rest) (omega (arith, ap length e))) (λ q le. error-Within _ _ q (omega arith))
            (λ e q lt. omega arith))
  ])
]

closing-Within :
    (m : ℕ) (e : Option Expr) (q : Parser)
    → size q < m
    → Within m (
        if (expect_char b')' q).0
        then parsed e (expect_char b')' q).1
        else parsed none (expect_char b')' q).1)
closing-Within m none q b = elim (expect_char-cases b')' q) [
  | inl (s, f, le) ↦ rw f (omega arith)
  | inr (s, f, le) ↦ rw f (omega arith)
]
closing-Within m (some e) q b = elim (expect_char-cases b')' q) [
  | inl (s, f, le) ↦ rw f (omega arith)
  | inr (s, f, le) ↦ rw f (omega arith)
]

parse_paren-Within :
    (n : ℕ) (expr : Parser → Parsed Expr) (p : Parser)
    → Ends n expr
    → size p < suc n
    → Within (size p) (parse_paren expr p)
unfolding parse_paren
parse_paren-Within n expr p h b = elim (parse_str-cases (b'(' ∷ []) p) [
  | inl e ↦ rw (parse_paren, e, e) (omega arith)
  | inr (behind, e, l) ↦
      let inner = consume_whitespace (at p behind) in
      rw (parse_paren, e, e)
        (after-Within (size inner) (size p) (expr inner) _
          (h inner (omega (arith, skip_space-le behind)))
          (λ q le. closing-Within (size p) none q (omega (arith, skip_space-le behind)))
          (λ e' q lt. closing-Within (size p) (some e') q (omega (arith, skip_space-le behind))))
]

-- A branch that returns a result has read from what the branches before it left.
pub else-Within :
    (m : ℕ) (x : Parsed Expr) (next : Parser → Parsed Expr)
    → Within m x
    → ((q : Parser) → size q ≤ m → Within (size q) (next q))
    → Within m (after x (λ e q. or_else e q next))
else-Within m x next h f =
    after-Within m m x _ h (λ q le. Within-weaken (size q) m (next q) le (f q le)) (λ e q lt. lt)

module _ (strtol : Strtol) where
  parse_literal-Within : (p : Parser) → Within (size p) (parse_literal strtol p)
  unfolding parse_literal
  parse_literal-Within p =
      let r = strtol (span isdigit p.rest).0 in
      elim (Text-cases (span isdigit p.rest).0) [
        | inl e ↦ rw (parse_literal, e) (omega arith)
        | inr (c, cs, e) ↦
            rw (parse_literal, e)
              (elim (Bool-cases
                (not ((strtol (c ∷ cs)).end == length (c ∷ cs)) || (strtol (c ∷ cs)).errno)) [
                  | inl bad ↦
                      rw (parse_literal, bad)
                        (error-Within (size p) (text "failed to parse literal")
                          (at p (span isdigit p.rest).1) (omega (arith, span_size isdigit p.rest)))
                  | inr good ↦
                      rw (parse_literal, good)
                        (omega (arith, span_size isdigit p.rest, ap length e))
                ])
      ]

  parse_variable-Within : (p : Parser) → Within (size p) (parse_variable strtol p)
  unfolding parse_variable
  parse_variable-Within p = elim (Text-cases (peek_name false p).0.0) [
    | inl e ↦ rw (parse_variable, e) (omega (arith, peek_name_size false p))
    | inr (c, cs, e) ↦ rw (parse_variable, e) (omega (arith, peek_name_size false p, ap length e))
  ]

  pub parse_term-Ends :
      (n : ℕ) (expr : Parser → Parsed Expr) → Ends n expr → Ends (suc n) (parse_term strtol expr)
  unfolding parse_term
  parse_term-Ends n expr h p b = else-Within _ _ _ (parse_paren-Within n expr p h b) (λ q le.
      else-Within _ _ _ (parse_unop-Within n expr q h (omega arith))
        (λ r le'. else-Within _ _ _ (parse_literal-Within r) (λ s le''. parse_variable-Within s)))
