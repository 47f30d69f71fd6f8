-- ===== src/Parser/Arithm/Ends.antt =====
-- The arithmetic parser returns when its fuel is above the length of its input.
use mrsh.Base.{
  ℕ, zero, suc, ◌≤◌, ◌<◌, inl, inr, ◌==◌, false, Bool-cases, List, [], ◌∷◌, Option, none, some,
  Option-cases, Text, text, length, arith, ap,
}
use mrsh.Arithm.Syntax.{Expr, AssignOp}
use mrsh.Builtin.Control.{Strtol}
use mrsh.Parser.Input.{Parser, Parsed, and_then, parser_peek_char, at, strip, peek_name}
use mrsh.Parser.Sizes.{
  size, strip_size, parse_str-cases, skip_space-le, expect_char-cases, peek_name_size,
}
use mrsh.Parser.Arithm.Terms.{consume_whitespace, parse_term}
use mrsh.Parser.Arithm.Levels.{right_ops, factor_op, addend_op, factor, addend, logical_or}
use mrsh.Parser.Arithm.Entry.{
  assign_ops, find_assign, assign_with, assignment, ternary, arithm_expr, parse_arithm_expr,
}
use mrsh.Parser.Arithm.Within.{Within, Ends, Within-weaken, after-Within, error-Within}
use mrsh.Parser.Arithm.Readers.{factor_op-IsReader, addend_op-IsReader, right_ops-AreReaders}
use mrsh.Parser.Arithm.LevelEnds.{left_level-Ends, climb-Ends}
use mrsh.Parser.Arithm.TermEnds.{Text-cases, else-Within, parse_term-Ends}

-- What follows the operator, if one is found.
abbrev Shorter : ℕ → Option (AssignOp × Text) → Type 0
Shorter m none = Unit
Shorter m (some found) = length found.1 ≤ m

abbrev Below : ℕ → Option (AssignOp × Text) → Type 0
Below m none = Unit
Below m (some found) = length found.1 < m

Shorter-weaken : (m n : ℕ) (x : Option (AssignOp × Text)) → m < n → Shorter m x → Below n x
Shorter-weaken m n none lt h = tt
Shorter-weaken m n (some found) lt h = omega arith

find_assign-Shorter :
    (ops : List (Text × AssignOp)) (rest : Text) → Shorter (length rest) (find_assign ops rest)
unfolding find_assign
find_assign-Shorter [] rest = tt
find_assign-Shorter (candidate ∷ ops) rest = elim (Option-cases (strip candidate.0 rest)) [
  | inl e ↦ rw (find_assign, e) (find_assign-Shorter ops rest)
  | inr (behind, e) ↦ rw (find_assign, e) (omega (arith, strip_size candidate.0 rest behind e))
]

assign_with-Within :
    (n : ℕ) (expr : Parser → Parsed Expr) (name : Text) (m : ℕ) (q : Parser)
    (found : Option (AssignOp × Text))
    → Ends n expr
    → size q ≤ m
    → m < suc n
    → Below m found
    → Within m (assign_with expr name q found)
unfolding assign_with
assign_with-Within n expr name m q none h le b lt = le
assign_with-Within n expr name m q (some (op, behind)) h le b lt =
    after-Within (length behind) m (expr (at q behind)) _ (h (at q behind) (omega arith))
      (λ r le'. error-Within m (text "expected an assignment value") r (omega arith))
      (λ e r lt'. omega arith)

module _ (strtol : Strtol) where
  logical_or-Ends :
      (n : ℕ) (expr : Parser → Parsed Expr)
      → Ends n expr
      → Ends (suc n) (logical_or strtol (suc n) expr)
  unfolding logical_or addend factor
  logical_or-Ends n expr h =
      climb-Ends (suc n) right_ops (addend strtol (suc n) expr) right_ops-AreReaders (
        left_level-Ends (suc n) _ addend_op (factor strtol (suc n) expr) addend_op-IsReader (
          left_level-Ends (suc n) _ factor_op (parse_term strtol expr) factor_op-IsReader
            (parse_term-Ends strtol n expr h)))

  assignment-Within :
      (n : ℕ) (expr : Parser → Parsed Expr) (p : Parser)
      → Ends n expr
      → size p < suc n
      → Within (size p) (assignment expr p)
  unfolding assignment
  assignment-Within n expr p h b = elim (Text-cases (peek_name false p).0.0) [
    | inl e ↦ rw (assignment, e) (omega (arith, peek_name_size false p))
    | inr (c, cs, e) ↦
        rw (assignment, e)
          (assign_with-Within n expr (c ∷ cs) (size p) (peek_name false p).1 _ h
            (omega (arith, peek_name_size false p)) (omega arith)
            (Shorter-weaken _ _ _ (omega (arith, peek_name_size false p, ap length e))
              (find_assign-Shorter assign_ops (peek_name false p).0.1)))
  ]

  ternary-Within :
      (k n : ℕ) (condition : Parser → Parsed Expr) (p : Parser)
      → Ends n condition
      → size p < n
      → size p < k
      → Within (size p) (ternary k condition p)
  unfolding ternary
  ternary-Within zero n condition p h b f = absurd (omega arith)
  ternary-Within (suc k) n condition p h b f =
      after-Within (size p) (size p) (condition p) _ (h p b) (λ q le. le)
        (λ c q lt. elim (parse_str-cases (b'?' ∷ []) q) [
          | inl e ↦ rw (and_then, e, e) (omega arith)
          | inr (behind, e, l) ↦
              rw (and_then, e, e)
                (after-Within (length behind) (size p) (ternary k condition (at q behind)) _
                  (ternary-Within k n condition (at q behind) h (omega arith) (omega arith))
                  (λ s le.
                    error-Within (size p) (text "expected a logical or term") s (omega arith))
                  (λ body s lt'. elim (expect_char-cases b':' s) [
                    | inr (t, g, le) ↦ rw (g, g) (omega arith)
                    | inl (t, g, le) ↦
                        rw (g, g)
                          (after-Within (size t) (size p) (ternary k condition t) _
                            (ternary-Within k n condition t h (omega arith) (omega arith))
                            (λ u le'.
                              error-Within (size p) (text "expected an or term") u (omega arith))
                            (λ else_part u lt''. omega arith))
                  ]))
        ])

  arithm_expr-Ends : (n : ℕ) → Ends n (arithm_expr strtol n)
  unfolding arithm_expr
  arithm_expr-Ends zero p b = absurd (omega arith)
  arithm_expr-Ends (suc n) p b =
      else-Within _ _ _ (assignment-Within n (arithm_expr strtol n) p (arithm_expr-Ends n) b)
        (λ q le.
          ternary-Within (suc n) (suc n) _ q
            (logical_or-Ends n (arithm_expr strtol n) (arithm_expr-Ends n)) (omega arith)
            (omega arith))

  -- The parser, when its fuel is above the length of its input, returns: NULL and no more input than
  -- before, or an expression and less.
  pub parse_arithm_expr-Ends :
      (fuel : ℕ) (p : Parser) → size p < fuel → Within (size p) (parse_arithm_expr strtol fuel p)
  unfolding parse_arithm_expr
  parse_arithm_expr-Ends fuel p b =
      let start = consume_whitespace p in
      after-Within (size p) (size p) (arithm_expr strtol fuel start) _
        (Within-weaken (size start) (size p) _ (skip_space-le p.rest)
          (arithm_expr-Ends fuel start (omega (arith, skip_space-le p.rest))))
        (λ q le. le)
        (λ e q lt. elim (Bool-cases (parser_peek_char q == 0)) [
          | inl done ↦ rw (and_then, done) lt
          | inr more ↦ rw (and_then, more) (error-Within (size p) _ q (omega arith))
        ])
