-- ===== src/Parser/Arithm/Reads.antt =====
-- How the forms of a printed expression are read, from what their operands are read as.
use mrsh.Base.{
  ℕ, suc, ◌≡◌, refl, sym, ◌⊎◌, inl, inr, List, [], ◌∷◌, ◌++◌, Option, none, some, Text, true, false,
  ◌∙◌, ap, arith,
}
use mrsh.Arithm.Syntax.{Expr, binop, cond, assign, BinopType, AssignOp}
use mrsh.Builtin.Control.{Strtol}
use mrsh.Parser.Input.{
  Parser, Parsed, parsed, and_then, strip, isdigit, is_name_char, peek_name, span, get_symbol,
}
use mrsh.Parser.Arithm.Terms.{parse_str, expect_char, parse_term}
use mrsh.Parser.Arithm.Levels.{
  Reader, climb, right_ops, factor_op, addend_op, factor, addend, logical_or,
}
use mrsh.Parser.Arithm.Entry.{assign_ops, find_assign, assign_with, assignment, ternary}
use mrsh.Parser.Arithm.Print.{assign_text, IsName}
use mrsh.Parser.Arithm.Climbs.{
  ready, Decline, climb_declines, climb_accepts, left_declines, left_accepts,
}
use mrsh.Parser.Arithm.Operators.{all_ops, Stops, operator, IsRight, level_of}
use mrsh.Parser.Arithm.Atoms.{Ended, Stops-Ended_name, peek_name-append}

-- An operator of every level declines after `before`, `op` and `after'` did.
Decline-split :
    (before : List Reader) (op : Reader) (after' : List Reader) (p : Parser)
    → Decline (before ++ (op ∷ after')) p
    → Decline before p × (op p ≡ (none, p)) × Decline after' p
Decline-split [] op after' p d = (tt, d.0, d.1)
Decline-split (o ∷ before) op after' p d =
    let r = Decline-split before op after' p d.1 in ((d.0, r.0), r.1, r.2)

module _ (strtol : Strtol) (k : ℕ) (expr : Parser → Parsed Expr) where
  abbrev term : Parser → Parsed Expr
  term = parse_term strtol expr

  -- A term in front of no operator.
  pub logical_or-term :
      (p q : Parser) (e : Expr)
      → term p ≡ parsed (some e) q
      → Decline all_ops q
      → logical_or strtol (suc k) expr p ≡ parsed (some e) q
  unfolding logical_or addend factor
  logical_or-term p q e t d =
      climb_declines k right_ops (addend strtol (suc k) expr) p q e
        (left_declines k _ addend_op (factor strtol (suc k) expr) p q e
          (left_declines k _ factor_op term p q e t d.0) d.1.0)
        d.1.1

  logical_or-factor :
      (p q r s : Parser) (type' : BinopType) (left right : Expr)
      → term p ≡ parsed (some left) q
      → factor_op q ≡ (some type', r)
      → term r ≡ parsed (some right) s
      → Decline all_ops s
      → logical_or strtol (suc (suc k)) expr p ≡ parsed (some (binop type' left right)) s
  unfolding logical_or addend factor
  logical_or-factor p q r s type' left right a o b d =
      climb_declines (suc k) right_ops (addend strtol (suc (suc k)) expr) p s _
        (left_declines (suc k) _ addend_op (factor strtol (suc (suc k)) expr) p s _
          (left_accepts k _ factor_op term p q r s type' left right a o b d.0) d.1.0)
        d.1.1

  logical_or-addend :
      (p q r s : Parser) (type' : BinopType) (left right : Expr)
      → term p ≡ parsed (some left) q
      → factor_op q ≡ (none, q)
      → addend_op q ≡ (some type', r)
      → term r ≡ parsed (some right) s
      → Decline all_ops s
      → logical_or strtol (suc (suc k)) expr p ≡ parsed (some (binop type' left right)) s
  unfolding logical_or addend factor
  logical_or-addend p q r s type' left right a n o b d =
      climb_declines (suc k) right_ops (addend strtol (suc (suc k)) expr) p s _
        (left_accepts k _ addend_op (factor strtol (suc (suc k)) expr) p q r s type' left right
          (left_declines (suc k) _ factor_op term p q left a n) o
          (left_declines (suc k) _ factor_op term r s right b d.0) d.1.0)
        d.1.1

  logical_or_to_right :
      (error : Option Text) (p s : Parser) (str : Text) (type' : BinopType) (left right : Expr)
      → IsRight type'
      → term p ≡ parsed (some left) (operator type' error str)
      → term (ready error (b'(' ∷ str)) ≡ parsed (some right) s
      → Decline all_ops s
      → logical_or strtol (suc (suc k)) expr p ≡ parsed (some (binop type' left right)) s
  unfolding logical_or addend factor
  logical_or_to_right error p s str type' left right (before, op, after', all, found) a b d =
      let q = operator type' error str in
      let r = ready error (b'(' ∷ str) in
      let (low, o) = found error str in
      let split = Decline-split before op after' s (rw all d.1.1) in
      let operand : Parser → Parsed Expr = addend strtol (suc (suc k)) expr in
      let la : operand p ≡ parsed (some left) q =
        left_declines (suc k) _ addend_op (factor strtol (suc (suc k)) expr) p q left
          (left_declines (suc k) _ factor_op term p q left a low.0) low.1.0 in
      let lb : operand r ≡ parsed (some right) s =
        left_declines (suc k) _ addend_op (factor strtol (suc (suc k)) expr) r s right
          (left_declines (suc k) _ factor_op term r s right b d.0) d.1.0 in
      ap (λ ops. climb (suc (suc k)) ops operand p) (sym all)
      ∙ climb_accepts k before op after' operand p q r s type' left right la low.1.1 o lb split.0
          split.1 split.2

  pub logical_or-binop :
      (error : Option Text) (p s : Parser) (str : Text) (type' : BinopType) (left right : Expr)
      → term p ≡ parsed (some left) (operator type' error str)
      → term (ready error (b'(' ∷ str)) ≡ parsed (some right) s
      → Decline all_ops s
      → logical_or strtol (suc (suc k)) expr p ≡ parsed (some (binop type' left right)) s
  logical_or-binop error p s str type' left right a b d = elim (level_of type') [
    | inl f ↦ logical_or-factor p _ _ s type' left right a (f error str) b d
    | inr (inl f) ↦ logical_or-addend p _ _ s type' left right a (f error str).0 (f error str).1 b d
    | inr (inr f) ↦ logical_or_to_right error p s str type' left right f a b d
  ]

not_digit : (c : ℕ) → is_name_char c ≡ false → isdigit c ≡ false
unfolding is_name_char isdigit
not_digit c h = ground arith

-- No name stands in front of these.
peek_nothing :
    (error : Option Text) (c : ℕ) (str : Text)
    → (is_name_char c ≡ false) ⊎ (isdigit c ≡ true)
    → peek_name false (ready error (c ∷ str)) ≡ (([], c ∷ str), ready error (c ∷ str))
unfolding peek_name get_symbol span
peek_nothing error c str (inl h) = rw (peek_name, not_digit c h, h) refl
peek_nothing error c str (inr h) = rw (peek_name, h) refl

pub assignment-none :
    (expr : Parser → Parsed Expr) (error : Option Text) (c : ℕ) (str : Text)
    → (is_name_char c ≡ false) ⊎ (isdigit c ≡ true)
    → assignment expr (ready error (c ∷ str)) ≡ parsed none (ready error (c ∷ str))
unfolding assignment
assignment-none expr error c str h =
    let e = peek_nothing error c str h in rw (assignment, e, e) refl

no_assign_op : (rest : Text) → Stops rest → find_assign assign_ops rest ≡ none
unfolding find_assign
no_assign_op [] h = refl
no_assign_op (c ∷ rest) h = rw h refl

pub assignment-variable :
    (expr : Parser → Parsed Expr) (error : Option Text) (name rest : Text)
    → IsName name
    → Stops rest
    → assignment expr (ready error (name ++ rest)) ≡ parsed none (ready error (name ++ rest))
unfolding assignment assign_with
assignment-variable expr error [] rest n h = elim n [ ]
assignment-variable expr error (c ∷ name) rest n h =
    let e = peek_name-append error (c ∷ name) rest n (Stops-Ended_name rest h) in
    rw (assignment, e, e, no_assign_op rest h) refl

assign_op-read :
    (op : AssignOp) (rest : Text)
    → (find_assign assign_ops (assign_text op ++ rest) ≡ some (op, rest))
      × Ended is_name_char (assign_text op ++ rest)
unfolding find_assign is_name_char isdigit
assign_op-read AssignOp.none' rest = (refl, refl)
assign_op-read AssignOp.asterisk rest = (refl, refl)
assign_op-read AssignOp.slash rest = (refl, refl)
assign_op-read AssignOp.percent rest = (refl, refl)
assign_op-read AssignOp.plus rest = (refl, refl)
assign_op-read AssignOp.minus rest = (refl, refl)
assign_op-read AssignOp.dless rest = (refl, refl)
assign_op-read AssignOp.dgreat rest = (refl, refl)
assign_op-read AssignOp.and rest = (refl, refl)
assign_op-read AssignOp.circ rest = (refl, refl)
assign_op-read AssignOp.or rest = (refl, refl)

pub assignment_reads :
    (expr : Parser → Parsed Expr) (error : Option Text) (name str : Text) (op : AssignOp) (e : Expr)
    (q : Parser)
    → IsName name
    → expr (ready error str) ≡ parsed (some e) q
    → assignment expr (ready error (name ++ (assign_text op ++ str)))
      ≡ parsed (some (assign op name e)) q
unfolding assignment assign_with
assignment_reads expr error [] str op e q n h = elim n [ ]
assignment_reads expr error (c ∷ name) str op e q n h =
    let (found, ended) = assign_op-read op str in
    let p = peek_name-append error (c ∷ name) (assign_text op ++ str) n ended in
    rw (assignment, p, p, found, h) refl

pub no_qmark :
    (error : Option Text) (rest : Text)
    → Stops rest
    → parse_str (b'?' ∷ []) (ready error rest) ≡ (false, ready error rest)
unfolding parse_str
no_qmark error [] h = refl
no_qmark error (c ∷ rest) h = rw h refl

module _ (condition : Parser → Parsed Expr) (k : ℕ) where
  pub ternary_plain :
      (p : Parser) (error : Option Text) (rest : Text) (e : Expr)
      → condition p ≡ parsed (some e) (ready error rest)
      → parse_str (b'?' ∷ []) (ready error rest) ≡ (false, ready error rest)
      → ternary (suc k) condition p ≡ parsed (some e) (ready error rest)
  unfolding ternary
  ternary_plain p error rest e h n = rw (h, and_then, n, n) refl

  pub ternary-cond :
      (p : Parser) (error : Option Text) (first second rest : Text) (c a b : Expr)
      → condition p ≡ parsed (some c) (ready error (b'?' ∷ first))
      → condition (ready error first) ≡ parsed (some a) (ready error (b':' ∷ second))
      → condition (ready error second) ≡ parsed (some b) (ready error rest)
      → Stops rest
      → ternary (suc (suc k)) condition p ≡ parsed (some (cond c a b)) (ready error rest)
  unfolding ternary expect_char parse_str strip
  ternary-cond p error first second rest c a b hc ha hb s =
      let x : ternary (suc k) condition (ready error first)
          ≡ parsed (some a) (ready error (b':' ∷ second)) =
        ternary_plain (ready error first) error (b':' ∷ second) a ha refl in
      let y : ternary (suc k) condition (ready error second) ≡ parsed (some b) (ready error rest) =
        ternary_plain (ready error second) error rest b hb (no_qmark error rest s) in
      rw (hc, and_then, x, y) refl
