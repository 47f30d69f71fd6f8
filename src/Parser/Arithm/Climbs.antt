-- ===== src/Parser/Arithm/Climbs.antt =====
-- What the levels of binary operators make of operands that are read, from the operators that they find
-- behind them.
use mrsh.Base.{ℕ, suc, ◌≡◌, refl, List, [], ◌∷◌, ◌++◌, Option, none, some, Text, ◌∙◌, ap}
use mrsh.Arithm.Syntax.{Expr, binop, BinopType}
use mrsh.Parser.Input.{token, Parser, Parsed, parsed}
use mrsh.Parser.Arithm.Levels.{Reader, left_loop, left_level, right_level, climb}

-- A state in which a symbol was looked up, as it is everywhere inside an expression.
abbrev pub ready : Option Text → Text → Parser
ready error rest = record { rest = rest; sym = some token; error = error }

-- No operator of these levels stands at the front.
abbrev pub Decline : List Reader → Parser → Type 0
Decline [] p = Unit
Decline (op ∷ ops) p = (op p ≡ (none, p)) × Decline ops p

pub climb-append :
    (k : ℕ) (before after' : List Reader) (operand : Parser → Parsed Expr)
    → climb k (before ++ after') operand ≡ climb k after' (climb k before operand)
unfolding climb
climb-append k [] after' operand = refl
climb-append k (op ∷ before) after' operand =
    climb-append k before after' (right_level k op operand)

right_declines :
    (k : ℕ) (op : Reader) (operand : Parser → Parsed Expr) (p q : Parser) (e : Expr)
    → operand p ≡ parsed (some e) q
    → op q ≡ (none, q)
    → right_level (suc k) op operand p ≡ parsed (some e) q
unfolding right_level
right_declines k op operand p q e r d = rw (r, d, d) refl

pub climb_declines :
    (k : ℕ) (ops : List Reader) (operand : Parser → Parsed Expr) (p q : Parser) (e : Expr)
    → operand p ≡ parsed (some e) q
    → Decline ops q
    → climb (suc k) ops operand p ≡ parsed (some e) q
unfolding climb
climb_declines k [] operand p q e r d = r
climb_declines k (op ∷ ops) operand p q e r d =
    climb_declines k ops (right_level (suc k) op operand) p q e
      (right_declines k op operand p q e r d.0) d.1

-- An operator of one of the levels, with its operands.
pub climb_accepts :
    (k : ℕ) (before : List Reader) (op : Reader) (after' : List Reader)
    (operand : Parser → Parsed Expr) (p q r s : Parser) (type' : BinopType) (left right : Expr)
    → operand p ≡ parsed (some left) q
    → Decline before q
    → op q ≡ (some type', r)
    → operand r ≡ parsed (some right) s
    → Decline before s
    → op s ≡ (none, s)
    → Decline after' s
    → climb (suc (suc k)) (before ++ op ∷ after') operand p
      ≡ parsed (some (binop type' left right)) s
unfolding right_level climb
climb_accepts k before op after' operand p q r s type' left right a da o b db n d =
    let below : Parser → Parsed Expr = climb (suc (suc k)) before operand in
    let la : below p ≡ parsed (some left) q = climb_declines (suc k) before operand p q left a da in
    let lb : below r ≡ parsed (some right) s =
      climb_declines (suc k) before operand r s right b db in
    ap (λ f. f p) (climb-append (suc (suc k)) before (op ∷ after') operand)
    ∙ climb_declines (suc k) after' (right_level (suc (suc k)) op below) p s _
        (rw (la, o, o, right_declines k op below r s right lb n) refl) d

pub left_declines :
    (k : ℕ) (msg : Text) (op : Reader) (operand : Parser → Parsed Expr) (p q : Parser) (e : Expr)
    → operand p ≡ parsed (some e) q
    → op q ≡ (none, q)
    → left_level (suc k) msg op operand p ≡ parsed (some e) q
unfolding left_level left_loop
left_declines k msg op operand p q e r d = rw (r, left_loop, d, d) refl

pub left_accepts :
    (k : ℕ) (msg : Text) (op : Reader) (operand : Parser → Parsed Expr) (p q r s : Parser)
    (type' : BinopType) (left right : Expr)
    → operand p ≡ parsed (some left) q
    → op q ≡ (some type', r)
    → operand r ≡ parsed (some right) s
    → op s ≡ (none, s)
    → left_level (suc (suc k)) msg op operand p ≡ parsed (some (binop type' left right)) s
unfolding left_level left_loop
left_accepts k msg op operand p q r s type' left right a o b n =
    rw (a, left_loop, o, o, b, left_loop, n, n) refl
