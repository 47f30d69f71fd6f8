-- ===== src/Parser/Arithm/LevelEnds.antt =====
-- The levels of binary operators return, if their operands do.
use mrsh.Base.{ℕ, zero, suc, ◌<◌, inl, inr, List, [], ◌∷◌, Text, text, arith}
use mrsh.Arithm.Syntax.{Expr, binop}
use mrsh.Parser.Input.{Parser, Parsed}
use mrsh.Parser.Sizes.{size}
use mrsh.Parser.Arithm.Levels.{Reader, left_loop, left_level, right_level, climb}
use mrsh.Parser.Arithm.Within.{Within, Ends, IsReader, after-Within, error-Within, Reads-cases}
use mrsh.Parser.Arithm.Readers.{AreReaders}

left_loop-Within :
    (k : ℕ) (msg : Text) (op : Reader) (operand : Parser → Parsed Expr) (expr : Expr) (p : Parser)
    (m : ℕ)
    → IsReader op
    → Ends k operand
    → size p < k
    → size p < m
    → Within m (left_loop k msg op operand expr p)
unfolding left_loop
left_loop-Within zero msg op operand expr p m r h f l = absurd (omega arith)
left_loop-Within (suc k) msg op operand expr p m r h f l = elim (Reads-cases _ (op p) (r p)) [
  | inl (q, e, le) ↦ rw (left_loop, e, e) (omega arith)
  | inr (type', q, e, lt) ↦
      rw (left_loop, e, e)
        (after-Within (size q) m (operand q) _ (h q (omega arith))
          (λ s le. error-Within m msg s (omega arith))
          (λ right s lt'.
            left_loop-Within k msg op operand (binop type' expr right) s m r
              (λ t below. h t (omega arith)) (omega arith) (omega arith)))
]

pub left_level-Ends :
    (k : ℕ) (msg : Text) (op : Reader) (operand : Parser → Parsed Expr)
    → IsReader op
    → Ends k operand
    → Ends k (left_level k msg op operand)
unfolding left_level
left_level-Ends k msg op operand r h p below =
    after-Within (size p) (size p) (operand p) _ (h p below) (λ q le. le)
      (λ e q lt. left_loop-Within k msg op operand e q (size p) r h (omega arith) lt)

right_level-Within :
    (k n : ℕ) (op : Reader) (operand : Parser → Parsed Expr) (p : Parser)
    → IsReader op
    → Ends n operand
    → size p < n
    → size p < k
    → Within (size p) (right_level k op operand p)
unfolding right_level
right_level-Within zero n op operand p r h b f = absurd (omega arith)
right_level-Within (suc k) n op operand p r h b f =
    after-Within (size p) (size p) (operand p) _ (h p b) (λ q le. le)
      (λ e q lt. elim (Reads-cases _ (op q) (r q)) [
        | inl (s, x, le) ↦ rw (x, x) (omega arith)
        | inr (type', s, x, lt') ↦
            rw (x, x)
              (after-Within (size s) (size p) (right_level k op operand s) _
                (right_level-Within k n op operand s r h (omega arith) (omega arith))
                (λ t le. error-Within (size p) (text "expected a term") t (omega arith))
                (λ right t lt''. omega arith))
      ])

pub climb-Ends :
    (k : ℕ) (ops : List Reader) (operand : Parser → Parsed Expr)
    → AreReaders ops
    → Ends k operand
    → Ends k (climb k ops operand)
unfolding climb
climb-Ends k [] operand r h = h
climb-Ends k (op ∷ ops) operand r h =
    climb-Ends k ops (right_level k op operand) r.1
      (λ p b. right_level-Within k k op operand p r.0 h b b)
