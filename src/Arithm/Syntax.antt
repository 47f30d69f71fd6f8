-- ===== src/Arithm/Syntax.antt =====
-- The syntax tree of arithmetic expressions, with the constructors of include/mrsh/arithm.h.
use mrsh.Base.{ℤ, Text}

pub data UnopType : Type 0 where
  plus minus tilde bang : UnopType

pub data BinopType : Type 0 where
  asterisk slash percent plus minus dless dgreat less lesseq great greateq deq bangeq : BinopType
  and circ or dand dor : BinopType

pub data AssignOp : Type 0 where
  none' asterisk slash percent plus minus dless dgreat and circ or : AssignOp

-- A literal holds a `long`.
pub data Expr : Type 0 where
  literal : ℤ → Expr
  variable : Text → Expr
  unop : UnopType → Expr → Expr
  binop : BinopType → Expr → Expr → Expr
  cond : Expr → Expr → Expr → Expr
  assign : AssignOp → Text → Expr → Expr
