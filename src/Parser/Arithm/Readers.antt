-- ===== src/Parser/Arithm/Readers.antt =====
-- Every level's reader takes input when it finds its operator.
use mrsh.Base.{
  ℕ, ◌≤◌, ◌<◌, inl, inr, List, [], ◌∷◌, Option, none, some, Option-cases, Text, text, length, arith,
}
use mrsh.Arithm.Syntax.{BinopType}
use mrsh.Parser.Input.{Parser, strip}
use mrsh.Parser.Sizes.{strip_size, parse_str-cases, skip_space-le}
use mrsh.Parser.Arithm.Terms.{consume_whitespace}
use mrsh.Parser.Arithm.Levels.{
  Reader, first_of, then_space, factor_op, addend_op, shift_op, comp_op, equal_op, binop_op,
  right_ops, factor_tokens, addend_tokens, shift_tokens, comp_tokens, equal_tokens,
}
use mrsh.Parser.Arithm.Within.{Reads, IsReader}

-- No token is empty.
abbrev AreTokens : List (Text × BinopType) → Type 0
AreTokens [] = Unit
AreTokens (candidate ∷ rest) = (0 < length candidate.0) × AreTokens rest

first_of-IsReader :
    (tokens : List (Text × BinopType)) → AreTokens tokens → IsReader (first_of tokens)
unfolding first_of
first_of-IsReader [] h p = omega arith
first_of-IsReader (candidate ∷ rest) h p = elim (parse_str-cases candidate.0 p) [
  | inl e ↦ rw (first_of, e, e) (first_of-IsReader rest h.1 p)
  | inr (behind, e, l) ↦ rw (first_of, e, e) (omega (arith, h.0))
]

then_space-Reads : (m : ℕ) (x : Option BinopType × Parser) → Reads m x → Reads m (then_space x)
then_space-Reads m (none, p) h = h
then_space-Reads m (some type', p) h = omega (arith, skip_space-le p.rest)

Reads-weaken : (m n : ℕ) (x : Option BinopType × Parser) → m ≤ n → Reads m x → Reads n x
Reads-weaken m n (none, p) le h = omega arith
Reads-weaken m n (some type', p) le h = omega arith

pub factor_op-IsReader : IsReader factor_op
unfolding factor_op
factor_op-IsReader p = then_space-Reads _ _ (
    Reads-weaken _ _ _ (skip_space-le p.rest) (
      first_of-IsReader factor_tokens (omega arith, (omega arith, (omega arith, tt)))
        (consume_whitespace p)))

pub addend_op-IsReader : IsReader addend_op
unfolding addend_op
addend_op-IsReader p =
    then_space-Reads _ _ (first_of-IsReader addend_tokens (omega arith, (omega arith, tt)) p)

shift_op-IsReader : IsReader shift_op
unfolding shift_op
shift_op-IsReader p =
    then_space-Reads _ _ (first_of-IsReader shift_tokens (omega arith, (omega arith, tt)) p)

comp_op-IsReader : IsReader comp_op
unfolding comp_op
comp_op-IsReader p =
    then_space-Reads _ _ (
      first_of-IsReader comp_tokens (omega arith, (omega arith, (omega arith, (omega arith, tt))))
        p)

equal_op-IsReader : IsReader equal_op
unfolding equal_op
equal_op-IsReader p = first_of-IsReader equal_tokens (omega arith, (omega arith, tt)) p

binop_op-IsReader :
    (type' : BinopType) (str : Text) → 0 < length str → IsReader (binop_op type' str)
unfolding binop_op
binop_op-IsReader type' str h p = elim (Option-cases (strip str p.rest)) [
  | inl e ↦ rw (binop_op, e) (omega arith)
  | inr (behind, e) ↦
      rw (binop_op, e) (ground (arith, strip_size str p.rest behind e, skip_space-le behind))
]

abbrev pub AreReaders : List Reader → Type 0
AreReaders [] = Unit
AreReaders (op ∷ ops) = IsReader op × AreReaders ops

pub right_ops-AreReaders : AreReaders right_ops
right_ops-AreReaders = (
  shift_op-IsReader,
  (
    comp_op-IsReader,
    (
      equal_op-IsReader,
      (
        binop_op-IsReader BinopType.and (text "&") (omega arith),
        (
          binop_op-IsReader BinopType.circ (text "^") (omega arith),
          (
            binop_op-IsReader BinopType.or (text "|") (omega arith),
            (
              binop_op-IsReader BinopType.dand (text "&&") (omega arith),
              (binop_op-IsReader BinopType.dor (text "||") (omega arith), tt),
            ),
          ),
        ),
      ),
    ),
  ),
)
