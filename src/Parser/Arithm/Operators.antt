-- ===== src/Parser/Arithm/Operators.antt =====
-- Which level finds an operator that stands in front of a parenthesis.
use mrsh.Base.{◌≡◌, refl, ◌⊎◌, inl, inr, List, [], ◌∷◌, ◌++◌, Option, none, some, Text, text, arith}
use mrsh.Arithm.Syntax.{
  BinopType, asterisk, slash, percent, dless, dgreat, less, lesseq, great, greateq, deq, bangeq,
  and, circ, or, dand, dor,
}
use mrsh.Parser.Input.{Parser}
use mrsh.Parser.Arithm.Levels.{
  Reader, right_ops, factor_op, addend_op, shift_op, comp_op, equal_op, binop_op,
}
use mrsh.Parser.Arithm.Print.{binop_text}
use mrsh.Parser.Arithm.Climbs.{ready, Decline}

abbrev pub all_ops : List Reader
all_ops = factor_op ∷ addend_op ∷ right_ops

-- The end of the input, or a parenthesis that closes.
abbrev pub Stops : Text → Type 0
Stops [] = Unit
Stops (c ∷ rest) = c ≡ b')'

end_declines : (error : Option Text) → Decline all_ops (ready error [])
unfolding factor_op addend_op shift_op comp_op equal_op binop_op
end_declines error = ground arith

pub closing_declines :
    (error : Option Text) (rest : Text) → Decline all_ops (ready error (b')' ∷ rest))
unfolding factor_op addend_op shift_op comp_op equal_op binop_op
closing_declines error rest = ground arith

pub qmark_declines :
    (error : Option Text) (rest : Text) → Decline all_ops (ready error (b'?' ∷ rest))
unfolding factor_op addend_op shift_op comp_op equal_op binop_op
qmark_declines error rest = ground arith

pub colon_declines :
    (error : Option Text) (rest : Text) → Decline all_ops (ready error (b':' ∷ rest))
unfolding factor_op addend_op shift_op comp_op equal_op binop_op
colon_declines error rest = ground arith

pub stop_declines :
    (error : Option Text) (rest : Text) → Stops rest → Decline all_ops (ready error rest)
stop_declines error [] h = end_declines error
stop_declines error (c ∷ rest) h = rw h (closing_declines error rest)

-- The text of an operator in front of a parenthesis.
abbrev pub operator : BinopType → Option Text → Text → Parser
operator type' error rest = ready error (binop_text type' ++ (b'(' ∷ rest))

-- An operator of `factor`, of `addend`, or of a level above.
abbrev pub IsFactor : BinopType → Type 0
IsFactor type' =
    (error : Option Text) (rest : Text)
    → factor_op (operator type' error rest) ≡ (some type', ready error (b'(' ∷ rest))

abbrev pub IsAddend : BinopType → Type 0
IsAddend type' =
    (error : Option Text) (rest : Text)
    → (factor_op (operator type' error rest) ≡ (none, operator type' error rest))
      × (addend_op (operator type' error rest) ≡ (some type', ready error (b'(' ∷ rest)))

abbrev pub IsRight : BinopType → Type 0
IsRight type' =
    (before : List Reader) × (op : Reader) × (after' : List Reader) × (before ++ (op ∷ after')
      ≡ right_ops)
    × ((error : Option Text) (rest : Text)
        → Decline (factor_op ∷ addend_op ∷ before) (operator type' error rest)
          × (op (operator type' error rest) ≡ (some type', ready error (b'(' ∷ rest))))

-- Every operator is found at its level, and at none below it.
pub level_of : (type' : BinopType) → IsFactor type' ⊎ (IsAddend type' ⊎ IsRight type')
unfolding factor_op addend_op shift_op comp_op equal_op binop_op
level_of asterisk = inl (λ error rest. refl)
level_of slash = inl (λ error rest. refl)
level_of percent = inl (λ error rest. refl)
level_of BinopType.plus = inr (inl (λ error rest. (refl, refl)))
level_of BinopType.minus = inr (inl (λ error rest. (refl, refl)))
level_of dless = inr (
    inr (
      [],
      shift_op,
      comp_op
          ∷ equal_op
          ∷ binop_op and (text "&")
          ∷ binop_op circ (text "^")
          ∷ binop_op or (text "|")
          ∷ binop_op dand (text "&&")
          ∷ binop_op dor (text "||")
          ∷ [],
      refl,
      λ error rest. ((refl, (refl, tt)), refl),
    ))
level_of dgreat = inr (
    inr (
      [],
      shift_op,
      comp_op
          ∷ equal_op
          ∷ binop_op and (text "&")
          ∷ binop_op circ (text "^")
          ∷ binop_op or (text "|")
          ∷ binop_op dand (text "&&")
          ∷ binop_op dor (text "||")
          ∷ [],
      refl,
      λ error rest. ((refl, (refl, tt)), refl),
    ))
level_of less = inr (
    inr (
      shift_op ∷ [],
      comp_op,
      equal_op
          ∷ binop_op and (text "&")
          ∷ binop_op circ (text "^")
          ∷ binop_op or (text "|")
          ∷ binop_op dand (text "&&")
          ∷ binop_op dor (text "||")
          ∷ [],
      refl,
      λ error rest. ((refl, (refl, (refl, tt))), refl),
    ))
level_of lesseq = inr (
    inr (
      shift_op ∷ [],
      comp_op,
      equal_op
          ∷ binop_op and (text "&")
          ∷ binop_op circ (text "^")
          ∷ binop_op or (text "|")
          ∷ binop_op dand (text "&&")
          ∷ binop_op dor (text "||")
          ∷ [],
      refl,
      λ error rest. ((refl, (refl, (refl, tt))), refl),
    ))
level_of great = inr (
    inr (
      shift_op ∷ [],
      comp_op,
      equal_op
          ∷ binop_op and (text "&")
          ∷ binop_op circ (text "^")
          ∷ binop_op or (text "|")
          ∷ binop_op dand (text "&&")
          ∷ binop_op dor (text "||")
          ∷ [],
      refl,
      λ error rest. ((refl, (refl, (refl, tt))), refl),
    ))
level_of greateq = inr (
    inr (
      shift_op ∷ [],
      comp_op,
      equal_op
          ∷ binop_op and (text "&")
          ∷ binop_op circ (text "^")
          ∷ binop_op or (text "|")
          ∷ binop_op dand (text "&&")
          ∷ binop_op dor (text "||")
          ∷ [],
      refl,
      λ error rest. ((refl, (refl, (refl, tt))), refl),
    ))
level_of deq = inr (
    inr (
      shift_op ∷ comp_op ∷ [],
      equal_op,
      binop_op and (text "&")
          ∷ binop_op circ (text "^")
          ∷ binop_op or (text "|")
          ∷ binop_op dand (text "&&")
          ∷ binop_op dor (text "||")
          ∷ [],
      refl,
      λ error rest. ((refl, (refl, (refl, (refl, tt)))), refl),
    ))
level_of bangeq = inr (
    inr (
      shift_op ∷ comp_op ∷ [],
      equal_op,
      binop_op and (text "&")
          ∷ binop_op circ (text "^")
          ∷ binop_op or (text "|")
          ∷ binop_op dand (text "&&")
          ∷ binop_op dor (text "||")
          ∷ [],
      refl,
      λ error rest. ((refl, (refl, (refl, (refl, tt)))), refl),
    ))
level_of and = inr (
    inr (
      shift_op ∷ comp_op ∷ equal_op ∷ [],
      binop_op and (text "&"),
      binop_op circ (text "^")
          ∷ binop_op or (text "|")
          ∷ binop_op dand (text "&&")
          ∷ binop_op dor (text "||")
          ∷ [],
      refl,
      λ error rest. ((refl, (refl, (refl, (refl, (refl, tt))))), refl),
    ))
level_of circ = inr (
    inr (
      shift_op ∷ comp_op ∷ equal_op ∷ binop_op and (text "&") ∷ [],
      binop_op circ (text "^"),
      binop_op or (text "|") ∷ binop_op dand (text "&&") ∷ binop_op dor (text "||") ∷ [],
      refl,
      λ error rest. ((refl, (refl, (refl, (refl, (refl, (refl, tt)))))), refl),
    ))
level_of or = inr (
    inr (
      shift_op ∷ comp_op ∷ equal_op ∷ binop_op and (text "&") ∷ binop_op circ (text "^") ∷ [],
      binop_op or (text "|"),
      binop_op dand (text "&&") ∷ binop_op dor (text "||") ∷ [],
      refl,
      λ error rest. ((refl, (refl, (refl, (refl, (refl, (refl, (refl, tt))))))), refl),
    ))
level_of dand = inr (
    inr (
      shift_op
          ∷ comp_op
          ∷ equal_op
          ∷ binop_op and (text "&")
          ∷ binop_op circ (text "^")
          ∷ binop_op or (text "|")
          ∷ [],
      binop_op dand (text "&&"),
      binop_op dor (text "||") ∷ [],
      refl,
      λ error rest. ((refl, (refl, (refl, (refl, (refl, (refl, (refl, (refl, tt)))))))), refl),
    ))
level_of dor = inr (
    inr (
      shift_op
          ∷ comp_op
          ∷ equal_op
          ∷ binop_op and (text "&")
          ∷ binop_op circ (text "^")
          ∷ binop_op or (text "|")
          ∷ binop_op dand (text "&&")
          ∷ [],
      binop_op dor (text "||"),
      [],
      refl,
      λ error rest.
          ((refl, (refl, (refl, (refl, (refl, (refl, (refl, (refl, (refl, tt))))))))), refl),
    ))
