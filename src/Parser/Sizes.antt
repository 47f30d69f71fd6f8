-- ===== src/Parser/Sizes.antt =====
-- How much input the functions of Parser.Input and the characters of Parser.Arithm.Terms leave.
use mrsh.Base.{
  ℕ, ◌+◌, ◌≤◌, ◌≡◌, refl, ◌⊎◌, inl, inr, Bool, true, false, [], ◌∷◌, some, Option-cases, Text, text,
  ◌++◌, length, arith,
}
use mrsh.Parser.Input.{
  Parser, parser_set_error, at, strip, comment, next_symbol, get_symbol, span, is_name_char,
  peek_name,
}
use mrsh.Parser.Arithm.Terms.{parse_str, skip_space, expect_char}

abbrev pub size : Parser → ℕ
size p = length p.rest

pub strip_size :
    (str rest behind : Text)
    → strip str rest ≡ some behind
    → length behind + length str ≡ length rest
unfolding strip
strip_size [] rest behind h = ground arith
strip_size (c ∷ str) [] behind h = cc
strip_size (c ∷ str) (d ∷ rest) behind h = ground (arith, strip_size str rest behind)

pub set_error-rest : (msg : Text) (p : Parser) → (parser_set_error msg p).rest ≡ p.rest
unfolding parser_set_error
set_error-rest msg p = elim (Option-cases p.error) [
  | inl e ↦ rw e refl
  | inr first ↦ rw (first.1) refl
]

pub parse_str-cases :
    (str : Text) (p : Parser)
    → (parse_str str p ≡ (false, p))
      ⊎ ((behind : Text) × (parse_str str p ≡ (true, at p behind))
          × (length behind + length str ≡ size p))
unfolding parse_str
parse_str-cases str p = elim (Option-cases (strip str p.rest)) [
  | inl e ↦ inl (rw (parse_str, e) refl)
  | inr (behind, e) ↦ inr (behind, rw (parse_str, e) refl, strip_size str p.rest behind e)
]

pub skip_space-le : (rest : Text) → length (skip_space rest) ≤ length rest
unfolding skip_space
skip_space-le [] = omega arith
skip_space-le (c ∷ rest) = ground (arith, skip_space-le rest)

-- An expected character is read, or the input stays.
pub expect_char-cases :
    (c : ℕ) (p : Parser)
    → ((q : Parser) × (expect_char c p ≡ (true, q)) × (size q ≤ size p))
      ⊎ ((q : Parser) × (expect_char c p ≡ (false, q)) × (size q ≤ size p))
unfolding expect_char
expect_char-cases c p = elim (parse_str-cases (c ∷ []) p) [
  | inl e ↦
      let msg = text "expected '" ++ (c ∷ text "'") in
      inr (parser_set_error msg p, rw e refl, rw (set_error-rest msg p) (omega arith))
  | inr (behind, e, h) ↦ inl (at p behind, rw e refl, omega arith)
]

pub span_size :
    (test : ℕ → Bool) (rest : Text)
    → length (span test rest).0 + length (span test rest).1 ≡ length rest
unfolding span
span_size test [] = refl
span_size test (c ∷ rest) = ground (arith, span_size test rest)

comment-le : (rest : Text) → length (comment rest).1 ≤ length rest
unfolding comment
comment-le [] = omega arith
comment-le (c ∷ rest) = ground (arith, comment-le rest)

next_symbol-le : (rest : Text) → length (next_symbol rest).1 ≤ length rest
unfolding next_symbol
next_symbol-le [] = omega arith
next_symbol-le (c ∷ rest) = ground (arith, next_symbol-le rest, comment-le (c ∷ rest))

pub get_symbol-le : (p : Parser) → size (get_symbol p).1 ≤ size p
unfolding get_symbol
get_symbol-le p = ground (arith, next_symbol-le p.rest)

-- The name and what follows it are the input that is left, which is no more than before.
pub peek_name_size :
    (in_braces : Bool) (p : Parser)
    → (length (peek_name in_braces p).0.0 + length (peek_name in_braces p).0.1
        ≡ size (peek_name in_braces p).1)
      × (size (peek_name in_braces p).1 ≤ size p)
unfolding peek_name
peek_name_size in_braces p =
    ground (arith, get_symbol-le p, span_size is_name_char (get_symbol p).1.rest)
