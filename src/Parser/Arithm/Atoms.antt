-- ===== src/Parser/Arithm/Atoms.antt =====
-- The terms of a printed expression, and that nothing else begins like them.
use mrsh.Base.{
  ℕ, ◌≡◌, refl, ◌==◌, [], ◌∷◌, ◌++◌, Option, none, some, Text, true, false, Bool, ap, arith, length,
  ℤ,
}
use mrsh.Arithm.Syntax.{Expr, literal, variable, unop, UnopType, plus, minus, tilde, bang}
use mrsh.Builtin.Control.{Strtol}
use mrsh.Word.Split.{isspace}
use mrsh.Parser.Input.{
  Parser, Parsed, parsed, strip, get_symbol, isdigit, is_name_char, span, peek_name,
}
use mrsh.Parser.Arithm.Terms.{
  parse_str, skip_space, expect_char, unop_type, parse_unop, parse_paren, parse_literal,
  parse_variable, parse_term,
}
use mrsh.Parser.Arithm.Print.{All, IsName, IsNumber, unop_char}
use mrsh.Parser.Arithm.Climbs.{ready}
use mrsh.Parser.Arithm.Operators.{Stops}

==_refl : (n : ℕ) → (n == n) ≡ true
==_refl n = ground arith

-- The test fails on what follows.
abbrev pub Ended : (ℕ → Bool) → Text → Type 0
Ended test [] = Unit
Ended test (c ∷ rest) = test c ≡ false

pub span-append :
    (test : ℕ → Bool) (str rest : Text)
    → All test str
    → Ended test rest
    → span test (str ++ rest) ≡ (str, rest)
unfolding span
span-append test [] [] a h = refl
span-append test [] (c ∷ rest) a h = rw h refl
span-append test (c ∷ str) rest a h = rw (a.0, span-append test str rest a.1 h) refl

pub digit-facts :
    (c : ℕ)
    → isdigit c ≡ true
    → ((c == b'(') ≡ false) × (unop_type c ≡ none) × (isspace c ≡ false) × (is_name_char c ≡ true)
unfolding isdigit isspace is_name_char
digit-facts c h = ground arith

pub name-facts :
    (c : ℕ)
    → is_name_char c ≡ true
    → ((c == b'(') ≡ false) × (unop_type c ≡ none) × (isspace c ≡ false)
unfolding isdigit isspace is_name_char
name-facts c h = ground arith

pub Stops-Ended_name : (rest : Text) → Stops rest → Ended is_name_char rest
unfolding is_name_char isdigit
Stops-Ended_name [] h = tt
Stops-Ended_name (c ∷ rest) h = rw h refl

pub Stops-Ended_digit : (rest : Text) → Stops rest → Ended isdigit rest
unfolding isdigit
Stops-Ended_digit [] h = tt
Stops-Ended_digit (c ∷ rest) h = rw h refl

-- A name is peeked at up to its end.
pub peek_name-append :
    (error : Option Text) (name rest : Text)
    → IsName name
    → Ended is_name_char rest
    → peek_name false (ready error (name ++ rest)) ≡ ((name, rest), ready error (name ++ rest))
unfolding peek_name get_symbol
peek_name-append error [] rest n h = elim n [ ]
peek_name-append error (c ∷ name) rest n h = rw (n.0) (
    ap (λ read. (read, ready error (c ∷ (name ++ rest))))
      (span-append is_name_char (c ∷ name) rest n.1 h))

module _ (strtol : Strtol) (expr : Parser → Parsed Expr) (error : Option Text) where
  -- A parenthesised expression.
  pub term_paren :
      (str rest : Text) (e : Expr)
      → skip_space str ≡ str
      → expr (ready error str) ≡ parsed (some e) (ready error (b')' ∷ rest))
      → parse_term strtol expr (ready error (b'(' ∷ str)) ≡ parsed (some e) (ready error rest)
  unfolding parse_term parse_paren parse_str expect_char strip
  term_paren str rest e s h = rw (s, h) refl

  pub term_unop :
      (type' : UnopType) (str rest : Text) (e : Expr)
      → expr (ready error str) ≡ parsed (some e) (ready error rest)
      → parse_term strtol expr (ready error (unop_char type' ∷ str))
        ≡ parsed (some (unop type' e)) (ready error rest)
  unfolding parse_term parse_paren parse_unop parse_str strip
  term_unop plus str rest e h = rw h refl
  term_unop minus str rest e h = rw h refl
  term_unop tilde str rest e h = rw h refl
  term_unop bang str rest e h = rw h refl

  -- A byte that opens no parenthesis and is no operator.
  no_paren :
      (c : ℕ) (str : Text)
      → (c == b'(') ≡ false
      → parse_paren expr (ready error (c ∷ str)) ≡ parsed none (ready error (c ∷ str))
  unfolding parse_paren parse_str strip
  no_paren c str h = rw (parse_paren, h, parse_str, h) refl

  no_unop :
      (c : ℕ) (str : Text)
      → unop_type c ≡ none
      → parse_unop expr (ready error (c ∷ str)) ≡ parsed none (ready error (c ∷ str))
  unfolding parse_unop
  no_unop c str h = rw (parse_unop, h) refl

  literal_read :
      (c : ℕ) (str rest : Text) (v : ℤ)
      → IsNumber (c ∷ str)
      → strtol (c ∷ str) ≡ record { value = v; end = length (c ∷ str); errno = false }
      → Ended isdigit rest
      → parse_literal strtol (ready error (c ∷ (str ++ rest)))
        ≡ parsed (some (literal v)) (ready error rest)
  unfolding parse_literal
  literal_read c str rest v n r h =
      rw
        (
          parse_literal,
          span-append isdigit (c ∷ str) rest n h,
          r,
          ==_refl (length (c ∷ str)),
          span-append isdigit (c ∷ str) rest n h,
        )
        refl

  pub term_literal :
      (str rest : Text) (v : ℤ)
      → IsNumber str
      → strtol str ≡ record { value = v; end = length str; errno = false }
      → Ended isdigit rest
      → parse_term strtol expr (ready error (str ++ rest))
        ≡ parsed (some (literal v)) (ready error rest)
  unfolding parse_term
  term_literal [] rest v n r h = elim n [ ]
  term_literal (c ∷ str) rest v n r h =
      let f = digit-facts c n.0 in
      rw
        (no_paren c (str ++ rest) f.0, no_unop c (str ++ rest) f.1, literal_read c str rest v n r h)
        refl

  no_literal :
      (c : ℕ) (str : Text)
      → isdigit c ≡ false
      → parse_literal strtol (ready error (c ∷ str)) ≡ parsed none (ready error (c ∷ str))
  unfolding parse_literal span
  no_literal c str h = rw (parse_literal, h) refl

  variable_read :
      (c : ℕ) (name rest : Text)
      → IsName (c ∷ name)
      → Ended is_name_char rest
      → parse_variable strtol (ready error (c ∷ (name ++ rest)))
        ≡ parsed (some (variable (c ∷ name))) (ready error rest)
  unfolding parse_variable
  variable_read c name rest n h =
      let e = peek_name-append error (c ∷ name) rest n h in rw (parse_variable, e, e) refl

  pub term_variable :
      (name rest : Text)
      → IsName name
      → Ended is_name_char rest
      → parse_term strtol expr (ready error (name ++ rest))
        ≡ parsed (some (variable name)) (ready error rest)
  unfolding parse_term
  term_variable [] rest n h = elim n [ ]
  term_variable (c ∷ name) rest n h =
      let f = name-facts c n.1.0 in
      rw
        (
          no_paren c (name ++ rest) f.0,
          no_unop c (name ++ rest) f.1,
          no_literal c (name ++ rest) n.0,
          variable_read c name rest n h,
        )
        refl
