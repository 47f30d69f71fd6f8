-- ===== src/Parser/Grammar/Simple/NoRedirect.antt =====
-- `io_redirect` of parser/program.c in front of a word.
use mrsh.Base.{
  ℕ, ◌==◌, ◌&&◌, ◌||◌, ◌≡◌, refl, ◌∙◌, sym, Bool, true, false, not, [], ◌∷◌, Option, none, Text,
  arith, negsuc,
}
use mrsh.Ast.{Word}
use mrsh.Parser.Input.{token, is_operator_start, isblank, isdigit, next_symbol}
use mrsh.Parser.Session.{
  Session, stepped, M, ◌>>=◌, >>=-stepped, return, symbol, unless_null, peek_char, peek_second,
}
use mrsh.Parser.Session.Tokens.{first_char}
use mrsh.Parser.Words.RoundTrip.{past}
use mrsh.Parser.Words.Pieces.{at_token}
use mrsh.Parser.Grammar.{io_number, io_redirect, io_file, io_here}

-- The first byte of a token that is no redirection.
abbrev pub begins_token : ℕ → Bool
begins_token c = not (c == 0 || (c == 10 || (c == b'#' || (is_operator_start c || isblank c))))

-- The first two bytes are no number of a redirection.
abbrev pub no_number : ℕ → ℕ → Bool
no_number c next = not (isdigit c && (next == b'<' || next == b'>'))

pub token-facts :
    (c : ℕ)
    → begins_token c ≡ true
    → ((c == 0) ≡ false)
      × ((c == 10) ≡ false)
      × (is_operator_start c ≡ false)
      × (isblank c ≡ false)
      × ((c == b'#') ≡ false)
      × ((c == b'<') ≡ false)
      × ((c == b'>') ≡ false)
token-facts c h = ground arith

pub symbol-begins :
    (c : ℕ) (rest : Text) (s : Session)
    → begins_token c ≡ true
    → symbol token (past s (c ∷ rest)) ≡ stepped true (at_token s (c ∷ rest))
unfolding symbol next_symbol
symbol-begins c rest s h =
    let f = token-facts c h in rw (symbol, next_symbol, f.0, f.1, f.2, f.3, f.4) refl

pub symbol-blank :
    (c : ℕ) (rest : Text) (s : Session)
    → begins_token c ≡ true
    → symbol token (past s (32 ∷ c ∷ rest)) ≡ stepped true (at_token s (c ∷ rest))
unfolding symbol next_symbol
symbol-blank c rest s h =
    let f = token-facts c h in rw (symbol, next_symbol, f.0, f.1, f.2, f.3, f.4) refl

io_number-token :
    (c : ℕ) (rest : Text) (s : Session)
    → no_number c (first_char rest) ≡ true
    → io_number (at_token s (c ∷ rest)) ≡ stepped (negsuc 0) (at_token s (c ∷ rest))
unfolding io_number ◌>>=◌ return peek_char peek_second
io_number-token c [] s k =
    let no : (isdigit c && (0 == b'<' || 0 == b'>')) ≡ false = ground arith in rw no refl
io_number-token c (d ∷ rest) s k =
    let no : (isdigit c && (d == b'<' || d == b'>')) ≡ false = ground arith in rw no refl

io_number-none :
    (c : ℕ) (rest : Text) (s t : Session)
    → symbol token t ≡ stepped true (at_token s (c ∷ rest))
    → no_number c (first_char rest) ≡ true
    → io_number t ≡ stepped (negsuc 0) (at_token s (c ∷ rest))
unfolding io_number
io_number-none c rest s t e k =
    let there = at_token s (c ∷ rest) in
    >>=-stepped (symbol token) _ t true there e
    ∙ (sym (>>=-stepped (symbol token) _ there true there (unfold symbol in refl))
        ∙ io_number-token c rest s k)

module _ (part : M (Option Word)) where
  io_file-none :
      (c : ℕ) (rest : Text) (s : Session)
      → begins_token c ≡ true
      → io_file part (at_token s (c ∷ rest)) ≡ stepped none (at_token s (c ∷ rest))
  unfolding io_file ◌>>=◌ return unless_null peek_char
  io_file-none c rest s h = let f = token-facts c h in rw (io_file, ◌>>=◌, peek_char, f.5, f.6) refl

  io_here-none :
      (rest : Text) (s : Session) → io_here part (at_token s rest) ≡ stepped none (at_token s rest)
  unfolding io_here ◌>>=◌ return unless_null
  io_here-none rest s = refl

  -- In front of another token there is no redirection.
  pub io_redirect-none :
      (c : ℕ) (rest : Text) (s t : Session)
      → symbol token t ≡ stepped true (at_token s (c ∷ rest))
      → begins_token c ≡ true
      → no_number c (first_char rest) ≡ true
      → io_redirect part t ≡ stepped none (at_token s (c ∷ rest))
  unfolding io_redirect ◌>>=◌ return
  io_redirect-none c rest s t e h k =
      >>=-stepped io_number _ t (negsuc 0) (at_token s (c ∷ rest)) (io_number-none c rest s t e k)
      ∙ (>>=-stepped (io_file part) _ (at_token s (c ∷ rest)) none (at_token s (c ∷ rest))
            (io_file-none c rest s h)
          ∙ >>=-stepped (io_here part) _ (at_token s (c ∷ rest)) none (at_token s (c ∷ rest))
              (io_here-none (c ∷ rest) s))
