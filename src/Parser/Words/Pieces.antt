-- ===== src/Parser/Words/Pieces.antt =====
-- Words made of plain, escaped, single-quoted and double-quoted pieces.
use mrsh.Base.{
  ℕ, zero, suc, ◌+◌, ◌≤◌, ◌<◌, ◌==◌, ◌||◌, ◌≡◌, refl, ◌∙◌, ap, true, false, List, [], ◌∷◌, ◌++◌,
  Option, some, Text, length, length-append, arith,
}
use mrsh.Ast.{Word, string}
use mrsh.Parser.Input.{token, is_operator_start}
use mrsh.Parser.Session.{Session, stepped, aborted, M, ◌>>=◌, peek_char, read_char, advance}
use mrsh.Parser.Session.Tokens.{first_char}
use mrsh.Parser.Words.{push_buffer_word_string, word_loop, word}
use mrsh.Parser.Words.Quoting.{escape}
use mrsh.Parser.Words.RoundTrip.{
  double_word, word_loop-plain, word_loop-escaped, word_loop-single, word_loop-double,
  word_loop-stop, EndsWord, past,
}
use mrsh.Parser.Words.Meaning.{
  Piece, plain, escaped, single, double, print, IsPiece, ArePieces, collect, meaning,
  collect-meaning,
}

-- The next symbol is known to be a token.
abbrev pub at_token : Session → Text → Session
at_token s rest = record s { input = record (s.input) { rest = rest; sym = some token } }

pub escape-longer : (str rest : Text) → length str + length rest ≤ length (escape str rest)
escape-longer [] rest = omega arith
escape-longer (c ∷ str) rest = ground (arith, escape-longer str rest)

begins :
    (p : Piece) (ps : List Piece) (rest : Text)
    → IsPiece p
    → (is_operator_start (first_char (print (p ∷ ps) rest))
        || (first_char (print (p ∷ ps) rest) == b')' || first_char (print (p ∷ ps) rest) == 0))
      ≡ false
begins (plain c) ps rest h = ground arith
begins (escaped c) ps rest h = refl
begins (single str) ps rest h = refl
begins (double str) ps rest h = refl

module _ (dollar back : M (Option Word)) where
  -- The loop gets behind the pieces, with fuel for what is left.
  abbrev Passes : List Piece → Text → ℕ → List Word → Text → Session → Type 0
  Passes ps rest n children buf s =
      (m : ℕ) × (length rest ≤ m)
      × (word_loop dollar back n 0 children buf (advance s (print ps rest))
          ≡ word_loop dollar back (suc m) 0 (collect children buf ps).0 (collect children buf ps).1
              (advance s rest))

  word_loop-pieces :
      (ps : List Piece) (rest : Text) (n : ℕ) (children : List Word) (buf : Text) (s : Session)
      → ArePieces ps
      → length (print ps rest) < n
      → Passes ps rest n children buf s
  word_loop-pieces ps rest zero children buf s a l = elim l [ ]
  word_loop-pieces [] rest (suc n) children buf s a l = (n, omega arith, refl)
  word_loop-pieces (plain c ∷ ps) rest (suc n) children buf s a l =
      let (m, le, e) = word_loop-pieces ps rest n children (buf ++ (c ∷ [])) s a.1 (omega arith) in
      (m, le, word_loop-plain dollar back c (print ps rest) n children buf s a.0 ∙ e)
  word_loop-pieces (escaped c ∷ ps) rest (suc n) children buf s a l =
      let (m, le, e) = word_loop-pieces ps rest n children (buf ++ (c ∷ [])) s a.1 (omega arith) in
      (m, le, word_loop-escaped dollar back c (print ps rest) n children buf s a.0 ∙ e)
  word_loop-pieces (single str ∷ ps) rest (suc n) children buf s a l =
      let long = length-append {0} str (39 ∷ print ps rest) in
      let (m, le, e) =
        word_loop-pieces ps rest n
          (push_buffer_word_string children buf ++ (string str true false ∷ [])) [] s a.1
          (omega (arith, long, l)) in
      (
        m,
        le,
        word_loop-single dollar back str (print ps rest) n children buf s a.0
              (omega (arith, long, l))
            ∙ e,
      )
  word_loop-pieces (double str ∷ ps) rest (suc n) children buf s a l =
      let long = escape-longer str (34 ∷ print ps rest) in
      let (m, le, e) =
        word_loop-pieces ps rest n (push_buffer_word_string children buf ++ (double_word str ∷ []))
          [] s a.1 (omega (arith, long, l)) in
      (
        m,
        le,
        word_loop-double dollar back str (print ps rest) n children buf s a.0
              (omega (arith, long, l))
            ∙ e,
      )

  -- When the next symbol is known to be a token, and the input is a word of pieces with an end of
  -- words behind it, then with fuel above the length of the input `word` returns these pieces: what
  -- stands between quotes unchanged and marked as quoted, and adjacent unquoted bytes as one string.
  -- The input goes on behind the word, and its next symbol is not known yet.
  pub word-print :
      (p : Piece) (ps : List Piece) (rest : Text) (n : ℕ) (s : Session)
      → ArePieces (p ∷ ps)
      → EndsWord rest
      → length (print (p ∷ ps) rest) < n
      → word dollar back n 0 (at_token s (print (p ∷ ps) rest))
        ≡ stepped (some (meaning (p ∷ ps))) (past s rest)
  unfolding word ◌>>=◌ peek_char
  word-print p ps rest n s a h l =
      let (m, le, e) = word_loop-pieces (p ∷ ps) rest n [] [] (at_token s []) a l in
      let r = collect [] [] (p ∷ ps) in
      rw (begins p ps rest a.0) (
        e
        ∙ (word_loop-stop dollar back rest m r.0 r.1 (at_token s []) h
            ∙ ap (λ w. stepped (some w) (past s rest)) (collect-meaning (p ∷ ps))))

  -- When the next symbol is known to be a token, and the input is pieces, of which there is one or
  -- more, and then a backslash that ends it, `word` does not return: reading on fails an assertion.
  pub word-trailing_backslash :
      (p : Piece) (ps : List Piece) (n : ℕ) (s : Session)
      → ArePieces (p ∷ ps)
      → length (print (p ∷ ps) (92 ∷ [])) < n
      → word dollar back n 0 (at_token s (print (p ∷ ps) (92 ∷ []))) ≡ aborted
  unfolding word word_loop ◌>>=◌ peek_char read_char
  word-trailing_backslash p ps n s a l =
      let (m, le, e) = word_loop-pieces (p ∷ ps) (92 ∷ []) n [] [] (at_token s []) a l in
      rw (begins p ps (92 ∷ []) a.0) (e ∙ refl)
