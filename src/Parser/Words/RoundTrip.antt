-- ===== src/Parser/Words/RoundTrip.antt =====
-- A word that is written with quotes is read back.
use mrsh.Base.{
  ℕ, suc, ◌≤◌, ◌<◌, ◌==◌, ◌||◌, ◌≡◌, refl, true, false, Bool-cases, Option-cases, inl, inr, List,
  [], ◌∷◌, ◌++◌, Option, none, some, Text, text, length, arith,
}
use mrsh.Ast.{Word, string, list}
use mrsh.Parser.Input.{is_operator_start, isblank}
use mrsh.Parser.Arithm.Print.{All}
use mrsh.Parser.Session.{
  Session, stepped, M, ◌>>=◌, >>=-stepped, return, unless_null, peek_char, read_char,
  consume_symbol, advance, fail_with, set_error,
}
use mrsh.Parser.Words.{
  words_of, join_words, push_buffer_word_string, single_quotes, double_quotes, word_loop,
}
use mrsh.Parser.Words.Quoting.{
  is_single, is_byte, is_plain, escape, single_quoted-text, single_quoted-open, double_quotes-text,
  read_char-then,
}

pub unless_null-some :
    {A B : Type 0} (m : M (Option A)) (f : A → M (Option B)) (s : Session) (a : A) (t : Session)
    → m s ≡ stepped (some a) t
    → unless_null m f s ≡ f a t
unfolding unless_null
unless_null-some m f s a t e = >>=-stepped m _ s (some a) t e

-- An error is passed on.
unless_null-fail_with :
    {A B : Type 0} (m : M (Option A)) (f : A → M (Option B)) (s : Session) (msg : Text)
    (t : Session)
    → m s ≡ fail_with msg t
    → unless_null m f s ≡ fail_with msg t
unfolding unless_null fail_with set_error ◌>>=◌ return
unless_null-fail_with m f s msg t e = elim (Option-cases t.input.error) [
  | inl h ↦ rw (unless_null, ◌>>=◌, e, h) refl
  | inr (first, h) ↦ rw (unless_null, ◌>>=◌, e, h) refl
]

single_quotes-open :
    (str : Text) (n : ℕ) (s : Session)
    → All is_single str
    → length str < n
    → single_quotes n (advance s (39 ∷ str))
      ≡ fail_with (text "single quotes not terminated") (advance s [])
unfolding single_quotes ◌>>=◌ read_char
single_quotes-open str n s a h = single_quoted-open str [] n s a h

single_quotes-text :
    (str rest : Text) (n : ℕ) (s : Session)
    → All is_single str
    → length str < n
    → single_quotes n (advance s (39 ∷ (str ++ (39 ∷ rest))))
      ≡ stepped (some (string str true false)) (advance s rest)
unfolding single_quotes ◌>>=◌ read_char
single_quotes-text str rest n s a h = single_quoted-text str rest [] n s a h

-- The word that a text between double quotes is.
abbrev pub double_word : Text → Word
double_word str = list (words_of (push_buffer_word_string [] str)) true

-- A word ends at these.
abbrev pub EndsWord : Text → Type 0
EndsWord [] = Unit
EndsWord (c ∷ rest) =
    (c == 0 || (c == 10 || (c == b')' || (is_operator_start c || isblank c)))) ≡ true

abbrev pub past : Session → Text → Session
past s rest = record s { input = record (s.input) { rest = rest; sym = none } }

plain-facts :
    (c : ℕ)
    → is_plain c ≡ true
    → ((c == 0 || (c == 10 || (c == b')' || c == 0))) ≡ false)
      × ((c == b'$') ≡ false)
      × ((c == b'`') ≡ false)
      × ((c == 39) ≡ false)
      × ((c == 34) ≡ false)
      × ((c == 92) ≡ false)
      × ((is_operator_start c || isblank c) ≡ false)
      × ((c == 0) ≡ false)
plain-facts c h = ground arith

stop-facts :
    (c : ℕ)
    → (c == 0 || (c == 10 || (c == b')' || (is_operator_start c || isblank c)))) ≡ true
    → (c == 0 || (c == 10 || (c == b')' || c == 0))) ≡ false
    → ((c == b'$') ≡ false)
      × ((c == b'`') ≡ false)
      × ((c == 39) ≡ false)
      × ((c == 34) ≡ false)
      × ((c == 92) ≡ false)
      × ((is_operator_start c || isblank c) ≡ true)
stop-facts c h e = ground arith

module _ (dollar back : M (Option Word)) where
  double_quotes_text :
      (str rest : Text) (n : ℕ) (s : Session)
      → All is_byte str
      → length str < n
      → double_quotes dollar back n (advance s (34 ∷ escape str (34 ∷ rest)))
        ≡ stepped (some (double_word str)) (advance s rest)
  unfolding double_quotes ◌>>=◌ read_char
  double_quotes_text str rest n s a h = double_quotes-text dollar back str rest [] n s a h

  pub word_loop-single :
      (str rest : Text) (n : ℕ) (children : List Word) (buf : Text) (s : Session)
      → All is_single str
      → length str < n
      → word_loop dollar back (suc n) 0 children buf (advance s (39 ∷ (str ++ (39 ∷ rest))))
        ≡ word_loop dollar back n 0
            (push_buffer_word_string children buf ++ (string str true false ∷ []))
            []
            (advance s rest)
  unfolding word_loop ◌>>=◌ peek_char
  word_loop-single str rest n children buf s a h =
      unless_null-some (single_quotes (suc n)) _ (advance s (39 ∷ (str ++ (39 ∷ rest)))) _
        (advance s rest) (single_quotes-text str rest (suc n) s a (omega arith))

  pub word_loop-double :
      (str rest : Text) (n : ℕ) (children : List Word) (buf : Text) (s : Session)
      → All is_byte str
      → length str < n
      → word_loop dollar back (suc n) 0 children buf (advance s (34 ∷ escape str (34 ∷ rest)))
        ≡ word_loop dollar back n 0
            (push_buffer_word_string children buf ++ (double_word str ∷ []))
            []
            (advance s rest)
  unfolding word_loop ◌>>=◌ peek_char
  word_loop-double str rest n children buf s a h =
      unless_null-some (double_quotes dollar back (suc n)) _
        (advance s (34 ∷ escape str (34 ∷ rest))) _ (advance s rest)
        (double_quotes_text str rest (suc n) s a (omega arith))

  pub word_loop-plain :
      (c : ℕ) (rest : Text) (n : ℕ) (children : List Word) (buf : Text) (s : Session)
      → is_plain c ≡ true
      → word_loop dollar back (suc n) 0 children buf (advance s (c ∷ rest))
        ≡ word_loop dollar back n 0 children (buf ++ (c ∷ [])) (advance s rest)
  unfolding word_loop ◌>>=◌ peek_char
  word_loop-plain c rest n children buf s h =
      let f = plain-facts c h in
      rw (f.0, f.1, f.2, f.3, f.4, f.5, f.6)
        (read_char-then c rest s (word_loop dollar back n 0 children (buf ++ (c ∷ []))) f.7)

  -- A quoted byte, which is no newline.
  pub word_loop-escaped :
      (c : ℕ) (rest : Text) (n : ℕ) (children : List Word) (buf : Text) (s : Session)
      → (c == 0 || c == 10) ≡ false
      → word_loop dollar back (suc n) 0 children buf (advance s (92 ∷ c ∷ rest))
        ≡ word_loop dollar back n 0 children (buf ++ (c ∷ [])) (advance s rest)
  unfolding word_loop ◌>>=◌ peek_char read_char
  word_loop-escaped c rest n children buf s h =
      let nul : (c == 0) ≡ false = ground arith in
      let line : (c == 10) ≡ false = ground arith in
      rw (line) (read_char-then c rest s (word_loop dollar back n 0 children (buf ++ (c ∷ []))) nul)

  pub word_loop-stop :
      (rest : Text) (n : ℕ) (children : List Word) (buf : Text) (s : Session)
      → EndsWord rest
      → word_loop dollar back (suc n) 0 children buf (advance s rest)
        ≡ stepped (some (join_words (push_buffer_word_string children buf))) (past s rest)
  unfolding word_loop ◌>>=◌ peek_char consume_symbol return
  word_loop-stop [] n children buf s h = refl
  word_loop-stop (c ∷ rest) n children buf s h =
      elim (Bool-cases (c == 0 || (c == 10 || (c == b')' || c == 0)))) [
        | inl e ↦ rw e refl
        | inr e ↦ let f = stop-facts c h e in rw (e, f.0, f.1, f.2, f.3, f.4, f.5) refl
      ]

  pub word_loop-open :
      (str : Text) (n : ℕ) (children : List Word) (buf : Text) (s : Session)
      → All is_single str
      → length str ≤ n
      → word_loop dollar back (suc n) 0 children buf (advance s (39 ∷ str))
        ≡ fail_with (text "single quotes not terminated") (advance s [])
  unfolding word_loop ◌>>=◌ peek_char
  word_loop-open str n children buf s a h =
      unless_null-fail_with (single_quotes (suc n)) _ (advance s (39 ∷ str))
        (text "single quotes not terminated") (advance s [])
        (single_quotes-open str (suc n) s a (omega arith))
