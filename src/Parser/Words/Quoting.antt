-- ===== src/Parser/Words/Quoting.antt =====
-- Words written with quotes, and what `word` reads of them.
use mrsh.Base.{
  ℕ, zero, suc, ◌<◌, ◌==◌, ◌||◌, ◌≡◌, refl, ◌∙◌, Bool, true, false, not, if◌then◌else◌, Bool-cases,
  inl, inr, [], ◌∷◌, ◌++◌, append_assoc, append-nil, Option, some, Text, text, length, arith,
}
use mrsh.Ast.{Word, string, list}
use mrsh.Parser.Input.{is_operator_start, isblank}
use mrsh.Parser.Arithm.Print.{All}
use mrsh.Parser.Session.{
  Session, stepped, M, ◌>>=◌, >>=-stepped, return, peek_char, peek_second, read_char, advance,
  read_continuation_line, fail_with,
}
use mrsh.Parser.Words.{
  words_of, push_buffer_word_string, single_quoted, double_quotes_loop, skip_char,
}

-- What can stand between single quotes, and inside of double ones.
abbrev pub is_single : ℕ → Bool
is_single c = not (c == 0 || c == 39)

abbrev pub is_byte : ℕ → Bool
is_byte c = not (c == 0)

-- A byte that stands for itself in a word.
abbrev pub is_plain : ℕ → Bool
is_plain c = not (
    (c == 0 || (c == 10 || c == b')'))
    || ((c == b'$' || (c == b'`' || (c == 39 || (c == 34 || c == 92))))
        || (is_operator_start c || isblank c)))

-- A backslash in front of what is special between double quotes.
abbrev pub escape : Text → Text → Text
escape [] rest = rest
escape (c ∷ str) rest =
    if c == b'$' || (c == b'`' || (c == 34 || c == 92))
    then 92 ∷ c ∷ escape str rest
    else c ∷ escape str rest

single-facts : (c : ℕ) → is_single c ≡ true → ((c == 0) ≡ false) × ((c == 39) ≡ false)
single-facts c h = ground arith

pub read_char-cons :
    (c : ℕ) (rest : Text) (s : Session)
    → (c == 0) ≡ false
    → read_char (advance s (c ∷ rest)) ≡ stepped c (advance s rest)
unfolding read_char
read_char-cons c rest s h = rw (read_char, h) refl

continuation-cons :
    (rest : Text) (s : Session)
    → read_continuation_line (advance s (10 ∷ rest)) ≡ stepped tt (advance s rest)
unfolding read_continuation_line ◌>>=◌ return read_char
continuation-cons rest s = refl

-- What is left once a byte has been read.
pub read_char-then :
    {A : Type 0} (c : ℕ) (rest : Text) (s : Session) (m : M A)
    → (c == 0) ≡ false
    → (read_char >>= λ _. m) (advance s (c ∷ rest)) ≡ m (advance s rest)
read_char-then c rest s m h =
    >>=-stepped read_char (λ _. m) (advance s (c ∷ rest)) c (advance s rest)
      (read_char-cons c rest s h)

pub skip_char-cons :
    (c : ℕ) (rest : Text) (s : Session)
    → (c == 0) ≡ false
    → skip_char c (advance s (c ∷ rest)) ≡ stepped tt (advance s rest)
skip_char-cons c rest s h = elim (Bool-cases (c == 10)) [
  | inl e ↦ let ten : c ≡ 10 = ground arith in rw ten (continuation-cons rest s)
  | inr e ↦ rw e (read_char-then c rest s (return tt) h ∙ unfold return in refl)
]

-- A text between single quotes.
pub single_quoted-text :
    (str rest buf : Text) (n : ℕ) (s : Session)
    → All is_single str
    → length str < n
    → single_quoted n buf (advance s (str ++ (39 ∷ rest)))
      ≡ stepped (some (string (buf ++ str) true false)) (advance s rest)
unfolding single_quoted ◌>>=◌ return peek_char read_char read_continuation_line
single_quoted-text str rest buf zero s a h = elim h [ ]
single_quoted-text [] rest buf (suc n) s a h = rw (append-nil buf) refl
single_quoted-text (c ∷ str) rest buf (suc n) s a h =
    let ih =
      rw (append_assoc buf (c ∷ []) str) at
        (single_quoted-text str rest (buf ++ (c ∷ [])) n s a.1 (omega arith)) in
    let (nul, quote) = single-facts c a.0 in
    rw (single_quoted, ◌>>=◌, nul, quote)
      (>>=-stepped (skip_char c) _ (advance s (c ∷ (str ++ (39 ∷ rest)))) tt
          (advance s (str ++ (39 ∷ rest))) (skip_char-cons c (str ++ (39 ∷ rest)) s nul)
        ∙ ih)

-- A text between double quotes.
pub double_quotes-text :
    (dollar back : M (Option Word)) (str rest buf : Text) (n : ℕ) (s : Session)
    → All is_byte str
    → length str < n
    → double_quotes_loop dollar back n [] buf (advance s (escape str (34 ∷ rest)))
      ≡ stepped
          (some (list (words_of (push_buffer_word_string [] (buf ++ str))) true))
          (advance s rest)
unfolding double_quotes_loop ◌>>=◌ return peek_char peek_second read_char read_continuation_line
double_quotes-text dollar back str rest buf zero s a h = elim h [ ]
double_quotes-text dollar back [] rest buf (suc n) s a h = rw (append-nil buf) refl
double_quotes-text dollar back (c ∷ str) rest buf (suc n) s a h =
    let ih =
      rw (append_assoc buf (c ∷ []) str) at
        (double_quotes-text dollar back str rest (buf ++ (c ∷ [])) n s a.1 (omega arith)) in
    ground (arith, ih)

-- A text that no single quote ends.
pub single_quoted-open :
    (str buf : Text) (n : ℕ) (s : Session)
    → All is_single str
    → length str < n
    → single_quoted n buf (advance s str)
      ≡ fail_with (text "single quotes not terminated") (advance s [])
unfolding single_quoted ◌>>=◌ peek_char
single_quoted-open str buf zero s a h = elim h [ ]
single_quoted-open [] buf (suc n) s a h = refl
single_quoted-open (c ∷ str) buf (suc n) s a h =
    let (nul, quote) = single-facts c a.0 in
    rw (single_quoted, ◌>>=◌, nul, quote)
      (>>=-stepped (skip_char c) _ (advance s (c ∷ str)) tt (advance s str)
          (skip_char-cons c str s nul)
        ∙ single_quoted-open str (buf ++ (c ∷ [])) n s a.1 (omega arith))
