-- ===== src/Parser/Words.antt =====
-- Quotes and words: parser/word.c. A loop over the input takes fuel. `expect_dollar` and
-- `back_quotes`, which read programs, are arguments of the loops; Parser.Words.Dollar has them.

pub mod Arithmetic
pub mod Parameter
pub mod Dollar
pub mod Ends
pub mod ListEnds
pub mod DollarEnds
pub mod WordEnds
pub mod Meaning
pub mod Pieces
pub mod RoundTrip
pub mod Quoting
use mrsh.Base.{
  ℕ, zero, suc, ◌+◌, ◌-◌, ◌==◌, ◌&&◌, ◌||◌, Bool, true, false, not, if◌then◌else◌, List, [], ◌∷◌,
  ◌++◌, Option, none, some, Text, text,
}
use mrsh.Ast.{Word, Words, string, list, nil, cons}
use mrsh.Parser.Input.{token, is_operator_start, isblank}
use mrsh.Parser.Session.{
  Session, Step, stepped, exhausted, fail, M, ◌>>=◌, ◌>>◌, return, unless_null, peek_char,
  peek_second, read_char, fail_with, symbol, consume_symbol, read_continuation_line,
}

abbrev pub words_of : List Word → Words
words_of [] = nil
words_of (w ∷ ws) = cons w (words_of ws)

-- An array with one word is that word, and any other a list.
abbrev pub join_words : List Word → Word
join_words [] = list nil false
join_words (w ∷ []) = w
join_words (w ∷ v ∷ ws) = list (words_of (w ∷ v ∷ ws)) false

-- The buffer becomes a word unless it is empty.
abbrev pub push_buffer_word_string : List Word → Text → List Word
push_buffer_word_string children [] = children
push_buffer_word_string children (c ∷ buf) = children ++ (string (c ∷ buf) false false ∷ [])

-- A loop that has read these children and this buffer.
abbrev pub Loop : Type 0
Loop = List Word → Text → M (Option Word)

-- A word in the middle of another.
abbrev pub expand : M (Option Word) → Loop → Loop
expand part again children buf =
    unless_null part (λ w. again (push_buffer_word_string children buf ++ (w ∷ [])) [])

-- `parser_read_char` and `mrsh_buffer_append_char`, with the character that was peeked at.
abbrev pub take_char : ℕ → Loop → Loop
take_char c again children buf = do read_char; again children (buf ++ (c ∷ []))

abbrev pub skip_char : ℕ → M (Unit {0})
skip_char c = if c == 10 then read_continuation_line else (read_char >> return tt)

-- The loop of `single_quotes`.
unfoldable pub single_quoted : ℕ → Text → M (Option Word)
unfolding read_char read_continuation_line
single_quoted zero buf = exhausted
single_quoted (suc fuel) buf =
    (peek_char >>= λ c.
    if c == 0
    then fail_with (text "single quotes not terminated")
    else (if c == 39
        then (read_char >> return (some (string buf true false)))
        else (skip_char c >>= λ _. single_quoted fuel (buf ++ (c ∷ [])))))

unfoldable pub single_quotes : ℕ → M (Option Word)
unfolding single_quoted
single_quotes fuel = do c ← read_char; if c == 39 then single_quoted fuel [] else fail

-- A backslash that quotes the byte behind it.
abbrev pub quotes : ℕ → ℕ → Bool
quotes c next = next == b'$' || (next == b'`' || next == c)

-- The text between back quotes, up to the closing one.
unfoldable pub back_quoted : ℕ → Text → M (Option Text)
unfolding read_char read_continuation_line
back_quoted zero buf = exhausted
back_quoted (suc fuel) buf =
    (peek_char >>= λ c. peek_second >>= λ next.
    if c == 0
    then fail_with (text "back quotes not terminated")
    else (if c == b'`'
        then (read_char >> return (some buf))
        else (if c == 92 && quotes 92 next
            then (read_char >>= λ _. skip_char next >>= λ _. back_quoted fuel (buf ++ (next ∷ [])))
            else (skip_char c >>= λ _. back_quoted fuel (buf ++ (c ∷ []))))))

-- The end of a loop: the buffer is a child, and the symbol is used up.
unfoldable pub finish : Loop
unfolding consume_symbol
finish children buf = do
  consume_symbol
  return (some (join_words (push_buffer_word_string children buf)))

-- An unquoted backslash takes the character behind it, and with a newline is skipped.
unfoldable pub backslash : Loop → Loop
backslash again children buf = do
  read_char
  c ← peek_char
  if c == 10
      then (read_continuation_line >>= λ _. again children buf)
      else take_char c again children buf

module _ (expect_dollar back_quotes : M (Option Word)) where
  -- One round of `double_quotes`.
  unfoldable pub double_quoted : Loop → Loop
  unfolding read_char read_continuation_line
  double_quoted again children buf = do
    c ← peek_char
    next ← peek_second
    if c == 0
        then fail_with (text "double quotes not terminated")
        else (if c == 34
            then (read_char
                >> return (some (list (words_of (push_buffer_word_string children buf)) true)))
            else (if c == b'$'
                then expand expect_dollar again children buf
                else (if c == b'`'
                    then expand back_quotes again children buf
                    else (if c == 92 && (next == 34 || quotes 92 next)
                        then (read_char >>= λ _. take_char next again children buf)
                        else (if c == 92 && next == 10
                            then (read_char >>= λ _.
                                read_continuation_line >>= λ _. again children buf)
                            else take_char c again children buf)))))

  unfoldable pub double_quotes_loop : ℕ → Loop
  unfolding double_quoted
  double_quotes_loop zero children buf = exhausted
  double_quotes_loop (suc fuel) children buf = double_quoted (double_quotes_loop fuel) children buf

  unfoldable pub double_quotes : ℕ → M (Option Word)
  unfolding double_quotes_loop
  double_quotes fuel = do c ← read_char; if c == 34 then double_quotes_loop fuel [] [] else fail

  -- What `word` and `arithmetic_word` do alike: expansions and quotes.
  unfoldable pub quoting : ℕ → ℕ → Loop → Option Loop
  quoting fuel c again =
      if c == b'$'
      then some (expand expect_dollar again)
      else (if c == b'`'
          then some (expand back_quotes again)
          else (if c == 39
              then some (expand (single_quotes fuel) again)
              else (if c == 34 then some (expand (double_quotes fuel) again) else none)))

  -- One round of `word`. `fuel` is for the quotes.
  unfoldable pub word_round : ℕ → ℕ → Loop → Loop
  unfolding quoting finish backslash double_quotes single_quotes
  word_round fuel end again children buf = do
    c ← peek_char
    if c == 0 || (c == 10 || (c == b')' || c == end))
        then finish children buf
        else elim (quoting fuel c again) [
          | some quoted ↦ quoted children buf
          | none ↦
              if c == 92
              then backslash again children buf
              else (if is_operator_start c || isblank c
                  then finish children buf
                  else take_char c again children buf)
        ]

  unfoldable pub word_loop : ℕ → ℕ → Loop
  unfolding word_round
  word_loop zero end children buf = exhausted
  word_loop (suc fuel) end children buf =
      word_round (suc fuel) end (word_loop fuel end) children buf

  unfoldable pub word : ℕ → ℕ → M (Option Word)
  unfolding word_loop symbol
  word fuel end = do
    there ← symbol token
    c ← peek_char
    if not there || (is_operator_start c || (c == b')' || c == end))
        then return none
        else word_loop fuel end [] []
