-- ===== src/Parser/Words/Arithmetic.antt =====
-- Words of arithmetic expansions and of parameter expansions: parser/word.c.
use mrsh.Base.{
  ℕ, zero, suc, ◌+◌, ◌-◌, ◌==◌, ◌&&◌, ◌||◌, Bool, if◌then◌else◌, [], Option, none, some, text,
}
use mrsh.Ast.{Word}
use mrsh.Parser.Input.{isblank}
use mrsh.Parser.Session.{
  stepped, exhausted, M, ◌>>=◌, ◌>>◌, return, peek_char, peek_second, read_char, fail_with,
  read_continuation_line,
}
use mrsh.Parser.Words.{
  Loop, expand, take_char, quoting, finish, backslash, single_quotes, double_quotes,
}

unfoldable pub nest : ℕ → M (Unit {0})
nest n s = stepped tt (record s { arith_nested_parens = n })

unfoldable pub nested : M ℕ
nested s = stepped s.arith_nested_parens s

abbrev pub closes : ℕ → ℕ → ℕ → Bool
closes c next n = c == b')' && (next == b')' && n == 0)

module _ (expect_dollar back_quotes : M (Option Word)) where
  -- A character of an arithmetic expansion, which can open or close a parenthesis.
  unfoldable pub arithmetic_char : ℕ → Loop → Loop
  unfolding nest nested read_char
  arithmetic_char c again children buf = do
    n ← nested
    if c == b'('
        then (nest (n + 1) >>= λ _. take_char c again children buf)
        else (if c == b')'
            then (if n == 0
                then fail_with (text "unmatched closing parenthesis in arithmetic expression")
                else (nest (n - 1) >>= λ _. take_char c again children buf))
            else take_char c again children buf)

  -- One round of `arithmetic_word`. A shift operator is two characters at once; behind a backslash
  -- the tests of `next` see what was peeked at before it.
  unfoldable pub arithmetic_round : ℕ → Loop → Loop
  unfolding quoting finish nested arithmetic_char double_quotes single_quotes
  arithmetic_round fuel again children buf = do
    c ← peek_char
    next ← peek_second
    n ← nested
    if c == 0 || (c == 10 || (c == b';' || (isblank c || closes c next n)))
        then finish children buf
        else elim (quoting expect_dollar back_quotes fuel c again) [
          | some quoted ↦ quoted children buf
          | none ↦
              if c == 92
              then (do
                read_char
                d ← peek_char
                if d == 10
                    then (read_continuation_line >>= λ _. again children buf)
                    else arithmetic_char d again children buf)
              else (if (c == b'<' || c == b'>') && next == c
                  then take_char c (take_char c again) children buf
                  else arithmetic_char c again children buf)
        ]

  unfoldable pub arithmetic_word_loop : ℕ → Loop
  unfolding arithmetic_round
  arithmetic_word_loop zero children buf = exhausted
  arithmetic_word_loop (suc fuel) children buf =
      arithmetic_round (suc fuel) (arithmetic_word_loop fuel) children buf

  unfoldable pub arithmetic_word : ℕ → M (Option Word)
  unfolding arithmetic_word_loop nested
  arithmetic_word fuel = do
    c ← peek_char
    next ← peek_second
    n ← nested
    if closes c next n then return none else arithmetic_word_loop fuel [] []

  -- One round of `parameter_expansion_word`.
  unfoldable pub parameter_expansion_round : Loop → Loop
  unfolding finish backslash
  parameter_expansion_round again children buf = do
    c ← peek_char
    if c == 0
        then finish children buf
        else (if c == b'$'
            then expand expect_dollar again children buf
            else (if c == b'`'
                then expand back_quotes again children buf
                else (if c == 92
                    then backslash again children buf
                    else take_char c again children buf)))

  unfoldable pub parameter_expansion_word_loop : ℕ → Loop
  unfolding parameter_expansion_round
  parameter_expansion_word_loop zero children buf = exhausted
  parameter_expansion_word_loop (suc fuel) children buf =
      parameter_expansion_round (parameter_expansion_word_loop fuel) children buf

  unfoldable pub parameter_expansion_word : ℕ → M (Option Word)
  unfolding parameter_expansion_word_loop
  parameter_expansion_word fuel = parameter_expansion_word_loop fuel [] []
