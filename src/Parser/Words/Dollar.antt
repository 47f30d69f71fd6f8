-- ===== src/Parser/Words/Dollar.antt =====
-- What follows a dollar sign, and back quotes: parser/word.c. The parser of programs, which reads
-- command substitutions, is an argument until Parser.Grammar closes the circle.
use mrsh.Base.{
  ℕ, zero, suc, ◌==◌, ◌&&◌, ◌||◌, Bool, true, false, not, if◌then◌else◌, [], Option, none, some,
  Text, text, length,
}
use mrsh.Ast.{
  Word, OptWord, no_word, a_word, no_program, CommandLists, parameter, command, arithmetic, list,
  string, ParameterOp, none', minus, equal, qmark, plus, leading_hash, percent, dpercent, hash,
  dhash,
}
use mrsh.Ast
use mrsh.Parser.Input.{token, isdigit}
use mrsh.Parser.Session.{
  Session, stepped, aborted, out_of_fuel, exhausted, fail, M, ◌>>=◌, ◌>>◌, return, unless_null,
  peek_char, peek_second, read_char, set_error, fail_with, has_error, symbol, consume_symbol,
}
use mrsh.Parser.Session.Tokens.{expect_token, read_token, name_ahead}
use mrsh.Parser.Words.{back_quoted, word}
use mrsh.Parser.Words.Arithmetic.{arithmetic_word}
use mrsh.Parser.Words.Parameter.{word_list, expect_parameter_expression, is_empty}

unfoldable pub with_aliases : Bool → M (Unit {0})
with_aliases aliases s = stepped tt (record s { aliases = aliases })

unfoldable pub aliases_set : M Bool
aliases_set s = stepped (s.aliases) s

-- `program` is `mrsh_parse_program`. The next symbol has to be a token.
unfoldable pub expect_word_command : M (Option CommandLists) → M (Option Word)
unfolding read_char symbol consume_symbol aliases_set with_aliases has_error set_error expect_token
expect_word_command program = do
  c ← read_char
  there ← symbol token
  if not (c == b'(' && there) then fail else (do
    consume_symbol
    aliases ← aliases_set
    with_aliases false
    prog ← program
    with_aliases aliases
    error ← has_error
    if error then return none else elim prog [
      | none ↦ fail_with (text "expected a program")
      | some body ↦ expect_token (text ")") >>= λ closed.
          if closed then return (some (command (Ast.program body) false)) else return none
    ])

unfoldable pub no_parens : M (Unit {0})
no_parens s = stepped tt (record s { arith_nested_parens = 0 })

-- `words` is `word_list(parser, 0, arithmetic_word)`.
unfoldable pub expect_word_arithmetic : M (Option Word) → M (Option Word)
unfolding read_char no_parens set_error expect_token
expect_word_arithmetic words = do
  c ← read_char
  c' ← read_char
  if not (c == b'(' && c' == b'(') then fail else (do
    no_parens
    body ← words
    elim body [
      | none ↦ fail_with (text "expected an arithmetic expression")
      | some w ↦ expect_token (text ")") >>= λ first.
          if not first
          then return none
          else (expect_token (text ")") >>= λ second.
              if second then return (some (arithmetic w)) else return none)
    ])

abbrev is_special : ℕ → Bool
is_special c =
    c == b'@'
    || (c == b'*' || (c == b'#' || (c == b'?' || (c == b'-' || (c == b'$' || c == b'!')))))

-- A parameter without braces, whose name begins with `c`.
unfoldable pub plain_parameter : ℕ → M (Option Word)
unfolding name_ahead isdigit set_error read_token
plain_parameter c = do
  ahead ← name_ahead false
  let len =
      if not (is_empty ahead.0)
      then length ahead.0
      else (if is_special c || isdigit c then 1 else 0)
  if len == 0
      then fail_with (text "invalid parameter name")
      else (unless_null (read_token len)
          (λ name. return (some (parameter name none' false no_word))))

-- The arguments are the parsers of what can follow.
unfoldable pub expect_dollar_with :
    (words arithmetic_words : M (Option Word)) → M (Option CommandLists) → M (Option Word)
unfolding read_char expect_parameter_expression expect_word_arithmetic expect_word_command
    plain_parameter
expect_dollar_with words arithmetic_words program = do
  dollar ← read_char
  c ← peek_char
  next ← peek_second
  if not (dollar == b'$')
      then fail
      else (if c == b'{'
          then expect_parameter_expression words
          else (if c == b'('
              then (if next == b'('
                  then expect_word_arithmetic arithmetic_words
                  else expect_word_command program)
              else plain_parameter c))

-- The text is a program for a parser of its own, whose here-documents stay with its redirections.
abbrev pub subparser : Text → Session → Session
subparser buf s = record {
  input = record { rest = buf; sym = none; error = none };
  arith_nested_parens = 0;
  aliases = false;
  here_documents = [];
  documents = s.documents;
  created = s.created;
}

abbrev pub opt_program : Option CommandLists → Ast.OptProgram
opt_program none = no_program
opt_program (some body) = Ast.program body

abbrev pub keep_documents : Session → Session → Session
keep_documents sub s = record s { documents = sub.documents; created = sub.created }

unfoldable pub parse_back_quoted : M (Option CommandLists) → Text → M (Option Word)
unfolding set_error
parse_back_quoted program buf s = elim (program (subparser buf s)) [
  | stepped prog sub ↦ elim sub.input.error [
    | some msg ↦ fail_with msg (keep_documents sub s)
    | none ↦ stepped (some (command (opt_program prog) true)) (keep_documents sub s)
  ]
  | aborted ↦ aborted
  | out_of_fuel ↦ out_of_fuel
]

unfoldable pub back_quotes_with : ℕ → M (Option CommandLists) → M (Option Word)
unfolding read_char back_quoted parse_back_quoted
back_quotes_with fuel program = do
  c ← read_char
  if not (c == b'`') then fail else (unless_null (back_quoted fuel []) (parse_back_quoted program))

module _ (program : M (Option CommandLists)) where
  -- A dollar sign inside of one has less fuel.
  unfoldable pub expect_dollar : ℕ → M (Option Word)
  unfolding expect_dollar_with back_quotes_with word_list word arithmetic_word
  expect_dollar zero = exhausted
  expect_dollar (suc fuel) =
      let dollar = expect_dollar fuel in
      let back = back_quotes_with fuel program in
      expect_dollar_with (word_list fuel b'}' (word dollar back fuel))
        (word_list fuel 0 (λ end. arithmetic_word dollar back fuel)) program

  unfoldable pub back_quotes : ℕ → M (Option Word)
  unfolding back_quotes_with
  back_quotes zero = exhausted
  back_quotes (suc fuel) = back_quotes_with fuel program
