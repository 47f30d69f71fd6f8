-- ===== src/Parser/Grammar/Program.antt =====
-- Complete commands, lines and programs, and the circle from words back to programs: the end of
-- parser/program.c. One amount of fuel bounds the loops and the depth of what is nested.
pub mod NoMore
pub mod LineReads
use mrsh.Base.{
  ℕ, zero, suc, ◌==◌, Bool, true, false, not, if◌then◌else◌, List, [], ◌∷◌, ◌++◌, Option, none,
  some, text,
}
use mrsh.Ast.{Word, Command, CommandLists}
use mrsh.Parser.Input.{eof_token}
use mrsh.Parser.Session.{
  stepped, exhausted, M, ◌>>=◌, ◌>>◌, return, unless_null, peek_char, peek_second, fail, read_char,
  set_error, fail_with, symbol, consume_symbol, read_newline, linebreak, newline_list, Line,
  HereDocument,
}
use mrsh.Parser.Words.{word}
use mrsh.Parser.Words.Dollar.{expect_dollar, back_quotes}
use mrsh.Parser.Grammar.{Alias, separator_op}
use mrsh.Parser.Grammar.HereDocument.{read_line, here_document_line_loop, read_here_documents}
use mrsh.Parser.Grammar.Lists.{Listed, lists_of, is_char, and_or}
use mrsh.Parser.Grammar.Compound.{compound_command_with}

-- The function `eof`.
abbrev at_eof : M Bool
at_eof = symbol eof_token

-- `parser_begin`
unfoldable pub parser_begin : M (Unit {0})
parser_begin s = stepped tt (record s { input = record (s.input) { error = none } })

module _ (word : M (Option Word)) (alias : Alias) (reader : M Line)
    (compound : M (Option Command)) where
  -- The function `list`.
  unfoldable pub parse_list : ℕ → M (Option Listed)
  unfolding and_or separator_op
  parse_list fuel =
      unless_null (and_or word alias reader compound fuel fuel)
        (λ l. separator_op >>= λ sep. return (some (l, is_char sep b'&')))

  unfoldable pub more_lists : ℕ → ℕ → List Listed → M (List Listed)
  unfolding parse_list
  more_lists zero fuel cmds = exhausted
  more_lists (suc rounds) fuel cmds =
      (parse_list fuel >>= λ l. elim l [
        | none ↦ return cmds
        | some cmd ↦ more_lists rounds fuel (cmds ++ (cmd ∷ []))
      ])

  abbrev pending : M (List HereDocument)
  pending s = stepped (s.here_documents) s

  -- What comes before each here-document of a complete command.
  gap : M Bool
  unfolding read_newline set_error
  gap = do
    there ← read_newline
    if there
        then return true
        else (set_error (text "expected a newline followed by a here-document") >> return false)

  -- Whether it succeeds, and the commands with those that it adds.
  unfoldable pub complete_command : ℕ → List Listed → M (Bool × List Listed)
  unfolding parse_list more_lists gap read_here_documents
  complete_command fuel cmds = do
    first ← parse_list fuel
    elim first [
      | none ↦ return (false, cmds)
      | some l ↦ more_lists fuel fuel (cmds ++ (l ∷ [])) >>= λ all.
          pending >>= λ docs. read_here_documents reader fuel gap docs >>= λ ok'. return (ok', all)
    ]

  unfoldable pub expect_complete_command : ℕ → M (Option (List Listed))
  unfolding complete_command set_error
  expect_complete_command fuel = do
    (ok', cmds) ← complete_command fuel []
    if ok' then return (some cmds) else fail_with (text "expected a complete command")

  -- The loop of `program`, whose last line break comes behind it unless the input ends.
  unfoldable pub more_lines : ℕ → ℕ → List Listed → M (List Listed)
  unfolding newline_list symbol complete_command linebreak
  more_lines zero fuel cmds = exhausted
  more_lines (suc rounds) fuel cmds =
      (newline_list fuel >>= λ there.
      if not there
      then (linebreak fuel >> return cmds)
      else (at_eof >>= λ ends.
          if ends
          then return cmds
          else (complete_command fuel cmds >>= λ (ok', all).
              if ok' then more_lines rounds fuel all else (linebreak fuel >> return all))))

  -- The function `program`.
  unfoldable pub program_with : ℕ → M (Option CommandLists)
  unfolding linebreak symbol expect_complete_command more_lines
  program_with fuel = do
    linebreak fuel
    ends ← at_eof
    if ends
        then return (some (lists_of []))
        else (unless_null (expect_complete_command fuel)
            (λ cmds. more_lines fuel fuel cmds >>= λ all. return (some (lists_of all))))

  abbrev skip_newline : ℕ → M (Unit {0})
  skip_newline c = if c == 10 then (read_char >> return tt) else return tt

  -- The rest of the line, with its newline, is dropped.
  unfoldable pub drop_line : M (Unit {0})
  unfolding read_line read_char consume_symbol
  drop_line = do read_line; c ← peek_char; skip_newline c; consume_symbol

  unfoldable pub line_with : ℕ → M (Option CommandLists)
  unfolding parser_begin symbol read_newline expect_complete_command set_error drop_line
  line_with fuel = do
    parser_begin
    ends ← at_eof
    if ends
        then return none
        else (read_newline >>= λ empty.
            if empty
            then return (some (lists_of []))
            else (expect_complete_command fuel >>= λ cmds. elim cmds [
              | none ↦ drop_line >> return none
              | some all ↦ at_eof >>= λ ends'.
                  (if ends' then return true else read_newline) >>= λ ended.
                  if ended
                  then return (some (lists_of all))
                  else (set_error (text "expected a newline") >> drop_line >> return none)
            ]))

module _ (program : M (Option CommandLists)) where
  -- The parsers of words and lines, with the command substitutions of `program`.
  unfoldable pub word_at : ℕ → M (Option Word)
  unfolding word expect_dollar back_quotes
  word_at fuel = word (expect_dollar program fuel) (back_quotes program fuel) fuel 0

  unfoldable pub here_document_line : ℕ → M Line
  unfolding here_document_line_loop expect_dollar back_quotes
  here_document_line fuel =
      here_document_line_loop (expect_dollar program fuel) (back_quotes program fuel) fuel [] []

  unfoldable pub compound_command : Alias → ℕ → M (Option Command)
  unfolding word_at here_document_line compound_command_with
  compound_command alias zero = exhausted
  compound_command alias (suc fuel) =
      compound_command_with (word_at (suc fuel)) alias (here_document_line (suc fuel))
        (compound_command alias fuel) (suc fuel)

-- `mrsh_parse_program`. A program inside of one has less fuel.
unfoldable pub parse_program : Alias → ℕ → M (Option CommandLists)
unfolding parser_begin program_with word_at here_document_line compound_command ◌>>=◌ return
    unless_null peek_char peek_second fail
parse_program alias zero = exhausted
parse_program alias (suc fuel) =
    let program = parse_program alias fuel in
    (parser_begin
      >> program_with (word_at program fuel) alias (here_document_line program fuel)
          (compound_command program alias fuel) fuel)

-- `mrsh_parse_line`
unfoldable pub parse_line : Alias → ℕ → M (Option CommandLists)
unfolding line_with word_at here_document_line compound_command parse_program
parse_line alias fuel =
    let program = parse_program alias fuel in
    line_with (word_at program fuel) alias (here_document_line program fuel)
      (compound_command program alias fuel) fuel
