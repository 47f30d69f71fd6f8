-- ===== src/Parser/Grammar/Lists.antt =====
-- Commands, pipelines and lists: parser/program.c. The parsers of words and of compound commands are
-- arguments.
use mrsh.Base.{
  ℕ, zero, suc, ◌==◌, Bool, true, false, not, if◌then◌else◌, List, [], ◌∷◌, ◌++◌, Option, none,
  some, text,
}
use mrsh.Ast.{
  Word, Words, Command, OptCommand, no_command, a_command, Commands, no_commands, next_command,
  CommandLists, no_lists, command_list, AndOrList, pipeline, binop, BinopType, brace_group,
  subshell, if_clause, for_clause, loop_clause, case_clause, function_definition, LoopType,
  CaseItems, no_items, item,
}
use mrsh.Ast
use mrsh.Parser.Input.{and_if, or_if}
use mrsh.Parser.Session.{
  stepped, exhausted, M, ◌>>=◌, ◌>>◌, return, unless_null, set_error, fail_with, has_error,
  linebreak,
}
use mrsh.Parser.Session.Tokens.{read_mark}
use mrsh.Parser.Grammar.{read_operator, apply_aliases, Alias}
use mrsh.Parser.Grammar.Simple.{parse_simple_command, separator}
use mrsh.Parser.Grammar.HereDocument.{read_here_documents}
use mrsh.Parser.Session.{HereDocument, Line}

-- A command list with its ampersand.
abbrev pub Listed : Type 0
Listed = AndOrList × Bool

abbrev pub lists_of : List Listed → CommandLists
lists_of [] = no_lists
lists_of ((l, ampersand) ∷ ls) = command_list l ampersand (lists_of ls)

abbrev commands_of : List Command → Commands
commands_of [] = no_commands
commands_of (c ∷ cs) = next_command c (commands_of cs)

abbrev pub is_char : Option ℕ → ℕ → Bool
is_char none c = false
is_char (some d) c = d == c

-- `compound` is `compound_command`, and `reader` the parser of a here-document's line.
module _ (word : M (Option Word)) (alias : Alias) (reader : M Line)
    (compound : M (Option Command)) where
  unfoldable pub parse_command : ℕ → M (Option Command)
  unfolding apply_aliases has_error parse_simple_command
  parse_command fuel = do
    apply_aliases fuel alias
    cmd ← compound
    error ← has_error
    elim cmd [
      | some c ↦ return (some c)
      | none ↦ if error then return none else parse_simple_command word alias fuel
    ]

  unfoldable pub more_commands : ℕ → ℕ → List Command → M (Option (List Command))
  unfolding read_mark linebreak parse_command set_error
  more_commands zero fuel commands = exhausted
  more_commands (suc rounds) fuel commands =
      (read_mark (text "|") >>= λ there.
      if not there
      then return (some commands)
      else (linebreak fuel >>= λ _. parse_command fuel >>= λ cmd. elim cmd [
        | none ↦ fail_with (text "expected a command")
        | some c ↦ more_commands rounds fuel (commands ++ (c ∷ []))
      ]))

  -- The function `pipeline`.
  unfoldable pub parse_pipeline : ℕ → M (Option AndOrList)
  unfolding read_mark parse_command more_commands
  parse_pipeline fuel = do
    bang ← read_mark (text "!")
    unless_null (parse_command fuel) (λ cmd.
        unless_null (more_commands fuel fuel (cmd ∷ []))
          (λ commands. return (some (pipeline (commands_of commands) bang))))

  abbrev binop_op : M (Option BinopType)
  binop_op = do
    and ← read_operator and_if
    if and
        then return (some Ast.and)
        else (do or ← read_operator or_if; return (if or then some Ast.or else none))

  unfoldable pub and_or : ℕ → ℕ → M (Option AndOrList)
  unfolding parse_pipeline read_operator linebreak set_error
  and_or zero fuel = exhausted
  and_or (suc rounds) fuel = unless_null (parse_pipeline fuel) (λ left. binop_op >>= λ op. elim op [
    | none ↦ return (some left)
    | some type' ↦ linebreak fuel >>= λ _. and_or rounds fuel >>= λ right. elim right [
      | none ↦ fail_with (text "expected an AND-OR list")
      | some l ↦ return (some (binop type' left l))
    ]
  ])

  abbrev pending : M (List HereDocument)
  pending s = stepped (s.here_documents) s

  -- A newline behind a list is followed by its here-documents.
  unfoldable pub term : ℕ → M (Option Listed)
  unfolding and_or separator read_here_documents
  term fuel = unless_null (and_or fuel fuel) (λ l. separator fuel >>= λ sep. pending >>= λ docs.
      if is_char sep 10
      then (read_here_documents reader fuel (return true) docs >>= λ ok'.
          if ok' then return (some (l, false)) else return none)
      else return (some (l, is_char sep b'&')))

  unfoldable pub terms : ℕ → ℕ → List Listed → M (List Listed)
  unfolding term
  terms zero fuel cmds = exhausted
  terms (suc rounds) fuel cmds =
      (term fuel >>= λ l. elim l [
        | none ↦ return cmds
        | some cmd ↦ terms rounds fuel (cmds ++ (cmd ∷ []))
      ])

  unfoldable pub compound_list : ℕ → M (Option CommandLists)
  unfolding linebreak term terms
  compound_list fuel = do
    linebreak fuel
    unless_null (term fuel)
        (λ first. terms fuel fuel (first ∷ []) >>= λ cmds. return (some (lists_of cmds)))

  unfoldable pub expect_compound_list : ℕ → M (Option CommandLists)
  unfolding compound_list set_error
  expect_compound_list fuel = do
    cmds ← compound_list fuel
    elim cmds [
      | none ↦ fail_with (text "expected a compound list")
      | some body ↦ return (some body)
    ]
