-- ===== src/Parser/Grammar/Compound.antt =====
-- Function definitions and the choice of a compound command: parser/program.c. The parser of a
-- compound command inside of another is an argument, and so is that of words.
pub mod NotCompound
use mrsh.Base.{
  ℕ, zero, suc, ◌==◌, ◌&&◌, ◌||◌, Bool, true, false, not, if◌then◌else◌, List, [], ◌∷◌, ◌++◌,
  Option, none, some, Text, text, length,
}
use mrsh.Ast.{
  Word, Words, Command, OptCommand, no_command, a_command, Commands, no_commands, next_command,
  CommandLists, no_lists, command_list, AndOrList, pipeline, binop, BinopType, brace_group,
  subshell, if_clause, for_clause, loop_clause, case_clause, function_definition, LoopType,
  CaseItems, no_items, item,
}
use mrsh.Ast
use mrsh.Parser.Input.{and_if, or_if, dsemi, isblank}
use mrsh.Parser.Session.{
  stepped, exhausted, M, ◌>>=◌, ◌>>◌, return, unless_null, set_error, fail_with, has_error,
  linebreak,
}
use mrsh.Parser.Session.Tokens.{
  name_ahead, peek_word, read_mark, expect_token, read_token, first_char,
}
use mrsh.Parser.Words.{words_of}
use mrsh.Parser.Words.Parameter.{is_empty}
use mrsh.Parser.Grammar.{Redirect, redirects_of, io_redirect, read_operator, apply_aliases, Alias}
use mrsh.Parser.Grammar.Simple.{parse_simple_command, separator, sequential_sep, wordlist, is_among}
use mrsh.Parser.Grammar.HereDocument.{read_here_documents}
use mrsh.Parser.Session.{HereDocument, Line}
use mrsh.Parser.Grammar.Clauses.{
  closing, parse_brace_group, parse_subshell, parse_if_clause, parse_for_clause, parse_loop_clause,
  parse_case_clause,
}

-- Whether blanks and a parenthesis follow a name.
abbrev pub opens_function : Text → Bool
opens_function [] = false
opens_function (c ∷ rest) = if c == b'(' then true else (isblank c && opens_function rest)

-- Words that no command can begin with.
abbrev pub reserved : List Text
reserved = text "[[" ∷ text "]]" ∷ text "function" ∷ text "select" ∷ []

-- `compound` is `compound_command`, and `reader` the parser of a here-document's line.
module _ (word : M (Option Word)) (alias : Alias) (reader : M Line)
    (compound : M (Option Command)) where
  unfoldable pub more_redirects : ℕ → List Redirect → M (List Redirect)
  unfolding io_redirect
  more_redirects zero redirects = exhausted
  more_redirects (suc fuel) redirects =
      (io_redirect word >>= λ redir. elim redir [
        | none ↦ return redirects
        | some r ↦ more_redirects fuel (redirects ++ (r ∷ []))
      ])

  unfoldable pub parse_function_definition : ℕ → M (Option Command)
  unfolding name_ahead read_token expect_token linebreak set_error more_redirects
  parse_function_definition fuel = name_ahead false >>= λ ahead.
      if is_empty ahead.0 || not (opens_function ahead.1)
      then return none
      else (unless_null (read_token (length ahead.0)) (λ name.
          unless_null (closing (text "(") tt) (λ (_ : Unit {0}).
            unless_null (closing (text ")") tt) (λ (_ : Unit {0}). linebreak fuel >>= λ _.
            compound >>= λ cmd. elim cmd [
              | none ↦ fail_with (text "expected a compound command")
              | some c ↦ more_redirects fuel [] >>= λ redirects.
                  return (some (function_definition name c (redirects_of redirects)))
            ]))))

  unfoldable pub unspecified_word : M Bool
  unfolding peek_word is_among set_error name_ahead
  unspecified_word = do
    str ← peek_word 0
    if is_empty str
        then return false
        else (if is_among reserved str
            then (set_error (text "keyword is reserved and causes unspecified results: " ++ str)
                >> return true)
            else (name_ahead false >>= λ ahead.
                if not (is_empty ahead.0) && first_char ahead.1 == b':'
                then (set_error (
                      text
                        "words that are the concatenation of a name and a colon produce unspecified results")
                    >> return true)
                else return false))

  -- The first that finds its keyword, or that sets an error.
  abbrev first_command : List (M (Option Command)) → M (Option Command) → M (Option Command)
  first_command [] last = last
  first_command (p ∷ ps) last = do
    cmd ← p
    error ← has_error
    elim cmd [
      | some c ↦ return (some c)
      | none ↦ if error then return none else first_command ps last
    ]

  unfoldable pub compound_command_with : ℕ → M (Option Command)
  unfolding parse_brace_group parse_subshell parse_if_clause parse_for_clause parse_loop_clause
      parse_case_clause has_error unspecified_word parse_function_definition
  compound_command_with fuel =
      first_command
        (parse_brace_group word alias reader compound fuel
          ∷ parse_subshell word alias reader compound fuel
          ∷ parse_if_clause word alias reader compound fuel
          ∷ parse_for_clause word alias reader compound fuel
          ∷ parse_loop_clause word alias reader compound fuel
          ∷ parse_case_clause word alias reader compound fuel
          ∷ [])
        (unspecified_word >>= λ unspecified.
          if unspecified then return none else parse_function_definition fuel)
