-- ===== src/Parser/Grammar/Clauses.antt =====
-- Groups, clauses and loops: the compound commands of parser/program.c that begin with a reserved
-- word.
use mrsh.Base.{
  ℕ, zero, suc, Bool, true, false, not, if◌then◌else◌, List, [], ◌∷◌, ◌++◌, Option, none, some,
  Text, text, length,
}
use mrsh.Ast.{
  Word, Words, Command, OptCommand, no_command, a_command, Commands, no_commands, next_command,
  CommandLists, no_lists, command_list, AndOrList, pipeline, binop, BinopType, brace_group,
  subshell, if_clause, for_clause, loop_clause, case_clause, function_definition, LoopType,
  CaseItems, no_items, item,
}
use mrsh.Ast
use mrsh.Parser.Input.{dsemi}
use mrsh.Parser.Session.{
  exhausted, M, ◌>>=◌, ◌>>◌, return, unless_null, set_error, fail_with, has_error, linebreak,
}
use mrsh.Parser.Session.Tokens.{name_ahead, read_mark, expect_token, read_token}
use mrsh.Parser.Words.{words_of}
use mrsh.Parser.Words.Parameter.{is_empty}
use mrsh.Parser.Grammar.{read_operator, Alias}
use mrsh.Parser.Grammar.Simple.{sequential_sep, wordlist}
use mrsh.Parser.Session.{Line}
use mrsh.Parser.Grammar.Lists.{compound_list, expect_compound_list}

abbrev opt_command : Option Command → OptCommand
opt_command none = no_command
opt_command (some c) = a_command c

-- `if (!expect_token(...)) return NULL;`
abbrev pub closing {ℓ} : {A : Type ℓ} → Text → A → M (Option A)
closing str a = do there ← expect_token str; if there then return (some a) else return none

abbrev pub when_token {ℓ} : {A : Type ℓ} → Text → M (Option A) → M (Option A)
when_token str then' = do there ← read_mark str; if there then then' else return none

-- `compound` is `compound_command`, and `reader` the parser of a here-document's line.
module _ (word : M (Option Word)) (alias : Alias) (reader : M Line)
    (compound : M (Option Command)) where
  unfoldable pub parse_brace_group : ℕ → M (Option Command)
  unfolding read_mark expect_compound_list expect_token
  parse_brace_group fuel = when_token (text "{") (
      unless_null (expect_compound_list word alias reader compound fuel)
        (λ body. closing (text "}") (brace_group body)))

  unfoldable pub parse_subshell : ℕ → M (Option Command)
  unfolding read_mark expect_compound_list expect_token
  parse_subshell fuel = when_token (text "(") (
      unless_null (expect_compound_list word alias reader compound fuel)
        (λ body. closing (text ")") (subshell body)))

  -- A condition, `then`, and what is done.
  unfoldable pub condition_then : ℕ → M (Option (CommandLists × CommandLists))
  unfolding expect_compound_list expect_token
  condition_then fuel = unless_null (expect_compound_list word alias reader compound fuel) (λ cond.
      unless_null (closing (text "then") tt) (λ (_ : Unit {0}).
        unless_null (expect_compound_list word alias reader compound fuel)
          (λ body. return (some (cond, body)))))

  unfoldable pub else_part : ℕ → ℕ → M (Option Command)
  unfolding read_mark condition_then expect_compound_list
  else_part zero fuel = exhausted
  else_part (suc rounds) fuel =
      (read_mark (text "elif") >>= λ elif.
      if elif
      then (unless_null (condition_then fuel) (λ (cond, body).
          else_part rounds fuel >>= λ ep. return (some (if_clause cond body (opt_command ep)))))
      else (when_token (text "else") (
          unless_null (expect_compound_list word alias reader compound fuel)
            (λ body. return (some (brace_group body))))))

  unfoldable pub parse_if_clause : ℕ → M (Option Command)
  unfolding read_mark condition_then else_part expect_token
  parse_if_clause fuel = when_token (text "if") (
      unless_null (condition_then fuel) (λ (cond, body).
        else_part fuel fuel >>= λ ep. closing (text "fi") (if_clause cond body (opt_command ep))))

  -- `token`, with a message of its own.
  abbrev demand : Text → Text → M (Option (Unit {0}))
  demand str msg = do there ← read_mark str; if there then return (some tt) else fail_with msg

  unfoldable pub expect_do_group : ℕ → M (Option CommandLists)
  unfolding read_mark set_error expect_compound_list
  expect_do_group fuel = unless_null (demand (text "do") (text "expected 'do'")) (λ (_ : Unit {0}).
      unless_null (expect_compound_list word alias reader compound fuel) (λ body.
        unless_null (demand (text "done") (text "expected 'done'"))
          (λ (_ : Unit {0}). return (some body))))

  -- The words behind `in`; without it a separator is optional.
  unfoldable pub for_words : ℕ → Bool → M (Option (List Word))
  unfolding wordlist sequential_sep set_error
  for_words fuel false = sequential_sep fuel >> return (some [])
  for_words fuel true = do
    words ← wordlist fuel word []
    sep ← sequential_sep fuel
    if sep then return (some words) else fail_with (text "expected sequential separator")

  unfoldable pub parse_for_clause : ℕ → M (Option Command)
  unfolding read_mark name_ahead set_error read_token linebreak for_words expect_do_group
  parse_for_clause fuel = when_token (text "for") (
      name_ahead false >>= λ ahead.
      if is_empty ahead.0
      then fail_with (text "expected name")
      else (unless_null (read_token (length ahead.0)) (λ name. linebreak fuel >>= λ _.
          read_mark (text "in") >>= λ has_in. unless_null (for_words fuel has_in) (λ words.
            unless_null (expect_do_group fuel)
              (λ body. return (some (for_clause name has_in (words_of words) body)))))))

  unfoldable pub loop_type : M (Option LoopType)
  unfolding read_mark
  loop_type = do
    while ← read_mark (text "while")
    if while
        then return (some Ast.while)
        else (do until ← read_mark (text "until"); return (if until then some Ast.until else none))

  unfoldable pub parse_loop_clause : ℕ → M (Option Command)
  unfolding loop_type expect_compound_list expect_do_group
  parse_loop_clause fuel = unless_null loop_type (λ type'.
      unless_null (expect_compound_list word alias reader compound fuel) (λ cond.
        unless_null (expect_do_group fuel) (λ body. return (some (loop_clause type' cond body)))))

  abbrev expect_word : M (Option Word)
  expect_word = do
    w ← word
    elim w [ none ↦ fail_with (text "expected a word") | some v ↦ return (some v) ]

  unfoldable pub more_patterns : ℕ → List Word → M (Option (List Word))
  unfolding read_mark set_error
  more_patterns zero patterns = exhausted
  more_patterns (suc fuel) patterns =
      (read_mark (text "|") >>= λ there.
      if not there
      then return (some patterns)
      else (unless_null expect_word (λ w. more_patterns fuel (patterns ++ (w ∷ [])))))

  -- The body can be missing. The last component is `*dsemi`.
  unfoldable pub expect_case_item : ℕ → M (Option (Words × CommandLists × Bool))
  unfolding read_mark set_error more_patterns expect_token compound_list has_error read_operator
      linebreak
  expect_case_item fuel = read_mark (text "(") >>= λ _. unless_null expect_word (λ w.
      unless_null (more_patterns fuel (w ∷ [])) (λ patterns.
        unless_null (closing (text ")") tt) (λ (_ : Unit {0}).
          compound_list word alias reader compound fuel >>= λ body. has_error >>= λ error.
          if error
          then return none
          else (read_operator dsemi >>= λ dsemi'.
              (if dsemi' then linebreak fuel else return tt) >>= λ _. return (
                some (
                  words_of patterns,
                  elim body [ none ↦ no_lists | some lists ↦ lists ],
                  dsemi',
                ))))))

  abbrev items_of : List (Words × CommandLists) → CaseItems
  items_of [] = no_items
  items_of ((patterns, body) ∷ items) = item patterns body (items_of items)

  unfoldable pub case_items : ℕ → ℕ → List (Words × CommandLists) → M (Option CaseItems)
  unfolding read_mark expect_case_item expect_token
  case_items zero fuel items = exhausted
  case_items (suc rounds) fuel items =
      (read_mark (text "esac") >>= λ esac.
      if esac
      then return (some (items_of items))
      else (unless_null (expect_case_item fuel) (λ (patterns, body, dsemi').
          let all = items ++ ((patterns, body) ∷ []) in
          if dsemi' then case_items rounds fuel all else closing (text "esac") (items_of all))))

  unfoldable pub parse_case_clause : ℕ → M (Option Command)
  unfolding read_mark set_error linebreak expect_token case_items
  parse_case_clause fuel = when_token (text "case") (
      unless_null expect_word (λ w. linebreak fuel >>= λ _.
      unless_null (closing (text "in") tt) (λ (_ : Unit {0}). linebreak fuel >>= λ _.
      unless_null (case_items fuel fuel []) (λ items. return (some (case_clause w items))))))
