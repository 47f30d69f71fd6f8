-- ===== src/Parser/Grammar/Simple.antt =====
-- Simple commands and separators: parser/program.c.
pub mod NoRedirect
pub mod Reads
pub mod Names
pub mod Named
use mrsh.Base.{
  ℕ, zero, suc, Bool, true, false, ◌||◌, if◌then◌else◌, List, [], ◌∷◌, ◌++◌, Option, none, some,
  Text, text, str_eq, length,
}
use mrsh.Ast.{
  Word, OptWord, no_word, a_word, Assignments, no_assignments, assignment, Command, simple_command,
  string,
}
use mrsh.Parser.Session.{exhausted, M, ◌>>=◌, ◌>>◌, return, linebreak, newline_list}
use mrsh.Parser.Session.Tokens.{peek_word, read_token, read_mark}
use mrsh.Parser.Words.{words_of}
use mrsh.Parser.Grammar.{
  Redirect, redirects_of, io_redirect, assignment_word, apply_aliases, Alias, separator_op,
}

-- The arrays of a simple command.
pub record Parts : Type 0 where
  pub arguments : List Word
  pub redirects : List Redirect
  pub assignments : List (Text × Word)

abbrev pub assignments_of : List (Text × Word) → Assignments
assignments_of [] = no_assignments
assignments_of ((name, value) ∷ rest) = assignment name value (assignments_of rest)

abbrev with_redirect : Redirect → Parts → Parts
with_redirect r parts = record parts { redirects = parts.redirects ++ (r ∷ []) }

abbrev opt_word : Option Word → OptWord
opt_word none = no_word
opt_word (some w) = a_word w

abbrev is_some {ℓ} : {A : Type ℓ} → Option A → Bool
is_some none = false
is_some (some a) = true

unfoldable pub keywords : List Text
keywords =
    text "if"
    ∷ text "then"
    ∷ text "else"
    ∷ text "elif"
    ∷ text "fi"
    ∷ text "do"
    ∷ text "done"
    ∷ text "case"
    ∷ text "esac"
    ∷ text "while"
    ∷ text "until"
    ∷ text "for"
    ∷ text "{"
    ∷ text "}"
    ∷ text "!"
    ∷ text "in"
    ∷ []

unfoldable pub is_among : List Text → Text → Bool
is_among [] str = false
is_among (k ∷ ks) str = str_eq k str || is_among ks str

-- `word` is `word(parser, 0)`.
module _ (word : M (Option Word)) where
  -- What was read becomes a part; NULL when nothing was.
  unfoldable pub cmd_prefix : Parts → M (Option Parts)
  unfolding io_redirect assignment_word
  cmd_prefix parts = do
    redirect ← io_redirect word
    elim redirect [
      | some r ↦ return (some (with_redirect r parts))
      | none ↦ assignment_word word >>= λ assign. elim assign [
        | some a ↦ return (some (record parts { assignments = parts.assignments ++ (a ∷ []) }))
        | none ↦ return none
      ]
    ]

  unfoldable pub cmd_suffix : Parts → M (Option Parts)
  unfolding io_redirect
  cmd_suffix parts = do
    redirect ← io_redirect word
    elim redirect [
      | some r ↦ return (some (with_redirect r parts))
      | none ↦ word >>= λ arg. elim arg [
        | some w ↦ return (some (record parts { arguments = parts.arguments ++ (w ∷ []) }))
        | none ↦ return none
      ]
    ]

  unfoldable pub cmd_name : ℕ → Alias → M (Option Word)
  unfolding apply_aliases peek_word keywords is_among read_token
  cmd_name fuel alias = do
    apply_aliases fuel alias
    ahead ← peek_word 0
    elim ahead [
      | [] ↦ word
      | c ∷ cs ↦
          if is_among keywords (c ∷ cs)
          then return none
          else (read_token (length (c ∷ cs)) >>= λ str. elim str [
            | none ↦ return none
            | some name ↦ return (some (string name false false))
          ])
    ]

-- The loops over prefixes and suffixes, with whether there was one.
unfoldable pub parts_loop : ℕ → (Parts → M (Option Parts)) → Bool → Parts → M (Bool × Parts)
parts_loop zero next found parts = exhausted
parts_loop (suc fuel) next found parts =
    (next parts >>= λ more. elim more [
      | none ↦ return (found, parts)
      | some parts' ↦ parts_loop fuel next true parts'
    ])

abbrev command_of : Option Word → Parts → Command
command_of name parts =
    simple_command (opt_word name) (words_of parts.arguments) (redirects_of parts.redirects)
      (assignments_of parts.assignments)

module _ (word : M (Option Word)) (alias : Alias) where
  unfoldable pub parse_simple_command : ℕ → M (Option Command)
  unfolding parts_loop cmd_prefix cmd_name cmd_suffix
  parse_simple_command fuel = do
    (has_prefix, parts) ←
        parts_loop fuel (cmd_prefix word) false
          (record { arguments = []; redirects = []; assignments = [] })
    name ← cmd_name word fuel alias
    elim name [
      | none ↦ if has_prefix then return (some (command_of none parts)) else return none
      | some w ↦ parts_loop fuel (cmd_suffix word) false parts >>= λ (_, all).
          return (some (command_of (some w) all))
    ]

-- The character of a separator, which newlines may follow.
unfoldable pub separator : ℕ → M (Option ℕ)
unfolding separator_op linebreak newline_list
separator fuel = do
  sep ← separator_op
  elim sep [
    | some c ↦ linebreak fuel >> return (some c)
    | none ↦ newline_list fuel >>= λ there. return (if there then some 10 else none)
  ]

unfoldable pub sequential_sep : ℕ → M Bool
unfolding read_mark linebreak newline_list
sequential_sep fuel = do
  there ← read_mark (text ";")
  if there then (linebreak fuel >> return true) else newline_list fuel

-- The function `wordlist`.
unfoldable pub wordlist : ℕ → M (Option Word) → List Word → M (List Word)
wordlist zero word words = exhausted
wordlist (suc fuel) word words =
    (word >>= λ w. elim w [ none ↦ return words | some v ↦ wordlist fuel word (words ++ (v ∷ [])) ])
