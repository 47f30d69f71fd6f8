-- ===== src/Parser/Grammar/Program/NoMore.antt =====
-- The parsers of parser/program.c in front of a newline.
use mrsh.Base.{ℕ, suc, ◌≡◌, refl, ◌∙◌, false, List, [], ◌∷◌, Option, none, some, Text, text}
use mrsh.Ast.{Word, Command, CommandLists}
use mrsh.Parser.Session.{
  Session, stepped, M, ◌>>=◌, >>=-stepped, return, unless_null, peek_char, peek_second, has_error,
  Line,
}
use mrsh.Parser.Session.Tokens.{peek_word, name_ahead, read_mark}
use mrsh.Parser.Words.{word}
use mrsh.Parser.Grammar.{Alias, apply_aliases}
use mrsh.Parser.Grammar.Simple.{parse_simple_command, parts_loop, cmd_prefix, cmd_name}
use mrsh.Parser.Grammar.Simple.Reads.{at_newline}
use mrsh.Parser.Grammar.Simple.Names.{if-same}
use mrsh.Parser.Grammar.Simple.Named.{empty_parts}
use mrsh.Parser.Grammar.Lists.{Listed, parse_command, more_commands, parse_pipeline, and_or}
use mrsh.Parser.Grammar.Compound.{compound_command_with}
use mrsh.Parser.Grammar.Program.{
  parse_list, more_lists, word_at, here_document_line, compound_command,
}

-- With no error and no here-documents.
abbrev pub begun : Session → Session
begun s = record s { input = record (s.input) { error = none }; here_documents = [] }

unless_null-none :
    {A B : Type 0} (m : M (Option A)) (f : A → M (Option B)) (t : Session)
    → m t ≡ stepped none t
    → unless_null m f t ≡ stepped none t
unfolding unless_null
unless_null-none m f t e = >>=-stepped m _ t none t e ∙ unfold return in refl

-- In front of a newline no command is found.
module _ (program : M (Option CommandLists)) (alias : Alias) (n : ℕ) (rest : Text)
    (s : Session) where
  abbrev pub value : M (Option Word)
  value = word_at program (suc n)

  abbrev pub reader : M Line
  reader = here_document_line program (suc n)

  abbrev pub compound : M (Option Command)
  compound = compound_command program alias (suc n)

  abbrev pub ended : Session
  ended = at_newline (begun s) rest

  compound-newline : compound ended ≡ stepped none ended
  unfolding compound_command compound_command_with ◌>>=◌ return unless_null peek_word name_ahead
  compound-newline = refl

  apply_aliases-newline : apply_aliases (suc n) alias ended ≡ stepped tt ended
  unfolding apply_aliases ◌>>=◌ return
  apply_aliases-newline = if-same s.aliases refl

  word-newline : value ended ≡ stepped none ended
  unfolding word_at word ◌>>=◌ return peek_char
  word-newline = refl

  cmd_prefix-newline : cmd_prefix value empty_parts ended ≡ stepped none ended
  unfolding cmd_prefix ◌>>=◌ return peek_char peek_second unless_null name_ahead
  cmd_prefix-newline = refl

  peek_word-newline : peek_word 0 ended ≡ stepped [] ended
  unfolding peek_word ◌>>=◌ return
  peek_word-newline = refl

  bang-newline : read_mark (text "!") ended ≡ stepped false ended
  unfolding read_mark ◌>>=◌ return
  bang-newline = refl

  cmd_name-newline : cmd_name value (suc n) alias ended ≡ stepped none ended
  unfolding cmd_name
  cmd_name-newline =
      >>=-stepped (apply_aliases (suc n) alias) _ ended tt ended apply_aliases-newline
      ∙ (>>=-stepped (peek_word 0) _ ended [] ended peek_word-newline ∙ word-newline)

  simple_command-newline : parse_simple_command value alias (suc n) ended ≡ stepped none ended
  unfolding parse_simple_command
  simple_command-newline =
      >>=-stepped (parts_loop (suc n) (cmd_prefix value) false empty_parts) _ ended
        (false, empty_parts) ended
        (unfold parts_loop in
          (>>=-stepped (cmd_prefix value empty_parts) _ ended none ended cmd_prefix-newline
            ∙ unfold return in refl))
      ∙ (>>=-stepped (cmd_name value (suc n) alias) _ ended none ended cmd_name-newline
          ∙ unfold return in refl)

  parse_command-newline :
      parse_command value alias reader compound (suc n) ended ≡ stepped none ended
  unfolding parse_command
  parse_command-newline =
      >>=-stepped (apply_aliases (suc n) alias) _ ended tt ended apply_aliases-newline
      ∙ (>>=-stepped compound _ ended none ended compound-newline
          ∙ (>>=-stepped has_error _ ended false ended (unfold has_error in refl)
              ∙ simple_command-newline))

  pipeline-newline : parse_pipeline value alias reader compound (suc n) ended ≡ stepped none ended
  unfolding parse_pipeline
  pipeline-newline =
      >>=-stepped (read_mark (text "!")) _ ended false ended bang-newline
      ∙ unless_null-none (parse_command value alias reader compound (suc n)) _ ended
          parse_command-newline

  parse_list-newline : parse_list value alias reader compound (suc n) ended ≡ stepped none ended
  unfolding parse_list
  parse_list-newline =
      unless_null-none (and_or value alias reader compound (suc n) (suc n)) _ ended (
        unfold and_or in
        (unless_null-none (parse_pipeline value alias reader compound (suc n)) _ ended
          pipeline-newline))

  pub more_lists-newline :
      (lists : List Listed)
      → more_lists value alias reader compound (suc n) (suc n) lists ended ≡ stepped lists ended
  unfolding more_lists
  more_lists-newline lists =
      >>=-stepped (parse_list value alias reader compound (suc n)) _ ended none ended
        parse_list-newline
      ∙ unfold return in refl

  pub after_line :
      (c : Command)
      → more_commands value alias reader compound (suc n) (suc n) (c ∷ []) ended
        ≡ stepped (some (c ∷ [])) ended
  unfolding more_commands read_mark ◌>>=◌ return
  after_line c = refl
