-- ===== src/Parser/Grammar/Program/LineReads.antt =====
-- Reading a line with a simple command: mrsh_parse_line of parser/program.c.
use mrsh.Base.{
  ℕ, zero, suc, ◌<◌, ◌≡◌, refl, ◌∙◌, true, false, List, [], ◌∷◌, ◌++◌, Option, none, some, Text,
  text, length,
}
use mrsh.Ast.{
  Word, Command, CommandLists, simple_command, a_word, string, no_redirects, no_assignments,
  command_list, no_lists, pipeline, next_command, no_commands,
}
use mrsh.Parser.Input.{eof_token, next_symbol}
use mrsh.Parser.Session.{
  Session, stepped, M, ◌>>=◌, >>=-stepped, return, symbol, read_newline, read_char, has_error,
  consume_symbol, Line,
}
use mrsh.Parser.Session.Tokens.{read_mark, is_mark}
use mrsh.Parser.Words.{words_of}
use mrsh.Parser.Words.Dollar.{expect_dollar, back_quotes}
use mrsh.Parser.Words.RoundTrip.{past, unless_null-some}
use mrsh.Parser.Words.Pieces.{at_token}
use mrsh.Parser.Words.Meaning.{Piece}
use mrsh.Parser.Grammar.{Alias, apply_aliases, read_operator, separator_op}
use mrsh.Parser.Grammar.Simple.{is_among, parse_simple_command}
use mrsh.Parser.Grammar.Simple.Reads.{
  AreArguments, print_arguments, print_arguments-EndsWord, meanings,
}
use mrsh.Parser.Grammar.Simple.NoRedirect.{token-facts}
use mrsh.Parser.Grammar.Simple.Names.{
  IsCommandName, name_char-facts, All-alias_char, apply_aliases-none,
}
use mrsh.Parser.Grammar.Simple.Named.{parse_simple_command-print}
use mrsh.Parser.Grammar.Lists.{
  Listed, lists_of, parse_command, more_commands, parse_pipeline, and_or,
}
use mrsh.Parser.Grammar.Compound.{reserved, opens_function}
use mrsh.Parser.Grammar.Compound.NotCompound.{compound_command-none, read_mark-byte, name-facts}
use mrsh.Parser.Grammar.HereDocument.{read_here_documents}
use mrsh.Parser.Grammar.Program.{
  parser_begin, parse_list, more_lists, complete_command, expect_complete_command, line_with,
  word_at, compound_command, parse_program, parse_line,
}
use mrsh.Parser.Grammar.Program.NoMore.{
  begun, value, reader, compound, ended, more_lists-newline, after_line,
}

abbrev pub command_named : Text → List (List Piece) → Command
command_named name ws =
    simple_command (a_word (string name false false)) (words_of (meanings ws)) no_redirects
      no_assignments

-- A line of a command that is no compound one, up to its newline.
abbrev pub IsCommandLine : Alias → Text → List (List Piece) → Text → Type 0
IsCommandLine alias name ws rest =
    IsCommandName name
    × (is_among reserved name ≡ false)
    × (alias name ≡ none)
    × AreArguments ws
    × (opens_function (print_arguments ws rest) ≡ false)

module _ (program : M (Option CommandLists)) (alias : Alias) (n : ℕ) (c : ℕ) (cs : Text)
    (ws : List (List Piece)) (rest : Text) (s : Session) (h : IsCommandLine alias (c ∷ cs) ws rest)
    (enough : length (c ∷ (cs ++ print_arguments ws rest)) < suc n) where
  abbrev words : M (Option Word)
  words = value program alias n rest s

  abbrev lines : M Line
  lines = reader program alias n rest s

  abbrev compounds : M (Option Command)
  compounds = compound program alias n rest s

  abbrev line_end : Session
  line_end = ended program alias n rest s

  abbrev start : Session
  start = at_token (begun s) (c ∷ (cs ++ print_arguments ws rest))

  abbrev one : Command
  one = command_named (c ∷ cs) ws

  abbrev listed : Listed
  listed = (pipeline (next_command one no_commands) false, false)

  compound-line : compounds start ≡ stepped none start
  unfolding compound_command
  compound-line =
      compound_command-none c cs ws rest (begun s) h.0 words alias lines
        (compound_command program alias n) (suc n) refl h.1 h.4

  simple_command-line : parse_simple_command words alias (suc n) start ≡ stepped (some one) line_end
  unfolding word_at
  simple_command-line =
      parse_simple_command-print (expect_dollar program (suc n)) (back_quotes program (suc n))
        (c ∷ cs) ws rest (suc n) alias (begun s) h.0 h.2 h.3 enough

  parse_command-line :
      parse_command words alias lines compounds (suc n) start ≡ stepped (some one) line_end
  unfolding parse_command
  parse_command-line =
      >>=-stepped (apply_aliases (suc n) alias) _ start tt start (
        apply_aliases-none c cs (print_arguments ws rest) n alias (begun s)
          (All-alias_char (c ∷ cs) h.0.0) (print_arguments-EndsWord ws rest) h.2)
      ∙ (>>=-stepped compounds _ start none start compound-line
          ∙ (>>=-stepped has_error _ start false start (unfold has_error in refl)
              ∙ simple_command-line))

  pipeline-line :
      parse_pipeline words alias lines compounds (suc n) start ≡ stepped (some listed.0) line_end
  unfolding parse_pipeline
  pipeline-line =
      >>=-stepped (read_mark (text "!")) _ start false start (
        read_mark-byte c cs ws rest (begun s) h.0 b'!' (unfold is_mark in refl)
          ((name-facts c h.0.0.0).2))
      ∙ (unless_null-some (parse_command words alias lines compounds (suc n)) _ start one line_end
            parse_command-line
          ∙ (unless_null-some (more_commands words alias lines compounds (suc n) (suc n) (one ∷ []))
                _ line_end (one ∷ []) line_end (after_line program alias n rest s one)
              ∙ unfold return in refl))

  and_or-line :
      and_or words alias lines compounds (suc n) (suc n) start ≡ stepped (some listed.0) line_end
  unfolding and_or
  and_or-line =
      unless_null-some (parse_pipeline words alias lines compounds (suc n)) _ start listed.0
        line_end pipeline-line
      ∙ unfold ◌>>=◌ return read_operator in refl

  parse_list-line :
      parse_list words alias lines compounds (suc n) start ≡ stepped (some listed) line_end
  unfolding parse_list
  parse_list-line =
      unless_null-some (and_or words alias lines compounds (suc n) (suc n)) _ start listed.0
        line_end and_or-line
      ∙ unfold ◌>>=◌ return separator_op read_mark in refl

  complete_command-line :
      complete_command words alias lines compounds (suc n) [] start
      ≡ stepped (true, listed ∷ []) line_end
  unfolding complete_command
  complete_command-line =
      >>=-stepped (parse_list words alias lines compounds (suc n)) _ start (some listed) line_end
        parse_list-line
      ∙ (>>=-stepped (more_lists words alias lines compounds (suc n) (suc n) (listed ∷ [])) _
            line_end (listed ∷ []) line_end
            (more_lists-newline program alias n rest s (listed ∷ []))
          ∙ unfold ◌>>=◌ return read_here_documents in refl)

  expect_complete_command-line :
      expect_complete_command words alias lines compounds (suc n) start
      ≡ stepped (some (listed ∷ [])) line_end
  unfolding expect_complete_command
  expect_complete_command-line =
      >>=-stepped (complete_command words alias lines compounds (suc n) []) _ start
        (true, listed ∷ []) line_end complete_command-line
      ∙ unfold return in refl

  at_eof-line :
      symbol eof_token (past (begun s) (c ∷ (cs ++ print_arguments ws rest))) ≡ stepped false start
  unfolding symbol next_symbol
  at_eof-line =
      let f = token-facts c (name_char-facts c h.0.0.0).1 in
      rw (symbol, next_symbol, f.0, f.1, f.2, f.3, f.4) refl

  line_with-print :
      line_with words alias lines compounds
        (suc n)
        (past (record s { here_documents = [] }) (c ∷ (cs ++ print_arguments ws rest)))
      ≡ stepped (some (lists_of (listed ∷ []))) (past (begun s) rest)
  unfolding line_with
  line_with-print =
      let t = past (begun s) (c ∷ (cs ++ print_arguments ws rest)) in
      >>=-stepped parser_begin _
        (past (record s { here_documents = [] }) (c ∷ (cs ++ print_arguments ws rest))) tt t
        (unfold parser_begin in refl)
      ∙ (>>=-stepped (symbol eof_token) _ t false start at_eof-line
          ∙ (>>=-stepped read_newline _ start false start (unfold read_newline ◌>>=◌ return in refl)
              ∙ (>>=-stepped (expect_complete_command words alias lines compounds (suc n)) _ start
                    (some (listed ∷ [])) line_end expect_complete_command-line
                  ∙ unfold ◌>>=◌ return symbol read_newline read_char consume_symbol in refl)))

-- The text of the line, from its name to its newline, and what follows.
abbrev pub command_line : Text → List (List Piece) → Text → Text
command_line name ws rest = name ++ print_arguments ws rest

-- The program of one simple command.
abbrev pub program_of : Command → CommandLists
program_of c = command_list (pipeline (next_command c no_commands) false) false no_lists

-- A parser that has read no symbol and has no here-documents to read, and in front of it a line of one
-- simple command: a name, which is no alias and no reserved word (nor `function` or `select`), and
-- words of plain, escaped and quoted pieces, of which none begins with `#`, and the first not with an
-- opening parenthesis. When the fuel exceeds the length of the whole input, `parse_line`
-- returns the program of that command alone, with these words as its arguments, forgets an earlier
-- error, and leaves the input behind the newline.
pub parse_line-print :
    (alias : Alias) (name : Text) (ws : List (List Piece)) (rest : Text) (n : ℕ) (s : Session)
    → IsCommandLine alias name ws rest
    → s.here_documents ≡ []
    → length (command_line name ws rest) < n
    → parse_line alias n (past s (command_line name ws rest))
      ≡ stepped (some (program_of (command_named name ws))) (past (begun s) rest)
unfolding parse_line
parse_line-print alias name ws rest zero s h d l = elim l [ ]
parse_line-print alias [] ws rest (suc n) s h d l = elim h.0 [ ]
parse_line-print alias (c ∷ cs) ws rest (suc n) s h d l =
    rw d (line_with-print (parse_program alias (suc n)) alias n c cs ws rest s h l)
