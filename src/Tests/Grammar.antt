-- ===== src/Tests/Grammar.antt =====
-- Words and programs parsed on concrete inputs.
use mrsh.Base.{
  ◌≡◌, refl, true, [], ◌∷◌, ◌++◌, Option, none, some, Text, text, arith, List, str_eq,
  if◌then◌else◌,
}
use mrsh.Ast.{Word, CommandLists}
use mrsh.Parser.Session.{Session, stepped, aborted, out_of_fuel, M, return, advance, Line, null}
use mrsh.Parser.Words.{word}
use mrsh.Parser.Words.RoundTrip.{past}
use mrsh.Parser.Words.Pieces.{at_token, word-print, word-trailing_backslash}
use mrsh.Parser.Words.Meaning.{Piece, plain, escaped, single, double, print, meaning}
use mrsh.Parser.Grammar.{Alias, is_alias_char, apply_aliases_loop}
use mrsh.Parser.Grammar.Aliases.{apply_aliases_loop-cycle}
use mrsh.Parser.Grammar.HereDocument.{expect_here_document}
use mrsh.Parser.Grammar.HereDocument.Lines.{
  written, quoted_lines, quoted_document, expect_here_document-written,
}
use mrsh.Parser.Grammar.Simple.{keywords, is_among}
use mrsh.Parser.Input.{is_name_char, isdigit}
use mrsh.Parser.Grammar.Program.{parse_line}
use mrsh.Parser.Grammar.Program.LineReads.{
  IsCommandLine, command_named, command_line, program_of, parse_line-print,
}
use mrsh.Parser.Grammar.Program.NoMore.{begun}

-- A parser of a text, with an alias function.
abbrev pub data_session : Text → Session
data_session str = record {
  input = record { rest = str; sym = none; error = none };
  arith_nested_parens = 0;
  aliases = true;
  here_documents = [];
  documents = [];
  created = 0;
}

abbrev pub no_alias : Alias
no_alias name = none

abbrev no_part : M (Option Word)
no_part = return none

-- `a\ 'b c'"d$"`
abbrev three_pieces : List Piece
three_pieces = escaped 32 ∷ single (text "b c") ∷ double (text "d$") ∷ []

word-print_example :
    word no_part no_part 20 0
      (at_token (data_session []) (print (plain b'a' ∷ three_pieces) (text " x")))
    ≡ stepped (some (meaning (plain b'a' ∷ three_pieces))) (past (data_session []) (text " x"))
word-print_example =
    word-print no_part no_part (plain b'a') three_pieces (text " x") 20 (data_session [])
      (refl, (refl, ((refl, (refl, (refl, tt))), ((refl, (refl, tt)), tt)))) refl (omega arith)

word-trailing_backslash_example :
    word no_part no_part 20 0 (at_token (data_session []) (print (plain b'a' ∷ []) (92 ∷ [])))
    ≡ aborted
word-trailing_backslash_example =
    word-trailing_backslash no_part no_part (plain b'a') [] 20 (data_session []) (refl, tt)
      (omega arith)

-- A parser of programs that reads nothing.
abbrev no_program : M (Option CommandLists)
no_program = return none

-- `alias a=b b=a`
abbrev each_other : Alias
each_other name =
    if str_eq name (text "a")
    then some (1, text "b")
    else (if str_eq name (text "b") then some (2, text "a") else none)

apply_aliases_loop-cycle_example :
    apply_aliases_loop 1000 each_other none (past (data_session []) (text "a" ++ text " x"))
    ≡ out_of_fuel
apply_aliases_loop-cycle_example =
    apply_aliases_loop-cycle each_other 1000 (text "a") (text "b") (text " x") none 1 2
      (data_session []) (unfold is_alias_char in (refl, tt)) (unfold is_alias_char in (refl, tt))
      refl (unfold str_eq in refl) (unfold str_eq in refl) refl refl

abbrev two_lines : List Text
two_lines = text "x $y" ∷ [] ∷ []

no_line : M Line
no_line = return null

expect_here_document-written_example :
    expect_here_document no_line 5
      (quoted_document 0 (text "EOF"))
      (advance (data_session []) (written two_lines (text "EOF" ++ (10 ∷ text "z"))))
    ≡ stepped true (record (data_session []) {
      input = record { rest = text "z"; sym = none; error = none };
      documents = (0, quoted_lines two_lines) ∷ [];
    })
expect_here_document-written_example =
    expect_here_document-written no_line 5 0 (text "EOF") two_lines (text "z") (data_session [])
      (refl, (refl, (refl, tt)))
      (unfold str_eq in ((refl, (refl, (refl, (refl, tt)))), refl, (tt, refl, tt))) (omega arith)

abbrev two_words : List (List Piece)
two_words = (plain b'a' ∷ []) ∷ three_pieces ∷ []

-- `echo a \ 'b c'"d$"`
echo_line : IsCommandLine no_alias (text "echo") two_words (text "ls")
unfolding is_name_char isdigit is_among keywords str_eq
echo_line = (
  ((refl, (refl, (refl, (refl, tt)))), refl, refl),
  refl,
  refl,
  (
    ((refl, tt), refl),
    (((refl, ((refl, (refl, (refl, tt))), ((refl, (refl, tt)), tt))), refl), tt),
  ),
  refl,
)

parse_line-print_example :
    parse_line no_alias 60
      (past (data_session []) (command_line (text "echo") two_words (text "ls")))
    ≡ stepped
        (some (program_of (command_named (text "echo") two_words)))
        (past (begun (data_session [])) (text "ls"))
parse_line-print_example =
    parse_line-print no_alias (text "echo") two_words (text "ls") 60 (data_session []) echo_line
      refl (omega arith)
