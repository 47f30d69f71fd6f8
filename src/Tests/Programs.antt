-- ===== src/Tests/Programs.antt =====
-- Programs parsed on concrete inputs.
use mrsh.Base.{◌≡◌, refl, false, [], ◌∷◌, ◌++◌, none, some, Text, text, str_eq, negsuc}
use mrsh.Ast.{Word, CommandLists, string, list, nil, cons, parameter, none', no_word}
use mrsh.Ast
use mrsh.Parser.Input
use mrsh.Parser.Session.{Session, stepped, aborted, line}
use mrsh.Parser.Grammar.Program.{parse_program, parse_line}
use mrsh.Tests.Grammar.{data_session, no_alias}

-- A newline behind `$(`, where a parameter was read before it in the same word, fails an assertion.
newline_behind_parameter :
    parse_program no_alias 30 (data_session (text "echo $a$(" ++ (10 ∷ text "ls)"))) ≡ aborted
unfolding parse_program str_eq
newline_behind_parameter = refl

abbrev echo_a : Word → CommandLists
echo_a arg =
    Ast.command_list
      (Ast.pipeline
        (Ast.next_command
          (Ast.simple_command (Ast.a_word (string (text "echo") false false)) (cons arg nil)
            Ast.no_redirects Ast.no_assignments)
          Ast.no_commands)
        false)
      false Ast.no_lists

abbrev param : Text → Word
param name = parameter name none' false no_word

abbrev at_end : Session
at_end = record (data_session []) {
  input = record { rest = []; sym = some Input.eof_token; error = none };
}

-- A dollar sign behind a parameter of the same word takes its name from behind the blanks.
name_behind_blank :
    parse_program no_alias 30 (data_session (text "echo $a$ x"))
    ≡ stepped
        (some (echo_a (list (cons (param (text "a")) (cons (param (text "x")) nil)) false)))
        at_end
unfolding parse_program str_eq
name_behind_blank = refl

-- Behind a parameter of the same word `$#` begins a comment, and the rest of the line is lost without
-- an error.
count_is_comment :
    parse_program no_alias 30 (data_session (text "echo x$a$# y"))
    ≡ stepped
        (some (
          Ast.command_list
            (Ast.pipeline
              (Ast.next_command
                (Ast.simple_command
                  (Ast.a_word (string (text "echo") false false))
                  nil
                  Ast.no_redirects
                  Ast.no_assignments)
                Ast.no_commands)
              false)
            false
            Ast.no_lists))
        at_end
unfolding parse_program str_eq
count_is_comment = refl

-- A brace group is opened by the first byte of a word.
brace_in_word :
    parse_program no_alias 30 (data_session (text "{echo x; }"))
    ≡ stepped
        (some (
          Ast.command_list
            (Ast.pipeline
              (Ast.next_command
                (Ast.brace_group (echo_a (string (text "x") false false)))
                Ast.no_commands)
              false)
            false
            Ast.no_lists))
        at_end
unfolding parse_program str_eq Input.find_operator
brace_in_word = refl

-- The newline of the delimiter is part of the here-document, so that a command in the line behind it
-- is an error.
command_behind_here_document :
    parse_line no_alias 30 (data_session (text "cat <<E" ++ (10 ∷ text "E" ++ (10 ∷ text "ls"))))
    ≡ stepped none (record (data_session []) {
      input = record { rest = []; sym = none; error = some (text "expected a newline") };
      documents = (0, []) ∷ [];
      created = 1;
    })
unfolding parse_line str_eq Input.find_operator
command_behind_here_document = refl

-- In a list of a compound command the blank lines at the front of a here-document are lost.
blank_line_lost :
    parse_program no_alias 30 (
      data_session
        (text "{ cat <<E" ++ (10 ∷ 10 ∷ 32 ∷ text "x" ++ (10 ∷ text "E" ++ (10 ∷ text "}")))))
    ≡ stepped
        (some (
          Ast.command_list
            (Ast.pipeline
              (Ast.next_command
                (Ast.brace_group (
                  Ast.command_list
                    (Ast.pipeline
                      (Ast.next_command
                        (Ast.simple_command
                          (Ast.a_word (string (text "cat") false false))
                          nil
                          (Ast.redirect
                            (negsuc 0)
                            Ast.dless
                            (string (text "E") false false)
                            nil
                            Ast.no_redirects)
                          Ast.no_assignments)
                        Ast.no_commands)
                      false)
                    false
                    Ast.no_lists))
                Ast.no_commands)
              false)
            false
            Ast.no_lists))
        (record at_end {
          documents = (0, line (string (text "x") false false) ∷ []) ∷ [];
          created = 1;
        })
unfolding parse_program str_eq Input.find_operator
blank_line_lost = refl
