-- ===== src/Ast/Format.antt =====
-- The text of a syntax tree: `mrsh_node_format` of ast.c. What the program leaves out of the text is
-- left out here: redirections, assignments, names of parameters, `for` and `case` clauses.
use mrsh.Base.{Bool, true, false, if◌then◌else◌, Text, text, [], ◌++◌}
use mrsh.Ast.{
  BinopType, LoopType, Word, Words, OptWord, OptProgram, Command, OptCommand, Commands, AndOrList,
  CommandLists, string, parameter, command, arithmetic, list, no_word, a_word, nil, cons,
  no_program, program, simple_command, brace_group, subshell, if_clause, for_clause, loop_clause,
  case_clause, function_definition, no_command, a_command, no_commands, next_command, pipeline,
  binop, and, or, while, until, no_lists, command_list,
}

abbrev pub binop_type_str : BinopType → Text
binop_type_str and = text "&&"
binop_type_str or = text "||"

abbrev loop_type_str : LoopType → Text
loop_type_str while = text "while "
loop_type_str until = text "until "

-- The separator, in front of all elements of an array but the first.
abbrev pub between : Bool → Text → Text
between true sep = []
between false sep = sep

abbrev quote : Bool → Text → Text → Text
quote true mark str = mark ++ (str ++ mark)
quote false mark str = str

unfoldable mutual
  pub word_format : Word → Text
  word_format (string str single_quoted split_fields) = quote single_quoted (text "'") str
  word_format (parameter name op colon arg) = text "${" ++ (opt_word_format arg ++ text "}")
  word_format (command prog back_quoted) =
      let body = opt_program_format prog in
      if back_quoted then text "`" ++ (body ++ text "`") else text "$(" ++ (body ++ text ")")
  word_format (arithmetic body) = word_format body
  word_format (list children double_quoted) =
      quote double_quoted (text "\"") (words_format true [] children)

  pub opt_word_format : OptWord → Text
  opt_word_format no_word = []
  opt_word_format (a_word w) = word_format w

  pub words_format : Bool → Text → Words → Text
  words_format first sep nil = []
  words_format first sep (cons w ws) =
      between first sep ++ (word_format w ++ words_format false sep ws)

  pub opt_program_format : OptProgram → Text
  opt_program_format no_program = []
  opt_program_format (program body) = command_lists_format true body

  pub command_format : Command → Text
  command_format (simple_command name arguments io vars) =
      name_format name ++ words_format true (text " ") arguments
  command_format (brace_group body) = text "{ " ++ (command_lists_format true body ++ text "; }")
  command_format (subshell body) = text "(" ++ (command_lists_format true body ++ text ")")
  command_format (if_clause condition body else_part) =
      text "if "
      ++ (command_lists_format true condition
          ++ (text "then "
              ++ (command_lists_format true body ++ (else_format else_part ++ text "fi"))))
  command_format (for_clause name has_in word_list body) = []
  command_format (loop_clause type' condition body) =
      loop_type_str type'
      ++ (command_lists_format true condition
          ++ (text "do " ++ (command_lists_format true body ++ text "done")))
  command_format (case_clause word items) = []
  command_format (function_definition name body io) = name ++ (text "()" ++ command_format body)

  pub name_format : OptWord → Text
  name_format no_word = []
  name_format (a_word w) = word_format w ++ text " "

  pub else_format : OptCommand → Text
  else_format no_command = []
  else_format (a_command c) = text "else " ++ command_format c

  pub commands_format : Bool → Commands → Text
  commands_format first no_commands = []
  commands_format first (next_command c cs) =
      between first (text " | ") ++ (command_format c ++ commands_format false cs)

  pub and_or_list_format : AndOrList → Text
  and_or_list_format (binop type' left right) =
      and_or_list_format left
      ++ (text " " ++ (binop_type_str type' ++ (text " " ++ and_or_list_format right)))
  and_or_list_format (pipeline cs bang) =
      (if bang then text "! " else []) ++ commands_format true cs

  pub command_lists_format : Bool → CommandLists → Text
  command_lists_format first no_lists = []
  command_lists_format first (command_list l ampersand ls) =
      between first (text " ")
      ++ (and_or_list_format l
          ++ ((if ampersand then text " &" else text ";") ++ command_lists_format false ls))
