-- ===== src/Ast/Copy/Laws.antt =====
-- When a copy of a syntax tree is the tree itself.
use mrsh.Base.{◌≡◌, refl, ok, false}
use mrsh.Ast.{
  Word, Words, OptWord, OptProgram, IoRedirects, Assignments, Command, OptCommand, Commands,
  CaseItems, AndOrList, CommandLists, string, parameter, command, arithmetic, list, no_word, a_word,
  nil, cons, no_program, program, no_redirects, redirect, no_assignments, assignment,
  simple_command, brace_group, subshell, if_clause, for_clause, loop_clause, case_clause,
  function_definition, no_command, a_command, no_commands, next_command, no_items, item, pipeline,
  binop, no_lists, command_list,
}
use mrsh.Ast.Copy.{
  word_copy, opt_word_copy, words_copy, program_copy, io_redirects_copy, assignments_copy,
  command_copy, opt_command_copy, commands_copy, case_items_copy, and_or_list_copy,
  command_list_array_copy,
}

-- A tree as the parser leaves it: no string is marked for field splitting, and every command
-- substitution has a program.
unfoldable mutual
  pub IsParsed : Word → Type 0
  IsParsed (string str single_quoted split_fields) = split_fields ≡ false
  IsParsed (parameter name op colon arg) = IsParsedOpt arg
  IsParsed (command prog back_quoted) = IsParsedProgram prog
  IsParsed (arithmetic body) = IsParsed body
  IsParsed (list children double_quoted) = AreParsed children

  pub IsParsedOpt : OptWord → Type 0
  IsParsedOpt no_word = Unit
  IsParsedOpt (a_word w) = IsParsed w

  pub AreParsed : Words → Type 0
  AreParsed nil = Unit
  AreParsed (cons w ws) = IsParsed w × AreParsed ws

  pub IsParsedProgram : OptProgram → Type 0
  IsParsedProgram no_program = ⊥
  IsParsedProgram (program body) = IsParsedLists body

  pub IsParsedRedirects : IoRedirects → Type 0
  IsParsedRedirects no_redirects = Unit
  IsParsedRedirects (redirect n op name lines rest) =
      IsParsed name × AreParsed lines × IsParsedRedirects rest

  pub IsParsedAssignments : Assignments → Type 0
  IsParsedAssignments no_assignments = Unit
  IsParsedAssignments (assignment name value rest) = IsParsed value × IsParsedAssignments rest

  pub IsParsedCommand : Command → Type 0
  IsParsedCommand (simple_command name arguments io vars) =
      IsParsedOpt name × AreParsed arguments × IsParsedRedirects io × IsParsedAssignments vars
  IsParsedCommand (brace_group body) = IsParsedLists body
  IsParsedCommand (subshell body) = IsParsedLists body
  IsParsedCommand (if_clause condition body else_part) =
      IsParsedLists condition × IsParsedLists body × IsParsedElse else_part
  IsParsedCommand (for_clause name has_in word_list body) = AreParsed word_list × IsParsedLists body
  IsParsedCommand (loop_clause type' condition body) = IsParsedLists condition × IsParsedLists body
  IsParsedCommand (case_clause word items) = IsParsed word × IsParsedItems items
  IsParsedCommand (function_definition name body io) = IsParsedCommand body × IsParsedRedirects io

  pub IsParsedElse : OptCommand → Type 0
  IsParsedElse no_command = Unit
  IsParsedElse (a_command c) = IsParsedCommand c

  pub IsParsedCommands : Commands → Type 0
  IsParsedCommands no_commands = Unit
  IsParsedCommands (next_command c cs) = IsParsedCommand c × IsParsedCommands cs

  pub IsParsedItems : CaseItems → Type 0
  IsParsedItems no_items = Unit
  IsParsedItems (item patterns body items) =
      AreParsed patterns × IsParsedLists body × IsParsedItems items

  pub IsParsedList : AndOrList → Type 0
  IsParsedList (pipeline cs bang) = IsParsedCommands cs
  IsParsedList (binop type' left right) = IsParsedList left × IsParsedList right

  pub IsParsedLists : CommandLists → Type 0
  IsParsedLists no_lists = Unit
  IsParsedLists (command_list l ampersand ls) = IsParsedList l × IsParsedLists ls

mutual
  unfolding word_copy IsParsed

  word_same : (w : Word) → IsParsed w → word_copy w ≡ ok w
  word_same (string str q f) h = rw h refl
  word_same (parameter name op colon arg) h = rw (opt_same arg h) refl
  word_same (command prog q) h = rw (program_same prog h) refl
  word_same (arithmetic body) h = rw (word_same body h) refl
  word_same (list children q) h = rw (words_same children h) refl

  opt_same : (w : OptWord) → IsParsedOpt w → opt_word_copy w ≡ ok w
  opt_same no_word h = refl
  opt_same (a_word w) h = rw (word_same w h) refl

  words_same : (ws : Words) → AreParsed ws → words_copy ws ≡ ok ws
  words_same nil h = refl
  words_same (cons w ws) h = rw (word_same w h.0, words_same ws h.1) refl

  program_same : (p : OptProgram) → IsParsedProgram p → program_copy p ≡ ok p
  program_same no_program h = elim h [ ]
  program_same (program body) h = rw (lists_same body h) refl

  redirects_same : (io : IoRedirects) → IsParsedRedirects io → io_redirects_copy io ≡ ok io
  redirects_same no_redirects h = refl
  redirects_same (redirect n op name lines rest) h =
      rw (word_same name h.0, words_same lines h.1, redirects_same rest h.2) refl

  assignments_same :
      (vars : Assignments) → IsParsedAssignments vars → assignments_copy vars ≡ ok vars
  assignments_same no_assignments h = refl
  assignments_same (assignment name value rest) h =
      rw (word_same value h.0, assignments_same rest h.1) refl

  command_same : (c : Command) → IsParsedCommand c → command_copy c ≡ ok c
  command_same (simple_command name arguments io vars) h =
      rw
        (
          opt_same name h.0,
          words_same arguments h.1,
          redirects_same io h.2,
          assignments_same vars h.3,
        )
        refl
  command_same (brace_group body) h = rw (lists_same body h) refl
  command_same (subshell body) h = rw (lists_same body h) refl
  command_same (if_clause condition body else_part) h =
      rw (lists_same condition h.0, lists_same body h.1, else_same else_part h.2) refl
  command_same (for_clause name has_in word_list body) h =
      rw (words_same word_list h.0, lists_same body h.1) refl
  command_same (loop_clause type' condition body) h =
      rw (lists_same condition h.0, lists_same body h.1) refl
  command_same (case_clause word items) h = rw (items_same items h.1, word_same word h.0) refl
  command_same (function_definition name body io) h =
      rw (redirects_same io h.1, command_same body h.0) refl

  else_same : (c : OptCommand) → IsParsedElse c → opt_command_copy c ≡ ok c
  else_same no_command h = refl
  else_same (a_command c) h = rw (command_same c h) refl

  commands_same : (cs : Commands) → IsParsedCommands cs → commands_copy cs ≡ ok cs
  commands_same no_commands h = refl
  commands_same (next_command c cs) h = rw (command_same c h.0, commands_same cs h.1) refl

  items_same : (items : CaseItems) → IsParsedItems items → case_items_copy items ≡ ok items
  items_same no_items h = refl
  items_same (item patterns body items) h =
      rw (words_same patterns h.0, lists_same body h.1, items_same items h.2) refl

  list_same : (l : AndOrList) → IsParsedList l → and_or_list_copy l ≡ ok l
  list_same (pipeline cs bang) h = rw (commands_same cs h) refl
  list_same (binop type' left right) h = rw (list_same left h.0, list_same right h.1) refl

  lists_same : (ls : CommandLists) → IsParsedLists ls → command_list_array_copy ls ≡ ok ls
  lists_same no_lists h = refl
  lists_same (command_list l ampersand ls) h = rw (list_same l h.0, lists_same ls h.1) refl

-- The copy of a command as the parser leaves it, with a program in every command substitution, succeeds
-- and is that command.
pub command_copy_of_IsParsed : (c : Command) → IsParsedCommand c → command_copy c ≡ ok c
command_copy_of_IsParsed c h = command_same c h
