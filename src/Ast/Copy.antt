-- ===== src/Ast/Copy.antt =====
-- Copies of syntax trees: `mrsh_word_copy`, `mrsh_command_copy` and the others of ast.c. A copy of a
-- string does not take over the mark for field splitting, and a command substitution whose program is
-- NULL cannot be copied: `mrsh_program_copy` reads through the pointer.
pub mod Laws
use mrsh.Base.{Outcome, ok, undefined, ◌>>=◌, false}
use mrsh.Ast.{
  Word, Words, OptWord, OptProgram, IoRedirects, Assignments, Command, OptCommand, Commands,
  CaseItems, AndOrList, CommandLists, string, parameter, command, arithmetic, list, no_word, a_word,
  nil, cons, no_program, program, no_redirects, redirect, no_assignments, assignment,
  simple_command, brace_group, subshell, if_clause, for_clause, loop_clause, case_clause,
  function_definition, no_command, a_command, no_commands, next_command, no_items, item, pipeline,
  binop, no_lists, command_list,
}

unfoldable mutual
  pub word_copy : Word → Outcome Word
  word_copy (string str single_quoted split_fields) = ok (string str single_quoted false)
  word_copy (parameter name op colon arg) =
      opt_word_copy arg >>= λ arg'. ok (parameter name op colon arg')
  word_copy (command prog back_quoted) =
      program_copy prog >>= λ prog'. ok (command prog' back_quoted)
  word_copy (arithmetic body) = word_copy body >>= λ body'. ok (arithmetic body')
  word_copy (list children double_quoted) =
      words_copy children >>= λ children'. ok (list children' double_quoted)

  pub opt_word_copy : OptWord → Outcome OptWord
  opt_word_copy no_word = ok no_word
  opt_word_copy (a_word w) = word_copy w >>= λ w'. ok (a_word w')

  pub words_copy : Words → Outcome Words
  words_copy nil = ok nil
  words_copy (cons w ws) = word_copy w >>= λ w'. words_copy ws >>= λ ws'. ok (cons w' ws')

  pub program_copy : OptProgram → Outcome OptProgram
  program_copy no_program = undefined
  program_copy (program body) = command_list_array_copy body >>= λ body'. ok (program body')

  pub io_redirects_copy : IoRedirects → Outcome IoRedirects
  io_redirects_copy no_redirects = ok no_redirects
  io_redirects_copy (redirect io_number op name here_document rest) = word_copy name >>= λ name'.
      words_copy here_document >>= λ lines.
      io_redirects_copy rest >>= λ rest'. ok (redirect io_number op name' lines rest')

  pub assignments_copy : Assignments → Outcome Assignments
  assignments_copy no_assignments = ok no_assignments
  assignments_copy (assignment name value rest) = word_copy value >>= λ value'.
      assignments_copy rest >>= λ rest'. ok (assignment name value' rest')

  pub command_copy : Command → Outcome Command
  command_copy (simple_command name arguments io vars) = opt_word_copy name >>= λ name'.
      words_copy arguments >>= λ arguments'. io_redirects_copy io >>= λ io'.
      assignments_copy vars >>= λ vars'. ok (simple_command name' arguments' io' vars')
  command_copy (brace_group body) = command_list_array_copy body >>= λ body'. ok (brace_group body')
  command_copy (subshell body) = command_list_array_copy body >>= λ body'. ok (subshell body')
  command_copy (if_clause condition body else_part) =
      command_list_array_copy condition >>= λ condition'. command_list_array_copy body >>= λ body'.
      opt_command_copy else_part >>= λ else_part'. ok (if_clause condition' body' else_part')
  command_copy (for_clause name has_in word_list body) = words_copy word_list >>= λ word_list'.
      command_list_array_copy body >>= λ body'. ok (for_clause name has_in word_list' body')
  command_copy (loop_clause type' condition body) =
      command_list_array_copy condition >>= λ condition'.
      command_list_array_copy body >>= λ body'. ok (loop_clause type' condition' body')
  command_copy (case_clause word items) =
      case_items_copy items >>= λ items'. word_copy word >>= λ word'. ok (case_clause word' items')
  command_copy (function_definition name body io) = io_redirects_copy io >>= λ io'.
      command_copy body >>= λ body'. ok (function_definition name body' io')

  pub opt_command_copy : OptCommand → Outcome OptCommand
  opt_command_copy no_command = ok no_command
  opt_command_copy (a_command c) = command_copy c >>= λ c'. ok (a_command c')

  pub commands_copy : Commands → Outcome Commands
  commands_copy no_commands = ok no_commands
  commands_copy (next_command c cs) =
      command_copy c >>= λ c'. commands_copy cs >>= λ cs'. ok (next_command c' cs')

  pub case_items_copy : CaseItems → Outcome CaseItems
  case_items_copy no_items = ok no_items
  case_items_copy (item patterns body items) = words_copy patterns >>= λ patterns'.
      command_list_array_copy body >>= λ body'.
      case_items_copy items >>= λ items'. ok (item patterns' body' items')

  pub and_or_list_copy : AndOrList → Outcome AndOrList
  and_or_list_copy (pipeline cs bang) = commands_copy cs >>= λ cs'. ok (pipeline cs' bang)
  and_or_list_copy (binop type' left right) = and_or_list_copy left >>= λ left'.
      and_or_list_copy right >>= λ right'. ok (binop type' left' right')

  pub command_list_array_copy : CommandLists → Outcome CommandLists
  command_list_array_copy no_lists = ok no_lists
  command_list_array_copy (command_list l ampersand ls) = and_or_list_copy l >>= λ l'.
      command_list_array_copy ls >>= λ ls'. ok (command_list l' ampersand ls')
