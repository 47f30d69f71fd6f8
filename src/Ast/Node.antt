-- ===== src/Ast/Node.antt =====
-- `struct mrsh_node`, with its copy and its text: `mrsh_node_copy` and `mrsh_node_format` of ast.c.
use mrsh.Base.{Bool, true, if◌then◌else◌, Outcome, ok, ◌>>=◌, Text, text, ◌++◌}
use mrsh.Ast.{Word, Command, AndOrList, CommandLists}
use mrsh.Ast.Copy.{word_copy, command_copy, and_or_list_copy, command_list_array_copy}
use mrsh.Ast.Format.{word_format, command_format, and_or_list_format, command_lists_format}

pub data Node : Type 0 where
  program_node : (body : CommandLists) → Node
  command_list_node : (and_or_list : AndOrList) (ampersand : Bool) → Node
  and_or_list_node : AndOrList → Node
  command_node : Command → Node
  word_node : Word → Node

unfoldable pub node_copy : Node → Outcome Node
node_copy (program_node body) = do body' ← command_list_array_copy body; ok (program_node body')
node_copy (command_list_node l ampersand) = do
  l' ← and_or_list_copy l
  ok (command_list_node l' ampersand)
node_copy (and_or_list_node l) = do l' ← and_or_list_copy l; ok (and_or_list_node l')
node_copy (command_node c) = do c' ← command_copy c; ok (command_node c')
node_copy (word_node w) = do w' ← word_copy w; ok (word_node w')

unfoldable pub node_format : Node → Text
node_format (program_node body) = command_lists_format true body
node_format (command_list_node l ampersand) =
    and_or_list_format l ++ (if ampersand then text " &" else text ";")
node_format (and_or_list_node l) = and_or_list_format l
node_format (command_node c) = command_format c
node_format (word_node w) = word_format w
