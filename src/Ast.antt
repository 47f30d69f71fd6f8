-- ===== src/Ast.antt =====
-- The syntax tree of programs: include/mrsh/ast.h. Source positions and ranges are left out, and
-- so is `mrsh_node`, whose tag the types carry. A `mrsh_array` of nodes is a list type of the block,
-- and a pointer that can be NULL has a constructor for NULL.
pub mod Copy
pub mod Format
pub mod Node
use mrsh.Base.{ℤ, Bool, Text}

pub data ParameterOp : Type 0 where
  none' minus equal qmark plus leading_hash percent dpercent hash dhash : ParameterOp

pub data IoRedirectOp : Type 0 where
  less great clobber dgreat lessand greatand lessgreat dless dlessdash : IoRedirectOp

pub data LoopType : Type 0 where
  while until : LoopType

pub data BinopType : Type 0 where
  and or : BinopType

mutual
  pub data Word : Type 0 where
    string : (str : Text) (single_quoted split_fields : Bool) → Word
    parameter : (name : Text) (op : ParameterOp) (colon : Bool) (arg : OptWord) → Word
    command : (program : OptProgram) (back_quoted : Bool) → Word
    arithmetic : (body : Word) → Word
    list : (children : Words) (double_quoted : Bool) → Word

  pub data OptWord : Type 0 where
    no_word : OptWord
    a_word : Word → OptWord

  pub data Words : Type 0 where
    nil : Words
    cons : Word → Words → Words

  pub data OptProgram : Type 0 where
    no_program : OptProgram
    program : (body : CommandLists) → OptProgram

  pub data IoRedirects : Type 0 where
    no_redirects : IoRedirects
    redirect :
        (io_number : ℤ) (op : IoRedirectOp) (name : Word) (here_document : Words)
        → IoRedirects
        → IoRedirects

  pub data Assignments : Type 0 where
    no_assignments : Assignments
    assignment : (name : Text) (value : Word) → Assignments → Assignments

  pub data Command : Type 0 where
    simple_command : (name : OptWord) (arguments : Words) → IoRedirects → Assignments → Command
    brace_group : (body : CommandLists) → Command
    subshell : (body : CommandLists) → Command
    if_clause : (condition body : CommandLists) (else_part : OptCommand) → Command
    for_clause : (name : Text) (has_in : Bool) (word_list : Words) (body : CommandLists) → Command
    loop_clause : LoopType → (condition body : CommandLists) → Command
    case_clause : (word : Word) (items : CaseItems) → Command
    function_definition : (name : Text) (body : Command) → IoRedirects → Command

  pub data OptCommand : Type 0 where
    no_command : OptCommand
    a_command : Command → OptCommand

  pub data Commands : Type 0 where
    no_commands : Commands
    next_command : Command → Commands → Commands

  pub data CaseItems : Type 0 where
    no_items : CaseItems
    item : (patterns : Words) (body : CommandLists) → CaseItems → CaseItems

  pub data AndOrList : Type 0 where
    pipeline : (commands : Commands) (bang : Bool) → AndOrList
    binop : BinopType → (left right : AndOrList) → AndOrList

  -- A command list is an AND-OR list with its `ampersand`.
  pub data CommandLists : Type 0 where
    no_lists : CommandLists
    command_list : (and_or_list : AndOrList) (ampersand : Bool) → CommandLists → CommandLists
