-- ===== src/Shell.antt =====
-- The state of the shell and its variables: include/mrsh/shell.h, include/shell/shell.h,
-- shell/shell.c. Jobs, processes and traps have no field here.
pub mod Env
use Prim.Native.Nat.{bit_and}
use mrsh.Base.{
  ℕ, ℤ, negsuc, pos, ◌^◌, ◌==◌, Bool, not, Option, none, some, List, [], ◌∷◌, Text, Outcome, ok,
  undefined,
}
use mrsh.Hashtable
use mrsh.Hashtable.{Hashtable}
use mrsh.Ast.{Command}

-- Bits of `enum mrsh_option`.
abbrev pub opt_nounset : ℕ
opt_nounset = 2 ^ 11

-- Bits of `enum mrsh_variable_attrib`.
abbrev pub attrib_none : ℕ
attrib_none = 0

pub record Variable : Type 0 where
  pub value : Text
  pub attribs : ℕ

pub data BranchControl : Type 0 where
  break continue return exit : BranchControl

-- `argc` is the length of `argv`.
pub record CallFrame : Type 0 where
  pub argv : List Text
  pub branch_control : BranchControl
  pub nloops : ℤ

-- `exit` is -1 while the shell runs. `frame` is the last call frame, and `prev` those behind it.
pub record State : Type 0 where
  pub exit : ℤ
  pub options : ℕ
  pub frame : CallFrame
  pub prev : List CallFrame
  pub interactive : Bool
  pub last_status : ℤ
  pub aliases : Hashtable Text
  pub variables : Hashtable Variable
  pub functions : Hashtable Command

-- `flags & bit` as a condition.
abbrev pub has_bit : ℕ → ℕ → Bool
has_bit flags bit = not (bit_and flags bit == 0)

-- `calloc` zeroes the frame, and the first branch control is BREAK.
unfoldable pub state_create : State
state_create = record {
  exit = negsuc 0;
  options = 0;
  frame = record { argv = []; branch_control = break; nloops = pos 0 };
  prev = [];
  interactive = Bool.false;
  last_status = pos 0;
  aliases = Hashtable.empty;
  variables = Hashtable.empty;
  functions = Hashtable.empty;
}

unfoldable pub env_set : State → Text → Text → ℕ → State
env_set state key value attribs = record state {
  variables =
      (Hashtable.put state.variables key (some (record { value = value; attribs = attribs }))).1;
}

unfoldable pub env_unset : State → Text → State
env_unset state key = record state { variables = (Hashtable.del state.variables key).1 }

-- The variable's value, and its attributes for the callers that ask for them.
unfoldable pub env_get : State → Text → Option Variable
env_get state key = Hashtable.get state.variables key

unfoldable pub push_frame : State → List Text → State
push_frame state argv = record state {
  frame = record { argv = argv; branch_control = break; nloops = pos 0 };
  prev = state.frame ∷ state.prev;
}

-- The assertion `frame->prev != NULL` fails on the last frame.
pop_to : State → List CallFrame → Outcome State
pop_to state [] = undefined
pop_to state (f ∷ fs) = ok (record state { frame = f; prev = fs })

unfoldable pub pop_frame : State → Outcome State
unfolding pop_to
pop_frame state = pop_to state state.prev
