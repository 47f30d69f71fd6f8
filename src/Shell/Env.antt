-- ===== src/Shell/Env.antt =====
-- Variables as a finite map: what a write or a removal through shell/shell.c leaves to be read.
use mrsh.Base.{ℕ, ◌≡◌, refl, if◌then◌else◌, none, some, Text, List, str_eq, ok}
use mrsh.Hashtable.Laws.{IsValid, empty-IsValid, put-IsValid, del-IsValid, get-put, get-del}
use mrsh.Shell.{State, state_create, env_set, env_unset, env_get, push_frame, pop_frame}

-- The tables of a state are tables that the operations of hashtable.c can have built.
pub record HasTables (s : State) : Type 0 where
  pub variables : IsValid s.variables
  pub aliases : IsValid s.aliases
  pub functions : IsValid s.functions

pub state_create-HasTables : HasTables state_create
unfolding state_create
state_create-HasTables = record {
  variables = empty-IsValid;
  aliases = empty-IsValid;
  functions = empty-IsValid;
}

pub env_set-HasTables :
    (s : State) (key value : Text) (attribs : ℕ)
    → HasTables s
    → HasTables (env_set s key value attribs)
unfolding env_set
env_set-HasTables s key value attribs h = record {
  variables = put-IsValid s.variables key _ h.variables;
  aliases = h.aliases;
  functions = h.functions;
}

pub env_unset-HasTables : (s : State) (key : Text) → HasTables s → HasTables (env_unset s key)
unfolding env_unset
env_unset-HasTables s key h = record {
  variables = del-IsValid s.variables key h.variables;
  aliases = h.aliases;
  functions = h.functions;
}

-- When the tables are valid, setting a variable makes it read as the value and attributes given,
-- and leaves the others.
pub env_get-set :
    (s : State) (key value : Text) (attribs : ℕ) (q : Text)
    → HasTables s
    → env_get (env_set s key value attribs) q
      ≡ (if str_eq q key then some (record { value = value; attribs = attribs }) else env_get s q)
unfolding env_get env_set
env_get-set s key value attribs q h = get-put s.variables key q _ h.variables

-- When the tables are valid, unsetting a variable makes it unset, and leaves the others.
pub env_get-unset :
    (s : State) (key q : Text)
    → HasTables s
    → env_get (env_unset s key) q ≡ (if str_eq q key then none else env_get s q)
unfolding env_get env_unset
env_get-unset s key q h = get-del s.variables key q h.variables

-- A function call's frame is gone after the call, and the caller's is the last one again.
pub pop_frame-push : (s : State) (argv : List Text) → pop_frame (push_frame s argv) ≡ ok s
unfolding pop_frame push_frame
pop_frame-push s argv = refl
