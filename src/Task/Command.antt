-- ===== src/Task/Command.antt =====
-- `run_command`, `run_and_or_list`, `run_pipeline` and `run_command_list_array`. What a command does
-- to files, pipes, jobs and processes is left out: of a child process the model has the exit status.
use mrsh.Base.{
  ℕ, Bool, true, false, if◌then◌else◌, ℤ, pos, Option, none, some, Text, List, [], ◌++◌, Outcome,
  ok, failed, undefined, str_eq,
}
use mrsh.Ast.{
  BinopType, Word, Words, OptWord, OptCommand, CaseItems, IoRedirects, Assignments, Command,
  Commands, AndOrList, CommandLists, nil, cons, simple_command, brace_group, subshell, if_clause,
  for_clause, loop_clause, case_clause, function_definition, no_command, a_command, no_commands,
  next_command, no_items, item, pipeline, binop, and, or, no_lists, command_list,
}
use mrsh.Hashtable
use mrsh.Shell.{State}
use mrsh.Ast.Copy.{word_copy, command_copy}
use mrsh.Word.Str.{word_str}
use mrsh.Word.Tilde.{expand_tilde}
use mrsh.Word.Pattern.{word_to_pattern}
use mrsh.Task.Run.{
  Run, M, done, next, ◌>>=◌, task_error, is_neg, is_zero, negate, enter_loop, exit_code,
}
use mrsh.Task.Loop.{run_loop_clause, for_rounds}

-- What the control structures call: `run_simple_command`, `run_word` and `expand_word`, each with
-- its status and the state it leaves; `fnmatch(pattern, string, 0) == 0` and `getpwnam`; whether
-- `fork` and `pipe` succeed; and the status that `job_wait_process` returns for a child that exits
-- with this code.
pub record Calls : Type 0 where
  pub run_simple_command : OptWord → Words → IoRedirects → Assignments → M
  pub run_word : Word → State → ℤ × Word × State
  pub expand_word : Word → State → ℤ × List Text × State
  pub fnmatch : Text → Text → Bool
  pub getpwnam : Text → Option Text
  pub forks : State → Bool
  pub waits : ℤ → ℤ

-- A status that is not negative becomes `last_status`, and the rest of the list runs.
unfoldable pub then_list : M → M → Bool → M
then_list first rest is_last = first >>= λ ret s.
    if is_neg ret
    then done ret s
    else (if is_last
        then done ret (record s { last_status = ret })
        else rest (record s { last_status = ret }))

unfoldable pub run_if_clause : M → M → M → M
run_if_clause condition body else_part = condition >>= λ ret s.
    if is_neg ret then done ret s else (if is_zero ret then body s else else_part s)

-- An OR-list returns 0 when its left part did, and in all other cases runs its right part; an
-- AND-list returns the status of its left part unless that is 0.
unfoldable pub run_binop : BinopType → M → M → M
run_binop and left right = left >>= λ ret s. if is_zero ret then right s else done ret s
run_binop or left right = left >>= λ ret s. if is_zero ret then done (pos 0) s else right s

-- Where the program would abort or read through NULL, the run is undefined.
unfoldable pub run_with {ℓ} : {A : Type ℓ} → Outcome A → (A → Run) → Run
run_with (ok a) k = k a
run_with failed k = Run.undefined
run_with undefined k = Run.undefined

-- The body is copied.
unfoldable pub run_function_definition : Text → Command → M
unfolding run_with
run_function_definition name body s = run_with (command_copy body) (λ copy.
    done (pos 0) (record s { functions = (Hashtable.put (s.functions) name (some copy)).1 }))

abbrev pub no_lists? : CommandLists → Bool
no_lists? no_lists = true
no_lists? (command_list l ampersand ls) = false

-- The outcome of the loop over the patterns of an item: the status of an expansion that fails, or
-- whether the item is selected.
pub data Selection : Type 0 where
  selected : Bool → State → Selection
  broken : ℤ → State → Selection
  aborted : Selection

-- The body of an item that is selected runs, and else the items behind it are tried.
unfoldable pub after_selection : Selection → M → M → Run
after_selection (selected true s) body others = body s
after_selection (selected false s) body others = others s
after_selection (broken ret s) body others = done ret s
after_selection aborted body others = Run.undefined

abbrev pub no_commands? : Commands → Bool
no_commands? no_commands = true
no_commands? (next_command c cs) = false

module _ (calls : Calls) where
  -- The code that the child of a subshell exits with.
  unfoldable pub subshell_code : Run → Run
  subshell_code (done ret s) =
      done
        (if is_neg ret
          then pos 127
          else (if is_neg s.exit then exit_code ret else exit_code s.exit))
        s
  subshell_code Run.undefined = Run.undefined
  subshell_code Run.out_of_fuel = Run.out_of_fuel

  -- The parent goes on with the state from before the fork. The child's entry among the processes, which
  -- the parent makes and waits on, is left out: a state here has no processes, and `waits` stands for
  -- the status that the wait ends with.
  unfoldable pub run_subshell : M → M
  unfolding subshell_code
  run_subshell body s =
      if calls.forks s
      then next (subshell_code (body s)) (λ code _. done (calls.waits code) s)
      else done task_error s

  -- A child of a pipeline, seen by the parent.
  unfoldable pub run_child : M → M
  run_child command s = next (command s) (λ ret _. done (calls.waits (exit_code ret)) s)

  -- One child of a pipeline is waited for, and then the others unless its status is negative.
  unfoldable pub wait_child : M → (ℤ → M) → M
  unfolding run_child
  wait_child command others s =
      next (run_child command s) (λ ret t. if is_neg ret then done ret t else others ret t)

  -- One command runs in the shell itself; of several each runs in a child.
  unfoldable pub pipeline_of : Bool → Bool → M → (ℤ → M) → M
  unfolding wait_child
  pipeline_of true bang command others s = next (command s) (λ ret t. done (negate bang ret) t)
  pipeline_of false bang command others s =
      if calls.forks s
      then next (wait_child command others s) (λ ret t. done (negate bang ret) t)
      else done task_error s

  -- The fields of all the words, or the first status that is negative.
  unfoldable pub expand_words : Words → List Text → State → ℤ × List Text × State
  expand_words nil fields s = (pos 0, fields, s)
  expand_words (cons w ws) fields s =
      let (ret, more, t) = calls.expand_word w s in
      elim (is_neg ret) [ true ↦ (ret, fields, t) | false ↦ expand_words ws (fields ++ more) t ]

  unfoldable pub for_fields : ℤ → Text → M → ℤ × List Text × State → Run
  for_fields loop_num name body (ret, fields, s) =
      if is_neg ret then done ret s else for_rounds loop_num name body fields (pos 0) s

  unfoldable pub run_for_clause : Text → Words → M → M
  unfolding for_rounds expand_words for_fields enter_loop
  run_for_clause name words body s =
      let t = enter_loop s in for_fields t.frame.nloops name body (expand_words words [] t)

  -- Whether the pattern matches the string.
  matches_pattern : Word → Text → Outcome Bool
  matches_pattern pattern' str = elim (word_to_pattern pattern') [
    | ok none ↦ elim (word_str pattern') [
      | ok s ↦ ok (str_eq s str)
      | failed ↦ failed
      | undefined ↦ undefined
    ]
    | ok (some p) ↦ ok (calls.fnmatch p str)
    | failed ↦ failed
    | undefined ↦ undefined
  ]

  unfoldable pub select_item : Words → Text → State → Selection
  unfolding matches_pattern word_to_pattern word_str expand_tilde
  select_item nil str s = selected false s
  select_item (cons w ws) str s =
      let (ret, pattern', t) = calls.run_word (expand_tilde calls.getpwnam s w false) s in
      elim (is_neg ret) [
        | true ↦ broken ret t
        | false ↦ elim (matches_pattern pattern' str) [
          | ok true ↦ selected true t
          | ok false ↦ select_item ws str t
          | failed ↦ aborted
          | undefined ↦ aborted
        ]
      ]

unfoldable mutual
  unfolding wait_child pipeline_of

  pub run_command : Calls → ℕ → Command → M
  run_command calls fuel (simple_command name arguments io assignments) s =
      calls.run_simple_command name arguments io assignments s
  run_command calls fuel (brace_group body) s = run_command_list_array calls fuel body s
  run_command calls fuel (subshell body) s =
      run_subshell calls (run_command_list_array calls fuel body) s
  run_command calls fuel (if_clause condition body else_part) s =
      run_if_clause (run_command_list_array calls fuel condition)
        (run_command_list_array calls fuel body) (run_else_part calls fuel else_part) s
  run_command calls fuel (for_clause name has_in words body) s =
      run_for_clause calls name words (run_command_list_array calls fuel body) s
  run_command calls fuel (loop_clause type' condition body) s =
      run_loop_clause fuel type' (run_command_list_array calls fuel condition)
        (run_command_list_array calls fuel body) s
  run_command calls fuel (case_clause word items) s = run_with (word_copy word) (λ copy.
      let (ret, word', t) = calls.run_word (expand_tilde calls.getpwnam s copy false) s in
      if is_neg ret
      then done ret t
      else run_with (word_str word') (λ str. run_case_items calls fuel items str t))
  run_command calls fuel (function_definition name body io) s = run_function_definition name body s

  -- No `else` gives 0.
  pub run_else_part : Calls → ℕ → OptCommand → M
  run_else_part calls fuel no_command s = done (pos 0) s
  run_else_part calls fuel (a_command c) s = run_command calls fuel c s

  pub run_case_items : Calls → ℕ → CaseItems → Text → M
  run_case_items calls fuel no_items str s = done (pos 0) s
  run_case_items calls fuel (item patterns body items) str s =
      after_selection (select_item calls patterns str s) (run_command_list_array calls fuel body)
        (run_case_items calls fuel items str)

  pub run_and_or_list : Calls → ℕ → AndOrList → M
  run_and_or_list calls fuel (pipeline commands bang) s = run_pipeline calls fuel commands bang s
  run_and_or_list calls fuel (binop type' left right) s =
      run_binop type' (run_and_or_list calls fuel left) (run_and_or_list calls fuel right) s

  pub run_pipeline : Calls → ℕ → Commands → Bool → M
  run_pipeline calls fuel no_commands bang s = Run.undefined
  run_pipeline calls fuel (next_command c cs) bang s =
      pipeline_of calls (no_commands? cs) bang (run_command calls fuel c)
        (wait_children calls fuel cs) s

  -- The children are waited for in order, up to the first status that is negative.
  pub wait_children : Calls → ℕ → Commands → ℤ → M
  wait_children calls fuel no_commands ret s = done ret s
  wait_children calls fuel (next_command c cs) ret s =
      wait_child calls (run_command calls fuel c) (wait_children calls fuel cs) s

  -- An asynchronous list returns 0 once it is forked.
  pub run_command_list_array : Calls → ℕ → CommandLists → M
  run_command_list_array calls fuel no_lists s = done (pos 0) s
  run_command_list_array calls fuel (command_list l false ls) s =
      then_list (run_and_or_list calls fuel l) (run_command_list_array calls fuel ls) (no_lists? ls)
        s
  run_command_list_array calls fuel (command_list l true ls) s =
      if calls.forks s
      then then_list (done (pos 0)) (run_command_list_array calls fuel ls) (no_lists? ls) s
      else done task_error s
