-- ===== src/Tests/Tasks.antt =====
-- Compound commands on concrete inputs. A simple command of this shell is known by its name alone:
-- `t` returns 0, `f` returns 1, and `exit` runs the built-in utility; each word is one field, `x`.
use mrsh.Base.{
  ◌≢◌, ℕ, ◌≡◌, refl, true, false, if◌then◌else◌, none, [], ◌∷◌, Text, text, pos, ◌+ℤ◌, str_eq,
}
use mrsh.Ast.{
  while, loop_clause, Word, Words, OptWord, Command, AndOrList, CommandLists, IoRedirects,
  Assignments, string, nil, cons, a_word, simple_command, no_commands, next_command, pipeline,
  no_lists, command_list, no_redirects, no_assignments,
}
use mrsh.Shell.{State, continue, state_create, env_set, attrib_none}
use mrsh.Task.Run.{out_of_fuel, M, done, interrupted, running, enter_loop, leave_loop}
use mrsh.Task.Command.{
  Calls, expand_words, run_for_clause, run_command, run_command_list_array, run_and_or_list,
  then_list, pipeline_of,
}
use mrsh.Task.Loop.{run_loop_clause, loop_rounds, then_rounds, after_condition}
use mrsh.Task.Loops.{IsSteady, run_for_clause-steady, run_for_clause-continue_last}
use mrsh.Task.Lists.{run_command_list_array-last_status}
use mrsh.Builtin.Control.{builtin_exit}
use mrsh.Builtin.Control.Laws.{
  break_command, run_for_clause-break_command, run_for_clause-break_two,
}

abbrev run_named : Text → M
run_named name s =
    if str_eq name (text "t")
    then done (pos 0) s
    else (if str_eq name (text "f")
        then done (pos 1) s
        else (let (ret, t) =
              builtin_exit (λ str. record { value = pos 3; end = 1; errno = false })
                (text "exit" ∷ text "3" ∷ []) s in
            done ret t))

abbrev run_simple : OptWord → Words → IoRedirects → Assignments → M
run_simple (a_word (string str q f)) arguments io vars s = run_named str s
run_simple _ arguments io vars s = done (pos 0) s

abbrev calls : Calls
calls = record {
  run_simple_command = run_simple;
  run_word = λ w s. (pos 0, w, s);
  expand_word = λ w s. (pos 0, text "x" ∷ [], s);
  fnmatch = λ p s. false;
  getpwnam = λ name. none;
  forks = λ s. true;
  waits = λ code. code;
}

abbrev word : Word
word = string (text "x") false false

abbrev words : Words
words = cons word nil

abbrev named : Text → Command
named name = simple_command (a_word (string name false false)) nil no_redirects no_assignments

abbrev alone : Text → AndOrList
alone name = pipeline (next_command (named name) no_commands) false

abbrev just : AndOrList → CommandLists
just l = command_list l false no_lists

abbrev inside : State
inside = enter_loop state_create

words_expand : (s : State) → expand_words calls words [] s ≡ (pos 0, text "x" ∷ [], s)
unfolding expand_words
words_expand s = refl

one_deeper : (s : State) → (enter_loop s).frame.nloops ≡ s.frame.nloops +ℤ pos 1
unfolding enter_loop
one_deeper s = refl

starts_at_zero : state_create.frame.nloops ≡ pos 0
unfolding state_create
starts_at_zero = refl

is_running : running inside ≡ true
unfolding state_create enter_loop
is_running = refl

run_for_clause-break_command_example :
    (t : State) × (run_for_clause calls (text "i") words (break_command (pos 1)) state_create
      ≡ done (pos 0) t)
    × (t.frame.nloops ≡ state_create.frame.nloops)
    × (t.variables ≡ (env_set inside (text "i") (text "x") attrib_none).variables)
run_for_clause-break_command_example =
    run_for_clause-break_command calls (text "i") words state_create inside (text "x") [] 0
      (words_expand inside) (one_deeper state_create) starts_at_zero is_running

abbrev in_first : State
in_first = env_set inside (text "i") (text "x") attrib_none

first_running : running (enter_loop in_first) ≡ true
unfolding state_create enter_loop env_set
first_running = refl

run_for_clause-break_two_example :
    (t : State) × (run_for_clause calls
        (text "i")
        words
        (run_for_clause calls (text "j") words (break_command (pos 2)))
        state_create
      ≡ done interrupted t)
run_for_clause-break_two_example =
    run_for_clause-break_two calls (text "i") words state_create inside (text "x") [] 0
      (words_expand inside) (one_deeper state_create) starts_at_zero is_running (text "j") words
      (enter_loop in_first) (text "x") [] (words_expand (enter_loop in_first)) (one_deeper in_first)
      first_running

abbrev succeed : M
succeed s = done (pos 0) s

succeed-IsSteady : IsSteady succeed
succeed-IsSteady s = (0, s, refl, refl)

run_for_clause-steady_example :
    (m : ℕ) × (t : State) × (run_for_clause calls (text "i") words succeed state_create
      ≡ done (pos m) t)
    × (t.frame.nloops ≡ state_create.frame.nloops)
run_for_clause-steady_example =
    run_for_clause-steady calls (text "i") words succeed state_create inside (text "x" ∷ [])
      (words_expand inside) (one_deeper state_create) succeed-IsSteady

abbrev continue_now : M
continue_now s =
    done interrupted (record s { frame = record (s.frame) { branch_control = continue } })

run_for_clause-continue_last_example :
    run_for_clause calls (text "i") words continue_now state_create
    ≡ done interrupted (
        leave_loop
          (record in_first { frame = record (in_first.frame) { branch_control = continue } }))
run_for_clause-continue_last_example =
    run_for_clause-continue_last calls (text "i") words continue_now state_create inside
      (text "x" ∷ []) (words_expand inside) (one_deeper state_create) (text "x")
      (record in_first { frame = record (in_first.frame) { branch_control = continue } }) refl
      is_running refl refl (unfold env_set in refl)

t_runs :
    run_command_list_array calls 0 (just (alone (text "t"))) state_create
    ≡ done (pos 0) (record state_create { last_status = pos 0 })
unfolding run_command_list_array run_and_or_list run_command then_list pipeline_of str_eq
t_runs = refl

run_command_list_array-last_status_example :
    (record state_create { last_status = pos 0 }).last_status ≡ pos 0
run_command_list_array-last_status_example =
    run_command_list_array-last_status calls 0 0 (alone (text "t")) false no_lists state_create
      (record state_create { last_status = pos 0 }) t_runs

abbrev after_exit : State
after_exit =
    (builtin_exit (λ str. record { value = pos 3; end = 1; errno = false })
      (text "exit" ∷ text "3" ∷ []) state_create).1

exit_runs : run_command calls 0 (named (text "exit")) state_create ≡ done interrupted after_exit
unfolding run_command builtin_exit str_eq
exit_runs = refl

exit_list :
    run_command_list_array calls 0 (just (alone (text "exit"))) state_create
    ≡ done interrupted after_exit
unfolding run_command_list_array run_and_or_list run_command then_list pipeline_of builtin_exit
    str_eq
exit_list = refl

-- `while f; do t; done` on fuel for one round.
abbrev waiting : Command
waiting = loop_clause while (just (alone (text "f"))) (just (alone (text "t")))

one_round_is_enough : run_command calls 1 waiting state_create ≢ out_of_fuel
unfolding run_command run_command_list_array run_and_or_list run_loop_clause loop_rounds then_rounds
    after_condition then_list pipeline_of str_eq state_create enter_loop
one_round_is_enough = λ e. cc
