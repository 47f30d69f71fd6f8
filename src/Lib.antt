-- ===== src/Lib.antt =====
-- A model of mrsh, a POSIX shell, and what is proved of it.
--
-- The shell reads a program into a syntax tree (parser/), and a runner walks the tree
-- (shell/task/). The runner expands words (shell/task/word.c, shell/word.c), evaluates arithmetic
-- (shell/arithm.c), calls built-in utilities (builtin/), and keeps variables, functions and call
-- frames in a state (shell/shell.c) on top of string-keyed tables (hashtable.c) and byte buffers
-- (buffer.c). Modelled are the parsers of programs, words and arithmetic, and of the runner the
-- layers from the containers up to the compound commands, with the table of jobs.
--
-- Base: shared helpers. Base.Strings has C strings as lists of bytes without the NUL,
--   Base.Fallible the outcome of a C function: `ok`, `failed` for the code's own error return,
--   and `undefined` for an abort, a failed assertion or undefined behaviour.
-- Memory: `realloc` and `memcpy` as the containers use them.
-- Buffer: buffer.c. `reserve`, `add`, `append`, `append_char`, `steal` and `finish` are the
--   mrsh_buffer functions of those names; sizes wrap at 2^64, and a pointer is an offset.
-- Array: array.c, on any type of pointers.
-- Hashtable: hashtable.c. `get`, `put`, `del` and `for_each` are mrsh_hashtable_get, _set, _del
--   and _for_each. A bucket is the list of its entries; Hashtable.Chain works on one bucket.
-- Ast: include/mrsh/ast.h without positions, with the copies of ast.c (Ast.Copy) and its texts
--   (Ast.Format, Ast.Node). Shell: shell/shell.c, with the loop level, branch
--   control and `exit` that the utilities and the runner share, and Shell.Env on its variables.
-- Arithm: include/mrsh/arithm.h (Arithm.Syntax), C's `long` (Arithm.Long) and shell/arithm.c
--   (Arithm.Eval). `run_arithm_expr` is mrsh_run_arithm_expr with the four functions that it
--   calls; the `long *` that it writes to is an optional value.
-- Parser: Parser.Input has the state of a parser with what is unread of its input, and the
--   symbols of parser/parser.c; Parser.Sizes what they leave. Parser.Source is the input itself:
--   the buffer, and what `read` or the caller's buffer adds to it (Source.Marked and Source.Advances
--   are on looking at the input and on taking it). Parser.Arithm is parser/arithm.c:
--   Terms up to `term`, Levels the binary operators (`left_level` is the loop of `factor` and
--   `addend`, `right_level` the recursion of `shift`, `comp`, `equal` and `binop`, a Reader the test
--   for the operator), Entry the rest. Within, Readers, LevelEnds, TermEnds and Ends are on its
--   termination; Print writes an expression, and Climbs to Start are on reading it back.
--   Parser.Session is the state of the parsers of words and programs, the rest of `struct
--   mrsh_parser`: a call returns its result and that state, `none` for NULL, or `aborted` for a
--   failed assertion. Here-documents go by the number of their redirection, and their lines are kept
--   by that number in `documents`, where the program writes to the redirection itself. Session.Tokens
--   has the tokens, Session.Below is about actions that leave no more input than they found.
--   Parser.Words is parser/word.c: quotes and words, with Words.Arithmetic for the words inside of
--   expansions, Words.Parameter for parameter expressions, and Words.Dollar for what begins with a
--   dollar sign or a back quote; Ends, WordEnds, DollarEnds and ListEnds are on termination, Quoting,
--   RoundTrip, Meaning and Pieces on reading a word of quoted pieces. Parser.Grammar is parser/program.c:
--   operators, aliases, redirections and assignments, then Grammar.Simple, Grammar.HereDocument,
--   Grammar.Lists from commands to lists, Grammar.Clauses and Grammar.Compound with the compound
--   commands, and Grammar.Program, which closes the circle: the parser of programs is an argument of
--   the parser of words, and `compound_command`, `parse_program` and `parse_line` take fuel for it.
--   Grammar.Aliases, Grammar.WordReturns and HereDocument.Lines have theorems on them.
--   Simple.NoRedirect, Reads, Names and Named, Compound.NotCompound, Program.NoMore and LineReads
--   are on reading a line with a simple command.
-- Word: mrsh_word_str and the helpers of shell/task/word.c (Word.Str, Word.Trim), and
--   shell/word.c in the order of the file: Word.Tilde, Word.Split, Word.Pattern. Word.Parameter
--   and Word.Parameter.Strings have the operators of `${...}` and the positional parameters;
--   Word.Parameter.Table is the standard's table of `-`, `=`, `?` and `+`, and
--   Word.Parameter.LargestPrefix is on `##` with a pattern.
-- Task: shell/task/task.c and shell/task/pipeline.c. Task.Run has the statuses, Task.Loop the
--   two loops, Task.Command the functions from `run_subshell` to `run_command_list_array`.
--   A call returns its status and the state that it leaves.
-- Job: shell/process.c (Job.Process) and shell/job.c: the table of jobs (Job.Table), foreground,
--   background and what a status of waitpid changes (Job.Control), waiting (Job.Wait), and the
--   lookup by name and what is shown of a job (Job.Lookup). A pointer to a process is its index
--   in a store, a pointer to a job is its id; what waitpid answers is a list of answers.
-- Builtin: Builtin.Control has builtin/break.c, builtin/return.c and builtin/exit.c. They and
--   the loops of Task interact by the level `nloops` and the branch control of the call frame.
--   Builtin.Getopt is getopt.c with the loop of its callers (`each_option`), Builtin.Unset
--   builtin/unset.c. Builtin.Shift is builtin/shift.c, where a string is the address that it
--   stands at and the strings that are freed are listed; Builtin.Unalias is
--   builtin/unalias.c.
-- Tests: runs of the model on concrete inputs.
--
-- Bounds. `long` has 64 bits, `int` and `unsigned int` 32, `size_t` 64. `run_loop_clause` takes
-- fuel, a bound on the rounds of each `while` or `until` loop, since the program's own loops need
-- not end, and the waits of Job.Wait and the loop of a utility over its options a bound on their
-- rounds. The parsers of words and programs take fuel for each loop and for how deep the calls
-- are nested; for words, Parser.Grammar.WordReturns says how much is enough, given that the
-- parser of programs returns within command substitutions. The arithmetic parser takes fuel for
-- its depth and its loops, for which more than the length of the input is enough. `out_of_fuel`
-- is an outcome of its own, which no theorem takes for a result; one states that a loop of the
-- program runs out of any fuel, since it does not end. A `for` loop needs none: its rounds are
-- counted by its fields. Everything else is structural recursion.
--
-- Parameters. The C library's realloc, strtod, snprintf, strtol, fnmatch, glob and getpwnam are
-- arguments of the definitions that use them. So are the calls from the runner to
-- run_simple_command, run_word and expand_word, the success of fork and pipe, and the status that
-- waiting for a child gives (the record `Calls`), and for jobs the macros of sys/wait.h, the
-- signal numbers, and the success of setpgid and kill. What waitpid and read answer, call by
-- call, is a list of answers. The function of mrsh_parser_set_alias_func gives a string with its
-- address, since the parser compares addresses. The C locale is assumed by `isspace` and `isalpha`.
--
-- Not modelled. Messages on standard error; memory that is freed, and a calloc or strdup that
-- fails; the pipes, descriptors, process groups and standard input of child processes, of which a
-- parent sees the exit status only, and a fork that fails after other children of its pipeline
-- were started; terminal modes, signals and traps; the jobs that the runner of Task creates, and
-- the processes: the parent of a subshell or of a pipeline records each child with process_create
-- and waits on it with job_wait_process, which a state of Task has no field for. Job ids and the
-- loop level are unbounded numbers, where the program has `int`, and the assertion that a pid
-- waited for is not the shell's own is left out. Nor are modelled case patterns, which the
-- program expands in place and the model expands anew each time. A loop's frame is the current
-- one when the loop begins and when it ends, since function calls restore the frame that they
-- replace. Of the parsers, source positions, the flag continuation_line, which only the prompt
-- reads, and mrsh_parser_reset; a count of 2^31 parentheses. Simple commands
-- (shell/task/simple_command.c), `_run_word` and the lookup of a parameter in shell/task/word.c,
-- and the other utilities are not modelled either; ast_print.c, main.c, frontend/, shell/entry.c,
-- shell/path.c and shell/redir.c are input and output.
pub mod Base
pub mod Memory
pub mod Buffer
pub mod Array
pub mod Hashtable
pub mod Ast
pub mod Shell
pub mod Arithm
pub mod Word
pub mod Task
pub mod Job
pub mod Parser
pub mod Builtin
pub mod Tests
