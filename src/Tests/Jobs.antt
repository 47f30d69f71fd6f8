-- ===== src/Tests/Jobs.antt =====
-- Runs of the jobs, and of the copy of a syntax tree, on concrete inputs.
use mrsh.Base.{
  ℕ, ◌≡◌, refl, true, false, Bool, ok, pos, List, [], ◌∷◌, ◌++◌, replicate, none, some, text, arith,
}
use mrsh.Ast.{
  string, list, a_word, nil, cons, command, program, no_redirects, no_assignments, Command,
  simple_command, brace_group, no_commands, next_command, pipeline, no_lists, command_list,
}
use mrsh.Ast.Copy.{command_copy, command_list_array_copy}
use mrsh.Ast.Copy.Laws.{IsParsedCommand, command_copy_of_IsParsed}
use mrsh.Ast.Node.{program_node, node_copy}
use mrsh.Job.Process.{
  store_process, WaitStatus, exited, Process, Processes, task_stopped, fetch, find_pid,
  process_poll, update_process,
}
use mrsh.Job.Table.{
  find_job, job_get_running_process, running_process, Table, Job, new_job, job_poll, job_create,
}
use mrsh.Job.Control.{update_job}
use mrsh.Job.Wait.{
  refresh_jobs_status, refresh_rounds, wait_pid, job_wait_pid, status, interrupted, returned,
  job_wait_process,
}
use mrsh.Job.Laws.Status.{combined, job_poll-combined}
use mrsh.Job.Laws.Ids.{NoneHas, AreDistinct, job_create-AreDistinct}
use mrsh.Job.Laws.Wait.{reaped, update_process-stopped, job_wait_process-exited}

-- `{ echo "$(ls)"; }`
abbrev group : Command
group = brace_group (
    command_list
      (pipeline
        (next_command
          (simple_command (a_word (string (text "echo") false false))
            (cons
              (list
                (cons
                  (command
                    (program (
                      command_list
                        (pipeline
                          (next_command
                            (simple_command (a_word (string (text "ls") false false)) nil
                              no_redirects no_assignments)
                            no_commands)
                          false)
                        false no_lists))
                    false)
                  nil)
                true)
              nil)
            no_redirects no_assignments)
          no_commands)
        false)
      false no_lists)

command_copy_of_IsParsed_example : command_copy group ≡ ok group
unfolding IsParsedCommand
command_copy_of_IsParsed_example =
    command_copy_of_IsParsed group
      (((refl, (((((refl, tt, tt, tt), tt), tt), tt), tt), tt, tt), tt), tt)

-- Every status is that of an exit.
abbrev decode : ℕ → WaitStatus
decode stat = exited stat

abbrev process : ℕ → Bool → Bool → ℕ → Process
process pid stopped terminated stat = record {
  pid = pid;
  stopped = stopped;
  terminated = terminated;
  stat = stat;
  signal = 0;
}

-- One process has exited with 3, one runs and one is stopped.
abbrev three : Processes
three = record {
  store = process 10 false true 3 ∷ process 11 false false 0 ∷ process 12 true false 0 ∷ [];
  array = 0 ∷ 1 ∷ 2 ∷ [];
}

abbrev a_job : ℕ → List ℕ → Job
a_job id procs = record (new_job id (program_node no_lists)) { processes = procs }

abbrev table : Table
table = record {
  procs = three;
  jobs = a_job 1 (0 ∷ 2 ∷ []) ∷ a_job 4 (1 ∷ []) ∷ [];
  foreground_job = none;
  job_control = false;
}

fetch_exited : fetch three 0 ≡ ok (process 10 false true 3)
unfolding fetch
fetch_exited = refl

fetch_stopped : fetch three 2 ≡ ok (process 12 true false 0)
unfolding fetch
fetch_stopped = refl

poll_exit : process_poll decode (process 10 false true 3) ≡ ok (pos 3)
unfolding process_poll
poll_exit = refl

poll_stopped : process_poll decode (process 12 true false 0) ≡ ok task_stopped
unfolding process_poll
poll_stopped = refl

job_poll-combined_example :
    job_poll decode table (a_job 1 (2 ∷ 0 ∷ []))
    ≡ ok (combined (pos 0) false (task_stopped ∷ pos 3 ∷ []))
job_poll-combined_example =
    job_poll-combined decode table (a_job 1 (2 ∷ 0 ∷ [])) (task_stopped ∷ pos 3 ∷ []) (
      (process 12 true false 0, fetch_stopped, poll_stopped),
      ((process 10 false true 3, fetch_exited, poll_exit), tt),
    )

distinct : AreDistinct table.jobs
distinct = (omega arith, (λ e. omega arith, tt), (omega arith, tt, tt))

-- The job with id 4 is the last, so the next id is 5.
created :
    job_create table (program_node no_lists)
    ≡ ok (a_job 5 [], record table { jobs = table.jobs ++ a_job 5 [] ∷ [] })
unfolding job_create node_copy command_list_array_copy
created = refl

job_create-AreDistinct_example : NoneHas 5 table.jobs × AreDistinct (table.jobs ++ a_job 5 [] ∷ [])
job_create-AreDistinct_example =
    job_create-AreDistinct table (record table { jobs = table.jobs ++ a_job 5 [] ∷ [] })
      (program_node no_lists) (a_job 5 []) distinct created

found_stopped : find_pid three 12 three.array ≡ ok (some (2, process 12 true false 0))
unfolding find_pid fetch
found_stopped = refl

update_process-stopped_example :
    (ps' : Processes) × (q : Process) × (update_process decode three 12 7 ≡ ok ps')
    × (fetch ps' 2 ≡ ok q)
    × (process_poll decode q ≡ ok task_stopped)
update_process-stopped_example =
    update_process-stopped decode three 12 7 7 2 (process 12 true false 0) refl found_stopped refl

found_running : find_pid three 11 three.array ≡ ok (some (1, process 11 false false 0))
unfolding find_pid fetch
found_running = refl

-- Two interruptions, and then the exit with 5 of the process that runs.
job_wait_process-exited_example :
    job_wait_process decode (λ sig. false) 2 1 table (replicate 2 interrupted ++ (status 5 ∷ []))
    ≡ returned (pos 5) (reaped decode (λ sig. false) table 1 5 5 2 (process 11 false false 0) []) []
job_wait_process-exited_example =
    job_wait_process-exited decode (λ sig. false) table 1 5 5 2 (process 11 false false 0) [] refl
      refl refl found_running refl refl

-- The process that runs exits, and the table knows of it.
refresh_runs :
    refresh_jobs_status decode (λ sig. false) table (interrupted ∷ status 5 ∷ [])
    ≡ returned true
        (record table {
          procs = record three {
            store =
                process 10 false true 3 ∷ process 11 false true 5 ∷ process 12 true false 0 ∷ [];
          };
        })
        []
unfolding refresh_jobs_status refresh_rounds find_job job_get_running_process running_process fetch
    process_poll wait_pid job_wait_pid update_job update_process find_pid store_process
refresh_runs = refl
