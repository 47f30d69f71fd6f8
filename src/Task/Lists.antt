-- ===== src/Task/Lists.antt =====
-- Command lists, AND-OR lists, subshells and pipelines: which statuses and states they leave.
use mrsh.Base.{
  ℕ, ◌≡◌, ◌⊎◌, refl, ap, Bool, true, false, Bool-cases, inl, inr, if◌then◌else◌, ℤ, pos, negsuc,
}
use mathlib.Core.Path.{subst}
use mrsh.Ast.{AndOrList, CommandLists, subshell, no_lists, command_list}
use mrsh.Shell.{State}
use mrsh.Task.Run.{Run, M, done, undefined, out_of_fuel, next, is_neg, exit_code}
use mrsh.Task.Command.{
  Calls, run_subshell, then_list, run_command, run_and_or_list, run_command_list_array,
}

-- When the fork succeeds, a subshell whose commands end in a negative status, as those that `exit
-- n` interrupts do, exits with 127 whatever the exit status asked for.
pub run_command-subshell_interrupted :
    (calls : Calls) (fuel : ℕ) (body : CommandLists) (s t : State) (ret : ℤ)
    → calls.forks s ≡ true
    → run_command_list_array calls fuel body s ≡ done ret t
    → is_neg ret ≡ true
    → run_command calls fuel (subshell body) s ≡ done (calls.waits (pos 127)) s
unfolding run_command run_subshell
run_command-subshell_interrupted calls fuel body s t ret forked e neg =
    rw (forked, e)
      (ap
        (λ b.
          done
            (calls.waits
              (if b then pos 127 else (if is_neg t.exit then exit_code ret else exit_code t.exit)))
            s)
        neg)

-- The run ends with a negative status, or with one that is recorded.
abbrev pub Records : Run → Type 0
Records (done ret t) = (is_neg ret ≡ true) ⊎ (t.last_status ≡ ret)
Records undefined = Unit
Records out_of_fuel = Unit

then_list-Records :
    (first : Run) (rest : M) (is_last : Bool)
    → (is_last ≡ false → (t : State) → Records (rest t))
    → Records (
        next first (λ ret s.
          if is_neg ret
          then done ret s
          else (if is_last
              then done ret (record s { last_status = ret })
              else rest (record s { last_status = ret }))))
then_list-Records (done (pos n) t) rest true h = inr refl
then_list-Records (done (pos n) t) rest false h = h refl (record t { last_status = pos n })
then_list-Records (done (negsuc n) t) rest is_last h = inl refl
then_list-Records undefined rest is_last h = tt
then_list-Records out_of_fuel rest is_last h = tt

list-Records :
    (calls : Calls) (fuel : ℕ) (l : AndOrList) (ampersand : Bool) (ls : CommandLists) (s : State)
    → Records (run_command_list_array calls fuel (command_list l ampersand ls) s)
unfolding run_command_list_array then_list
list-Records calls fuel l false no_lists s =
    then_list-Records (run_and_or_list calls fuel l s) (run_command_list_array calls fuel no_lists)
      true (λ e. cc)
list-Records calls fuel l false (command_list l' a' ls) s =
    then_list-Records (run_and_or_list calls fuel l s)
      (run_command_list_array calls fuel (command_list l' a' ls)) false
      (λ _. list-Records calls fuel l' a' ls)
list-Records calls fuel l true no_lists s = elim (Bool-cases (calls.forks s)) [
  | inl good ↦ rw good (inr refl)
  | inr bad ↦ rw bad (inl refl)
]
list-Records calls fuel l true (command_list l' a' ls) s = elim (Bool-cases (calls.forks s)) [
  | inl good ↦ rw good (list-Records calls fuel l' a' ls (record s { last_status = pos 0 }))
  | inr bad ↦ rw bad (inl refl)
]

-- When a list of commands that is not empty ends with a status that is not negative, that status is
-- the `last_status` of the state it leaves.
pub run_command_list_array-last_status :
    (calls : Calls) (fuel n : ℕ) (l : AndOrList) (ampersand : Bool) (ls : CommandLists)
    (s t : State)
    → run_command_list_array calls fuel (command_list l ampersand ls) s ≡ done (pos n) t
    → t.last_status ≡ pos n
run_command_list_array-last_status calls fuel n l ampersand ls s t e =
    recorded (subst Records e (list-Records calls fuel l ampersand ls s))
  where
    recorded : Records (done (pos n) t) → t.last_status ≡ pos n
    recorded (inl neg) = cc
    recorded (inr r) = r
