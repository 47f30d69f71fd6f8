-- ===== src/Task/Loop.antt =====
-- The loops of `run_loop_clause` and `run_for_clause`, over the runs of their parts.
use mrsh.Base.{
  ℕ, zero, suc, Bool, true, false, not, if◌then◌else◌, ℤ, pos, eq_ℤ, ltb_ℤ, Text, List, [], ◌∷◌,
}
use mrsh.Ast.{LoopType, while, until}
use mrsh.Shell.{State, break, continue, return, exit, env_set, attrib_none}
use mrsh.Task.Run.{
  Run, M, done, undefined, out_of_fuel, is_neg, is_zero, running, interrupted, enter_loop,
  leave_loop,
}

-- How a round of a loop ends: out of the loop with this `loop_ret`, out of the function with this
-- status, or on to the next round.
pub data Round : Type 0 where
  stop : ℤ → State → Round
  leave : ℤ → State → Round
  again : ℤ → State → Round
  unset : Round
  no_fuel : Round

-- The code under the label `interrupt`. `clear` says that `break_loop` was set to false.
unfoldable pub interrupt : ℤ → Bool → ℤ → State → Round
interrupt loop_num clear loop_ret s =
    if ltb_ℤ s.frame.nloops loop_num then stop interrupted s else elim s.frame.branch_control [
      | break ↦ stop (pos 0) s
      | return ↦ stop (pos 0) s
      | exit ↦ stop (pos 0) s
      | continue ↦ if clear then again loop_ret s else unset
    ]

-- The status of the body of a loop, which becomes `loop_ret`.
unfoldable pub after_body : ℤ → Run → Round
unfolding interrupt
after_body loop_num (done ret s) =
    if eq_ℤ ret interrupted
    then interrupt loop_num true ret s
    else (if is_neg ret then leave ret s else again ret s)
after_body loop_num undefined = unset
after_body loop_num out_of_fuel = no_fuel

abbrev pub ends_loop : LoopType → ℤ → Bool
ends_loop while ret = not (is_zero ret)
ends_loop until ret = is_zero ret

-- One round of `run_loop_clause`, from the outcome of its condition.
unfoldable pub after_condition : ℤ → LoopType → M → ℤ → Run → Round
unfolding after_body
after_condition loop_num type' body loop_ret (done ret s) =
    if eq_ℤ ret interrupted
    then interrupt loop_num false loop_ret s
    else (if is_neg ret
        then leave ret s
        else (if ends_loop type' ret then stop loop_ret s else after_body loop_num (body s)))
after_condition loop_num type' body loop_ret undefined = unset
after_condition loop_num type' body loop_ret out_of_fuel = no_fuel

-- `loop_ret`, once the loop is left, is returned with the loop's level taken off again.
abbrev pub end_loop : ℤ → State → Run
end_loop loop_ret s = done loop_ret (leave_loop s)

-- What follows a round: the code behind the `while`, a return, or the rounds that are left.
unfoldable pub then_rounds : Round → (ℤ → M) → Run
then_rounds (stop ret s) rounds = end_loop ret s
then_rounds (leave ret s) rounds = done ret s
then_rounds (again ret s) rounds = rounds ret s
then_rounds unset rounds = undefined
then_rounds no_fuel rounds = out_of_fuel

-- The `while` of `run_loop_clause`.
unfoldable pub loop_rounds : ℕ → ℤ → LoopType → M → M → ℤ → M
unfolding after_condition then_rounds
loop_rounds zero loop_num type' condition body loop_ret s = out_of_fuel
loop_rounds (suc fuel) loop_num type' condition body loop_ret s = elim (running s) [
  | false ↦ end_loop loop_ret s
  | true ↦
      then_rounds (after_condition loop_num type' body loop_ret (condition s))
        (loop_rounds fuel loop_num type' condition body)
]

unfoldable pub run_loop_clause : ℕ → LoopType → M → M → M
unfolding loop_rounds enter_loop leave_loop
run_loop_clause fuel type' condition body s =
    let t = enter_loop s in loop_rounds fuel t.frame.nloops type' condition body (pos 0) t

-- The `while` of `run_for_clause`: a round for each field.
unfoldable pub for_rounds : ℤ → Text → M → List Text → ℤ → M
unfolding after_body then_rounds
for_rounds loop_num name body [] loop_ret s = end_loop loop_ret s
for_rounds loop_num name body (field ∷ fields) loop_ret s = elim (running s) [
  | false ↦ end_loop loop_ret s
  | true ↦
      then_rounds (after_body loop_num (body (env_set s name field attrib_none)))
        (for_rounds loop_num name body fields)
]
