-- ===== src/Task/Loops.antt =====
-- How the loops of shell/task/task.c end, and what they leave of the loop level.
use mrsh.Base.{
  ℕ, ◌≡◌, ◌≢◌, refl, ap, sym, ◌∙◌, true, false, Bool-cases, inl, inr, ℤ, pos, ◌+ℤ◌, ◌-ℤ◌, ltb_ℤ,
  Text, List, [], ◌∷◌, arith,
}
use mrsh.Ast.{Words}
use mrsh.Shell.{State, break, continue, return, exit, env_set, attrib_none}
use mrsh.Task.Run.{Run, M, done, running, interrupted, enter_loop, leave_loop}
use mrsh.Task.Loop.{Round, stop, again, interrupt, after_body, for_rounds, end_loop}
use mrsh.Task.Command.{Calls, expand_words, run_for_clause}

-- One level up and down again.
pub leave-enter : (n : ℤ) → n +ℤ pos 1 -ℤ pos 1 ≡ n
unfolding ◌+ℤ◌ ◌-ℤ◌
leave-enter n = ground arith

-- A body that is not interrupted: it returns a status that is not negative, at the same level.
abbrev pub Finishes : State → Run → Type 0
Finishes s r = (n : ℕ) × (t : State) × (r ≡ done (pos n) t) × (t.frame.nloops ≡ s.frame.nloops)

abbrev pub IsSteady : M → Type 0
IsSteady body = (s : State) → Finishes s (body s)

module _ (loop_num : ℤ) (name : Text) (body : M) where
  for_rounds_not_running :
      (fields : List Text) (r : ℤ) (s : State)
      → running s ≡ false
      → for_rounds loop_num name body fields r s ≡ end_loop r s
  unfolding for_rounds
  for_rounds_not_running [] r s e = refl
  for_rounds_not_running (f ∷ fs) r s e = rw (e, for_rounds)

  for_rounds_again :
      (f : Text) (fs : List Text) (r r' : ℤ) (s t : State)
      → running s ≡ true
      → after_body loop_num (body (env_set s name f attrib_none)) ≡ again r' t
      → for_rounds loop_num name body (f ∷ fs) r s ≡ for_rounds loop_num name body fs r' t
  unfolding for_rounds
  for_rounds_again f fs r r' s t e h = rw (e, for_rounds) (rw (h, for_rounds))

  for_rounds_stop :
      (f : Text) (fs : List Text) (r r' : ℤ) (s t : State)
      → running s ≡ true
      → after_body loop_num (body (env_set s name f attrib_none)) ≡ stop r' t
      → for_rounds loop_num name body (f ∷ fs) r s ≡ end_loop r' t
  unfolding for_rounds
  for_rounds_stop f fs r r' s t e h = rw (e, for_rounds) (rw (h, for_rounds))

  for_rounds_steady :
      (steady : IsSteady body) (fields : List Text) (n : ℕ) (s : State)
      → (m : ℕ) × (u : State) × (for_rounds loop_num name body fields (pos n) s ≡ done (pos m) u)
        × (u.frame.nloops ≡ s.frame.nloops -ℤ pos 1)
  unfolding for_rounds leave_loop after_body env_set
  for_rounds_steady steady [] n s = (n, leave_loop s, refl, refl)
  for_rounds_steady steady (f ∷ fs) n s = elim (Bool-cases (running s)) [
    | inr over ↦ (n, leave_loop s, for_rounds_not_running (f ∷ fs) (pos n) s over, refl)
    | inl on ↦
        let (k, t, e, level) = steady (env_set s name f attrib_none) in
        let (m, u, e', level') = for_rounds_steady steady fs k t in
        (
          m,
          u,
          for_rounds_again f fs (pos n) (pos k) s t on (ap (after_body loop_num) e) ∙ e',
          level' ∙ ap (λ l. l -ℤ pos 1) level,
        )
  ]

level_kept : (n : ℤ) → ltb_ℤ n n ≡ false
level_kept n = ground arith

level_below : (m n : ℤ) → m ≡ n -ℤ pos 1 → ltb_ℤ m n ≡ true
unfolding ◌-ℤ◌
level_below m n e = rw e (ground arith)

-- An interruption at the level of the loop itself is the loop's own.
after_body-own :
    (loop_num : ℤ) (t : State)
    → t.frame.nloops ≡ loop_num
    → after_body loop_num (done interrupted t) ≡ (elim t.frame.branch_control [
      | break ↦ stop (pos 0) t
      | return ↦ stop (pos 0) t
      | exit ↦ stop (pos 0) t
      | continue ↦ again interrupted t
    ])
unfolding after_body
after_body-own loop_num t e =
    let same : ltb_ℤ t.frame.nloops loop_num ≡ false = ground arith in rw same

-- One below the level of the loop it is for a loop further out.
after_body-outer :
    (loop_num : ℤ) (t : State)
    → t.frame.nloops ≡ loop_num -ℤ pos 1
    → after_body loop_num (done interrupted t) ≡ stop interrupted t
unfolding after_body interrupt
after_body-outer loop_num t e = rw (level_below t.frame.nloops loop_num e)

module _ (calls : Calls) (name : Text) (words : Words) (body : M) (s u : State) (fields : List Text)
    (expanded : expand_words calls words [] (enter_loop s) ≡ (pos 0, fields, u))
    (level : u.frame.nloops ≡ s.frame.nloops +ℤ pos 1) where
  level_entered : (enter_loop s).frame.nloops ≡ u.frame.nloops
  unfolding enter_loop
  level_entered = sym level

  run_for_clause-rounds :
      run_for_clause calls name words body s ≡ for_rounds u.frame.nloops name body fields (pos 0) u
  unfolding run_for_clause
  run_for_clause-rounds = rw (expanded, level)

  -- A `for` loop whose words expand at the level of the loop and whose body, in any state, ends with a
  -- status that is not negative and at the loop level that it began at does so too: it returns a status
  -- that is not negative, at the level of before the loop.
  pub run_for_clause-steady :
      IsSteady body
      → (m : ℕ) × (t : State) × (run_for_clause calls name words body s ≡ done (pos m) t)
        × (t.frame.nloops ≡ s.frame.nloops)
  run_for_clause-steady steady =
      let (m, t, e, l) = for_rounds_steady u.frame.nloops name body steady fields 0 u in
      (m, t, run_for_clause-rounds ∙ e, l ∙ ap (λ n. n -ℤ pos 1) level ∙ leave-enter s.frame.nloops)

  -- `break`: when the body is interrupted on the first field, at the loop's own level and not by
  -- `continue`, the loop ends at once with status 0, and the level is that from before the loop.
  pub run_for_clause-break :
      (f : Text) (fs : List Text) (t : State)
      → fields ≡ f ∷ fs
      → running u ≡ true
      → body (env_set u name f attrib_none) ≡ done interrupted t
      → t.frame.branch_control ≢ continue
      → t.frame.nloops ≡ u.frame.nloops
      → (run_for_clause calls name words body s ≡ done (pos 0) (leave_loop t))
        × ((leave_loop t).frame.nloops ≡ s.frame.nloops)
  unfolding leave_loop
  run_for_clause-break f fs t one on hit control own = (
    run_for_clause-rounds
        ∙ rw one (
            for_rounds_stop u.frame.nloops name body f fs (pos 0) (pos 0) u t on (
              ap (after_body u.frame.nloops) hit
              ∙ after_body-own u.frame.nloops t own
              ∙ stops t control)),
    ap (λ n. n -ℤ pos 1) (own ∙ level) ∙ leave-enter s.frame.nloops,
  )
    where
      stops :
          (t : State)
          → t.frame.branch_control ≢ continue
          → (elim t.frame.branch_control as (λ _. Round) [
            | break ↦ stop (pos 0) t
            | return ↦ stop (pos 0) t
            | exit ↦ stop (pos 0) t
            | continue ↦ again interrupted t
          ])
            ≡ stop (pos 0) t
      stops t h = ground arith

  -- In a running shell, a `for` loop over one field whose body is interrupted by `continue` at the
  -- level of the loop ends, and returns the status of that interruption as if it were itself
  -- interrupted.
  pub run_for_clause-continue_last :
      (f : Text) (t : State)
      → fields ≡ f ∷ []
      → running u ≡ true
      → body (env_set u name f attrib_none) ≡ done interrupted t
      → t.frame.branch_control ≡ continue
      → t.frame.nloops ≡ u.frame.nloops
      → run_for_clause calls name words body s ≡ done interrupted (leave_loop t)
  run_for_clause-continue_last f t one on hit control own =
      run_for_clause-rounds
      ∙ rw one (
          for_rounds_again u.frame.nloops name body f [] (pos 0) interrupted u t on (
            ap (after_body u.frame.nloops) hit
            ∙ after_body-own u.frame.nloops t own
            ∙ goes t control)
          ∙ last_round t)
    where
      goes :
          (t : State)
          → t.frame.branch_control ≡ continue
          → (elim t.frame.branch_control as (λ _. Round) [
            | break ↦ stop (pos 0) t
            | return ↦ stop (pos 0) t
            | exit ↦ stop (pos 0) t
            | continue ↦ again interrupted t
          ])
            ≡ again interrupted t
      goes t h = ground arith

      last_round :
          (t : State)
          → for_rounds u.frame.nloops name body [] interrupted t ≡ done interrupted (leave_loop t)
      last_round t = unfold for_rounds in refl

  -- A body interrupted one level below the loop, as a loop inside it is by `break 2`, ends the loop
  -- with the status of an interruption.
  pub run_for_clause-outer :
      (f : Text) (fs : List Text) (t : State)
      → fields ≡ f ∷ fs
      → running u ≡ true
      → body (env_set u name f attrib_none) ≡ done interrupted t
      → t.frame.nloops ≡ u.frame.nloops -ℤ pos 1
      → run_for_clause calls name words body s ≡ done interrupted (leave_loop t)
  run_for_clause-outer f fs t one on hit below =
      run_for_clause-rounds
      ∙ rw one (
          for_rounds_stop u.frame.nloops name body f fs (pos 0) interrupted u t on
            (ap (after_body u.frame.nloops) hit ∙ after_body-outer u.frame.nloops t below))
