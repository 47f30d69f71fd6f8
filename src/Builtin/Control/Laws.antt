-- ===== src/Builtin/Control/Laws.antt =====
-- What `break` does to the loop level, and to the loops around it.
use mrsh.Base.{
  ℕ, suc, ◌+◌, ◌≤◌, ◌<◌, ◌≡◌, ◌≢◌, ◌⊎◌, refl, sym, ap, ◌∙◌, Bool, true, false, Bool-cases, inl, inr,
  if◌then◌else◌, ℤ, pos, negsuc, ◌+ℤ◌, ◌-ℤ◌, ltb_ℤ, Text, text, List, [], ◌∷◌, arith,
}
use mrsh.Ast.{Words}
use mrsh.Shell.{State, break, env_set, attrib_none}
use mrsh.Task.Run.{M, done, interrupted, running, enter_loop, leave_loop}
use mrsh.Task.Command.{Calls, expand_words, run_for_clause}
use mrsh.Task.Loops.{run_for_clause-break, run_for_clause-outer, leave-enter}
use mrsh.Builtin.Control.{break_loops}

-- `break n` run as a command.
abbrev pub break_command : ℤ → M
break_command n s = let (ret, t) = break_loops (text "break") n s in done ret t

-- With `n` between 1 and the level, `break n` interrupts and takes the level down by `n - 1`.
pub break_loops-level :
    (name : Text) (n k : ℕ) (s : State)
    → s.frame.nloops ≡ pos k
    → 1 ≤ n
    → n ≤ k
    → ((break_loops name (pos n) s).0 ≡ interrupted)
      × ((break_loops name (pos n) s).1.frame.nloops +ℤ pos n ≡ pos (k + 1))
unfolding break_loops ◌-ℤ◌ ◌+ℤ◌
break_loops-level name n k s e lo hi = (refl, ground arith)

-- At a level that is not negative, `break 0` takes the level up by one, and so does `break n`
-- outside of a loop: it then counts a loop that is not there.
break_loops-raises :
    (name : Text) (n k : ℕ) (s : State)
    → s.frame.nloops ≡ pos k
    → n ≡ 0 ⊎ k ≡ 0
    → (break_loops name (pos n) s).1.frame.nloops ≡ pos (k + 1)
unfolding break_loops ◌-ℤ◌ ◌+ℤ◌
break_loops-raises name n k s e h = ground arith

break_one_keeps :
    (s : State) (k : ℕ)
    → s.frame.nloops ≡ pos (suc k)
    → (break_loops (text "break") (pos 1) s).1.frame.nloops ≡ s.frame.nloops
unfolding break_loops ◌-ℤ◌ ◌+ℤ◌
break_one_keeps s k e = ground arith

break_two_lowers :
    (s : State) (k : ℕ)
    → s.frame.nloops ≡ pos (suc (suc k))
    → (break_loops (text "break") (pos 2) s).1.frame.nloops ≡ s.frame.nloops -ℤ pos 1
unfolding break_loops ◌-ℤ◌ ◌+ℤ◌
break_two_lowers s k e = ground arith

break_is_break :
    (n : ℤ) (s : State) → (break_loops (text "break") n s).1.frame.branch_control ≡ break
unfolding break_loops
break_is_break n s = unfold mrsh.Base.str_eq in refl

-- The variables are not touched.
break_keeps_variables :
    (n : ℤ) (s : State) → (leave_loop (break_loops (text "break") n s).1).variables ≡ s.variables
unfolding break_loops leave_loop
break_keeps_variables n s = ground arith

break_command-hit :
    (n : ℤ) (s : State) → break_command n s ≡ done interrupted (break_loops (text "break") n s).1
unfolding break_loops
break_command-hit n s = refl

one_up : (n : ℤ) (k : ℕ) → n ≡ pos k → n +ℤ pos 1 ≡ pos (suc k)
unfolding ◌+ℤ◌
one_up n k e = ground arith

env_set-frame :
    (s : State) (name value : Text) (attribs : ℕ)
    → (env_set s name value attribs).frame.nloops ≡ s.frame.nloops
unfolding env_set
env_set-frame s name value attribs = refl

module _ (calls : Calls) (name : Text) (words : Words) (s u : State) (f : Text) (fs : List Text)
    (k : ℕ) (expanded : expand_words calls words [] (enter_loop s) ≡ (pos 0, f ∷ fs, u))
    (level : u.frame.nloops ≡ s.frame.nloops +ℤ pos 1) (start : s.frame.nloops ≡ pos k)
    (on : running u ≡ true) where
  entered : (env_set u name f attrib_none).frame.nloops ≡ pos (suc k)
  entered = env_set-frame u name f attrib_none ∙ level ∙ one_up s.frame.nloops k start

  -- In a running shell whose loop level is not negative, a `for` loop whose words expand, at the
  -- level of the loop, to at least one field, and whose body is `break`, returns status 0, at the
  -- level that it began at, and with the variables that setting the name to the first field leaves,
  -- whatever fields follow.
  pub run_for_clause-break_command :
      (t : State) × (run_for_clause calls name words (break_command (pos 1)) s ≡ done (pos 0) t)
      × (t.frame.nloops ≡ s.frame.nloops)
      × (t.variables ≡ (env_set u name f attrib_none).variables)
  run_for_clause-break_command =
      let v = env_set u name f attrib_none in
      let t = (break_loops (text "break") (pos 1) v).1 in
      let result =
        run_for_clause-break calls name words (break_command (pos 1)) s u (f ∷ fs) expanded level f
          fs t refl on (break_command-hit (pos 1) v) (λ e. cc (break_is_break (pos 1) v, e))
          (break_one_keeps v k entered ∙ env_set-frame u name f attrib_none) in
      (leave_loop t, result.0, result.1, break_keeps_variables (pos 1) v)

  -- In a running shell at loop level 0 or more, `break 2` in the second of two nested `for` loops,
  -- whose words expand at their levels to at least one field each, ends both, but the outer one
  -- returns the status of an interruption too, as if it were meant for a third loop around them.
  pub run_for_clause-break_two :
      (name' : Text) (words' : Words) (u' : State) (f' : Text) (fs' : List Text)
      → expand_words calls words' [] (enter_loop (env_set u name f attrib_none))
        ≡ (pos 0, f' ∷ fs', u')
      → u'.frame.nloops ≡ (env_set u name f attrib_none).frame.nloops +ℤ pos 1
      → running u' ≡ true
      → (t : State) × (run_for_clause calls name words
            (run_for_clause calls name' words' (break_command (pos 2)))
            s
          ≡ done interrupted t)
  run_for_clause-break_two name' words' u' f' fs' expanded' level' on' =
      let v = env_set u name f attrib_none in
      let v' = env_set u' name' f' attrib_none in
      let t = (break_loops (text "break") (pos 2) v').1 in
      let at' : v'.frame.nloops ≡ pos (suc (suc k)) =
        env_set-frame u' name' f' attrib_none ∙ level' ∙ one_up v.frame.nloops (suc k) entered in
      let lowered : t.frame.nloops ≡ u'.frame.nloops -ℤ pos 1 =
        break_two_lowers v' k at' ∙ ap (λ n. n -ℤ pos 1) (env_set-frame u' name' f' attrib_none) in
      let inner =
        run_for_clause-outer calls name' words' (break_command (pos 2)) v u' (f' ∷ fs') expanded'
          level' f' fs' t refl on' (break_command-hit (pos 2) v') lowered in
      let below : (leave_loop t).frame.nloops ≡ u.frame.nloops -ℤ pos 1 =
        unfold leave_loop in
        ap (λ n. n -ℤ pos 1)
          (lowered
            ∙ ap (λ n. n -ℤ pos 1) level'
            ∙ leave-enter v.frame.nloops
            ∙ env_set-frame u name f attrib_none) in
      (
        leave_loop (leave_loop t),
        run_for_clause-outer calls name words
            (run_for_clause calls name' words' (break_command (pos 2))) s u (f ∷ fs) expanded level
            f fs (leave_loop t) refl on inner below,
      )
