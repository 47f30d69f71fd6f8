-- ===== src/Word/Parameter.antt =====
-- Parameter expansion: `apply_parameter_cond_op` of shell/task/word.c. A pointer to a word that can be
-- NULL is an `OptWord`.
pub mod Table
pub mod Strings
pub mod LargestPrefix
pub mod Positional
use mrsh.Base.{ℤ, pos, Bool, true, false, if◌then◌else◌, Outcome, ok, undefined, ◌>>=◌, [], Text}
use mrsh.Ast.{Word, OptWord, ParameterOp, string, no_word, a_word}
use mrsh.Shell.{State, env_set, attrib_none}
use mrsh.Word.Str.{word_str, is_null_word, copy_word_or_null}
use mrsh.Ast.Copy.{word_copy}
use mrsh.Task.Run.{task_error, is_neg}

-- The status, the word that `*result` is set to, and the state.
abbrev pub Expansion : Type 0
Expansion = Outcome (ℤ × OptWord × State)

-- `value == NULL || (wp->colon && is_null_word(value))`
unfoldable pub lacks_value : Bool → OptWord → Outcome Bool
lacks_value colon no_word = ok true
lacks_value true (a_word w) = is_null_word w
lacks_value false (a_word w) = ok false

abbrev pub empty_word : Word
empty_word = string [] false false

-- A copy of the argument, which is empty if there is none.
unfoldable pub substitute_word : OptWord → State → Expansion
unfolding copy_word_or_null
substitute_word arg s = copy_word_or_null arg >>= λ copy. ok (pos 0, a_word copy, s)

-- `run_word`, with its status, the word that it leaves and the state.
module _ (run_word : Word → State → ℤ × Word × State) where
  assign_string : ℤ → Word → Text → State → Expansion
  assign_string ret w name s =
      if is_neg ret
      then ok (ret, a_word w, s)
      else (word_str w >>= λ str. ok (pos 0, a_word w, env_set s name str attrib_none))

  unfoldable pub assign_default : Text → OptWord → State → Expansion
  unfolding assign_string
  assign_default name arg s = copy_word_or_null arg >>= λ copy.
      let (ret, w, t) = run_word copy s in assign_string ret w name t

  report_message : ℤ → Word → State → Expansion
  report_message ret w s =
      if is_neg ret
      then ok (ret, no_word, s)
      else (word_str w >>= λ message. ok (task_error, no_word, s))

  -- With a negative status the result is not set.
  unfoldable pub report_unset : OptWord → State → Expansion
  unfolding report_message
  report_unset no_word s = ok (task_error, no_word, s)
  report_unset (a_word arg) s =
      word_copy arg >>= λ copy. let (ret, w, t) = run_word copy s in report_message ret w t

  unfoldable pub apply_parameter_cond_op :
      ParameterOp → Bool → Text → OptWord → OptWord → State → Expansion
  unfolding lacks_value assign_default report_unset substitute_word
  apply_parameter_cond_op ParameterOp.none' colon name arg value s = ok (pos 0, value, s)
  apply_parameter_cond_op ParameterOp.minus colon name arg value s =
      lacks_value colon value >>= λ lacks.
      if lacks then substitute_word arg s else ok (pos 0, value, s)
  apply_parameter_cond_op ParameterOp.equal colon name arg value s =
      lacks_value colon value >>= λ lacks.
      if lacks then assign_default name arg s else ok (pos 0, value, s)
  apply_parameter_cond_op ParameterOp.qmark colon name arg value s =
      lacks_value colon value >>= λ lacks.
      if lacks then report_unset arg s else ok (pos 0, value, s)
  apply_parameter_cond_op ParameterOp.plus colon name arg value s =
      lacks_value colon value >>= λ lacks.
      if lacks then ok (pos 0, a_word empty_word, s) else substitute_word arg s
  apply_parameter_cond_op _ colon name arg value s = undefined
