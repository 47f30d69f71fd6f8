-- ===== src/Word/Parameter/LargestPrefix.antt =====
-- `${parameter##word}`: apply_parameter_str_op and trim_pattern of shell/task/word.c.
use mrsh.Base.{ℕ, ◌<◌, ◌≡◌, refl, Bool, true, false, some, ok, ℤ, pos, Text, length}
use mrsh.Ast.{Word, ParameterOp, a_word, string}
use mrsh.Shell.{State}
use mrsh.Ast.Copy.{word_copy}
use mrsh.Word.Pattern.{word_to_pattern}
use mrsh.Word.Trim.{trim_pattern}
use mrsh.Word.Trim.Laws.{trim_pattern-largest_prefix_pos}
use mrsh.Word.Parameter.Strings.{apply_parameter_str_op}

-- `${parameter##word}` on a value that is not empty, with a word that is copied and expands without
-- failure to one with an unquoted metacharacter, which becomes a pattern: the result is a string that
-- is not empty, whatever the pattern matches. The whole value is not among the prefixes tried.
pub apply_parameter_str_op-largest_prefix_pos :
    (run_word : Word → State → ℤ × Word × State) (fnmatch : Text → Text → Bool)
    (format_int : ℤ → Text) (arg copy expanded : Word) (pattern' str : Text) (s t : State) (n : ℕ)
    → word_copy arg ≡ ok copy
    → run_word copy s ≡ (pos n, expanded, t)
    → word_to_pattern expanded ≡ ok (some pattern')
    → 0 < length str
    → (result : Text) × (0 < length result)
      × (apply_parameter_str_op run_word fnmatch format_int ParameterOp.dhash
            (a_word arg)
            (some str)
            s
          ≡ ok (pos 0, a_word (string result false false), t))
unfolding apply_parameter_str_op
apply_parameter_str_op-largest_prefix_pos run_word fnmatch format_int arg copy expanded pattern' str
      s t n copied runs becomes long =
    (
      trim_pattern fnmatch str pattern' false true,
      trim_pattern-largest_prefix_pos fnmatch str pattern' long,
      rw (copied, runs, becomes) refl,
    )
