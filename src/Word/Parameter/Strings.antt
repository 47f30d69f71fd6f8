-- ===== src/Word/Parameter/Strings.antt =====
-- Parameter expansion: `apply_parameter_str_op` and `expand_positional_params` of shell/task/word.c.
use mrsh.Base.{
  ℤ, pos, Bool, true, false, if◌then◌else◌, Option, none, some, Outcome, ok, undefined, ◌>>=◌, List,
  [], ◌∷◌, Text, text, length,
}
use mrsh.Ast.{Word, Words, OptWord, ParameterOp, string, list, nil, cons, no_word, a_word}
use mrsh.Shell.{State, has_bit, opt_nounset, env_get}
use mrsh.Task.Run.{is_neg}
use mrsh.Builtin.Control.{to_int}
use mrsh.Ast.Copy.{word_copy}
use mrsh.Word.Str.{word_str}
use mrsh.Word.Trim.{trim_str, trim_pattern}
use mrsh.Word.Pattern.{word_to_pattern}
use mrsh.Word.Parameter.{Expansion}

abbrev pub create_word_string : Text → Word
create_word_string str = string str false false

-- The separator between the positional parameters: the first character of IFS, and a blank if that is
-- unset.
unfoldable pub separator : State → Text
separator state = elim (env_get state (text "IFS")) [
  | none ↦ text " "
  | some var ↦ elim var.value [ [] ↦ [] | ◌∷◌ c ifs ↦ c ∷ [] ]
]

-- The words for the parameters behind the first one.
unfoldable pub more_params : Bool → Text → List Text → Words
more_params quote_args sep [] = nil
more_params quote_args [] (arg ∷ args) =
    cons (string arg quote_args true) (more_params quote_args [] args)
more_params quote_args (c ∷ sep) (arg ∷ args) =
    cons (string (c ∷ sep) false true)
      (cons (string arg quote_args true) (more_params quote_args (c ∷ sep) args))

-- The list for the parameters of `argv`, which begins with the name of the shell or function.
unfoldable pub params_word : Bool → Text → List Text → Word
unfolding more_params
params_word quote_args sep [] = list nil false
params_word quote_args sep (name ∷ []) = list nil false
params_word quote_args sep (name ∷ arg ∷ args) =
    list (cons (string arg quote_args true) (more_params quote_args sep args)) false

unfoldable pub expand_positional_params : State → Bool → Word
unfolding separator params_word
expand_positional_params state quote_args =
    params_word quote_args (separator state) state.frame.argv

-- `run_word`, `fnmatch(pattern, string, 0) == 0`, and `snprintf` with "%d".
module _ (run_word : Word → State → ℤ × Word × State) (fnmatch : Text → Text → Bool)
    (format_int : ℤ → Text) where
  trimmed : Word → Text → Bool → Bool → Outcome Text
  trimmed pattern' str suffix largest = do
    pattern_str ← word_to_pattern pattern'
    elim pattern_str [
      | none ↦ word_str pattern' >>= λ arg. ok (trim_str str arg suffix)
      | some p ↦ ok (trim_pattern fnmatch str p suffix largest)
    ]

  trim_with : ℤ → Word → Text → Bool → Bool → State → Expansion
  unfolding trimmed
  trim_with ret pattern' str suffix largest s =
      if is_neg ret
      then ok (ret, no_word, s)
      else (trimmed pattern' str suffix largest >>= λ result.
          ok (pos 0, a_word (create_word_string result), s))

  -- The four operators that trim.
  unfoldable pub trim_op : Bool → Bool → OptWord → Option Text → State → Expansion
  unfolding trim_with
  trim_op suffix largest arg none s = ok (pos 0, no_word, s)
  trim_op suffix largest no_word (some str) s = ok (pos 0, a_word (create_word_string str), s)
  trim_op suffix largest (a_word arg) (some str) s = word_copy arg >>= λ copy.
      let (ret, pattern', t) = run_word copy s in trim_with ret pattern' str suffix largest t

  -- The length of a parameter that is unset is 0, unless that is an error.
  unfoldable pub length_op : Option Text → State → Expansion
  unfolding to_int
  length_op none s =
      if has_bit s.options opt_nounset
      then ok (pos 0, no_word, s)
      else ok (pos 0, a_word (create_word_string (format_int (pos 0))), s)
  length_op (some str) s =
      ok (pos 0, a_word (create_word_string (format_int (to_int (pos (length str))))), s)

  unfoldable pub apply_parameter_str_op : ParameterOp → OptWord → Option Text → State → Expansion
  unfolding trim_op length_op
  apply_parameter_str_op ParameterOp.leading_hash arg str s = length_op str s
  apply_parameter_str_op ParameterOp.percent arg str s = trim_op true false arg str s
  apply_parameter_str_op ParameterOp.dpercent arg str s = trim_op true true arg str s
  apply_parameter_str_op ParameterOp.hash arg str s = trim_op false false arg str s
  apply_parameter_str_op ParameterOp.dhash arg str s = trim_op false true arg str s
  apply_parameter_str_op _ arg str s = undefined
