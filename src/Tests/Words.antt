-- ===== src/Tests/Words.antt =====
-- Words on concrete inputs.
use mrsh.Base.{
  ◌||◌, if◌then◌else◌, ℕ, ◌==◌, ℤ, pos, ◌<◌, ◌≡◌, refl, ◌==◌, Bool, true, false, ok, none, some, [],
  ◌∷◌, ◌++◌, map, Text, text, length, str_eq, arith,
}
use mrsh.Ast.{ParameterOp, a_word, Word, string, list, nil, cons}
use mrsh.Ast.Copy.{words_copy, word_copy}
use mrsh.Shell.{push_frame, State, state_create, env_set, env_get, attrib_none}
use mrsh.Shell.Env.{state_create-HasTables, env_get-set}
use mrsh.Word.Str.{word_str}
use mrsh.Word.Trim.{trim_pattern}
use mrsh.Word.Split.{split_fields, field_word, ifs_non_space, isspace, strchr, buf_word}
use mrsh.Word.Parameter.{apply_parameter_cond_op}
use mrsh.Word.Parameter.Strings.{expand_positional_params, apply_parameter_str_op}
use mrsh.Word.Parameter.LargestPrefix.{apply_parameter_str_op-largest_prefix_pos}
use mrsh.Word.Parameter.Positional.{join, joiner, value_of, expand_positional_params-str}
use mrsh.Word.Parameter.Table.{assign, set_but_null, table, perform, apply_parameter_cond_op-table}
use mrsh.Word.Split.Quoted.{split_fields-quoted_joins}
use mrsh.Word.Split.Runs.{runs, one_word, split_fields-runs, split_fields-adjacent}
use mrsh.Word.Tilde.{expand_tilde}
use mrsh.Word.Tilde.Laws.{expand_tilde-home}
use mrsh.Word.Pattern.{escape, word_to_pattern}
use mrsh.Word.Pattern.Laws.{IsFnmatch, is_nil, first_is, fnmatch-escape}

abbrev quoted : Text → Word
quoted str = string str true false

abbrev expanded : Text → Word
expanded str = string str false true

-- A matcher that knows `*` alone, and one for a single character.
abbrev any_char : Text → Text → Bool
any_char pattern' str = length str == 1

largest_prefix_test : trim_pattern (λ p s. true) (text "abc") (text "*") false true ≡ text "c"
unfolding trim_pattern
largest_prefix_test = refl

split_test :
    split_fields (expanded (text " a  b ")) none
    ≡ ok (field_word (one_word (text "a")) ∷ field_word (one_word (text "b")) ∷ [])
unfolding split_fields
split_test = refl

split_fields-runs_example :
    split_fields (expanded (text "a b")) (some (32 ∷ []))
    ≡ ok (map field_word (map one_word (runs (32 ∷ []) [] (text "a b"))))
split_fields-runs_example = split_fields-runs (text "a b") 32 [] (unfold ifs_non_space in refl)

split_fields-adjacent_example :
    split_fields (expanded (text "a::b")) (some (58 ∷ []))
    ≡ ok (field_word (one_word (text "a")) ∷ field_word (one_word (text "b")) ∷ [])
split_fields-adjacent_example =
    split_fields-adjacent 58 b'a' b'b' [] [] (unfold isspace in refl) (unfold strchr in (refl, tt))
      (unfold strchr in (refl, tt))

any_first : (Text → Bool) → Text → Bool
any_first rest [] = false
any_first rest (d ∷ str) = rest str

some_rest : (Text → Bool) → Text → Bool
some_rest rest [] = rest []
some_rest rest (d ∷ str) = rest (d ∷ str) || some_rest rest str

-- A matcher without brackets: `?` is any byte, and `*` any text.
unfoldable glob_match : Text → Text → Bool
glob_match [] str = is_nil str
glob_match (c ∷ []) str =
    if c == b'*' then true else (if c == b'?' then any_first is_nil str else first_is c is_nil str)
glob_match (c ∷ d ∷ p) str =
    let quoted' = first_is d (glob_match p) str in
    let one = any_first (glob_match (d ∷ p)) str in
    let ordinary = first_is c (glob_match (d ∷ p)) str in
    let any = some_rest (glob_match (d ∷ p)) str in
    if c == 92 then quoted' else (if c == b'?' then one else (if c == b'*' then any else ordinary))

ordinary-facts :
    (c : ℕ)
    → (c == b'*' || (c == b'?' || (c == b'[' || c == 92))) ≡ false
    → ((c == b'*') ≡ false) × ((c == b'?') ≡ false) × ((c == 92) ≡ false)
ordinary-facts c h = ground arith

glob_match-ordinary :
    (c : ℕ) (p str : Text)
    → (c == b'*' || (c == b'?' || (c == b'[' || c == 92))) ≡ false
    → glob_match (c ∷ p) str ≡ first_is c (glob_match p) str
unfolding glob_match
glob_match-ordinary c [] [] h = let f = ordinary-facts c h in rw (f.0, f.1) refl
glob_match-ordinary c [] (d ∷ str) h = let f = ordinary-facts c h in rw (f.0, f.1) refl
glob_match-ordinary c (d ∷ p) str h = let f = ordinary-facts c h in rw (f.0, f.1, f.2) refl

glob_match-IsFnmatch : IsFnmatch glob_match
unfolding glob_match
glob_match-IsFnmatch = record {
  ends = λ str. refl;
  quoted = λ c p str. refl;
  ordinary = glob_match-ordinary;
}

fnmatch-escape_example :
    glob_match (escape true (text "a*?")) (text "ab?") ≡ str_eq (text "a*?") (text "ab?")
fnmatch-escape_example =
    fnmatch-escape glob_match (text "a*?") (text "ab?") glob_match-IsFnmatch
      (omega arith, (omega arith, (omega arith, tt)))

abbrev at_home : State
at_home = env_set state_create (text "HOME") (text "/root") attrib_none

home_set :
    env_get at_home (text "HOME") ≡ some (record { value = text "/root"; attribs = attrib_none })
home_set =
    rw
      (env_get-set state_create (text "HOME") (text "/root") attrib_none (text "HOME")
        state_create-HasTables)
      (unfold str_eq in refl)

split_fields-quoted_joins_example :
    split_fields
      (list (cons (list nil true) (cons (expanded (text " b")) nil)) false)
      (some (32 ∷ []))
    ≡ ok (field_word (list nil true ∷ buf_word (text "b") ∷ []) ∷ [])
split_fields-quoted_joins_example =
    split_fields-quoted_joins 32 [] nil nil 32 b'b' [] (unfold strchr in refl)
      (unfold strchr ifs_non_space isspace in refl) (unfold strchr in (refl, tt))
      (unfold words_copy in refl)

-- `run_word` of a shell whose words are expanded already.
abbrev as_it_is : Word → State → ℤ × Word × State
as_it_is w s = (pos 0, w, s)

apply_parameter_cond_op-table_example :
    apply_parameter_cond_op as_it_is ParameterOp.equal true
      (text "x")
      (a_word (quoted (text "d")))
      (a_word (quoted []))
      state_create
    ≡ perform
        (table assign true set_but_null)
        (a_word (quoted []))
        (text "x")
        (quoted (text "d"))
        (quoted (text "d"))
        (text "d")
        state_create
        state_create
apply_parameter_cond_op-table_example =
    apply_parameter_cond_op-table as_it_is (text "x") (quoted (text "d")) (quoted (text "d"))
      (quoted (text "d")) (text "d") state_create state_create 0 (unfold word_copy in refl) refl
      (unfold word_str in refl) assign true (a_word (quoted [])) set_but_null
      (unfold word_str in refl)

-- A function called with `a` and `b`.
abbrev in_function : State
in_function = push_frame state_create (text "f" ∷ text "a" ∷ text "b" ∷ [])

expand_positional_params-str_example :
    word_str (expand_positional_params in_function true)
    ≡ ok (join (joiner (value_of (env_get in_function (text "IFS")))) (text "a" ∷ text "b" ∷ []))
expand_positional_params-str_example =
    expand_positional_params-str in_function true (text "f") (text "a" ∷ text "b" ∷ [])
      (unfold push_frame in refl)

-- `*`, unquoted.
abbrev star : Word
star = string (text "*") false false

any_string : Text → Text → Bool
any_string pattern' str = true

no_digits : ℤ → Text
no_digits n = []

apply_parameter_str_op-largest_prefix_pos_example :
    (result : Text) × (0 < length result)
    × (apply_parameter_str_op as_it_is any_string no_digits ParameterOp.dhash
          (a_word star)
          (some (text "abc"))
          state_create
        ≡ ok (pos 0, a_word (string result false false), state_create))
apply_parameter_str_op-largest_prefix_pos_example =
    apply_parameter_str_op-largest_prefix_pos as_it_is any_string no_digits star star star
      (text "*") (text "abc") state_create state_create 0 (unfold word_copy in refl) refl
      (unfold word_to_pattern in refl) (omega arith)

expand_tilde-home_example :
    word_str
      (expand_tilde (λ name. none) at_home (string (126 ∷ 47 ∷ text "src") false false) false)
    ≡ ok (text "/root" ++ (47 ∷ text "src"))
expand_tilde-home_example =
    expand_tilde-home (λ name. none) at_home
      (record { value = text "/root"; attribs = attrib_none }) (text "src") false home_set
