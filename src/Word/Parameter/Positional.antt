-- ===== src/Word/Parameter/Positional.antt =====
-- What `expand_positional_params` of shell/task/word.c expands to.
use mrsh.Base.{
  ◌≡◌, refl, ap, ◌∙◌, true, Bool, ok, List, [], ◌∷◌, ◌++◌, Text, text, append-nil, take, Option,
  none, some,
}
use mrsh.Ast.{cons, string}
use mrsh.Shell.{State, Variable, env_get}
use mrsh.Word.Str.{word_str, words_str}
use mrsh.Word.Parameter.Strings.{separator, more_params, params_word, expand_positional_params}

-- The strings in order, with the separator between any two.
unfoldable pub join : Text → List Text → Text
join sep [] = []
join sep (arg ∷ []) = arg
join sep (arg ∷ next ∷ args) = let rest = join sep (next ∷ args) in arg ++ (sep ++ rest)

params-str :
    (quote_args : Bool) (sep arg : Text) (args : List Text)
    → words_str (cons (string arg quote_args true) (more_params quote_args sep args))
      ≡ ok (join sep (arg ∷ args))
unfolding join more_params word_str
params-str q [] arg [] = rw (append-nil arg)
params-str q (c ∷ sep) arg [] = rw (append-nil arg)
params-str q [] arg (next ∷ args) = rw (params-str q [] next args)
params-str q (c ∷ sep) arg (next ∷ args) = rw (params-str q (c ∷ sep) next args)

params_word-str :
    (quote_args : Bool) (sep name : Text) (args : List Text)
    → word_str (params_word quote_args sep (name ∷ args)) ≡ ok (join sep args)
unfolding params_word word_str join
params_word-str q sep name [] = refl
params_word-str q sep name (arg ∷ args) = params-str q sep arg args

-- What stands between two parameters, by the value of IFS: a blank, which is 32, where IFS is unset,
-- and else the first byte of its value, or nothing.
abbrev pub joiner : Option Text → Text
joiner none = 32 ∷ []
joiner (some ifs) = take 1 ifs

abbrev pub value_of : Option Variable → Option Text
value_of none = none
value_of (some var) = some var.value

separator-joiner : (s : State) → separator s ≡ joiner (value_of (env_get s (text "IFS")))
unfolding separator
separator-joiner s = from (env_get s (text "IFS"))
  where
    first : (ifs : Text) → (elim ifs as (λ _. Text) [ [] ↦ [] | ◌∷◌ c rest ↦ c ∷ [] ]) ≡ take 1 ifs
    first [] = refl
    first (c ∷ rest) = refl

    from :
        (v : Option Variable)
        → (elim v as (λ _. Text) [
          | none ↦ text " "
          | some var ↦ elim var.value [ [] ↦ [] | ◌∷◌ c ifs ↦ c ∷ [] ]
        ])
          ≡ joiner (value_of v)
    from none = refl
    from (some var) = first var.value

-- The positional parameters, quoted or not, expand to a word whose string is all of them in order,
-- joined by the first byte of IFS, by a blank if IFS is unset, and by nothing if it is empty.
pub expand_positional_params-str :
    (s : State) (quote_args : Bool) (name : Text) (args : List Text)
    → s.frame.argv ≡ name ∷ args
    → word_str (expand_positional_params s quote_args)
      ≡ ok (join (joiner (value_of (env_get s (text "IFS")))) args)
unfolding expand_positional_params
expand_positional_params-str s q name args e =
    ap (λ argv. word_str (params_word q (separator s) argv)) e
    ∙ params_word-str q (separator s) name args
    ∙ ap (λ sep. ok (join sep args)) (separator-joiner s)
