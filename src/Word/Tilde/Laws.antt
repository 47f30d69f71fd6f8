-- ===== src/Word/Tilde/Laws.antt =====
-- Which words tilde expansion changes, and to what.
use mrsh.Base.{
  ℕ, ◌==◌, ◌≡◌, refl, Bool, true, false, Option, none, some, ok, Text, text, [], ◌∷◌, ◌++◌, arith,
  append-nil, ◌∙◌,
}
use mrsh.Ast.{Word, string}
use mrsh.Shell.{State, Variable, env_get}
use mrsh.Word.Str.{word_str}
use mrsh.Word.Tilde.{
  is_logname_char, scan_name, tilde_dir, expand_tilde_at, attempt, wrap, expand_string,
  expand_tilde_in, expand_tilde,
}

module _ (getpwnam : Text → Option Text) (state : State) where
  home_dir :
      (var : Variable)
      → env_get state (text "HOME") ≡ some var
      → tilde_dir getpwnam state [] ≡ some var.value
  unfolding tilde_dir
  home_dir var e = rw (e, tilde_dir)

  home_found :
      (var : Variable) (last : Bool) (rest : Text)
      → env_get state (text "HOME") ≡ some var
      → expand_tilde_at getpwnam state last (126 ∷ 47 ∷ rest) ≡ some (var.value, 1)
  unfolding expand_tilde_at scan_name
  home_found var last rest e = rw (home_dir var e, expand_tilde_at)

  home_attempt :
      (var : Variable) (last : Bool) (rest : Text)
      → env_get state (text "HOME") ≡ some var
      → attempt getpwnam state last (126 ∷ 47 ∷ rest) ≡ (string var.value true false ∷ [], 1)
  unfolding attempt
  home_attempt var last rest e = rw (home_found var last rest e, attempt)

  expand_tilde-in :
      (w : Word) (assignment : Bool)
      → expand_tilde getpwnam state w assignment
        ≡ expand_tilde_in getpwnam state assignment w true true
  unfolding expand_tilde
  expand_tilde-in w assignment = refl

  home_word :
      (var : Variable) (rest : Text) (split : Bool)
      → env_get state (text "HOME") ≡ some var
      → word_str (expand_string getpwnam state false true true (126 ∷ 47 ∷ rest) split)
        ≡ ok (var.value ++ (47 ∷ (rest ++ [])))
  unfolding expand_string wrap word_str
  home_word var rest split e = rw (home_attempt var true rest e)

  -- When HOME is set, an unquoted `~/rest` that is no assignment becomes the value of HOME followed
  -- by `/rest`.
  pub expand_tilde-home :
      (var : Variable) (rest : Text) (split : Bool)
      → env_get state (text "HOME") ≡ some var
      → word_str (expand_tilde getpwnam state (string (126 ∷ 47 ∷ rest) false split) false)
        ≡ ok (var.value ++ (47 ∷ rest))
  unfolding expand_tilde_in
  expand_tilde-home var rest split e =
      rw (expand_tilde-in (string (126 ∷ 47 ∷ rest) false split) false)
        (home_word var rest split e ∙ rw (append-nil rest))

-- Characters of a login name.
abbrev pub AllLogname : Text → Type 0
AllLogname [] = Unit
AllLogname (c ∷ name) = (is_logname_char c ≡ true) × AllLogname name

logname_slash : (c : ℕ) → is_logname_char c ≡ true → (c == 47) ≡ false
unfolding is_logname_char
logname_slash c h = ground arith

scan_name-colon : (name rest : Text) → AllLogname name → scan_name (name ++ 58 ∷ rest) ≡ none
unfolding scan_name
scan_name-colon [] rest h = colon
  where
    colon : scan_name (58 ∷ rest) ≡ none
    colon = unfold is_logname_char in refl
scan_name-colon (c ∷ name) rest h =
    rw (logname_slash c h.0, scan_name)
      (rw (h.0, scan_name) (rw (scan_name-colon name rest h.1, scan_name)))

-- A tilde with characters of login names behind it that a colon ends is not expanded, also in an
-- assignment, where the colon ends it.
expand_tilde_at-colon :
    (getpwnam : Text → Option Text) (state : State) (last : Bool) (name rest : Text)
    → AllLogname name
    → expand_tilde_at getpwnam state last (126 ∷ (name ++ 58 ∷ rest)) ≡ none
unfolding expand_tilde_at
expand_tilde_at-colon getpwnam state last name rest h =
    rw (scan_name-colon name rest h, expand_tilde_at)
