-- ===== src/Word/Pattern.antt =====
-- Patterns for fnmatch and glob: the part of shell/word.c from `is_pathname_metachar` on.
pub mod Laws
use mrsh.Base.{
  ℕ, ◌==◌, ◌&&◌, ◌||◌, Bool, true, false, if◌then◌else◌, Option, none, some, Outcome, ok, failed,
  undefined, ◌>>=◌, Text, List, [], ◌∷◌, ◌++◌,
}
use mrsh.Ast.{Word, Words, string, parameter, command, arithmetic, list, nil, cons}
use mrsh.Word.Str.{word_str}

unfoldable pub is_pathname_metachar : ℕ → Bool
is_pathname_metachar c = c == b'*' || (c == b'?' || (c == b'[' || c == b']'))

unfoldable pub any_metachar : Text → Bool
any_metachar [] = false
any_metachar (c ∷ str) = is_pathname_metachar c || any_metachar str

unfoldable mutual
  pub needs_pathname_expansion : Word → Outcome Bool
  needs_pathname_expansion (string str single_quoted split_fields) =
      ok (if single_quoted then false else any_metachar str)
  needs_pathname_expansion (list children double_quoted) =
      let any = any_needs_expansion children in if double_quoted then ok false else any
  needs_pathname_expansion (parameter name op colon arg) = undefined
  needs_pathname_expansion (command prog back_quoted) = undefined
  needs_pathname_expansion (arithmetic body) = undefined

  pub any_needs_expansion : Words → Outcome Bool
  any_needs_expansion nil = ok false
  any_needs_expansion (cons w ws) =
      needs_pathname_expansion w >>= λ b. elim b [ true ↦ ok true | false ↦ any_needs_expansion ws ]

-- A metacharacter that is quoted gets a backslash, which is 92.
unfoldable pub escape : Bool → Text → Text
escape quoted [] = []
escape quoted (c ∷ str) =
    let rest = escape quoted str in
    if is_pathname_metachar c && quoted then 92 ∷ c ∷ rest else c ∷ rest

-- The pattern that `_word_to_pattern` appends to its buffer.
unfoldable mutual
  pub pattern_of : Bool → Word → Outcome Text
  pattern_of quoted (string str single_quoted split_fields) =
      ok (escape (quoted || single_quoted) str)
  pattern_of quoted (list children double_quoted) = patterns_of (quoted || double_quoted) children
  pattern_of quoted (parameter name op colon arg) = undefined
  pattern_of quoted (command prog back_quoted) = undefined
  pattern_of quoted (arithmetic body) = undefined

  pub patterns_of : Bool → Words → Outcome Text
  patterns_of quoted nil = ok []
  patterns_of quoted (cons w ws) =
      pattern_of quoted w >>= λ a. patterns_of quoted ws >>= λ b. ok (a ++ b)

-- NULL, here `none`, says that the word stands for itself.
unfoldable pub word_to_pattern : Word → Outcome (Option Text)
unfolding any_metachar is_pathname_metachar needs_pathname_expansion escape pattern_of
word_to_pattern word = do
  needed ← needs_pathname_expansion word
  if needed then (pattern_of false word >>= λ p. ok (some p)) else ok none

-- What `glob` answers to a pattern.
pub data Glob : Type 0 where
  matches : List Text → Glob
  no_match : Glob
  error : Glob

module _ (glob : Text → Glob) where
  globbed : Word → Text → Outcome (List Text)
  globbed field pattern' = elim (glob pattern') [
    | matches paths ↦ ok paths
    | no_match ↦ word_str field >>= λ s. ok (s ∷ [])
    | error ↦ failed
  ]

  expand_field : Word → Outcome (List Text)
  unfolding globbed
  expand_field field = do
    pattern' ← word_to_pattern field
    elim pattern' [ none ↦ word_str field >>= λ s. ok (s ∷ []) | some p ↦ globbed field p ]

  -- The strings added for the fields, in order.
  unfoldable pub expand_pathnames : List Word → Outcome (List Text)
  unfolding expand_field word_to_pattern word_str
  expand_pathnames [] = ok []
  expand_pathnames (field ∷ fields) =
      expand_field field >>= λ a. expand_pathnames fields >>= λ b. ok (a ++ b)

-- `get_fields_str`
unfoldable pub get_fields_str : List Word → Outcome (List Text)
unfolding word_str
get_fields_str [] = ok []
get_fields_str (field ∷ fields) = word_str field >>= λ a. get_fields_str fields >>= λ b. ok (a ∷ b)
