-- ===== src/Word/Tilde.antt =====
-- Tilde expansion: the first part of shell/word.c.
pub mod Laws
use mrsh.Base.{
  ℕ, zero, suc, ◌+◌, ◌==◌, ◌&&◌, ◌||◌, not, leb, Bool, true, false, if◌then◌else◌, Option, none,
  some, Text, text, List, [], ◌∷◌, ◌++◌, drop, length,
}
use mrsh.Ast.{Word, Words, string, parameter, command, arithmetic, list, nil, cons}
use mrsh.Shell.{State, Variable, env_get}

unfoldable pub is_logname_char : ℕ → Bool
is_logname_char c =
    (leb b'A' c && leb c b'Z')
    || ((leb b'a' c && leb c b'z')
        || ((leb b'0' c && leb c b'9') || (c == b'.' || (c == b'_' || c == b'-'))))

-- The login name up to the end or a slash, and whether the end came first.
unfoldable pub scan_name : Text → Option (Text × Bool)
scan_name [] = some ([], true)
scan_name (c ∷ str) = elim (c == b'/') [
  | true ↦ some ([], false)
  | false ↦ elim (is_logname_char c) [
    | false ↦ none
    | true ↦ elim (scan_name str) [ none ↦ none | some r ↦ some (c ∷ r.0, r.1) ]
  ]
]

-- `getpwnam(name)->pw_dir`, where `none` says that there is no such user.
module _ (getpwnam : Text → Option Text) where
  unfoldable pub tilde_dir : State → Text → Option Text
  tilde_dir state [] = elim (env_get state (text "HOME")) [
    | none ↦ none
    | some var ↦ some var.value
  ]
  tilde_dir state (c ∷ name) = getpwnam (c ∷ name)

  -- The directory and the length of the tilde-prefix; `none` is the result -1.
  unfoldable pub expand_tilde_at : State → Bool → Text → Option (Text × ℕ)
  expand_tilde_at state last [] = none
  expand_tilde_at state last (c ∷ str) = if not (c == b'~') then none else elim (scan_name str) [
    | none ↦ none
    | some r ↦
        if r.1 && not last
        then none
        else elim (tilde_dir state r.0) [ none ↦ none | some dir ↦ some (dir, length r.0 + 1) ]
  ]

  -- The words and the offset that an attempt gives.
  unfoldable pub attempt : State → Bool → Text → List Word × ℕ
  attempt state last str = elim (expand_tilde_at state last str) [
    | none ↦ ([], 0)
    | some r ↦ (string r.0 true false ∷ [], r.1)
  ]

  -- The loop over the colons of an assignment: `skip` characters belong to a tilde-prefix, and
  -- `slice` holds those since the last colon. The words, and what is left behind the last colon.
  unfoldable pub colons : State → Bool → ℕ → Text → Text → List Word × Text
  colons state last skip slice [] = ([], slice)
  colons state last (suc skip) slice (c ∷ str) = colons state last skip slice str
  colons state last zero slice (c ∷ str) = elim (c == b':') [
    | false ↦ colons state last zero (slice ++ c ∷ []) str
    | true ↦
        let found = attempt state last str in
        let rest = colons state last found.1 [] str in
        (string (slice ++ b':' ∷ []) false false ∷ (found.0 ++ rest.0), rest.1)
  ]

  abbrev from_list : List Word → Words
  from_list [] = nil
  from_list (w ∷ ws) = cons w (from_list ws)

  unfoldable pub wrap : Word → List Word × Text → Word
  wrap word ([], trailing) = word
  wrap word (w ∷ ws, trailing) =
      list (from_list (w ∷ (ws ++ string trailing false false ∷ []))) false

  unfoldable pub expand_string : State → Bool → Bool → Bool → Text → Bool → Word
  expand_string state assignment first last str split =
      let head = if first then attempt state last str else ([], 0) in
      let tail = if assignment then colons state last head.1 [] str else ([], drop head.1 str) in
      wrap (string str false split) (head.0 ++ tail.0, tail.1)

  abbrev pub is_nil : Words → Bool
  is_nil nil = true
  is_nil (cons w ws) = false

  unfoldable mutual
    pub expand_tilde_in : State → Bool → Word → Bool → Bool → Word
    expand_tilde_in state assignment (string str single_quoted split) first last =
        if single_quoted
        then string str single_quoted split
        else expand_string state assignment first last str split
    expand_tilde_in state assignment (list children double_quoted) first last =
        let expanded = list (expand_tilde_all state assignment children first last) double_quoted in
        if double_quoted then list children double_quoted else expanded
    expand_tilde_in state assignment (parameter name op colon arg) first last =
        parameter name op colon arg
    expand_tilde_in state assignment (command prog back_quoted) first last =
        command prog back_quoted
    expand_tilde_in state assignment (arithmetic body) first last = arithmetic body

    -- The first child alone is first, and the last alone is last.
    pub expand_tilde_all : State → Bool → Words → Bool → Bool → Words
    expand_tilde_all state assignment nil first last = nil
    expand_tilde_all state assignment (cons w ws) first last =
        cons (expand_tilde_in state assignment w first (last && is_nil ws))
          (expand_tilde_all state assignment ws false last)

  unfoldable pub expand_tilde : State → Word → Bool → Word
  unfolding is_logname_char scan_name tilde_dir expand_tilde_at attempt colons wrap expand_string
      expand_tilde_in
  expand_tilde state word assignment = expand_tilde_in state assignment word true true
