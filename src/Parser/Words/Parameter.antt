-- ===== src/Parser/Words/Parameter.antt =====
-- Lists of words and parameter expressions: parser/word.c.
use mrsh.Base.{
  ℕ, zero, suc, ◌==◌, Bool, true, false, not, if◌then◌else◌, List, [], ◌∷◌, ◌++◌, Option, none,
  some, Text, text, length,
}
use mrsh.Ast.{
  Word, OptWord, no_word, a_word, parameter, list, string, ParameterOp, none', minus, equal, qmark,
  plus, leading_hash, percent, dpercent, hash, dhash,
}
use mrsh.Parser.Input.{isblank}
use mrsh.Parser.Session.{
  exhausted, fail, M, ◌>>=◌, ◌>>◌, return, unless_null, peek_char, read_char, set_error, fail_with,
}
use mrsh.Parser.Session.Tokens.{read_token, name_ahead}
use mrsh.Parser.Words.{words_of}

-- The blanks in front.
unfoldable pub read_blanks : ℕ → Text → M Text
unfolding read_char
read_blanks zero buf = exhausted
read_blanks (suc fuel) buf =
    (peek_char >>= λ c.
    if isblank c then (read_char >>= λ _. read_blanks fuel (buf ++ (c ∷ []))) else return buf)

-- Words, and the blanks between them as strings.
unfoldable pub word_list_loop : ℕ → ℕ → (ℕ → M (Option Word)) → List Word → M (List Word)
unfolding read_blanks
word_list_loop zero end f children = exhausted
word_list_loop (suc fuel) end f children =
    (peek_char >>= λ c.
    if c == end
    then return children
    else (f end >>= λ child. elim child [
      | none ↦ return children
      | some w ↦ read_blanks (suc fuel) [] >>= λ blanks. elim blanks [
        | [] ↦ return (children ++ (w ∷ []))
        | b ∷ bs ↦ word_list_loop fuel end f (children ++ (w ∷ string (b ∷ bs) false false ∷ []))
      ]
    ]))

unfoldable pub list_or_null : List Word → Option Word
list_or_null [] = none
list_or_null (w ∷ []) = some w
list_or_null (w ∷ v ∷ ws) = some (list (words_of (w ∷ v ∷ ws)) false)

unfoldable pub word_list : ℕ → ℕ → (ℕ → M (Option Word)) → M (Option Word)
unfolding word_list_loop list_or_null
word_list fuel end f = do children ← word_list_loop fuel end f []; return (list_or_null children)

unfoldable pub char_to_parameter_op_val : ℕ → ParameterOp
char_to_parameter_op_val c =
    if c == b'-'
    then minus
    else (if c == b'='
        then equal
        else (if c == b'?' then qmark else (if c == b'+' then plus else none')))

abbrev pub is_none_op : ParameterOp → Bool
is_none_op none' = true
is_none_op _ = false

-- The operation, and whether a colon stands in front of it.
unfoldable pub expect_parameter_op : M (Option (ParameterOp × Bool))
unfolding read_char char_to_parameter_op_val set_error
expect_parameter_op = do
  first ← read_char
  let colon = first == b':'
  c ← if colon then read_char else return first
  let op = char_to_parameter_op_val c
  if not (is_none_op op)
      then return (some (op, colon))
      else (if colon then fail_with (text "expected a parameter operation") else (do
        next ← peek_char
        let is_double = c == next
        if c == b'%'
            then (if is_double
                then (read_char >> return (some (dpercent, false)))
                else return (some (percent, false)))
            else (if c == b'#'
                then (if is_double
                    then (read_char >> return (some (dhash, false)))
                    else return (some (hash, false)))
                else fail_with (text "expected a parameter operation"))))

abbrev opt_word : Option Word → OptWord
opt_word none = no_word
opt_word (some w) = a_word w

abbrev pub is_empty : Text → Bool
is_empty [] = true
is_empty (c ∷ str) = false

-- A closing brace ends the expression.
unfoldable pub parameter_end : Text → ParameterOp → Bool → Option Word → M (Option Word)
unfolding read_char set_error
parameter_end name op colon arg = do
  c ← read_char
  if c == b'}'
      then return (some (parameter name op colon (opt_word arg)))
      else fail_with (text "expected end of parameter")

abbrev pub skip_hash : Bool → M (Unit {0})
skip_hash leads = if leads then (read_char >> return tt) else return tt

-- `words` is `word_list(parser, '}', word)`.
unfoldable pub expect_parameter_expression : M (Option Word) → M (Option Word)
unfolding read_char name_ahead set_error read_token expect_parameter_op parameter_end
expect_parameter_expression words = do
  c ← read_char
  if not (c == b'{') then fail else (do
    c' ← peek_char
    let leads = c' == b'#'
    skip_hash leads
    ahead ← name_ahead true
    if is_empty ahead.0
        then fail_with (text "expected a parameter")
        else (unless_null (read_token (length ahead.0)) (λ name. peek_char >>= λ d.
            if leads
            then parameter_end name leading_hash false none
            else (if d == b'}'
                then parameter_end name none' false none
                else (unless_null expect_parameter_op
                    (λ (op, colon). words >>= λ arg. parameter_end name op colon arg))))))
