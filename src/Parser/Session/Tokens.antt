-- ===== src/Parser/Session/Tokens.antt =====
-- Words and tokens that are looked for in front: parser/word.c.
use mrsh.Base.{
  ℕ, ◌==◌, ◌&&◌, ◌||◌, Bool, true, false, not, if◌then◌else◌, [], ◌∷◌, ◌++◌, Option, none, some,
  Text, text, str_eq, length, leb,
}
use mrsh.Parser.Input.{token, is_operator_start, isblank, peek_name}
use mrsh.Parser.Session.{
  stepped, M, ◌>>=◌, ◌>>◌, return, peek_char, read, set_error, symbol, consume_symbol,
}

-- The name in front, and what follows it.
unfoldable pub name_ahead : Bool → M (Text × Text)
unfolding peek_name
name_ahead in_braces s =
    let r = peek_name in_braces s.input in stepped r.0 (record s { input = r.1 })

abbrev pub ends_word : ℕ → Bool
ends_word c = c == 0 || (c == 10 || c == b')')

abbrev pub needs_expansion : ℕ → Bool
needs_expansion c = c == b'$' || (c == b'`' || (c == 39 || (c == 34 || c == 92)))

-- The word in front, if nothing in it is quoted or expanded.
unfoldable pub plain_word : ℕ → Text → Option Text
plain_word end [] = some []
plain_word end (c ∷ rest) =
    if ends_word c
    then some []
    else (if needs_expansion c
        then none
        else (if is_operator_start c || (isblank c || c == end)
            then some []
            else elim (plain_word end rest) [ none ↦ none | some cs ↦ some (c ∷ cs) ]))

-- The word that `peek_word` measures; 0 is the empty one.
unfoldable pub peek_word : ℕ → M Text
unfolding symbol plain_word
peek_word end = do
  there ← symbol token
  if not there then return [] else λ s.
      stepped (elim (plain_word end s.input.rest) [ none ↦ [] | some str ↦ str ]) s

abbrev isalpha : ℕ → Bool
isalpha c = (leb b'A' c && leb c b'Z') || (leb b'a' c && leb c b'z')

-- A token of one byte that is no letter is read wherever that byte stands.
unfoldable pub is_mark : Text → Bool
is_mark [] = false
is_mark (c ∷ []) = not (isalpha c)
is_mark (c ∷ d ∷ str) = false

abbrev pub first_char : Text → ℕ
first_char [] = 0
first_char (c ∷ str) = c

-- The function `token`, with a string that is not empty.
unfoldable pub read_mark : Text → M Bool
unfolding symbol peek_word is_mark read consume_symbol
read_mark str = do
  there ← symbol token
  if not there
      then return false
      else (if is_mark str
          then (do
            c ← peek_char
            if c == first_char str then (read 1 >> consume_symbol >> return true) else return false)
          else (do
            ahead ← peek_word 0
            if str_eq ahead str
                then (read (length str) >> consume_symbol >> return true)
                else return false))

unfoldable pub expect_token : Text → M Bool
unfolding read_mark set_error
expect_token str = do
  there ← read_mark str
  if there
      then return true
      else (set_error (text "expected '" ++ (str ++ text "'")) >> return false)

-- `read_token`, which is NULL when no token is in front.
unfoldable pub read_token : ℕ → M (Option Text)
unfolding symbol read consume_symbol
read_token len = do
  there ← symbol token
  if not there then return none else (do str ← read len; consume_symbol; return (some str))
