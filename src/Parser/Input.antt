-- ===== src/Parser/Input.antt =====
-- What the parsers read from: `struct mrsh_parser` with the functions of parser/parser.c that look at
-- its input, and `peek_name` of parser/word.c. Positions, here-documents, aliases and continuation
-- lines are left out, and the input is all that is still unread, however it arrives; behind its end a
-- NUL is read.
use mrsh.Base.{
  ℕ, ◌==◌, leb, ◌&&◌, ◌||◌, Bool, true, false, not, if◌then◌else◌, List, [], ◌∷◌, Option, none,
  some, Text, text,
}

pub data Symbol : Type 0 where
  eof_token token newline : Symbol
  and_if or_if dsemi dless dgreat lessand greatand lessgreat dlessdash clobber : Symbol

-- `sym` is NULL when `has_sym` is false; `error` is the message.
pub record Parser : Type 0 where
  pub rest : Text
  pub sym : Option Symbol
  pub error : Option Text

-- A parser returns NULL or a result, and leaves a state. `out_of_fuel` has no counterpart in the
-- program.
pub data Parsed {ℓ} (A : Type ℓ) : Type ℓ where
  parsed : Option A → Parser → Parsed A
  out_of_fuel : Parsed A

abbrev pub after {ℓ κ} :
    {A : Type ℓ} {B : Type κ} → Parsed A → (Option A → Parser → Parsed B) → Parsed B
after (parsed r p) next = next r p
after out_of_fuel next = out_of_fuel

-- `if (r != NULL) return r;`, and on from the state that is left.
abbrev pub or_else {ℓ} : {A : Type ℓ} → Option A → Parser → (Parser → Parsed A) → Parsed A
or_else (some a) p next = parsed (some a) p
or_else none p next = next p

-- `if (r == NULL) return NULL;`
abbrev pub and_then {ℓ κ} :
    {A : Type ℓ} {B : Type κ} → Option A → Parser → (A → Parser → Parsed B) → Parsed B
and_then (some a) p next = next a p
and_then none p next = parsed none p

abbrev pub at : Parser → Text → Parser
at p rest = record p { rest = rest }

-- The first message stays.
unfoldable pub parser_set_error : Text → Parser → Parser
parser_set_error msg p = elim p.error [ none ↦ record p { error = some msg } | some first ↦ p ]

abbrev pub parser_peek_char : Parser → ℕ
parser_peek_char p = elim p.rest [ [] ↦ 0 | c ∷ cs ↦ c ]

-- What follows `str` in the input, if the input begins with it.
unfoldable pub strip : Text → Text → Option Text
strip [] rest = some rest
strip (c ∷ str) [] = none
strip (c ∷ str) (d ∷ rest) = if d == c then strip str rest else none

abbrev pub is_operator_start : ℕ → Bool
is_operator_start c = c == b'&' || (c == b'|' || (c == b';' || (c == b'<' || c == b'>')))

abbrev pub isblank : ℕ → Bool
isblank c = c == b' ' || c == 9

-- The first of the table that the input begins with.
unfoldable pub find_operator : List (Symbol × Text) → Text → Option Symbol
unfolding strip
find_operator [] rest = none
find_operator (operator ∷ operators) rest = elim (strip operator.1 rest) [
  | some behind ↦ some operator.0
  | none ↦ find_operator operators rest
]

abbrev pub operators : List (Symbol × Text)
operators =
    (dlessdash, text "<<-")
    ∷ (and_if, text "&&")
    ∷ (or_if, text "||")
    ∷ (dsemi, text ";;")
    ∷ (dless, text "<<")
    ∷ (dgreat, text ">>")
    ∷ (lessand, text "<&")
    ∷ (greatand, text ">&")
    ∷ (lessgreat, text "<>")
    ∷ (clobber, text ">|")
    ∷ []

-- The end of a comment is a NUL or the end of its line, which is the next symbol.
unfoldable pub comment : Text → Symbol × Text
comment [] = (eof_token, [])
comment (c ∷ rest) =
    if c == 0
    then (eof_token, c ∷ rest)
    else (if c == 10 then (newline, c ∷ rest) else comment rest)

-- The symbol, and the input that is left.
unfoldable pub next_symbol : Text → Symbol × Text
unfolding comment
next_symbol [] = (eof_token, [])
next_symbol (c ∷ rest) =
    if c == 0
    then (eof_token, c ∷ rest)
    else (if c == 10
        then (newline, c ∷ rest)
        else elim (if is_operator_start c then find_operator operators (c ∷ rest) else none) [
          | some name ↦ (name, c ∷ rest)
          | none ↦
              if isblank c
              then next_symbol rest
              else (if c == b'#' then comment (c ∷ rest) else (token, c ∷ rest))
        ])

unfoldable pub get_symbol : Parser → Symbol × Parser
unfolding next_symbol
get_symbol p = elim p.sym [
  | some name ↦ (name, p)
  | none ↦
      let r = next_symbol p.rest in (r.0, record { rest = r.1; sym = some (r.0); error = p.error })
]

abbrev is_token : Symbol → Bool
is_token token = true
is_token _ = false

unfoldable pub isdigit : ℕ → Bool
isdigit c = leb b'0' c && leb c b'9'

unfoldable pub is_name_char : ℕ → Bool
unfolding isdigit
is_name_char c =
    c == b'_' || (isdigit c || ((leb b'A' c && leb c b'Z') || (leb b'a' c && leb c b'z')))

-- The bytes at the front that satisfy a test, and what follows them.
unfoldable pub span : (ℕ → Bool) → Text → Text × Text
span test [] = ([], [])
span test (c ∷ rest) = let r = span test rest in if test c then (c ∷ r.0, r.1) else ([], c ∷ rest)

unfoldable pub peek_name : Bool → Parser → (Text × Text) × Parser
peek_name in_braces p =
    let (name, q) = get_symbol p in
    if not (is_token name)
    then (([], q.rest), q)
    else (if isdigit (parser_peek_char q) && not in_braces
        then (([], q.rest), q)
        else (span is_name_char q.rest, q))
