-- ===== src/Parser/Session.antt =====
-- The state of the parsers of words and programs: what Parser.Input leaves out of
-- `struct mrsh_parser`, and the functions of parser/parser.c that read symbols and lines.
pub mod Tokens
pub mod Below
use mrsh.Base.{
  ℕ, zero, suc, ◌≡◌, refl, ◌==◌, ◌&&◌, ◌||◌, Bool, true, false, not, if◌then◌else◌, List, [], ◌∷◌,
  ◌++◌, Option, none, some, Text, text, str_eq, length, leb,
}
use mrsh.Ast.{Word, IoRedirectOp}
use mrsh.Parser.Input.{
  Symbol, eof_token, token, newline, and_if, or_if, dsemi, dless, dgreat, lessand, greatand,
  lessgreat, dlessdash, clobber, Parser, parser_set_error, parser_peek_char, get_symbol,
  is_operator_start, isblank, peek_name,
}

-- A here-document whose lines are still to be read: its redirection, which is known by the number
-- of here-document redirections made before it, with the operator and the name.
pub record HereDocument : Type 0 where
  pub id : ℕ
  pub op : IoRedirectOp
  pub name : Word

-- A line of a here-document: a word, NULL, or a word list that holds NULL.
pub data Line : Type 0 where
  line : Word → Line
  null holds_null : Line

-- `aliases` is whether an alias function is set. `documents` are the lines that were read for a
-- redirection, and `created` counts the redirections.
pub record Session : Type 0 where
  pub input : Parser
  pub arith_nested_parens : ℕ
  pub aliases : Bool
  pub here_documents : List HereDocument
  pub documents : List (ℕ × List Line)
  pub created : ℕ

-- `aborted` is a failed assertion. `out_of_fuel` has no counterpart in the program.
pub data Step {ℓ} (A : Type ℓ) : Type ℓ where
  stepped : A → Session → Step A
  aborted : Step A
  out_of_fuel : Step A

abbrev pub M {ℓ} : Type ℓ → Type ℓ
M A = Session → Step A

infixl 5 ◌>>=◌ ◌>>◌
unfoldable pub ◌>>=◌ {ℓ κ} : {A : Type ℓ} {B : Type κ} → M A → (A → M B) → M B
◌>>=◌ m f s = elim (m s) [ stepped a t ↦ f a t | aborted ↦ aborted | out_of_fuel ↦ out_of_fuel ]

-- Of a bind whose first call returns, the second is left.
pub >>=-stepped {ℓ κ} :
    {A : Type ℓ} {B : Type κ} (m : M A) (f : A → M B) (s : Session) (a : A) (t : Session)
    → m s ≡ stepped a t
    → (m >>= f) s ≡ f a t
unfolding ◌>>=◌
>>=-stepped m f s a t e = rw (◌>>=◌, e) refl

abbrev pub ◌>>◌ {ℓ κ} : {A : Type ℓ} {B : Type κ} → M A → M B → M B
m >> k = m >>= λ _. k

unfoldable pub return {ℓ} : {A : Type ℓ} → A → M A
return a s = stepped a s

unfoldable pub fail {ℓ} : {A : Type ℓ} → M A
fail s = aborted

unfoldable pub exhausted {ℓ} : {A : Type ℓ} → M A
exhausted s = out_of_fuel

-- `if (r == NULL) return NULL;`
unfoldable pub unless_null {ℓ κ} :
    {A : Type ℓ} {B : Type κ} → M (Option A) → (A → M (Option B)) → M (Option B)
unfolding ◌>>=◌ return
unless_null m f = m >>= λ r. elim r [ none ↦ return none | some a ↦ f a ]

unfoldable pub peek_char : M ℕ
peek_char s = stepped (parser_peek_char s.input) s

-- The byte behind the next one, for `parser_peek(parser, next, 2)`.
unfoldable pub peek_second : M ℕ
peek_second s = stepped (elim s.input.rest [ [] ↦ 0 | c ∷ cs ↦ elim cs [ [] ↦ 0 | d ∷ ds ↦ d ] ]) s

abbrev pub advance : Session → Text → Session
advance s rest = record s { input = record (s.input) { rest = rest } }

-- A NUL fails the assertion of `parser_read`.
unfoldable pub read_char : M ℕ
read_char s = elim s.input.rest [
  | [] ↦ aborted
  | c ∷ rest ↦ if c == 0 then aborted else stepped c (advance s rest)
]

-- `parser_read(parser, buf, n)`.
unfoldable pub read : ℕ → M Text
unfolding read_char
read zero = return []
read (suc n) = do c ← read_char; cs ← read n; return (c ∷ cs)

-- The first error also forgets the here-documents.
unfoldable pub set_error : Text → M (Unit {0})
unfolding parser_set_error
set_error msg s = elim s.input.error [
  | none ↦ stepped tt (record s { input = parser_set_error msg s.input; here_documents = [] })
  | some first ↦ stepped tt s
]

unfoldable pub fail_with {ℓ} : {A : Type ℓ} → Text → M (Option A)
unfolding set_error ◌>>=◌ return
fail_with msg = set_error msg >> return none

unfoldable pub has_error : M Bool
has_error s = stepped (elim s.input.error [ none ↦ false | some msg ↦ true ]) s

unfoldable pub symbol_number : Symbol → ℕ
symbol_number eof_token = 0
symbol_number token = 1
symbol_number newline = 2
symbol_number and_if = 3
symbol_number or_if = 4
symbol_number dsemi = 5
symbol_number dless = 6
symbol_number dgreat = 7
symbol_number lessand = 8
symbol_number greatand = 9
symbol_number lessgreat = 10
symbol_number dlessdash = 11
symbol_number clobber = 12

unfoldable pub symbol : Symbol → M Bool
unfolding get_symbol symbol_number
symbol sym s =
    let r = get_symbol s.input in
    stepped (symbol_number r.0 == symbol_number sym) (record s { input = r.1 })

unfoldable pub consume_symbol : M (Unit {0})
consume_symbol s = stepped tt (record s { input = record (s.input) { sym = none } })

unfoldable pub read_continuation_line : M (Unit {0})
unfolding read_char
read_continuation_line = do c ← read_char; if c == 10 then return tt else fail

-- The function `newline`.
unfoldable pub read_newline : M Bool
unfolding symbol read_char consume_symbol
read_newline = do
  there ← symbol newline
  if there
      then (do c ← read_char; if c == 10 then (consume_symbol >> return true) else fail)
      else return false

unfoldable pub linebreak : ℕ → M (Unit {0})
unfolding read_newline
linebreak zero = exhausted
linebreak (suc fuel) =
    (read_newline >>= λ there. elim there [ true ↦ linebreak fuel | false ↦ return tt ])

unfoldable pub newline_list : ℕ → M Bool
unfolding read_newline linebreak
newline_list fuel = do
  there ← read_newline
  if there then (linebreak fuel >> return true) else return false
