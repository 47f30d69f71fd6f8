-- ===== src/Parser/Grammar.antt =====
-- The grammar of programs: parser/program.c. Here are the operators, aliases, redirections and
-- simple commands. Loops take fuel, and the parser of words is an argument.
pub mod Aliases
pub mod Lists
pub mod Clauses
pub mod Compound
pub mod HereDocument
pub mod Program
pub mod Simple
pub mod WordReturns
use mrsh.Base.{
  ℕ, zero, suc, ◌+◌, ◌-◌, ◌==◌, ◌&&◌, ◌||◌, leb, Bool, true, false, not, if◌then◌else◌, List, [],
  ◌∷◌, ◌++◌, Option, none, some, Text, text, str_eq, length, drop, ℤ, pos, negsuc,
}
use mrsh.Ast.{
  Word, OptWord, no_word, a_word, Words, IoRedirectOp, IoRedirects, no_redirects, redirect, nil,
  Assignments, no_assignments, assignment, Command, simple_command, string,
}
use mrsh.Ast
use mrsh.Parser.Input.{
  Symbol, token, dless, dgreat, lessand, greatand, lessgreat, dlessdash, clobber, isdigit,
  is_name_char, operators,
}
use mrsh.Parser.Session.{
  Session, Step, stepped, exhausted, fail, M, ◌>>=◌, ◌>>◌, return, unless_null, peek_char,
  peek_second, read_char, read, set_error, fail_with, symbol, symbol_number, consume_symbol,
  linebreak, newline_list, advance,
}
use mrsh.Parser.Session.Tokens.{name_ahead, peek_word, read_mark, read_token, first_char}
use mrsh.Parser.Words.{words_of}

unfoldable pub operator_str : List (Symbol × Text) → Symbol → Option Text
unfolding symbol_number
operator_str [] sym = none
operator_str (operator ∷ ops) sym =
    if symbol_number operator.0 == symbol_number sym then some operator.1 else operator_str ops sym

-- The function `operator`, with its two assertions.
unfoldable pub read_operator : Symbol → M Bool
unfolding symbol operator_str read consume_symbol
read_operator sym = do
  there ← symbol sym
  if not there then return false else elim (operator_str operators sym) [
    | none ↦ fail
    | some str ↦ read (length str) >>= λ buf.
        if str_eq str buf then (consume_symbol >> return true) else fail
  ]

-- The character of a separator.
unfoldable pub separator_op : M (Option ℕ)
unfolding read_mark
separator_op = do
  and ← read_mark (text "&")
  if and
      then return (some b'&')
      else (do semicolon ← read_mark (text ";"); return (if semicolon then some b';' else none))

unfoldable pub is_alias_char : ℕ → Bool
unfolding is_name_char
is_alias_char c = is_name_char c || (c == b'!' || (c == b'%' || (c == b',' || c == b'@')))

abbrev pub all_alias_chars : Text → Bool
all_alias_chars [] = true
all_alias_chars (c ∷ str) = is_alias_char c && all_alias_chars str

unfoldable pub peek_alias : M Text
unfolding peek_word is_alias_char
peek_alias = do str ← peek_word 0; return (if all_alias_chars str then str else [])

-- A replacement with the address of its string.
abbrev pub Alias : Type 0
Alias = Text → Option (ℕ × Text)

-- `last_repl == repl`
abbrev pub same_address : Option ℕ → ℕ → Bool
same_address none repl = false
same_address (some last) repl = last == repl

abbrev replace_front : Text → Text → M (Unit {0})
replace_front name repl s = stepped tt (advance s (repl ++ drop (length name) s.input.rest))

unfoldable pub apply_aliases_loop : ℕ → Alias → Option ℕ → M (Unit {0})
unfolding symbol peek_alias consume_symbol
apply_aliases_loop zero alias last_repl = exhausted
apply_aliases_loop (suc fuel) alias last_repl =
    (symbol token >>= λ there.
    if not there
    then return tt
    else (peek_alias >>= λ name. elim name [
      | [] ↦ return tt
      | c ∷ cs ↦ elim (alias (c ∷ cs)) [
        | none ↦ return tt
        | some repl ↦ elim (same_address last_repl repl.0) [
          | true ↦ return tt
          | false ↦ replace_front (c ∷ cs) repl.1 >>= λ _.
              consume_symbol >>= λ _. apply_aliases_loop fuel alias (some repl.0)
        ]
      ]
    ]))

unfoldable pub apply_aliases : ℕ → Alias → M (Unit {0})
unfolding apply_aliases_loop
apply_aliases fuel alias s =
    if s.aliases then apply_aliases_loop fuel alias none s else stepped tt s

-- `struct mrsh_io_redirect` without its here-document, which Parser.Session has.
pub record Redirect : Type 0 where
  pub io_number : ℤ
  pub op : IoRedirectOp
  pub name : Word

abbrev pub redirects_of : List Redirect → IoRedirects
redirects_of [] = no_redirects
redirects_of (r ∷ rs) = redirect r.io_number r.op r.name nil (redirects_of rs)

-- The first of some tests that succeeds.
abbrev first_op : List (M Bool × IoRedirectOp) → M (Option IoRedirectOp)
first_op [] = return none
first_op (test ∷ tests) = do there ← test.0; if there then return (some test.1) else first_op tests

unfoldable pub io_redirect_op : M (Option IoRedirectOp)
unfolding read_mark read_operator
io_redirect_op = first_op (
    (read_mark (text "<"), Ast.less)
    ∷ (read_mark (text ">"), Ast.great)
    ∷ (read_operator lessand, Ast.lessand)
    ∷ (read_operator greatand, Ast.greatand)
    ∷ (read_operator dgreat, Ast.dgreat)
    ∷ (read_operator clobber, Ast.clobber)
    ∷ (read_operator lessgreat, Ast.lessgreat)
    ∷ [])

unfoldable pub io_here_op : M (Option IoRedirectOp)
unfolding read_operator
io_here_op =
    first_op ((read_operator dless, Ast.dless) ∷ (read_operator dlessdash, Ast.dlessdash) ∷ [])

-- The digit in front of a redirection, or -1.
unfoldable pub io_number : M ℤ
unfolding symbol isdigit read_char consume_symbol
io_number = do
  there ← symbol token
  c ← peek_char
  next ← peek_second
  if there && (isdigit c && (next == b'<' || next == b'>'))
      then (read_char >> consume_symbol >> return (pos (c - b'0')))
      else return (negsuc 0)

abbrev here_document_of : IoRedirectOp → Word → M (Unit {0})
here_document_of op name s = stepped tt (record s {
  here_documents = s.here_documents ++ (record { id = s.created; op = op; name = name } ∷ []);
  created = s.created + 1;
})

abbrev is_neg : ℤ → Bool
is_neg (pos n) = false
is_neg (negsuc n) = true

-- `word` is `word(parser, 0)`.
module _ (word : M (Option Word)) where
  -- `io_file` and `io_here` after their operator.
  redirect_name : Text → M (Option Word)
  redirect_name msg = do name ← word; elim name [ none ↦ fail_with msg | some w ↦ return (some w) ]

  unfoldable pub io_file : M (Option (IoRedirectOp × Word))
  unfolding io_redirect_op redirect_name set_error
  io_file = unless_null io_redirect_op (λ op.
      unless_null (redirect_name (text "expected a filename after IO file redirection operator"))
        (λ name. return (some (op, name))))

  unfoldable pub io_here : M (Option (IoRedirectOp × Word))
  unfolding io_here_op redirect_name set_error
  io_here = unless_null io_here_op (λ op.
      unless_null
        (redirect_name (text "expected a name after IO here-document redirection operator"))
        (λ name. return (some (op, name))))

  unfoldable pub io_redirect : M (Option Redirect)
  unfolding io_number io_file io_here set_error
  io_redirect = do
    number ← io_number
    file ← io_file
    elim file [
      | some (op, name) ↦ return (some (record { io_number = number; op = op; name = name }))
      | none ↦ io_here >>= λ here. elim here [
        | some (op, name) ↦
            here_document_of op name
            >> return (some (record { io_number = number; op = op; name = name }))
        | none ↦
            if is_neg number
            then return none
            else fail_with (text "expected an IO redirect after IO number")
      ]
    ]

  -- An assignment of no word is one of the empty string.
  unfoldable pub assignment_word : M (Option (Text × Word))
  unfolding symbol name_ahead read_token read
  assignment_word = do
    there ← symbol token
    ahead ← name_ahead false
    let (name, behind) = ahead
    if not there then return none else elim name [
      | [] ↦ return none
      | c ∷ cs ↦
          if not (first_char behind == b'=')
          then return none
          else (unless_null (read_token (length (c ∷ cs))) (λ str. read 1 >>= λ _. word >>= λ value.
              elim value [
                | none ↦ return (some (str, string [] false false))
                | some w ↦ return (some (str, w))
              ]))
    ]
