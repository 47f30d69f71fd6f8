-- ===== src/Parser/Grammar/Simple/Reads.antt =====
-- The words of a simple command: cmd_suffix of parser/program.c.
use mrsh.Base.{
  ℕ, zero, suc, ◌<◌, ◌≡◌, refl, ◌∙◌, Bool, true, false, List, [], ◌∷◌, ◌++◌, append_assoc,
  append-nil, length-append, ◌≤◌, map, Option, none, some, Text, length, arith,
}
use mrsh.Ast.{Word}
use mrsh.Parser.Input.{newline, is_operator_start, isdigit}
use mrsh.Parser.Session.{
  Session, stepped, M, ◌>>=◌, >>=-stepped, return, unless_null, peek_char, peek_second,
}
use mrsh.Parser.Session.Tokens.{first_char}
use mrsh.Parser.Words.{word}
use mrsh.Parser.Words.Quoting.{escape}
use mrsh.Parser.Words.RoundTrip.{EndsWord, past}
use mrsh.Parser.Words.Pieces.{at_token, word-print, escape-longer}
use mrsh.Parser.Words.Meaning.{Piece, plain, escaped, single, double, print, ArePieces, meaning}
use mrsh.Parser.Grammar.{io_redirect}
use mrsh.Parser.Grammar.Simple.{Parts, cmd_suffix, parts_loop}
use mrsh.Parser.Grammar.Simple.NoRedirect.{begins_token, symbol-blank, io_redirect-none}

-- A word that no redirection and no comment can be taken for.
abbrev pub IsArgument : List Piece → Type 0
IsArgument [] = ⊥
IsArgument (p ∷ ps) = ArePieces (p ∷ ps) × (begins_token (first_char (print (p ∷ ps) [])) ≡ true)

abbrev pub AreArguments : List (List Piece) → Type 0
AreArguments [] = Unit
AreArguments (w ∷ ws) = IsArgument w × AreArguments ws

-- The words, each behind a blank, up to the end of the line.
abbrev pub print_arguments : List (List Piece) → Text → Text
print_arguments [] rest = 10 ∷ rest
print_arguments (w ∷ ws) rest = 32 ∷ print w (print_arguments ws rest)

pub print_arguments-EndsWord :
    (ws : List (List Piece)) (rest : Text) → EndsWord (print_arguments ws rest)
print_arguments-EndsWord [] rest = refl
print_arguments-EndsWord (w ∷ ws) rest = refl

first_char-print :
    (ps : List Piece) (ws : List (List Piece)) (rest : Text)
    → ArePieces ps
    → is_operator_start (first_char (print ps (print_arguments ws rest))) ≡ false
first_char-print [] [] rest a = refl
first_char-print [] (w ∷ ws) rest a = refl
first_char-print (plain c ∷ ps) ws rest a = ground arith
first_char-print (escaped c ∷ ps) ws rest a = refl
first_char-print (single str ∷ ps) ws rest a = refl
first_char-print (double str ∷ ps) ws rest a = refl

-- In front of an argument there is no redirection, and its first byte is the next symbol.
io_redirect-argument :
    (part : M (Option Word)) (p : Piece) (ps : List Piece) (ws : List (List Piece)) (rest : Text)
    (s : Session)
    → IsArgument (p ∷ ps)
    → io_redirect part (past s (32 ∷ print (p ∷ ps) (print_arguments ws rest)))
      ≡ stepped none (at_token s (print (p ∷ ps) (print_arguments ws rest)))
io_redirect-argument part (plain c) ps ws rest s a =
    let behind = print ps (print_arguments ws rest) in
    let no = first_char-print ps ws rest (a.0.1) in
    io_redirect-none part c behind s (past s (32 ∷ c ∷ behind)) (symbol-blank c behind s a.1) a.1
      (ground arith)
io_redirect-argument part (escaped c) ps ws rest s a =
    let behind = c ∷ print ps (print_arguments ws rest) in
    io_redirect-none part 92 behind s (past s (32 ∷ 92 ∷ behind)) (symbol-blank 92 behind s refl)
      refl (unfold isdigit in refl)
io_redirect-argument part (single str) ps ws rest s a =
    let behind = str ++ (39 ∷ print ps (print_arguments ws rest)) in
    io_redirect-none part 39 behind s (past s (32 ∷ 39 ∷ behind)) (symbol-blank 39 behind s refl)
      refl (unfold isdigit in refl)
io_redirect-argument part (double str) ps ws rest s a =
    let behind = escape str (34 ∷ print ps (print_arguments ws rest)) in
    io_redirect-none part 34 behind s (past s (32 ∷ 34 ∷ behind)) (symbol-blank 34 behind s refl)
      refl (unfold isdigit in refl)

-- In front of the end of a line.
abbrev pub at_newline : Session → Text → Session
at_newline s rest = record s { input = record (s.input) { rest = 10 ∷ rest; sym = some newline } }

abbrev pub with_arguments : Parts → List Word → Parts
with_arguments parts args = record parts { arguments = parts.arguments ++ args }

abbrev pub meanings : List (List Piece) → List Word
meanings ws = map meaning ws

abbrev pub any_found : Bool → List (List Piece) → Bool
any_found found [] = found
any_found found (w ∷ ws) = any_found true ws

pub print-longer : (ps : List Piece) (rest : Text) → length rest ≤ length (print ps rest)
print-longer [] rest = omega arith
print-longer (plain c ∷ ps) rest = let ih = print-longer ps rest in omega (arith, ih)
print-longer (escaped c ∷ ps) rest = let ih = print-longer ps rest in omega (arith, ih)
print-longer (single str ∷ ps) rest =
    let ih = print-longer ps rest in
    let long = length-append {0} str (39 ∷ print ps rest) in omega (arith, ih, long)
print-longer (double str ∷ ps) rest =
    let ih = print-longer ps rest in
    let long = escape-longer str (34 ∷ print ps rest) in omega (arith, ih, long)

module _ (dollar back : M (Option Word)) (n : ℕ) where
  abbrev pub part : M (Option Word)
  part = word dollar back n 0

  cmd_suffix-argument :
      (w : List Piece) (ws : List (List Piece)) (rest : Text) (parts : Parts) (s : Session)
      → IsArgument w
      → length (print w (print_arguments ws rest)) < n
      → cmd_suffix part parts (past s (32 ∷ print w (print_arguments ws rest)))
        ≡ stepped (some (with_arguments parts (meaning w ∷ []))) (past s (print_arguments ws rest))
  unfolding cmd_suffix
  cmd_suffix-argument [] ws rest parts s a l = elim a [ ]
  cmd_suffix-argument (p ∷ ps) ws rest parts s a l =
      let t = at_token s (print (p ∷ ps) (print_arguments ws rest)) in
      >>=-stepped (io_redirect part) _ (past s (32 ∷ print (p ∷ ps) (print_arguments ws rest))) none
        t (io_redirect-argument part p ps ws rest s a)
      ∙ (>>=-stepped part _ t (some (meaning (p ∷ ps))) (past s (print_arguments ws rest)) (
            word-print dollar back p ps (print_arguments ws rest) n s a.0
              (print_arguments-EndsWord ws rest) l)
          ∙ unfold return in refl)

  cmd_suffix-end :
      (rest : Text) (parts : Parts) (s : Session)
      → cmd_suffix part parts (past s (10 ∷ rest)) ≡ stepped none (at_newline s rest)
  unfolding cmd_suffix ◌>>=◌ return io_redirect unless_null word peek_char peek_second
  cmd_suffix-end rest parts s = refl

  pub parts_loop-arguments :
      (ws : List (List Piece)) (rest : Text) (k : ℕ) (found : Bool) (parts : Parts) (s : Session)
      → AreArguments ws
      → length (print_arguments ws rest) < n
      → length ws < k
      → parts_loop k (cmd_suffix part) found parts (past s (print_arguments ws rest))
        ≡ stepped (any_found found ws, with_arguments parts (meanings ws)) (at_newline s rest)
  unfolding parts_loop
  parts_loop-arguments ws rest zero found parts s a l h = elim h [ ]
  parts_loop-arguments [] rest (suc k) found parts s a l h =
      >>=-stepped (cmd_suffix part parts) _ (past s (10 ∷ rest)) none (at_newline s rest)
        (cmd_suffix-end rest parts s)
      ∙ rw (append-nil parts.arguments) (unfold return in refl)
  parts_loop-arguments (w ∷ ws) rest (suc k) found parts s a l h =
      let longer = print-longer w (print_arguments ws rest) in
      let more = with_arguments parts (meaning w ∷ []) in
      >>=-stepped (cmd_suffix part parts) _ (past s (32 ∷ print w (print_arguments ws rest)))
        (some more) (past s (print_arguments ws rest))
        (cmd_suffix-argument w ws rest parts s a.0 (omega (arith, l)))
      ∙ (parts_loop-arguments ws rest k true more s a.1 (omega (arith, l, longer))
            (omega (arith, h))
          ∙ rw (append_assoc parts.arguments (meaning w ∷ []) (meanings ws)) refl)
