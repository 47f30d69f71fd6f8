-- ===== src/Parser/Grammar/Simple/Named.antt =====
-- Simple commands that begin with a plain name: simple_command of parser/program.c.
use mrsh.Base.{
  ℕ, zero, suc, ◌<◌, ◌≡◌, refl, ◌∙◌, true, false, List, [], ◌∷◌, ◌++◌, Option, none, some, Text,
  length, length-append, arith,
}
use mrsh.Ast.{Word, simple_command, a_word, string, no_redirects, no_assignments}
use mrsh.Parser.Input.{token}
use mrsh.Parser.Session.{Session, stepped, M, >>=-stepped, return, symbol}
use mrsh.Parser.Session.Tokens.{read_token, peek_word, name_ahead}
use mrsh.Parser.Words.{words_of}
use mrsh.Parser.Words.RoundTrip.{past}
use mrsh.Parser.Words.Pieces.{at_token}
use mrsh.Parser.Words.Meaning.{Piece}
use mrsh.Parser.Grammar.{Alias, apply_aliases, assignment_word, io_redirect}
use mrsh.Parser.Grammar.Simple.{
  Parts, cmd_prefix, cmd_name, cmd_suffix, parse_simple_command, parts_loop,
}
use mrsh.Parser.Grammar.Simple.NoRedirect.{io_redirect-none}
use mrsh.Parser.Grammar.Simple.Reads.{
  AreArguments, print_arguments, print_arguments-EndsWord, part, parts_loop-arguments, at_newline,
  meanings, any_found, with_arguments, print-longer,
}
use mrsh.Parser.Grammar.Simple.Names.{
  IsCommandName, name_char-facts, All-alias_char, arguments-Ended, arguments-no_equals,
  read_token-append, name_ahead-append, peek_word-append, apply_aliases-none,
}

-- A name with nothing that is an assignment behind it.
assignment_word-none :
    (value : M (Option Word)) (c : ℕ) (cs : Text) (ws : List (List Piece)) (rest : Text)
    (s : Session)
    → IsCommandName (c ∷ cs)
    → assignment_word value (at_token s (c ∷ (cs ++ print_arguments ws rest)))
      ≡ stepped none (at_token s (c ∷ (cs ++ print_arguments ws rest)))
unfolding assignment_word
assignment_word-none value c cs ws rest s h =
    let t = at_token s (c ∷ (cs ++ print_arguments ws rest)) in
    >>=-stepped (symbol token) _ t true t (unfold symbol in refl)
    ∙ (>>=-stepped (name_ahead false) _ t (c ∷ cs, print_arguments ws rest) t
          (name_ahead-append c cs (print_arguments ws rest) s h.0 h.1 (arguments-Ended ws rest))
        ∙ rw (arguments-no_equals ws rest) (unfold return in refl))

abbrev pub empty_parts : Parts
empty_parts = record { arguments = []; redirects = []; assignments = [] }

cmd_prefix-none :
    (value : M (Option Word)) (c : ℕ) (cs : Text) (ws : List (List Piece)) (rest : Text)
    (parts : Parts) (s : Session)
    → IsCommandName (c ∷ cs)
    → cmd_prefix value parts (at_token s (c ∷ (cs ++ print_arguments ws rest)))
      ≡ stepped none (at_token s (c ∷ (cs ++ print_arguments ws rest)))
unfolding cmd_prefix
cmd_prefix-none value c cs ws rest parts s h =
    let t = at_token s (c ∷ (cs ++ print_arguments ws rest)) in
    >>=-stepped (io_redirect value) _ t none t (
      io_redirect-none value c (cs ++ print_arguments ws rest) s t (unfold symbol in refl)
        (name_char-facts c h.0.0).1 (rw (h.1) refl))
    ∙ (>>=-stepped (assignment_word value) _ t none t (assignment_word-none value c cs ws rest s h)
        ∙ unfold return in refl)

arguments-fewer :
    (ws : List (List Piece)) (rest : Text) → length ws < length (print_arguments ws rest)
arguments-fewer [] rest = omega arith
arguments-fewer (w ∷ ws) rest =
    let ih = arguments-fewer ws rest in
    let longer = print-longer w (print_arguments ws rest) in omega (arith, ih, longer)

-- The name is no alias, unless no function for them is set.
cmd_name-named :
    (value : M (Option Word)) (c : ℕ) (cs : Text) (ws : List (List Piece)) (rest : Text) (k : ℕ)
    (alias : Alias) (s : Session)
    → IsCommandName (c ∷ cs)
    → alias (c ∷ cs) ≡ none
    → cmd_name value (suc k) alias (at_token s (c ∷ (cs ++ print_arguments ws rest)))
      ≡ stepped (some (string (c ∷ cs) false false)) (past s (print_arguments ws rest))
unfolding cmd_name
cmd_name-named value c cs ws rest k alias s h u =
    let tail = print_arguments ws rest in
    let t = at_token s (c ∷ (cs ++ tail)) in
    let a = All-alias_char (c ∷ cs) h.0 in
    let e = print_arguments-EndsWord ws rest in
    >>=-stepped (apply_aliases (suc k) alias) _ t tt t
      (apply_aliases-none c cs tail k alias s a e u)
    ∙ (>>=-stepped (peek_word 0) _ t (c ∷ cs) t (peek_word-append c cs tail s a e)
        ∙ rw (h.2) (
            >>=-stepped (read_token (length (c ∷ cs))) _ t (some (c ∷ cs)) (past s tail)
              (read_token-append (c ∷ cs) tail s h.0)
            ∙ unfold return in refl))

-- A name that is no reserved word and no alias, then arguments of quoted and plain pieces that begin
-- no comment, each behind a blank, and a newline: they are read as the simple command of that name
-- and those arguments, without redirections or assignments, up to the newline. Fuel above the length
-- of the input is enough.
pub parse_simple_command-print :
    (dollar back : M (Option Word)) (name : Text) (ws : List (List Piece)) (rest : Text) (n : ℕ)
    (alias : Alias) (s : Session)
    → IsCommandName name
    → alias name ≡ none
    → AreArguments ws
    → length (name ++ print_arguments ws rest) < n
    → parse_simple_command
        (part dollar back n)
        alias
        n
        (at_token s (name ++ print_arguments ws rest))
      ≡ stepped
          (some (
            simple_command
              (a_word (string name false false))
              (words_of (meanings ws))
              no_redirects
              no_assignments))
          (at_newline s rest)
unfolding parse_simple_command
parse_simple_command-print dollar back name ws rest zero alias s h u a l = elim l [ ]
parse_simple_command-print dollar back [] ws rest (suc n) alias s h u a l = elim h [ ]
parse_simple_command-print dollar back (c ∷ cs) ws rest (suc n) alias s h u a l =
    let tail = print_arguments ws rest in
    let t = at_token s (c ∷ (cs ++ tail)) in
    let value = part dollar back (suc n) in
    let long = length-append {0} cs tail in
    let few = arguments-fewer ws rest in
    >>=-stepped (parts_loop (suc n) (cmd_prefix value) false empty_parts) _ t (false, empty_parts) t
      (unfold parts_loop in
        (>>=-stepped (cmd_prefix value empty_parts) _ t none t
            (cmd_prefix-none value c cs ws rest empty_parts s h)
          ∙ unfold return in refl))
    ∙ (>>=-stepped (cmd_name value (suc n) alias) _ t (some (string (c ∷ cs) false false))
          (past s tail) (cmd_name-named value c cs ws rest n alias s h u)
        ∙ (>>=-stepped (parts_loop (suc n) (cmd_suffix value) false empty_parts) _ (past s tail)
              (any_found false ws, with_arguments empty_parts (meanings ws)) (at_newline s rest)
              (parts_loop-arguments dollar back (suc n) ws rest (suc n) false empty_parts s a
                (omega (arith, l, long)) (omega (arith, l, long, few)))
            ∙ unfold return in refl))
