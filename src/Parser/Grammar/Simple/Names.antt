-- ===== src/Parser/Grammar/Simple/Names.antt =====
-- The name of a simple command in front of its words: parser/program.c and parser/word.c.
use mrsh.Base.{
  ℕ, suc, ◌==◌, ◌≡◌, refl, ◌∙◌, Bool, true, false, if◌then◌else◌, List, [], ◌∷◌, ◌++◌, none, some,
  Text, length, arith,
}
use mrsh.Parser.Input.{token, isdigit, is_name_char, peek_name, get_symbol}
use mrsh.Parser.Arithm.Print.{All}
use mrsh.Parser.Arithm.Atoms.{Ended, span-append}
use mrsh.Parser.Session.{
  Session, stepped, ◌>>=◌, >>=-stepped, return, symbol, read, advance, consume_symbol,
}
use mrsh.Parser.Session.Tokens.{read_token, peek_word, name_ahead, first_char}
use mrsh.Parser.Words.Quoting.{read_char-cons}
use mrsh.Parser.Words.RoundTrip.{EndsWord, past}
use mrsh.Parser.Words.Pieces.{at_token}
use mrsh.Parser.Words.Meaning.{Piece}
use mrsh.Parser.Grammar.{Alias, apply_aliases, apply_aliases_loop, is_alias_char, peek_alias}
use mrsh.Parser.Grammar.Aliases.{plain_word-append, peek_alias-append}
use mrsh.Parser.Grammar.Simple.{keywords, is_among}
use mrsh.Parser.Grammar.Simple.NoRedirect.{begins_token}
use mrsh.Parser.Grammar.Simple.Reads.{print_arguments}

-- A name that is no reserved word.
abbrev pub IsCommandName : Text → Type 0
IsCommandName [] = ⊥
IsCommandName (c ∷ cs) =
    All is_name_char (c ∷ cs) × (isdigit c ≡ false) × (is_among keywords (c ∷ cs) ≡ false)

pub name_char-facts :
    (c : ℕ)
    → is_name_char c ≡ true
    → (is_alias_char c ≡ true) × (begins_token c ≡ true) × ((c == 0) ≡ false)
unfolding is_alias_char is_name_char isdigit
name_char-facts c h = ground arith

pub All-alias_char : (str : Text) → All is_name_char str → All is_alias_char str
All-alias_char [] a = tt
All-alias_char (c ∷ str) a = ((name_char-facts c a.0).0, All-alias_char str a.1)

pub arguments-Ended :
    (ws : List (List Piece)) (rest : Text) → Ended is_name_char (print_arguments ws rest)
unfolding is_name_char isdigit
arguments-Ended [] rest = refl
arguments-Ended (w ∷ ws) rest = refl

pub arguments-no_equals :
    (ws : List (List Piece)) (rest : Text) → (first_char (print_arguments ws rest) == b'=') ≡ false
arguments-no_equals [] rest = refl
arguments-no_equals (w ∷ ws) rest = refl

-- Reading a text that is in front.
read-append :
    (str rest : Text) (s : Session)
    → All is_name_char str
    → read (length str) (advance s (str ++ rest)) ≡ stepped str (advance s rest)
unfolding read ◌>>=◌ return
read-append [] rest s a = refl
read-append (c ∷ str) rest s a =
    rw
      (
        read,
        ◌>>=◌,
        read_char-cons c (str ++ rest) s ((name_char-facts c a.0).2),
        read-append str rest s a.1,
      )
      refl

pub read_token-append :
    (str rest : Text) (s : Session)
    → All is_name_char str
    → read_token (length str) (at_token s (str ++ rest)) ≡ stepped (some str) (past s rest)
unfolding read_token ◌>>=◌ return symbol consume_symbol
read_token-append str rest s a = rw (read_token, ◌>>=◌, read-append str rest (at_token s []) a) refl

pub name_ahead-append :
    (c : ℕ) (cs rest : Text) (s : Session)
    → All is_name_char (c ∷ cs)
    → isdigit c ≡ false
    → Ended is_name_char rest
    → name_ahead false (at_token s (c ∷ (cs ++ rest)))
      ≡ stepped (c ∷ cs, rest) (at_token s (c ∷ (cs ++ rest)))
unfolding name_ahead peek_name get_symbol
name_ahead-append c cs rest s a d e = rw (d, span-append is_name_char (c ∷ cs) rest a e) refl

pub peek_word-append :
    (c : ℕ) (cs rest : Text) (s : Session)
    → All is_alias_char (c ∷ cs)
    → EndsWord rest
    → peek_word 0 (at_token s (c ∷ (cs ++ rest))) ≡ stepped (c ∷ cs) (at_token s (c ∷ (cs ++ rest)))
unfolding peek_word ◌>>=◌ symbol
peek_word-append c cs rest s a e = rw (plain_word-append (c ∷ cs) rest a e) refl

pub if-same : {A : Type 0} {x y : A} (b : Bool) → x ≡ y → (if b then x else y) ≡ y
if-same true e = e
if-same false e = refl

apply_aliases_loop-none :
    (c : ℕ) (cs rest : Text) (k : ℕ) (alias : Alias) (s : Session)
    → All is_alias_char (c ∷ cs)
    → EndsWord rest
    → alias (c ∷ cs) ≡ none
    → apply_aliases_loop (suc k) alias none (at_token s (c ∷ (cs ++ rest)))
      ≡ stepped tt (at_token s (c ∷ (cs ++ rest)))
unfolding apply_aliases_loop
apply_aliases_loop-none c cs rest k alias s a e u =
    let t = at_token s (c ∷ (cs ++ rest)) in
    >>=-stepped (symbol token) _ t true t (unfold symbol in refl)
    ∙ (>>=-stepped peek_alias _ t (c ∷ cs) t (peek_alias-append (c ∷ cs) rest s a e)
        ∙ rw u (unfold return in refl))

pub apply_aliases-none :
    (c : ℕ) (cs rest : Text) (k : ℕ) (alias : Alias) (s : Session)
    → All is_alias_char (c ∷ cs)
    → EndsWord rest
    → alias (c ∷ cs) ≡ none
    → apply_aliases (suc k) alias (at_token s (c ∷ (cs ++ rest)))
      ≡ stepped tt (at_token s (c ∷ (cs ++ rest)))
unfolding apply_aliases
apply_aliases-none c cs rest k alias s a e u =
    if-same s.aliases (apply_aliases_loop-none c cs rest k alias s a e u)
