-- ===== src/Parser/Grammar/Aliases.antt =====
-- Alias substitution, round by round: apply_aliases of parser/program.c.
use mrsh.Base.{
  ℕ, zero, suc, ◌==◌, ◌||◌, ◌≡◌, refl, ◌∙◌, true, false, [], ◌∷◌, ◌++◌, Option, some, Text,
  drop-append, arith,
}
use mrsh.Parser.Input.{token, is_operator_start, isblank, next_symbol, is_name_char, isdigit}
use mrsh.Parser.Arithm.Print.{All}
use mrsh.Parser.Session.{
  Session, stepped, out_of_fuel, ◌>>=◌, >>=-stepped, return, symbol, consume_symbol, exhausted,
}
use mrsh.Parser.Session.Tokens.{plain_word, ends_word, needs_expansion}
use mrsh.Parser.Words.RoundTrip.{EndsWord, past}
use mrsh.Parser.Words.Pieces.{at_token}
use mrsh.Parser.Grammar.{
  is_alias_char, peek_alias, Alias, same_address, apply_aliases_loop, all_alias_chars,
}

abbrev pub IsAliasName : Text → Type 0
IsAliasName [] = ⊥
IsAliasName (c ∷ cs) = All is_alias_char (c ∷ cs)

alias_char-facts :
    (c : ℕ)
    → is_alias_char c ≡ true
    → (ends_word c ≡ false)
      × (needs_expansion c ≡ false)
      × ((is_operator_start c || (isblank c || c == 0)) ≡ false)
      × ((c == 0) ≡ false)
      × ((c == 10) ≡ false)
      × (is_operator_start c ≡ false)
      × (isblank c ≡ false)
      × ((c == b'#') ≡ false)
unfolding is_alias_char is_name_char isdigit
alias_char-facts c h = ground arith

plain_word-stop : (rest : Text) → EndsWord rest → plain_word 0 rest ≡ some []
unfolding plain_word
plain_word-stop [] h = refl
plain_word-stop (c ∷ rest) h = ground arith

pub plain_word-append :
    (x rest : Text) → All is_alias_char x → EndsWord rest → plain_word 0 (x ++ rest) ≡ some x
unfolding plain_word
plain_word-append [] rest a h = plain_word-stop rest h
plain_word-append (c ∷ x) rest a h =
    let f = alias_char-facts c a.0 in
    rw (plain_word, f.0, f.1, f.2, plain_word-append x rest a.1 h) refl

all_alias_chars-All : (x : Text) → All is_alias_char x → all_alias_chars x ≡ true
all_alias_chars-All [] a = refl
all_alias_chars-All (c ∷ x) a = rw (a.0, all_alias_chars-All x a.1) refl

symbol-token :
    (c : ℕ) (rest : Text) (s : Session)
    → is_alias_char c ≡ true
    → symbol token (past s (c ∷ rest)) ≡ stepped true (at_token s (c ∷ rest))
unfolding symbol next_symbol
symbol-token c rest s h =
    let f = alias_char-facts c h in rw (symbol, next_symbol, f.3, f.4, f.5, f.6, f.7) refl

pub peek_alias-append :
    (x rest : Text) (s : Session)
    → All is_alias_char x
    → EndsWord rest
    → peek_alias (at_token s (x ++ rest)) ≡ stepped x (at_token s (x ++ rest))
unfolding peek_alias ◌>>=◌ return
peek_alias-append x rest s a h = rw (plain_word-append x rest a h, all_alias_chars-All x a) refl

-- A name that has a replacement, other than the last one, gives way to it.
apply_aliases_loop-replaces :
    (alias : Alias) (x repl rest : Text) (last : Option ℕ) (i n : ℕ) (s : Session)
    → IsAliasName x
    → EndsWord rest
    → alias x ≡ some (i, repl)
    → same_address last i ≡ false
    → apply_aliases_loop (suc n) alias last (past s (x ++ rest))
      ≡ apply_aliases_loop n alias (some i) (past s (repl ++ rest))
unfolding apply_aliases_loop
apply_aliases_loop-replaces alias [] repl rest last i n s a h e d = elim a [ ]
apply_aliases_loop-replaces alias (c ∷ x) repl rest last i n s a h e d =
    >>=-stepped (symbol token) _ (past s (c ∷ (x ++ rest))) true (at_token s (c ∷ (x ++ rest)))
      (symbol-token c (x ++ rest) s a.0)
    ∙ (>>=-stepped peek_alias _ (at_token s (c ∷ (x ++ rest))) (c ∷ x)
          (at_token s (c ∷ (x ++ rest))) (peek_alias-append (c ∷ x) rest s a h)
        ∙ rw (e, d) (unfold ◌>>=◌ consume_symbol in rw (drop-append x rest) refl))

-- When an alias stands for a second and that for the first, and the strings of the two replacements
-- are not the same object, substitution in front of either name does not end: whatever the fuel, it
-- runs out.
pub apply_aliases_loop-cycle :
    (alias : Alias) (n : ℕ) (x y rest : Text) (last : Option ℕ) (i j : ℕ) (s : Session)
    → IsAliasName x
    → IsAliasName y
    → EndsWord rest
    → alias x ≡ some (i, y)
    → alias y ≡ some (j, x)
    → (i == j) ≡ false
    → same_address last i ≡ false
    → apply_aliases_loop n alias last (past s (x ++ rest)) ≡ out_of_fuel
apply_aliases_loop-cycle alias zero x y rest last i j s a b h e f d l =
    unfold apply_aliases_loop exhausted in refl
apply_aliases_loop-cycle alias (suc n) x y rest last i j s a b h e f d l =
    apply_aliases_loop-replaces alias x y rest last i n s a h e l
    ∙ apply_aliases_loop-cycle alias n y x rest (some i) j i s b a h f e (ground arith) d
