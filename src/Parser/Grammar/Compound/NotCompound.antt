-- ===== src/Parser/Grammar/Compound/NotCompound.antt =====
-- The compound commands of parser/program.c in front of the name of a simple one.
use mrsh.Base.{
  ℕ, ◌==◌, ◌≡◌, refl, ◌∙◌, Bool, true, false, Bool-cases, inl, inr, List, [], ◌∷◌, ◌++◌, Option,
  none, Text, text, str_eq, str_eq_sound, arith,
}
use mrsh.Ast.{Word, Command}
use mrsh.Parser.Input.{token, isdigit, is_name_char}
use mrsh.Parser.Session.{
  Session, stepped, M, ◌>>=◌, >>=-stepped, return, unless_null, symbol, peek_char, has_error, Line,
}
use mrsh.Parser.Session.Tokens.{peek_word, name_ahead, read_mark, is_mark, first_char}
use mrsh.Parser.Words.Pieces.{at_token}
use mrsh.Parser.Words.Meaning.{Piece}
use mrsh.Parser.Grammar.{Alias}
use mrsh.Parser.Grammar.Simple.{keywords, is_among}
use mrsh.Parser.Grammar.Simple.Reads.{print_arguments, print_arguments-EndsWord}
use mrsh.Parser.Grammar.Simple.Names.{
  IsCommandName, All-alias_char, peek_word-append, name_ahead-append, arguments-Ended,
}
use mrsh.Parser.Grammar.Clauses.{
  parse_brace_group, parse_subshell, parse_if_clause, parse_for_clause, loop_type,
  parse_loop_clause, parse_case_clause,
}
use mrsh.Parser.Grammar.Compound.{
  reserved, opens_function, unspecified_word, parse_function_definition, compound_command_with,
}

-- A word that is not among some is none of them.
is_among-not :
    (ks : List Text) (k name : Text)
    → is_among ks k ≡ true
    → is_among ks name ≡ false
    → str_eq name k ≡ false
is_among-not ks k name m h = elim (Bool-cases (str_eq name k)) [
  | inl e ↦ let same = str_eq_sound name k e in ground (arith, h, m, same)
  | inr e ↦ e
]

pub name-facts :
    (c : ℕ)
    → is_name_char c ≡ true
    → ((c == b'{') ≡ false) × ((c == b'(') ≡ false) × ((c == b'!') ≡ false)
unfolding is_name_char isdigit
name-facts c h = ground arith

arguments-no_colon :
    (ws : List (List Piece)) (rest : Text) → (first_char (print_arguments ws rest) == b':') ≡ false
arguments-no_colon [] rest = refl
arguments-no_colon (w ∷ ws) rest = refl

module _ (c : ℕ) (cs : Text) (ws : List (List Piece)) (rest : Text) (s : Session)
    (named : IsCommandName (c ∷ cs)) where
  abbrev there : Session
  there = at_token s (c ∷ (cs ++ print_arguments ws rest))

  pub read_mark-byte :
      (m : ℕ)
      → is_mark (m ∷ []) ≡ true
      → (c == m) ≡ false
      → read_mark (m ∷ []) there ≡ stepped false there
  unfolding read_mark ◌>>=◌ return symbol peek_char
  read_mark-byte m i d = rw (i, d) refl

  read_mark-word :
      (str : Text)
      → is_mark str ≡ false
      → str_eq (c ∷ cs) str ≡ false
      → read_mark str there ≡ stepped false there
  unfolding read_mark
  read_mark-word str i d =
      >>=-stepped (symbol token) _ there true there (unfold symbol in refl)
      ∙ rw i (
          >>=-stepped (peek_word 0) _ there (c ∷ cs) there (
            peek_word-append c cs (print_arguments ws rest) s (All-alias_char (c ∷ cs) named.0)
              (print_arguments-EndsWord ws rest))
          ∙ rw d (unfold return in refl))

  read_mark-keyword :
      (k : Text)
      → is_among keywords k ≡ true
      → is_mark k ≡ false
      → read_mark k there ≡ stepped false there
  read_mark-keyword k m i = read_mark-word k i (is_among-not keywords k (c ∷ cs) m named.2)

  has_error-there : s.input.error ≡ none → has_error there ≡ stepped false there
  unfolding has_error
  has_error-there e = rw e refl

  -- A parser that finds nothing and sets no error hands over to the next.
  next-none :
      {A B : Type 0} (p : M (Option A)) (k : Option A → Bool → M B)
      → s.input.error ≡ none
      → p there ≡ stepped none there
      → (p >>= λ cmd. has_error >>= λ error. k cmd error) there ≡ k none false there
  next-none p k e h =
      >>=-stepped p _ there none there h
      ∙ >>=-stepped has_error _ there false there (has_error-there e)

  module _ (word : M (Option Word)) (alias : Alias) (reader : M Line)
      (compound : M (Option Command)) (n : ℕ) where
    brace_group-none : parse_brace_group word alias reader compound n there ≡ stepped none there
    unfolding parse_brace_group return is_mark
    brace_group-none =
        >>=-stepped (read_mark (text "{")) _ there false there
          (read_mark-byte b'{' refl ((name-facts c named.0.0).0))

    subshell-none : parse_subshell word alias reader compound n there ≡ stepped none there
    unfolding parse_subshell return is_mark
    subshell-none =
        >>=-stepped (read_mark (text "(")) _ there false there
          (read_mark-byte b'(' refl ((name-facts c named.0.0).1))

    if_clause-none : parse_if_clause word alias reader compound n there ≡ stepped none there
    unfolding parse_if_clause return is_mark is_among keywords str_eq
    if_clause-none =
        >>=-stepped (read_mark (text "if")) _ there false there
          (read_mark-keyword (text "if") refl refl)

    for_clause-none : parse_for_clause word alias reader compound n there ≡ stepped none there
    unfolding parse_for_clause return is_mark is_among keywords str_eq
    for_clause-none =
        >>=-stepped (read_mark (text "for")) _ there false there
          (read_mark-keyword (text "for") refl refl)

    case_clause-none : parse_case_clause word alias reader compound n there ≡ stepped none there
    unfolding parse_case_clause return is_mark is_among keywords str_eq
    case_clause-none =
        >>=-stepped (read_mark (text "case")) _ there false there
          (read_mark-keyword (text "case") refl refl)

    loop_type-none : loop_type word alias reader compound there ≡ stepped none there
    unfolding loop_type return is_mark is_among keywords str_eq
    loop_type-none =
        >>=-stepped (read_mark (text "while")) _ there false there
          (read_mark-keyword (text "while") refl refl)
        ∙ >>=-stepped (read_mark (text "until")) _ there false there
            (read_mark-keyword (text "until") refl refl)

    loop_clause-none : parse_loop_clause word alias reader compound n there ≡ stepped none there
    unfolding parse_loop_clause unless_null return
    loop_clause-none =
        >>=-stepped (loop_type word alias reader compound) _ there none there loop_type-none

    unspecified_word-none :
        is_among reserved (c ∷ cs) ≡ false
        → unspecified_word word alias reader compound there ≡ stepped false there
    unfolding unspecified_word
    unspecified_word-none h =
        let tail = print_arguments ws rest in
        >>=-stepped (peek_word 0) _ there (c ∷ cs) there (
          peek_word-append c cs tail s (All-alias_char (c ∷ cs) named.0)
            (print_arguments-EndsWord ws rest))
        ∙ rw h (
            >>=-stepped (name_ahead false) _ there (c ∷ cs, tail) there
              (name_ahead-append c cs tail s named.0 named.1 (arguments-Ended ws rest))
            ∙ rw (arguments-no_colon ws rest) (unfold return in refl))

    function_definition-none :
        opens_function (print_arguments ws rest) ≡ false
        → parse_function_definition word alias reader compound n there ≡ stepped none there
    unfolding parse_function_definition
    function_definition-none h =
        let tail = print_arguments ws rest in
        >>=-stepped (name_ahead false) _ there (c ∷ cs, tail) there
          (name_ahead-append c cs tail s named.0 named.1 (arguments-Ended ws rest))
        ∙ rw h (unfold return in refl)

    pub compound_command-none :
        s.input.error ≡ none
        → is_among reserved (c ∷ cs) ≡ false
        → opens_function (print_arguments ws rest) ≡ false
        → compound_command_with word alias reader compound n there ≡ stepped none there
    unfolding compound_command_with
    compound_command-none e r o =
        next-none (parse_brace_group word alias reader compound n) _ e brace_group-none
        ∙ (next-none (parse_subshell word alias reader compound n) _ e subshell-none
            ∙ (next-none (parse_if_clause word alias reader compound n) _ e if_clause-none
                ∙ (next-none (parse_for_clause word alias reader compound n) _ e for_clause-none
                    ∙ (next-none (parse_loop_clause word alias reader compound n) _ e
                          loop_clause-none
                        ∙ (next-none (parse_case_clause word alias reader compound n) _ e
                              case_clause-none
                            ∙ (>>=-stepped (unspecified_word word alias reader compound) _ there
                                  false there (unspecified_word-none r)
                                ∙ function_definition-none o))))))
