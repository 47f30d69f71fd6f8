-- ===== src/Parser/Words/ListEnds.antt =====
-- Lists of words, and what stands between the braces and parentheses behind a dollar sign.
use mrsh.Base.{
  ℕ, zero, suc, ◌+◌, ◌≤◌, ◌<◌, ◌==◌, ◌&&◌, ◌≡◌, refl, Bool, true, false, not, Bool-cases, inl, inr,
  List, [], ◌∷◌, ◌++◌, Option, none, some, Text, text, arith, length, length-append,
}
use mrsh.Ast.{Word, string, CommandLists, ParameterOp, none', leading_hash}
use mrsh.Parser.Input.{token, isblank}
use mrsh.Parser.Session.{
  Session, stepped, M, ◌>>=◌, return, peek_char, peek_second, read_char, advance, symbol,
  consume_symbol, has_error,
}
use mrsh.Parser.Session.Tokens.{name_ahead, read_token}
use mrsh.Parser.Session.Below.{
  size, Below, Below-weaken, Eats-weaken, Keeps-weaken, Keeps->>=, Eats->>=, Keeps-unless_null,
  if-Keeps, return-Keeps, fail-Keeps, fail_with-Keeps, symbol-Keeps, consume_symbol-Keeps,
  has_error-Keeps, name_ahead-Keeps, read_token-Keeps, expect_token-Keeps, keeping, Keeps, Eats,
  read_char-Eats, read_char-Keeps, peek_char-Keeps, peek_second-Keeps,
}
use mrsh.Parser.Words.{word}
use mrsh.Parser.Words.Arithmetic.{arithmetic_word}
use mrsh.Parser.Words.Ends.{exhausted-Keeps}
use mrsh.Parser.Words.WordEnds.{word-Keeps, arithmetic_word-Keeps}
use mrsh.Parser.Words.DollarEnds.{back_quotes_with-Eats}
use mrsh.Parser.Words.Dollar.{
  expect_word_command, expect_word_arithmetic, plain_parameter, expect_dollar_with, no_parens,
  with_aliases, aliases_set, back_quotes_with, expect_dollar, back_quotes,
}
use mrsh.Parser.Words.Parameter.{
  read_blanks, word_list_loop, word_list, list_or_null, expect_parameter_op,
  expect_parameter_expression, parameter_end, skip_hash, is_empty,
}

-- What is read as blanks is taken from the input.
read_blanks_size :
    (n : ℕ) (rest buf : Text) (s : Session)
    → length rest < n
    → (str : Text) × (t : Session) × (read_blanks n buf (advance s rest) ≡ stepped str t)
      × (size t + length str ≡ length rest + length buf)
unfolding read_blanks ◌>>=◌ return peek_char read_char
read_blanks_size zero rest buf s h = elim h [ ]
read_blanks_size (suc n) [] buf s h = (buf, advance s [], refl, omega arith)
read_blanks_size (suc n) (c ∷ rest) buf s h = elim (Bool-cases (isblank c)) [
  | inr e ↦ (buf, advance s (c ∷ rest), rw e refl, omega arith)
  | inl e ↦
      let nonzero : (c == 0) ≡ false = ground arith in
      let (str, t, r, l) = read_blanks_size n rest (buf ++ (c ∷ [])) s (omega arith) in
      (str, t, rw (e, ◌>>=◌, read_char, nonzero) r, omega (arith, length-append {0} buf (c ∷ [])))
]

-- Blanks are read, and what follows them can go on where there were some.
blanks_then :
    {B : Type 0} (n : ℕ) (f : Text → M B)
    → Keeps (suc n) (f [])
    → ((c : ℕ) (str : Text) → Keeps n (f (c ∷ str)))
    → Keeps (suc n) (read_blanks (suc n) [] >>= f)
unfolding ◌>>=◌
blanks_then n f without with_some = record {
  run = λ s h.
      let (str, t, r, l) = read_blanks_size (suc n) s.input.rest [] s h in
      let here : read_blanks (suc n) [] s ≡ stepped str t = r in
      rw (here, ◌>>=◌, Below) (after s t h str l);
}
  where
    after :
        (s t : Session)
        → size s < suc n
        → (str : Text) → size t + length str ≡ size s + 0
        → Below (suc (size s)) (f str t)
    after s t h [] l =
        Below-weaken (suc (size t)) (suc (size s)) (f [] t) (omega arith)
          (without.run t (omega arith))
    after s t h (c ∷ str) l =
        Below-weaken (suc (size t)) (suc (size s)) (f (c ∷ str) t) (omega arith)
          ((with_some c str).run t (omega arith))

option_then :
    {B : Type 0} {n : ℕ} (g : M B) (f : Word → M B)
    → Keeps n g
    → ((w : Word) → Keeps n (f w))
    → (r : Option Word) → Keeps n (elim r as (λ _. M B) [ none ↦ g | some w ↦ f w ])
option_then g f k h none = k
option_then g f k h (some w) = h w

word_list_loop-Keeps :
    (n end : ℕ) (f : ℕ → M (Option Word)) (children : List Word)
    → Keeps n (f end)
    → Keeps n (word_list_loop n end f children)
unfolding word_list_loop
word_list_loop-Keeps zero end f children k = exhausted-Keeps
word_list_loop-Keeps (suc n) end f children k = Keeps->>= peek_char _ peek_char-Keeps (λ c.
    if-Keeps (c == end) _ _ (return-Keeps children) (
      Keeps->>= (f end) _ k (
        option_then (return children) _ (return-Keeps children) (λ w.
          blanks_then n _ (return-Keeps (children ++ (w ∷ []))) (λ b bs.
            word_list_loop-Keeps n end f (children ++ (w ∷ string (b ∷ bs) false false ∷ []))
              (Keeps-weaken n (suc n) (omega arith) k))))))

word_list-Keeps :
    (n end : ℕ) (f : ℕ → M (Option Word)) → Keeps n (f end) → Keeps n (word_list n end f)
unfolding word_list
word_list-Keeps n end f k =
    Keeps->>= (word_list_loop n end f []) _ (word_list_loop-Keeps n end f [] k)
      (λ children. return-Keeps (list_or_null children))

expect_parameter_op-Keeps : {n : ℕ} → Keeps n expect_parameter_op
unfolding expect_parameter_op
expect_parameter_op-Keeps = search keeping depth 24

parameter_end-Keeps :
    {n : ℕ} (name : Text) (op : ParameterOp) (colon : Bool) (arg : Option Word)
    → Keeps n (parameter_end name op colon arg)
unfolding parameter_end
parameter_end-Keeps name op colon arg = search keeping

skip_hash-Keeps : {n : ℕ} (leads : Bool) → Keeps n (skip_hash leads)
skip_hash-Keeps leads = search keeping

expect_parameter_expression-Keeps :
    {n : ℕ} (words : M (Option Word)) → Keeps n words → Keeps n (expect_parameter_expression words)
unfolding expect_parameter_expression
expect_parameter_expression-Keeps words k = Keeps->>= read_char _ read_char-Keeps (λ c.
    if-Keeps (not (c == b'{')) _ _ fail-Keeps (
      Keeps->>= peek_char _ peek_char-Keeps (λ d.
        let leads = d == b'#' in
        Keeps->>= (skip_hash leads) _ (skip_hash-Keeps leads) (λ _.
          Keeps->>= (name_ahead true) _ (name_ahead-Keeps true) (λ ahead.
            if-Keeps (is_empty ahead.0) _ _ (fail_with-Keeps (text "expected a parameter")) (
              Keeps-unless_null (read_token (length ahead.0)) _ (read_token-Keeps (length ahead.0))
                (λ name. Keeps->>= peek_char _ peek_char-Keeps (λ e.
                  if-Keeps leads _ _ (parameter_end-Keeps name leading_hash false none) (
                    if-Keeps (e == b'}') _ _ (parameter_end-Keeps name none' false none) (
                      Keeps-unless_null expect_parameter_op _ expect_parameter_op-Keeps (λ op.
                        Keeps->>= words _ k
                          (λ arg. parameter_end-Keeps name op.0 op.1 arg))))))))))))

plain_parameter-Keeps : {n : ℕ} (c : ℕ) → Keeps n (plain_parameter c)
unfolding plain_parameter
plain_parameter-Keeps c = search (keeping, read_token-Keeps) depth 24

no_parens-Keeps : {n : ℕ} → Keeps n no_parens
unfolding no_parens
no_parens-Keeps = record { run = λ s h. omega arith }

with_aliases-Keeps : {n : ℕ} (aliases : Bool) → Keeps n (with_aliases aliases)
unfolding with_aliases
with_aliases-Keeps aliases = record { run = λ s h. omega arith }

aliases_set-Keeps : {n : ℕ} → Keeps n aliases_set
unfolding aliases_set
aliases_set-Keeps = record { run = λ s h. omega arith }

expect_word_arithmetic-Keeps :
    {n : ℕ} (words : M (Option Word)) → Keeps n words → Keeps n (expect_word_arithmetic words)
unfolding expect_word_arithmetic
expect_word_arithmetic-Keeps words k = Keeps->>= read_char _ read_char-Keeps (λ c.
    Keeps->>= read_char _ read_char-Keeps (λ d.
      if-Keeps (not (c == b'(' && d == b'(')) _ _ fail-Keeps (
        Keeps->>= no_parens _ no_parens-Keeps (λ _. Keeps->>= words _ k (
          option_then _ _ (fail_with-Keeps (text "expected an arithmetic expression"))
            (λ w. search (keeping, expect_token-Keeps) depth 12))))))

program_then :
    {n : ℕ} (g : M (Option Word)) (f : CommandLists → M (Option Word))
    → Keeps n g
    → ((body : CommandLists) → Keeps n (f body))
    → (r : Option CommandLists)
    → Keeps n (elim r as (λ _. M (Option Word)) [ none ↦ g | some body ↦ f body ])
program_then g f k h none = k
program_then g f k h (some body) = h body

expect_word_command-Keeps :
    {n : ℕ} (program : M (Option CommandLists))
    → Keeps n program
    → Keeps n (expect_word_command program)
unfolding expect_word_command
expect_word_command-Keeps program k = Keeps->>= read_char _ read_char-Keeps (λ c.
    Keeps->>= (symbol token) _ (symbol-Keeps token) (λ there.
      if-Keeps (not (c == b'(' && there)) _ _ fail-Keeps (
        Keeps->>= consume_symbol _ consume_symbol-Keeps (λ _.
          Keeps->>= aliases_set _ aliases_set-Keeps (λ aliases.
            Keeps->>= (with_aliases false) _ (with_aliases-Keeps false) (λ _.
              Keeps->>= program _ k (λ prog.
                Keeps->>= (with_aliases aliases) _ (with_aliases-Keeps aliases) (λ _.
                  Keeps->>= has_error _ has_error-Keeps (λ error.
                    if-Keeps error _ _ (return-Keeps {A = Option Word} none) (
                      program_then _ _ (fail_with-Keeps (text "expected a program"))
                        (λ body. search (keeping, expect_token-Keeps) depth 12) prog))))))))))

expect_dollar_with-Eats :
    {n : ℕ} (words arithmetic_words : M (Option Word)) (program : M (Option CommandLists))
    → Keeps n words
    → Keeps n arithmetic_words
    → Keeps n program
    → Eats (suc n) (expect_dollar_with words arithmetic_words program)
unfolding expect_dollar_with
expect_dollar_with-Eats words arithmetic_words program w a p =
    Eats->>= read_char _ read_char-Eats (λ dollar. Keeps->>= peek_char _ peek_char-Keeps (λ c.
      Keeps->>= peek_second _ peek_second-Keeps (λ next.
        if-Keeps (not (dollar == b'$')) _ _ fail-Keeps (
          if-Keeps (c == b'{') _ _ (expect_parameter_expression-Keeps words w) (
            if-Keeps (c == b'(') _ _
              (if-Keeps (next == b'(') _ _ (expect_word_arithmetic-Keeps arithmetic_words a)
                (expect_word_command-Keeps program p))
              (plain_parameter-Keeps c))))))

module _ (program : M (Option CommandLists)) (n : ℕ) (p : Keeps n program) where
  expect_dollar_below : (m : ℕ) → m ≤ n → Eats m (expect_dollar program m)
  unfolding expect_dollar
  expect_dollar_below zero le = record { run = λ s h. elim h [ ] }
  expect_dollar_below (suc m) le =
      let q = Keeps-weaken m n (omega arith) p in
      let d = expect_dollar_below m (omega arith) in
      let dollar = expect_dollar program m in
      let back = back_quotes_with m program in
      let b = Eats-weaken m (suc m) (omega arith) (back_quotes_with-Eats m program q) in
      expect_dollar_with-Eats (word_list m b'}' (word dollar back m))
        (word_list m 0 (λ end. arithmetic_word dollar back m)) program
        (word_list-Keeps m b'}' (word dollar back m) (word-Keeps dollar back m d b b'}'))
        (word_list-Keeps m 0 (λ end. arithmetic_word dollar back m)
          (arithmetic_word-Keeps dollar back m d b))
        q

  pub expect_dollar-Eats : Eats n (expect_dollar program n)
  expect_dollar-Eats = expect_dollar_below n (omega arith)

  pub back_quotes-Eats : Eats n (back_quotes program n)
  unfolding back_quotes
  back_quotes-Eats = quotes n (omega arith)
    where
      quotes : (m : ℕ) → m ≤ n → Eats m (back_quotes program m)
      quotes zero le = record { run = λ s h. elim h [ ] }
      quotes (suc m) le = back_quotes_with-Eats m program (Keeps-weaken m n (omega arith) p)
