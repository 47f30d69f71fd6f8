-- ===== src/Parser/Words/WordEnds.antt =====
-- Words end, those of arithmetic expansions and of parameter expansions too.
use mrsh.Base.{
  ℕ, zero, suc, ◌+◌, ◌-◌, ◌≤◌, ◌==◌, ◌&&◌, ◌||◌, not, [], ◌∷◌, ◌++◌, Option, none, text, arith,
}
use mrsh.Ast.{Word}
use mrsh.Parser.Input.{token, is_operator_start, isblank}
use mrsh.Parser.Session.{M, peek_char, peek_second, read_char, symbol, read_continuation_line}
use mrsh.Parser.Session.Below.{
  Keeps, Eats, Eats-Keeps, Eats-weaken, if-Keeps, Keeps->>=, Eats->>=, return-Keeps,
  read_continuation_line-Eats, fail_with-Keeps, peek_char-Keeps, peek_second-Keeps, read_char-Keeps,
  symbol-Keeps,
}
use mrsh.Parser.Words.{Loop, take_char, quoting, word_loop, word}
use mrsh.Parser.Words.Arithmetic.{
  arithmetic_round, arithmetic_word_loop, arithmetic_word, arithmetic_char,
  parameter_expansion_word_loop, parameter_expansion_word, nested, nest, closes,
}
use mrsh.Parser.Words.Ends.{
  IsLoop, exhausted-Keeps, finish-Keeps, take_char-Eats, or_quoted, quoting-IsQuoting,
  word_round-Keeps, parameter_expansion_round-Keeps,
}

nested-Keeps : {n : ℕ} → Keeps n nested
unfolding nested
nested-Keeps = record { run = λ s h. omega arith }

nest-Keeps : {n : ℕ} (depth : ℕ) → Keeps n (nest depth)
unfolding nest
nest-Keeps depth = record { run = λ s h. omega arith }

module _ (dollar back : M (Option Word)) (n : ℕ) (d : Eats n dollar) (b : Eats n back) where
  word_loop-Keeps : (end m : ℕ) → m ≤ n → IsLoop m (word_loop dollar back m end)
  unfolding word_loop
  word_loop-Keeps end zero le = λ children buf. exhausted-Keeps
  word_loop-Keeps end (suc m) le =
      word_round-Keeps dollar back m (Eats-weaken (suc m) n le d) (Eats-weaken (suc m) n le b) end
        (word_loop dollar back m end) (word_loop-Keeps end m (omega arith))

  pub word-Keeps : (end : ℕ) → Keeps n (word dollar back n end)
  unfolding word
  word-Keeps end = Keeps->>= (symbol token) _ (symbol-Keeps token) (λ there.
      Keeps->>= peek_char _ peek_char-Keeps (λ c.
        if-Keeps (not there || (is_operator_start c || (c == b')' || c == end))) _ _
          (return-Keeps {A = Option Word} none) (word_loop-Keeps end n (omega arith) [] [])))

  parameter_expansion_word_loop-Keeps :
      (m : ℕ) → m ≤ n → IsLoop m (parameter_expansion_word_loop dollar back m)
  unfolding parameter_expansion_word_loop
  parameter_expansion_word_loop-Keeps zero le = λ children buf. exhausted-Keeps
  parameter_expansion_word_loop-Keeps (suc m) le =
      parameter_expansion_round-Keeps dollar back m (Eats-weaken (suc m) n le d)
        (Eats-weaken (suc m) n le b) (parameter_expansion_word_loop dollar back m)
        (parameter_expansion_word_loop-Keeps m (omega arith))

  pub parameter_expansion_word-Keeps : Keeps n (parameter_expansion_word dollar back n)
  unfolding parameter_expansion_word
  parameter_expansion_word-Keeps = parameter_expansion_word_loop-Keeps n (omega arith) [] []

  arithmetic_char-Keeps :
      (m c : ℕ) (again : Loop)
      → IsLoop m again
      → IsLoop (suc m) (arithmetic_char dollar back c again)
  unfolding arithmetic_char
  arithmetic_char-Keeps m c again l children buf =
      let taken = Eats-Keeps (take_char-Eats c again l children buf) in
      Keeps->>= nested _ nested-Keeps (λ k.
        if-Keeps (c == b'(') _ _ (Keeps->>= (nest (k + 1)) _ (nest-Keeps (k + 1)) (λ _. taken)) (
          if-Keeps (c == b')') _ _
            (if-Keeps (k == 0) _ _
              (fail_with-Keeps (text "unmatched closing parenthesis in arithmetic expression"))
              (Keeps->>= (nest (k - 1)) _ (nest-Keeps (k - 1)) (λ _. taken)))
            taken))

  -- Two characters at once.
  take_two :
      (m c : ℕ) (again : Loop) → IsLoop m again → IsLoop (suc m) (take_char c (take_char c again))
  take_two m c again l children buf =
      Keeps->>= read_char _ read_char-Keeps
        (λ _. Eats-Keeps (take_char-Eats c again l children (buf ++ (c ∷ []))))

  arithmetic_round-Keeps :
      (m : ℕ) (again : Loop)
      → suc m ≤ n
      → IsLoop m again
      → IsLoop (suc m) (arithmetic_round dollar back (suc m) again)
  unfolding arithmetic_round
  arithmetic_round-Keeps m again le l children buf = Keeps->>= peek_char _ peek_char-Keeps (λ c.
      Keeps->>= peek_second _ peek_second-Keeps (λ next. Keeps->>= nested _ nested-Keeps (λ k.
        if-Keeps (c == 0 || (c == 10 || (c == b';' || (isblank c || closes c next k)))) _ _
          (finish-Keeps children buf)
          (or_quoted m (quoting dollar back (suc m) c again) _ children buf
            (quoting-IsQuoting dollar back m (Eats-weaken (suc m) n le d)
              (Eats-weaken (suc m) n le b) c again l)
            (if-Keeps (c == 92) _ _
              (Keeps->>= read_char _ read_char-Keeps (λ _.
                Keeps->>= peek_char _ peek_char-Keeps (λ e.
                  if-Keeps (e == 10) _ _
                    (Eats-Keeps (
                      Eats->>= read_continuation_line _ read_continuation_line-Eats
                        (λ _. l children buf)))
                    (arithmetic_char-Keeps m e again l children buf))))
              (if-Keeps ((c == b'<' || c == b'>') && next == c) _ _
                (take_two m c again l children buf)
                (arithmetic_char-Keeps m c again l children buf)))))))

  arithmetic_word_loop-Keeps : (m : ℕ) → m ≤ n → IsLoop m (arithmetic_word_loop dollar back m)
  unfolding arithmetic_word_loop
  arithmetic_word_loop-Keeps zero le = λ children buf. exhausted-Keeps
  arithmetic_word_loop-Keeps (suc m) le =
      arithmetic_round-Keeps m (arithmetic_word_loop dollar back m) le
        (arithmetic_word_loop-Keeps m (omega arith))

  pub arithmetic_word-Keeps : Keeps n (arithmetic_word dollar back n)
  unfolding arithmetic_word
  arithmetic_word-Keeps = Keeps->>= peek_char _ peek_char-Keeps (λ c.
      Keeps->>= peek_second _ peek_second-Keeps (λ next. Keeps->>= nested _ nested-Keeps (λ k.
        if-Keeps (closes c next k) _ _ (return-Keeps {A = Option Word} none)
          (arithmetic_word_loop-Keeps n (omega arith) [] []))))
