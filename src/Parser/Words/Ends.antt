-- ===== src/Parser/Words/Ends.antt =====
-- The loops of words and quotes end: with more fuel than there are bytes of input they return, or
-- fail an assertion.
use mrsh.Base.{
  ℕ, zero, suc, ◌≤◌, ◌==◌, ◌&&◌, ◌||◌, Bool, true, false, if◌then◌else◌, List, [], ◌∷◌, ◌++◌,
  Option, none, some, Text, text, arith,
}
use mrsh.Ast.{Word}
use mrsh.Parser.Input.{is_operator_start, isblank}
use mrsh.Parser.Session.{M, exhausted, peek_char, peek_second, read_char, read_continuation_line}
use mrsh.Parser.Session.Below.{
  Keeps, Eats, Eats-Keeps, Eats-weaken, if-Keeps, if-Eats, Keeps->>=, Eats->>=, Eats-unless_null,
  return-Keeps, fail-Keeps, keeping, read_char-Eats, read_continuation_line-Eats,
  read_continuation_line-Keeps, fail_with-Keeps, peek_char-Keeps, peek_second-Keeps,
  read_char-Keeps,
}
use mrsh.Parser.Words.{
  Loop, expand, take_char, push_buffer_word_string, single_quoted, single_quotes, back_quoted,
  double_quoted, double_quotes_loop, double_quotes, word_round, skip_char, quotes, quoting, finish,
  backslash,
}
use mrsh.Parser.Words.Arithmetic.{parameter_expansion_round}

pub skip_char-Eats : {n : ℕ} (c : ℕ) → Eats (suc n) (skip_char c)
skip_char-Eats c =
    if-Eats (c == 10) read_continuation_line _ read_continuation_line-Eats
      (Eats->>= read_char _ read_char-Eats (λ _. return-Keeps tt))

pub exhausted-Keeps : {A : Type 0} → Keeps zero (exhausted {A = A})
exhausted-Keeps = record { run = λ s h. elim h [ ] }

single_quoted-Keeps : (n : ℕ) (buf : Text) → Keeps n (single_quoted n buf)
unfolding single_quoted
single_quoted-Keeps zero buf = exhausted-Keeps
single_quoted-Keeps (suc n) buf = Keeps->>= peek_char _ peek_char-Keeps (λ c.
    if-Keeps (c == 0) _ _ (search keeping) (
      if-Keeps (c == 39) _ _ (search keeping) (
        Eats-Keeps (
          Eats->>= (skip_char c) _ (skip_char-Eats c)
            (λ _. single_quoted-Keeps n (buf ++ (c ∷ [])))))))

pub single_quotes-Eats : (n : ℕ) → Eats (suc n) (single_quotes n)
unfolding single_quotes
single_quotes-Eats n =
    Eats->>= read_char _ read_char-Eats
      (λ c. if-Keeps (c == 39) _ _ (single_quoted-Keeps n []) fail-Keeps)

pub back_quoted-Keeps : (n : ℕ) (buf : Text) → Keeps n (back_quoted n buf)
unfolding back_quoted
back_quoted-Keeps zero buf = exhausted-Keeps
back_quoted-Keeps (suc n) buf = Keeps->>= peek_char _ peek_char-Keeps (λ c.
    Keeps->>= peek_second _ peek_second-Keeps (λ next.
      search (keeping, Eats-Keeps, Eats->>=, skip_char-Eats, read_char-Eats, back_quoted-Keeps n)
        depth 14))

-- A loop for inputs of fewer than `n` bytes.
abbrev pub IsLoop : ℕ → Loop → Type 0
IsLoop n again = (children : List Word) (buf : Text) → Keeps n (again children buf)

abbrev pub IsEager : ℕ → Loop → Type 0
IsEager n again = (children : List Word) (buf : Text) → Eats (suc n) (again children buf)

expand-Eats :
    {n : ℕ} (part : M (Option Word)) (again : Loop)
    → Eats (suc n) part
    → IsLoop n again
    → IsEager n (expand part again)
expand-Eats part again e l children buf =
    Eats-unless_null part _ e (λ w. l (push_buffer_word_string children buf ++ (w ∷ [])) [])

pub take_char-Eats : {n : ℕ} (c : ℕ) (again : Loop) → IsLoop n again → IsEager n (take_char c again)
take_char-Eats c again l children buf =
    Eats->>= read_char _ read_char-Eats (λ _. l children (buf ++ (c ∷ [])))

module _ (dollar back : M (Option Word)) (n : ℕ) (d : Eats n dollar) (b : Eats n back) where
  double_quoted-Keeps :
      (m : ℕ) (again : Loop)
      → suc m ≤ n
      → IsLoop m again
      → IsLoop (suc m) (double_quoted dollar back again)
  unfolding double_quoted
  double_quoted-Keeps m again le l children buf =
      let d' = Eats-weaken (suc m) n le d in
      let b' = Eats-weaken (suc m) n le b in
      let expand_dollar = expand-Eats dollar again d' l children buf in
      let expand_back = expand-Eats back again b' l children buf in
      Keeps->>= peek_char _ peek_char-Keeps (λ c. Keeps->>= peek_second _ peek_second-Keeps (λ next.
        if-Keeps (c == 0) _ _ (fail_with-Keeps (text "double quotes not terminated")) (
          if-Keeps (c == 34) _ _ (search keeping) (
            if-Keeps (c == b'$') _ _ (Eats-Keeps expand_dollar) (
              if-Keeps (c == b'`') _ _ (Eats-Keeps expand_back) (
                if-Keeps (c == 92 && (next == 34 || quotes 92 next)) _ _
                  (Keeps->>= read_char _ read_char-Keeps
                    (λ _. Eats-Keeps (take_char-Eats next again l children buf)))
                  (if-Keeps (c == 92 && next == 10) _ _
                    (Eats-Keeps (
                      Eats->>= read_char _ read_char-Eats (λ _.
                        Keeps->>= read_continuation_line _ read_continuation_line-Keeps
                          (λ _. l children buf))))
                    (Eats-Keeps (take_char-Eats c again l children buf)))))))))

  double_quotes_loop-Keeps : (m : ℕ) → m ≤ n → IsLoop m (double_quotes_loop dollar back m)
  unfolding double_quotes_loop
  double_quotes_loop-Keeps zero le = λ children buf. exhausted-Keeps
  double_quotes_loop-Keeps (suc m) le =
      double_quoted-Keeps m (double_quotes_loop dollar back m) le
        (double_quotes_loop-Keeps m (omega arith))

  pub double_quotes-Eats : Eats (suc n) (double_quotes dollar back n)
  unfolding double_quotes
  double_quotes-Eats =
      Eats->>= read_char _ read_char-Eats
        (λ c. if-Keeps (c == 34) _ _ (double_quotes_loop-Keeps n (omega arith) [] []) fail-Keeps)

pub finish-Keeps : {n : ℕ} → IsLoop n finish
unfolding finish
finish-Keeps children buf = search keeping

backslash-Keeps : {m : ℕ} (again : Loop) → IsLoop m again → IsLoop (suc m) (backslash again)
unfolding backslash
backslash-Keeps again l children buf = Eats-Keeps (
    Eats->>= read_char _ read_char-Eats (λ _. Keeps->>= peek_char _ peek_char-Keeps (λ c.
      if-Keeps (c == 10) _ _
        (Keeps->>= read_continuation_line _ read_continuation_line-Keeps (λ _. l children buf))
        (Keeps->>= read_char _ read_char-Keeps (λ _. l children (buf ++ (c ∷ [])))))))

abbrev pub IsQuoting : ℕ → Option Loop → Type 0
IsQuoting m none = Unit
IsQuoting m (some quoted) = IsEager m quoted

if-IsQuoting :
    (m : ℕ) (b : Bool) (l r : Option Loop)
    → IsQuoting m l
    → IsQuoting m r
    → IsQuoting m (if b then l else r)
if-IsQuoting m true l r f g = f
if-IsQuoting m false l r f g = g

pub or_quoted :
    (m : ℕ) (quoting' : Option Loop) (other : M (Option Word)) (children : List Word) (buf : Text)
    → IsQuoting m quoting'
    → Keeps (suc m) other
    → Keeps (suc m) (elim quoting' [ some quoted ↦ quoted children buf | none ↦ other ])
or_quoted m none other children buf q k = k
or_quoted m (some quoted) other children buf q k = Eats-Keeps (q children buf)

module _ (dollar back : M (Option Word)) (m : ℕ) (d : Eats (suc m) dollar)
    (b : Eats (suc m) back) where
  pub quoting-IsQuoting :
      (c : ℕ) (again : Loop) → IsLoop m again → IsQuoting m (quoting dollar back (suc m) c again)
  unfolding quoting
  quoting-IsQuoting c again l = if-IsQuoting m (c == b'$') _ _ (expand-Eats dollar again d l) (
      if-IsQuoting m (c == b'`') _ _ (expand-Eats back again b l) (
        if-IsQuoting m (c == 39) _ _
          (expand-Eats (single_quotes (suc m)) again
            (Eats-weaken (suc m) (suc (suc m)) (omega arith) (single_quotes-Eats (suc m))) l)
          (if-IsQuoting m (c == 34) _ _
            (expand-Eats (double_quotes dollar back (suc m)) again
              (Eats-weaken (suc m) (suc (suc m)) (omega arith)
                (double_quotes-Eats dollar back (suc m) d b))
              l)
            tt)))

  pub word_round-Keeps :
      (end : ℕ) (again : Loop)
      → IsLoop m again
      → IsLoop (suc m) (word_round dollar back (suc m) end again)
  unfolding word_round
  word_round-Keeps end again l children buf = Keeps->>= peek_char _ peek_char-Keeps (λ c.
      if-Keeps (c == 0 || (c == 10 || (c == b')' || c == end))) _ _ (finish-Keeps children buf) (
        or_quoted m (quoting dollar back (suc m) c again) _ children buf
          (quoting-IsQuoting c again l)
          (if-Keeps (c == 92) _ _ (backslash-Keeps again l children buf) (
            if-Keeps (is_operator_start c || isblank c) _ _ (finish-Keeps children buf)
              (Eats-Keeps (take_char-Eats c again l children buf))))))

  pub parameter_expansion_round-Keeps :
      (again : Loop) → IsLoop m again → IsLoop (suc m) (parameter_expansion_round dollar back again)
  unfolding parameter_expansion_round
  parameter_expansion_round-Keeps again l children buf = Keeps->>= peek_char _ peek_char-Keeps (λ c.
      if-Keeps (c == 0) _ _ (finish-Keeps children buf) (
        if-Keeps (c == b'$') _ _ (Eats-Keeps (expand-Eats dollar again d l children buf)) (
          if-Keeps (c == b'`') _ _ (Eats-Keeps (expand-Eats back again b l children buf)) (
            if-Keeps (c == 92) _ _ (backslash-Keeps again l children buf)
              (Eats-Keeps (take_char-Eats c again l children buf))))))
