-- ===== src/Parser/Words/DollarEnds.antt =====
-- What follows a dollar sign, and back quotes, are read to their end, if the programs in them are.
use mrsh.Base.{
  ℕ, zero, suc, ◌+◌, ◌≤◌, ◌<◌, ◌==◌, ◌&&◌, ◌≡◌, refl, Option-cases, inl, inr, Bool, true, false,
  not, if◌then◌else◌, [], ◌∷◌, ◌++◌, Option, none, some, Text, text, arith, length, length-append,
}
use mrsh.Parser.Session.{
  Session, Step, stepped, aborted, out_of_fuel, M, ◌>>=◌, return, unless_null, peek_char,
  peek_second, read_char, set_error, fail_with, exhausted,
}
use mrsh.Parser.Session.Below.{
  size, Below, Below-weaken, Eats->>=, if-Keeps, fail-Keeps, fail_with-Keeps, Keeps, Eats,
  read_char-Eats, read_char-Keeps, peek_char-Keeps, peek_second-Keeps, set_error-Keeps,
}
use mrsh.Ast.{Word, CommandLists, command}
use mrsh.Parser.Words.{back_quoted, skip_char, quotes}
use mrsh.Parser.Words.Ends.{skip_char-Eats, back_quoted-Keeps}
use mrsh.Parser.Words.Dollar.{
  subparser, keep_documents, opt_program, parse_back_quoted, back_quotes_with,
}

-- A text that is read is no longer than `k` and the input.
abbrev Fits : ℕ → Step (Option Text) → Type 0
Fits k (stepped (some str) t) = length str ≤ k
Fits k other = Unit

record Bounded (k : ℕ) (m : M (Option Text)) : Type 0 where
  run : (s : Session) → Fits (k + size s) (m s)

Fits-weaken : (j k : ℕ) (x : Step (Option Text)) → j ≤ k → Fits j x → Fits k x
Fits-weaken j k (stepped (some str) t) le h = omega arith
Fits-weaken j k (stepped none t) le h = tt
Fits-weaken j k aborted le h = tt
Fits-weaken j k out_of_fuel le h = tt

if-Bounded :
    {k : ℕ} (b : Bool) (l r : M (Option Text))
    → Bounded k l
    → Bounded k r
    → Bounded k (if b then l else r)
if-Bounded true l r f g = f
if-Bounded false l r f g = g

module _ {A : Type 0} where
  next :
      (j k : ℕ) (x : Step A) (f : A → M (Option Text))
      → Below j x
      → ((a : A) (t : Session) → size t < j → Fits k (f a t))
      → Fits k (elim x [ stepped a t ↦ f a t | aborted ↦ aborted | out_of_fuel ↦ out_of_fuel ])
  next j k (stepped a t) f h g = g a t h
  next j k aborted f h g = tt
  next j k out_of_fuel f h g = elim h [ ]

  Bounded->>= :
      {k : ℕ} (m : M A) (f : A → M (Option Text))
      → ((n : ℕ) → Keeps n m)
      → ((a : A) → Bounded k (f a))
      → Bounded k (m >>= f)
  unfolding ◌>>=◌
  Bounded->>= {k} m f keeps g = record {
    run = λ s.
        next (suc (size s)) (k + size s) (m s) f ((keeps (suc (size s))).run s (omega arith))
          (λ a t h. Fits-weaken (k + size t) (k + size s) (f a t) (omega arith) ((g a).run t));
  }

  Bounded->>=-Eats :
      {k : ℕ} (m : M A) (f : A → M (Option Text))
      → ((n : ℕ) → Eats (suc n) m)
      → ((a : A) → Bounded (suc k) (f a))
      → Bounded k (m >>= f)
  unfolding ◌>>=◌
  Bounded->>=-Eats {k} m f eats g = record {
    run = λ s.
        next (size s) (k + size s) (m s) f ((eats (size s)).run s (omega arith))
          (λ a t h. Fits-weaken (suc k + size t) (k + size s) (f a t) (omega arith) ((g a).run t));
  }

none-Bounded : {k : ℕ} → Bounded k (return none)
unfolding return
none-Bounded = record { run = λ s. tt }

some-Bounded : {k : ℕ} (str : Text) → length str ≡ k → Bounded k (return (some str))
unfolding return
some-Bounded str e = record { run = λ s. omega arith }

unterminated-Bounded : {k : ℕ} (msg : Text) → Bounded k (fail_with msg)
unfolding fail_with
unterminated-Bounded msg =
    Bounded->>= (set_error msg) _ (λ n. set_error-Keeps msg) (λ _. none-Bounded)

back_quoted-Bounded : (n k : ℕ) (buf : Text) → length buf ≡ k → Bounded k (back_quoted n buf)
unfolding back_quoted
back_quoted-Bounded zero k buf e = record { run = λ s. unfold exhausted in tt }
back_quoted-Bounded (suc n) k buf e =
    let longer = λ (c : ℕ).
      back_quoted-Bounded n (suc k) (buf ++ (c ∷ []))
        (omega (arith, length-append {0} buf (c ∷ []))) in
    Bounded->>= peek_char _ (λ n. peek_char-Keeps)
      (λ c.
        Bounded->>= peek_second _ (λ n. peek_second-Keeps)
          (λ d. if-Bounded (c == 0) _ _ (unterminated-Bounded (text "back quotes not terminated")) (
            if-Bounded (c == b'`') _ _
              (Bounded->>= read_char _ (λ n. read_char-Keeps) (λ _. some-Bounded buf e))
              (if-Bounded (c == 92 && quotes 92 d) _ _
                (Bounded->>= read_char _ (λ n. read_char-Keeps)
                  (λ _. Bounded->>=-Eats (skip_char d) _ (λ n. skip_char-Eats d) (λ _. longer d)))
                (Bounded->>=-Eats (skip_char c) _ (λ n. skip_char-Eats c) (λ _. longer c))))))

-- What is done with a text that was read.
text_then :
    (n : ℕ) (m : M (Option Text)) (f : Text → M (Option Word))
    → Keeps n m
    → Bounded 0 m
    → ((str : Text) → length str < n → Keeps n (f str))
    → Keeps n (unless_null m f)
unfolding unless_null ◌>>=◌
text_then n m f k b g = record { run = λ s h. after s h (m s) (k.run s h) (b.run s) }
  where
    after :
        (s : Session)
        → size s < n
        → (x : Step (Option Text)) → Below (suc (size s)) x
        → Fits (0 + size s) x
        → Below (suc (size s)) (elim x [
          | stepped r t ↦
              elim r as (λ _. M (Option Word)) [ none ↦ return none | some str ↦ f str ] t
          | aborted ↦ aborted
          | out_of_fuel ↦ out_of_fuel
        ])
    after s h (stepped none t) below fits = unfold return in omega arith
    after s h (stepped (some str) t) below fits =
        Below-weaken (suc (size t)) (suc (size s)) (f str t) (omega arith)
          ((g str (omega arith)).run t (omega arith))
    after s h aborted below fits = tt
    after s h out_of_fuel below fits = elim below [ ]

parse_back_quoted-Keeps :
    (n : ℕ) (program : M (Option CommandLists)) (str : Text)
    → Keeps n program
    → length str < n
    → Keeps n (parse_back_quoted program str)
unfolding parse_back_quoted
parse_back_quoted-Keeps n program str k fits = record {
  run = λ s h. after s (program (subparser str s)) (k.run (subparser str s) fits);
}
  where
    after :
        (s : Session) (x : Step (Option CommandLists))
        → Below (suc (length str)) x
        → Below (suc (size s)) (elim x [
          | stepped prog sub ↦ elim sub.input.error [
            | some msg ↦ fail_with msg (keep_documents sub s)
            | none ↦ stepped (some (command (opt_program prog) true)) (keep_documents sub s)
          ]
          | aborted ↦ aborted
          | out_of_fuel ↦ out_of_fuel
        ])
    after s (stepped prog sub) below = elim (Option-cases sub.input.error) [
      | inl e ↦ rw e (omega arith)
      | inr (msg, e) ↦ rw e (
          (fail_with-Keeps {A = Word} {n = suc (size s)} msg).run (keep_documents sub s)
            (omega arith))
    ]
    after s aborted below = tt
    after s out_of_fuel below = elim below [ ]

pub back_quotes_with-Eats :
    (n : ℕ) (program : M (Option CommandLists))
    → Keeps n program
    → Eats (suc n) (back_quotes_with n program)
unfolding back_quotes_with
back_quotes_with-Eats n program k = Eats->>= read_char _ read_char-Eats (λ c.
    if-Keeps (not (c == b'`')) _ _ fail-Keeps (
      text_then n (back_quoted n []) (parse_back_quoted program) (back_quoted-Keeps n [])
        (back_quoted-Bounded n 0 [] refl)
        (λ str fits. parse_back_quoted-Keeps n program str k fits)))
