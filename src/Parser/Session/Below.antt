-- ===== src/Parser/Session/Below.antt =====
-- Parsers that return with less input than a bound, or abort.
use mrsh.Base.{
  ℕ, zero, suc, ◌≤◌, ◌<◌, Bool, true, false, not, if◌then◌else◌, [], ◌∷◌, Option, none, some, Text,
  arith, length, ◌==◌, Bool-cases, inl, inr,
}
use mrsh.Parser.Input.{Symbol, token, parser_set_error}
use mrsh.Parser.Sizes.{set_error-rest, get_symbol-le, peek_name_size}
use mrsh.Parser.Session.{
  Session, Step, stepped, aborted, out_of_fuel, M, fail, ◌>>=◌, return, unless_null, read_char,
  read, set_error, fail_with, has_error, symbol, consume_symbol, read_continuation_line, peek_char,
  peek_second,
}
use mrsh.Parser.Session.Tokens.{name_ahead, peek_word, read_mark, expect_token, read_token}

abbrev pub size : Session → ℕ
size s = length s.input.rest

-- The call returns with fewer than `k` bytes left, or aborts; it does not run out of fuel.
abbrev pub Below : {A : Type 0} → ℕ → Step A → Type 0
Below k (stepped a t) = size t < k
Below k aborted = Unit
Below k out_of_fuel = ⊥

-- On every input of fewer than `n` bytes, no more is left than there was.
pub record Keeps {A : Type 0} (n : ℕ) (m : M A) : Type 0 where
  pub run : (s : Session) → size s < n → Below (suc (size s)) (m s)

-- And here less.
pub record Eats {A : Type 0} (n : ℕ) (m : M A) : Type 0 where
  pub run : (s : Session) → size s < n → Below (size s) (m s)

module _ {A : Type 0} where
  pub Below-weaken : (j k : ℕ) (x : Step A) → j ≤ k → Below j x → Below k x
  Below-weaken j k (stepped a t) le h = omega arith
  Below-weaken j k aborted le h = tt
  Below-weaken j k out_of_fuel le h = elim h [ ]

  pub Eats-Keeps : {n : ℕ} {m : M A} → Eats n m → Keeps n m
  Eats-Keeps {m} e = record {
    run = λ s h. Below-weaken (size s) (suc (size s)) (m s) (omega arith) (e.run s h);
  }

  pub Keeps-weaken : (k n : ℕ) {m : M A} → k ≤ n → Keeps n m → Keeps k m
  Keeps-weaken k n le f = record { run = λ s h. f.run s (omega arith) }

  pub Eats-weaken : (k n : ℕ) {m : M A} → k ≤ n → Eats n m → Eats k m
  Eats-weaken k n le f = record { run = λ s h. f.run s (omega arith) }

  pub return-Keeps : {n : ℕ} (a : A) → Keeps n (return a)
  unfolding return
  return-Keeps a = record { run = λ s h. omega arith }

  pub fail-Keeps : {n : ℕ} → Keeps n (fail {A = A})
  unfolding fail
  fail-Keeps = record { run = λ s h. tt }

  pub if-Keeps :
      {n : ℕ} (b : Bool) (l r : M A) → Keeps n l → Keeps n r → Keeps n (if b then l else r)
  if-Keeps true l r f g = f
  if-Keeps false l r f g = g

  pub if-Eats : {n : ℕ} (b : Bool) (l r : M A) → Eats n l → Eats n r → Eats n (if b then l else r)
  if-Eats true l r f g = f
  if-Eats false l r f g = g

module _ {A B : Type 0} where
  >>=-Below :
      (j k : ℕ) (x : Step A) (f : A → M B)
      → Below j x
      → ((a : A) (t : Session) → size t < j → Below k (f a t))
      → Below k (elim x [ stepped a t ↦ f a t | aborted ↦ aborted | out_of_fuel ↦ out_of_fuel ])
  >>=-Below j k (stepped a t) f h g = g a t h
  >>=-Below j k aborted f h g = tt
  >>=-Below j k out_of_fuel f h g = elim h [ ]

  pub Keeps->>= :
      {n : ℕ} (m : M A) (f : A → M B) → Keeps n m → ((a : A) → Keeps n (f a)) → Keeps n (m >>= f)
  unfolding ◌>>=◌
  Keeps->>= m f k g = record {
    run = λ s h. >>=-Below (suc (size s)) (suc (size s)) (m s) f (k.run s h) (λ a t h'.
        Below-weaken (suc (size t)) (suc (size s)) (f a t) (omega arith)
          ((g a).run t (omega arith)));
  }

  -- Behind a call that reads, one byte less is enough.
  pub Eats->>= :
      {n : ℕ} (m : M A) (f : A → M B)
      → Eats (suc n) m
      → ((a : A) → Keeps n (f a))
      → Eats (suc n) (m >>= f)
  unfolding ◌>>=◌
  Eats->>= m f k g = record {
    run = λ s h. >>=-Below (size s) (size s) (m s) f (k.run s h) (λ a t h'.
        Below-weaken (suc (size t)) (size s) (f a t) (omega arith) ((g a).run t (omega arith)));
  }

  pub Keeps->>=-Eats :
      {n : ℕ} (m : M A) (f : A → M B) → Keeps n m → ((a : A) → Eats n (f a)) → Eats n (m >>= f)
  unfolding ◌>>=◌
  Keeps->>=-Eats m f k g = record {
    run = λ s h. >>=-Below (suc (size s)) (size s) (m s) f (k.run s h) (λ a t h'.
        Below-weaken (size t) (size s) (f a t) (omega arith) ((g a).run t (omega arith)));
  }

module _ {A B : Type 0} where
  null_or :
      {n : ℕ} (f : A → M (Option B))
      → ((a : A) → Keeps n (f a))
      → (r : Option A)
      → Keeps n (elim r as (λ _. M (Option B)) [ none ↦ return none | some a ↦ f a ])
  null_or f g none = return-Keeps {A = Option B} none
  null_or f g (some a) = g a

  pub Keeps-unless_null :
      {n : ℕ} (m : M (Option A)) (f : A → M (Option B))
      → Keeps n m
      → ((a : A) → Keeps n (f a))
      → Keeps n (unless_null m f)
  unfolding unless_null
  Keeps-unless_null m f k g = Keeps->>= m _ k (null_or f g)

  pub Eats-unless_null :
      {n : ℕ} (m : M (Option A)) (f : A → M (Option B))
      → Eats (suc n) m
      → ((a : A) → Keeps n (f a))
      → Eats (suc n) (unless_null m f)
  unfolding unless_null
  Eats-unless_null m f k g = Eats->>= m _ k (null_or f g)

read_char-Below : (s : Session) → Below (size s) (read_char s)
unfolding read_char
read_char-Below s =
    elim s.input.rest
      as (λ rest. Below (length rest) (elim rest [
        | [] ↦ aborted
        | c ∷ cs ↦
            if c == 0
            then aborted
            else stepped c (record s { input = record (s.input) { rest = cs } })
      ])) [
        | [] ↦ tt
        | c ∷ cs ↦ elim (Bool-cases (c == 0)) [ inl e ↦ rw e tt | inr e ↦ rw e (omega arith) ]
      ]

set_error-Below : (msg : Text) (s : Session) → Below (suc (size s)) (set_error msg s)
unfolding set_error
set_error-Below msg s =
    elim s.input.error
      as (λ e. Below (suc (size s)) (elim e [
        | none ↦ stepped tt (record s { input = parser_set_error msg s.input; here_documents = [] })
        | some first ↦ stepped tt s
      ])) [ none ↦ rw (set_error-rest msg s.input) (omega arith) | some first ↦ omega arith ]

pub peek_char-Keeps : {n : ℕ} → Keeps n peek_char
unfolding peek_char
peek_char-Keeps = record { run = λ s h. omega arith }

pub peek_second-Keeps : {n : ℕ} → Keeps n peek_second
unfolding peek_second
peek_second-Keeps = record { run = λ s h. omega arith }

pub read_char-Eats : {n : ℕ} → Eats n read_char
read_char-Eats = record { run = λ s h. read_char-Below s }

pub read_char-Keeps : {n : ℕ} → Keeps n read_char
read_char-Keeps = Eats-Keeps read_char-Eats

pub set_error-Keeps : {n : ℕ} (msg : Text) → Keeps n (set_error msg)
set_error-Keeps msg = record { run = λ s h. set_error-Below msg s }

pub has_error-Keeps : {n : ℕ} → Keeps n has_error
unfolding has_error
has_error-Keeps = record { run = λ s h. omega arith }

pub symbol-Keeps : {n : ℕ} (sym : Symbol) → Keeps n (symbol sym)
unfolding symbol
symbol-Keeps sym = record { run = λ s h. omega (arith, get_symbol-le s.input) }

pub consume_symbol-Keeps : {n : ℕ} → Keeps n consume_symbol
unfolding consume_symbol
consume_symbol-Keeps = record { run = λ s h. omega arith }

pub name_ahead-Keeps : {n : ℕ} (in_braces : Bool) → Keeps n (name_ahead in_braces)
unfolding name_ahead
name_ahead-Keeps in_braces = record { run = λ s h. omega (arith, peek_name_size in_braces s.input) }

pub fail_with-Keeps : {A : Type 0} {n : ℕ} (msg : Text) → Keeps n (fail_with {A = A} msg)
unfolding fail_with
fail_with-Keeps {A} msg =
    Keeps->>= (set_error msg) (λ _. return none) (set_error-Keeps msg)
      (λ _. return-Keeps {A = Option A} none)

pub ruleset keeping = (
  return-Keeps, fail-Keeps, if-Keeps, Keeps->>=, Keeps-unless_null, peek_char-Keeps,
  peek_second-Keeps, read_char-Keeps, set_error-Keeps, has_error-Keeps, symbol-Keeps,
  consume_symbol-Keeps, name_ahead-Keeps, fail_with-Keeps,
)

pub read_continuation_line-Eats : {n : ℕ} → Eats (suc n) read_continuation_line
unfolding read_continuation_line
read_continuation_line-Eats = Eats->>= read_char _ read_char-Eats (λ c. search keeping)

pub read_continuation_line-Keeps : {n : ℕ} → Keeps n read_continuation_line
unfolding read_continuation_line
read_continuation_line-Keeps = search keeping

pub read-Keeps : {n : ℕ} (len : ℕ) → Keeps n (read len)
unfolding read
read-Keeps zero = return-Keeps {A = Text} []
read-Keeps {n} (suc len) =
    Keeps->>= read_char _ read_char-Keeps (λ c. search (keeping, read-Keeps {n = n} len))

pub peek_word-Keeps : {n : ℕ} (end : ℕ) → Keeps n (peek_word end)
unfolding peek_word
peek_word-Keeps end = Keeps->>= (symbol token) _ (symbol-Keeps token) (λ there.
    if-Keeps (not there) (return []) _ (return-Keeps {A = Text} [])
      (record { run = λ s h. omega arith }))

pub read_mark-Keeps : {n : ℕ} (str : Text) → Keeps n (read_mark str)
unfolding read_mark
read_mark-Keeps str = search (keeping, peek_word-Keeps, read-Keeps) depth 12

pub expect_token-Keeps : {n : ℕ} (str : Text) → Keeps n (expect_token str)
unfolding expect_token
expect_token-Keeps str = search (keeping, read_mark-Keeps)

pub read_token-Keeps : {n : ℕ} (len : ℕ) → Keeps n (read_token len)
unfolding read_token
read_token-Keeps len = search (keeping, read-Keeps)
