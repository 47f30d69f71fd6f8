-- ===== src/Parser/Source/Marked.antt =====
-- The NUL that parser_peek of parser/parser.c puts behind the input, and what it counts.
use mrsh.Base.{
  ℕ, zero, suc, ◌-◌, ◌≤◌, ◌<◌, ◌≡◌, refl, ltb, Bool, true, false, if◌then◌else◌, Bool-cases, ltb→lt,
  inl, inr, [], ◌∷◌, ◌++◌, Text, length, length-append, append_assoc, append-nil, take, length-take,
  arith, ◌∙◌, sym, ap,
}
use mathlib.Core.Path.{subst}
use mrsh.Parser.Source.{Origin, Source, peek_more, peeked, parser_peek}
use mrsh.Parser.Source.Shows.{
  remaining, unread, IsOpen, parser_peek-ShowsBytes, peek_more-remaining,
}

-- The whole input: what is unread, and one NUL, which stands in the buffer once the end was met.
abbrev pub input_of : Source → Text
input_of s = if s.eof then unread s else unread s ++ (0 ∷ [])

-- One NUL ends the input, also when it is in the buffer already.
abbrev pub IsEnded : Source → Type 0
IsEnded s = (text' : Text) × (input_of s ≡ text' ++ (0 ∷ []))

take-left : (n : ℕ) (xs ys : Text) → n ≤ length xs → take n (xs ++ ys) ≡ take n xs
take-left zero xs ys h = refl
take-left (suc n) [] ys h = absurd (omega arith)
take-left (suc n) (x ∷ xs) ys h = ap (λ l. x ∷ l) (take-left n xs ys (omega arith))

take-all : (n : ℕ) (xs : Text) → length xs ≤ n → take n xs ≡ xs
take-all zero [] h = refl
take-all zero (x ∷ xs) h = absurd (omega arith)
take-all (suc n) [] h = refl
take-all (suc n) (x ∷ xs) h = ap (λ l. x ∷ l) (take-all n xs (omega arith))

-- The whole input begins with what is unread.
take-input :
    (size : ℕ) (s : Source)
    → size ≤ length (unread s)
    → take size (input_of s) ≡ take size (unread s)
take-input size s h = elim (Bool-cases s.eof) [
  | inl e ↦ rw e refl
  | inr e ↦ rw e (take-left size (unread s) (0 ∷ []) h)
]

-- The count, and the buffer: the first bytes of the input with its NUL, as many as are asked for or all,
-- and the same input afterwards.
abbrev pub Sees : ℕ → Source → ℕ × Source → Type 0
Sees size s r =
    (r.0 ≡ length (take size (input_of s)))
    × (take size r.1.buf ≡ take size (input_of s))
    × (input_of r.1 ≡ input_of s)

-- Enough is in the buffer.
enough-Sees :
    (size : ℕ) (s t : Source)
    → size ≤ length t.buf
    → unread t ≡ unread s
    → t.eof ≡ s.eof
    → Sees size s (size, t)
enough-Sees size s t h same e =
    let long : length t.buf ≤ length (unread t) =
      omega (arith, length-append t.buf (remaining t.origin)) in
    let reaches : size ≤ length (unread t) = omega (arith, h, long) in
    let first : take size (input_of s) ≡ take size t.buf =
      take-input size s (subst (λ l. size ≤ length l) same reaches)
      ∙ (ap (λ l. take size l) (sym same) ∙ take-left size t.buf (remaining t.origin) h) in
    (sym (ap length first ∙ length-take size t.buf h), sym first, rw (same, e) refl)

-- The end was met: the buffer is the whole input.
ended-Sees :
    (size : ℕ) (s : Source) (marked : Text) (left : Origin)
    → marked ≡ input_of s
    → remaining left ≡ []
    → length marked ≤ size
    → Sees size s (length marked, record s { buf = marked; eof = true; origin = left })
ended-Sees size s marked left whole end fits = (
  ap length (sym (take-all size marked fits) ∙ ap (λ l. take size l) whole),
  ap (λ l. take size l) whole,
  rw end (append-nil marked ∙ whole),
)

-- What is marked at the end is the whole input.
marked-input :
    (s : Source) (all : Text)
    → all ≡ unread s
    → (if s.eof then all else all ++ (0 ∷ [])) ≡ input_of s
marked-input s all same = ap (λ l. if s.eof then l else l ++ (0 ∷ [])) same

length-marked :
    (b : Bool) (all : Text) → length (if b then all else all ++ (0 ∷ [])) ≤ suc (length all)
length-marked true all = omega arith
length-marked false all = omega (arith, length-append {0} all (0 ∷ []))

peeked-Sees :
    (size : ℕ) (s : Source) (more : Text) (left : Origin)
    → more ++ remaining left ≡ remaining s.origin
    → (length more < size - length s.buf → remaining left ≡ [])
    → Sees size s (peeked size s (true, more, left))
unfolding peeked
peeked-Sees size s more left same all =
    let joined : (s.buf ++ more) ++ remaining left ≡ unread s =
      append_assoc s.buf more (remaining left) ∙ ap (λ l. s.buf ++ l) same in
    let long = length-append s.buf more in
    elim (Bool-cases (ltb (length more) (size - length s.buf))) [
      | inl e ↦
          let short : length more < size - length s.buf = ltb→lt _ _ e in
          let end : remaining left ≡ [] = all short in
          let whole : s.buf ++ more ≡ unread s =
            sym (append-nil (s.buf ++ more))
            ∙ (ap (λ l. (s.buf ++ more) ++ l) (sym end) ∙ joined) in
          let fits = length-marked s.eof (s.buf ++ more) in
          rw (peeked, e)
            (ended-Sees size s (if s.eof then s.buf ++ more else (s.buf ++ more) ++ (0 ∷ [])) left
              (marked-input s (s.buf ++ more) whole) end (omega (arith, fits, long, short)))
      | inr e ↦
          let enough : size ≤ length (s.buf ++ more) = ground (arith, long, e) in
          rw (peeked, e)
            (enough-Sees size s (record s { buf = s.buf ++ more; origin = left }) enough joined
              refl)
    ]

Sees-bytes : (size : ℕ) (s : Source) → IsOpen s → Sees size s (parser_peek size s)
unfolding parser_peek
Sees-bytes size s flowing = elim (Bool-cases (ltb (length s.buf) size)) [
  | inl e ↦
      let n = size - length s.buf in
      let (good, same, flows, all) = peek_more-remaining n s.origin flowing.0 in
      let more = (peek_more n s.origin).1 in
      let left = (peek_more n s.origin).2 in
      let x : peek_more n s.origin ≡ (true, more, left) = ap (λ b. (b, more, left)) good in
      rw (parser_peek, e, x) (peeked-Sees size s more left same all)
  | inr e ↦
      let enough : size ≤ length s.buf = ground arith in
      rw (parser_peek, e) (enough-Sees size s s enough refl refl)
]

-- The input is what is unread with a NUL behind it, or what is unread once that NUL stands in the
-- buffer. When no read fails and none with an answer is the end of the file, and a NUL ends the input:
-- `parser_peek` returns the number of the bytes that are asked for, or of all that there are with the
-- NUL; so many bytes of the input are the first of the buffer then, into however many pieces `read`
-- cuts it, and with whatever interruptions between them; the input is the same as before, with its NUL
-- once, and the conditions hold again.
pub parser_peek-Sees :
    (size : ℕ) (s : Source)
    → IsOpen s
    → IsEnded s
    → Sees size s (parser_peek size s)
      × IsOpen (parser_peek size s).1
      × IsEnded (parser_peek size s).1
parser_peek-Sees size s flowing ends =
    let sees = Sees-bytes size s flowing in
    (sees, (parser_peek-ShowsBytes size s flowing).2, (ends.0, sees.2 ∙ ends.1))
