-- ===== src/Parser/Source/Advances.antt =====
-- Reading goes on behind the bytes that are read.
use mrsh.Base.{
  ℕ, zero, suc, ◌+◌, ◌-◌, ◌≤◌, ◌≡◌, refl, ltb, Bool, true, false, if◌then◌else◌, Bool-cases, inl,
  inr, [], ◌∷◌, ◌++◌, Text, length, length-append, get_or, take, drop, arith, ◌∙◌, Outcome, ok,
  undefined,
}
use mrsh.Parser.Source.{Origin, Source, peek_more, peeked, parser_peek, has_nul, parser_read}
use mrsh.Parser.Source.Shows.{remaining, unread, IsOpen, parser_peek-ShowsBytes}

peeked-le :
    (size : ℕ) (s : Source) (x : Bool × Text × Origin)
    → (peeked size s x).0 ≤ length (peeked size s x).1.buf
unfolding peeked
peeked-le size s (false, more, left) = omega arith
peeked-le size s (true, more, left) = ground (arith, length-append s.buf more)

-- The bytes counted are in the buffer.
parser_peek-le :
    (size : ℕ) (s : Source) → (parser_peek size s).0 ≤ length (parser_peek size s).1.buf
unfolding parser_peek
parser_peek-le size s = elim (Bool-cases (ltb (length s.buf) size)) [
  | inl e ↦ rw (parser_peek, e) (peeked-le size s (peek_more (size - length s.buf) s.origin))
  | inr e ↦ rw (parser_peek, e) (ground arith)
]

get_or-drop :
    (n : ℕ) (xs ys : Text) (i : ℕ)
    → n ≤ length xs
    → get_or (drop n xs ++ ys) i 0 ≡ get_or (xs ++ ys) (n + i) 0
get_or-drop zero xs ys i h = let e : i ≡ 0 + i = omega arith in rw (← e) refl
get_or-drop (suc n) [] ys i h = absurd (omega arith)
get_or-drop (suc n) (x ∷ xs) ys i h =
    let e : suc (n + i) ≡ suc n + i = omega arith in rw (← e) (get_or-drop n xs ys i (omega arith))

read_parts :
    (nul : Bool) (r : ℕ × Source) (n : ℕ) (t : Source)
    → if◌then◌else◌ {A = Outcome (ℕ × Source)} nul undefined
        (ok (r.0, record (r.1) { buf = drop r.0 r.1.buf }))
      ≡ ok (n, t)
    → (r.0 ≡ n) × (record (r.1) { buf = drop r.0 r.1.buf } ≡ t)
read_parts true r n t e = cc
read_parts false r n t e = (cc, cc)

-- When no read fails and none with an answer is the end of the file: behind a read that succeeds with
-- `n`, the byte at each place of what is unread is the one `n` places further on before it.
pub parser_read-advances :
    (size n : ℕ) (s t : Source)
    → IsOpen s
    → parser_read size s ≡ ok (n, t)
    → ((i : ℕ) → get_or (unread t) i 0 ≡ get_or (unread s) (n + i) 0) × IsOpen t
unfolding parser_read
parser_read-advances size n s t flowing e =
    let r = parser_peek size s in
    let (seen, same, flows) = parser_peek-ShowsBytes size s flowing in
    let (count, left) = read_parts (has_nul (take r.0 r.1.buf)) r n t e in
    rw (← count, ← left)
      (
        λ i.
            get_or-drop r.0 r.1.buf (remaining r.1.origin) i (parser_peek-le size s)
            ∙ same (r.0 + i),
        flows,
      )
