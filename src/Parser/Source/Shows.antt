-- ===== src/Parser/Source/Shows.antt =====
-- The buffer of a parser shows the input, however `read` cuts it into pieces.
use mrsh.Base.{
  ℕ, zero, suc, ◌+◌, ◌-◌, ◌<◌, ◌≡◌, refl, ltb, Bool, true, false, if◌then◌else◌, Bool-cases, ltb→lt,
  inl, inr, List, [], ◌∷◌, ◌++◌, Text, length, length-append, get_or, append_assoc, append-nil,
  arith, ◌∙◌, sym, ap,
}
use mrsh.Parser.Source.{
  Answer, bytes, interrupted, failure, Origin, fd, in_buf, no_origin, Source, peek_fd, peek_more,
  peeked, parser_peek,
}

-- The input that a descriptor still has, or a buffer.
unfoldable pub coming : List Answer → Text
coming [] = []
coming (bytes dst ∷ answers) = dst ++ coming answers
coming (interrupted ∷ answers) = coming answers
coming (failure ∷ answers) = coming answers

unfoldable pub remaining : Origin → Text
unfolding coming
remaining (fd answers) = coming answers
remaining (in_buf data') = data'
remaining no_origin = []

-- No read fails, and none that comes with an answer is the end of the file.
abbrev pub Flows : List Answer → Type 0
Flows [] = Unit
Flows (bytes [] ∷ answers) = ⊥
Flows (bytes (c ∷ cs) ∷ answers) = Flows answers
Flows (interrupted ∷ answers) = Flows answers
Flows (failure ∷ answers) = ⊥

abbrev pub FlowsFrom : Origin → Type 0
FlowsFrom (fd answers) = Flows answers
FlowsFrom _ = Unit

-- All that is unread.
abbrev pub unread : Source → Text
unread s = s.buf ++ remaining s.origin

-- At the end of the file nothing is to come.
abbrev pub IsOpen : Source → Type 0
IsOpen s = FlowsFrom s.origin × (s.eof ≡ true → remaining s.origin ≡ [])

-- The bytes read are the next of the input, as many as are wanted, or all.
peek_fd-coming :
    (size n : ℕ) (answers : List Answer)
    → Flows answers
    → ((peek_fd size n answers).0 ≡ true)
      × ((peek_fd size n answers).1 ++ coming (peek_fd size n answers).2 ≡ coming answers)
      × Flows (peek_fd size n answers).2
      × (n + length (peek_fd size n answers).1 < size → (peek_fd size n answers).2 ≡ [])
unfolding peek_fd coming
peek_fd-coming size n [] f = (refl, refl, tt, λ h. refl)
peek_fd-coming size n (interrupted ∷ answers) f = elim (Bool-cases (ltb n size)) [
  | inl e ↦ rw (peek_fd, e) (peek_fd-coming size n answers f)
  | inr e ↦ rw (peek_fd, e) (refl, refl, f, λ h. ground arith)
]
peek_fd-coming size n (bytes [] ∷ answers) f = elim f [ ]
peek_fd-coming size n (failure ∷ answers) f = elim f [ ]
peek_fd-coming size n (bytes (c ∷ cs) ∷ answers) f = elim (Bool-cases (ltb n size)) [
  | inl e ↦
      let (good, same, flows, all) = peek_fd-coming size (n + length (c ∷ cs)) answers f in
      let r = peek_fd size (n + length (c ∷ cs)) answers in
      rw (peek_fd, e)
        (
          good,
          append_assoc (c ∷ cs) r.1 (coming r.2) ∙ ap (λ l. (c ∷ cs) ++ l) same,
          flows,
          λ h. all (omega (arith, length-append (c ∷ cs) r.1)),
        )
  | inr e ↦ rw (peek_fd, e) (refl, refl, f, λ h. ground arith)
]

pub peek_more-remaining :
    (n_more : ℕ) (origin : Origin)
    → FlowsFrom origin
    → ((peek_more n_more origin).0 ≡ true)
      × ((peek_more n_more origin).1 ++ remaining (peek_more n_more origin).2 ≡ remaining origin)
      × FlowsFrom (peek_more n_more origin).2
      × (length (peek_more n_more origin).1 < n_more → remaining (peek_more n_more origin).2 ≡ [])
unfolding peek_more remaining coming
peek_more-remaining n_more (fd answers) f =
    let (good, same, flows, all) = peek_fd-coming n_more 0 answers f in
    (good, same, flows, λ h. rw (all (omega arith)) refl)
peek_more-remaining n_more (in_buf data') f = (refl, append-nil data', tt, λ h. refl)
peek_more-remaining n_more no_origin f = (refl, refl, tt, λ h. refl)

get_or-nul : (xs : Text) (i : ℕ) → get_or (xs ++ 0 ∷ []) i 0 ≡ get_or xs i 0
get_or-nul [] zero = refl
get_or-nul [] (suc i) = refl
get_or-nul (x ∷ xs) zero = refl
get_or-nul (x ∷ xs) (suc i) = get_or-nul xs i

get_or-append_left : (xs ys : Text) (i : ℕ) → i < length xs → get_or (xs ++ ys) i 0 ≡ get_or xs i 0
get_or-append_left [] ys i h = absurd (omega arith)
get_or-append_left (x ∷ xs) ys zero h = refl
get_or-append_left (x ∷ xs) ys (suc i) h = get_or-append_left xs ys i (omega arith)

-- What is seen in the buffer is the input, and what is unread stays the same. Behind the end of the
-- input there are NULs.
abbrev pub ShowsBytes : ℕ → Source → Source → Type 0
ShowsBytes size s t =
    ((i : ℕ) → i < size → get_or t.buf i 0 ≡ get_or (unread s) i 0)
    × ((i : ℕ) → get_or (unread t) i 0 ≡ get_or (unread s) i 0)
    × IsOpen t

append-nil_right : (xs ys : Text) → xs ++ ys ≡ [] → ys ≡ []
append-nil_right [] ys h = h
append-nil_right (x ∷ xs) ys h = cc

-- All is read: the buffer is the input, with a NUL behind it or not.
end-ShowsBytes :
    (size : ℕ) (s : Source) (more : Text) (left : Origin)
    → s.buf ++ more ≡ unread s
    → FlowsFrom left
    → remaining left ≡ []
    → (marked : Bool)
    → ShowsBytes size s (record s {
      buf = if marked then s.buf ++ more else (s.buf ++ more) ++ 0 ∷ [];
      eof = true;
      origin = left;
    })
end-ShowsBytes size s more left whole flows end true = (
  λ i b. ap (λ l. get_or l i 0) whole,
  λ i. rw end (ap (λ l. get_or l i 0) (append-nil (s.buf ++ more) ∙ whole)),
  (flows, λ e. end),
)
end-ShowsBytes size s more left whole flows end false = (
  λ i b. get_or-nul (s.buf ++ more) i ∙ ap (λ l. get_or l i 0) whole,
  λ i. rw end (
      ap (λ l. get_or l i 0) (append-nil ((s.buf ++ more) ++ 0 ∷ []))
      ∙ (get_or-nul (s.buf ++ more) i ∙ ap (λ l. get_or l i 0) whole)),
  (flows, λ e. end),
)

peeked-ShowsBytes :
    (size : ℕ) (s : Source) (more : Text) (left : Origin)
    → (s.eof ≡ true → remaining s.origin ≡ [])
    → more ++ remaining left ≡ remaining s.origin
    → FlowsFrom left
    → (length more < size - length s.buf → remaining left ≡ [])
    → ShowsBytes size s (peeked size s (true, more, left)).1
unfolding peeked
peeked-ShowsBytes size s more left ended same flows all =
    let whole : (s.buf ++ more) ++ remaining left ≡ unread s =
      append_assoc s.buf more (remaining left) ∙ ap (λ l. s.buf ++ l) same in
    elim (Bool-cases (ltb (length more) (size - length s.buf))) [
      | inl e ↦
          let end : remaining left ≡ [] = all (ltb→lt _ _ e) in
          rw (peeked, e)
            (end-ShowsBytes size s more left
              (sym (append-nil (s.buf ++ more))
                ∙ (ap (λ l. (s.buf ++ more) ++ l) (sym end) ∙ whole))
              flows end s.eof)
      | inr e ↦
          rw (peeked, e)
            (
              λ i b.
                  sym (
                    get_or-append_left (s.buf ++ more) (remaining left) i
                      (ground (arith, length-append s.buf more)))
                  ∙ ap (λ l. get_or l i 0) whole,
              λ i. ap (λ l. get_or l i 0) whole,
              (flows, λ done. append-nil_right more (remaining left) (same ∙ ended done)),
            )
    ]

-- `parser_peek` shows the input: each byte within the size that is asked for, and NUL behind the end,
-- stands in the buffer, wherever the input comes from and into however many pieces `read` cuts it, with
-- interruptions between them; the byte at each place of what is unread, NUL behind its end, stays the
-- same. No read fails, and none with an answer is the end of the file.
pub parser_peek-ShowsBytes :
    (size : ℕ) (s : Source) → IsOpen s → ShowsBytes size s (parser_peek size s).1
unfolding parser_peek
parser_peek-ShowsBytes size s flowing = elim (Bool-cases (ltb (length s.buf) size)) [
  | inl e ↦
      let n = size - length s.buf in
      let (good, same, flows, all) = peek_more-remaining n s.origin flowing.0 in
      let more = (peek_more n s.origin).1 in
      let left = (peek_more n s.origin).2 in
      let x : peek_more n s.origin ≡ (true, more, left) = ap (λ b. (b, more, left)) good in
      rw (parser_peek, e, x) (peeked-ShowsBytes size s more left flowing.1 same flows all)
  | inr e ↦
      rw (parser_peek, e)
        (
          λ i b. sym (get_or-append_left s.buf (remaining s.origin) i (ground arith)),
          λ i. refl,
          flowing,
        )
]
