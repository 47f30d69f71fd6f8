-- ===== src/Parser/Source.antt =====
-- Where the input of a parser comes from: the constructors of `struct mrsh_parser`, `parser_peek` and
-- `parser_read` of parser/parser.c. What `read` answers, call by call, is a list; behind its end it
-- answers 0, the end of the file.
pub mod Shows
pub mod Advances
pub mod Marked
use mrsh.Base.{
  ℕ, zero, suc, ◌+◌, ◌-◌, ◌≡◌, ◌==◌, ltb, leb, ◌||◌, Bool, true, false, not, if◌then◌else◌, Outcome,
  ok, failed, undefined, ◌>>=◌, List, [], ◌∷◌, ◌++◌, Option, none, some, Text, text, length, take,
  drop,
}

-- A count of bytes, with the bytes, -1 with EINTR, or -1 with another error.
pub data Answer : Type 0 where
  bytes : Text → Answer
  interrupted failure : Answer

-- A descriptor, a buffer that the caller fills, or neither.
pub data Origin : Type 0 where
  fd : List Answer → Origin
  in_buf : Text → Origin
  no_origin : Origin

pub record Source : Type 0 where
  pub buf : Text
  pub eof : Bool
  pub origin : Origin
  pub error : Option Text

abbrev pub parser_with_fd : List Answer → Source
parser_with_fd answers = record { buf = []; eof = false; origin = fd answers; error = none }

-- The data with a NUL behind it.
abbrev pub parser_with_data : Text → Source
parser_with_data data' = record {
  buf = data' ++ 0 ∷ [];
  eof = false;
  origin = no_origin;
  error = none;
}

abbrev pub parser_with_buffer : Text → Source
parser_with_buffer data' = record { buf = []; eof = false; origin = in_buf data'; error = none }

-- The loop of `parser_peek_fd`: whether no read failed, the bytes that are added to the buffer, and the
-- answers that are left. `n_read` is their number so far.
unfoldable pub peek_fd : ℕ → ℕ → List Answer → Bool × Text × List Answer
peek_fd size n_read [] = (true, [], [])
peek_fd size n_read (answer ∷ answers) =
    let again = peek_fd size n_read answers in
    if not (ltb n_read size) then (true, [], answer ∷ answers) else elim answer [
      | interrupted ↦ again
      | failure ↦ (false, [], answers)
      | bytes dst ↦ elim dst [
        | [] ↦ (true, [], answers)
        | c ∷ cs ↦
            let r = peek_fd size (n_read + length (c ∷ cs)) answers in (r.0, (c ∷ cs) ++ r.1, r.2)
      ]
    ]

-- What is read when `n_more` bytes are wanted.
unfoldable pub peek_more : ℕ → Origin → Bool × Text × Origin
unfolding peek_fd
peek_more n_more (fd answers) =
    let (good, more, left) = peek_fd n_more 0 answers in (good, more, fd left)
peek_more n_more (in_buf data') = (true, data', in_buf [])
peek_more n_more no_origin = (true, [], no_origin)

abbrev set_error : Text → Option Text → Option Text
set_error msg none = some msg
set_error msg (some first) = some first

-- The end of `parser_peek`, with what was read.
unfoldable pub peeked : ℕ → Source → Bool × Text × Origin → ℕ × Source
peeked size s (false, more, left) = (
  0,
  record s {
    buf = s.buf ++ more;
    origin = left;
    error = set_error (text "failed to read") s.error;
  },
)
peeked size s (true, more, left) =
    let all = s.buf ++ more in
    if ltb (length more) (size - length s.buf)
    then (let marked = if s.eof then all else all ++ 0 ∷ [] in
        (length marked, record s { buf = marked; eof = true; origin = left }))
    else (size, record s { buf = all; origin = left })

-- The number of bytes that can be seen; they are the first of the buffer.
unfoldable pub parser_peek : ℕ → Source → ℕ × Source
unfolding peek_more peeked
parser_peek size s =
    if ltb (length s.buf) size
    then peeked size s (peek_more (size - length s.buf) s.origin)
    else (size, s)

unfoldable pub has_nul : Text → Bool
has_nul [] = false
has_nul (c ∷ cs) = c == 0 || has_nul cs

-- The bytes that are read are asserted not to be NUL.
unfoldable pub parser_read : ℕ → Source → Outcome (ℕ × Source)
unfolding parser_peek has_nul
parser_read size s =
    let (n, t) = parser_peek size s in
    if has_nul (take n t.buf) then undefined else ok (n, record t { buf = drop n t.buf })
