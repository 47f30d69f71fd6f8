-- ===== src/Buffer.antt =====
-- A growable byte buffer: buffer.c and include/mrsh/buffer.h. A pointer into the data is its offset.
pub mod Laws
use mrsh.Base.{
  ℕ, ◌+◌, ◌*◌, ◌%◌, ◌^◌, ◌==◌, ltb, if◌then◌else◌, Outcome, ok, failed, ◌>>=◌, none, some, List, [],
  ◌∷◌, take,
}
use mrsh.Memory.{Realloc, memcpy}

-- `data` holds all the cells that are allocated, used or not.
pub record Buffer : Type 0 where
  pub data' : List ℕ
  pub len : ℕ
  pub cap : ℕ

abbrev pub empty : Buffer
empty = record { data' = []; len = 0; cap = 0 }

-- `size_t` arithmetic is modulo this.
abbrev pub size_max : ℕ
size_max = 2 ^ 64

-- The capacity asked for when `new_len` does not fit.
unfoldable pub grown_cap : ℕ → ℕ → ℕ
grown_cap cap new_len =
    let doubled = 2 * cap % size_max in
    let new_cap = if doubled == 0 then 32 else doubled in
    if ltb new_cap new_len then new_len else new_cap

module _ (realloc : Realloc ℕ) where
  -- The result is the offset of the end of the contents, and the buffer.
  unfoldable pub reserve : Buffer → ℕ → Outcome (ℕ × Buffer)
  reserve buf size =
      let new_len = (buf.len + size) % size_max in
      if ltb buf.cap new_len
      then elim (realloc buf.data' (grown_cap buf.cap new_len)) [
        | none ↦ failed
        | some new_buf ↦
            ok (buf.len, record buf { data' = new_buf; cap = grown_cap buf.cap new_len })
      ]
      else ok (buf.len, buf)

  unfoldable pub add : Buffer → ℕ → Outcome (ℕ × Buffer)
  add buf size = do
    (data', buf') ← reserve buf size
    ok (data', record buf' { len = (buf'.len + size) % size_max })

  -- `data` has at least `size` bytes.
  unfoldable pub append : Buffer → List ℕ → ℕ → Outcome Buffer
  append buf bytes size = do
    (dst, buf') ← add buf size
    written ← memcpy buf'.data' dst (take size bytes)
    ok (record buf' { data' = written })

  unfoldable pub append_char : Buffer → ℕ → Outcome Buffer
  append_char buf c = do
    (dst, buf') ← add buf 1
    written ← memcpy buf'.data' dst (c ∷ [])
    ok (record buf' { data' = written })

-- The data pointer, and the buffer reset.
unfoldable pub steal : Buffer → List ℕ × Buffer
steal buf = (buf.data', empty)

unfoldable pub finish : Buffer → Buffer
finish buf = empty
