-- ===== src/Array.antt =====
-- A growable array of pointers: array.c and include/mrsh/array.h. A pointer is any value.
pub mod Laws
use mrsh.Base.{
  ℕ, ◌+◌, ◌*◌, ◌/◌, ◌%◌, ◌==◌, ltb, leb, not, if◌then◌else◌, Outcome, ok, failed, undefined, ◌>>=◌,
  none, some, List, [], ◌∷◌,
}
use mrsh.Memory.{Realloc, memcpy}
use mrsh.Buffer.{size_max}

-- `data` holds all the cells that are allocated, used or not.
pub record Array {ℓ} (A : Type ℓ) : Type ℓ where
  pub data' : List A
  pub len : ℕ
  pub cap : ℕ

abbrev pub initial_size : ℕ
initial_size = 8

-- The cells in `new_cap * sizeof(void *)` bytes.
abbrev pub cells : ℕ → ℕ
cells new_cap = new_cap * 8 % size_max / 8

unfoldable pub larger_cap : ℕ → ℕ
larger_cap cap =
    let new_cap = 2 * cap % size_max in if ltb new_cap initial_size then initial_size else new_cap

module _ {ℓ} {A : Type ℓ} (realloc : Realloc A) where
  unfoldable pub reserve : Array A → ℕ → Outcome (Array A)
  reserve array new_cap =
      if leb new_cap array.cap then ok array else elim (realloc array.data' (cells new_cap)) [
        | none ↦ failed
        | some new_data ↦ ok (record array { data' = new_data; cap = new_cap })
      ]

  -- The end of `mrsh_array_add`. The result is the index of the value.
  unfoldable pub put_last : Array A → A → Outcome (ℕ × Array A)
  put_last array value = do
    written ← memcpy array.data' array.len (value ∷ [])
    ok (array.len, record array { data' = written; len = (array.len + 1) % size_max })

  -- The assertion comes first.
  unfoldable pub add : Array A → A → Outcome (ℕ × Array A)
  unfolding reserve larger_cap put_last
  add array value =
      if not (leb array.len array.cap)
      then undefined
      else (if array.len == array.cap
          then (reserve array (larger_cap array.cap) >>= λ roomy. put_last roomy value)
          else put_last array value)

-- The cells are freed; the pointer to them, which the program leaves in place, is not modelled.
unfoldable pub finish {ℓ} : {A : Type ℓ} → Array A → Array A
finish array = record { data' = []; len = 0; cap = 0 }
