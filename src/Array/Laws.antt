-- ===== src/Array/Laws.antt =====
-- What `mrsh_array_add` does to the values that an array holds.
use mrsh.Base.{
  ℕ, ◌+◌, ◌%◌, ◌^◌, ◌≤◌, ◌<◌, ◌≡◌, refl, leb, ◌==◌, true, false, failed, Returns, Outcome, ok, none,
  some, List, [], ◌∷◌, ◌++◌, take, length, arith, Option-cases, inl, inr, ◌⊎◌, take-take,
  Bool-cases, ◌∙◌, sym, ap,
}
use mrsh.Memory.{Realloc, IsRealloc, memcpy-Returns}
use mrsh.Buffer.{size_max}
use mrsh.Array.{Array, cells, larger_cap, reserve, put_last, add}

-- `cap` counts the cells of the block, and the values fit.
pub record IsValid {ℓ} {A : Type ℓ} (array : Array A) : Type ℓ where
  pub sized : length array.data' ≡ array.cap
  pub fits : array.len ≤ array.cap

-- The values that the array holds.
abbrev pub contents {ℓ} : {A : Type ℓ} → Array A → List A
contents array = take array.len array.data'

larger_cap-lt : (cap : ℕ) → cap < 2 ^ 60 → cap < larger_cap cap
unfolding larger_cap
larger_cap-lt cap h = ground arith

larger_cap-cells : (cap : ℕ) → cap < 2 ^ 60 → cells (larger_cap cap) ≡ larger_cap cap
unfolding larger_cap
larger_cap-cells cap h = ground arith

larger_cap-bound : (cap : ℕ) → larger_cap cap < size_max
unfolding larger_cap
larger_cap-bound cap = ground arith

module _ {ℓ} {A : Type ℓ} (realloc : Realloc A) (law : IsRealloc realloc) where
  -- The value is behind those of `array` in what the call leaves.
  abbrev pub Adds : Array A → A → Outcome (ℕ × Array A) → Type ℓ
  Adds array value call =
      Returns {A = ℕ × Array A} call
        λ r. (r.0 ≡ array.len) × IsValid r.1 × (contents r.1 ≡ contents array ++ value ∷ [])

  -- A value is written into an array that has room.
  put_last-Adds :
      (array : Array A) (value : A)
      → IsValid array
      → array.len < array.cap
      → array.cap < size_max
      → Adds array value (put_last realloc array value)
  unfolding put_last
  put_last-Adds array value v room small =
      let (written, e, (size, same)) =
        memcpy-Returns array.data' array.len (value ∷ []) (omega (arith, v.sized)) in
      let next : (array.len + 1) % size_max ≡ array.len + 1 = omega arith in
      (
        (array.len, record array { data' = written; len = (array.len + 1) % size_max }),
        rw e refl,
        (refl, record { sized = size ∙ v.sized; fits = omega arith }, rw next same),
      )

  -- The values stay when the block grows.
  kept :
      (array : Array A) (block : List A)
      → IsValid array
      → realloc array.data' (larger_cap array.cap) ≡ some block
      → array.cap < larger_cap array.cap
      → take array.len block ≡ contents array
  kept array block v got grows =
      sym (take-take array.len (length array.data') block (omega (arith, v.fits, v.sized)))
      ∙ ap (take array.len)
          (law.keeps array.data' (larger_cap array.cap) block (omega (arith, v.sized)) got)

  -- A call of `mrsh_array_add` on a valid array with less than 2^60 cells: it fails when the array is
  -- full and the allocator gives no larger block, and returns the old length otherwise, with the value
  -- behind the values of before, in a valid array.
  pub add-contents :
      (array : Array A) (value : A)
      → IsValid array
      → array.cap < 2 ^ 60
      → ((add realloc array value ≡ failed)
          × (array.len ≡ array.cap)
          × (realloc array.data' (larger_cap array.cap) ≡ none))
        ⊎ Adds array value (add realloc array value)
  unfolding add reserve
  add-contents array value v small =
      let fits : leb array.len array.cap ≡ true = ground (arith, v.fits) in
      let asked : cells (larger_cap array.cap) ≡ larger_cap array.cap =
        larger_cap-cells array.cap small in
      let grows : array.cap < larger_cap array.cap = larger_cap-lt array.cap small in
      let more : leb (larger_cap array.cap) array.cap ≡ false = ground arith in
      elim (Bool-cases (array.len == array.cap)) [
        | inr room ↦ inr (
            rw (add, fits, room)
              (put_last-Adds array value v (ground (arith, v.fits)) (omega arith)))
        | inl full ↦
            let all : array.len ≡ array.cap = ground arith in
            elim (Option-cases (realloc array.data' (larger_cap array.cap))) [
              | inl null ↦
                  let fails : reserve realloc array (larger_cap array.cap) ≡ failed =
                    rw (reserve, more, asked, null) refl in
                  inl (rw (add, fits, full, fails) refl, all, null)
              | inr (block, got) ↦
                  let roomy = record array { data' = block; cap = larger_cap array.cap } in
                  let given : reserve realloc array (larger_cap array.cap) ≡ ok roomy =
                    rw (reserve, more, asked, got) refl in
                  let (i, called, (at, valid, holds)) =
                    put_last-Adds roomy value
                      (record { sized = law.size _ _ _ got; fits = omega (arith, v.fits) })
                      (omega arith) (larger_cap-bound array.cap) in
                  inr (
                    i,
                    rw (add, fits, full, given) called,
                    (at, valid, holds ∙ ap (λ l. l ++ value ∷ []) (kept array block v got grows)),
                  )
            ]
      ]
