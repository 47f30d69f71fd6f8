-- ===== src/Buffer/Laws.antt =====
-- What the operations of buffer.c do to the bytes that a buffer holds.
use mrsh.Base.{
  ℕ, ◌+◌, ◌%◌, ◌≤◌, ◌<◌, ◌≡◌, refl, ltb, failed, Returns, none, List, ◌++◌, take, length, arith,
  Option-cases, inl, inr, ◌⊎◌, take-take, length-take, Bool-cases, ◌>>=◌, ◌∙◌, sym, ap,
}
use mrsh.Memory.{Realloc, IsRealloc, memcpy-Returns}
use mrsh.Buffer.{Buffer, size_max, grown_cap, reserve, add, append}

-- `cap` counts the cells of the block, and the contents fit.
pub record IsValid (buf : Buffer) : Type 0 where
  pub sized : length buf.data' ≡ buf.cap
  pub fits : buf.len ≤ buf.cap

-- The bytes that the buffer holds.
abbrev pub contents : Buffer → List ℕ
contents buf = take buf.len buf.data'

grown_cap-ge : (cap new_len : ℕ) → new_len ≤ grown_cap cap new_len
unfolding grown_cap
grown_cap-ge cap new_len = ground arith

-- What a call of `reserve` or `add` leaves: a valid buffer with the same bytes below the old end.
pub record Kept (before after : Buffer) : Type 0 where
  pub valid : IsValid after
  pub same : take before.len after.data' ≡ contents before

module _ (realloc : Realloc ℕ) (law : IsRealloc realloc) where
  -- `reserve` fails exactly when the allocator does; otherwise there is room behind the contents.
  reserve-cases :
      (buf : Buffer) (size : ℕ)
      → IsValid buf
      → buf.len + size < size_max
      → (reserve realloc buf size ≡ failed)
          × (realloc buf.data' (grown_cap buf.cap (buf.len + size)) ≡ none)
        ⊎ Returns
            (reserve realloc buf size)
            λ r. (r.0 ≡ buf.len) × (r.1.len ≡ buf.len) × (buf.len + size ≤ r.1.cap) × Kept buf r.1
  unfolding reserve
  reserve-cases buf size valid small =
      let m = (buf.len + size) % size_max in
      let e : m ≡ buf.len + size = omega arith in
      elim (Bool-cases (ltb buf.cap m)) [
        | inr room ↦ inr (
          (buf.len, buf),
          rw room,
          (refl, refl, ground arith, record { valid = valid; same = refl }),
        )
        | inl full ↦ elim (Option-cases (realloc buf.data' (grown_cap buf.cap m))) [
          | inl null ↦ inl (rw (full, null), rw e at null)
          | inr (block, got) ↦
              let wide : length block ≡ grown_cap buf.cap m = law.size _ _ _ got in
              let room : m ≤ grown_cap buf.cap m = grown_cap-ge _ _ in
              let old : take (length buf.data') block ≡ buf.data' =
                law.keeps _ _ _ (ground arith) got in
              inr (
                (buf.len, record buf { data' = block; cap = grown_cap buf.cap m }),
                rw (full, got),
                (
                  refl,
                  refl,
                  omega arith,
                  record {
                    valid = record { sized = wide; fits = omega arith };
                    same =
                        sym (take-take buf.len (length buf.data') block (omega arith))
                        ∙ ap (take buf.len) old;
                  },
                ),
              )
        ]
      ]

  add-cases :
      (buf : Buffer) (size : ℕ)
      → IsValid buf
      → buf.len + size < size_max
      → (add realloc buf size ≡ failed)
          × (realloc buf.data' (grown_cap buf.cap (buf.len + size)) ≡ none)
        ⊎ Returns
            (add realloc buf size)
            λ r. (r.0 ≡ buf.len) × (r.1.len ≡ buf.len + size) × Kept buf r.1
  unfolding add
  add-cases buf size valid small = elim (reserve-cases buf size valid small) [
    | inl (e, null) ↦ inl (rw e, null)
    | inr ((dst, r), e, (at_end, kept_len, room, kept)) ↦ inr (
      (dst, record r { len = (r.len + size) % size_max }),
      rw e,
      (
        at_end,
        omega arith,
        record {
          valid = record { sized = kept.valid.sized; fits = omega arith };
          same = kept.same;
        },
      ),
    )
  ]

  -- With a `realloc` that behaves as documented, no more bytes asked for than there are and a
  -- length that fits `size_t`, appending to a valid buffer fails when the allocator refuses the
  -- grown block, and otherwise yields a valid buffer that holds the old bytes followed by the first
  -- `size` new ones. The write is never out of bounds.
  pub append-contents :
      (buf : Buffer) (bytes : List ℕ) (size : ℕ)
      → IsValid buf
      → size ≤ length bytes
      → buf.len + size < size_max
      → (append realloc buf bytes size ≡ failed)
          × (realloc buf.data' (grown_cap buf.cap (buf.len + size)) ≡ none)
        ⊎ Returns
            (append realloc buf bytes size)
            λ r. IsValid r × (contents r ≡ contents buf ++ take size bytes)
  unfolding append
  append-contents buf bytes size valid enough small = elim (add-cases buf size valid small) [
    | inl (e, null) ↦ inl (rw e, null)
    | inr ((dst, r), e, (at_end, grown, kept)) ↦
        let src = take size bytes in
        let n : length src ≡ size = length-take size bytes enough in
        let (block, wrote, (same_size, front)) =
          memcpy-Returns r.data' dst src (omega (arith, kept.valid.sized, kept.valid.fits)) in
        inr (
          record r { data' = block },
          rw (e, ◌>>=◌, wrote),
          (
            record { sized = same_size ∙ kept.valid.sized; fits = kept.valid.fits },
            ap (λ k. take k block) {x = r.len} {y = dst + length src} (omega arith)
                ∙ front
                ∙ ap (λ k. take k r.data' ++ src) at_end
                ∙ ap (λ l. l ++ src) kept.same,
          ),
        )
  ]
