-- ===== src/Memory.antt =====
-- What the containers use of the C library: `realloc`, and `memcpy` into a block. A block is the
-- list of its cells; its length is the size allocated.
use mrsh.Base.{
  ℕ, ◌+◌, ◌≤◌, ◌≡◌, ◌∙◌, ap, leb, if◌then◌else◌, Outcome, ok, undefined, Returns, Option, some,
  List, ◌++◌, length, take, drop, arith, take_prefix, length-take, length-drop, length-append,
  append_assoc,
}

-- `realloc(block, cells)`, where `none` is NULL. What the new cells hold is the allocator's choice.
abbrev pub Realloc {ℓ} : Type ℓ → Type ℓ
Realloc A = List A → ℕ → Option (List A)

-- The documented behaviour of `realloc` on a growing block: it has the requested size, and the old
-- contents are kept.
pub record IsRealloc {ℓ} {A : Type ℓ} (realloc : Realloc A) : Type ℓ where
  pub size : (b : List A) (n : ℕ) (b' : List A) → realloc b n ≡ some b' → length b' ≡ n
  pub keeps :
      (b : List A) (n : ℕ) (b' : List A)
      → length b ≤ n
      → realloc b n ≡ some b'
      → take (length b) b' ≡ b

module _ {ℓ} {A : Type ℓ} where
  -- `memcpy(&block[offset], src, n)` for `src` of `n` cells: undefined out of bounds.
  unfoldable pub memcpy : List A → ℕ → List A → Outcome (List A)
  memcpy block offset src =
      if leb (offset + length src) (length block)
      then ok (take offset block ++ (src ++ drop (offset + length src) block))
      else undefined

  -- A write that ends within the block succeeds, keeps the size, and puts `src` behind the cells
  -- below the offset.
  pub memcpy-Returns :
      (block : List A) (offset : ℕ) (src : List A)
      → offset + length src ≤ length block
      → Returns
          (memcpy block offset src)
          λ b. (length b ≡ length block) × (take (offset + length src) b ≡ take offset block ++ src)
  unfolding memcpy
  memcpy-Returns block offset src h =
      let rest = drop (offset + length src) block in
      let front = take offset block ++ src in
      let long : length front ≡ offset + length src =
        length-append (take offset block) src
        ∙ ap (λ k. k + length src) (length-take offset block (omega arith)) in
      (
        take offset block ++ (src ++ rest),
        ground arith,
        (
          rw (← append_assoc)
              (rw (length-append) (omega (arith, length-drop (offset + length src) block h))),
          rw (← append_assoc) (take_prefix _ front rest long),
        ),
      )
