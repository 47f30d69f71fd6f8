-- ===== src/Word/Trim/Laws.antt =====
-- What the removals of shell/task/word.c leave of a string.
use mrsh.Base.{
  ℕ, zero, suc, ◌+◌, ◌≤◌, ◌<◌, ◌≡◌, ◌≢◌, ◌⊎◌, inl, inr, sym, ◌∙◌, ap, leb, Bool, true, false,
  Bool-cases, Text, ◌++◌, str_eq, str_eq_refl, str_eq_sound, length, take, drop, length-append,
  take-append, take-append-drop, arith, none, some, length-drop,
}
use mrsh.Word.Trim.{trim_str, trim_at, trim_up, trim_down, trim_pattern}

prefix_test :
    (cut t : Text)
    → (leb (length cut) (length (cut ++ t)) ≡ true)
      × (str_eq (take (length cut) (cut ++ t)) cut ≡ true)
prefix_test cut t =
    (rw (length-append cut t) (ground arith), rw (take-append cut t) (str_eq_refl cut))

-- Without a pattern the smallest and the largest prefix are the string itself: either the argument
-- is a prefix and what follows it is left, or it is no prefix and the whole is left.
pub trim_str-prefix :
    (str cut : Text)
    → (str ≡ cut ++ trim_str str cut false)
      ⊎ ((trim_str str cut false ≡ str) × ((t : Text) → str ≢ cut ++ t))
unfolding trim_str
trim_str-prefix str cut = elim (Bool-cases (leb (length cut) (length str))) [
  | inr short ↦ inr (
    rw short,
    λ t e. let q = (prefix_test cut t).0 in cc (short, ap (λ s. leb (length cut) (length s)) e, q),
  )
  | inl fits ↦ elim (Bool-cases (str_eq (take (length cut) str) cut)) [
    | inr differs ↦ inr (
      rw (fits, differs),
      λ t e.
          let q = (prefix_test cut t).1 in
          cc (differs, ap (λ s. str_eq (take (length cut) s) cut) e, q),
    )
    | inl same ↦ inl (
        rw (fits, same)
          (sym (take-append-drop (length cut) str)
            ∙ ap (λ p. p ++ drop (length cut) str) (str_eq_sound _ cut same)))
  ]
]

module _ (fnmatch : Text → Text → Bool) (str pattern : Text) where
  trim_at-match :
      (i : ℕ)
      → fnmatch pattern (take i str) ≡ true
      → trim_at fnmatch str pattern false i ≡ some (drop i str)
  unfolding trim_at
  trim_at-match i e = rw e

  trim_at-miss :
      (i : ℕ) → fnmatch pattern (take i str) ≡ false → trim_at fnmatch str pattern false i ≡ none
  unfolding trim_at
  trim_at-miss i e = rw e

  trim_up-first :
      (rounds i k : ℕ)
      → k < rounds
      → ((j : ℕ) → j < k → fnmatch pattern (take (i + j) str) ≡ false)
      → fnmatch pattern (take (i + k) str) ≡ true
      → trim_up fnmatch str pattern false rounds i ≡ drop (i + k) str
  unfolding trim_up
  trim_up-first zero i k h before found = absurd (omega arith)
  trim_up-first (suc rounds) i zero h before found =
      let e : i + 0 ≡ i = omega arith in rw e (rw (trim_at-match i (rw e at found), trim_up))
  trim_up-first (suc rounds) i (suc k) h before found =
      let e : i + 0 ≡ i = omega arith in
      let here = rw e at (before 0 (omega arith)) in
      let shift : (j : ℕ) → i + suc j ≡ suc i + j = λ j. omega arith in
      rw (trim_at-miss i here, trim_up)
        (rw (shift k) (
          trim_up-first rounds (suc i) k (omega arith)
            (λ j lt. rw (shift j) at (before (suc j) (omega arith))) (rw (shift k) at found)))

  -- `${x#pattern}`: if `k`, below the length, is the least length of a prefix that matches, that
  -- prefix is removed.
  pub trim_pattern-smallest_prefix :
      (k : ℕ)
      → k < length str
      → ((j : ℕ) → j < k → fnmatch pattern (take j str) ≡ false)
      → fnmatch pattern (take k str) ≡ true
      → trim_pattern fnmatch str pattern false false ≡ drop k str
  unfolding trim_pattern
  trim_pattern-smallest_prefix k h before found =
      let zero_add : (j : ℕ) → 0 + j ≡ j = λ j. omega arith in
      rw (zero_add k) at (
        trim_up-first (length str) 0 k h (λ j lt. rw (zero_add j) (before j lt))
          (rw (zero_add k) found))

  trim_down-pos :
      (i : ℕ) → i ≤ length str → 0 < length str → 0 < length (trim_down fnmatch str pattern false i)
  unfolding trim_down
  trim_down-pos zero h pos = pos
  trim_down-pos (suc i) h pos = elim (Bool-cases (fnmatch pattern (take i str))) [
    | inl found ↦
        rw (trim_at-match i found, trim_down) (omega (arith, length-drop {0} i str (omega arith)))
    | inr other ↦ rw (trim_at-miss i other, trim_down) (trim_down-pos i (omega arith) pos)
  ]

  -- The loop for the largest prefix never leaves the empty string of a string that is not empty,
  -- whatever the pattern matches: the whole string is not among the prefixes tried.
  pub trim_pattern-largest_prefix_pos :
      0 < length str → 0 < length (trim_pattern fnmatch str pattern false true)
  unfolding trim_pattern
  trim_pattern-largest_prefix_pos pos = trim_down-pos (length str) (omega arith) pos
