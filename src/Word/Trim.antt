-- ===== src/Word/Trim.antt =====
-- Removal of a prefix or suffix: `trim_str` and `trim_pattern` of shell/task/word.c.
pub mod Laws
use mrsh.Base.{
  ℕ, zero, suc, ◌+◌, ◌-◌, ◌≤◌, ◌<◌, ◌≡◌, refl, leb, ◌&&◌, not, Bool, true, false, if◌then◌else◌,
  Text, List, [], ◌∷◌, ◌++◌, str_eq, str_eq_refl, length, take, drop, length-append, take-append,
  arith, Option, none, some, length-drop,
}

unfoldable pub trim_str : Text → Text → Bool → Text
trim_str str cut suffix =
    let len = length str in
    let cut_len = length cut in
    if leb cut_len len
    then (if not suffix && str_eq (take cut_len str) cut
        then drop cut_len str
        else (if suffix && str_eq (drop (len - cut_len) str) cut
            then take (len - cut_len) str
            else str))
    else str

-- From the C library: `fnmatch(pattern, string, 0) == 0`.
module _ (fnmatch : Text → Text → Bool) where
  -- One round of the loop of `trim_pattern`, at position `i`.
  trim_at : Text → Text → Bool → ℕ → Option Text
  trim_at str pattern suffix i =
      let matched = if suffix then drop i str else take i str in
      let trimmed = if suffix then take i str else drop i str in
      if fnmatch pattern matched then some trimmed else none

  -- The rounds from `i` upwards.
  trim_up : Text → Text → Bool → ℕ → ℕ → Text
  trim_up str pattern suffix zero i = str
  trim_up str pattern suffix (suc rounds) i = elim (trim_at str pattern suffix i) [
    | some result ↦ result
    | none ↦ trim_up str pattern suffix rounds (suc i)
  ]

  -- The rounds from `i - 1` down to 0.
  trim_down : Text → Text → Bool → ℕ → Text
  trim_down str pattern suffix zero = str
  trim_down str pattern suffix (suc i) = elim (trim_at str pattern suffix i) [
    | some result ↦ result
    | none ↦ trim_down str pattern suffix i
  ]

  unfoldable pub trim_pattern : Text → Text → Bool → Bool → Text
  unfolding trim_at trim_up trim_down
  trim_pattern str pattern false false = trim_up str pattern false (length str) 0
  trim_pattern str pattern true true = trim_up str pattern true (length str) 0
  trim_pattern str pattern false true = trim_down str pattern false (length str)
  trim_pattern str pattern true false = trim_down str pattern true (length str)
