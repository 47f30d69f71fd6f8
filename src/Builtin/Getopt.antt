-- ===== src/Builtin/Getopt.antt =====
-- The option parser of the built-in utilities, getopt.c, and the loop that they run it in. Messages
-- are left out, and with them `_mrsh_opterr`.
pub mod Laws
pub mod Words
use mrsh.Base.{
  ℕ, zero, suc, ◌+◌, ◌==◌, ltb, Bool, true, false, not, if◌then◌else◌, Outcome, ok, failed,
  undefined, ◌>>=◌, List, [], ◌∷◌, Option, none, some, Text, length, get_elem?, drop,
}

-- `_mrsh_optarg`, `_mrsh_optind`, `_mrsh_optopt` and `_mrsh_optpos`.
pub record Getopt : Type 0 where
  pub optarg : Option Text
  pub optind : ℕ
  pub optopt : ℕ
  pub optpos : ℕ

-- The byte at an index, the NUL included; behind it nothing may be read.
unfoldable pub char_at : Text → ℕ → Outcome ℕ
char_at [] zero = ok 0
char_at [] (suc i) = undefined
char_at (c ∷ str) zero = ok c
char_at (c ∷ str) (suc i) = char_at str i

abbrev pub begins_with : ℕ → Text → Bool
begins_with c [] = false
begins_with c (d ∷ str) = d == c

abbrev pub skip_colon : Text → Text
skip_colon [] = []
skip_colon (c ∷ str) = if c == b':' then str else c ∷ str

-- Whether an option has an argument, if there is such an option.
unfoldable pub find_option : Text → ℕ → Option Bool
find_option [] opt = none
find_option (c ∷ str) opt = if c == opt then some (begins_with b':' str) else find_option str opt

-- The end of `_mrsh_getopt` for an option at `optpos` of `word`, with the byte behind it.
unfoldable pub option_found : List Text → Text → Text → Getopt → ℕ → Bool → ℕ → Option ℕ × Getopt
option_found argv optstring word g opt false behind = (
  some opt,
  if behind == 0
      then record g { optind = g.optind + 1; optpos = 1 }
      else record g { optpos = g.optpos + 1 },
)
option_found argv optstring word g opt true behind =
    if not (behind == 0)
    then (some opt, record g { optarg = some (drop (g.optpos + 1) word); optind = g.optind + 1 })
    else elim (get_elem? argv (g.optind + 1)) [
      | none ↦ (some (if begins_with b':' optstring then b':' else b'?'), record g { optopt = opt })
      | some arg ↦ (some opt, record g { optarg = some arg; optind = g.optind + 2 })
    ]

unfoldable pub in_word : List Text → Text → Text → Getopt → Outcome (Option ℕ × Getopt)
unfolding char_at find_option option_found
in_word argv optstring word g = char_at word g.optpos >>= λ opt.
    elim (find_option (skip_colon optstring) opt) [
      | none ↦ ok (some b'?', g)
      | some has_arg ↦ char_at word (g.optpos + 1) >>= λ behind.
          ok (option_found argv optstring word g opt has_arg behind)
    ]

-- `_mrsh_getopt` behind its first assignments.
unfoldable pub getopt_from : List Text → Text → Getopt → Outcome (Option ℕ × Getopt)
unfolding in_word
getopt_from argv optstring g = elim (get_elem? argv g.optind) [
  | none ↦ ok (none, g)
  | some word ↦ if not (begins_with b'-' word) then ok (none, g) else elim (drop 1 word) [
    | [] ↦ ok (none, g)
    | c ∷ rest ↦
        if c == b'-'
        then ok (none, record g { optind = g.optind + 1 })
        else in_word argv optstring word (record g { optopt = 0 })
  ]
]

unfoldable pub restarted : Getopt → Getopt
restarted g =
    if g.optind == 0
    then record g { optarg = none; optind = 1; optpos = 1 }
    else record g { optarg = none }

-- `none` is -1. `argc` is the length of `argv`.
unfoldable pub getopt : List Text → Text → Getopt → Outcome (Option ℕ × Getopt)
unfolding getopt_from restarted
getopt argv optstring g = getopt_from argv optstring (restarted g)

-- `while ((opt = _mrsh_getopt(...)) != -1) switch (opt)`: the loop of a utility ends with all options
-- read, or in the `default` branch of the switch. The fuel bounds its rounds.
pub data Options {ℓ} (S : Type ℓ) : Type ℓ where
  all_read : S → Getopt → Options S
  rejected : Getopt → Options S
  aborted out_of_fuel : Options S

unfoldable pub each_option {ℓ} :
    {S : Type ℓ} → (ℕ → S → Option S) → ℕ → List Text → Text → S → Getopt → Options S
unfolding getopt
each_option switch zero argv optstring s g = out_of_fuel
each_option switch (suc fuel) argv optstring s g = elim (getopt argv optstring g) [
  | failed ↦ aborted
  | undefined ↦ aborted
  | ok r ↦ elim r.0 [
    | none ↦ all_read s r.1
    | some opt ↦ elim (switch opt s) [
      | none ↦ rejected r.1
      | some t ↦ each_option switch fuel argv optstring t r.1
    ]
  ]
]
