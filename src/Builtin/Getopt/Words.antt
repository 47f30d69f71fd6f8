-- ===== src/Builtin/Getopt/Words.antt =====
-- The words in front of the operands of a utility are read as options.
use mrsh.Base.{
  ℕ, zero, suc, ◌+◌, ◌-◌, ◌<◌, ◌≡◌, refl, ap, sym, ◌∙◌, ◌==◌, false, Option-cases, inl, inr, List,
  [], ◌∷◌, ◌++◌, Option, none, some, Text, length, get_elem?, arith, append_assoc, length-append,
  ok,
}
use mrsh.Builtin.Getopt.{Getopt, begins_with, getopt, getopt_from, all_read, each_option}
use mrsh.Builtin.Getopt.Laws.{
  run_letters, AreFlags, place, letters_read, getopt_in, getopt_first, restarted-place,
  restarted-first,
}

abbrev pub dashed : List Text → List Text
dashed [] = []
dashed (letters ∷ groups) = (b'-' ∷ letters) ∷ dashed groups

-- Groups of letters for options without arguments; none is empty or begins with a dash.
abbrev pub AreGroups : Text → List Text → Type 0
AreGroups optstring [] = Unit
AreGroups optstring ([] ∷ groups) = ⊥
AreGroups optstring ((c ∷ cs) ∷ groups) =
    ((c == b'-') ≡ false) × AreFlags optstring (c ∷ cs) × AreGroups optstring groups

unfoldable pub run_groups {ℓ} : {S : Type ℓ} → (ℕ → S → Option S) → List Text → S → Option S
unfolding run_letters
run_groups switch [] s = some s
run_groups switch (letters ∷ groups) s = elim (run_letters switch letters s) [
  | none ↦ none
  | some t ↦ run_groups switch groups t
]

abbrev pub letter_count : List Text → ℕ
letter_count [] = 0
letter_count (letters ∷ groups) = length letters + letter_count groups

-- No options are left, or the next word does not begin with a dash.
abbrev pub Stopped : List Text → Type 0
Stopped [] = Unit
Stopped (word ∷ rest) = begins_with b'-' word ≡ false

get_elem?-append :
    (before rest : List Text) → get_elem? (before ++ rest) (length before) ≡ get_elem? rest 0
get_elem?-append [] rest = refl
get_elem?-append (w ∷ before) rest = get_elem?-append before rest

getopt_stops :
    (argv rest : List Text) (optstring : Text) (g : Getopt)
    → get_elem? argv g.optind ≡ get_elem? rest 0
    → Stopped rest
    → getopt_from argv optstring g ≡ ok (none, g)
unfolding getopt_from
getopt_stops argv [] optstring g e h = rw (getopt_from, e) refl
getopt_stops argv (w ∷ rest) optstring g e h = rw (getopt_from, e, h) refl

first_group {ℓ} :
    {S : Type ℓ} (switch : ℕ → S → Option S) (letters : Text) (groups : List Text) (s t : S)
    → run_groups switch (letters ∷ groups) s ≡ some t
    → (u : S) × (run_letters switch letters s ≡ some u) × (run_groups switch groups u ≡ some t)
unfolding run_groups
first_group switch letters groups s t r = elim (Option-cases (run_letters switch letters s)) [
  | inl e ↦ absurd (
      none_some
        (ap (λ o. elim o [ none ↦ none | some u ↦ run_groups switch groups u ]) (sym e) ∙ r))
  | inr (u, e) ↦
      (u, e, ap (λ o. elim o [ none ↦ none | some v ↦ run_groups switch groups v ]) (sym e) ∙ r)
]
  where
    none_some : none ≡ some t → ⊥
    none_some h = cc

all_read_at {ℓ} :
    {S : Type ℓ} (switch : ℕ → S → Option S) (k : ℕ) (argv : List Text) (optstring : Text) (s : S)
    (g g' : Getopt)
    → getopt argv optstring g ≡ ok (none, g')
    → each_option switch (suc k) argv optstring s g ≡ all_read s g'
unfolding each_option
all_read_at switch k argv optstring s g g' e = rw (each_option, e) refl

same_first {ℓ} :
    {S : Type ℓ} (switch : ℕ → S → Option S) (k : ℕ) (argv : List Text) (optstring : Text) (s : S)
    (g g' : Getopt)
    → getopt argv optstring g ≡ getopt argv optstring g'
    → each_option switch (suc k) argv optstring s g ≡ each_option switch (suc k) argv optstring s g'
unfolding each_option
same_first switch k argv optstring s g g' e = rw (each_option, e) refl

groups_read {ℓ} :
    {S : Type ℓ} (switch : ℕ → S → Option S) (optstring : Text) (groups : List Text)
    (argv before rest : List Text) (i m n : ℕ) (s t : S)
    → before ++ (dashed groups ++ rest) ≡ argv
    → length before ≡ suc i
    → m ≡ suc i + length groups
    → letter_count groups < n
    → AreGroups optstring groups
    → Stopped rest
    → run_groups switch groups s ≡ some t
    → each_option switch n argv optstring s (place (suc i) 1) ≡ all_read t (place m 1)
unfolding run_groups getopt
groups_read switch optstring groups argv before rest i m zero s t a l e c f h r =
    absurd (omega arith)
groups_read switch optstring [] argv before rest i m (suc n) s t a l e c f h r =
    let x : s ≡ t = cc r in
    let q : suc i ≡ m = omega arith in
    let here : get_elem? argv (suc i) ≡ get_elem? rest 0 =
      rw (← a, ← l) (get_elem?-append before rest) in
    all_read_at switch n argv optstring s (place (suc i) 1) (place (suc i) 1) (
      ap (getopt_from argv optstring) (restarted-place i 1)
      ∙ getopt_stops argv rest optstring (place (suc i) 1) here h)
    ∙ rw (x, q) refl
groups_read switch optstring ([] ∷ groups) argv before rest i m (suc n) s t a l e c f h r =
    elim f [ ]
groups_read switch optstring ((x ∷ xs) ∷ groups) argv before rest i m (suc n) s t a l e c f h r =
    let word = b'-' ∷ x ∷ xs in
    let k = suc n - length (x ∷ xs) in
    let (u, p, q) = first_group switch (x ∷ xs) groups s t r in
    let here : get_elem? argv (suc i) ≡ some word =
      rw (← a, ← l) (get_elem?-append before (word ∷ (dashed groups ++ rest))) in
    let next : suc i + 1 ≡ suc (suc i) = omega arith in
    letters_read switch argv optstring (b'-' ∷ []) (x ∷ xs) i (suc n) k s u (omega arith) here
      (refl, f.0) (omega arith) f.1 p
    ∙ (ap (λ j. each_option switch k argv optstring u (place j 1)) next
        ∙ groups_read switch optstring groups argv (before ++ (word ∷ [])) rest (suc i) m k u t
            (append_assoc before (word ∷ []) (dashed groups ++ rest) ∙ a)
            (omega (arith, length-append before (word ∷ []))) (omega arith) (omega arith) f.2 h q)

-- Starting over, with `_mrsh_optind = 0`, a utility reads all the letters of the words in front of the
-- first operand, from left to right, each by its switch, and `_mrsh_optind` is then the index of that
-- operand. The words are dashes with letters of options that have no argument, and the fuel is above
-- the number of letters.
pub each_option-groups {ℓ} :
    {S : Type ℓ} (switch : ℕ → S → Option S) (optstring name : Text) (groups rest : List Text)
    (n : ℕ) (s t : S) (g : Getopt)
    → g.optind ≡ 0
    → AreGroups optstring groups
    → Stopped rest
    → run_groups switch groups s ≡ some t
    → letter_count groups < n
    → (g' : Getopt) × (each_option switch n (name ∷ (dashed groups ++ rest)) optstring s g
        ≡ all_read t g')
      × (g'.optind ≡ suc (length groups))
unfolding run_groups getopt
each_option-groups switch optstring name groups rest zero s t g z f h r c = absurd (omega arith)
each_option-groups switch optstring name [] rest (suc n) s t g z f h r c =
    let argv = name ∷ rest in
    let x : s ≡ t = cc r in
    let g' = record g { optarg = none; optind = 1; optpos = 1 } in
    (
      g',
      all_read_at switch n argv optstring s g g' (
            ap (getopt_from argv optstring) (restarted-first g z)
            ∙ getopt_stops argv rest optstring g' (get_elem?-append (name ∷ []) rest) h)
          ∙ rw x refl,
      refl,
    )
each_option-groups switch optstring name ([] ∷ groups) rest (suc n) s t g z f h r c = elim f [ ]
each_option-groups switch optstring name ((x ∷ xs) ∷ groups) rest (suc n) s t g z f h r c =
    let word = b'-' ∷ x ∷ xs in
    let argv = name ∷ word ∷ (dashed groups ++ rest) in
    let same : getopt argv optstring g ≡ getopt argv optstring (place 1 1) =
      getopt_first argv optstring word g z refl (refl, f.0)
      ∙ sym (getopt_in argv optstring word 0 1 refl (refl, f.0)) in
    (
      place (suc (length ((x ∷ xs) ∷ groups))) 1,
      same_first switch n argv optstring s g (place 1 1) same
          ∙ groups_read switch optstring ((x ∷ xs) ∷ groups) argv (name ∷ []) rest 0
              (suc (length ((x ∷ xs) ∷ groups))) (suc n) s t refl refl (omega arith) c f h r,
      refl,
    )
