-- ===== src/Builtin/Getopt/Laws.antt =====
-- Clusters of options without arguments are read letter by letter.
use mrsh.Base.{
  ℕ, zero, suc, ◌+◌, ◌<◌, ◌≡◌, refl, ap, sym, ◌∙◌, ◌==◌, true, false, ok, ◌>>=◌, Option-cases, inl,
  inr, List, [], ◌∷◌, ◌++◌, Option, none, some, Text, length, get_elem?, arith, append_assoc,
  length-append,
}
use mrsh.Builtin.Getopt.{
  Getopt, char_at, skip_colon, find_option, option_found, in_word, getopt, getopt_from, restarted,
  each_option,
}

-- The switch of a utility, on each letter in turn.
unfoldable pub run_letters {ℓ} : {S : Type ℓ} → (ℕ → S → Option S) → Text → S → Option S
run_letters switch [] s = some s
run_letters switch (c ∷ cs) s = elim (switch c s) [ none ↦ none | some t ↦ run_letters switch cs t ]

-- Letters of options that have no argument.
abbrev pub AreFlags : Text → Text → Type 0
AreFlags optstring [] = Unit
AreFlags optstring (c ∷ cs) =
    (find_option (skip_colon optstring) c ≡ some false) × ((c == 0) ≡ false) × AreFlags optstring cs

-- The byte at `k` behind `before`.
char_at-append :
    (before str : Text) (n k : ℕ)
    → n ≡ length before + k
    → char_at (before ++ str) n ≡ char_at str k
unfolding char_at
char_at-append [] str n k e = let p : n ≡ k = omega arith in rw p refl
char_at-append (c ∷ before) str zero k e = absurd (omega arith)
char_at-append (c ∷ before) str (suc n) k e = char_at-append before str n k (omega arith)

-- The state at a place of a word, no argument and no error left in it.
abbrev pub place : ℕ → ℕ → Getopt
place optind optpos = record { optarg = none; optind = optind; optopt = 0; optpos = optpos }

-- One letter in the middle of a word.
middle :
    (argv : List Text) (optstring before cs : Text) (c d i : ℕ)
    → find_option (skip_colon optstring) c ≡ some false
    → (d == 0) ≡ false
    → in_word argv optstring (before ++ (c ∷ d ∷ cs)) (place i (length before))
      ≡ ok (some c, place i (length before + 1))
unfolding in_word option_found char_at
middle argv optstring before cs c d i f n =
    let here : char_at (before ++ (c ∷ d ∷ cs)) (length before) ≡ ok c =
      char_at-append before (c ∷ d ∷ cs) (length before) 0 (omega arith) in
    let next : char_at (before ++ (c ∷ d ∷ cs)) (length before + 1) ≡ ok d =
      char_at-append before (c ∷ d ∷ cs) (length before + 1) 1 refl in
    rw (here, ◌>>=◌, f, next, ◌>>=◌, n) refl

last_letter :
    (argv : List Text) (optstring before : Text) (c i : ℕ)
    → find_option (skip_colon optstring) c ≡ some false
    → in_word argv optstring (before ++ (c ∷ [])) (place i (length before))
      ≡ ok (some c, place (i + 1) 1)
unfolding in_word option_found char_at
last_letter argv optstring before c i f =
    let here : char_at (before ++ (c ∷ [])) (length before) ≡ ok c =
      char_at-append before (c ∷ []) (length before) 0 (omega arith) in
    let next : char_at (before ++ (c ∷ [])) (length before + 1) ≡ ok 0 =
      char_at-append before (c ∷ []) (length before + 1) 1 refl in
    rw (here, ◌>>=◌, f, next, ◌>>=◌) refl

-- A word that is neither `-` nor begins with `--`, and begins with `-`.
abbrev pub IsCluster : Text → Type 0
IsCluster [] = ⊥
IsCluster (c ∷ []) = ⊥
IsCluster (c ∷ d ∷ rest) = ((c == b'-') ≡ true) × ((d == b'-') ≡ false)

pub getopt_from-cluster :
    (argv : List Text) (optstring word : Text) (g : Getopt)
    → get_elem? argv g.optind ≡ some word
    → IsCluster word
    → getopt_from argv optstring g ≡ in_word argv optstring word (record g { optopt = 0 })
unfolding getopt_from
getopt_from-cluster argv optstring [] g e h = elim h [ ]
getopt_from-cluster argv optstring (c ∷ []) g e h = elim h [ ]
getopt_from-cluster argv optstring (c ∷ d ∷ rest) g e h = rw (getopt_from, e, h.0, h.1) refl

pub restarted-place : (i p : ℕ) → restarted (place (suc i) p) ≡ place (suc i) p
unfolding restarted
restarted-place i p = let later : (suc i == 0) ≡ false = ground arith in rw later refl

pub restarted-first :
    (g : Getopt) → g.optind ≡ 0 → restarted g ≡ record g { optarg = none; optind = 1; optpos = 1 }
unfolding restarted
restarted-first g z = let start : (g.optind == 0) ≡ true = ground arith in rw start refl

pub getopt_in :
    (argv : List Text) (optstring word : Text) (i p : ℕ)
    → get_elem? argv (suc i) ≡ some word
    → IsCluster word
    → getopt argv optstring (place (suc i) p) ≡ in_word argv optstring word (place (suc i) p)
unfolding getopt
getopt_in argv optstring word i p e h =
    ap (getopt_from argv optstring) (restarted-place i p)
    ∙ getopt_from-cluster argv optstring word (place (suc i) p) e h

-- The first call, after `_mrsh_optind = 0`.
pub getopt_first :
    (argv : List Text) (optstring word : Text) (g : Getopt)
    → g.optind ≡ 0
    → get_elem? argv 1 ≡ some word
    → IsCluster word
    → getopt argv optstring g ≡ in_word argv optstring word (place 1 1)
unfolding getopt
getopt_first argv optstring word g z e h =
    ap (getopt_from argv optstring) (restarted-first g z)
    ∙ getopt_from-cluster argv optstring word (record g { optarg = none; optind = 1; optpos = 1 }) e
        h

first_letter {ℓ} :
    {S : Type ℓ} (switch : ℕ → S → Option S) (c : ℕ) (cs : Text) (s t : S)
    → run_letters switch (c ∷ cs) s ≡ some t
    → (u : S) × (switch c s ≡ some u) × (run_letters switch cs u ≡ some t)
unfolding run_letters
first_letter switch c cs s t r = elim (Option-cases (switch c s)) [
  | inl e ↦
      absurd (
        none_some (ap (λ o. elim o [ none ↦ none | some u ↦ run_letters switch cs u ]) (sym e) ∙ r))
  | inr (u, e) ↦
      (u, e, ap (λ o. elim o [ none ↦ none | some v ↦ run_letters switch cs v ]) (sym e) ∙ r)
]
  where
    none_some : none ≡ some t → ⊥
    none_some h = cc

one_round {ℓ} :
    {S : Type ℓ} (switch : ℕ → S → Option S) (k : ℕ) (argv : List Text) (optstring : Text) (s u : S)
    (g g' : Getopt) (c : ℕ)
    → getopt argv optstring g ≡ ok (some c, g')
    → switch c s ≡ some u
    → each_option switch (suc k) argv optstring s g ≡ each_option switch k argv optstring u g'
unfolding each_option
one_round switch k argv optstring s u g g' c e f = rw (each_option, e, f) refl

-- The rounds for the letters of a word end at the next word.
pub letters_read {ℓ} :
    {S : Type ℓ} (switch : ℕ → S → Option S) (argv : List Text) (optstring before letters : Text)
    (i n k : ℕ) (s t : S)
    → n ≡ length letters + k
    → get_elem? argv (suc i) ≡ some (before ++ letters)
    → IsCluster (before ++ letters)
    → 0 < length letters
    → AreFlags optstring letters
    → run_letters switch letters s ≡ some t
    → each_option switch n argv optstring s (place (suc i) (length before))
      ≡ each_option switch k argv optstring t (place (suc i + 1) 1)
unfolding run_letters
letters_read switch argv optstring before [] i n k s t m e h l f r = absurd (omega arith)
letters_read switch argv optstring before (c ∷ cs) i zero k s t m e h l f r = absurd (omega arith)
letters_read switch argv optstring before (c ∷ []) i (suc n) k s t m e h l f r =
    let (u, a, b) = first_letter switch c [] s t r in
    let q : n ≡ k = omega arith in
    let x : u ≡ t = cc b in
    one_round switch n argv optstring s u (place (suc i) (length before)) (place (suc i + 1) 1) c
      (getopt_in argv optstring (before ++ (c ∷ [])) i (length before) e h
        ∙ last_letter argv optstring before c (suc i) f.0)
      a
    ∙ rw (q, x) refl
letters_read switch argv optstring before (c ∷ d ∷ cs) i (suc n) k s t m e h l f r =
    let (u, a, b) = first_letter switch c (d ∷ cs) s t r in
    let word : (before ++ (c ∷ [])) ++ (d ∷ cs) ≡ before ++ (c ∷ d ∷ cs) =
      append_assoc before (c ∷ []) (d ∷ cs) in
    let len : length (before ++ (c ∷ [])) ≡ length before + 1 = length-append before (c ∷ []) in
    one_round switch n argv optstring s u (place (suc i) (length before))
      (place (suc i) (length before + 1)) c
      (getopt_in argv optstring (before ++ (c ∷ d ∷ cs)) i (length before) e h
        ∙ middle argv optstring before cs c d (suc i) f.0 f.2.1)
      a
    ∙ (ap (λ p. each_option switch n argv optstring u (place (suc i) p)) (sym len)
        ∙ letters_read switch argv optstring (before ++ (c ∷ [])) (d ∷ cs) i n k u t (omega arith)
            (e ∙ ap some (sym word)) (rw word h) (omega arith) f.2 b)
