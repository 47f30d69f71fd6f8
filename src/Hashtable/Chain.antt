-- ===== src/Hashtable/Chain.antt =====
-- One bucket: lookups after a write or a removal, and how many entries a key has.
use mrsh.Base.{
  ℕ, ◌+◌, ◌-◌, ◌≤◌, ◌≡◌, refl, Bool, true, false, if◌then◌else◌, Bool-cases, inl, inr, Option, none,
  List, [], ◌∷◌, Text, str_eq, str_eq_refl, str_eq_sound, arith, ◌==◌,
}
use mrsh.Hashtable.{Entry, djb2, hit, chain_get, chain_set, chain_del}

abbrev pub to_nat : Bool → ℕ
to_nat true = 1
to_nat false = 0

str_eq_symm : (k q : Text) → str_eq k q ≡ str_eq q k
str_eq_symm k q = elim (Bool-cases (str_eq k q)) [
  | inl same ↦ let e : k ≡ q = str_eq_sound k q same in rw e
  | inr other ↦ elim (Bool-cases (str_eq q k)) [
    | inl same ↦ let e : q ≡ k = str_eq_sound q k same in rw e
    | inr other' ↦ rw (other, other')
  ]
]

module _ {ℓ} {V : Type ℓ} where
  -- The entries that a search for the key stops at.
  unfoldable pub count : Text → List (Entry V) → ℕ
  count q [] = 0
  count q (e ∷ es) = to_nat (hit q e) + count q es

  -- One entry answers to one key only.
  hit_unique : (k q : Text) (e : Entry V) → hit k e ≡ true → hit q e ≡ true → str_eq q k ≡ true
  unfolding hit
  hit_unique k q e hk hq =
      let keyed : e.key ≡ k = str_eq_sound e.key k (ground arith) in
      let keyed' : e.key ≡ q = str_eq_sound e.key q (ground arith) in
      rw (← keyed, ← keyed') (str_eq_refl e.key)

  hit-new :
      (k q : Text) (v : Option V)
      → hit q (record { hash = djb2 k; key = k; value = v }) ≡ str_eq k q
  unfolding hit
  hit-new k q v = elim (Bool-cases (str_eq k q)) [
    | inl same ↦ let e : k ≡ q = str_eq_sound k q same in rw e (ground (arith, str_eq_refl q))
    | inr other ↦ ground arith
  ]

  pub hit_congr : (k q : Text) (e : Entry V) → str_eq q k ≡ true → hit q e ≡ hit k e
  hit_congr k q e same = let p : q ≡ k = str_eq_sound q k same in rw p

  hit-value : (q : Text) (v : Option V) (e : Entry V) → hit q (record e { value = v }) ≡ hit q e
  unfolding hit
  hit-value q v e = refl

  pub chain_get-set :
      (k q : Text) (v : Option V) (es : List (Entry V))
      → chain_get q (chain_set k v es) ≡ (if str_eq q k then v else chain_get q es)
  unfolding chain_get chain_set
  chain_get-set k q v [] = rw (hit-new k q v, str_eq_symm k q)
  chain_get-set k q v (e ∷ es) =
      ground (arith, chain_get-set k q v es, hit_unique k q e, hit_congr k q e, hit-value q v e)

  -- A search that finds no entry goes on to NULL.
  pub chain_get_absent : (q : Text) (es : List (Entry V)) → count q es ≡ 0 → chain_get q es ≡ none
  unfolding count chain_get
  chain_get_absent q [] h = refl
  chain_get_absent q (e ∷ es) h = ground (arith, chain_get_absent q es)

  count_congr : (k q : Text) (es : List (Entry V)) → str_eq q k ≡ true → count q es ≡ count k es
  count_congr k q es same = let p : q ≡ k = str_eq_sound q k same in rw p

  -- A write leaves one entry of its key if there was at most one, and those of other keys alone.
  pub count-set :
      (k q : Text) (v : Option V) (es : List (Entry V))
      → count q (chain_set k v es)
        ≡ (if str_eq q k then (if count q es == 0 then 1 else count q es) else count q es)
  unfolding count chain_set
  count-set k q v [] = rw (hit-new k q v, str_eq_symm k q) (ground arith)
  count-set k q v (e ∷ es) =
      ground (arith, count-set k q v es, hit_unique k q e, hit_congr k q e, hit-value q v e)

  pub chain_get-del :
      (k q : Text) (es : List (Entry V))
      → count k es ≤ 1
      → chain_get q (chain_del k es) ≡ (if str_eq q k then none else chain_get q es)
  unfolding chain_get chain_del count
  chain_get-del k q [] h = ground arith
  chain_get-del k q (e ∷ es) h = ground (
    arith,
    chain_get-del k q es,
    hit_unique k q e,
    hit_congr k q e,
    chain_get_absent q es,
    count_congr k q es,
  )

  pub count-del :
      (k q : Text) (es : List (Entry V))
      → count q (chain_del k es) ≡ (if str_eq q k then count q es - 1 else count q es)
  unfolding chain_del count
  count-del k q [] = ground arith
  count-del k q (e ∷ es) = ground (arith, count-del k q es, hit_unique k q e, hit_congr k q e)
