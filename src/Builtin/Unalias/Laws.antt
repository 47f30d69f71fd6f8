-- ===== src/Builtin/Unalias/Laws.antt =====
-- What `unalias` leaves of the aliases.
use mrsh.Base.{
  ℕ, zero, suc, ◌≡◌, refl, sym, ◌∙◌, ◌||◌, Bool, true, false, if◌then◌else◌, Bool-cases, inl, inr,
  List, [], ◌∷◌, ◌++◌, Option, none, Text, str_eq, str_eq_refl, str_eq_sound, map, arith, get_or,
}
use mathlib.Core.List.{flat_map}
use mrsh.Hashtable.{Entry, Hashtable, bucket, get, del, for_each, chain_get, hit}
use mrsh.Hashtable.Laws.{IsValid, del-IsValid, get-del}
use mrsh.Builtin.Unset.Laws.{among}
use mrsh.Builtin.Unalias.{delete_aliases, delete_all}

-- In a valid table, the names given are no longer aliases, and the others are what they were.
pub get-delete_aliases :
    (names : List Text) (aliases : Hashtable Text) (q : Text)
    → IsValid aliases
    → get (delete_aliases names aliases) q ≡ (if among q names then none else get aliases q)
unfolding delete_aliases
get-delete_aliases [] aliases q valid = refl
get-delete_aliases (name ∷ names) aliases q valid =
    let ih = get-delete_aliases names (del aliases name).1 q (del-IsValid aliases name valid) in
    let one = get-del aliases name q valid in
    elim (Bool-cases (among q names)) [
      | inl later ↦ elim (Bool-cases (str_eq q name)) [
        | inl same ↦ rw (later, same) (ih ∙ rw later refl)
        | inr other ↦ rw (later, other) (ih ∙ rw later refl)
      ]
      | inr never ↦ elim (Bool-cases (str_eq q name)) [
        | inl same ↦ rw (never, same) (ih ∙ rw never (one ∙ rw same refl))
        | inr other ↦ rw (never, other) (ih ∙ rw never (one ∙ rw other refl))
      ]
    ]

abbrev keys : List (Text × Option Text) → List Text
keys calls = map (λ e. e.0) calls

abbrev calls_of : List (Entry Text) → List (Text × Option Text)
calls_of entries = map (λ e. (e.key, e.value)) entries

among-append :
    (q : Text) (xs ys : List (Text × Option Text))
    → among q (keys (xs ++ ys)) ≡ (among q (keys xs) || among q (keys ys))
among-append q [] ys = refl
among-append q (x ∷ xs) ys = elim (Bool-cases (str_eq q x.0)) [
  | inl same ↦ rw same refl
  | inr other ↦ rw other (among-append q xs ys)
]

or-false : (a b : Bool) → (a || b) ≡ false → (a ≡ false) × (b ≡ false)
or-false true b h = absurd (cc)
or-false false b h = (refl, h)

str_eq-false : (a b : Text) → str_eq a b ≡ false → str_eq b a ≡ false
str_eq-false a b apart = elim (Bool-cases (str_eq b a)) [
  | inl same ↦
      let e : b ≡ a = str_eq_sound b a same in
      let same' : str_eq a b ≡ true = rw e (str_eq_refl a) in cc
  | inr other ↦ other
]

-- An entry that a key hits has that key.
chain_get-unnamed :
    (q : Text) (es : List (Entry Text))
    → among q (keys (calls_of es)) ≡ false
    → chain_get q es ≡ none
unfolding chain_get hit
chain_get-unnamed q [] h = refl
chain_get-unnamed q (e ∷ es) h =
    let (apart, rest) = or-false (str_eq q e.key) (among q (keys (calls_of es))) h in
    let missed : hit q e ≡ false = ground (arith, str_eq-false q e.key apart) in
    rw missed (chain_get-unnamed q es rest)

bucket-unnamed :
    (q : Text) (buckets : List (List (Entry Text))) (i : ℕ)
    → among q (keys (flat_map calls_of buckets)) ≡ false
    → chain_get q (get_or buckets i []) ≡ none
unfolding flat_map
bucket-unnamed q [] i h = unfold chain_get in refl
bucket-unnamed q (b ∷ bs) i h =
    let both =
      or-false (among q (keys (calls_of b))) (among q (keys (flat_map calls_of bs)))
        (sym (among-append q (calls_of b) (flat_map calls_of bs)) ∙ h) in
    elim i as (λ k. chain_get q (get_or (b ∷ bs) k []) ≡ none) [
      | zero ↦ chain_get-unnamed q b both.0
      | suc j ↦ bucket-unnamed q bs j both.1
    ]

-- After `unalias -a` a valid table has no aliases.
pub get-delete_all :
    (aliases : Hashtable Text) (q : Text) → IsValid aliases → get (delete_all aliases) q ≡ none
unfolding delete_all for_each
get-delete_all aliases q valid =
    let named = keys (flat_map calls_of aliases.buckets) in
    let deleted = get-delete_aliases named aliases q valid in
    elim (Bool-cases (among q named)) [
      | inl there ↦ deleted ∙ rw there refl
      | inr absent ↦
          deleted ∙ rw absent (unfold get in bucket-unnamed q aliases.buckets (bucket q) absent)
    ]
