-- ===== src/Hashtable.antt =====
-- The string-keyed table: hashtable.c and include/mrsh/hashtable.h. A bucket is the list of its
-- entries in link order, and a `void *` is an `Option`, with `none` for NULL.
pub mod Chain
pub mod Laws
use mrsh.Base.{
  ℕ, zero, suc, ◌+◌, ◌-◌, ◌*◌, ◌%◌, ◌^◌, ◌==◌, ◌&&◌, Bool, ltb, if◌then◌else◌, Option, none, some,
  List, [], ◌∷◌, map, Text, str_eq, length, get_or, set, replicate,
}
use mathlib.Core.List.{flat_map}

abbrev pub hashtable_buckets : ℕ
hashtable_buckets = 256

pub record Entry {ℓ} (V : Type ℓ) : Type ℓ where
  pub hash : ℕ
  pub key : Text
  pub value : Option V

pub record Hashtable {ℓ} (V : Type ℓ) : Type ℓ where
  pub buckets : List (List (Entry V))

-- A byte added to an `unsigned int` as a signed `char`.
abbrev pub char_to_uint : ℕ → ℕ
char_to_uint c = if ltb c 128 then c else c + 2 ^ 32 - 256

djb2_from : ℕ → Text → ℕ
djb2_from hash [] = hash
djb2_from hash (c ∷ str) = djb2_from ((hash * 32 % 2 ^ 32 + hash + char_to_uint c) % 2 ^ 32) str

unfoldable pub djb2 : Text → ℕ
unfolding djb2_from
djb2 str = djb2_from 5381 str

-- `calloc` of a zeroed table.
unfoldable pub empty {ℓ} : {V : Type ℓ} → Hashtable V
empty = record { buckets = replicate hashtable_buckets [] }

-- The bucket index of a key.
unfoldable pub bucket : Text → ℕ
bucket key = djb2 key % hashtable_buckets

module _ {ℓ} {V : Type ℓ} where
  -- The test of each loop over a bucket.
  unfoldable pub hit : Text → Entry V → Bool
  hit key e = e.hash == djb2 key && str_eq e.key key

  unfoldable pub chain_get : Text → List (Entry V) → Option V
  chain_get key [] = none
  chain_get key (e ∷ es) = if hit key e then e.value else chain_get key es

  -- The entry that matches takes the value, and else a new one stands at the end.
  unfoldable pub chain_set : Text → Option V → List (Entry V) → List (Entry V)
  chain_set key value [] = record { hash = djb2 key; key = key; value = value } ∷ []
  chain_set key value (e ∷ es) =
      if hit key e then record e { value = value } ∷ es else e ∷ chain_set key value es

  -- The first entry that matches is unlinked.
  unfoldable pub chain_del : Text → List (Entry V) → List (Entry V)
  chain_del key [] = []
  chain_del key (e ∷ es) = if hit key e then es else e ∷ chain_del key es

  unfoldable pub get : Hashtable V → Text → Option V
  get table key = chain_get key (get_or table.buckets (bucket key) [])

  -- The table after the write, and the value that was there.
  unfoldable pub put : Hashtable V → Text → Option V → Option V × Hashtable V
  put table key value =
      let chain = get_or table.buckets (bucket key) [] in
      (
        chain_get key chain,
        record { buckets = set table.buckets (bucket key) (chain_set key value chain) },
      )

  unfoldable pub del : Hashtable V → Text → Option V × Hashtable V
  del table key =
      let chain = get_or table.buckets (bucket key) [] in
      (
        chain_get key chain,
        record { buckets = set table.buckets (bucket key) (chain_del key chain) },
      )

  -- The calls that `mrsh_hashtable_for_each` makes of its iterator, in order.
  unfoldable pub for_each : Hashtable V → List (Text × Option V)
  for_each table = flat_map (map λ e. (e.key, e.value)) table.buckets
