-- ===== src/Hashtable/Laws.antt =====
-- The table as a finite map from strings to pointers.
use mrsh.Base.{
  ℕ, ◌≤◌, ◌<◌, ◌≡◌, ◌≢◌, ◌∙◌, true, if◌then◌else◌, Option, none, List, [], Text, str_eq,
  str_eq_sound, arith, length, length-set, get_or, get_or-set, get_or-replicate, length-replicate,
}
use mrsh.Hashtable.{Entry, Hashtable, hashtable_buckets, bucket, get, put, del, empty}
use mrsh.Hashtable.Chain.{count, chain_get-set, chain_get-del, count-set, count-del}

pub bucket-lt : (q : Text) → bucket q < hashtable_buckets
unfolding bucket
bucket-lt q = omega arith

pub bucket_congr : (k q : Text) → str_eq q k ≡ true → bucket q ≡ bucket k
bucket_congr k q same = let p : q ≡ k = str_eq_sound q k same in rw p

module _ {ℓ} {V : Type ℓ} where
  -- All the buckets are there, a key has one entry at most, and that in its own bucket.
  pub record IsValid (table : Hashtable V) : Type ℓ where
    pub width : length table.buckets ≡ hashtable_buckets
    pub once : (q : Text) (i : ℕ) → count q (get_or table.buckets i []) ≤ 1
    pub placed : (q : Text) (i : ℕ) → bucket q ≢ i → count q (get_or table.buckets i []) ≡ 0

  -- A new table is valid, and every key reads as NULL.
  pub empty-IsValid : IsValid (empty {V = V})
  unfolding empty count
  empty-IsValid = record {
    width = length-replicate {A = List (Entry V)} hashtable_buckets [];
    once = λ q i. rw (get_or-replicate {A = List (Entry V)} hashtable_buckets i []) (omega arith);
    placed = λ q i _. rw (get_or-replicate {A = List (Entry V)} hashtable_buckets i []);
  }

  pub put-IsValid :
      (table : Hashtable V) (k : Text) (v : Option V) → IsValid table → IsValid (put table k v).1
  unfolding put
  put-IsValid table k v valid = record {
    width = length-set table.buckets _ _ ∙ valid.width;
    once = λ q i. rw (get_or-set table.buckets (bucket k) i _ [] inside) (
        ground (
          arith,
          valid.once q i,
          valid.once q (bucket k),
          count-set k q v (get_or table.buckets (bucket k) []),
        ));
    placed = λ q i away. rw (get_or-set table.buckets (bucket k) i _ [] inside) (
        ground (
          arith,
          valid.placed q i,
          valid.placed q (bucket k),
          count-set k q v (get_or table.buckets (bucket k) []),
          bucket_congr k q,
        ));
  }
    where
      inside : bucket k < length table.buckets
      inside = rw valid.width (bucket-lt k)

  -- A removal keeps a table valid.
  pub del-IsValid : (table : Hashtable V) (k : Text) → IsValid table → IsValid (del table k).1
  unfolding del
  del-IsValid table k valid = record {
    width = length-set table.buckets _ _ ∙ valid.width;
    once = λ q i. rw (get_or-set table.buckets (bucket k) i _ [] inside) (
        ground (
          arith,
          valid.once q i,
          valid.once q (bucket k),
          count-del k q (get_or table.buckets (bucket k) []),
        ));
    placed = λ q i away. rw (get_or-set table.buckets (bucket k) i _ [] inside) (
        ground (
          arith,
          valid.placed q i,
          valid.placed q (bucket k),
          count-del k q (get_or table.buckets (bucket k) []),
          bucket_congr k q,
        ));
  }
    where
      inside : bucket k < length table.buckets
      inside = rw valid.width (bucket-lt k)

  -- In a valid table, after a write the key reads as the value written and every other key as
  -- before.
  pub get-put :
      (table : Hashtable V) (k q : Text) (v : Option V)
      → IsValid table
      → get (put table k v).1 q ≡ (if str_eq q k then v else get table q)
  unfolding get put
  get-put table k q v valid =
      rw (get_or-set table.buckets (bucket k) (bucket q) _ [] (rw valid.width (bucket-lt k)))
        (ground (arith, bucket_congr k q, chain_get-set k q v (get_or table.buckets (bucket k) [])))

  -- In a valid table, after a removal the key reads as NULL and every other key as before.
  pub get-del :
      (table : Hashtable V) (k q : Text)
      → IsValid table
      → get (del table k).1 q ≡ (if str_eq q k then none else get table q)
  unfolding get del
  get-del table k q valid =
      rw (get_or-set table.buckets (bucket k) (bucket q) _ [] (rw valid.width (bucket-lt k))) (
        ground (
          arith,
          bucket_congr k q,
          chain_get-del k q (get_or table.buckets (bucket k) []),
          valid.once k (bucket k),
        ))
