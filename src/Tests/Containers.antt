-- ===== src/Tests/Containers.antt =====
-- Buffers, tables and variables on concrete inputs.
use mrsh.Base.{
  ℕ, zero, suc, ◌≤◌, ◌≡◌, refl, ap, ◌⊎◌, ◌+◌, if◌then◌else◌, ok, failed, Returns, none, some, List,
  [], ◌∷◌, ◌++◌, text, take, length, replicate, length-replicate, str_eq, arith,
}
use mrsh.Memory.{Realloc, IsRealloc, memcpy}
use mrsh.Buffer.{empty, grown_cap, append, reserve, add}
use mrsh.Buffer.Laws.{IsValid, contents, append-contents}
use mrsh.Array
use mrsh.Array.{Array, larger_cap}
use mrsh.Array.Laws.{Adds, add-contents}
use mrsh.Hashtable
use mrsh.Hashtable.{Hashtable, djb2}
use mrsh.Hashtable.Laws
use mrsh.Shell.{State, state_create, env_set}
use mrsh.Shell.Env.{HasTables, state_create-HasTables, env_set-HasTables}

-- A block cut or filled up with zeros to a size.
pad : List ℕ → ℕ → List ℕ
pad [] n = replicate n 0
pad (x ∷ b) zero = []
pad (x ∷ b) (suc n) = x ∷ pad b n

length-pad : (b : List ℕ) (n : ℕ) → length (pad b n) ≡ n
unfolding pad
length-pad [] n = length-replicate n 0
length-pad (x ∷ b) zero = refl
length-pad (x ∷ b) (suc n) = ap suc (length-pad b n)

take-pad : (b : List ℕ) (n : ℕ) → length b ≤ n → take (length b) (pad b n) ≡ b
unfolding pad
take-pad [] n h = refl
take-pad (x ∷ b) zero h = absurd (omega arith)
take-pad (x ∷ b) (suc n) h = ap (λ l. x ∷ l) (take-pad b n (omega arith))

-- An allocator that never refuses and clears the new cells.
abbrev grow : Realloc ℕ
grow b n = some (pad b n)

grow-IsRealloc : IsRealloc grow
grow-IsRealloc = record {
  size = λ b n b' e. let p : pad b n ≡ b' = cc in rw (← p) (length-pad b n);
  keeps = λ b n b' h e. let p : pad b n ≡ b' = cc in rw (← p) (take-pad b n h);
}

append_test :
    append grow empty (text "hi") 2
    ≡ ok (record { data' = text "hi" ++ replicate 30 0; len = 2; cap = 32 })
unfolding append add reserve grown_cap pad memcpy
append_test = refl

append-contents_example :
    (append grow empty (text "hi") 2 ≡ failed)
      × (grow empty.data' (grown_cap empty.cap (empty.len + 2)) ≡ none)
    ⊎ Returns
        (append grow empty (text "hi") 2)
        λ r. IsValid r × (contents r ≡ contents empty ++ take 2 (text "hi"))
append-contents_example =
    append-contents grow grow-IsRealloc empty (text "hi") 2
      (record { sized = refl; fits = omega arith }) (omega arith) (omega arith)

djb2_test : djb2 (text "a") ≡ 177670
unfolding djb2
djb2_test = refl

abbrev one_entry : Hashtable ℕ
one_entry = (Hashtable.put Hashtable.empty (text "k") (some 1)).1

one_entry-IsValid : Laws.IsValid one_entry
one_entry-IsValid = Laws.put-IsValid Hashtable.empty (text "k") (some 1) Laws.empty-IsValid

get-put_example :
    Hashtable.get (Hashtable.put one_entry (text "j") (some 2)).1 (text "k")
    ≡ (if str_eq (text "k") (text "j") then some 2 else Hashtable.get one_entry (text "k"))
get-put_example = Laws.get-put one_entry (text "j") (text "k") (some 2) one_entry-IsValid

abbrev with_x : State
with_x = env_set state_create (text "x") (text "1") 1

with_x-HasTables : HasTables with_x
with_x-HasTables = env_set-HasTables state_create (text "x") (text "1") 1 state_create-HasTables

-- Eight cells, all used.
abbrev full_array : Array ℕ
full_array = record { data' = replicate 8 5; len = 8; cap = 8 }

add-contents_example :
    ((Array.add grow full_array 6 ≡ failed)
      × (full_array.len ≡ full_array.cap)
      × (grow full_array.data' (larger_cap full_array.cap) ≡ none))
    ⊎ Adds grow grow-IsRealloc full_array 6 (Array.add grow full_array 6)
add-contents_example =
    add-contents grow grow-IsRealloc full_array 6 (record { sized = refl; fits = omega arith })
      (omega arith)
