-- ===== src/Word/Split.antt =====
-- Field splitting: `split_fields` of shell/word.c.
pub mod Runs
pub mod Quoted
use mrsh.Base.{
  ℕ, ◌==◌, ◌&&◌, ◌||◌, not, leb, Bool, true, false, if◌then◌else◌, Option, none, some, Outcome, ok,
  undefined, ◌>>=◌, Text, text, List, [], ◌∷◌, ◌++◌, map,
}
use mrsh.Ast.{Word, Words, string, parameter, command, arithmetic, list, nil, cons}
use mrsh.Ast.Copy.{word_copy}

-- `strchr(str, c) != NULL` for a `c` that is not NUL.
unfoldable pub strchr : Text → ℕ → Bool
strchr [] c = false
strchr (d ∷ str) c = d == c || strchr str c

-- `isspace` in the C locale: the blank and the codes 9 to 13.
unfoldable pub isspace : ℕ → Bool
isspace c = c == 32 || (leb 9 c && leb c 13)

-- `struct split_fields_data`. `fields` are those that are complete, and `cur_field` is the last
-- element of the C array while more words go into it.
pub record Split : Type 0 where
  pub fields : List (List Word)
  pub cur_field : Option (List Word)
  pub in_ifs : Bool
  pub in_ifs_non_space : Bool

unfoldable pub add_to_cur_field : Split → Word → Split
add_to_cur_field d word = elim d.cur_field [
  | none ↦ record d { cur_field = some (word ∷ []) }
  | some ws ↦ record d { cur_field = some (ws ++ word ∷ []) }
]

-- All the fields of the array.
unfoldable pub all_fields : Split → List (List Word)
all_fields d = elim d.cur_field [ none ↦ d.fields | some ws ↦ d.fields ++ ws ∷ [] ]

-- `cur_field = NULL`
unfoldable pub close_field : Split → Split
unfolding all_fields
close_field d = record d { fields = all_fields d; cur_field = none }

unfoldable pub buf_word : Text → Word
buf_word buf = string buf false false

-- One round of the loop over the characters, on the buffer and the data.
unfoldable pub split_char : Text → Text → ℕ → Text × Split → Text × Split
unfolding add_to_cur_field close_field buf_word
split_char ifs ifs_non_space c (buf, d) =
    let is_ifs_non_space = strchr ifs_non_space c in
    if not (strchr ifs c)
    then (buf ++ c ∷ [], record d { in_ifs = false; in_ifs_non_space = false })
    else (if not d.in_ifs || (is_ifs_non_space && d.in_ifs_non_space)
        then ([], record (close_field (add_to_cur_field d (buf_word buf))) { in_ifs = true })
        else (if is_ifs_non_space then (buf, record d { in_ifs_non_space = true }) else (buf, d)))

unfoldable pub split_chars : Text → Text → Text → Text × Split → Text × Split
split_chars ifs ifs_non_space [] r = r
split_chars ifs ifs_non_space (c ∷ str) r =
    split_chars ifs ifs_non_space str (split_char ifs ifs_non_space c r)

-- The buffer that is left when the characters end.
unfoldable pub flush : Text × Split → Split
unfolding add_to_cur_field buf_word
flush (buf, d) = if d.in_ifs then d else add_to_cur_field d (buf_word buf)

unfoldable mutual
  pub split_word : Text → Text → Word → Split → Outcome Split
  split_word ifs ns (string str single_quoted split_fields) d =
      if single_quoted || not split_fields
      then ok (record (add_to_cur_field d (string str single_quoted false)) {
        in_ifs = false;
        in_ifs_non_space = false;
      })
      else ok (flush (split_chars ifs ns str ([], d)))
  split_word ifs ns (list children double_quoted) d =
      let inner = split_words ifs ns children d in
      if double_quoted
      then (word_copy (list children double_quoted) >>= λ copy. ok (add_to_cur_field d copy))
      else inner
  split_word ifs ns (parameter name op colon arg) d = undefined
  split_word ifs ns (command prog back_quoted) d = undefined
  split_word ifs ns (arithmetic body) d = undefined

  pub split_words : Text → Text → Words → Split → Outcome Split
  split_words ifs ns nil d = ok d
  split_words ifs ns (cons w ws) d = split_word ifs ns w d >>= split_words ifs ns ws

of_list : List Word → Words
of_list [] = nil
of_list (w ∷ ws) = cons w (of_list ws)

-- Each field is an unquoted word list.
unfoldable pub field_word : List Word → Word
unfolding of_list
field_word ws = list (of_list ws) false

non_space : Text → Text
unfolding isspace
non_space [] = []
non_space (c ∷ ifs) = if isspace c then non_space ifs else c ∷ non_space ifs

unfoldable pub ifs_non_space : Text → Text
unfolding non_space
ifs_non_space ifs = non_space ifs

unfoldable pub initial : Split
initial = record { fields = []; cur_field = none; in_ifs = true; in_ifs_non_space = false }

split_by : Text → Word → Outcome (List Word)
split_by ifs word = do
  d ← split_word ifs (ifs_non_space ifs) word initial
  ok (map field_word (all_fields d))

-- The fields of a word; an `ifs` of `none` is the NULL of an unset variable.
unfoldable pub split_fields : Word → Option Text → Outcome (List Word)
unfolding split_by strchr split_word split_chars split_char flush field_word ifs_non_space initial
split_fields word none = split_by (text " \t\n") word
split_fields word (some []) = word_copy word >>= λ copy. ok (copy ∷ [])
split_fields word (some ifs) = split_by ifs word
