-- ===== src/Word/Split/Quoted.antt =====
-- A double-quoted part in front of a part to split: `_split_fields` of shell/word.c adds the one
-- to the current field, and then goes through the characters of the other.
use mrsh.Base.{
  ℕ, ◌≡◌, refl, ap, ◌∙◌, true, false, Bool, some, ok, Text, [], ◌∷◌, ◌++◌, map, append_assoc,
  append-nil,
}
use mrsh.Ast.{Word, Words, string, list, nil, cons}
use mrsh.Ast.Copy.{word_copy, words_copy}
use mrsh.Word.Split.{
  split_by, ifs_non_space, split_fields, field_word, strchr, Split, split_char, split_chars, flush,
  all_fields, split_word, add_to_cur_field, initial, buf_word,
}
use mrsh.Word.Split.Runs.{NoneIn}

-- One field is under way, and consists of this word so far.
pending : Word → Bool → Split
pending q b = record {
  fields = [];
  cur_field = some (q ∷ []);
  in_ifs = b;
  in_ifs_non_space = false;
}

module _ (ifs ns : Text) (q : Word) where
  skip_separator :
      (c : ℕ)
      → strchr ifs c ≡ true
      → strchr ns c ≡ false
      → split_char ifs ns c ([], pending q true) ≡ ([], pending q true)
  unfolding split_char pending
  skip_separator c e f = rw (e, f)

  take_other :
      (c : ℕ) (buf : Text) (b : Bool)
      → strchr ifs c ≡ false
      → split_char ifs ns c (buf, pending q b) ≡ (buf ++ c ∷ [], pending q false)
  unfolding split_char pending
  take_other c buf b e = rw e

  take_others :
      (str buf : Text)
      → NoneIn ifs str
      → split_chars ifs ns str (buf, pending q false) ≡ (buf ++ str, pending q false)
  unfolding split_chars
  take_others [] buf h = rw (append-nil buf)
  take_others (c ∷ str) buf h =
      rw (take_other c buf false h.0)
        (take_others str (buf ++ c ∷ []) h.1 ∙ rw (append_assoc buf (c ∷ []) str))

  joined :
      (c y : ℕ) (b : Text)
      → strchr ifs c ≡ true
      → strchr ns c ≡ false
      → NoneIn ifs (y ∷ b)
      → split_chars ifs ns (c ∷ y ∷ b) ([], pending q true) ≡ (y ∷ b, pending q false)
  unfolding split_chars
  joined c y b e f h =
      rw (skip_separator c e f) (rw (take_other y [] true h.0) (take_others b (y ∷ []) h.1))

split_by-joined :
    (ifs : Text) (qs qs' : Words) (c y : ℕ) (b : Text)
    → strchr ifs c ≡ true
    → strchr (ifs_non_space ifs) c ≡ false
    → NoneIn ifs (y ∷ b)
    → words_copy qs ≡ ok qs'
    → split_by ifs (list (cons (list qs true) (cons (string (c ∷ y ∷ b) false true) nil)) false)
      ≡ ok (field_word (list qs' true ∷ buf_word (y ∷ b) ∷ []) ∷ [])
unfolding split_by split_word add_to_cur_field pending initial word_copy
split_by-joined ifs qs qs' c y b e f h copied = rw copied (
    ap (λ r. ok (map field_word (all_fields (flush r))))
      (joined ifs (ifs_non_space ifs) (list qs' true) c y b e f h)
    ∙ (unfold all_fields flush pending add_to_cur_field in refl))

-- A word of two parts, the first double-quoted, and copied without failure, the second a text that one
-- white-space separator of IFS begins and that has no other separator in it, behind which it is not
-- empty: it is split into one field, of both parts without that separator. So `"a"$b` stays one field
-- when the value of `b` begins with a blank.
pub split_fields-quoted_joins :
    (i : ℕ) (ifs : Text) (qs qs' : Words) (c y : ℕ) (b : Text)
    → strchr (i ∷ ifs) c ≡ true
    → strchr (ifs_non_space (i ∷ ifs)) c ≡ false
    → NoneIn (i ∷ ifs) (y ∷ b)
    → words_copy qs ≡ ok qs'
    → split_fields
        (list (cons (list qs true) (cons (string (c ∷ y ∷ b) false true) nil)) false)
        (some (i ∷ ifs))
      ≡ ok (field_word (list qs' true ∷ buf_word (y ∷ b) ∷ []) ∷ [])
unfolding split_fields
split_fields-quoted_joins i ifs qs qs' c y b e f h copied =
    split_by-joined (i ∷ ifs) qs qs' c y b e f h copied
