-- ===== src/Word/Split/Runs.antt =====
-- Splitting by separators that are all white space, against the maximal runs of other characters.
use mrsh.Base.{
  ℕ, ◌≡◌, refl, ap, ◌∙◌, sym, Bool, true, false, if◌then◌else◌, Bool-cases, inl, inr, none, some,
  ok, Text, List, [], ◌∷◌, ◌++◌, map, append_assoc, append-nil, arith,
}
use mrsh.Ast.{Word, string}
use mrsh.Word.Split.{
  split_by, isspace, non_space, ifs_non_space, split_fields, field_word, strchr, Split, split_char,
  split_chars, flush, all_fields, buf_word, split_word, initial,
}

-- The maximal runs of characters that are not in `ifs`, the first of which begins with `buf`.
unfoldable pub runs : Text → Text → Text → List Text
runs ifs [] [] = []
runs ifs (b ∷ buf) [] = (b ∷ buf) ∷ []
runs ifs [] (c ∷ str) = if strchr ifs c then runs ifs [] str else runs ifs (c ∷ []) str
runs ifs (b ∷ buf) (c ∷ str) =
    if strchr ifs c then (b ∷ buf) ∷ runs ifs [] str else runs ifs ((b ∷ buf) ++ c ∷ []) str

abbrev pub one_word : Text → List Word
one_word buf = buf_word buf ∷ []

-- Between characters: the buffer is empty exactly behind a separator.
start : List (List Word) → Split
start fields = record { fields = fields; cur_field = none; in_ifs = true; in_ifs_non_space = false }

middle : List (List Word) → Split
middle fields = record {
  fields = fields;
  cur_field = none;
  in_ifs = false;
  in_ifs_non_space = false;
}

module _ (ifs : Text) (c : ℕ) (fields : List (List Word)) where
  start_sep : strchr ifs c ≡ true → split_char ifs [] c ([], start fields) ≡ ([], start fields)
  unfolding split_char start strchr
  start_sep e = rw e

  start_other :
      strchr ifs c ≡ false → split_char ifs [] c ([], start fields) ≡ (c ∷ [], middle fields)
  unfolding split_char start middle
  start_other e = rw e

  middle_sep :
      (buf : Text)
      → strchr ifs c ≡ true
      → split_char ifs [] c (buf, middle fields) ≡ ([], start (fields ++ one_word buf ∷ []))
  unfolding split_char start middle all_fields
  middle_sep buf e = rw e

  middle_other :
      (buf : Text)
      → strchr ifs c ≡ false
      → split_char ifs [] c (buf, middle fields) ≡ (buf ++ c ∷ [], middle fields)
  unfolding split_char middle
  middle_other buf e = rw e

split_chars-runs :
    (ifs str : Text) (fields : List (List Word))
    → (all_fields (flush (split_chars ifs [] str ([], start fields)))
        ≡ fields ++ map one_word (runs ifs [] str))
      × ((b : ℕ) (buf : Text)
          → all_fields (flush (split_chars ifs [] str (b ∷ buf, middle fields)))
            ≡ fields ++ map one_word (runs ifs (b ∷ buf) str))
unfolding split_chars runs
split_chars-runs ifs [] fields = (
  unfold flush all_fields start in sym (append-nil fields),
  λ b buf. unfold flush all_fields middle in refl,
)
split_chars-runs ifs (c ∷ str) fields = elim (Bool-cases (strchr ifs c)) [
  | inl sep ↦ (
    rw (sep, start_sep ifs c fields sep) (split_chars-runs ifs str fields).0,
    λ b buf.
        rw (sep, middle_sep ifs c fields (b ∷ buf) sep)
          ((split_chars-runs ifs str (fields ++ one_word (b ∷ buf) ∷ [])).0
            ∙ append_assoc fields _ _),
  )
  | inr other ↦ (
    rw (other, start_other ifs c fields other) ((split_chars-runs ifs str fields).1 c []),
    λ b buf.
        rw (other, middle_other ifs c fields (b ∷ buf) other)
          ((split_chars-runs ifs str fields).1 b (buf ++ c ∷ [])),
  )
]

split_by-runs :
    (str ifs : Text)
    → ifs_non_space ifs ≡ []
    → split_by ifs (string str false true) ≡ ok (map field_word (map one_word (runs ifs [] str)))
unfolding split_by split_word
split_by-runs str ifs blank =
    rw blank
      (ap (λ fs. ok (map field_word fs)) (unfold initial start in (split_chars-runs ifs str []).0))

-- With separators that are all white space, the result of an expansion is split into its maximal
-- runs of other characters.
pub split_fields-runs :
    (str : Text) (i : ℕ) (ifs : Text)
    → ifs_non_space (i ∷ ifs) ≡ []
    → split_fields (string str false true) (some (i ∷ ifs))
      ≡ ok (map field_word (map one_word (runs (i ∷ ifs) [] str)))
unfolding split_fields
split_fields-runs str i ifs blank = split_by-runs str (i ∷ ifs) blank

-- No character of the text is in `ifs`.
abbrev pub NoneIn : Text → Text → Type 0
NoneIn ifs [] = Unit
NoneIn ifs (c ∷ str) = (strchr ifs c ≡ false) × NoneIn ifs str

module _ (ifs ns : Text) where
  split_chars-append :
      (x y : Text) (r : Text × Split)
      → split_chars ifs ns (x ++ y) r ≡ split_chars ifs ns y (split_chars ifs ns x r)
  unfolding split_chars
  split_chars-append [] y r = refl
  split_chars-append (c ∷ x) y r = split_chars-append x y (split_char ifs ns c r)

  split_chars-two :
      (c c' : ℕ) (str : Text) (r : Text × Split)
      → split_chars ifs ns (c ∷ c' ∷ str) r
        ≡ split_chars ifs ns str (split_char ifs ns c' (split_char ifs ns c r))
  unfolding split_chars
  split_chars-two c c' str r = refl

  first_other :
      (c : ℕ) (d : Split)
      → strchr ifs c ≡ false
      → split_char ifs ns c ([], d)
        ≡ (c ∷ [], record d { in_ifs = false; in_ifs_non_space = false })
  unfolding split_char
  first_other c d e = rw e

  split_chars-none :
      (str buf : Text) (fields : List (List Word))
      → NoneIn ifs str
      → split_chars ifs ns str (buf, middle fields) ≡ (buf ++ str, middle fields)
  unfolding split_chars
  split_chars-none [] buf fields h = rw (append-nil buf)
  split_chars-none (c ∷ str) buf fields h =
      rw (other_step c buf fields h.0)
        (split_chars-none str (buf ++ c ∷ []) fields h.1 ∙ rw (append_assoc buf (c ∷ []) str))
    where
      other_step :
          (c : ℕ) (buf : Text) (fields : List (List Word))
          → strchr ifs c ≡ false
          → split_char ifs ns c (buf, middle fields) ≡ (buf ++ c ∷ [], middle fields)
      other_step c buf fields e = unfold split_char middle in rw e

-- The data behind one separator, and behind two.
behind : Bool → List (List Word) → Split
behind twice fields = record {
  fields = fields;
  cur_field = none;
  in_ifs = true;
  in_ifs_non_space = twice;
}

two_separators :
    (c : ℕ) (buf : Text) (fields : List (List Word))
    → strchr (c ∷ []) c ≡ true
    → split_char (c ∷ []) (c ∷ []) c (split_char (c ∷ []) (c ∷ []) c (buf, middle fields))
      ≡ ([], behind true (fields ++ one_word buf ∷ []))
unfolding split_char behind middle all_fields
two_separators c buf fields e = rw e

strchr_self : (c : ℕ) → strchr (c ∷ []) c ≡ true
unfolding strchr
strchr_self c = ground arith

one_non_space : (c : ℕ) → isspace c ≡ false → ifs_non_space (c ∷ []) ≡ c ∷ []
unfolding ifs_non_space non_space
one_non_space c e = rw e

module _ (c x y : ℕ) (a b : Text) (ha : NoneIn (c ∷ []) (x ∷ a))
    (hb : NoneIn (c ∷ []) (y ∷ b)) where
  left_field : split_chars (c ∷ []) (c ∷ []) (x ∷ a) ([], initial) ≡ (x ∷ a, middle [])
  unfolding split_chars initial middle
  left_field =
      rw (first_other (c ∷ []) (c ∷ []) x initial ha.0)
        (split_chars-none (c ∷ []) (c ∷ []) a (x ∷ []) [] ha.1)

  right_field :
      (fields : List (List Word))
      → split_chars (c ∷ []) (c ∷ []) (y ∷ b) ([], behind true fields) ≡ (y ∷ b, middle fields)
  unfolding split_chars behind middle
  right_field fields =
      rw (first_other (c ∷ []) (c ∷ []) y _ hb.0)
        (split_chars-none (c ∷ []) (c ∷ []) b (y ∷ []) fields hb.1)

  both_fields :
      split_chars (c ∷ []) (c ∷ []) ((x ∷ a) ++ (c ∷ c ∷ y ∷ b)) ([], initial)
      ≡ (y ∷ b, middle (one_word (x ∷ a) ∷ []))
  both_fields =
      split_chars-append (c ∷ []) (c ∷ []) (x ∷ a) (c ∷ c ∷ y ∷ b) ([], initial)
      ∙ ap (split_chars (c ∷ []) (c ∷ []) (c ∷ c ∷ y ∷ b)) left_field
      ∙ split_chars-two (c ∷ []) (c ∷ []) c c (y ∷ b) _
      ∙ ap (split_chars (c ∷ []) (c ∷ []) (y ∷ b)) (two_separators c (x ∷ a) [] (strchr_self c))
      ∙ right_field (one_word (x ∷ a) ∷ [])

  split_by-adjacent :
      isspace c ≡ false
      → split_by (c ∷ []) (string ((x ∷ a) ++ (c ∷ c ∷ y ∷ b)) false true)
        ≡ ok (field_word (one_word (x ∷ a)) ∷ field_word (one_word (y ∷ b)) ∷ [])
  unfolding split_by split_word
  split_by-adjacent solid = rw (one_non_space c solid) (
      ap (λ r. ok (map field_word (all_fields (flush r)))) both_fields
      ∙ (unfold all_fields flush middle in refl))

-- With one separator that is not white space, two parts that are not empty, have no separator in
-- them and are set apart by it twice come out as two fields: the empty field between the two
-- separators is lost.
pub split_fields-adjacent :
    (c x y : ℕ) (a b : Text)
    → isspace c ≡ false
    → NoneIn (c ∷ []) (x ∷ a)
    → NoneIn (c ∷ []) (y ∷ b)
    → split_fields (string ((x ∷ a) ++ (c ∷ c ∷ y ∷ b)) false true) (some (c ∷ []))
      ≡ ok (field_word (one_word (x ∷ a)) ∷ field_word (one_word (y ∷ b)) ∷ [])
unfolding split_fields
split_fields-adjacent c x y a b solid ha hb = split_by-adjacent c x y a b ha hb solid
