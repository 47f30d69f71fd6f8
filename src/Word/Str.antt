-- ===== src/Word/Str.antt =====
-- Words as strings: `mrsh_word_str` (ast.c), and the tests and marks of shell/task/word.c that go
-- through a word. Where C aborts, on a word that is not expanded, the result is `undefined`.
use mrsh.Base.{
  Bool, true, false, Outcome, ok, undefined, ◌>>=◌, >>=-ok, [], ◌∷◌, ◌++◌, Text, ◌≡◌, refl,
}
use mrsh.Ast.{
  Word, Words, OptWord, string, parameter, command, arithmetic, list, nil, cons, no_word, a_word,
}
use mrsh.Ast.Copy.{word_copy}

unfoldable mutual
  pub word_str : Word → Outcome Text
  word_str (string str single_quoted split_fields) = ok str
  word_str (list children double_quoted) = words_str children
  word_str (parameter name op colon arg) = undefined
  word_str (command prog back_quoted) = undefined
  word_str (arithmetic body) = undefined

  pub words_str : Words → Outcome Text
  words_str nil = ok []
  words_str (cons w ws) = word_str w >>= λ a. words_str ws >>= λ b. ok (a ++ b)

abbrev pub is_empty : Text → Bool
is_empty [] = true
is_empty _ = false

-- The children are tested up to the first that is not null.
unfoldable mutual
  pub is_null_word : Word → Outcome Bool
  is_null_word (string str single_quoted split_fields) = ok (is_empty str)
  is_null_word (list children double_quoted) = are_null_words children
  is_null_word (parameter name op colon arg) = undefined
  is_null_word (command prog back_quoted) = undefined
  is_null_word (arithmetic body) = undefined

  pub are_null_words : Words → Outcome Bool
  are_null_words nil = ok true
  are_null_words (cons w ws) =
      is_null_word w >>= λ null. elim null [ true ↦ are_null_words ws | false ↦ ok false ]

unfoldable mutual
  pub mark_word_split_fields : Word → Word
  mark_word_split_fields (string str single_quoted split_fields) = string str single_quoted true
  mark_word_split_fields (list children double_quoted) =
      list (mark_words_split_fields children) double_quoted
  mark_word_split_fields (parameter name op colon arg) = parameter name op colon arg
  mark_word_split_fields (command prog back_quoted) = command prog back_quoted
  mark_word_split_fields (arithmetic body) = arithmetic body

  pub mark_words_split_fields : Words → Words
  mark_words_split_fields nil = nil
  mark_words_split_fields (cons w ws) = cons (mark_word_split_fields w) (mark_words_split_fields ws)

unfoldable pub copy_word_or_null : OptWord → Outcome Word
copy_word_or_null no_word = ok (string [] false false)
copy_word_or_null (a_word w) = word_copy w

-- One more child: it is null if its string is empty, and the tests go on only then.
null_rest :
    (a b s : Text) (r : Outcome Bool)
    → ok (a ++ b) ≡ ok s
    → r ≡ ok (is_empty b)
    → (elim (is_empty a) [ true ↦ r | false ↦ ok false ]) ≡ ok (is_empty s)
null_rest [] b s r e h = cc
null_rest (c ∷ a) b s r e h = let p : c ∷ (a ++ b) ≡ s = cc in rw (← p)

mutual
  unfolding word_str is_null_word

  is_null-str : (w : Word) (s : Text) → word_str w ≡ ok s → is_null_word w ≡ ok (is_empty s)
  is_null-str (string str q f) s h = let e : str ≡ s = cc in rw e
  is_null-str (list children q) s h = are_null-str children s h
  is_null-str (parameter name op colon arg) s h = cc
  is_null-str (command prog q) s h = cc
  is_null-str (arithmetic body) s h = cc

  are_null-str : (ws : Words) (s : Text) → words_str ws ≡ ok s → are_null_words ws ≡ ok (is_empty s)
  are_null-str nil s h = let e : [] ≡ s = cc in rw (← e)
  are_null-str (cons w ws) s h =
      let (a, e, k) = >>=-ok (word_str w) _ s h in
      let (b, f, m) = >>=-ok (words_str ws) _ s k in
      rw (is_null-str w a e) (null_rest a b s (are_null_words ws) m (are_null-str ws b f))

-- A word that has a string is null exactly when the string is empty.
pub is_null_word-str : (w : Word) (s : Text) → word_str w ≡ ok s → is_null_word w ≡ ok (is_empty s)
is_null_word-str w s h = is_null-str w s h

mutual
  unfolding word_str mark_word_split_fields

  mark-str : (w : Word) → word_str (mark_word_split_fields w) ≡ word_str w
  mark-str (string str q f) = refl
  mark-str (list children q) = marks-str children
  mark-str (parameter name op colon arg) = refl
  mark-str (command prog q) = refl
  mark-str (arithmetic body) = refl

  marks-str : (ws : Words) → words_str (mark_words_split_fields ws) ≡ words_str ws
  marks-str nil = refl
  marks-str (cons w ws) = rw (mark-str w, marks-str ws)

-- Marking a word for field splitting keeps its string.
pub mark_word_split_fields-str : (w : Word) → word_str (mark_word_split_fields w) ≡ word_str w
mark_word_split_fields-str w = mark-str w
