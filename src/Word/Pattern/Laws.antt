-- ===== src/Word/Pattern/Laws.antt =====
-- What the patterns of shell/word.c stand for.
use mrsh.Base.{
  ℕ, ◌==◌, ◌≡◌, ◌≢◌, refl, Bool, true, false, none, Outcome, ok, ◌>>=◌, Text, List, str_eq, ◌∙◌,
  ◌&&◌, ◌||◌, [], ◌∷◌, ◌++◌, arith, Bool-cases, inl, inr,
}
use mrsh.Ast.{Word}
use mrsh.Word.Str.{word_str}
use mrsh.Word.Pattern.{
  is_pathname_metachar, escape, needs_pathname_expansion, word_to_pattern, Glob, expand_field,
  expand_pathnames, get_fields_str,
}

abbrev pub is_nil : Text → Bool
is_nil [] = true
is_nil (d ∷ str) = false

abbrev pub first_is : ℕ → (Text → Bool) → Text → Bool
first_is c rest [] = false
first_is c rest (d ∷ str) = c == d && rest str

-- What the C library says of `fnmatch(pattern, string, 0) == 0`, without its special characters: the
-- end of the pattern matches the end of the string, a backslash quotes the byte behind it, which then
-- matches itself, and so does a byte that is none of `*`, `?`, `[` and the backslash, which is 92.
pub record IsFnmatch (fnmatch : Text → Text → Bool) : Type 0 where
  pub ends : (str : Text) → fnmatch [] str ≡ is_nil str
  pub quoted : (c : ℕ) (p str : Text) → fnmatch (92 ∷ c ∷ p) str ≡ first_is c (fnmatch p) str
  pub ordinary :
      (c : ℕ) (p str : Text)
      → (c == b'*' || (c == b'?' || (c == b'[' || c == 92))) ≡ false
      → fnmatch (c ∷ p) str ≡ first_is c (fnmatch p) str

abbrev pub NoBackslash : Text → Type 0
NoBackslash [] = Unit
NoBackslash (c ∷ str) = (c ≢ 92) × NoBackslash str

first_is-str_eq :
    (c : ℕ) (cs str : Text) (rest : Text → Bool)
    → ((other : Text) → rest other ≡ str_eq cs other)
    → first_is c rest str ≡ str_eq (c ∷ cs) str
unfolding str_eq
first_is-str_eq c cs [] rest h = refl
first_is-str_eq c cs (d ∷ str) rest h = rw (h str) refl

backslash_plain : is_pathname_metachar 92 ≡ false
unfolding is_pathname_metachar
backslash_plain = refl

-- A quoted string without backslashes becomes a pattern that, for any function that does with
-- backslashes and ordinary bytes what fnmatch does, matches that string and no other.
pub fnmatch-escape :
    (fnmatch : Text → Text → Bool) (str other : Text)
    → IsFnmatch fnmatch
    → NoBackslash str
    → fnmatch (escape true str) other ≡ str_eq str other
unfolding escape is_pathname_metachar
fnmatch-escape fnmatch [] [] is h = is.ends [] ∙ unfold str_eq in refl
fnmatch-escape fnmatch [] (d ∷ other) is h = is.ends (d ∷ other) ∙ unfold str_eq in refl
fnmatch-escape fnmatch (c ∷ str) other is h = elim (Bool-cases (is_pathname_metachar c)) [
  | inl meta ↦ rw meta (
      is.quoted c (escape true str) other
      ∙ first_is-str_eq c str other (fnmatch (escape true str))
          (λ rest. fnmatch-escape fnmatch str rest is h.1))
  | inr plain ↦ rw plain (
      is.ordinary c (escape true str) other (ground (arith, plain, h))
      ∙ first_is-str_eq c str other (fnmatch (escape true str))
          (λ rest. fnmatch-escape fnmatch str rest is h.1))
]

-- A quoted backslash is not escaped: it quotes the escape of a metacharacter behind it, which is then
-- left as one that is not quoted.
fnmatch-escape_backslash :
    (fnmatch : Text → Text → Bool) (c : ℕ) (str other : Text)
    → IsFnmatch fnmatch
    → is_pathname_metachar c ≡ true
    → fnmatch (escape true (92 ∷ c ∷ str)) (92 ∷ other) ≡ fnmatch (c ∷ escape true str) other
unfolding escape
fnmatch-escape_backslash fnmatch c str other is meta =
    rw (backslash_plain, meta) (is.quoted 92 (c ∷ escape true str) (92 ∷ other))

-- No field has an unquoted metacharacter.
abbrev pub AllPlain : List Word → Type 0
AllPlain [] = Unit
AllPlain (w ∷ ws) = (needs_pathname_expansion w ≡ ok false) × AllPlain ws

-- Fields without an unquoted metacharacter come through pathname expansion as their strings, and the
-- file system is not asked.
pub expand_pathnames-plain :
    (glob : Text → Glob) (fields : List Word)
    → AllPlain fields
    → expand_pathnames glob fields ≡ get_fields_str fields
unfolding expand_pathnames get_fields_str expand_field
expand_pathnames-plain glob [] h = refl
expand_pathnames-plain glob (w ∷ ws) h =
    rw (plain w h.0, expand_pathnames-plain glob ws h.1) (once (word_str w) (get_fields_str ws))
  where
    plain : (w : Word) → needs_pathname_expansion w ≡ ok false → word_to_pattern w ≡ ok none
    plain w e = unfold word_to_pattern in rw e

    once :
        (r : Outcome Text) (rest : Outcome (List Text))
        → ((r >>= λ s. ok (s ∷ [])) >>= λ a. rest >>= λ b. ok (a ++ b))
          ≡ (r >>= λ a. rest >>= λ b. ok (a ∷ b))
    once (ok s) rest = refl
    once Outcome.failed rest = refl
    once Outcome.undefined rest = refl
