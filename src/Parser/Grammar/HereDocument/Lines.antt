-- ===== src/Parser/Grammar/HereDocument/Lines.antt =====
-- The lines of a here-document whose delimiter is quoted: parser/program.c.
use mrsh.Base.{
  ℕ, zero, suc, ◌<◌, ◌==◌, ◌||◌, ◌≡◌, refl, ◌∙◌, Bool, true, false, not, List, [], ◌∷◌, ◌++◌,
  append_assoc, append-nil, map, none, some, Text, str_eq, str_eq_refl, length, arith,
}
use mrsh.Ast.{string, dless}
use mrsh.Word.Str.{word_str}
use mrsh.Parser.Arithm.Print.{All}
use mrsh.Parser.Arithm.Atoms.{span-append}
use mrsh.Parser.Session.{
  Session, stepped, M, ◌>>=◌, return, peek_char, read_char, consume_symbol, advance, >>=-stepped,
  HereDocument, Line, line,
}
use mrsh.Parser.Grammar.HereDocument.{
  trim, here_document_loop, expect_here_document, is_word_quoted,
}

-- A byte inside of a line.
abbrev pub in_line : ℕ → Bool
in_line c = not (c == 0 || c == 10)

abbrev pub AreLines : Text → List Text → Type 0
AreLines delim [] = Unit
AreLines delim (l ∷ ls) = All in_line l × (str_eq l delim ≡ false) × AreLines delim ls

-- Each line with its newline.
abbrev pub written : List Text → Text → Text
written [] rest = rest
written (l ∷ ls) rest = l ++ (10 ∷ written ls rest)

trim_none : (str : Text) → trim false str ≡ str
trim_none [] = refl
trim_none (c ∷ str) = refl

unfoldable pub quoted_lines : List Text → List Line
quoted_lines ls = map (λ l. line (string l true false)) ls

abbrev pub quoted_document : ℕ → Text → HereDocument
quoted_document id delim = record { id = id; op = dless; name = string delim true false }

module _ (reader : M Line) where
  here_document_loop-written :
      (ls : List Text) (lines : List Line) (delim rest : Text) (n : ℕ) (s : Session)
      → All in_line delim
      → AreLines delim ls
      → length ls < n
      → here_document_loop reader n false false delim lines
          (advance s (written ls (delim ++ (10 ∷ rest))))
        ≡ stepped
            (some (lines ++ quoted_lines ls))
            (record s { input = record (s.input) { rest = rest; sym = none } })
  unfolding here_document_loop ◌>>=◌ return peek_char read_char consume_symbol quoted_lines
  here_document_loop-written ls lines delim rest zero s d a h = elim h [ ]
  here_document_loop-written [] lines delim rest (suc n) s d a h =
      rw
        (
          here_document_loop,
          span-append in_line delim (10 ∷ rest) d refl,
          trim_none delim,
          str_eq_refl delim,
          append-nil lines,
        )
        refl
  here_document_loop-written (l ∷ ls) lines delim rest (suc n) s d a h =
      let one = line (string l true false) in
      rw
        (
          here_document_loop,
          span-append in_line l (10 ∷ written ls (delim ++ (10 ∷ rest))) a.0 refl,
          trim_none l,
          a.1,
        )
        (here_document_loop-written ls (lines ++ (one ∷ [])) delim rest n s d a.2 (omega arith)
          ∙ rw (append_assoc lines (one ∷ []) (quoted_lines ls)) refl)

  -- Behind `<<'delim'` and its newline come lines that are not the delimiter, and then the
  -- delimiter with a newline. They are the here-document, each with its bytes as they stand, and
  -- the input goes on behind that last newline, of which nothing is left for the grammar.
  pub expect_here_document-written :
      (n id : ℕ) (delim : Text) (ls : List Text) (rest : Text) (s : Session)
      → All in_line delim
      → AreLines delim ls
      → length ls < n
      → expect_here_document reader n
          (quoted_document id delim)
          (advance s (written ls (delim ++ (10 ∷ rest))))
        ≡ stepped true (record s {
          input = record (s.input) { rest = rest; sym = none };
          documents = s.documents ++ ((id, quoted_lines ls) ∷ []);
        })
  unfolding expect_here_document ◌>>=◌ return is_word_quoted word_str
  expect_here_document-written n id delim ls rest s d a h =
      >>=-stepped (here_document_loop reader n false false delim []) _
        (advance s (written ls (delim ++ (10 ∷ rest)))) (some (quoted_lines ls))
        (record s { input = record (s.input) { rest = rest; sym = none } })
        (here_document_loop-written ls [] delim rest n s d a h)
