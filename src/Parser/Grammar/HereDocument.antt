-- ===== src/Parser/Grammar/HereDocument.antt =====
-- Here-documents: parser/program.c. A line is read by a parser of its own.
pub mod Lines
use mrsh.Base.{
  ℕ, zero, suc, ◌==◌, ◌&&◌, ◌||◌, Bool, true, false, not, if◌then◌else◌, Outcome, ok, failed,
  undefined, List, [], ◌∷◌, ◌++◌, Option, none, some, Text, text, str_eq,
}
use mrsh.Ast.{
  Word, Words, nil, cons, string, parameter, command, arithmetic, list, IoRedirectOp, CommandLists,
}
use mrsh.Ast
use mrsh.Word.Str.{word_str}
use mrsh.Parser.Input.{span}
use mrsh.Parser.Session.{
  Session, Step, stepped, aborted, out_of_fuel, exhausted, M, ◌>>=◌, ◌>>◌, return, peek_char,
  peek_second, read_char, set_error, advance, consume_symbol, read_continuation_line, HereDocument,
  Line, line, null, holds_null,
}
use mrsh.Parser.Words.{words_of}
use mrsh.Parser.Words.Dollar.{subparser, keep_documents}

-- The children of a line; back quotes with an error leave NULL among them.
abbrev push_string : List (Option Word) → Text → List (Option Word)
push_string children [] = children
push_string children (c ∷ buf) = children ++ (some (string (c ∷ buf) false false) ∷ [])

abbrev all_words : List (Option Word) → Option (List Word)
all_words [] = some []
all_words (none ∷ children) = none
all_words (some w ∷ children) = elim (all_words children) [ none ↦ none | some ws ↦ some (w ∷ ws) ]

abbrev join_line : List (Option Word) → Line
join_line (none ∷ []) = null
join_line (some w ∷ []) = line w
join_line children = elim (all_words children) [
  | none ↦ holds_null
  | some ws ↦ line (list (words_of ws) false)
]

abbrev quoted_here : ℕ → Bool
quoted_here next = next == b'$' || (next == b'`' || next == 92)

module _ (expect_dollar back_quotes : M (Option Word)) where
  unfoldable pub here_document_line_loop : ℕ → List (Option Word) → Text → M Line
  unfolding read_char
  here_document_line_loop zero children buf = exhausted
  here_document_line_loop (suc fuel) children buf =
      (peek_char >>= λ c. peek_second >>= λ next.
      if c == 0
      then return (join_line (push_string children buf))
      else (if c == b'$'
          then (expect_dollar >>= λ t. elim t [
            | none ↦ return null
            | some w ↦ here_document_line_loop fuel (push_string children buf ++ (some w ∷ [])) []
          ])
          else (if c == b'`'
              then (back_quotes >>= λ t.
                  here_document_line_loop fuel (push_string children buf ++ (t ∷ [])) [])
              else (if c == 92 && quoted_here next
                  then (read_char >>= λ _.
                      read_char >>= λ d. here_document_line_loop fuel children (buf ++ (d ∷ [])))
                  else (read_char >>= λ _.
                      here_document_line_loop fuel children (buf ++ (c ∷ [])))))))

-- An expansion aborts.
unfoldable mutual
  pub is_word_quoted : Word → Outcome Bool
  is_word_quoted (string str single_quoted split_fields) = ok single_quoted
  is_word_quoted (list children true) = ok true
  is_word_quoted (list children false) = are_words_quoted children
  is_word_quoted (parameter name op colon arg) = undefined
  is_word_quoted (command prog back_quoted) = undefined
  is_word_quoted (arithmetic body) = undefined

  pub are_words_quoted : Words → Outcome Bool
  are_words_quoted nil = ok false
  are_words_quoted (cons w ws) = elim (is_word_quoted w) [
    | ok quoted ↦ if quoted then ok true else are_words_quoted ws
    | failed ↦ failed
    | undefined ↦ undefined
  ]

-- The input up to the end of the line.
unfoldable pub read_line : M Text
unfolding span
read_line s =
    let r = span (λ c. not (c == 0 || c == 10)) s.input.rest in stepped r.0 (advance s r.1)

abbrev trim : Bool → Text → Text
trim trim_tabs [] = []
trim trim_tabs (c ∷ str) = if trim_tabs && c == 9 then trim trim_tabs str else c ∷ str

abbrev lift_outcome {ℓ} : {A : Type ℓ} → Outcome A → M A
lift_outcome (ok a) s = stepped a s
lift_outcome failed s = aborted
lift_outcome undefined s = aborted

-- The line is read with the expansions of a parser of its own, whose error is lost.
unfoldable pub expand_line : M Line → Text → M Line
expand_line reader str s = elim (reader (subparser str s)) [
  | stepped l sub ↦ stepped l (keep_documents sub s)
  | aborted ↦ aborted
  | out_of_fuel ↦ out_of_fuel
]

module _ (reader : M Line) where
  unfoldable pub here_document_loop :
      ℕ → (trim_tabs expand_lines : Bool) → Text → List Line → M (Option (List Line))
  unfolding read_line read_char set_error read_continuation_line consume_symbol expand_line
  here_document_loop zero trim_tabs expand_lines delim lines = exhausted
  here_document_loop (suc fuel) trim_tabs expand_lines delim lines =
      (read_line >>= λ whole. peek_char >>= λ c.
      let str = trim trim_tabs whole in
      if str_eq str delim
      then ((if c == 10 then (read_char >> return tt) else return tt) >>= λ (_ : Unit {0}).
          consume_symbol >> return (some lines))
      else (if c == 0
          then (set_error (text "unterminated here-document") >> return none)
          else (read_continuation_line >>= λ _.
              (if expand_lines
                then expand_line reader str
                else return (line (string str true false)))
              >>= λ l. here_document_loop fuel trim_tabs expand_lines delim (lines ++ (l ∷ [])))))

  abbrev trims_tabs : IoRedirectOp → Bool
  trims_tabs Ast.dlessdash = true
  trims_tabs _ = false

  abbrev add_document : ℕ → List Line → M (Unit {0})
  add_document id lines s = stepped tt (record s { documents = s.documents ++ ((id, lines) ∷ []) })

  unfoldable pub expect_here_document : ℕ → HereDocument → M Bool
  unfolding here_document_loop is_word_quoted word_str
  expect_here_document fuel doc = do
    delim ← lift_outcome (word_str doc.name)
    quoted ← lift_outcome (is_word_quoted doc.name)
    lines ← here_document_loop fuel (trims_tabs doc.op) (not quoted) delim []
    elim lines [ none ↦ return false | some ls ↦ add_document doc.id ls >> return true ]

  -- The loop over the here-documents of a command. `gap` is what comes before each.
  unfoldable pub read_here_documents : ℕ → M Bool → List HereDocument → M Bool
  unfolding expect_here_document
  read_here_documents fuel gap [] = λ s. stepped true (record s { here_documents = [] })
  read_here_documents fuel gap (doc ∷ docs) = do
    open' ← gap
    if not open'
        then return false
        else (expect_here_document fuel doc >>= λ ok'.
            if ok' then read_here_documents fuel gap docs else return false)
