-- ===== src/Parser/Words/Meaning.antt =====
-- Pieces of words, the words they stand for, and that the parser's collecting yields these words.
use mrsh.Base.{
  ℕ, ◌==◌, ◌||◌, ◌≡◌, refl, ◌∙◌, ap, sym, append_assoc, append-nil, true, false, List, [], ◌∷◌,
  ◌++◌, Text,
}
use mrsh.Ast.{Word, Words, string, list, nil, cons}
use mrsh.Parser.Arithm.Print.{All}
use mrsh.Parser.Words.{words_of, join_words, push_buffer_word_string}
use mrsh.Parser.Words.Quoting.{is_single, is_byte, is_plain, escape}
use mrsh.Parser.Words.RoundTrip.{double_word}

pub data Piece : Type 0 where
  plain escaped : ℕ → Piece
  single double : Text → Piece

abbrev pub print : List Piece → Text → Text
print [] rest = rest
print (plain c ∷ ps) rest = c ∷ print ps rest
print (escaped c ∷ ps) rest = 92 ∷ c ∷ print ps rest
print (single str ∷ ps) rest = 39 ∷ (str ++ (39 ∷ print ps rest))
print (double str ∷ ps) rest = 34 ∷ escape str (34 ∷ print ps rest)

abbrev pub IsPiece : Piece → Type 0
IsPiece (plain c) = is_plain c ≡ true
IsPiece (escaped c) = (c == 0 || c == 10) ≡ false
IsPiece (single str) = All is_single str
IsPiece (double str) = All is_byte str

abbrev pub ArePieces : List Piece → Type 0
ArePieces [] = Unit
ArePieces (p ∷ ps) = IsPiece p × ArePieces ps

-- The words of pieces behind those read so far, and the string that is being read: plain and escaped
-- bytes that stand together are one string, which no quotes mark.
abbrev pub collect : List Word → Text → List Piece → List Word × Text
collect children buf [] = (children, buf)
collect children buf (plain c ∷ ps) = collect children (buf ++ (c ∷ [])) ps
collect children buf (escaped c ∷ ps) = collect children (buf ++ (c ∷ [])) ps
collect children buf (single str ∷ ps) =
    collect (push_buffer_word_string children buf ++ (string str true false ∷ [])) [] ps
collect children buf (double str ∷ ps) =
    collect (push_buffer_word_string children buf ++ (double_word str ∷ [])) [] ps

-- A byte in front of what an unquoted string or another word begins.
abbrev pub before : ℕ → List Word → List Word
before c (string str false false ∷ ws) = string (c ∷ str) false false ∷ ws
before c ws = string (c ∷ []) false false ∷ ws

abbrev pub double_quoted_word : Text → Word
double_quoted_word [] = list nil true
double_quoted_word (c ∷ str) = list (cons (string (c ∷ str) false false) nil) true

-- The words that pieces stand for: unquoted bytes that stand together are one string, and each pair of
-- quotes is a word with the text between them.
abbrev pub parts : List Piece → List Word
parts [] = []
parts (plain c ∷ ps) = before c (parts ps)
parts (escaped c ∷ ps) = before c (parts ps)
parts (single str ∷ ps) = string str true false ∷ parts ps
parts (double str ∷ ps) = double_quoted_word str ∷ parts ps

abbrev pub children_of : List Word → Words
children_of [] = nil
children_of (w ∷ ws) = cons w (children_of ws)

-- One part is the word itself, and several are an unquoted list.
abbrev pub whole : List Word → Word
whole [] = list nil false
whole (w ∷ []) = w
whole (w ∷ v ∷ ws) = list (children_of (w ∷ v ∷ ws)) false

abbrev pub meaning : List Piece → Word
meaning ps = whole (parts ps)

-- A text in front.
abbrev before_all : Text → List Word → List Word
before_all [] ws = ws
before_all (c ∷ str) ws = before c (before_all str ws)

-- These words do not begin with an unquoted string.
abbrev IsClosed : List Word → Type 0
IsClosed ws = (c : ℕ) → before c ws ≡ string (c ∷ []) false false ∷ ws

before_all-closed :
    (c : ℕ) (str : Text) (ws : List Word)
    → IsClosed ws
    → before_all (c ∷ str) ws ≡ string (c ∷ str) false false ∷ ws
before_all-closed c [] ws h = h c
before_all-closed c (d ∷ str) ws h = rw (before_all-closed d str ws h) refl

before_all-append :
    (str : Text) (c : ℕ) (ws : List Word)
    → before_all (str ++ (c ∷ [])) ws ≡ before_all str (before c ws)
before_all-append [] c ws = refl
before_all-append (d ∷ str) c ws = rw (before_all-append str c ws) refl

push_buffer-before :
    (children : List Word) (buf : Text) (ws : List Word)
    → IsClosed ws
    → push_buffer_word_string children buf ++ ws ≡ children ++ before_all buf ws
push_buffer-before children [] ws h = refl
push_buffer-before children (c ∷ buf) ws h =
    rw (before_all-closed c buf ws h) (append_assoc children (string (c ∷ buf) false false ∷ []) ws)

double_word-IsClosed :
    (str : Text) (ws : List Word)
    → (double_word str ≡ double_quoted_word str) × IsClosed (double_quoted_word str ∷ ws)
double_word-IsClosed [] ws = (refl, λ c. refl)
double_word-IsClosed (d ∷ str) ws = (refl, λ c. refl)

-- A quoted piece behind what has been read.
quoted-collected :
    (children : List Word) (buf : Text) (w : Word) (ws : List Word)
    → IsClosed (w ∷ ws)
    → (push_buffer_word_string children buf ++ (w ∷ [])) ++ ws ≡ children ++ before_all buf (w ∷ ws)
quoted-collected children buf w ws h =
    append_assoc (push_buffer_word_string children buf) (w ∷ []) ws
    ∙ push_buffer-before children buf (w ∷ ws) h

-- What the loop of `word` collects are the parts, behind those read before.
collect-parts :
    (children : List Word) (buf : Text) (ps : List Piece)
    → push_buffer_word_string (collect children buf ps).0 (collect children buf ps).1
      ≡ children ++ before_all buf (parts ps)
collect-parts children buf [] =
    sym (append-nil (push_buffer_word_string children buf))
    ∙ push_buffer-before children buf [] (λ c. refl)
collect-parts children buf (plain c ∷ ps) =
    collect-parts children (buf ++ (c ∷ [])) ps
    ∙ ap (λ l. children ++ l) (before_all-append buf c (parts ps))
collect-parts children buf (escaped c ∷ ps) =
    collect-parts children (buf ++ (c ∷ [])) ps
    ∙ ap (λ l. children ++ l) (before_all-append buf c (parts ps))
collect-parts children buf (single str ∷ ps) =
    collect-parts (push_buffer_word_string children buf ++ (string str true false ∷ [])) [] ps
    ∙ quoted-collected children buf (string str true false) (parts ps) (λ c. refl)
collect-parts children buf (double str ∷ ps) =
    let (same, closed) = double_word-IsClosed str (parts ps) in
    collect-parts (push_buffer_word_string children buf ++ (double_word str ∷ [])) [] ps
    ∙ (ap (λ w. (push_buffer_word_string children buf ++ (w ∷ [])) ++ parts ps) same
        ∙ quoted-collected children buf (double_quoted_word str) (parts ps) closed)

words_of-children : (ws : List Word) → words_of ws ≡ children_of ws
words_of-children [] = refl
words_of-children (w ∷ ws) = ap (λ l. cons w l) (words_of-children ws)

join_words-whole : (ws : List Word) → join_words ws ≡ whole ws
join_words-whole [] = refl
join_words-whole (w ∷ []) = refl
join_words-whole (w ∷ v ∷ ws) = ap (λ l. list l false) (words_of-children (w ∷ v ∷ ws))

pub collect-meaning :
    (ps : List Piece)
    → join_words (push_buffer_word_string (collect [] [] ps).0 (collect [] [] ps).1) ≡ meaning ps
collect-meaning ps = ap join_words (collect-parts [] [] ps) ∙ join_words-whole (parts ps)
