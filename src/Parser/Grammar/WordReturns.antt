-- ===== src/Parser/Grammar/WordReturns.antt =====
-- Fuel for words with the expansions that they hold: parser/word.c.
use mrsh.Base.{ℕ, suc, ◌<◌, Option}
use mrsh.Ast.{CommandLists}
use mrsh.Parser.Session.{Session, M}
use mrsh.Parser.Session.Below.{size, Below, Keeps}
use mrsh.Parser.Words.Dollar.{expect_dollar, back_quotes}
use mrsh.Parser.Words.WordEnds.{word-Keeps}
use mrsh.Parser.Words.ListEnds.{expect_dollar-Eats, back_quotes-Eats}
use mrsh.Parser.Grammar.Program.{word_at}

-- If the parser of programs returns or aborts on every input of fewer than `n` bytes, and leaves no
-- more than it was given, then so does the parser of words on each of these with fuel `n`, however
-- its quotes, expansions, lists and substitutions are nested: it does not run out of fuel.
pub word_at-Returns :
    (program : M (Option CommandLists)) (n : ℕ) (s : Session)
    → Keeps n program
    → size s < n
    → Below (suc (size s)) (word_at program n s)
unfolding word_at
word_at-Returns program n s k h =
    (word-Keeps (expect_dollar program n) (back_quotes program n) n (expect_dollar-Eats program n k)
        (back_quotes-Eats program n k) 0).run
      s h
