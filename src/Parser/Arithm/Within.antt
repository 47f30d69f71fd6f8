-- ===== src/Parser/Arithm/Within.antt =====
-- Parsers that return, and read input when they have a result.
use mrsh.Base.{ℕ, ◌≤◌, ◌<◌, ◌≡◌, refl, ◌⊎◌, inl, inr, Option, none, some, Text, arith}
use mrsh.Arithm.Syntax.{Expr, BinopType}
use mrsh.Parser.Input.{Parser, Parsed, parsed, out_of_fuel, after, parser_set_error}
use mrsh.Parser.Sizes.{size, set_error-rest}
use mrsh.Parser.Arithm.Levels.{Reader}

-- The call returns: NULL and at most `m` bytes left, or a result and fewer.
abbrev pub Within : ℕ → Parsed Expr → Type 0
Within m (parsed none q) = size q ≤ m
Within m (parsed (some e) q) = size q < m
Within m out_of_fuel = ⊥

-- On every input of fewer than `n` bytes.
abbrev pub Ends : ℕ → (Parser → Parsed Expr) → Type 0
Ends n f = (p : Parser) → size p < n → Within (size p) (f p)

abbrev pub Reads : ℕ → Option BinopType × Parser → Type 0
Reads m (none, q) = size q ≤ m
Reads m (some type', q) = size q < m

abbrev pub IsReader : Reader → Type 0
IsReader op = (p : Parser) → Reads (size p) (op p)

pub Within-weaken : (m n : ℕ) (x : Parsed Expr) → m ≤ n → Within m x → Within n x
Within-weaken m n (parsed none q) le h = omega arith
Within-weaken m n (parsed (some e) q) le h = omega arith
Within-weaken m n out_of_fuel le h = elim h [ ]

pub after-Within :
    (m n : ℕ) (x : Parsed Expr) (next : Option Expr → Parser → Parsed Expr)
    → Within m x
    → ((q : Parser) → size q ≤ m → Within n (next none q))
    → ((e : Expr) (q : Parser) → size q < m → Within n (next (some e) q))
    → Within n (after x next)
after-Within m n (parsed none q) next h f g = f q h
after-Within m n (parsed (some e) q) next h f g = g e q h
after-Within m n out_of_fuel next h f g = elim h [ ]

pub error-Within :
    (m : ℕ) (msg : Text) (q : Parser) → size q ≤ m → Within m (parsed none (parser_set_error msg q))
error-Within m msg q h = rw (set_error-rest msg q) h

-- An operator is read, or none is found.
pub Reads-cases :
    (m : ℕ) (x : Option BinopType × Parser)
    → Reads m x
    → ((q : Parser) × (x ≡ (none, q)) × (size q ≤ m))
      ⊎ ((type' : BinopType) × (q : Parser) × (x ≡ (some type', q)) × (size q < m))
Reads-cases m (none, q) h = inl (q, refl, h)
Reads-cases m (some type', q) h = inr (type', q, refl, h)
