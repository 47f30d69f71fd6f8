-- ===== src/Arithm/Long.antt =====
-- C's `long` on 64 bits: the operators that shell/arithm.c applies. A result that does not fit is
-- `undefined`, as signed overflow is, and so are the shifts that C leaves undefined.
use mrsh.Base.{
  ℕ, suc, ◌-◌, ◌*◌, ◌/◌, ◌^◌, ◌==◌, Bool, true, false, not, ltb, leb, if◌then◌else◌, Outcome, ok,
  undefined, ℤ, pos, negsuc, ◌-ℤ◌, ◌*ℤ◌, neg_ℤ,
}

abbrev pub long_max : ℕ
long_max = 2 ^ 63 - 1

-- -2^63 is `negsuc (2^63 - 1)`.
abbrev pub in_range : ℤ → Bool
in_range (pos n) = leb n long_max
in_range (negsuc n) = leb n long_max

-- A signed result.
unfoldable pub checked : ℤ → Outcome ℤ
checked z = if in_range z then ok z else undefined

abbrev pub of_bool : Bool → ℤ
of_bool true = pos 1
of_bool false = pos 0

-- The truth of an `int` or `long` as a condition.
abbrev pub nonzero : ℤ → Bool
nonzero (pos n) = not (n == 0)
nonzero (negsuc n) = true

-- `a / b` and `a % b` truncate towards zero; a zero divisor is tested before.
unfoldable pub quot : ℤ → ℤ → ℤ
quot (pos a) (pos b) = pos (a / b)
quot (pos a) (negsuc b) = neg_ℤ (pos (a / suc b))
quot (negsuc a) (pos b) = neg_ℤ (pos (suc a / b))
quot (negsuc a) (negsuc b) = pos (suc a / suc b)

unfoldable pub rem : ℤ → ℤ → ℤ
rem a b = a -ℤ quot a b *ℤ b

unfoldable pub long_div : ℤ → ℤ → Outcome ℤ
unfolding quot
long_div a b = checked (quot a b)

-- `LONG_MIN % -1` is undefined, like the quotient.
unfoldable pub long_rem : ℤ → ℤ → Outcome ℤ
unfolding quot rem
long_rem a b = if in_range (quot a b) then ok (rem a b) else undefined

-- The two's complement pattern of a `long`, and back.
unfoldable pub to_bits : ℤ → ℕ
to_bits (pos n) = n
to_bits (negsuc n) = 2 ^ 64 - 1 - n

unfoldable pub of_bits : ℕ → ℤ
of_bits n = if ltb n (2 ^ 63) then pos n else negsuc (2 ^ 64 - 1 - n)

unfoldable pub bitwise : (ℕ → ℕ → ℕ) → ℤ → ℤ → ℤ
unfolding to_bits of_bits
bitwise f a b = of_bits (f (to_bits a) (to_bits b))

-- `~a` is -a - 1.
unfoldable pub complement : ℤ → ℤ
complement (pos n) = negsuc n
complement (negsuc n) = pos n

-- `a << b`: undefined for a negative operand, a count of 64 or more, or a result that does not fit.
unfoldable pub shift_left : ℤ → ℤ → Outcome ℤ
shift_left (pos a) (pos b) = if ltb b 64 then checked (pos (a * 2 ^ b)) else undefined
shift_left (pos a) (negsuc b) = undefined
shift_left (negsuc a) b = undefined

-- `a >> b`: on a negative number the sign bit is copied, as the compilers for this ABI do.
unfoldable pub shift_right : ℤ → ℤ → Outcome ℤ
shift_right (pos a) (pos b) = if ltb b 64 then ok (pos (a / 2 ^ b)) else undefined
shift_right (negsuc a) (pos b) = if ltb b 64 then ok (negsuc (a / 2 ^ b)) else undefined
shift_right a (negsuc b) = undefined
