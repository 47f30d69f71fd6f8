-- ===== src/Builtin/Shift/Laws.antt =====
-- What `shift` leaves of the positional parameters.
use mrsh.Base.{
  ℕ, suc, ◌+◌, ◌-◌, ◌≡◌, refl, ◌∙◌, ap, ltb, leb, true, false, pos, Text, List, [], ◌∷◌, ◌++◌,
  length, get_or, set, arith, append-nil,
}
use mrsh.Builtin.Control.{Strtol}
use mrsh.Builtin.Shift.{Shifted, shift_param, shift_params, shift_by, builtin_shift}

get_or-append :
    (pre : List ℕ) (x y : ℕ) (zs : List ℕ) → get_or (pre ++ (x ∷ y ∷ zs)) (suc (length pre)) 0 ≡ y
get_or-append [] x y zs = refl
get_or-append (p ∷ pre) x y zs = get_or-append pre x y zs

set-append :
    (pre : List ℕ) (x y : ℕ) (zs : List ℕ) → set (pre ++ (x ∷ zs)) (length pre) y ≡ pre ++ (y ∷ zs)
set-append [] x y zs = refl
set-append (p ∷ pre) x y zs = ap (λ l. p ∷ l) (set-append pre x y zs)

snoc : (pre : List ℕ) (y : ℕ) (zs : List ℕ) → pre ++ (y ∷ zs) ≡ (pre ++ (y ∷ [])) ++ zs
snoc [] y zs = refl
snoc (p ∷ pre) y zs = ap (λ l. p ∷ l) (snoc pre y zs)

length-snoc : (pre : List ℕ) (y : ℕ) → length (pre ++ (y ∷ [])) ≡ suc (length pre)
length-snoc [] y = refl
length-snoc (p ∷ pre) y = ap suc (length-snoc pre y)

abbrev pub last_of : ℕ → List ℕ → ℕ
last_of x [] = x
last_of x (y ∷ ys) = last_of y ys

-- A round by one moves the next parameter down.
shift_param-one :
    (pre : List ℕ) (x y : ℕ) (zs : List ℕ) (i argc : ℕ) (freed : List ℕ)
    → length pre ≡ i
    → leb (suc i) (argc - 1) ≡ true
    → shift_param 1 i (suc i) (record { argv = pre ++ (x ∷ y ∷ zs); argc = argc; freed = freed })
      ≡ record { argv = (pre ++ (y ∷ [])) ++ (y ∷ zs); argc = argc; freed = freed }
unfolding shift_param
shift_param-one pre x y zs i argc freed e h =
    rw (h, ← e, get_or-append pre x y zs, set-append pre x y (y ∷ zs), snoc pre y (y ∷ zs)) refl

shift_params-one :
    (rest pre tail : List ℕ) (x i argc : ℕ) (freed : List ℕ)
    → length pre ≡ i
    → argc ≡ i + suc (length rest)
    → shift_params
        (length rest)
        1
        i
        (suc i)
        (record { argv = pre ++ (x ∷ (rest ++ tail)); argc = argc; freed = freed })
      ≡ record { argv = (pre ++ rest) ++ (last_of x rest ∷ tail); argc = argc; freed = freed }
unfolding shift_params
shift_params-one [] pre tail x i argc freed ei e = rw (append-nil pre) refl
shift_params-one (y ∷ rest) pre tail x i argc freed ei e =
    let within : leb (suc i) (argc - 1) ≡ true = ground arith in
    ap (shift_params (length rest) 1 (suc i) (suc (suc i)))
      (shift_param-one pre x y (rest ++ tail) i argc freed ei within)
    ∙ (shift_params-one rest (pre ++ (y ∷ [])) tail y (suc i) argc freed
          (length-snoc pre y ∙ ap suc ei) (omega (arith, e))
        ∙ rw (snoc pre y rest) refl)

-- `shift` without an operand, on a frame whose `argv` has the name, one parameter or more, and cells
-- past `argc`, succeeds and leaves the name and the parameters behind the first within `argc`, which
-- is one less, in the same order. The last parameter stays in the cell past them, and no string is
-- freed.
pub builtin_shift-one :
    (strtol : Strtol) (name : Text) (s : Shifted) (name0 first : ℕ) (rest tail freed : List ℕ)
    → builtin_shift strtol (name ∷ []) (record s {
      params = record {
        argv = name0 ∷ first ∷ (rest ++ tail);
        argc = suc (suc (length rest));
        freed = freed;
      };
    })
      ≡ (
        pos 0,
        record s {
          params = record {
            argv = (name0 ∷ rest) ++ (last_of first rest ∷ tail);
            argc = length (name0 ∷ rest);
            freed = freed;
          };
        },
      )
unfolding builtin_shift shift_by
builtin_shift-one strtol name s name0 first rest tail freed =
    let argc : ℕ = suc (suc (length rest)) in
    let enough : ltb (argc - 1) 1 ≡ false = ground arith in
    let rounds : argc - (1 + 1) ≡ length rest = omega arith in
    let left : argc - 1 ≡ suc (length rest) = omega arith in
    rw
      (
        enough,
        rounds,
        shift_params-one rest (name0 ∷ []) tail first 1 argc freed refl (omega arith),
        left,
      )
      refl
