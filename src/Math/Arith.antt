-- ===== src/Math/Arith.antt =====
-- The operations of js_math.c on two numbers. Nothing is where C does not say what happens: a field
-- that has not been set, a shift by 64 or more, and the quotient of the least number and -1.
use Prim.Native.Nat.{bit_and, bit_or, bit_xor}
use javascript_database.Common.{
  ℕ, ◌+◌, ◌-◌, ◌*◌, ◌/◌, ◌%◌, ◌^◌, Bool, true, false, not, ◌&&◌, Option, none, some, ltb, ◌==◌,
  if◌then◌else◌,
}
use javascript_database.Math.Values.{
  long_mod, long_min, is_neg, Doubles, Value, nan, int, dbl, date, infinite, nval_of, dbl_of,
}

abbrev pub xor : Bool → Bool → Bool
xor true b = not b
xor false b = b

abbrev pub neg_long : ℕ → ℕ
neg_long n = (long_mod - n) % long_mod

-- The absolute value.
abbrev pub magnitude : ℕ → ℕ
magnitude n = if is_neg n then long_mod - n else n

abbrev pub signed : Bool → ℕ → ℕ
signed negative n = if negative then neg_long n else n

-- C rounds a quotient towards 0, and the remainder has the sign of the dividend.
abbrev pub long_div : ℕ → ℕ → ℕ
long_div a b = signed (xor (is_neg a) (is_neg b)) (magnitude a / magnitude b)

abbrev pub long_rem : ℕ → ℕ → ℕ
long_rem a b = signed (is_neg a) (magnitude a % magnitude b)

abbrev pub traps : ℕ → ℕ → Bool
traps a b = a == long_min && b == long_mod - 1

module _ {F : Type 0} (doubles : Doubles F) where
  abbrev pub on_long : Value F → (ℕ → ℕ) → Option (Value F)
  on_long right f = elim (nval_of doubles right) [ none ↦ none | some n ↦ some (int (f n)) ]

  abbrev pub on_dbl : Value F → (F → F) → Option (Value F)
  on_dbl right f = elim (dbl_of doubles right) [ none ↦ none | some g ↦ some (dbl (f g)) ]

  abbrev pub on_date : Value F → (ℕ → ℕ) → Option (Value F)
  on_date right f = elim (nval_of doubles right) [ none ↦ none | some n ↦ some (date (f n)) ]

  unfoldable pub op_add : Value F → Value F → Option (Value F)
  op_add (infinite l) (infinite r) = some (if xor r l then nan else infinite r)
  op_add left (infinite r) = some (infinite r)
  op_add (date n) right = on_date right (λ m. (n + m) % long_mod)
  op_add (int n) right = on_long right (λ m. (n + m) % long_mod)
  op_add (dbl f) right = on_dbl right (λ g. doubles.add f g)
  op_add (infinite l) right = some (infinite l)
  op_add left right = some nan

  abbrev pub minus : ℕ → ℕ → ℕ
  minus n m = (n + neg_long m) % long_mod

  unfoldable pub op_sub : Value F → Value F → Option (Value F)
  op_sub (infinite l) (infinite r) = some (if xor (not r) l then nan else infinite r)
  op_sub left (infinite r) = some (infinite (not r))
  op_sub (date n) (date m) = some (int (minus n m))
  op_sub (date n) right = on_date right (λ m. minus n m)
  op_sub (int n) right = on_long right (λ m. minus n m)
  op_sub (dbl f) right = on_dbl right (λ g. doubles.sub f g)
  op_sub (infinite l) right = some (infinite l)
  op_sub left right = some nan

  -- The sign of the left operand, and whether it is 0.
  abbrev pub sign_of : Value F → Bool
  sign_of (infinite negative) = negative
  sign_of (int n) = is_neg n
  sign_of (dbl f) = doubles.lt f doubles.zero
  sign_of _ = false

  abbrev pub is_zero : Value F → Bool
  is_zero (int n) = n == 0
  is_zero (dbl f) = doubles.eq f doubles.zero
  is_zero _ = false

  unfoldable pub op_mpy : Value F → Value F → Option (Value F)
  op_mpy left (infinite r) = some (if is_zero left then nan else infinite (xor r (sign_of left)))
  op_mpy (int n) right = on_long right (λ m. n * m % long_mod)
  op_mpy (dbl f) right = on_dbl right (λ g. doubles.mpy f g)
  op_mpy (infinite l) right = some (if is_zero right then nan else infinite (xor l l))
  op_mpy left right = some nan

  -- The sign that the case of an infinite left operand reads.
  abbrev pub divisor_sign : Value F → Bool
  divisor_sign (int n) = is_neg n
  divisor_sign (dbl f) = doubles.lt f doubles.zero
  divisor_sign _ = false

  abbrev pub div_long : ℕ → ℕ → Option (Value F)
  div_long n m =
      if not (m == 0)
      then (if traps n m then none else some (int (long_div n m)))
      else if not (n == 0)
      then some (infinite (xor (is_neg n) (is_neg m)))
      else some nan

  abbrev pub div_dbl : F → F → Value F
  div_dbl f g =
      if not (doubles.eq g doubles.zero)
      then dbl (doubles.div f g)
      else if not (doubles.eq f doubles.zero)
      then infinite (xor (doubles.lt f doubles.zero) (doubles.lt g doubles.zero))
      else nan

  unfoldable pub op_div : Value F → Value F → Option (Value F)
  op_div (infinite l) (infinite r) = some nan
  op_div left (infinite r) = some (int 0)
  op_div (int n) right = elim (nval_of doubles right) [ none ↦ none | some m ↦ div_long n m ]
  op_div (dbl f) right = elim (dbl_of doubles right) [ none ↦ none | some g ↦ some (div_dbl f g) ]
  op_div (infinite l) right = some (infinite (xor l (divisor_sign right)))
  op_div left right = some nan

  abbrev pub rem_long : ℕ → ℕ → Option (Value F)
  rem_long n m = if m == 0 then some nan else if traps n m then none else some (int (long_rem n m))

  -- (int64_t)left % (int64_t)right, which traps where the right side is rounded to 0.
  abbrev pub rem_dbl : F → F → Option (Value F)
  rem_dbl f g =
      if doubles.eq g doubles.zero
      then some nan
      else if doubles.to_int g == 0
      then none
      else if traps (doubles.to_int f) (doubles.to_int g)
      then none
      else (let result = long_rem (doubles.to_int f) (doubles.to_int g) in
          let fract = doubles.sub f (doubles.floor f) in
          if doubles.eq fract doubles.zero
          then some (int result)
          else some (dbl (doubles.add (doubles.of_int result) fract)))

  unfoldable pub op_mod : Value F → Value F → Option (Value F)
  op_mod (int n) right = elim (nval_of doubles right) [ none ↦ none | some m ↦ rem_long n m ]
  op_mod (dbl f) right = elim (dbl_of doubles right) [ none ↦ none | some g ↦ rem_dbl f g ]
  op_mod left right = some nan

pub data ArithOp : Type 0 where
  math_add math_sub math_mpy math_div math_mod : ArithOp

pub data BitOp : Type 0 where
  math_or math_and math_xor math_lshift math_rshift math_rushift : BitOp

-- mathLink
abbrev pub math_link : {F : Type 0} → Doubles F → ArithOp → Value F → Value F → Option (Value F)
math_link doubles math_add left right = op_add doubles left right
math_link doubles math_sub left right = op_sub doubles left right
math_link doubles math_mpy left right = op_mpy doubles left right
math_link doubles math_div left right = op_div doubles left right
math_link doubles math_mod left right = op_mod doubles left right

-- An arithmetic shift to the right.
abbrev pub shift_right : ℕ → ℕ → ℕ
shift_right n m = if is_neg n then (long_mod - 1) - (long_mod - 1 - n) / 2 ^ m else n / 2 ^ m

-- bitLink, on the fields nval.
unfoldable pub bit_link : BitOp → ℕ → ℕ → Option ℕ
bit_link math_or n m = some (bit_or n m)
bit_link math_and n m = some (bit_and n m)
bit_link math_xor n m = some (bit_xor n m)
bit_link math_lshift n m = if ltb m 64 then some (n * 2 ^ m % long_mod) else none
bit_link math_rshift n m = if ltb m 64 then some (shift_right n m) else none
bit_link math_rushift n m = if ltb m 64 then some (n / 2 ^ m) else none
