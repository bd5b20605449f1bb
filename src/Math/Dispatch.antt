-- ===== src/Math/Dispatch.antt =====
-- `eval_math` and `eval_neg`, on the values of their operands.
use javascript_database.Common.{
  ℕ, ◌-◌, Bool, true, false, not, ◌&&◌, ◌||◌, Option, some, List, ◌++◌, ltb, ◌==◌, if◌then◌else◌,
  ◌>>=◌,
}
use javascript_database.Math.Values.{
  long_mod, Doubles, Ctl, Value, undef, nan, bool, int, dbl, infinite, string, control, vt_number,
  type_of, nval_of,
}
use javascript_database.Math.Convert.{conv2_bool, conv2_int, conv}
use javascript_database.Math.Arith.{
  neg_long, ArithOp, BitOp, math_add, math_link, bit_link, op_add, op_sub, op_mpy, op_div, op_mod,
}
use javascript_database.Math.Compare.{
  CompareOp, bool_link, op_lt, op_le, op_eq, op_ne, op_ge, op_gt,
}

-- The aux field of a node_math.
pub data MathOp : Type 0 where
  arith_op : ArithOp → MathOp
  bit_op : BitOp → MathOp
  compare_op : CompareOp → MathOp

pub data NegOp : Type 0 where
  neg_uminus neg_bitnot neg_not : NegOp

abbrev pub is_string : {F : Type 0} → Value F → Bool
is_string v = type_of v == 7

abbrev pub is_add : ArithOp → Bool
is_add math_add = true
is_add _ = false

-- What the evaluation takes from outside: the doubles, `js_strtod`, what `conv2Str` gives, and the
-- field ctl of an error, which `makeError` does not set.
pub record Machine (F : Type 0) : Type 0 where
  pub doubles : Doubles F
  pub strtod : List ℕ → Value F
  pub to_str : Value F → List ℕ
  pub stray : Ctl

module _ {F : Type 0} (m : Machine F) where
  -- The right operand is converted first, and the left one to what it has become.
  unfoldable pub arith_right : Value F → Value F → Value F
  arith_right left right =
      if is_string right || ltb (type_of right) (type_of left)
      then conv m.doubles m.strtod right (type_of left)
      else right

  unfoldable pub arith_left : Value F → Value F → Value F
  arith_left left right =
      if is_string left || ltb (type_of left) (type_of right)
      then conv m.doubles m.strtod left (type_of right)
      else left

  abbrev pub string_of : Value F → List ℕ
  string_of (string s) = s
  string_of v = m.to_str v

  unfoldable pub arith_values : ArithOp → Value F → Value F → Option (Value F)
  unfolding arith_right arith_left op_add op_sub op_mpy op_div op_mod
  arith_values op left right =
      if is_add op && (is_string left || is_string right)
      then some (string (string_of left ++ string_of right))
      else (let right' = arith_right left right in
          let left' = arith_left left right' in
          if ltb vt_number (type_of left') || ltb vt_number (type_of right')
          then some nan
          else math_link m.doubles op left' right')

  -- The field nval of what `conv2Int` gives, which is 0 in a NaN.
  unfoldable pub conv_nval : Value F → Option ℕ
  conv_nval v = elim (conv2_int m.doubles m.strtod v) [ nan ↦ some 0 | w ↦ nval_of m.doubles w ]

  abbrev pub is_int : Value F → Bool
  is_int v = type_of v == 2

  -- Only one of the operands is converted.
  unfoldable pub bit_values : BitOp → Value F → Value F → Option (Value F)
  unfolding conv_nval bit_link
  bit_values op left right = do
    k ← (if is_int right then nval_of m.doubles right else conv_nval right)
    n ← (if is_int right && not (is_int left) then conv_nval left else nval_of m.doubles left)
    result ← bit_link op n k
    some (int result)

  abbrev pub is_nan : Value F → Bool
  is_nan v = type_of v == 8

  -- Strings become numbers first, and then the lower type the higher one.
  unfoldable pub compare_numbers : CompareOp → Value F → Value F → Option Bool
  unfolding op_lt op_le op_eq op_ne op_ge op_gt
  compare_numbers op left right =
      let left1 = (if is_string left then conv m.doubles m.strtod left (type_of right) else left) in
      let right1 =
        (if is_string right then conv m.doubles m.strtod right (type_of left1) else right) in
      let right2 =
        (if ltb (type_of right1) (type_of left1)
          then conv m.doubles m.strtod right1 (type_of left1)
          else right1) in
      let left2 =
        (if ltb (type_of left1) (type_of right1)
          then conv m.doubles m.strtod left1 (type_of right1)
          else left1) in
      if is_nan left2 || is_nan right2 then some false else bool_link m.doubles op left2 right2

  unfoldable pub compare_values : CompareOp → Value F → Value F → Option (Value F)
  unfolding compare_numbers
  compare_values op left right = do
    b ←
        (if is_string left && is_string right
          then bool_link m.doubles op left right
          else compare_numbers op left right)
    some (bool b)

  unfoldable pub math_values : MathOp → Value F → Value F → Option (Value F)
  unfolding arith_values bit_values compare_values
  math_values (arith_op op) left right = arith_values op left right
  math_values (bit_op op) left right = bit_values op left right
  math_values (compare_op op) left right = compare_values op left right

  abbrev pub uminus : Value F → Value F
  uminus (dbl f) = dbl (m.doubles.neg f)
  uminus (int n) = int (neg_long n)
  uminus (bool b) = bool (not b)
  uminus undef = nan
  uminus (infinite negative) = infinite (not negative)
  uminus nan = nan
  uminus _ = control m.stray

  unfoldable pub neg_value : NegOp → Value F → Option (Value F)
  unfolding conv_nval
  neg_value neg_uminus v = some (uminus v)
  neg_value neg_bitnot v = do n ← conv_nval v; some (int (long_mod - 1 - n))
  neg_value neg_not v = some (bool (not (conv2_bool m.doubles m.strtod v)))
