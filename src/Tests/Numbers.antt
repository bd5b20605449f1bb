-- ===== src/Tests/Numbers.antt =====
-- Values for js_math.c, on doubles that are natural numbers.
use javascript_database.Common.{
  ℕ, ◌+◌, ◌-◌, ◌*◌, ◌/◌, ◌≡◌, ◌<◌, ◌⊎◌, refl, true, false, some, [], ◌∷◌, ltb, leb, ◌==◌, ◌%◌,
  arith,
}
use javascript_database.Keys.Order.{lex}
use javascript_database.Math.Values.{ctl_none, nan, Doubles, int, dbl, infinite, long_mod, is_neg}
use javascript_database.Math.Arith.{op_sub, op_mpy, op_div, op_mod, magnitude}
use javascript_database.Math.Compare.{op_compare, op_lt, op_le, op_eq, op_ne, op_ge, op_gt}
use javascript_database.Math.Dispatch.{Machine}
use javascript_database.Math.Order.{op_lt-rank_of, op_compare-lex}
use javascript_database.Math.Elements.{
  array_int8, array_uint8, Memory, conv_array2_value, store_array_value, incr_array,
}
use javascript_database.Math.Stored.{store_array_value-conv_array2_value}
use javascript_database.Math.Words.{op_div-op_mod}

abbrev pub naturals : Doubles ℕ
naturals = record {
  zero = 0;
  of_int = λ n. n;
  to_int = λ n. n;
  bits = λ n. n;
  of_bits = λ n. n;
  to_single = λ n. n;
  of_single = λ n. n;
  add = λ n m. n + m;
  sub = λ n m. n - m;
  mpy = λ n m. n * m;
  div = λ n m. n / m;
  neg = λ n. n;
  floor = λ n. n;
  lt = ltb;
  le = leb;
  eq = λ n m. n == m;
}

-- 3 and minus infinity.
op_lt-rank_of_example :
    (op_lt naturals (int 3) (infinite true) ≡ some false)
    × (op_le naturals (int 3) (infinite true) ≡ some false)
    × (op_eq naturals (int 3) (infinite true) ≡ some false)
    × (op_ne naturals (int 3) (infinite true) ≡ some true)
op_lt-rank_of_example =
    op_lt-rank_of naturals (int 3) (infinite true) 9_223_372_036_854_775_812 0 refl refl

op_compare-lex_example :
    op_compare (b'a' ∷ b'c' ∷ []) (b'a' ∷ b'b' ∷ b'c' ∷ [])
    ≡ lex (b'a' ∷ b'c' ∷ []) (b'a' ∷ b'b' ∷ b'c' ∷ [])
op_compare-lex_example = op_compare-lex (b'a' ∷ b'c' ∷ []) (b'a' ∷ b'b' ∷ b'c' ∷ [])

-- -7 and 2
abbrev minus_seven : ℕ
minus_seven = 18_446_744_073_709_551_609

op_div-op_mod_example :
    (q r : ℕ) × (op_div naturals (int minus_seven) (int 2) ≡ some (int q))
    × (op_mod naturals (int minus_seven) (int 2) ≡ some (int r))
    × ((q * 2 + r) % long_mod ≡ minus_seven)
    × (magnitude r < magnitude 2)
    × ((r ≡ 0) ⊎ (is_neg r ≡ is_neg minus_seven))
op_div-op_mod_example =
    op_div-op_mod naturals minus_seven 2 (omega arith, omega arith) (omega arith) refl

-- Minus infinity less infinity is infinity, and the product of two infinities is never negative.
op_sub_run : op_sub naturals (infinite true) (infinite false) ≡ some (infinite false)
unfolding op_sub
op_sub_run = refl

op_mpy_run : op_mpy naturals (infinite true) (int 1) ≡ some (infinite false)
unfolding op_mpy
op_mpy_run = refl

-- Minus infinity is above 1.
op_gt_run :
    (op_gt naturals (infinite true) (int 1) ≡ some true)
    × (op_ge naturals (infinite true) (int 1) ≡ some true)
    × (op_gt naturals (dbl 1) (infinite true) ≡ some false)
unfolding op_gt op_ge
op_gt_run = (refl, refl, refl)

abbrev pub machine : Machine ℕ
machine = record { doubles = naturals; strtod = λ s. nan; to_str = λ v. []; stray = ctl_none }

-- -7 in an element of one byte, with 3 in the byte behind it.
abbrev zeros : Memory
zeros = λ i. 0

store_array_value-conv_array2_value_example :
    (mem' : Memory) × (store_array_value machine array_int8 zeros 100 (int minus_seven) ≡ some mem')
    × (conv_array2_value machine array_int8 mem' (100 + 4) ≡ int minus_seven)
    × (conv_array2_value machine array_int8 mem' 100
        ≡ conv_array2_value machine array_int8 zeros 100)
store_array_value-conv_array2_value_example =
    store_array_value-conv_array2_value machine array_int8 zeros 100 minus_seven (omega arith) refl

-- `++` of an element, whose type is vt_lval, changes nothing.
incr_array_run : incr_array machine 18 array_uint8 zeros 100 ≡ (nan, zeros)
unfolding incr_array
incr_array_run = refl
