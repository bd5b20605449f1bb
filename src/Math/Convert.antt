-- ===== src/Math/Convert.antt =====
-- `conv2Bool`, `conv2Int`, `conv2Dbl` and `conv`. `strtod` is `js_strtod`.
use javascript_database.Common.{ℕ, Bool, true, false, not, List, length, ltb, ◌==◌, if◌then◌else◌}
use javascript_database.Math.Values.{
  Doubles, Value, undef, nan, null, bool, int, dbl, infinite, string, bit,
}

module _ {F : Type 0} (doubles : Doubles F) (strtod : List ℕ → Value F) where
  unfoldable pub conv2_bool : Value F → Bool
  conv2_bool (infinite negative) = true
  conv2_bool (dbl f) = not (doubles.eq f doubles.zero)
  conv2_bool (int n) = not (n == 0)
  conv2_bool (bool b) = b
  conv2_bool (string s) = ltb 0 (length s)
  conv2_bool _ = false

  unfoldable pub conv2_int : Value F → Value F
  conv2_int (int n) = int n
  conv2_int (dbl f) = int (doubles.to_int f)
  conv2_int (bool b) = int (bit b)
  conv2_int null = int 0
  conv2_int (string s) = strtod s
  conv2_int _ = nan

  unfoldable pub conv2_dbl : Value F → Value F
  conv2_dbl undef = nan
  conv2_dbl (dbl f) = dbl f
  conv2_dbl (int n) = dbl (doubles.of_int n)
  conv2_dbl (bool b) = dbl (doubles.of_int (bit b))
  conv2_dbl (string s) = strtod s
  conv2_dbl _ = dbl doubles.zero

  unfoldable pub conv : Value F → ℕ → Value F
  unfolding conv2_bool conv2_int conv2_dbl
  conv val type =
      if type == 1
      then bool (conv2_bool val)
      else if type == 3
      then conv2_dbl val
      else if type == 2
      then conv2_int val
      else val
