-- ===== src/Math/Compare.antt =====
-- `op_compare`, `op_lt`, `op_le`, `op_eq`, `op_ne`, `op_ge` and `op_gt`. Nothing is where a field is
-- read that has not been set, or an address that is none.
use Prim.Native.Nat.{compare, Ordering}
use javascript_database.Common.{
  ℕ, zero, suc, Bool, true, false, not, Option, none, some, List, ◌∷◌, length, ltb, leb, ◌==◌,
  if◌then◌else◌,
}
use javascript_database.Keys.Order.{then_by}
use javascript_database.Math.Values.{
  biased, Doubles, Value, null, int, dbl, infinite, string, nval_of, dbl_of,
}

-- The sign of memcmp on the first bytes of two blocks that are no shorter.
unfoldable pub memcmp : ℕ → List ℕ → List ℕ → Ordering
memcmp zero a b = Ordering.eq
memcmp (suc n) (x ∷ a) (y ∷ b) = then_by (compare x y) (memcmp n a b)
memcmp (suc n) _ _ = Ordering.eq

-- The sign of the result.
unfoldable pub op_compare : List ℕ → List ℕ → Ordering
unfolding memcmp
op_compare left right =
    if length left == length right
    then memcmp (length left) left right
    else if ltb (length left) (length right)
    then then_by (memcmp (length left) left right) Ordering.lt
    else then_by (memcmp (length right) left right) Ordering.gt

abbrev pub is_lt : Ordering → Bool
is_lt Ordering.lt = true
is_lt _ = false

abbrev pub is_eq : Ordering → Bool
is_eq Ordering.eq = true
is_eq _ = false

abbrev pub is_gt : Ordering → Bool
is_gt Ordering.gt = true
is_gt _ = false

module _ {F : Type 0} (doubles : Doubles F) where
  abbrev pub test_long : ℕ → Value F → (ℕ → ℕ → Bool) → Option Bool
  test_long n right test = elim (nval_of doubles right) [
    | none ↦ none
    | some m ↦ some (test (biased n) (biased m))
  ]

  abbrev pub test_bits : ℕ → Value F → (Bool → Bool) → Option Bool
  test_bits n right test = elim (nval_of doubles right) [
    | none ↦ none
    | some m ↦ some (test (n == m))
  ]

  abbrev pub test_dbl : F → Value F → (F → F → Bool) → Option Bool
  test_dbl f right test = elim (dbl_of doubles right) [ none ↦ none | some g ↦ some (test f g) ]

  abbrev pub test_string : List ℕ → Value F → (Ordering → Bool) → Option Bool
  test_string s (string t) test = some (test (op_compare s t))
  test_string s _ test = none

  abbrev pub is_null : Value F → Bool
  is_null null = true
  is_null _ = false

  -- Whether a value is infinite with the given sign.
  abbrev pub is_inf : Bool → Value F → Bool
  is_inf true (infinite negative) = negative
  is_inf false (infinite negative) = not negative
  is_inf sign _ = false

  unfoldable pub op_lt : Value F → Value F → Option Bool
  op_lt (infinite l) right = some (if l then not (is_inf true right) else false)
  op_lt null right = some (not (is_null right))
  op_lt (int n) (infinite r) = some (not r)
  op_lt (int n) right = test_long n right ltb
  op_lt (dbl f) (infinite r) = some (not r)
  op_lt (dbl f) right = test_dbl f right doubles.lt
  op_lt (string s) right = test_string s right is_lt
  op_lt _ right = some false

  unfoldable pub op_le : Value F → Value F → Option Bool
  op_le (infinite l) right = some (if l then true else is_inf false right)
  op_le null right = some true
  op_le (int n) (infinite r) = some (not r)
  op_le (int n) right = test_long n right leb
  op_le (dbl f) (infinite r) = some (not r)
  op_le (dbl f) right = test_dbl f right doubles.le
  op_le (string s) right = test_string s right (λ o. not (is_gt o))
  op_le _ right = some false

  unfoldable pub op_eq : Value F → Value F → Option Bool
  op_eq (infinite l) right = some (is_inf l right)
  op_eq null right = some (is_null right)
  op_eq (int n) (infinite r) = some false
  op_eq (int n) right = test_bits n right (λ same. same)
  op_eq (dbl f) right = test_dbl f right doubles.eq
  op_eq (string s) right = test_string s right is_eq
  op_eq _ right = some false

  unfoldable pub op_ne : Value F → Value F → Option Bool
  op_ne (infinite l) right = some (not (is_inf l right))
  op_ne null right = some (not (is_null right))
  op_ne (int n) (infinite r) = some true
  op_ne (int n) right = test_bits n right (λ same. not same)
  op_ne (dbl f) (infinite r) = some true
  op_ne (dbl f) right = test_dbl f right (λ g h. not (doubles.eq g h))
  op_ne (string s) right = test_string s right (λ o. not (is_eq o))
  op_ne _ right = some false

  unfoldable pub op_ge : Value F → Value F → Option Bool
  op_ge (infinite l) right = some (if l then not (is_inf true right) else true)
  op_ge null right = some (is_null right)
  op_ge (int n) (infinite r) = some r
  op_ge (int n) right = test_long n right (λ a b. leb b a)
  op_ge (dbl f) (infinite r) = some r
  op_ge (dbl f) right = test_dbl f right (λ g h. doubles.le h g)
  op_ge (string s) right = test_string s right (λ o. not (is_lt o))
  op_ge _ right = some false

  unfoldable pub op_gt : Value F → Value F → Option Bool
  op_gt (infinite l) right = some (not (is_inf false right))
  op_gt null right = some false
  op_gt (int n) (infinite r) = some r
  op_gt (int n) right = test_long n right (λ a b. ltb b a)
  op_gt (dbl f) (infinite r) = some (not r)
  op_gt (dbl f) right = test_dbl f right (λ g h. doubles.lt h g)
  op_gt (string s) right = test_string s right is_gt
  op_gt _ right = some false

-- boolLink, with the two operators that stand behind its end.
pub data CompareOp : Type 0 where
  math_lt math_le math_eq math_ne math_ge math_gt math_id math_nid : CompareOp

abbrev pub bool_link : {F : Type 0} → Doubles F → CompareOp → Value F → Value F → Option Bool
bool_link doubles math_lt left right = op_lt doubles left right
bool_link doubles math_le left right = op_le doubles left right
bool_link doubles math_eq left right = op_eq doubles left right
bool_link doubles math_ne left right = op_ne doubles left right
bool_link doubles math_ge left right = op_ge doubles left right
bool_link doubles math_gt left right = op_gt doubles left right
bool_link doubles _ left right = none
