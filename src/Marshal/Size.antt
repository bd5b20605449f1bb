-- ===== src/Marshal/Size.antt =====
-- The size of a document by recursion on it, and how deep and how long a walk of it goes.
use Prim.Native.Nat.{max}
use javascript_database.Common.{ℕ, suc, ◌+◌, ◌≡◌, Bool, true, false, if◌then◌else◌, arith}
use javascript_database.Marshal.Values.{
  Kind, string, key, md5, uuid, Value, immediate, text, document, stored, arr, obj, Items, nil,
  cons, Fields, end, field, items_cnt, fields_cnt,
}
use javascript_database.Marshal.Walk.{array_size, object_size, string_size}

-- All bytes behind the value slot of a value, for the string types that `counted` names.
unfoldable mutual
  pub total : (Kind → Bool) → Value → ℕ
  total counted immediate = 0
  total counted (text kind str) = if counted kind then string_size str else 0
  total counted document = 0
  total counted stored = 0
  total counted (arr xs) = array_size (items_cnt xs) + total_items counted xs
  total counted (obj ps) = object_size (fields_cnt ps) + total_fields counted ps

  pub total_items : (Kind → Bool) → Items → ℕ
  total_items counted nil = 0
  total_items counted (cons v r) = total counted v + total_items counted r

  pub total_fields : (Kind → Bool) → Fields → ℕ
  total_fields counted end = 0
  total_fields counted (field name v r) =
      string_size name + total counted v + total_fields counted r

-- The arrays and objects around the innermost value.
unfoldable mutual
  pub nesting : Value → ℕ
  nesting immediate = 0
  nesting (text kind str) = 0
  nesting document = 0
  nesting stored = 0
  nesting (arr xs) = suc (nesting_items xs)
  nesting (obj ps) = suc (nesting_fields ps)

  pub nesting_items : Items → ℕ
  nesting_items nil = 0
  nesting_items (cons v r) = max (nesting v) (nesting_items r)

  pub nesting_fields : Fields → ℕ
  nesting_fields end = 0
  nesting_fields (field name v r) = max (nesting v) (nesting_fields r)

-- The rounds that the loop makes for a value, and for the rest of a container.
unfoldable mutual
  pub rounds : Value → ℕ
  rounds immediate = 0
  rounds (text kind str) = 0
  rounds document = 0
  rounds stored = 0
  rounds (arr xs) = suc (rounds_items xs)
  rounds (obj ps) = suc (rounds_fields ps)

  pub rounds_items : Items → ℕ
  rounds_items nil = 0
  rounds_items (cons v r) = rounds v + suc (rounds_items r)

  pub rounds_fields : Fields → ℕ
  rounds_fields end = 0
  rounds_fields (field name v r) = rounds v + suc (rounds_fields r)

-- `calcSize` leaves out the keys; `marshalDoc` writes every string type.
abbrev pub calc_counted : Kind → Bool
calc_counted key = false
calc_counted _ = true

abbrev pub marshal_counted : Kind → Bool
marshal_counted kind = true

-- The bytes of the keys in a document.
unfoldable mutual
  pub key_bytes : Value → ℕ
  key_bytes immediate = 0
  key_bytes (text key str) = string_size str
  key_bytes (text _ str) = 0
  key_bytes document = 0
  key_bytes stored = 0
  key_bytes (arr xs) = key_bytes_items xs
  key_bytes (obj ps) = key_bytes_fields ps

  pub key_bytes_items : Items → ℕ
  key_bytes_items nil = 0
  key_bytes_items (cons v r) = key_bytes v + key_bytes_items r

  pub key_bytes_fields : Fields → ℕ
  key_bytes_fields end = 0
  key_bytes_fields (field name v r) = key_bytes v + key_bytes_fields r

mutual
  unfolding total key_bytes

  total-key_bytes_value : (v : Value) → total marshal_counted v ≡ total calc_counted v + key_bytes v
  total-key_bytes_value immediate = omega arith
  total-key_bytes_value (text string str) = omega arith
  total-key_bytes_value (text key str) = omega arith
  total-key_bytes_value (text md5 str) = omega arith
  total-key_bytes_value (text uuid str) = omega arith
  total-key_bytes_value document = omega arith
  total-key_bytes_value stored = omega arith
  total-key_bytes_value (arr xs) = omega (arith, total-key_bytes_items xs)
  total-key_bytes_value (obj ps) = omega (arith, total-key_bytes_fields ps)

  total-key_bytes_items :
      (xs : Items)
      → total_items marshal_counted xs ≡ total_items calc_counted xs + key_bytes_items xs
  total-key_bytes_items nil = omega arith
  total-key_bytes_items (cons v r) = omega (arith, total-key_bytes_value v, total-key_bytes_items r)

  total-key_bytes_fields :
      (ps : Fields)
      → total_fields marshal_counted ps ≡ total_fields calc_counted ps + key_bytes_fields ps
  total-key_bytes_fields end = omega arith
  total-key_bytes_fields (field name v r) =
      omega (arith, total-key_bytes_value v, total-key_bytes_fields r)

-- What marshaling writes and `calcSize` does not count are the keys.
pub total-key_bytes : (v : Value) → total marshal_counted v ≡ total calc_counted v + key_bytes v
total-key_bytes v = total-key_bytes_value v
