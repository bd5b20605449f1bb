-- ===== src/Math/Elements.antt =====
-- The elements of typed arrays in memory: `convArray2Value`, `storeArrayValue`, `addToArray` and
-- `incrArray`. The last three take the address of the element for that of a string_t, whose bytes
-- stand behind the four bytes of its length, and write there; `convArray2Value` reads at the address.
use javascript_database.Common.{
  ℕ, zero, suc, ◌+◌, ◌-◌, ◌*◌, ◌/◌, ◌%◌, Bool, true, false, Option, none, some, leb, ◌==◌,
  if◌then◌else◌,
}
use javascript_database.Math.Values.{long_mod, Value, nan, int, dbl}
use javascript_database.Math.Convert.{conv2_dbl}
use javascript_database.Math.Dispatch.{Machine, conv_nval}

-- The array types but array_value, whose elements are values.
pub data ArrayType : Type 0 where
  array_int8 array_uint8 array_int16 array_uint16 array_int32 array_uint32 array_float32 : ArrayType
  array_float64 : ArrayType

-- The bytes of an element, from ArraySize.
abbrev pub width_of : ArrayType → ℕ
width_of array_int8 = 1
width_of array_uint8 = 1
width_of array_int16 = 2
width_of array_uint16 = 2
width_of array_float64 = 8
width_of _ = 4

-- The bytes by their addresses.
abbrev pub Memory : Type 0
Memory = ℕ → ℕ

abbrev pub put_byte : Memory → ℕ → ℕ → Memory
put_byte mem at b i = if i == at then b else mem i

-- The lowest byte of a number comes first.
unfoldable pub read_bytes : ℕ → Memory → ℕ → ℕ
read_bytes zero mem at = 0
read_bytes (suc w) mem at = mem at + 256 * read_bytes w mem (at + 1)

unfoldable pub write_bytes : ℕ → Memory → ℕ → ℕ → Memory
write_bytes zero mem at n = mem
write_bytes (suc w) mem at n = put_byte (write_bytes w mem (at + 1) (n / 256)) at (n % 256)

-- The field val of a string_t.
abbrev pub val_of : ℕ → ℕ
val_of address = address + 4

-- A signed number of fewer bytes as an int64_t, from its range.
abbrev pub extend : ℕ → ℕ → ℕ
extend size n = if leb (size / 2) n then n + (long_mod - size) else n

module _ {F : Type 0} (m : Machine F) where
  unfoldable pub conv_array2_value : ArrayType → Memory → ℕ → Value F
  unfolding read_bytes
  conv_array2_value array_int8 mem at = int (extend 256 (read_bytes 1 mem at))
  conv_array2_value array_uint8 mem at = int (read_bytes 1 mem at)
  conv_array2_value array_int16 mem at = int (extend 65_536 (read_bytes 2 mem at))
  conv_array2_value array_uint16 mem at = int (read_bytes 2 mem at)
  conv_array2_value array_int32 mem at = int (extend 4_294_967_296 (read_bytes 4 mem at))
  conv_array2_value array_uint32 mem at = int (read_bytes 4 mem at)
  conv_array2_value array_float32 mem at = dbl (m.doubles.of_single (read_bytes 4 mem at))
  conv_array2_value array_float64 mem at = dbl (m.doubles.of_bits (read_bytes 8 mem at))

  -- The field dbl of what `conv2Dbl` gives, which is 0 in a NaN of undefined.
  abbrev pub conv_dbl : Value F → F
  conv_dbl v = elim (conv2_dbl m.doubles m.strtod v) [ dbl f ↦ f | _ ↦ m.doubles.zero ]

  abbrev pub store_long : ℕ → Memory → ℕ → Option ℕ → Option Memory
  store_long w mem at none = none
  store_long w mem at (some n) = some (write_bytes w mem (val_of at) n)

  unfoldable pub store_array_value : ArrayType → Memory → ℕ → Value F → Option Memory
  unfolding conv_nval conv2_dbl write_bytes
  store_array_value array_float32 mem at right =
      some (write_bytes 4 mem (val_of at) (m.doubles.to_single (conv_dbl right)))
  store_array_value array_float64 mem at right =
      some (write_bytes 8 mem (val_of at) (m.doubles.bits (conv_dbl right)))
  store_array_value type mem at right = store_long (width_of type) mem at (conv_nval m right)

  abbrev pub step : F → Bool → F
  step f up =
      if up then m.doubles.add f (m.doubles.of_int 1) else m.doubles.sub f (m.doubles.of_int 1)

  -- The sum with 1, or with -1.
  unfoldable pub add_to_array : ArrayType → Memory → ℕ → Bool → Memory
  unfolding read_bytes write_bytes
  add_to_array array_float32 mem at up =
      let f = m.doubles.of_single (read_bytes 4 mem (val_of at)) in
      write_bytes 4 mem (val_of at) (m.doubles.to_single (step f up))
  add_to_array array_float64 mem at up =
      let f = m.doubles.of_bits (read_bytes 8 mem (val_of at)) in
      write_bytes 8 mem (val_of at) (m.doubles.bits (step f up))
  add_to_array type mem at up =
      let w = width_of type in
      write_bytes w mem (val_of at)
        (read_bytes w mem (val_of at) + (if up then 1 else long_mod - 1))

  -- `incrArray`, which switches on the type of the element where it means the operator.
  unfoldable pub incr_array : ℕ → ArrayType → Memory → ℕ → Value F × Memory
  unfolding conv_array2_value add_to_array
  incr_array element_type type mem at =
      let more = add_to_array type mem at true in
      let less = add_to_array type mem at false in
      if element_type == 0
      then (conv_array2_value type more at, more)
      else if element_type == 1
      then (conv_array2_value type mem at, more)
      else if element_type == 2
      then (conv_array2_value type less at, less)
      else if element_type == 3
      then (conv_array2_value type mem at, less)
      else (nan, mem)
