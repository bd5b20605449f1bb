-- ===== src/Keys/Encode.antt =====
-- `keyFld`: the bytes that a value adds to a key. The buffer is what stands behind the key so far.
use Prim.Native.Nat.{bit_or}
use javascript_database.Common.{
  ℕ, zero, suc, ◌+◌, ◌-◌, ◌/◌, ◌%◌, Bool, Option, none, some, List, [], ◌∷◌, ◌++◌, map, length,
  get_elem?, take, ltb, ◌==◌, if◌then◌else◌,
}
use javascript_database.Common.Int.{ℤ, pos}
use javascript_database.Vector.{word_mod}
use javascript_database.Keys.Options.{key_bool, key_int, key_dbl, key_str}

-- The types that a field without a type takes over; a vt_key counts as a string.
pub data SourceType : Type 0 where
  int dbl string bool key other : SourceType

-- A value, with what the conversions give for it; `dbl_bits` is the nval of a double.
pub record Source : Type 0 where
  pub type : SourceType
  pub nval : ℤ
  pub dbl_bits : ℤ
  pub boolean : Bool
  pub str : List ℕ

abbrev pub type_bits : SourceType → ℕ
type_bits int = key_int
type_bits dbl = key_dbl
type_bits string = key_str
type_bits bool = key_bool
type_bits key = key_str
type_bits other = key_str

-- buff[idx] ^= 0xff from the index `off` on.
abbrev pub flip : ℕ → ℕ
flip b = 255 - b

abbrev pub flip_from : ℕ → List ℕ → List ℕ
flip_from zero bytes = map flip bytes
flip_from (suc off) [] = []
flip_from (suc off) (b ∷ bytes) = b ∷ flip_from off bytes

abbrev pub field_off : Bool → ℕ
field_off binary = if binary then 2 else 0

-- A double whose first byte has no sign bit is turned over.
unfoldable pub flip_positive : ℕ → List ℕ → List ℕ
flip_positive off bytes = elim (get_elem? bytes off) [
  | none ↦ bytes
  | some b ↦ if ltb b 128 then flip_from off bytes else bytes
]

abbrev pub is_reverse : ℕ → Bool
is_reverse fld_type = fld_type / 16 % 2 == 1

abbrev pub is_first : ℕ → Bool
is_first fld_type = fld_type / 8 % 2 == 1

abbrev pub bit : Bool → ℕ
bit b = if b then 1 else 0

-- len - 2
abbrev pub cut_length : List ℕ → ℕ
cut_length str = (length str + word_mod - 2) % word_mod

-- `store64(buff, 0, n)` writes the bytes `store64 n`; `max` is the room that is left in the key.
module _ (store64 : ℤ → List ℕ) (binary : Bool) (max : ℕ) where
  -- The cases key_int, key_dbl, key_bool, and key_str with all others; nothing is the result -1. A
  -- string in a binary field is written behind two bytes of length, and `len` does not count them.
  unfoldable pub field_bytes : ℕ → Source → Option (List ℕ)
  unfolding flip_positive
  field_bytes kind src =
      if kind == key_int
      then (if ltb max 10 then none else some (store64 src.nval))
      else if kind == key_dbl
      then (if ltb max 10
          then none
          else some (flip_positive (field_off binary) (store64 src.dbl_bits)))
      else if kind == key_bool
      then (if ltb max 1
          then none
          else if binary
          then some (store64 (pos (bit src.boolean)))
          else some (bit src.boolean ∷ []))
      else if ltb max (length src.str)
      then none
      else if binary
      then some (
          take (length src.str)
            (cut_length src.str / 256 % 256 ∷ cut_length src.str % 256 ∷ src.str))
      else some (src.str ++ 0 ∷ [])

  abbrev turn : ℕ → Option (List ℕ) → Option (List ℕ)
  turn fld_type none = none
  turn fld_type (some bytes) =
      some (if is_reverse fld_type then flip_from (field_off binary) bytes else bytes)

  -- A field without a type takes over that of its first value. It adds nothing, where the value is
  -- of another type.
  abbrev take_over : ℕ → Source → Option (List ℕ) × ℕ
  take_over fld_type src = elim src.type [
    | other ↦ (some [], fld_type)
    | _ ↦ (turn fld_type (field_bytes (fld_type % 8) src), fld_type)
  ]

  -- The bytes, and the type of the field afterwards.
  unfoldable pub key_fld : ℕ → Source → Option (List ℕ) × ℕ
  unfolding field_bytes
  key_fld fld_type src =
      if fld_type % 8 == 0
      then (if is_first fld_type
          then take_over (bit_or fld_type (type_bits src.type)) src
          else (some [], fld_type))
      else (turn fld_type (field_bytes (fld_type % 8) src), fld_type)
