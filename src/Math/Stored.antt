-- ===== src/Math/Stored.antt =====
-- Where an integer that is stored in an element of a typed array is read back.
use javascript_database.Common.{
  ℕ, zero, suc, ◌+◌, ◌-◌, ◌*◌, ◌/◌, ◌%◌, ◌≤◌, ◌<◌, ◌≡◌, ◌∙◌, refl, ap, Bool, true, false, some, ltb,
  leb, if◌then◌else◌, arith,
}
use javascript_database.Math.Values.{long_mod, int}
use javascript_database.Math.Convert.{conv2_int}
use javascript_database.Math.Dispatch.{Machine, conv_nval}
use javascript_database.Math.Elements.{
  ArrayType, array_int8, array_uint8, array_int16, array_uint16, array_int32, array_uint32,
  array_float32, array_float64, Memory, put_byte, read_bytes, write_bytes, extend,
  conv_array2_value, store_array_value,
}

-- The bits of a signed number that an element of so many places holds, or of one without sign.
abbrev pub is_signed_in : ℕ → ℕ → Bool
is_signed_in half n = if ltb n half then true else leb (long_mod - half) n

abbrev pub holds : ArrayType → ℕ → Bool
holds array_int8 n = is_signed_in 128 n
holds array_uint8 n = ltb n 256
holds array_int16 n = is_signed_in 32_768 n
holds array_uint16 n = ltb n 65_536
holds array_int32 n = is_signed_in 2_147_483_648 n
holds array_uint32 n = ltb n 4_294_967_296
holds _ n = false

-- The lowest bytes of a number.
unfoldable low_bytes : ℕ → ℕ → ℕ
low_bytes zero n = 0
low_bytes (suc w) n = n % 256 + 256 * low_bytes w (n / 256)

put_byte-at : (mem : Memory) (at b : ℕ) → put_byte mem at b at ≡ b
put_byte-at mem at b = ground arith

put_byte-other : (mem : Memory) (at b i : ℕ) → at + 1 ≤ i → put_byte mem at b i ≡ mem i
put_byte-other mem at b i h = ground (arith, h)

put_byte-below : (mem : Memory) (at b i : ℕ) → i < at → put_byte mem at b i ≡ mem i
put_byte-below mem at b i h = ground (arith, h)

write_bytes-below : (w : ℕ) (mem : Memory) (at n i : ℕ) → i < at → write_bytes w mem at n i ≡ mem i
unfolding write_bytes
write_bytes-below zero mem at n i h = refl
write_bytes-below (suc w) mem at n i h =
    put_byte-below (write_bytes w mem (at + 1) (n / 256)) at (n % 256) i h
    ∙ write_bytes-below w mem (at + 1) (n / 256) i (omega (arith, h))

read_bytes-agree :
    (w : ℕ) (f g : Memory) (at : ℕ)
    → ((i : ℕ) → at ≤ i → i < at + w → f i ≡ g i)
    → read_bytes w f at ≡ read_bytes w g at
unfolding read_bytes
read_bytes-agree zero f g at h = refl
read_bytes-agree (suc w) f g at h =
    let first = h at (omega arith) (omega arith) in
    let rest = read_bytes-agree w f g (at + 1) λ i a b. h i (omega (arith, a)) (omega (arith, b)) in
    rw (first, rest) refl

read_bytes-write_bytes :
    (w : ℕ) (mem : Memory) (at n : ℕ) → read_bytes w (write_bytes w mem at n) at ≡ low_bytes w n
unfolding read_bytes write_bytes low_bytes
read_bytes-write_bytes zero mem at n = refl
read_bytes-write_bytes (suc w) mem at n =
    let more = write_bytes w mem (at + 1) (n / 256) in
    let first = put_byte-at more at (n % 256) in
    let rest =
      read_bytes-agree w (put_byte more at (n % 256)) more (at + 1)
        λ i a b. put_byte-other more at (n % 256) i a in
    rw (first, rest, read_bytes-write_bytes w mem (at + 1) (n / 256)) refl

-- An element of at most four bytes is in front of what is written for it.
read_bytes-behind :
    (w : ℕ) (mem : Memory) (at n : ℕ)
    → w ≤ 4
    → read_bytes w (write_bytes w mem (at + 4) n) at ≡ read_bytes w mem at
read_bytes-behind w mem at n h =
    read_bytes-agree w _ mem at λ i a b. write_bytes-below w mem (at + 4) n i (omega (arith, b, h))

module _ {F : Type 0} (m : Machine F) where
  -- An integer that an element of an integer array type holds is stored four bytes behind the
  -- element: it is read there as it was, and the element itself is read as before.
  pub store_array_value-conv_array2_value :
      (type : ArrayType) (mem : Memory) (at n : ℕ)
      → n < long_mod
      → holds type n ≡ true
      → (mem' : Memory) × (store_array_value m type mem at (int n) ≡ some mem')
        × (conv_array2_value m type mem' (at + 4) ≡ int n)
        × (conv_array2_value m type mem' at ≡ conv_array2_value m type mem at)
  unfolding store_array_value conv_array2_value conv_nval conv2_int low_bytes
  store_array_value-conv_array2_value array_int8 mem at n l h = (
    write_bytes 1 mem (at + 4) n,
    refl,
    ap (λ k. int (extend 256 k)) (read_bytes-write_bytes 1 mem (at + 4) n)
        ∙ ap int (ground (arith, l, h)),
    ap (λ k. int (extend 256 k)) (read_bytes-behind 1 mem at n (omega arith)),
  )
  store_array_value-conv_array2_value array_uint8 mem at n l h = (
    write_bytes 1 mem (at + 4) n,
    refl,
    ap int (read_bytes-write_bytes 1 mem (at + 4) n) ∙ ap int (ground (arith, l, h)),
    ap int (read_bytes-behind 1 mem at n (omega arith)),
  )
  store_array_value-conv_array2_value array_int16 mem at n l h = (
    write_bytes 2 mem (at + 4) n,
    refl,
    ap (λ k. int (extend 65_536 k)) (read_bytes-write_bytes 2 mem (at + 4) n)
        ∙ ap int (ground (arith, l, h)),
    ap (λ k. int (extend 65_536 k)) (read_bytes-behind 2 mem at n (omega arith)),
  )
  store_array_value-conv_array2_value array_uint16 mem at n l h = (
    write_bytes 2 mem (at + 4) n,
    refl,
    ap int (read_bytes-write_bytes 2 mem (at + 4) n) ∙ ap int (ground (arith, l, h)),
    ap int (read_bytes-behind 2 mem at n (omega arith)),
  )
  store_array_value-conv_array2_value array_int32 mem at n l h = (
    write_bytes 4 mem (at + 4) n,
    refl,
    ap (λ k. int (extend 4_294_967_296 k)) (read_bytes-write_bytes 4 mem (at + 4) n)
        ∙ ap int (ground (arith, l, h)),
    ap (λ k. int (extend 4_294_967_296 k)) (read_bytes-behind 4 mem at n (omega arith)),
  )
  store_array_value-conv_array2_value array_uint32 mem at n l h = (
    write_bytes 4 mem (at + 4) n,
    refl,
    ap int (read_bytes-write_bytes 4 mem (at + 4) n) ∙ ap int (ground (arith, l, h)),
    ap int (read_bytes-behind 4 mem at n (omega arith)),
  )
  store_array_value-conv_array2_value array_float32 mem at n l h = cc
  store_array_value-conv_array2_value array_float64 mem at n l h = cc
