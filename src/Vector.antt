-- ===== src/Vector.antt =====
-- js_vector.c and the macros of js_vector.h: a growable vector, whose two header words hold its
-- capacity and its size. A null pointer is `none`; word arithmetic wraps at 2 ^ 32.
pub mod Bounds
use javascript_database.Common.{
  ℕ, zero, suc, ◌+◌, ◌-◌, ◌*◌, ◌/◌, ◌%◌, Bool, true, false, Option, none, some, List, [], ◌∷◌, ◌++◌,
  ltb, ◌==◌, if◌then◌else◌, length, get_elem?, set, take,
}

abbrev pub word_mod : ℕ
word_mod = 4_294_967_296

abbrev pub first_capacity : ℕ
first_capacity = 10

-- The first `size` slots, in order; the slots behind them hold nothing that the code reads.
pub record Vector {ℓ} (A : Type ℓ) : Type ℓ where
  pub cap : ℕ
  pub items : List A

-- The new capacity of `vec_grow`, from `vec_max`, `vec_cnt` and the increment.
unfoldable pub grow_cap : ℕ → ℕ → ℕ → ℕ
grow_cap max cnt increment =
    let dbl_cur = 2 * max % word_mod in
    let min_needed = (cnt + increment) % word_mod in
    let cap = if ltb min_needed dbl_cur then dbl_cur else min_needed in
    if ltb cap first_capacity then first_capacity else cap

-- `mapSize`: the bytes of a hash table entry, none for a plain vector.
unfoldable pub map_size : ℕ → Bool → ℕ
map_size cap false = 0
map_size cap true = if ltb cap 255 then 1 else if ltb cap 65535 then 2 else 4

-- The bytes that `vec_grow` allocates: items, the header, and the hash table behind the items.
unfoldable pub alloc_size : ℕ → ℕ → Bool → ℕ
unfolding map_size
alloc_size cap itemsize map =
    (itemsize * cap % word_mod + 8 + map_size cap map * 3 * cap % word_mod / 2) % word_mod

module _ {ℓ} {A : Type ℓ} where
  abbrev pub vec_max : Option (Vector A) → ℕ
  vec_max none = 0
  vec_max (some v) = v.cap

  abbrev pub vec_items : Option (Vector A) → List A
  vec_items none = []
  vec_items (some v) = v.items

  abbrev pub vec_cnt : Option (Vector A) → ℕ
  vec_cnt v = length (vec_items v)

  -- The items are copied to the new block; what follows them is cleared.
  unfoldable pub vec_grow : Option (Vector A) → ℕ → Vector A
  unfolding grow_cap
  vec_grow v increment = record {
    cap = grow_cap (vec_max v) (vec_cnt v) increment;
    items = vec_items v;
  }

  -- `vec_needgrow(a, 1)`
  unfoldable pub vec_needgrow : Option (Vector A) → Bool
  vec_needgrow none = true
  vec_needgrow (some v) = ltb v.cap ((length v.items + 1) % word_mod)

  abbrev push_into : Vector A → A → Vector A
  push_into v x = record v { items = v.items ++ x ∷ [] }

  unfoldable pub vec_push : Option (Vector A) → A → Vector A
  unfolding vec_grow vec_needgrow
  vec_push none x = push_into (vec_grow none 1) x
  vec_push (some v) x =
      if vec_needgrow (some v) then push_into (vec_grow (some v) 1) x else push_into v x

  -- `vec_pop` of an empty vector reads in front of the items: no value.
  pub vec_pop : Vector A → Option (A × Vector A)
  vec_pop v =
      let last = length v.items - 1 in
      elim (get_elem? v.items last) [
        | none ↦ none
        | some x ↦ some (x, record v { items = take last v.items })
      ]

  -- The copying loop of `vec_sliceqty`: `left` rounds from `idx` on.
  slice_loop : ℕ → ℕ → ℕ → List A → Option (List A)
  slice_loop zero idx qty slots = some slots
  slice_loop (suc left) idx qty slots = elim (get_elem? slots (idx + qty)) [
    | none ↦ none
    | some x ↦ slice_loop left (idx + 1) qty (set slots idx x)
  ]

  -- Drops `qty` items at the front. The slots behind the new size stay as the loop left them.
  pub vec_sliceqty : Vector A → ℕ → Option (Vector A)
  unfolding slice_loop
  vec_sliceqty v qty =
      let size = length v.items - qty in
      if ltb (length v.items) qty
      then some (record v { items = [] })
      else elim (slice_loop size 0 qty v.items) [
        | none ↦ none
        | some slots ↦ some (record v { items = take size slots })
      ]
