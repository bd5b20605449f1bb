-- ===== src/Arrays.antt =====
-- The methods of arrays in js_object.c, and `cloneArray` of js_dbdoc.c, on the vectors of
-- js_vector.c. A marshaled array is read as the list of its elements, as an array in memory is.
pub mod Concat
pub mod Join
use javascript_database.Common.{
  ℕ, zero, suc, ◌+◌, ◌-◌, ◌/◌, ◌%◌, Bool, true, false, Option, none, some, List, [], ◌∷◌, ◌++◌,
  length, get_elem?, ltb, ◌==◌, if◌then◌else◌, ◌||◌,
}
use javascript_database.Common.Int.{ℤ, pos, negsuc, ltb_ℤ, sub_ℕ, ◌+ℤ◌}
use javascript_database.Vector.{word_mod, Vector, vec_push, vec_items, vec_grow}
use javascript_database.Strings.{Str, Number, Arg, int}
use javascript_database.Strings.Search.{second}
use javascript_database.Strings.Slice.{first}

-- An argument of `concat`: an array with its elements, or another value.
pub data Part {ℓ} (V : Type ℓ) : Type ℓ where
  array : List V → Part V
  single : V → Part V

module _ {ℓ} {V : Type ℓ} where
  -- A loop that pushes values, one by one.
  unfoldable pub push_all : Option (Vector V) → List V → Option (Vector V)
  push_all v [] = v
  push_all v (x ∷ xs) = push_all (some (vec_push v x)) xs

  -- The loop over the arguments.
  unfoldable pub push_parts : Option (Vector V) → List (Part V) → Option (Vector V)
  unfolding push_all
  push_parts v [] = v
  push_parts v (array xs ∷ parts) = push_parts (push_all v xs) parts
  push_parts v (single x ∷ parts) = push_parts (some (vec_push v x)) parts

  -- `newArray(array_value, 0)` has a null vector.
  unfoldable pub fcn_array_concat : List (Part V) → List V → Option (Vector V)
  unfolding push_all push_parts
  fcn_array_concat args values = push_parts (push_all none values) args

-- Where `slice` starts and how many values it takes, as uint32_t.
abbrev pub to_word : ℤ → ℕ
to_word (pos n) = n % word_mod
to_word (negsuc n) = word_mod - 1 - n % word_mod

abbrev pub array_end : ℤ → ℕ → ℤ
array_end end cnt =
    let e = (if ltb_ℤ end (pos 0) then end +ℤ pos cnt else end) in
    if ltb_ℤ (pos cnt) e
    then pos cnt
    else elim e [ pos zero ↦ pos cnt | pos (suc n) ↦ pos (suc n) | negsuc n ↦ negsuc n ]

abbrev pub array_range : Number → Number → ℕ → ℕ × ℕ
array_range slice end cnt = elim (if slice.is_int then slice.nval else pos 0) [
  | negsuc n ↦ ((to_word (negsuc n) + cnt) % word_mod, to_word (pos (suc n)))
  | pos n ↦
      (to_word (pos n), (to_word (array_end end.nval cnt) + word_mod - to_word (pos n)) % word_mod)
]

module _ {ℓ} {V : Type ℓ} where
  -- The values that the loop of `slice` reads; nothing is a read outside the array.
  unfoldable pub read_all : ℕ → ℕ → List V → Option (List V)
  read_all zero start values = some []
  read_all (suc count) start values = elim (get_elem? values (start % word_mod)) [
    | none ↦ none
    | some v ↦ elim (read_all count (start + 1) values) [ none ↦ none | some r ↦ some (v ∷ r) ]
  ]

  -- The values are written to the slots of the new vector, whose size is not set: it holds none.
  unfoldable pub fcn_array_slice : List Arg → List V → Option (Option (Vector V))
  unfolding read_all
  fcn_array_slice args values =
      let slice = first args (int (pos 0)) in
      let end = second args (int (pos (length values))) in
      let (start, count) = array_range slice end (length values) in
      elim (read_all count start values) [
        | none ↦ none
        | some written ↦
            if count == 0
            then some none
            else some (some (record { cap = (vec_grow {A = V} none count).cap; items = [] }))
      ]

  -- `cloneArray` writes the slots of a new vector too, and leaves its size at 0.
  unfoldable pub clone_array : List V → Option (Vector V)
  clone_array values =
      let room = (length values + length values / 4) % word_mod in
      if room == 0
      then none
      else some (record { cap = (vec_grow {A = V} none room).cap; items = [] })

-- The loop of `join`, over what `conv2Str` returns for each value.
unfoldable pub join_loop : Str → Str → List Str → Str
join_loop val delim [] = val
join_loop val delim (s ∷ []) = val ++ s
join_loop val delim (s ∷ t ∷ rest) = join_loop ((val ++ s) ++ delim) delim (t ∷ rest)

-- Without an argument the delimiter is a comma.
unfoldable pub fcn_array_join : List Arg → List Str → Str
unfolding join_loop
fcn_array_join [] values = join_loop [] (b',' ∷ []) values
fcn_array_join (a ∷ args) values = join_loop [] a.str values
