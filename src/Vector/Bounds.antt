-- ===== src/Vector/Bounds.antt =====
-- The operations of a vector as those of a list.
use javascript_database.Common.{
  ℕ, zero, suc, ◌+◌, ◌-◌, ◌*◌, ◌≤◌, ◌<◌, ◌≡◌, ◌⊎◌, inr, refl, sym, ap, ◌∙◌, false, Option, none,
  some, List, [], ◌∷◌, ◌++◌, length, get_elem?, set, take, drop, arith, ltb, lt→ltb, length-append,
  length-set, length-take, length-drop, get_elem?-set_self, get_elem?-set_ne, get_elem?-lt,
  get_elem?-ext, get_elem?-ge, get_elem?-drop, get_elem?-take, get_elem?-append_end,
}
use native.Mathlib.Decide.{dec_lt, ℕ_discrete}
use native.Mathlib.Nat.{add_comm}
use javascript_database.Vector.{
  word_mod, first_capacity, Vector, grow_cap, vec_max, vec_items, vec_cnt, vec_push, vec_pop,
  slice_loop, vec_sliceqty,
}

-- The size of a vector is within its capacity, and doubling the capacity does not wrap.
pub record IsVector {ℓ} {A : Type ℓ} (v : Option (Vector A)) : Type 0 where
  pub within : vec_cnt v ≤ vec_max v
  pub small : 2 * vec_max v + first_capacity < word_mod

-- What a push does to the contents and the capacity.
pub record Pushed {ℓ} {A : Type ℓ} (v : Option (Vector A)) (x : A) (w : Vector A) : Type ℓ where
  pub items_are : w.items ≡ vec_items v ++ x ∷ []
  pub fits : length w.items ≤ w.cap
  pub grows :
      ((w.cap ≡ vec_max v) × (vec_cnt v < vec_max v))
      ⊎ ((vec_cnt v ≡ vec_max v) × (2 * vec_max v ≤ w.cap) × (first_capacity ≤ w.cap))

module _ {ℓ} {A : Type ℓ} where
  -- Pushing onto a vector whose size is within its capacity, with twice the capacity and 10 below
  -- 2 ^ 32, appends the value and stays within the capacity, which is kept while there is room
  -- and at least doubles otherwise.
  pub vec_push-Pushed : (v : Option (Vector A)) (x : A) → IsVector v → Pushed v x (vec_push v x)
  unfolding vec_push grow_cap
  vec_push-Pushed none x valid = record {
    items_are = refl;
    fits = omega arith;
    grows = inr (refl, omega arith, omega arith);
  }
  vec_push-Pushed (some v) x valid = record {
    items_are = ground arith;
    fits = ground (arith, length-append v.items (x ∷ []), valid.within, valid.small);
    grows = ground (arith, valid.within, valid.small);
  }

  take-length-append : (xs : List A) (x : A) → take (length xs) (xs ++ x ∷ []) ≡ xs
  take-length-append [] x = refl
  take-length-append (y ∷ xs) x = ap (λ r. y ∷ r) (take-length-append xs x)

  -- Popping after a push onto a vector whose size is within its capacity, with twice the capacity
  -- and 10 below 2 ^ 32, gives the value back, and the contents as they were.
  pub vec_pop-vec_push :
      (v : Option (Vector A)) (x : A)
      → IsVector v
      → (w : Vector A) × (vec_pop (vec_push v x) ≡ some (x, w)) × (w.items ≡ vec_items v)
  unfolding vec_pop
  vec_pop-vec_push v x valid =
      let pushed = vec_push-Pushed v x valid in
      let n : length (vec_items v ++ x ∷ []) - 1 ≡ vec_cnt v =
        omega (arith, length-append (vec_items v) (x ∷ [])) in
      (
        record (vec_push v x) { items = vec_items v },
        rw (
          vec_pop,
          pushed.items_are,
          n,
          get_elem?-append_end (vec_items v) x,
          pushed.items_are,
          n,
          take-length-append (vec_items v) x,
        ),
        refl,
      )

  -- The loop moves each slot down by `qty`, from `idx` on.
  slice_loop_lem :
      (left idx qty : ℕ) (slots : List A)
      → idx + left + qty ≤ length slots
      → (slots' : List A) × (slice_loop left idx qty slots ≡ some slots')
        × (length slots' ≡ length slots)
        × ((j : ℕ) → j < idx → get_elem? slots' j ≡ get_elem? slots j)
        × ((j : ℕ) → idx ≤ j → j < idx + left → get_elem? slots' j ≡ get_elem? slots (j + qty))
  unfolding slice_loop
  slice_loop_lem zero idx qty slots h =
      (slots, refl, refl, λ j lt. refl, λ j le lt. absurd (omega arith))
  slice_loop_lem (suc left) idx qty slots h =
      let (x, e) = get_elem?-lt slots (idx + qty) (omega arith) in
      let (slots', run, len, before, after) =
        slice_loop_lem left (idx + 1) qty (set slots idx x)
          (omega (arith, length-set slots idx x)) in
      (
        slots',
        rw (slice_loop, e) run,
        len ∙ length-set slots idx x,
        λ j lt. before j (omega arith) ∙ get_elem?-set_ne slots idx j x (omega arith),
        λ j le lt. elim (ℕ_discrete idx j) [
          | yes same ↦
              rw (← same)
                (before idx (omega arith) ∙ get_elem?-set_self slots idx x (omega arith) ∙ sym e)
          | no other ↦
              after j (omega arith) (omega arith)
              ∙ get_elem?-set_ne slots idx (j + qty) x (omega arith)
        ],
      )

  -- Cutting slots off the front of a vector in place leaves the contents without that many of the
  -- first, or none if there are fewer, and reads nothing outside the vector.
  pub vec_sliceqty-drop :
      (v : Vector A) (qty : ℕ) → vec_sliceqty v qty ≡ some (record v { items = drop qty v.items })
  unfolding vec_sliceqty
  vec_sliceqty-drop v qty = elim (dec_lt (length v.items) qty) [
    | yes lt ↦
        let none_left : [] ≡ drop qty v.items =
          get_elem?-ext [] (drop qty v.items) (λ j.
            sym (get_elem?-ge (drop qty v.items) j (omega (arith, length-drop qty v.items)))) in
        rw (lt→ltb (length v.items) qty lt, ← none_left)
    | no ge ↦
        let test : ltb (length v.items) qty ≡ false = ground arith in
        let size = length v.items - qty in
        let (slots, run, len, before, after) = slice_loop_lem size 0 qty v.items (omega arith) in
        rw (
          vec_sliceqty,
          test,
          run,
          cut v.items slots qty (omega arith) len (λ j lt. after j (omega arith) (omega arith)),
        )
  ]
    where
      cut :
          (xs slots : List A) (qty : ℕ)
          → qty ≤ length xs
          → length slots ≡ length xs
          → ((j : ℕ) → j < length xs - qty → get_elem? slots j ≡ get_elem? xs (j + qty))
          → take (length xs - qty) slots ≡ drop qty xs
      cut xs slots qty le len moved =
          get_elem?-ext (take (length xs - qty) slots) (drop qty xs) λ j.
            elim (dec_lt j (length xs - qty)) [
              | yes lt ↦
                  get_elem?-take (length xs - qty) slots j lt
                  ∙ moved j lt
                  ∙ rw (add_comm j qty) (sym (get_elem?-drop qty xs j))
              | no ge ↦
                  get_elem?-ge (take (length xs - qty) slots) j
                    (omega (arith, length-take (length xs - qty) slots))
                  ∙ sym (get_elem?-ge (drop qty xs) j (omega (arith, length-drop qty xs)))
            ]
