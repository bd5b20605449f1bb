-- ===== src/Arrays/Concat.antt =====
-- What `concat`, `slice` and `cloneArray` answer.
use javascript_database.Common.{
  ◌+◌, ◌*◌, ◌≤◌, ◌<◌, ◌≡◌, refl, ap, ◌∙◌, Option, none, some, List, [], ◌∷◌, ◌++◌, length,
  length-append, arith,
}
use mathlib.Core.List.{append_assoc, append-nil}
use javascript_database.Vector.{
  word_mod, Vector, grow_cap, vec_push, vec_grow, vec_items, vec_cnt, vec_max, vec_needgrow,
}
use javascript_database.Strings.{Arg}
use javascript_database.Arrays.{
  Part, array, single, push_all, push_parts, fcn_array_concat, fcn_array_slice, clone_array,
}

module _ {ℓ} {V : Type ℓ} where
  -- The values of the arguments in a row.
  abbrev pub flatten : List (Part V) → List V
  flatten [] = []
  flatten (array xs ∷ parts) = xs ++ flatten parts
  flatten (single x ∷ parts) = x ∷ flatten parts

  -- A vector that has grown by pushes: its size is within its capacity, which is at most doubled.
  record Grown (v : Option (Vector V)) (xs : List V) : Type ℓ where
    pub items_are : vec_items v ≡ xs
    pub within : vec_cnt v ≤ vec_max v
    pub small : vec_max v ≤ 2 * vec_cnt v + 10

  push-Grown :
      (v : Option (Vector V)) (xs : List V) (x : V)
      → Grown v xs
      → 4 * length xs + 64 < word_mod
      → Grown (some (vec_push v x)) (xs ++ x ∷ [])
  unfolding vec_push vec_needgrow vec_grow grow_cap
  push-Grown none xs x g b = record {
    items_are = ap (λ ys. ys ++ x ∷ []) g.items_are;
    within = omega arith;
    small = omega arith;
  }
  push-Grown (some v) xs x g b =
      let n : length v.items ≡ length xs = ap length g.items_are in
      record {
        items_are =
            let same : (vec_push (some v) x).items ≡ v.items ++ x ∷ [] = ground arith in
            same ∙ ap (λ ys. ys ++ x ∷ []) g.items_are;
        within = ground (arith, length-append v.items (x ∷ []), g.within, g.small, n, b);
        small = ground (arith, length-append v.items (x ∷ []), g.within, g.small, n, b);
      }

  push_all-Grown :
      (v : Option (Vector V)) (done xs : List V)
      → Grown v done
      → 4 * (length done + length xs) + 64 < word_mod
      → Grown (push_all v xs) (done ++ xs)
  unfolding push_all
  push_all-Grown v done [] g b = rw append-nil g
  push_all-Grown v done (x ∷ xs) g b =
      let r =
        push_all-Grown (some (vec_push v x)) (done ++ x ∷ []) xs
          (push-Grown v done x g (omega arith)) (omega (arith, length-append done (x ∷ []))) in
      rw append_assoc at r

  push_parts-Grown :
      (v : Option (Vector V)) (done : List V) (parts : List (Part V))
      → Grown v done
      → 4 * (length done + length (flatten parts)) + 64 < word_mod
      → Grown (push_parts v parts) (done ++ flatten parts)
  unfolding push_parts
  push_parts-Grown v done [] g b = rw append-nil g
  push_parts-Grown v done (array xs ∷ parts) g b =
      let n = length-append xs (flatten parts) in
      let r =
        push_parts-Grown (push_all v xs) (done ++ xs) parts
          (push_all-Grown v done xs g (omega (arith, n)))
          (omega (arith, n, length-append done xs)) in
      rw append_assoc at r
  push_parts-Grown v done (single x ∷ parts) g b =
      let r =
        push_parts-Grown (some (vec_push v x)) (done ++ x ∷ []) parts
          (push-Grown v done x g (omega arith)) (omega (arith, length-append done (x ∷ []))) in
      rw append_assoc at r

  -- `concat` gives the values of the array and then those of the arguments in a row, in a vector
  -- whose size is within its capacity, where four times the number of them all and 64 is below 2
  -- ^ 32.
  pub fcn_array_concat-flatten :
      (args : List (Part V)) (values : List V)
      → 4 * (length values + length (flatten args)) + 64 < word_mod
      → (vec_items (fcn_array_concat args values) ≡ values ++ flatten args)
        × (vec_cnt (fcn_array_concat args values) ≤ vec_max (fcn_array_concat args values))
  unfolding fcn_array_concat
  fcn_array_concat-flatten args values b =
      let start : Grown none [] = record {
        items_are = refl;
        within = omega arith;
        small = omega arith;
      } in
      let g =
        push_parts-Grown (push_all none values) values args
          (push_all-Grown none [] values start (omega arith)) b in
      (g.items_are, g.within)

  -- Where `slice` of an array returns, and whenever `cloneArray` does, the vector of the result
  -- has size 0, whatever was written to its slots.
  pub fcn_array_slice-vec_cnt :
      (args : List Arg) (values : List V) (v : Option (Vector V))
      → fcn_array_slice args values ≡ some v
      → (vec_cnt v ≡ 0) × (vec_cnt (clone_array values) ≡ 0)
  unfolding fcn_array_slice clone_array
  fcn_array_slice-vec_cnt args values v e = (ground (arith, e), ground arith)
