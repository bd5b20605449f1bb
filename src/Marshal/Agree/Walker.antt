-- ===== src/Marshal/Agree/Walker.antt =====
-- What `calcSize` and `marshalDoc` have in common, as laws of a visit and a test, and the walk of
-- any such pair.
use javascript_database.Common.{
  ℕ, zero, suc, ◌+◌, ◌%◌, ◌≤◌, ◌<◌, ◌≡◌, refl, ap, ◌∙◌, Bool, true, false, List, [], ◌∷◌, length,
  if◌then◌else◌, arith,
}
use native.Mathlib.Nat.{add-zero, zero-add, add_assoc}
use javascript_database.Vector.{word_mod}
use javascript_database.Marshal.Values.{
  IsOwn, AreOwn, HasOwn, Kind, Value, immediate, text, document, stored, arr, obj, Items, nil, cons,
  Fields, end, field, items_cnt, fields_cnt, drop_items, drop_fields,
}
use javascript_database.Marshal.Walk.{
  array_size, object_size, string_size, Frame, State, Next, go, exits, overrun, grow, push, round,
  array_next, object_next, Outcome, done, exited, overran, faults, faulted, loop, begin,
}
use javascript_database.Marshal.Size.{
  total, total_items, total_fields, nesting, nesting_items, nesting_fields, rounds, rounds_items,
  rounds_fields,
}

abbrev pub at : List Frame → ℕ → State
at stack size = record { stack = stack; size = size }

pub record Walker : Type 0 where
  pub visit : Value → State → Next
  pub overflow : ℕ → Bool
  pub counted : Kind → Bool
  pub limit : ℕ
  pub first : ℕ
  pub last : ℕ
  pub last_in : last < word_mod
  pub below_last : (size : ℕ) → (first ≤ size) × (size ≤ last) → overflow size ≡ false
  pub visit-immediate : (s : State) → visit immediate s ≡ go s
  pub visit-text :
      (kind : Kind) (str : List ℕ) (s : State)
      → visit (text kind str) s ≡ go (if counted kind then grow s (string_size str) else s)
  pub visit-arr :
      (xs : Items) (s : State)
      → length s.stack + 1 < limit
      → visit (arr xs) s ≡ go (push s (arr xs))
  pub visit-obj :
      (ps : Fields) (s : State)
      → length s.stack + 1 < limit
      → visit (obj ps) s ≡ go (push s (obj ps))

drop_items-suc :
    (xs : Items) (i : ℕ) (v : Value) (r : Items)
    → drop_items i xs ≡ cons v r
    → drop_items (suc i) xs ≡ r
drop_items-suc nil zero v r e = absurd (ground (arith, e))
drop_items-suc nil (suc i) v r e = absurd (ground (arith, e))
drop_items-suc (cons w xs) zero v r e = ground (arith, e)
drop_items-suc (cons w xs) (suc i) v r e = drop_items-suc xs i v r e

drop_fields-suc :
    (ps : Fields) (i : ℕ) (name : List ℕ) (v : Value) (r : Fields)
    → drop_fields i ps ≡ field name v r
    → drop_fields (suc i) ps ≡ r
drop_fields-suc end zero name v r e = absurd (ground (arith, e))
drop_fields-suc end (suc i) name v r e = absurd (ground (arith, e))
drop_fields-suc (field m w ps) zero name v r e = ground (arith, e)
drop_fields-suc (field m w ps) (suc i) name v r e = drop_fields-suc ps i name v r e

module _ (w : Walker) where
  open w use {visit, overflow, counted, limit, first, last, last_in}

  -- The loop from the result of a visit on.
  pub resume : Next → ℕ → Outcome
  resume (go s) fuel = loop visit overflow fuel s
  resume exits fuel = exited
  resume overrun fuel = overran
  resume faults fuel = faulted

  -- One round, where the test at the head does not stop it.
  pub loop-round :
      (fuel size : ℕ) (frame : Frame) (rest : List Frame)
      → (first ≤ size) × (size ≤ last)
      → loop visit overflow (suc fuel) (at (frame ∷ rest) size)
        ≡ resume (round visit frame.top frame.idx rest size) fuel
  unfolding loop resume
  loop-round fuel size frame rest h =
      rw (loop, w.below_last size h) (split (round visit frame.top frame.idx rest size))
    where
      split :
          (n : Next)
          → (elim n [
            | go s' ↦ loop visit overflow fuel s'
            | exits ↦ exited
            | overrun ↦ overran
            | faults ↦ faulted
          ])
            ≡ resume n fuel
      split (go s) = refl
      split exits = refl
      split overrun = refl
      split faults = refl

  -- The first round of a container counts its structure; a later one takes up where it stopped.
  round-arr_first :
      (xs : Items) (rest : List Frame) (size : ℕ)
      → size + array_size (items_cnt xs) ≤ last
      → round visit (arr xs) 0 rest size
        ≡ array_next visit xs xs 0 rest (size + array_size (items_cnt xs))
  unfolding round
  round-arr_first xs rest size b =
      let whole : (size + array_size (items_cnt xs)) % word_mod ≡ size + array_size (items_cnt xs) =
        omega (arith, last_in) in
      rw whole

  round-arr_later :
      (xs r : Items) (i size : ℕ) (rest : List Frame)
      → drop_items (suc i) xs ≡ r
      → round visit (arr xs) (suc i) rest size ≡ array_next visit r xs (suc i) rest size
  unfolding round
  round-arr_later xs r i size rest e = rw e (ground arith)

  round-obj_first :
      (ps : Fields) (rest : List Frame) (size : ℕ)
      → size + object_size (fields_cnt ps) ≤ last
      → round visit (obj ps) 0 rest size
        ≡ object_next visit ps ps 0 rest (size + object_size (fields_cnt ps))
  unfolding round
  round-obj_first ps rest size b =
      let whole : (size + object_size (fields_cnt ps)) % word_mod
          ≡ size + object_size (fields_cnt ps) =
        omega (arith, last_in) in
      rw whole

  round-obj_later :
      (ps r : Fields) (i size : ℕ) (rest : List Frame)
      → drop_fields (suc i) ps ≡ r
      → round visit (obj ps) (suc i) rest size ≡ object_next visit r ps (suc i) rest size
  unfolding round
  round-obj_later ps r i size rest e = rw e (ground arith)

  visit-text_at :
      (kind : Kind) (str : List ℕ) (stack : List Frame) (size : ℕ)
      → size + (if counted kind then string_size str else 0) ≤ last
      → visit (text kind str) (at stack size)
        ≡ go (at stack (size + (if counted kind then string_size str else 0)))
  visit-text_at kind str stack size b =
      rw (w.visit-text kind str (at stack size)) (split (counted kind) b)
    where
      split :
          (c : Bool)
          → size + (if c then string_size str else 0) ≤ last
          → go (if c then grow (at stack size) (string_size str) else at stack size)
            ≡ go (at stack (size + (if c then string_size str else 0)))
      split true b =
          let whole : (size + string_size str) % word_mod ≡ size + string_size str =
            omega (arith, last_in) in
          rw whole
      split false b = rw add-zero

  -- The first round of a container, after its visit has put it on the stack.
  enter-arr :
      (xs : Items) (stack : List Frame) (size fuel : ℕ)
      → length stack + 1 < limit
      → (first ≤ size) × (size + array_size (items_cnt xs) ≤ last)
      → resume (visit (arr xs) (at stack size)) (suc fuel)
        ≡ resume (array_next visit xs xs 0 stack (size + array_size (items_cnt xs))) fuel
  unfolding resume
  enter-arr xs stack size fuel h b = rw (w.visit-arr xs (at stack size) h) (
      loop-round fuel size (record { top = arr xs; idx = 0 }) stack (omega arith)
      ∙ ap (λ n. resume n fuel) (round-arr_first xs stack size b.1))

  enter-obj :
      (ps : Fields) (stack : List Frame) (size fuel : ℕ)
      → length stack + 1 < limit
      → (first ≤ size) × (size + object_size (fields_cnt ps) ≤ last)
      → resume (visit (obj ps) (at stack size)) (suc fuel)
        ≡ resume (object_next visit ps ps 0 stack (size + object_size (fields_cnt ps))) fuel
  unfolding resume
  enter-obj ps stack size fuel h b = rw (w.visit-obj ps (at stack size) h) (
      loop-round fuel size (record { top = obj ps; idx = 0 }) stack (omega arith)
      ∙ ap (λ n. resume n fuel) (round-obj_first ps stack size b.1))

  mutual
    unfolding resume total nesting rounds array_next object_next IsOwn

    walk_value :
        (v : Value) (stack : List Frame) (size fuel : ℕ)
        → IsOwn v
        → length stack + nesting v < limit
        → (first ≤ size) × (size + total counted v ≤ last)
        → resume (visit v (at stack size)) (rounds v + fuel)
          ≡ loop visit overflow fuel (at stack (size + total counted v))
    walk_value immediate stack size fuel o h b =
        rw (w.visit-immediate (at stack size), add-zero, zero-add)
    walk_value (text kind str) stack size fuel o h b =
        rw (visit-text_at kind str stack size b.1, zero-add)
    walk_value document stack size fuel o h b = absurd o
    walk_value stored stack size fuel o h b = absurd o
    walk_value (arr xs) stack size fuel o h b =
        let n : suc (rounds_items xs) + fuel ≡ suc (rounds_items xs + fuel) = omega arith in
        let sum = add_assoc size (array_size (items_cnt xs)) (total_items counted xs) in
        rw (n, ← sum)
          (enter-arr xs stack size (rounds_items xs + fuel) (omega arith) (omega arith)
            ∙ walk_items xs xs 0 stack (size + array_size (items_cnt xs)) fuel refl o h
                (omega arith))
    walk_value (obj ps) stack size fuel o h b =
        let n : suc (rounds_fields ps) + fuel ≡ suc (rounds_fields ps + fuel) = omega arith in
        let sum = add_assoc size (object_size (fields_cnt ps)) (total_fields counted ps) in
        rw (n, ← sum)
          (enter-obj ps stack size (rounds_fields ps + fuel) (omega arith) (omega arith)
            ∙ walk_fields ps ps 0 stack (size + object_size (fields_cnt ps)) fuel refl o h
                (omega arith))

    walk_items :
        (r xs : Items) (i : ℕ) (stack : List Frame) (size fuel : ℕ)
        → drop_items i xs ≡ r
        → AreOwn r
        → length stack + suc (nesting_items r) < limit
        → (first ≤ size) × (size + total_items counted r ≤ last)
        → resume (array_next visit r xs i stack size) (rounds_items r + fuel)
          ≡ loop visit overflow fuel (at stack (size + total_items counted r))
    walk_items nil xs i stack size fuel e o h b = rw (add-zero, zero-add)
    walk_items (cons v r) xs i stack size fuel e o h b =
        let frame : Frame = record { top = arr xs; idx = suc i } in
        let size' = size + total counted v in
        let n : rounds v + suc (rounds_items r) + fuel ≡ rounds v + suc (rounds_items r + fuel) =
          omega arith in
        let sum = add_assoc size (total counted v) (total_items counted r) in
        rw (n, ← sum)
          (walk_value v (frame ∷ stack) size (suc (rounds_items r + fuel)) o.0 (omega arith)
              (omega arith)
            ∙ loop-round (rounds_items r + fuel) size' frame stack (omega arith)
            ∙ ap (λ m. resume m (rounds_items r + fuel))
                (round-arr_later xs r i size' stack (drop_items-suc xs i v r e))
            ∙ walk_items r xs (suc i) stack size' fuel (drop_items-suc xs i v r e) o.1 (omega arith)
                (omega arith))

    walk_fields :
        (r ps : Fields) (i : ℕ) (stack : List Frame) (size fuel : ℕ)
        → drop_fields i ps ≡ r
        → HasOwn r
        → length stack + suc (nesting_fields r) < limit
        → (first ≤ size) × (size + total_fields counted r ≤ last)
        → resume (object_next visit r ps i stack size) (rounds_fields r + fuel)
          ≡ loop visit overflow fuel (at stack (size + total_fields counted r))
    walk_fields end ps i stack size fuel e o h b = rw (add-zero, zero-add)
    walk_fields (field name v r) ps i stack size fuel e o h b =
        let frame : Frame = record { top = obj ps; idx = suc i } in
        let named = size + string_size name in
        let size' = named + total counted v in
        let whole : (size + string_size name) % word_mod ≡ named = omega (arith, last_in) in
        let n : rounds v + suc (rounds_fields r) + fuel ≡ rounds v + suc (rounds_fields r + fuel) =
          omega arith in
        let sum : size + (string_size name + total counted v + total_fields counted r)
            ≡ size' + total_fields counted r =
          omega arith in
        let left = drop_fields-suc ps i name v r e in
        rw (whole, n, sum)
          (walk_value v (frame ∷ stack) named (suc (rounds_fields r + fuel)) o.0 (omega arith)
              (omega arith)
            ∙ loop-round (rounds_fields r + fuel) size' frame stack (omega arith)
            ∙ ap (λ m. resume m (rounds_fields r + fuel)) (round-obj_later ps r i size' stack left)
            ∙ walk_fields r ps (suc i) stack size' fuel left o.1 (omega arith) (omega arith))

  loop-end : (fuel size : ℕ) → loop visit overflow fuel (at [] size) ≡ done size
  unfolding loop
  loop-end zero size = refl
  loop-end (suc fuel) size = refl

  -- A document that is no container takes one round, and the rounds of the value in it.
  walk_other :
      (v : Value) (size fuel : ℕ)
      → ((rest : List Frame) → round visit v 0 rest size ≡ visit v (at rest size))
      → IsOwn v
      → nesting v < limit
      → (first ≤ size) × (size + total counted v ≤ last)
      → loop visit overflow (suc (rounds v) + fuel) (begin v size) ≡ done (size + total counted v)
  walk_other v size fuel r o h b =
      let n : suc (rounds v) + fuel ≡ suc (rounds v + fuel) = omega arith in
      rw n (
        loop-round (rounds v + fuel) size (record { top = v; idx = 0 }) [] (omega arith)
        ∙ ap (λ m. resume m (rounds v + fuel)) (r [])
        ∙ walk_value v [] size fuel o (omega arith) b
        ∙ loop-end fuel (size + total counted v))

  -- With enough rounds the walk of a document ends, at the size of the document.
  pub walk_root :
      (doc : Value) (size fuel : ℕ)
      → IsOwn doc
      → nesting doc < limit
      → (first ≤ size) × (size + total counted doc ≤ last)
      → loop visit overflow (suc (rounds doc) + fuel) (begin doc size)
        ≡ done (size + total counted doc)
  unfolding round rounds total nesting IsOwn
  walk_root immediate size fuel o h b = walk_other immediate size fuel (λ rest. refl) o h b
  walk_root (text kind str) size fuel o h b =
      walk_other (text kind str) size fuel (λ rest. refl) o h b
  walk_root document size fuel o h b = absurd o
  walk_root stored size fuel o h b = absurd o
  walk_root (arr xs) size fuel o h b =
      let n : suc (suc (rounds_items xs)) + fuel ≡ suc (rounds_items xs + suc fuel) = omega arith in
      let sum = add_assoc size (array_size (items_cnt xs)) (total_items counted xs) in
      rw (n, ← sum)
        (loop-round (rounds_items xs + suc fuel) size (record { top = arr xs; idx = 0 }) []
            (omega arith)
          ∙ ap (λ m. resume m (rounds_items xs + suc fuel))
              (round-arr_first xs [] size (omega arith))
          ∙ walk_items xs xs 0 [] (size + array_size (items_cnt xs)) (suc fuel) refl o (omega arith)
              (omega arith)
          ∙ loop-end (suc fuel) _)
  walk_root (obj ps) size fuel o h b =
      let n : suc (suc (rounds_fields ps)) + fuel ≡ suc (rounds_fields ps + suc fuel) =
        omega arith in
      let sum = add_assoc size (object_size (fields_cnt ps)) (total_fields counted ps) in
      rw (n, ← sum)
        (loop-round (rounds_fields ps + suc fuel) size (record { top = obj ps; idx = 0 }) []
            (omega arith)
          ∙ ap (λ m. resume m (rounds_fields ps + suc fuel))
              (round-obj_first ps [] size (omega arith))
          ∙ walk_fields ps ps 0 [] (size + object_size (fields_cnt ps)) (suc fuel) refl o
              (omega arith) (omega arith)
          ∙ loop-end (suc fuel) _)
