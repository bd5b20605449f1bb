-- ===== src/Props/Cloned.antt =====
-- `cloneObject` of js_dbdoc.c, which makes an object of a marshaled one.
use javascript_database.Common.{
  ℕ, suc, ◌+◌, ◌/◌, ◌%◌, ◌≤◌, ◌≡◌, refl, inl, false, Option, none, some, List, [], ◌∷◌, ◌++◌,
  length, set, replicate, length-append, lt-get_elem?, arith,
}
use mathlib.Core.List.{append_assoc, append-nil}
use native.Mathlib.Numerals.{add-one}
use javascript_database.Vector.{word_mod, grow_cap}
use javascript_database.Props.Hash.{
  Name, hash_str, hash_mod, hash_bytes, hash_store, hash_store-hash_bytes,
}
use javascript_database.Props.Table.{Table, Lookup, vacant, lookup_value, lookup_rval}
use javascript_database.Props.Probe.{Answer, at_pair, at_free}
use javascript_database.Props.Valid.{
  max_cap, IsHashed, IsHashed-Answer, IsHashOf, IsValid, Distinct, IsPlace, hash_mod_pos,
  lookup_value-probe,
}
use javascript_database.Props.Rehash.{IsHashed-enter, IsHashed-cleared}
use javascript_database.Props.Refine.{get_of, or_undef, lookup_rval-get_of}

module _ {ℓ} {V : Type ℓ} where
  abbrev pub table_of : ℕ → List (Name × V) → List ℕ → Table V
  table_of cap pairs slots = record { cap = cap; pairs = pairs; slots = slots }

  -- The loop over the pairs: each is entered where `lookupValue` finds the first free entry, which
  -- it looks for without comparing names.
  unfoldable pub clone_loop : ℕ → List (Name × V) → List (Name × V) → List ℕ → Option (Table V)
  clone_loop cap [] done slots = some (table_of cap done slots)
  clone_loop cap ((name, v) ∷ rest) done slots =
      elim (lookup_value (table_of cap done slots) name 0 false) [
        | vacant h ↦ elim (hash_store slots (hash_bytes cap) h (length done + 1)) [
          | none ↦ none
          | some slots' ↦ clone_loop cap rest (done ++ (name, v) ∷ []) slots'
        ]
        | _ ↦ none
      ]

  -- newVector(cnt + cnt / 4, sizeof(pair_t), true)
  unfoldable pub clone_object : List (Name × V) → Option (Table V)
  unfolding clone_loop
  clone_object pairs =
      let cap = grow_cap 0 0 ((length pairs + length pairs / 4) % word_mod) in
      clone_loop cap pairs [] (replicate (hash_mod cap) 0)

  module _ (cap : ℕ) (wide : 2 ≤ cap) (cap_in : cap ≤ max_cap) where
    entry_of :
        (done : List (Name × V)) (slots : List ℕ) (name : Name)
        → IsHashed cap done slots
        → length done ≤ cap
        → (h : ℕ) × (lookup_value (table_of cap done slots) name 0 false ≡ vacant h)
          × IsPlace cap slots name h
    entry_of done slots name w room =
        let pos = hash_mod_pos cap wide cap_in in
        let found =
          lookup_value-probe (table_of cap done slots) name 0 false (omega arith) (inl refl) in
        at_answer _ found (
          IsHashed-Answer cap slots done name w (omega arith) false (hash_str name % hash_mod cap)
            (omega arith))
      where
        at_answer :
            (r : Lookup)
            → lookup_value (table_of cap done slots) name 0 false ≡ r
            → Answer slots done name false (hash_mod cap) (hash_str name % hash_mod cap) r
            → (h : ℕ) × (lookup_value (table_of cap done slots) name 0 false ≡ vacant h)
              × IsPlace cap slots name h
        at_answer r e (at_pair i v g f) = absurd (cc)
        at_answer r e (at_free k q trail z) = (q, e, (k, trail, z))

    clone_loop-IsHashed :
        (rest done : List (Name × V)) (slots : List ℕ)
        → IsHashed cap done slots
        → length done + length rest ≤ cap
        → (slots' : List ℕ) × (clone_loop cap rest done slots
            ≡ some (table_of cap (done ++ rest) slots'))
          × IsHashed cap (done ++ rest) slots'
    unfolding clone_loop
    clone_loop-IsHashed [] done slots w room = (slots, rw append-nil, rw append-nil w)
    clone_loop-IsHashed ((name, v) ∷ rest) done slots w room =
        let (h, found, place) = entry_of done slots name w (omega arith) in
        let h_in = lt-get_elem? slots h 0 place.2 in
        let stored : hash_store slots (hash_bytes cap) h (length done + 1)
            ≡ some (set slots h (suc (length done))) =
          rw add-one (
            hash_store-hash_bytes slots cap h (suc (length done)) h_in (omega arith)
              (omega arith)) in
        let (slots', e, w') =
          clone_loop-IsHashed rest (done ++ (name, v) ∷ []) (set slots h (suc (length done)))
            (IsHashed-enter cap h done slots name v w place)
            (omega (arith, length-append done ((name, v) ∷ []))) in
        (slots', rw (clone_loop, found, stored) (rw append_assoc at e), rw append_assoc at w')

  -- For the pairs of a marshaled object with distinct names, of which there are with a quarter
  -- more no more than the largest capacity, `cloneObject` makes a well-formed table, and a lookup
  -- in it, with the hash of the name or 0, reads the value that the pairs hold for the name, or
  -- undefined.
  pub lookup_rval-clone_object :
      (undef : V) (pairs : List (Name × V)) (name : Name) (hash : ℕ)
      → Distinct pairs
      → length pairs + length pairs / 4 ≤ max_cap
      → IsHashOf hash name
      → (t : Table V) × (clone_object pairs ≡ some t)
        × IsValid t
        × (lookup_rval undef t name hash ≡ some (or_undef undef (get_of pairs name)))
  unfolding clone_object grow_cap
  lookup_rval-clone_object undef pairs name hash d h g =
      let cap = grow_cap 0 0 ((length pairs + length pairs / 4) % word_mod) in
      let b = grow_cap_in (length pairs) h in
      let (slots, e, w) =
        clone_loop-IsHashed cap (omega (arith, b)) (b.1) pairs [] (replicate (hash_mod cap) 0)
          (IsHashed-cleared cap) (omega (arith, b)) in
      let valid : IsValid (table_of cap pairs slots) = record {
        fits = b.0;
        cap_in = (omega (arith, b), b.1);
        hashed = w;
        distinct = d;
      } in
      (
        table_of cap pairs slots,
        e,
        valid,
        lookup_rval-get_of undef (table_of cap pairs slots) name hash valid g,
      )
    where
      grow_cap_in :
          (n : ℕ)
          → n + n / 4 ≤ max_cap
          → (n ≤ grow_cap 0 0 ((n + n / 4) % word_mod))
            × (grow_cap 0 0 ((n + n / 4) % word_mod) ≤ max_cap)
            × (10 ≤ grow_cap 0 0 ((n + n / 4) % word_mod))
      grow_cap_in n h = ground arith
