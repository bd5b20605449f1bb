-- ===== src/Props/Marshaled.antt =====
-- The property table of a marshaled object (js_marshal.c): as many slots as it has pairs, and a hash
-- table of 3 * cnt / 2 entries behind them, filled by the same loop as a rehash. The storage
-- comes from the document store, and `marshalDoc` does not clear the table before it fills it.
use javascript_database.Common.{
  ℕ, ◌%◌, ◌≡◌, true, false, Option, none, some, List, [], ◌∷◌, length, replicate, arith,
}
use javascript_database.Props.Hash.{
  Name, hash_str, hash_mod, hash_bytes, hash_store, hash_entry, name_eq,
}
use javascript_database.Props.Table.{
  Table, overflow, lookup_value, rehash, free_slot, wrap, probe, start_of, same_name,
}

module _ {ℓ} {V : Type ℓ} where
  -- `cells` is what the storage of the hash table holds before.
  unfoldable pub marshal_table : List ℕ → List (Name × V) → Option (Table V)
  marshal_table cells pairs =
      let cnt = length pairs in
      elim (rehash (hash_bytes cnt) (hash_mod cnt) pairs 0 cells) [
        | none ↦ none
        | some slots ↦ some (record { cap = cnt; pairs = pairs; slots = slots })
      ]

  -- The storage of the hash table of so many pairs is zero.
  abbrev pub IsCleared : List ℕ → List (Name × V) → Type 0
  IsCleared cells pairs = cells ≡ replicate (hash_mod (length pairs)) 0

  marshal_table-one :
      (key : Name) (v : V)
      → marshal_table (0 ∷ []) ((key, v) ∷ [])
        ≡ some (record { cap = 1; pairs = (key, v) ∷ []; slots = 1 ∷ [] })
  unfolding marshal_table rehash free_slot hash_store hash_entry hash_mod hash_bytes
  marshal_table-one key v =
      let z : hash_str key % 1 ≡ 0 = omega arith in
      rw (marshal_table, rehash, free_slot, z, hash_store, z)

  -- An object with one property that is marshaled into storage that is zero has a hash table of
  -- one entry, which is in use: a lookup of any other name, with its hash or 0, ends the program
  -- by the overflow of the table.
  pub lookup_value-marshal_table_one :
      (key name : Name) (v : V) (hash : ℕ)
      → name_eq key name ≡ false
      → (t : Table V) × (marshal_table (0 ∷ []) ((key, v) ∷ []) ≡ some t)
        × (lookup_value t name hash true ≡ overflow)
  unfolding lookup_value probe start_of hash_mod hash_bytes hash_entry wrap same_name
  lookup_value-marshal_table_one key name v hash other =
      let z : start_of 1 name hash ≡ 0 = omega arith in
      (
        record { cap = 1; pairs = (key, v) ∷ []; slots = 1 ∷ [] },
        marshal_table-one key v,
        rw (lookup_value, z, probe, same_name, other, z),
      )
