-- ===== src/Props/Table.antt =====
-- `lookupValue`, `setAttribute`, `lookup` and `deleteField` of js_object.c, and `replaceValue` of
-- js_values.c as a write through the slot that `lookup` returns. Reference counts are not part of
-- this model.
use javascript_database.Common.{
  ℕ, zero, suc, ◌+◌, ◌-◌, ◌%◌, Bool, true, false, Option, none, some, List, [], ◌∷◌, ◌++◌, ltb,
  ◌==◌, if◌then◌else◌, length, get_elem?, replicate,
}
use javascript_database.Vector.{word_mod, grow_cap}
use javascript_database.Props.Hash.{
  Name, hash_str, hash_bytes, hash_mod, hash_store, hash_entry, name_eq,
}

-- The pair vector of an object: its capacity, the pairs in use, and the hash table behind them. A
-- null `pairsPtr` has capacity 0. An entry of the table is 0, or one more than a pair's index.
pub record Table {ℓ} (V : Type ℓ) : Type ℓ where
  pub cap : ℕ
  pub pairs : List (Name × V)
  pub slots : List ℕ

-- What `lookupValue` returns: `hit` for a positive result, `vacant h` for `-h`. It may also `exit`
-- (`overflow`), or read outside the vector or the table (`fault`); `stuck` is a loop that has run
-- out of fuel.
pub data Lookup : Type 0 where
  hit vacant : ℕ → Lookup
  overflow fault stuck : Lookup

-- if (++h == hashMod) h = 0
unfoldable pub wrap : ℕ → ℕ → ℕ
wrap size h = if h + 1 == size then 0 else h + 1

-- A hash of 0 asks for the hash of the name.
unfoldable pub start_of : ℕ → Name → ℕ → ℕ
start_of max name hash = (if hash == 0 then hash_str name else hash) % hash_mod max

-- The inner loop of a rehash. It has no way out of a full table: `none`.
unfoldable pub free_slot : ℕ → ℕ → List ℕ → ℕ → ℕ → Option ℕ
free_slot zero ent slots size h = none
free_slot (suc fuel) ent slots size h = elim (hash_entry slots ent h) [
  | none ↦ none
  | some zero ↦ some h
  | some (suc i) ↦ free_slot fuel ent slots size (wrap size h)
]

module _ {ℓ} {V : Type ℓ} where
  -- Is the pair of table entry `e` the one to find? `none`: it lies outside the vector.
  unfoldable pub same_name : List (Name × V) → Name → Bool → ℕ → Option Bool
  same_name pairs name false e = some false
  same_name pairs name true e = elim (get_elem? pairs (e - 1)) [
    | none ↦ none
    | some (key, v) ↦ some (name_eq key name)
  ]

  -- The loop of `lookupValue`.
  unfoldable pub probe : ℕ → ℕ → List ℕ → List (Name × V) → Name → Bool → ℕ → ℕ → ℕ → Lookup
  probe zero ent slots pairs name find size start h = stuck
  probe (suc fuel) ent slots pairs name find size start h = elim (hash_entry slots ent h) [
    | none ↦ fault
    | some zero ↦ vacant h
    | some (suc i) ↦ elim (same_name pairs name find (suc i)) [
      | none ↦ fault
      | some true ↦ hit (suc i)
      | some false ↦ elim (wrap size h == start) [
        | true ↦ overflow
        | false ↦ probe fuel ent slots pairs name find size start (wrap size h)
      ]
    ]
  ]

  unfoldable pub lookup_value : Table V → Name → ℕ → Bool → Lookup
  unfolding start_of
  lookup_value t name hash find =
      if t.cap == 0
      then vacant 0
      else probe (hash_mod t.cap) (hash_bytes t.cap) t.slots t.pairs name find (hash_mod t.cap)
          (start_of t.cap name hash) (start_of t.cap name hash)

  -- The rehash loop: it enters the pairs from index `idx` on.
  unfoldable pub rehash : ℕ → ℕ → List (Name × V) → ℕ → List ℕ → Option (List ℕ)
  rehash ent size [] idx slots = some slots
  rehash ent size ((name, v) ∷ rest) idx slots =
      elim (free_slot size ent slots size (hash_str name % size)) [
        | none ↦ none
        | some h ↦ elim (hash_store slots ent h (idx + 1)) [
          | none ↦ none
          | some slots' ↦ rehash ent size rest (idx + 1) slots'
        ]
      ]

  -- The new pair goes to the end of the vector, its value still undefined. The vector grows when
  -- that would leave no spare slot, and all pairs are entered into the cleared table.
  unfoldable pub set_attribute : V → Table V → Name → ℕ → Option (Table V)
  set_attribute undef t name h =
      let pairs' = t.pairs ++ (name, undef) ∷ [] in
      let cap' = grow_cap t.cap (length t.pairs) t.cap in
      if ltb ((length t.pairs + 1) % word_mod) t.cap
      then elim (hash_store t.slots (hash_bytes t.cap) h (length pairs')) [
        | none ↦ none
        | some slots' ↦ some (record t { pairs = pairs'; slots = slots' })
      ]
      else elim (rehash (hash_bytes cap') (hash_mod cap') pairs' 0 (replicate (hash_mod cap') 0)) [
        | none ↦ none
        | some slots' ↦ some (record { cap = cap'; pairs = pairs'; slots = slots' })
      ]

  -- `lookup` for an lvalue: the table, and the index of the pair whose value slot is returned.
  unfoldable pub lookup_lval : V → Table V → Name → ℕ → Option (Table V × ℕ)
  lookup_lval undef t name hash = elim (lookup_value t name hash true) [
    | hit e ↦ some (t, e - 1)
    | vacant h ↦ elim (set_attribute undef t name h) [
      | none ↦ none
      | some t' ↦ some (t', length t'.pairs - 1)
    ]
    | _ ↦ none
  ]

  -- `lookup` for a value.
  unfoldable pub lookup_rval : V → Table V → Name → ℕ → Option V
  lookup_rval undef t name hash = elim (lookup_value t name hash true) [
    | hit e ↦ elim (get_elem? t.pairs (e - 1)) [ none ↦ none | some (key, v) ↦ some v ]
    | vacant h ↦ some undef
    | _ ↦ none
  ]

  unfoldable pub set_value : List (Name × V) → ℕ → V → List (Name × V)
  set_value [] i v = []
  set_value ((name, w) ∷ rest) zero v = (name, v) ∷ rest
  set_value ((name, w) ∷ rest) (suc i) v = (name, w) ∷ set_value rest i v

  -- `replaceValue(lookup(obj, name, true, hash), value)`
  unfoldable pub put : V → Table V → Name → ℕ → V → Option (Table V)
  put undef t name hash v = elim (lookup_lval undef t name hash) [
    | none ↦ none
    | some (t', i) ↦ some (record t' { pairs = set_value t'.pairs i v })
  ]

  -- The loop of `deleteField`: it looks at every entry once, and returns the pair's index. `none`
  -- is a read outside, `some none` is NULL.
  unfoldable pub delete_loop : ℕ → ℕ → List ℕ → List (Name × V) → Name → ℕ → ℕ → Option (Option ℕ)
  delete_loop zero ent slots pairs name size h = some none
  delete_loop (suc left) ent slots pairs name size h = elim (hash_entry slots ent h) [
    | none ↦ none
    | some zero ↦ delete_loop left ent slots pairs name size (wrap size h)
    | some (suc i) ↦ elim (same_name pairs name true (suc i)) [
      | none ↦ none
      | some true ↦ some (some i)
      | some false ↦ delete_loop left ent slots pairs name size (wrap size h)
    ]
  ]

  unfoldable pub delete_field : Table V → Name → Option (Option ℕ)
  unfolding delete_loop
  delete_field t name =
      if t.cap == 0
      then some none
      else delete_loop (hash_mod t.cap) (hash_bytes t.cap) t.slots t.pairs name (hash_mod t.cap)
          (hash_str name % hash_mod t.cap)

-- `newObject`: no pairs, and a null vector.
abbrev pub empty {ℓ} : {V : Type ℓ} → Table V
empty = record { cap = 0; pairs = []; slots = [] }
