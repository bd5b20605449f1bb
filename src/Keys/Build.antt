-- ===== src/Keys/Build.antt =====
-- `idxBldKeyHelper`: the keys of a document.
use javascript_database.Common.{
  ℕ, zero, suc, ◌+◌, ◌-◌, ◌%◌, Bool, ◌||◌, Option, none, some, List, [], ◌∷◌, ◌++◌, length,
  get_elem?, take, ltb, leb, ◌==◌, if◌then◌else◌,
}
use javascript_database.Common.Int.{ℤ}
use javascript_database.Symbols.Tables.{half_mod}
use javascript_database.Keys.Encode.{Source, key_fld}
use javascript_database.Keys.Layout.{spec_size, Field, KeySpec, KeyBlock, at_offset, read_fields}

-- What the switch on the type of a value tells apart.
pub data Shape {ℓ} (V : Type ℓ) : Type ℓ where
  object : Shape V
  array : List V → Shape V
  plain : Shape V

-- KeyStack
pub record Item {ℓ} (V : Type ℓ) : Type ℓ where
  pub key_len : ℕ
  pub off : ℕ
  pub cnt : ℕ
  pub idx : ℕ
  pub values : List V

-- The variables of the loop, the specifications, whose types it writes, and the keys that it makes.
pub record Work {ℓ} (V : Type ℓ) : Type ℓ where
  pub off : ℕ
  pub key : List ℕ
  pub depth : ℕ
  pub stack : ℕ → Item V
  pub specs : List (ℕ × KeySpec)
  pub keys : List (List ℕ)

-- `fault` is a read or a write outside the block of the key, the stack or an array.
pub data Turn {ℓ} (V : Type ℓ) : Type ℓ where
  again : Work V → Turn V
  stop : List (List ℕ) → Turn V
  fault : Turn V

abbrev pub max_array_fields : ℕ
max_array_fields = 8

unfoldable pub set_type : List (ℕ × KeySpec) → ℕ → ℕ → List (ℕ × KeySpec)
set_type [] off fld_type = []
set_type ((at, spec) ∷ specs) off fld_type =
    if at == off
    then (at, record spec { fld_type = fld_type }) ∷ specs
    else (at, spec) ∷ set_type specs off fld_type

abbrev pub put_item {ℓ} : {V : Type ℓ} → (ℕ → Item V) → ℕ → Item V → ℕ → Item V
put_item stack depth item = λ d. if d == depth then item else stack d

-- The array is a new one, where it stands behind the one that is on the stack.
abbrev pub is_new {ℓ} : {V : Type ℓ} → Work V → Bool
is_new w = w.depth == 0 || ltb (w.stack (w.depth - 1)).off w.off

abbrev pub new_item {ℓ} : {V : Type ℓ} → List V → Work V → Item V
new_item values w = record {
  key_len = length w.key % half_mod;
  off = w.off;
  cnt = length values % half_mod;
  idx = 0;
  values = values;
}

-- The loop starts behind spec_max, with an empty key; the stack holds whatever it holds.
abbrev pub start_work {ℓ} : {V : Type ℓ} → KeyBlock → (ℕ → Item V) → Work V
start_work block stack = record {
  off = 4;
  key = [];
  depth = 0;
  stack = stack;
  specs = block.specs;
  keys = [];
}

-- The compound lookup.
abbrev pub follow {ℓ} : {V : Type ℓ} → (V → Field → V) → V → List Field → V
follow get val [] = val
follow get val (field ∷ fields) = follow get (get val field) fields

-- `get` looks a field up in a value, `shape` is its type, and `source` what the conversions give for
-- it. `max_key` is the largest length of a key.
module _ {ℓ} {V : Type ℓ} (get : V → Field → V) (shape : V → Shape V) (source : V → Source)
    (store64 : ℤ → List ℕ) (binary : Bool) (max_key : ℕ) (block : KeyBlock) where
  -- The key is complete: it is kept, and the innermost array goes on.
  unfoldable pub finish : Work V → Turn V
  finish w = elim w.depth [
    | zero ↦ again (record w { keys = w.keys ++ w.key ∷ [] })
    | suc depth ↦ again (record w {
      keys = w.keys ++ w.key ∷ [];
      depth = depth;
      key = take (w.stack depth).key_len w.key;
      off = (w.stack depth).off;
    })
  ]

  -- The last field completes the key.
  unfoldable pub settle : Work V → Turn V
  unfolding finish
  settle w = if ltb w.off block.spec_max then again w else finish w

  -- The next field is appended; a value that does not fit ends the loop. The room is that of a key
  -- of at most max_key bytes; the difference would wrap for a longer one.
  unfoldable pub append_field : KeySpec → ℕ → V → Work V → Turn V
  unfolding settle set_type
  append_field spec next val w =
      let (bytes, fld_type) =
        key_fld store64 binary (max_key - length w.key) spec.fld_type (source val) in
      elim bytes [
        | none ↦ stop w.keys
        | some added ↦ settle (record w {
          specs = set_type w.specs w.off fld_type;
          key = w.key ++ added;
          off = next % half_mod;
        })
      ]

  -- The next element of the array of an item.
  unfoldable pub next_value : KeySpec → ℕ → Item V → ℕ → Work V → Turn V
  unfolding append_field
  next_value spec next item depth w = elim (get_elem? item.values item.idx) [
    | none ↦ fault
    | some val ↦ append_field spec next val (record w {
      stack = put_item w.stack w.depth (record item { idx = (item.idx + 1) % half_mod });
      depth = if ltb ((item.idx + 1) % half_mod) item.cnt then depth else depth - 1;
    })
  ]

  unfoldable pub visit_array : KeySpec → ℕ → List V → Work V → Turn V
  unfolding next_value
  visit_array spec next values w =
      if leb max_array_fields w.depth
      then fault
      else if is_new w
      then (if length values % half_mod == 0
          then again (record w {
            off = next % half_mod;
            stack = put_item w.stack w.depth (new_item values w);
          })
          else next_value spec next (new_item values w) (w.depth + 1) w)
      else next_value spec next (w.stack w.depth) w.depth w

  -- One round of the loop.
  unfoldable pub key_round : V → Work V → Turn V
  unfolding visit_array
  key_round rec w =
      if ltb w.off block.spec_max
      then elim (at_offset w.specs w.off) [
        | none ↦ fault
        | some spec ↦ elim (read_fields block.fields spec.num_flds (w.off + spec_size)) [
          | none ↦ fault
          | some read ↦
              let val = follow get rec read.0 in
              elim (shape val) [
                | object ↦ again w
                | array values ↦ visit_array spec read.1 values w
                | plain ↦ append_field spec read.1 val w
              ]
        ]
      ]
      else stop w.keys

  -- Nothing is a loop that has not ended.
  unfoldable pub idx_bld_key_helper : ℕ → V → Work V → Option (Turn V)
  unfolding key_round
  idx_bld_key_helper zero rec w = none
  idx_bld_key_helper (suc fuel) rec w = elim (key_round rec w) [
    | again w' ↦ idx_bld_key_helper fuel rec w'
    | stop keys ↦ some (stop keys)
    | fault ↦ some fault
  ]
