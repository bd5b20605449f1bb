-- ===== src/Keys/Layout.antt =====
-- `compileKey`: the specification of a key in one block, and the reading of it by `idxBldKeyHelper`.
-- The block is kept as the specifications and the fields in it, each with its offset.
use javascript_database.Common.{
  ℕ, zero, suc, ◌+◌, ◌%◌, Option, none, some, List, [], ◌∷◌, ◌++◌, length, ◌==◌, if◌then◌else◌,
  ◌>>=◌,
}
use javascript_database.Vector.{word_mod}
use javascript_database.Props.Hash.{Name, hash_str}
use javascript_database.Keys.Options.{KeyOption, key_options}

-- sizeof(struct Field), sizeof(KeySpec)
abbrev pub field_size : ℕ
field_size = 16

abbrev pub spec_size : ℕ
spec_size = 24

pub record Field : Type 0 where
  pub hash : ℕ
  pub name : Name

pub record KeySpec : Type 0 where
  pub num_flds : ℕ
  pub fld_type : ℕ

-- `spec_max` stands at the start of the block.
pub record KeyBlock : Type 0 where
  pub spec_max : ℕ
  pub specs : List (ℕ × KeySpec)
  pub fields : List (ℕ × Field)

-- The first pass: the size of the block.
unfoldable pub name_size : Name → ℕ
name_size [] = 0
name_size (ch ∷ name) = (if ch == b'.' then field_size else 1) + name_size name

unfoldable pub key_size : List (Name × KeyOption) → ℕ
unfolding name_size
key_size [] = 0
key_size ((name, option) ∷ pairs) =
    (spec_size + field_size + name_size name + key_size pairs) % word_mod

-- The hash is set when the name is complete.
abbrev pub field_of : Name → Field
field_of name = record { hash = hash_str name; name = name }

-- The loop over the rest of a name. `start` is the offset of the field, and `part` its name so far.
-- What is made: the number of further fields, the offset behind them all, and the fields.
unfoldable pub fill_name : Name → ℕ → ℕ → Name → ℕ × ℕ × List (ℕ × Field)
fill_name [] start off part = (0, (off + field_size) % word_mod, (start, field_of part) ∷ [])
fill_name (ch ∷ name) start off part =
    if ch == b'.'
    then (let next = (off + field_size) % word_mod in
        let (more, last, fields) = fill_name name next next [] in
        (suc more, last, (start, field_of part) ∷ fields))
    else fill_name name start ((off + 1) % word_mod) (part ++ ch ∷ [])

-- The loop over the pairs, from the offset `off` on.
unfoldable pub fill_specs : List (Name × KeyOption) → ℕ → Option KeyBlock
unfolding fill_name
fill_specs [] off = some (record { spec_max = off; specs = []; fields = [] })
fill_specs ((name, option) ∷ pairs) off = do
  fld_type ← key_options option
  let at = (off + spec_size) % word_mod
  let (more, last, fields) = fill_name name at at []
  block ← fill_specs pairs last
  some (record {
    spec_max = block.spec_max;
    specs = (off, record { num_flds = suc more % 256; fld_type = fld_type }) ∷ block.specs;
    fields = fields ++ block.fields;
  })

unfoldable pub compile_key : List (Name × KeyOption) → Option KeyBlock
unfolding fill_specs
compile_key pairs = fill_specs pairs 4

-- What stands at an offset.
unfoldable pub at_offset {ℓ} : {A : Type ℓ} → List (ℕ × A) → ℕ → Option A
at_offset [] off = none
at_offset ((at, a) ∷ rest) off = if at == off then some a else at_offset rest off

-- The loop over the fields of a specification: the fields, and the offset behind them.
unfoldable pub read_fields : List (ℕ × Field) → ℕ → ℕ → Option (List Field × ℕ)
unfolding at_offset
read_fields fields zero at = some ([], at)
read_fields fields (suc num) at = do
  field ← at_offset fields at
  (rest, last) ← read_fields fields num (at + length field.name + field_size)
  some (field ∷ rest, last)
