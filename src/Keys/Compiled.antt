-- ===== src/Keys/Compiled.antt =====
-- The block of `compileKey`, and one key of a document by it.
use javascript_database.Common.{
  ℕ, subst, suc, ◌+◌, ◌%◌, ◌<◌, ◌≡◌, refl, some, List, [], ◌∷◌, ◌++◌, arith,
}
use javascript_database.Vector.{word_mod}
use javascript_database.Props.Hash.{Name}
use javascript_database.Keys.Options.{KeyOption, key_options}
use javascript_database.Keys.Fields.{key_options-ends}
use javascript_database.Keys.Layout.{
  spec_size, field_size, KeySpec, KeyBlock, name_size, fill_name, fill_specs,
}
use javascript_database.Keys.Laid.{Ascends, Ascends-weaken, Ascends-append, fill_name-Ascends}

-- The bytes of all specifications.
abbrev pub total_size : List (Name × KeyOption) → ℕ
total_size [] = 0
total_size ((name, option) ∷ pairs) = spec_size + name_size name + field_size + total_size pairs

abbrev pub spec_of : ℕ → Name → ℕ → KeySpec
spec_of at name fld_type = record {
  num_flds = suc (fill_name name at at []).0 % 256;
  fld_type = fld_type;
}

pub fill_specs-cons :
    (name : Name) (option : KeyOption) (pairs : List (Name × KeyOption)) (off t : ℕ)
    (block : KeyBlock)
    → off + spec_size + name_size name + field_size < word_mod
    → key_options option ≡ some t
    → fill_specs pairs (off + spec_size + name_size name + field_size) ≡ some block
    → fill_specs ((name, option) ∷ pairs) off
      ≡ some (record {
        spec_max = block.spec_max;
        specs = (off, spec_of (off + spec_size) name t) ∷ block.specs;
        fields = (fill_name name (off + spec_size) (off + spec_size) []).2 ++ block.fields;
      })
unfolding fill_specs
fill_specs-cons name option pairs off t block room e rest =
    let whole : (off + spec_size) % word_mod ≡ off + spec_size = omega arith in
    let (ends, up) =
      fill_name-Ascends name (off + spec_size) (off + spec_size) [] (omega arith) (omega arith) in
    rw (fill_specs, e, whole, ends, rest)

pub fill_specs-Ascends :
    (pairs : List (Name × KeyOption)) (off : ℕ)
    → off + total_size pairs < word_mod
    → (block : KeyBlock) × (fill_specs pairs off ≡ some block)
      × (block.spec_max ≡ off + total_size pairs)
      × Ascends off block.spec_max block.specs
      × Ascends off block.spec_max block.fields
unfolding fill_specs Ascends
fill_specs-Ascends [] off room = (
  record { spec_max = off; specs = []; fields = [] },
  refl,
  omega arith,
  omega arith,
  omega arith,
)
fill_specs-Ascends ((name, option) ∷ pairs) off room =
    let last = off + spec_size + name_size name + field_size in
    let (t, e) = key_options-ends option in
    let (block, filled, size, up, fields_up) = fill_specs-Ascends pairs last (omega arith) in
    let (ends, here) =
      fill_name-Ascends name (off + spec_size) (off + spec_size) [] (omega arith) (omega arith) in
    let below =
      subst
        (λ n. Ascends (off + spec_size) n (fill_name name (off + spec_size) (off + spec_size) []).2)
        ends here in
    (
      _,
      fill_specs-cons name option pairs off t block (omega arith) e filled,
      omega (arith, size),
      (omega arith, Ascends-weaken last (off + 1) block.spec_max block.specs (omega arith) up),
      Ascends-weaken (off + spec_size) off block.spec_max _ (omega arith)
          (Ascends-append (off + spec_size) last block.spec_max _ block.fields below fields_up),
    )
