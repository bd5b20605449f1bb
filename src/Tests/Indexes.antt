-- ===== src/Tests/Indexes.antt =====
-- Key specifications, and keys of documents. A document is a number here.
use javascript_database.Common.{
  ℕ, suc, ◌+◌, ◌≡◌, refl, false, none, some, List, [], ◌∷◌, ◌==◌, if◌then◌else◌, arith,
}
use javascript_database.Common.Int.{pos}
use javascript_database.Props.Hash.{Name, name_eq}
use javascript_database.Keys.Options.{
  KeyOption, text, key_options, option_loop, colon_at, eval_option,
}
use javascript_database.Keys.Encode.{SourceType, Source, key_fld, field_bytes}
use javascript_database.Keys.Layout.{
  name_size, Field, KeyBlock, field_of, key_size, compile_key, at_offset, read_fields,
}
use javascript_database.Keys.Build.{Shape, array, plain, Item, stop, idx_bld_key_helper, start_work}
use javascript_database.Keys.Endless.{idx_bld_key_helper-endless}
use javascript_database.Keys.OneKey.{MakesKey, complete, field, idx_bld_key_helper-compile_key}
use javascript_database.Keys.Room.{EndBefore, compile_key-EndBefore}

-- {"a.b": "string", "c": "string:rev"}
abbrev two_fields : List (Name × KeyOption)
two_fields =
    (b'a' ∷ b'.' ∷ b'b' ∷ [], text (b's' ∷ b't' ∷ b'r' ∷ b'i' ∷ b'n' ∷ b'g' ∷ []))
    ∷ (b'c' ∷ [], text (b's' ∷ b't' ∷ b'r' ∷ b'i' ∷ b'n' ∷ b'g' ∷ b':' ∷ b'r' ∷ b'e' ∷ b'v' ∷ []))
    ∷ []

abbrev bytes_of : ℕ → Source
bytes_of n = record {
  type = SourceType.string;
  nval = pos 0;
  dbl_bits = pos 0;
  boolean = false;
  str = n ∷ [];
}

abbrev get_next : ℕ → Field → ℕ
get_next n f = suc n

abbrev shape_of : ℕ → Shape ℕ
shape_of n = if n == 0 then array (5 ∷ 7 ∷ []) else plain

abbrev no_items : ℕ → Item ℕ
no_items d = record { key_len = 0; off = 0; cnt = 0; idx = 0; values = [] }

compile_key-EndBefore_example :
    (block : KeyBlock) × (compile_key two_fields ≡ some block)
    × (block.spec_max ≡ key_size two_fields + 4)
    × EndBefore (key_size two_fields) block.fields
unfolding name_size
compile_key-EndBefore_example = compile_key-EndBefore two_fields (omega arith)

two_fields_make :
    MakesKey get_next shape_of bytes_of
      (λ z. [])
      false
      100
      70
      []
      two_fields
      (72 ∷ 0 ∷ 184 ∷ 255 ∷ [])
unfolding key_options option_loop colon_at eval_option name_eq key_fld field_bytes
two_fields_make = field [] _ _ _ _ 4 (72 ∷ 0 ∷ []) refl (omega arith) refl refl (
    field (72 ∷ 0 ∷ []) _ _ _ _ 20 (184 ∷ 255 ∷ []) refl (omega arith) refl refl
      (complete (72 ∷ 0 ∷ 184 ∷ 255 ∷ [])))

idx_bld_key_helper-compile_key_example :
    (block : KeyBlock) × (compile_key two_fields ≡ some block)
    × (idx_bld_key_helper get_next shape_of bytes_of
          (λ z. [])
          false
          100
          block
          3
          70
          (start_work block no_items)
        ≡ some (stop ((72 ∷ 0 ∷ 184 ∷ 255 ∷ []) ∷ [])))
unfolding name_size
idx_bld_key_helper-compile_key_example =
    idx_bld_key_helper-compile_key get_next shape_of bytes_of (λ z. []) false 100 70 two_fields
      (72 ∷ 0 ∷ 184 ∷ 255 ∷ []) no_items (omega arith) (omega arith) two_fields_make

-- {"a": "string"}
abbrev one_field : KeyBlock
one_field = record {
  spec_max = 45;
  specs = (4, record { num_flds = 1; fld_type = 4 }) ∷ [];
  fields = (28, field_of (b'a' ∷ [])) ∷ [];
}

idx_bld_key_helper-endless_example :
    idx_bld_key_helper
      (λ n f. n)
      shape_of
      bytes_of
      (λ z. [])
      false
      100
      one_field
      1000
      0
      (start_work one_field no_items)
    ≡ none
unfolding at_offset read_fields key_fld field_bytes
idx_bld_key_helper-endless_example =
    idx_bld_key_helper-endless (λ n f. n) shape_of bytes_of (λ z. []) false 100 one_field 0 5
      (7 ∷ []) 4 45 [] (5 ∷ 0 ∷ []) (record { num_flds = 1; fld_type = 4 })
      (field_of (b'a' ∷ []) ∷ []) (omega arith, omega arith, omega arith) refl refl
      (omega arith, omega arith, omega arith) refl 1000 no_items one_field.specs [] refl
