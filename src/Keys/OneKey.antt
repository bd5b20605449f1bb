-- ===== src/Keys/OneKey.antt =====
-- A document whose key fields are plain values.
use javascript_database.Common.{
  ℕ, ◌≢◌, subst, suc, ◌+◌, ◌-◌, ◌%◌, ◌<◌, ◌≡◌, refl, sym, ap, ◌∙◌, inl, inr, Bool, true, false,
  Bool-cases, none, some, List, [], ◌∷◌, ◌++◌, map, length, ltb, ◌==◌, arith,
}
use javascript_database.Common.Int.{ℤ}
use javascript_database.Props.Hash.{Name}
use javascript_database.Symbols.Tables.{half_mod}
use javascript_database.Keys.Options.{KeyOption, key_options}
use javascript_database.Keys.Encode.{Source, key_fld}
use javascript_database.Keys.Layout.{
  spec_size, field_size, Field, KeyBlock, field_of, name_size, fill_name, fill_specs, compile_key,
  at_offset,
}
use javascript_database.Keys.Laid.{
  split_dots, AreRead, Ascends-AreRead, AreRead-append, fill_name-read_fields,
}
use javascript_database.Keys.Build.{
  start_work, Shape, plain, Item, Work, stop, follow, finish, settle, append_field, key_round,
  idx_bld_key_helper,
}
use javascript_database.Keys.Endless.{append_field-fits}
use javascript_database.Keys.Compiled.{total_size, spec_of, fill_specs-cons, fill_specs-Ascends}

fill_name-count :
    (name : Name) (start off : ℕ) (part : Name)
    → suc (fill_name name start off part).0 ≡ length (split_dots part name)
unfolding fill_name
fill_name-count [] start off part = refl
fill_name-count (ch ∷ name) start off part = elim (Bool-cases (ch == b'.')) [
  | inl dot ↦ rw dot (ap suc (fill_name-count name _ _ []))
  | inr letter ↦ rw letter (fill_name-count name start _ _)
]

module _ {ℓ} {V : Type ℓ} (get : V → Field → V) (shape : V → Shape V) (source : V → Source)
    (store64 : ℤ → List ℕ) (binary : Bool) (max_key : ℕ) (rec : V) where
  -- The value at the end of the components of a name.
  abbrev pub value_at : Name → V
  value_at name = follow get rec (map field_of (split_dots [] name))

  -- The fields make the key `final` of `key`: each value is plain and fits behind the key so far, in
  -- the type that its field has.
  pub data MakesKey : List ℕ → List (Name × KeyOption) → List ℕ → Type ℓ where
    complete : (key : List ℕ) → MakesKey key [] key
    field :
        (key : List ℕ) (name : Name) (option : KeyOption) (pairs : List (Name × KeyOption))
        (final : List ℕ) (t : ℕ) (added : List ℕ)
        → key_options option ≡ some t
        → length (split_dots [] name) < 256
        → shape (value_at name) ≡ plain
        → key_fld store64 binary (max_key - length key) t (source (value_at name)) ≡ (some added, t)
        → MakesKey (key ++ added) pairs final
        → MakesKey key ((name, option) ∷ pairs) final

  module _ (whole : KeyBlock) (stack : ℕ → Item V) where
    abbrev work_at : ℕ → List ℕ → List (List ℕ) → Work V
    work_at off key keys = record {
      off = off;
      key = key;
      depth = 0;
      stack = stack;
      specs = whole.specs;
      keys = keys;
    }

    -- One plain field.
    key_round-plain :
        (off : ℕ) (key added : List ℕ) (keys : List (List ℕ)) (name : Name) (t : ℕ)
        → off < whole.spec_max
        → off + spec_size + name_size name + field_size < half_mod
        → at_offset whole.specs off ≡ some (spec_of (off + spec_size) name t)
        → AreRead whole.fields (fill_name name (off + spec_size) (off + spec_size) []).2
        → length (split_dots [] name) < 256
        → shape (value_at name) ≡ plain
        → key_fld store64 binary (max_key - length key) t (source (value_at name)) ≡ (some added, t)
        → key_round get shape source store64 binary max_key whole rec (work_at off key keys)
          ≡ settle get shape source store64 binary max_key whole
              (work_at (off + spec_size + name_size name + field_size) (key ++ added) keys)
    unfolding key_round
    key_round-plain off key added keys name t before room at fields short is_plain fits =
        let next = off + spec_size + name_size name + field_size in
        let test : ltb off whole.spec_max ≡ true = ground (arith, before) in
        let count = fill_name-count name (off + spec_size) (off + spec_size) [] in
        let num : suc (fill_name name (off + spec_size) (off + spec_size) []).0 % 256
            ≡ suc (fill_name name (off + spec_size) (off + spec_size) []).0 =
          omega (arith, count, short) in
        let read =
          fill_name-read_fields whole.fields name (off + spec_size) (off + spec_size) []
            (omega arith) (omega arith) fields in
        let spec = spec_of (off + spec_size) name t in
        let w = work_at off key keys in
        let first : key_round get shape source store64 binary max_key whole rec w
            ≡ append_field get shape source store64 binary max_key whole spec next (value_at name)
                w =
          rw (key_round, test, at, num, read, is_plain) in
        first
        ∙ append_field-fits get shape source store64 binary max_key whole spec next (value_at name)
            w added fits at room

    same_block : (a b : KeyBlock) → some a ≡ some b → a ≡ b
    same_block a b e = ap (λ o. elim o [ none ↦ a | some c ↦ c ]) e

    -- What the block has for the first field, and what it has for the others.
    IsLaid : List (Name × KeyOption) → ℕ → Type 0
    IsLaid pairs off =
        (block : KeyBlock) × (fill_specs pairs off ≡ some block)
        × AreRead whole.specs block.specs
        × AreRead whole.fields block.fields

    IsLaid-cons :
        (name : Name) (option : KeyOption) (pairs : List (Name × KeyOption)) (off t : ℕ)
        → off + total_size ((name, option) ∷ pairs) < half_mod
        → key_options option ≡ some t
        → IsLaid ((name, option) ∷ pairs) off
        → (at_offset whole.specs off ≡ some (spec_of (off + spec_size) name t))
          × AreRead whole.fields (fill_name name (off + spec_size) (off + spec_size) []).2
          × IsLaid pairs (off + spec_size + name_size name + field_size)
    unfolding IsLaid AreRead
    IsLaid-cons name option pairs off t room e (block, filled, specs, fields) =
        let last = off + spec_size + name_size name + field_size in
        let (rest, rest_filled, size, up, fields_up) =
          fill_specs-Ascends pairs last (omega arith) in
        let cons = fill_specs-cons name option pairs off t rest (omega arith) e rest_filled in
        let same = same_block block _ (sym filled ∙ cons) in
        let specs' = subst (λ b. AreRead whole.specs b.specs) same specs in
        let fields' = subst (λ b. AreRead whole.fields b.fields) same fields in
        let (here, behind) =
          AreRead-append whole.fields (fill_name name (off + spec_size) (off + spec_size) []).2
            rest.fields fields' in
        (specs'.0, here, (rest, rest_filled, specs'.1, behind))

    idx_bld_key_helper-again :
        (fuel : ℕ) (w w' : Work V)
        → key_round get shape source store64 binary max_key whole rec w
          ≡ settle get shape source store64 binary max_key whole w'
        → ltb w'.off whole.spec_max ≡ true
        → idx_bld_key_helper get shape source store64 binary max_key whole (suc fuel) rec w
          ≡ idx_bld_key_helper get shape source store64 binary max_key whole fuel rec w'
    unfolding idx_bld_key_helper settle
    idx_bld_key_helper-again fuel w w' turn on = rw (idx_bld_key_helper, turn, settle, on)

    idx_bld_key_helper-stop :
        (w w' : Work V)
        → key_round get shape source store64 binary max_key whole rec w
          ≡ settle get shape source store64 binary max_key whole w'
        → w'.depth ≡ 0
        → ltb w'.off whole.spec_max ≡ false
        → idx_bld_key_helper get shape source store64 binary max_key whole 2 rec w
          ≡ some (stop (w'.keys ++ w'.key ∷ []))
    unfolding idx_bld_key_helper key_round settle finish
    idx_bld_key_helper-stop w w' turn flat behind =
        rw (idx_bld_key_helper, turn, settle, behind, finish, flat, key_round, behind)

    complete_is : (key final : List ℕ) → MakesKey key [] final → key ≡ final
    complete_is _ _ (complete key) = refl

    idx_bld_key_helper-key :
        (pairs : List (Name × KeyOption)) (off : ℕ) (key final : List ℕ) (keys : List (List ℕ))
        → MakesKey key pairs final
        → length pairs ≢ 0
        → IsLaid pairs off
        → whole.spec_max ≡ off + total_size pairs
        → off + total_size pairs < half_mod
        → idx_bld_key_helper get shape source store64 binary max_key whole
            (suc (length pairs))
            rec
            (work_at off key keys)
          ≡ some (stop (keys ++ final ∷ []))
    idx_bld_key_helper-key [] off key final keys makes some_left laid size room =
        absurd (some_left refl)
    idx_bld_key_helper-key _ off _ _ keys
          (field key name option [] final t added e short is_plain fits rest) some_left laid size
          room =
        let next = off + spec_size + name_size name + field_size in
        let (at, here, laid') = IsLaid-cons name option [] off t room e laid in
        let turn =
          key_round-plain off key added keys name t (omega arith) (omega arith) at here short
            is_plain fits in
        let behind : ltb next whole.spec_max ≡ false = ground (arith, size) in
        let last : idx_bld_key_helper get shape source store64 binary max_key whole 2 rec
              (work_at off key keys)
            ≡ some (stop (keys ++ (key ++ added) ∷ [])) =
          idx_bld_key_helper-stop _ (work_at next (key ++ added) keys) turn refl behind in
        last ∙ ap (λ k. some (stop (keys ++ k ∷ []))) (complete_is _ _ rest)
    idx_bld_key_helper-key _ off _ _ keys
          (field key name option (p ∷ pairs) final t added e short is_plain fits rest) some_left
          laid size room =
        let next = off + spec_size + name_size name + field_size in
        let (at, here, laid') = IsLaid-cons name option (p ∷ pairs) off t room e laid in
        let turn =
          key_round-plain off key added keys name t (omega arith) (omega arith) at here short
            is_plain fits in
        let before : ltb next whole.spec_max ≡ true = ground (arith, size) in
        let on : idx_bld_key_helper get shape source store64 binary max_key whole
              (suc (suc (length (p ∷ pairs)))) rec (work_at off key keys)
            ≡ idx_bld_key_helper get shape source store64 binary max_key whole
                (suc (length (p ∷ pairs))) rec (work_at next (key ++ added) keys) =
          idx_bld_key_helper-again (suc (length (p ∷ pairs))) _ (work_at next (key ++ added) keys)
            turn before in
        on
        ∙ idx_bld_key_helper-key (p ∷ pairs) next (key ++ added) final keys rest (omega arith) laid'
            (omega (arith, size)) (omega arith)

  -- For a document whose key fields lead to plain values that fit, of which there is at least
  -- one, `idxBldKeyHelper` on the block that `compileKey` lays out ends and makes one key: the
  -- bytes of the fields in order, each of the value found by the components of its name between
  -- points. The block is below 2 ^ 16 bytes, each name has fewer than 256 components, and no
  -- value changes the type of its field.
  pub idx_bld_key_helper-compile_key :
      (pairs : List (Name × KeyOption)) (final : List ℕ) (stack : ℕ → Item V)
      → length pairs ≢ 0
      → 4 + total_size pairs < half_mod
      → MakesKey [] pairs final
      → (block : KeyBlock) × (compile_key pairs ≡ some block)
        × (idx_bld_key_helper get shape source store64 binary max_key block
              (suc (length pairs))
              rec
              (start_work block stack)
            ≡ some (stop (final ∷ [])))
  unfolding compile_key IsLaid
  idx_bld_key_helper-compile_key pairs final stack some_left room makes =
      let (block, filled, size, up, fields_up) = fill_specs-Ascends pairs 4 (omega arith) in
      let specs = Ascends-AreRead 4 block.spec_max block.specs up in
      let fields = Ascends-AreRead 4 block.spec_max block.fields fields_up in
      (
        block,
        filled,
        idx_bld_key_helper-key block stack pairs 4 [] final [] makes some_left
            (block, filled, specs, fields) size room,
      )
