-- ===== src/Keys/Endless.antt =====
-- The keys of a document with an array in the last field of the key.
use javascript_database.Common.{
  ℕ, zero, suc, ◌+◌, ◌-◌, ◌%◌, ◌≤◌, ◌<◌, ◌≡◌, refl, ap, ◌∙◌, inl, inr, Bool, true, false,
  Bool-cases, none, some, List, [], ◌∷◌, ◌++◌, length, take, ltb, ◌==◌, arith,
}
use javascript_database.Common.Int.{ℤ}
use javascript_database.Strings.Find.{take-append}
use javascript_database.Symbols.Tables.{half_mod}
use javascript_database.Keys.Encode.{Source, key_fld}
use javascript_database.Keys.Layout.{spec_size, Field, KeySpec, KeyBlock, at_offset, read_fields}
use javascript_database.Keys.Build.{
  Shape, array, Item, Work, again, set_type, follow, finish, settle, append_field, put_item,
  next_value, visit_array, key_round, idx_bld_key_helper,
}

pub set_type-at_offset :
    (specs : List (ℕ × KeySpec)) (off : ℕ) (spec : KeySpec)
    → at_offset specs off ≡ some spec
    → set_type specs off spec.fld_type ≡ specs
unfolding at_offset set_type
set_type-at_offset [] off spec e = refl
set_type-at_offset ((at, old) ∷ specs) off spec e = elim (Bool-cases (at == off)) [
  | inl here ↦ let same : old ≡ spec = ground (arith, here, e) in rw (here, same)
  | inr there ↦
      let rest = set_type-at_offset specs off spec (ground (arith, there, e)) in rw (there, rest)
]

module _ {ℓ} {V : Type ℓ} (get : V → Field → V) (shape : V → Shape V) (source : V → Source)
    (store64 : ℤ → List ℕ) (binary : Bool) (max_key : ℕ) (block : KeyBlock) where
  -- A field that fits and keeps its type.
  pub append_field-fits :
      (spec : KeySpec) (next : ℕ) (val : V) (w : Work V) (added : List ℕ)
      → key_fld store64 binary (max_key - length w.key) spec.fld_type (source val)
        ≡ (some added, spec.fld_type)
      → at_offset w.specs w.off ≡ some spec
      → next < half_mod
      → append_field get shape source store64 binary max_key block spec next val w
        ≡ settle get shape source store64 binary max_key block
            (record w { key = w.key ++ added; off = next })
  unfolding append_field
  append_field-fits spec next val w added e at small =
      let whole : next % half_mod ≡ next = omega arith in
      let put = settle get shape source store64 binary max_key block in
      let bits = key_fld store64 binary (max_key - length w.key) spec.fld_type (source val) in
      let same : set_type w.specs w.off bits.1 ≡ w.specs =
        ap (λ p. set_type w.specs w.off p.1) e ∙ set_type-at_offset w.specs w.off spec at in
      let first : append_field get shape source store64 binary max_key block spec next val w
          ≡ put (record w {
            specs = set_type w.specs w.off bits.1;
            key = w.key ++ added;
            off = next % half_mod;
          }) =
        rw (append_field, ap (λ p. p.0) e) in
      first
      ∙ ap (λ l. put (record w { specs = l; key = w.key ++ added; off = next % half_mod })) same
      ∙ ap (λ o. put (record w { key = w.key ++ added; off = o })) whole

  module _ (rec v : V) (vs : List V) (off last : ℕ) (key added : List ℕ) (spec : KeySpec)
      (fields : List Field)
      (at_last : (off < block.spec_max) × (block.spec_max ≤ last) × (last < half_mod))
      (read : read_fields block.fields spec.num_flds (off + spec_size) ≡ some (fields, last))
      (is_array : shape (follow get rec fields) ≡ array (v ∷ vs))
      (more : (0 < length vs) × (length (v ∷ vs) < half_mod) × (length key < half_mod))
      (fits : key_fld store64 binary (max_key - length key) spec.fld_type (source v)
        ≡ (some added, spec.fld_type)) where
    abbrev pub loop_at : (ℕ → Item V) → List (ℕ × KeySpec) → List (List ℕ) → Work V
    loop_at stack specs keys = record {
      off = off;
      key = key;
      depth = 0;
      stack = stack;
      specs = specs;
      keys = keys;
    }

    key_round-again :
        (stack : ℕ → Item V) (specs : List (ℕ × KeySpec)) (keys : List (List ℕ))
        → at_offset specs off ≡ some spec
        → (stack' : ℕ → Item V) × (key_round get shape source store64 binary max_key block rec
              (loop_at stack specs keys)
            ≡ again (loop_at stack' specs (keys ++ (key ++ added) ∷ [])))
    unfolding key_round visit_array next_value settle finish
    key_round-again stack specs keys at =
        let w = loop_at stack specs keys in
        let item : Item V = record {
          key_len = length key % half_mod;
          off = off;
          cnt = length (v ∷ vs) % half_mod;
          idx = 1;
          values = v ∷ vs;
        } in
        let stack' = put_item stack 0 item in
        let w1 : Work V = record w { stack = stack'; depth = 1 } in
        let before : ltb off block.spec_max ≡ true = ground (arith, at_last.0) in
        let behind : ltb last block.spec_max ≡ false = ground (arith, at_last.1) in
        let some_left : (length (v ∷ vs) % half_mod == 0) ≡ false = ground (arith, more) in
        let not_last : ltb 1 (length (v ∷ vs) % half_mod) ≡ true = ground (arith, more) in
        let whole : length key % half_mod ≡ length key = omega (arith, more.2) in
        let keep = append_field-fits spec last v w1 added fits at at_last.2 in
        let entered : key_round get shape source store64 binary max_key block rec w
            ≡ visit_array get shape source store64 binary max_key block spec last (v ∷ vs) w =
          rw (key_round, before, at, read, is_array) in
        let visited : visit_array get shape source store64 binary max_key block spec last (v ∷ vs) w
            ≡ append_field get shape source store64 binary max_key block spec last v w1 =
          rw (visit_array, some_left, next_value, not_last) in
        let cut : take (length key % half_mod) (key ++ added) ≡ key =
          ap (λ n. take n (key ++ added)) whole ∙ take-append key added in
        let back : settle get shape source store64 binary max_key block
              (record w1 { off = last; key = key ++ added })
            ≡ again (loop_at stack' specs (keys ++ (key ++ added) ∷ [])) =
          rw (settle, behind, finish, cut) in
        (stack', entered ∙ visited ∙ keep ∙ back)

    -- Where the last field of the key is an array of at least two elements and fewer than 2 ^ 16,
    -- whose first element fits and keeps the type of the field, `idxBldKeyHelper` is still
    -- running after any number of rounds.
    pub idx_bld_key_helper-endless :
        (fuel : ℕ) (stack : ℕ → Item V) (specs : List (ℕ × KeySpec)) (keys : List (List ℕ))
        → at_offset specs off ≡ some spec
        → idx_bld_key_helper get shape source store64 binary max_key block fuel rec
            (loop_at stack specs keys)
          ≡ none
    unfolding idx_bld_key_helper
    idx_bld_key_helper-endless zero stack specs keys at = refl
    idx_bld_key_helper-endless (suc fuel) stack specs keys at =
        let (stack', turn) = key_round-again stack specs keys at in
        rw (idx_bld_key_helper, turn)
          (idx_bld_key_helper-endless fuel stack' specs (keys ++ (key ++ added) ∷ []) at)
