-- ===== src/Keys/Room.antt =====
-- The size that `compileKey` allocates, and what it writes.
use javascript_database.Common.{
  ℕ, subst, ◌+◌, ◌-◌, ◌≤◌, ◌<◌, ◌≡◌, refl, sym, inl, inr, Bool-cases, some, List, [], ◌∷◌, ◌++◌,
  length, length-append, ◌==◌, arith,
}
use javascript_database.Vector.{word_mod}
use javascript_database.Props.Hash.{Name}
use javascript_database.Keys.Options.{KeyOption}
use javascript_database.Keys.Fields.{key_options-ends}
use javascript_database.Keys.Layout.{
  spec_size, field_size, Field, KeyBlock, name_size, key_size, fill_name, fill_specs, compile_key,
}
use javascript_database.Keys.Laid.{fill_name-dot, fill_name-letter}
use javascript_database.Keys.Compiled.{total_size, fill_specs-cons}

-- hash and len
abbrev pub field_head : ℕ
field_head = 12

-- The heads and names of all fields end at `last` or before.
abbrev pub EndBefore : ℕ → List (ℕ × Field) → Type 0
EndBefore last [] = Unit {0}
EndBefore last ((at, field) ∷ fields) =
    (at + field_head + length field.name ≤ last) × EndBefore last fields

EndBefore-le :
    (last more : ℕ) (fields : List (ℕ × Field))
    → last ≤ more
    → EndBefore last fields
    → EndBefore more fields
EndBefore-le last more [] le h = tt
EndBefore-le last more ((at, field) ∷ fields) le h =
    (omega (arith, h.0), EndBefore-le last more fields le h.1)

EndBefore-append :
    (last : ℕ) (l r : List (ℕ × Field))
    → EndBefore last l
    → EndBefore last r
    → EndBefore last (l ++ r)
EndBefore-append last [] r h k = k
EndBefore-append last ((at, field) ∷ l) r h k = (h.0, EndBefore-append last l r h.1 k)

fill_name-EndBefore :
    (name : Name) (start off : ℕ) (part : Name)
    → off ≡ start + length part
    → off + name_size name + field_size < word_mod
    → EndBefore (off + name_size name + field_head) (fill_name name start off part).2
unfolding fill_name name_size
fill_name-EndBefore [] start off part e room = (omega arith, tt)
fill_name-EndBefore (ch ∷ name) start off part e room = elim (Bool-cases (ch == b'.')) [
  | inl dot ↦
      let size : name_size (ch ∷ name) ≡ field_size + name_size name = rw (name_size, dot) in
      let filled = fill_name-dot ch name start off part dot (omega arith) in
      let rest =
        fill_name-EndBefore name (off + field_size) (off + field_size) [] (omega arith)
          (omega arith) in
      subst (λ f. EndBefore (off + name_size (ch ∷ name) + field_head) f.2) (sym filled)
        (omega arith, EndBefore-le _ _ _ (omega arith) rest)
  | inr letter ↦
      let size : name_size (ch ∷ name) ≡ 1 + name_size name = rw (name_size, letter) in
      let filled = fill_name-letter ch name start off part letter (omega arith) in
      let longer = length-append part (ch ∷ []) in
      let rest =
        fill_name-EndBefore name start (off + 1) (part ++ ch ∷ []) (omega arith) (omega arith) in
      subst (λ f. EndBefore (off + name_size (ch ∷ name) + field_head) f.2) (sym filled)
        (EndBefore-le _ _ _ (omega arith) rest)
]

key_size-total_size :
    (pairs : List (Name × KeyOption))
    → total_size pairs < word_mod
    → key_size pairs ≡ total_size pairs
unfolding key_size
key_size-total_size [] room = refl
key_size-total_size ((name, option) ∷ pairs) room =
    let rest = key_size-total_size pairs (omega arith) in omega arith

fill_specs-EndBefore :
    (pairs : List (Name × KeyOption)) (off : ℕ)
    → off + total_size pairs + field_size < word_mod
    → (block : KeyBlock) × (fill_specs pairs off ≡ some block)
      × (block.spec_max ≡ off + total_size pairs)
      × EndBefore (off + total_size pairs - 4) block.fields
unfolding fill_specs
fill_specs-EndBefore [] off room =
    (record { spec_max = off; specs = []; fields = [] }, refl, omega arith, tt)
fill_specs-EndBefore ((name, option) ∷ pairs) off room =
    let last = off + spec_size + name_size name + field_size in
    let (t, e) = key_options-ends option in
    let (block, filled, size, behind) = fill_specs-EndBefore pairs last (omega arith) in
    let here =
      fill_name-EndBefore name (off + spec_size) (off + spec_size) [] (omega arith) (omega arith) in
    let all = off + total_size ((name, option) ∷ pairs) - 4 in
    (
      _,
      fill_specs-cons name option pairs off t block (omega arith) e filled,
      omega (arith, size),
      EndBefore-append all _ block.fields
          (EndBefore-le (off + spec_size + name_size name + field_head) all _ (omega arith) here)
          (EndBefore-le (last + total_size pairs - 4) all block.fields (omega arith) behind),
    )

-- `compileKey` ends, all fields that it writes end inside the size that its first pass computes,
-- with their heads and names, and the end that it stores is 4 bytes behind that size, where the
-- size and 20 are below 2 ^ 32.
pub compile_key-EndBefore :
    (pairs : List (Name × KeyOption))
    → 4 + total_size pairs + field_size < word_mod
    → (block : KeyBlock) × (compile_key pairs ≡ some block)
      × (block.spec_max ≡ key_size pairs + 4)
      × EndBefore (key_size pairs) block.fields
unfolding compile_key
compile_key-EndBefore pairs room =
    let (block, filled, size, behind) = fill_specs-EndBefore pairs 4 (omega arith) in
    let total = key_size-total_size pairs (omega arith) in
    (
      block,
      filled,
      omega (arith, size, total),
      EndBefore-le (4 + total_size pairs - 4) (key_size pairs) block.fields (omega (arith, total))
          behind,
    )
