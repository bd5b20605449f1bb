-- ===== src/Keys/Laid.antt =====
-- What `compileKey` lays out, one behind the other, is read back by offsets.
use javascript_database.Common.{
  ℕ, subst, suc, ◌+◌, ◌%◌, ◌≤◌, ◌<◌, ◌≡◌, ap, ◌∙◌, inl, inr, true, false, Bool-cases, some, List,
  [], ◌∷◌, ◌++◌, map, length, length-append, ◌==◌, ne→==_false, if◌then◌else◌, arith,
}
use javascript_database.Vector.{word_mod}
use javascript_database.Props.Hash.{Name}
use javascript_database.Keys.Layout.{
  field_size, Field, field_of, name_size, fill_name, at_offset, read_fields,
}

-- The components of a name, where `part` stands in front of it.
abbrev pub split_dots : Name → Name → List Name
split_dots part [] = part ∷ []
split_dots part (ch ∷ name) =
    if ch == b'.' then part ∷ split_dots [] name else split_dots (part ++ ch ∷ []) name

module _ {ℓ} {A : Type ℓ} where
  -- Offsets from `lo` on, one behind the other, and below `last`.
  unfoldable pub Ascends : ℕ → ℕ → List (ℕ × A) → Type 0
  Ascends lo last [] = lo ≤ last
  Ascends lo last ((at, a) ∷ rest) = (lo ≤ at) × Ascends (at + 1) last rest

  -- Each entry is what is read at its offset.
  unfoldable pub AreRead : List (ℕ × A) → List (ℕ × A) → Type ℓ
  AreRead block [] = Unit
  AreRead block ((at, a) ∷ rest) = (at_offset block at ≡ some a) × AreRead block rest

  pub Ascends-weaken :
      (lo lo' last : ℕ) (l : List (ℕ × A)) → lo' ≤ lo → Ascends lo last l → Ascends lo' last l
  unfolding Ascends
  Ascends-weaken lo lo' last [] le h = omega (arith, h)
  Ascends-weaken lo lo' last ((at, a) ∷ l) le h = (omega (arith, h.0), h.1)

  pub Ascends-append :
      (lo mid last : ℕ) (l r : List (ℕ × A))
      → Ascends lo mid l
      → Ascends mid last r
      → Ascends lo last (l ++ r)
  unfolding Ascends
  Ascends-append lo mid last [] r h k = Ascends-weaken mid lo last r h k
  Ascends-append lo mid last ((at, a) ∷ l) r h k = (h.0, Ascends-append (at + 1) mid last l r h.1 k)

  AreRead-behind :
      (at lo last : ℕ) (a : A) (block l : List (ℕ × A))
      → at < lo
      → Ascends lo last l
      → AreRead block l
      → AreRead ((at, a) ∷ block) l
  unfolding Ascends AreRead at_offset
  AreRead-behind at lo last a block [] lt h r = tt
  AreRead-behind at lo last a block ((other, b) ∷ l) lt h r =
      let apart : (at == other) ≡ false =
        ne→==_false at other (λ e. absurd (omega (arith, e, lt, h.0))) in
      (rw apart r.0, AreRead-behind at (other + 1) last a block l (omega (arith, lt, h.0)) h.1 r.1)

  pub Ascends-AreRead : (lo last : ℕ) (l : List (ℕ × A)) → Ascends lo last l → AreRead l l
  unfolding Ascends AreRead at_offset
  Ascends-AreRead lo last [] h = tt
  Ascends-AreRead lo last ((at, a) ∷ l) h =
      let same : (at == at) ≡ true = ground arith in
      (
        rw same,
        AreRead-behind at (at + 1) last a l l (omega arith) h.1
            (Ascends-AreRead (at + 1) last l h.1),
      )

  pub AreRead-append :
      (block l r : List (ℕ × A)) → AreRead block (l ++ r) → AreRead block l × AreRead block r
  unfolding AreRead
  AreRead-append block [] r h = (tt, h)
  AreRead-append block ((at, a) ∷ l) r h =
      let (left, right) = AreRead-append block l r h.1 in ((h.0, left), right)

pub fill_name-dot :
    (ch : ℕ) (name : Name) (start off : ℕ) (part : Name)
    → (ch == b'.') ≡ true
    → off + field_size < word_mod
    → fill_name (ch ∷ name) start off part ≡ (
        let rest = fill_name name (off + field_size) (off + field_size) [] in
        (suc rest.0, rest.1, (start, field_of part) ∷ rest.2))
unfolding fill_name
fill_name-dot ch name start off part dot room =
    let whole : (off + field_size) % word_mod ≡ off + field_size = omega arith in
    rw (fill_name, dot, whole)

pub fill_name-letter :
    (ch : ℕ) (name : Name) (start off : ℕ) (part : Name)
    → (ch == b'.') ≡ false
    → off + 1 < word_mod
    → fill_name (ch ∷ name) start off part ≡ fill_name name start (off + 1) (part ++ ch ∷ [])
unfolding fill_name
fill_name-letter ch name start off part letter room =
    let whole : (off + 1) % word_mod ≡ off + 1 = omega arith in rw (fill_name, letter, whole)

-- The fields of a name end where its size says, and stand one behind the other.
pub fill_name-Ascends :
    (name : Name) (start off : ℕ) (part : Name)
    → off ≡ start + length part
    → off + name_size name + field_size < word_mod
    → ((fill_name name start off part).1 ≡ off + name_size name + field_size)
      × Ascends start (fill_name name start off part).1 (fill_name name start off part).2
unfolding fill_name name_size Ascends
fill_name-Ascends [] start off part e room = (omega arith, (omega arith, omega arith))
fill_name-Ascends (ch ∷ name) start off part e room = elim (Bool-cases (ch == b'.')) [
  | inl dot ↦
      let size : name_size (ch ∷ name) ≡ field_size + name_size name = rw (name_size, dot) in
      let whole : (off + field_size) % word_mod ≡ off + field_size = omega arith in
      let (ends, up) =
        fill_name-Ascends name (off + field_size) (off + field_size) [] (omega arith)
          (omega arith) in
      rw (dot, whole)
        (
          omega arith,
          (omega arith, Ascends-weaken (off + field_size) (start + 1) _ _ (omega arith) up),
        )
  | inr letter ↦
      let size : name_size (ch ∷ name) ≡ 1 + name_size name = rw (name_size, letter) in
      let whole : (off + 1) % word_mod ≡ off + 1 = omega arith in
      let longer = length-append part (ch ∷ []) in
      let (ends, up) =
        fill_name-Ascends name start (off + 1) (part ++ ch ∷ []) (omega arith) (omega arith) in
      rw (letter, whole) (omega arith, up)
]

pub fill_name-read_fields :
    (block : List (ℕ × Field)) (name : Name) (start off : ℕ) (part : Name)
    → off ≡ start + length part
    → off + name_size name + field_size < word_mod
    → AreRead block (fill_name name start off part).2
    → read_fields block (suc (fill_name name start off part).0) start
      ≡ some (map field_of (split_dots part name), off + name_size name + field_size)
unfolding fill_name name_size AreRead read_fields
fill_name-read_fields block [] start off part e room r =
    let last : start + length part + field_size ≡ off + 0 + field_size = omega arith in
    rw (read_fields, r.0, last)
fill_name-read_fields block (ch ∷ name) start off part e room r = elim (Bool-cases (ch == b'.')) [
  | inl dot ↦
      let size : name_size (ch ∷ name) ≡ field_size + name_size name = rw (name_size, dot) in
      let next = off + field_size in
      let rest = fill_name name next next [] in
      let filled = fill_name-dot ch name start off part dot (omega arith) in
      let here : AreRead block ((start, field_of part) ∷ rest.2) =
        subst (λ f. AreRead block f.2) filled r in
      let at : start + length part + field_size ≡ next = omega arith in
      let tail = fill_name-read_fields block name next next [] (omega arith) (omega arith) here.1 in
      let ends : next + name_size name + field_size
          ≡ off + (field_size + name_size name) + field_size =
        omega arith in
      let one : read_fields block (suc (suc rest.0)) start
          ≡ some (
            field_of part ∷ map field_of (split_dots [] name),
            next + name_size name + field_size,
          ) =
        rw (read_fields, here.0, at, tail) in
      ap (λ f. read_fields block (suc f.0) start) filled ∙ one ∙ rw (dot, ends)
  | inr letter ↦
      let size : name_size (ch ∷ name) ≡ 1 + name_size name = rw (name_size, letter) in
      let filled = fill_name-letter ch name start off part letter (omega arith) in
      let here = subst (λ f. AreRead block f.2) filled r in
      let longer = length-append part (ch ∷ []) in
      let rest =
        fill_name-read_fields block name start (off + 1) (part ++ ch ∷ []) (omega arith)
          (omega arith) here in
      let ends : off + 1 + name_size name + field_size ≡ off + (1 + name_size name) + field_size =
        omega arith in
      ap (λ f. read_fields block (suc f.0) start) filled ∙ rest ∙ rw (letter, ends)
]
