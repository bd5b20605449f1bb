-- ===== src/Symbols/Slots.antt =====
-- The slots that hoisting gives to the symbols of each table.
use javascript_database.Common.{
  ℕ, ◌+◌, ◌%◌, ◌≤◌, ◌<◌, ◌≡◌, refl, sym, ◌∙◌, inl, inr, Bool, true, false, some, List, [], ◌∷◌,
  if◌then◌else◌, arith, Bool-cases,
}
use javascript_database.Vector.{word_mod}
use javascript_database.Props.Hash.{Name, name_eq, name_eq_sound, name_eq_refl}
use javascript_database.Props.Refine.{get_of}
use javascript_database.Symbols.Tables.{Symbol, Symtab, put_symbol, insert_symbol}

-- Each symbol has a slot of its own among those of the table.
pub record HasSlots (entries : List (Name × Symbol)) (n : ℕ) : Type 0 where
  pub within :
      (name : Name) (s : Symbol)
      → get_of entries name ≡ some s
      → (1 ≤ s.frame_idx) × (s.frame_idx ≤ n)
  pub apart :
      (a b : Name) (x y : Symbol)
      → get_of entries a ≡ some x
      → get_of entries b ≡ some y
      → x.frame_idx ≡ y.frame_idx
      → a ≡ b

name_eq_trans : (a b c : Name) → name_eq a b ≡ false → name_eq a c ≡ true → name_eq b c ≡ false
name_eq_trans a b c differ same = elim (Bool-cases (name_eq b c)) [
  | inl e ↦
      let back : b ≡ a = name_eq_sound b c e ∙ sym (name_eq_sound a c same) in
      let refl_a : name_eq a b ≡ true = rw (back, name_eq_refl a) in cc
  | inr e ↦ e
]

-- What is read after a write.
pub get_of-put_symbol :
    (entries : List (Name × Symbol)) (name : Name) (s : Symbol) (other : Name)
    → get_of (put_symbol entries name s) other
      ≡ (if name_eq name other then some s else get_of entries other)
unfolding put_symbol get_of
get_of-put_symbol [] name s other = refl
get_of-put_symbol ((key, old) ∷ entries) name s other = elim (Bool-cases (name_eq key name)) [
  | inl same ↦
      let k = name_eq_sound key name same in
      elim (Bool-cases (name_eq name other)) [
        | inl here ↦ rw (k, name_eq_refl name, here)
        | inr there ↦ rw (k, name_eq_refl name, there)
      ]
  | inr differ ↦ elim (Bool-cases (name_eq key other)) [
    | inl here ↦ rw (differ, here, name_eq_trans key name other differ here)
    | inr there ↦ rw (differ, there, get_of-put_symbol entries name s other)
  ]
]

-- The next slot is not in use.
pub put_symbol-HasSlots :
    (entries : List (Name × Symbol)) (n : ℕ) (name : Name) (new : Symbol)
    → HasSlots entries n
    → new.frame_idx ≡ n + 1
    → HasSlots (put_symbol entries name new) (n + 1)
put_symbol-HasSlots entries n name new has next = record {
  within = λ other s g.
      let e = get_of-put_symbol entries name new other in
      elim (Bool-cases (name_eq name other)) [
        | inl here ↦ ground (arith, e, here, g, next)
        | inr there ↦ let old = has.within other s in ground (arith, e, there, g, old)
      ];
  apart = λ a b x y ga gb same.
      let ea = get_of-put_symbol entries name new a in
      let eb = get_of-put_symbol entries name new b in
      elim (Bool-cases (name_eq name a)) [
        | inl here ↦ elim (Bool-cases (name_eq name b)) [
          | inl too ↦ sym (name_eq_sound name a here) ∙ name_eq_sound name b too
          | inr there ↦
              let old = has.within b y in ground (arith, ea, eb, here, there, ga, gb, old, next)
        ]
        | inr there ↦ elim (Bool-cases (name_eq name b)) [
          | inl here ↦
              let old = has.within a x in ground (arith, ea, eb, here, there, ga, gb, old, next)
          | inr too ↦
              has.apart a b x y (ground (arith, ea, there, ga)) (ground (arith, eb, too, gb)) same
        ]
      ];
}

abbrev pub IsSlotted : Symtab → Type 0
IsSlotted t = HasSlots t.entries t.frame_idx

pub insert_symbol-IsSlotted :
    (name : Name) (scoped : Bool) (t : Symtab)
    → IsSlotted t
    → t.frame_idx + 1 < word_mod
    → IsSlotted (insert_symbol name scoped t)
      × ((insert_symbol name scoped t).frame_idx ≡ t.frame_idx + 1)
unfolding insert_symbol
insert_symbol-IsSlotted name scoped t has room =
    let e : (t.frame_idx + 1) % word_mod ≡ t.frame_idx + 1 = omega arith in
    rw (e) (put_symbol-HasSlots t.entries t.frame_idx name _ has refl, refl)
