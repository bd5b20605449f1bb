-- ===== src/Keys/Order.antt =====
-- The order of keys, byte by byte, against the order of the strings that they are made of.
use Prim.Native.Nat.{compare, Ordering}
use javascript_database.Common.{
  ℕ, ◌-◌, ◌%◌, ◌≤◌, ◌<◌, ◌≡◌, ◌≢◌, refl, sym, ap, ◌∙◌, false, Bool-cases, inl, inr, some, List, [],
  ◌∷◌, ◌++◌, map, length, if◌then◌else◌, arith,
}
use javascript_database.Common.Int.{ℤ}
use javascript_database.Keys.Encode.{Source, flip, field_bytes, key_fld, is_reverse}

abbrev pub then_by : Ordering → Ordering → Ordering
then_by Ordering.lt o = Ordering.lt
then_by Ordering.eq o = o
then_by Ordering.gt o = Ordering.gt

-- The first bytes that differ decide; a list comes in front of those that it begins.
unfoldable pub lex : List ℕ → List ℕ → Ordering
lex [] [] = Ordering.eq
lex [] (y ∷ ys) = Ordering.lt
lex (x ∷ xs) [] = Ordering.gt
lex (x ∷ xs) (y ∷ ys) = then_by (compare x y) (lex xs ys)

-- Bytes other than 0.
abbrev pub IsText : List ℕ → Type 0
IsText [] = Unit {0}
IsText (c ∷ s) = (c ≢ 0) × (c < 256) × IsText s

pub then_by_assoc : (o p q : Ordering) → then_by (then_by o p) q ≡ then_by o (then_by p q)
then_by_assoc Ordering.lt p q = refl
then_by_assoc Ordering.eq p q = refl
then_by_assoc Ordering.gt p q = refl

compare_flip : (x y : ℕ) → x < 256 → y < 256 → compare (255 - x) (255 - y) ≡ compare y x
compare_flip x y h k = ground arith

lex-text :
    (s t a b : List ℕ)
    → IsText s
    → IsText t
    → lex (s ++ 0 ∷ a) (t ++ 0 ∷ b) ≡ then_by (lex s t) (lex a b)
unfolding lex
lex-text [] [] a b h k = ground arith
lex-text [] (y ∷ t) a b h k = ground (arith, k)
lex-text (x ∷ s) [] a b h k = ground (arith, h)
lex-text (x ∷ s) (y ∷ t) a b h k =
    let r = lex-text s t a b h.2 k.2 in rw r (sym (then_by_assoc (compare x y) (lex s t) (lex a b)))

lex-flip :
    (s t a b : List ℕ)
    → IsText s
    → IsText t
    → lex (map flip s ++ 255 ∷ a) (map flip t ++ 255 ∷ b) ≡ then_by (lex t s) (lex a b)
unfolding lex
lex-flip [] [] a b h k = ground arith
lex-flip [] (y ∷ t) a b h k = ground (arith, k)
lex-flip (x ∷ s) [] a b h k = ground (arith, h)
lex-flip (x ∷ s) (y ∷ t) a b h k =
    let r = lex-flip s t a b h.2 k.2 in
    let c = compare_flip x y h.1 k.1 in
    rw (c, r) (sym (then_by_assoc (compare y x) (lex t s) (lex a b)))

-- The order of two strings in a field of the given type.
abbrev pub field_order : ℕ → List ℕ → List ℕ → Ordering
field_order fld_type s t = if is_reverse fld_type then lex t s else lex s t

map-append_end : (s a : List ℕ) (c : ℕ) → map flip (s ++ c ∷ []) ++ a ≡ map flip s ++ flip c ∷ a
map-append_end [] a c = refl
map-append_end (x ∷ s) a c = ap (λ r. flip x ∷ r) (map-append_end s a c)

append_end : (s a : List ℕ) (c : ℕ) → (s ++ c ∷ []) ++ a ≡ s ++ c ∷ a
append_end [] a c = refl
append_end (x ∷ s) a c = ap (λ r. x ∷ r) (append_end s a c)

-- Strings without NUL that fit give keys, in a field that is not binary, which are ordered byte
-- by byte as the strings are, or the other way round where the field is reversed; where the
-- strings are equal, what follows decides.
pub key_fld-lex :
    (store64 : ℤ → List ℕ) (max fld_type : ℕ) (src dst : Source) (a b : List ℕ)
    → fld_type % 8 ≡ 4
    → (length src.str ≤ max) × (length dst.str ≤ max)
    → IsText src.str
    → IsText dst.str
    → (k l : List ℕ) × (key_fld store64 false max fld_type src ≡ (some k, fld_type))
      × (key_fld store64 false max fld_type dst ≡ (some l, fld_type))
      × (lex (k ++ a) (l ++ b) ≡ then_by (field_order fld_type src.str dst.str) (lex a b))
unfolding key_fld field_bytes
key_fld-lex store64 max fld_type src dst a b e r h k = elim (Bool-cases (is_reverse fld_type)) [
  | inl t ↦
      let m = ap (λ x. lex x (map flip (dst.str ++ 0 ∷ []) ++ b)) (map-append_end src.str a 0) in
      let n = ap (λ x. lex (map flip src.str ++ 255 ∷ a) x) (map-append_end dst.str b 0) in
      (
        map flip (src.str ++ 0 ∷ []),
        map flip (dst.str ++ 0 ∷ []),
        ground (arith, e, r, t),
        ground (arith, e, r, t),
        rw t (m ∙ n ∙ lex-flip src.str dst.str a b h k),
      )
  | inr f ↦
      let m = ap (λ x. lex x ((dst.str ++ 0 ∷ []) ++ b)) (append_end src.str a 0) in
      let n = ap (λ x. lex (src.str ++ 0 ∷ a) x) (append_end dst.str b 0) in
      (
        src.str ++ 0 ∷ [],
        dst.str ++ 0 ∷ [],
        ground (arith, e, r, f),
        ground (arith, e, r, f),
        rw f (m ∙ n ∙ lex-text src.str dst.str a b h k),
      )
]
