-- ===== src/Math/Order.antt =====
-- The comparisons on integers and infinities, and on strings.
use Prim.Native.Nat.{compare, Ordering}
use javascript_database.Common.{
  ℕ, suc, ◌<◌, ◌≡◌, refl, ap, ◌∙◌, inl, inr, true, false, not, Bool-cases, Option, none, some, List,
  [], ◌∷◌, length, ltb, leb, ◌==◌, if◌then◌else◌, ==_iff, ltb→lt, arith,
}
use javascript_database.Keys.Order.{then_by, then_by_assoc, lex}
use javascript_database.Math.Values.{long_mod, biased, Doubles, Value, int, infinite}
use javascript_database.Math.Compare.{memcmp, op_compare, op_lt, op_le, op_eq, op_ne}

-- The place of an integer or an infinity in the order of the numbers, as a number from 0 on.
abbrev pub rank_of : {F : Type 0} → Value F → Option ℕ
rank_of (int n) = if ltb n long_mod then some (suc (biased n)) else none
rank_of (infinite negative) = if negative then some 0 else some (suc long_mod)
rank_of _ = none

-- `op_lt`, `op_le`, `op_eq` and `op_ne` on integers of 64 bits and infinities are the order of
-- the numbers, with minus infinity below and infinity above all integers.
pub op_lt-rank_of :
    {F : Type 0} (doubles : Doubles F) (left right : Value F) (a b : ℕ)
    → rank_of left ≡ some a
    → rank_of right ≡ some b
    → (op_lt doubles left right ≡ some (ltb a b))
      × (op_le doubles left right ≡ some (leb a b))
      × (op_eq doubles left right ≡ some (a == b))
      × (op_ne doubles left right ≡ some (not (a == b)))
unfolding op_lt op_le op_eq op_ne
op_lt-rank_of doubles (int n) (int m) a b e f =
    (ground (arith, e, f), ground (arith, e, f), ground (arith, e, f), ground (arith, e, f))
op_lt-rank_of doubles (int n) (infinite true) a b e f =
    (ground (arith, e, f), ground (arith, e, f), ground (arith, e, f), ground (arith, e, f))
op_lt-rank_of doubles (int n) (infinite false) a b e f =
    (ground (arith, e, f), ground (arith, e, f), ground (arith, e, f), ground (arith, e, f))
op_lt-rank_of doubles (infinite true) (int m) a b e f =
    (ground (arith, e, f), ground (arith, e, f), ground (arith, e, f), ground (arith, e, f))
op_lt-rank_of doubles (infinite true) (infinite true) a b e f =
    (ground (arith, e, f), ground (arith, e, f), ground (arith, e, f), ground (arith, e, f))
op_lt-rank_of doubles (infinite true) (infinite false) a b e f =
    (ground (arith, e, f), ground (arith, e, f), ground (arith, e, f), ground (arith, e, f))
op_lt-rank_of doubles (infinite false) (int m) a b e f =
    (ground (arith, e, f), ground (arith, e, f), ground (arith, e, f), ground (arith, e, f))
op_lt-rank_of doubles (infinite false) (infinite true) a b e f =
    (ground (arith, e, f), ground (arith, e, f), ground (arith, e, f), ground (arith, e, f))
op_lt-rank_of doubles (infinite false) (infinite false) a b e f =
    (ground (arith, e, f), ground (arith, e, f), ground (arith, e, f), ground (arith, e, f))
op_lt-rank_of doubles _ _ a b e f = absurd (ground (arith, e, f))

memcmp-lex_same :
    (left right : List ℕ)
    → length left ≡ length right
    → memcmp (length left) left right ≡ lex left right
unfolding memcmp lex
memcmp-lex_same [] [] e = refl
memcmp-lex_same [] (y ∷ right) e = absurd (omega arith)
memcmp-lex_same (x ∷ left) [] e = absurd (omega arith)
memcmp-lex_same (x ∷ left) (y ∷ right) e =
    ap (then_by (compare x y)) (memcmp-lex_same left right (omega arith))

memcmp-lex_left :
    (left right : List ℕ)
    → length left < length right
    → then_by (memcmp (length left) left right) Ordering.lt ≡ lex left right
unfolding memcmp lex
memcmp-lex_left [] [] h = absurd (omega arith)
memcmp-lex_left [] (y ∷ right) h = refl
memcmp-lex_left (x ∷ left) [] h = absurd (omega arith)
memcmp-lex_left (x ∷ left) (y ∷ right) h =
    then_by_assoc (compare x y) _ _
    ∙ ap (then_by (compare x y)) (memcmp-lex_left left right (omega arith))

memcmp-lex_right :
    (left right : List ℕ)
    → length right < length left
    → then_by (memcmp (length right) left right) Ordering.gt ≡ lex left right
unfolding memcmp lex
memcmp-lex_right [] right h = absurd (omega arith)
memcmp-lex_right (x ∷ left) [] h = refl
memcmp-lex_right (x ∷ left) (y ∷ right) h =
    then_by_assoc (compare x y) _ _
    ∙ ap (then_by (compare x y)) (memcmp-lex_right left right (omega arith))

-- `op_compare` compares two strings byte by byte, and where one is the beginning of the other by
-- their lengths.
pub op_compare-lex : (left right : List ℕ) → op_compare left right ≡ lex left right
unfolding op_compare
op_compare-lex left right = elim (Bool-cases (length left == length right)) [
  | inl same ↦ rw same (memcmp-lex_same left right ((==_iff _ _).0 same))
  | inr differ ↦ elim (Bool-cases (ltb (length left) (length right))) [
    | inl less ↦ rw (differ, less) (memcmp-lex_left left right (ltb→lt _ _ less))
    | inr more ↦ rw (differ, more) (memcmp-lex_right left right (ground (arith, differ, more)))
  ]
]
