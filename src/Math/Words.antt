-- ===== src/Math/Words.antt =====
-- Division on 64-bit numbers.
use native.Mathlib.Nat.{div-add-mod, mod-lt}
use javascript_database.Common.{
  ℕ, ◌+◌, ◌*◌, ◌/◌, ◌%◌, ◌≤◌, ◌<◌, ◌≡◌, ◌≢◌, ◌⊎◌, refl, sym, ◌∙◌, inl, inr, Bool, true, false,
  Bool-cases, some, ◌==◌, ne→==_false, arith,
}
use javascript_database.Math.Values.{long_mod, long_min, is_neg, Doubles, int}
use javascript_database.Math.Arith.{
  neg_long, magnitude, signed, long_div, long_rem, traps, xor, op_div, op_mod,
}

neg_long-multiple : (z : ℕ) → z < long_mod → (k : ℕ) × (neg_long z + z ≡ long_mod * k)
neg_long-multiple z h = elim (Bool-cases (z == 0)) [
  | inl e ↦ (0, ground (arith, e))
  | inr e ↦ (1, ground (arith, e))
]

split_sum : (n q b m r : ℕ) → n * b + m + (b * q + r) ≡ b * (n + q) + (m + r)
split_sum n q b m r = grind arith

scale_sum : (b c k l : ℕ) → b * (c * k) + c * l ≡ c * (b * k + l)
scale_sum b c k l = grind arith

-- A negative dividend: n and m are the negated quotient and remainder.
neg_dividend :
    (a x b q r n m k l : ℕ)
    → a + x ≡ long_mod
    → 0 < x
    → x ≡ b * q + r
    → n + q ≡ long_mod * k
    → m + r ≡ long_mod * l
    → (n * b + m) % long_mod ≡ a
neg_dividend a x b q r n m k l e p f g h =
    let t : n * b + m + x ≡ long_mod * (b * k + l) =
      rw (f, split_sum n q b m r, g, h) (scale_sum b long_mod k l) in
    close (n * b + m) (b * k + l) t
  where
    close : (w u : ℕ) → w + x ≡ long_mod * u → w % long_mod ≡ a
    close w u t = omega (arith, e, p)

cross : (b y c n q k : ℕ) → b + y ≡ c → n + q ≡ c * k → n * b + c * (k * y) ≡ c * n + y * q
cross b y c n q k e f =
    let g : n * c ≡ n * b + n * y = rw (← e) (grind arith) in
    let h : n * y + q * y ≡ c * k * y = rw (← f) (grind arith) in grind (arith, g, h)

-- A negative divisor.
neg_divisor :
    (a b y q r n k : ℕ)
    → a < long_mod
    → b + y ≡ long_mod
    → a ≡ y * q + r
    → n + q ≡ long_mod * k
    → (n * b + r) % long_mod ≡ a
neg_divisor a b y q r n k lt e f g = close (n * b) (k * y) (y * q) (cross b y long_mod n q k e g) f
  where
    close : (w s u : ℕ) → w + long_mod * s ≡ long_mod * n + u → a ≡ u + r → (w + r) % long_mod ≡ a
    close w s u t f' = omega (arith, lt)

neg_both :
    (a x b y q r m l : ℕ)
    → a + x ≡ long_mod
    → 0 < x
    → b + y ≡ long_mod
    → x ≡ y * q + r
    → m + r ≡ long_mod * l
    → (q * b + m) % long_mod ≡ a
neg_both a x b y q r m l e p f g h =
    let s : q * b + q * y ≡ q * long_mod = rw (← f) (grind arith) in
    close (q * b) (q * y) (s) (rw g (grind arith))
  where
    close : (w u : ℕ) → w + u ≡ q * long_mod → x ≡ u + r → (w + m) % long_mod ≡ a
    close w u s g' = omega (arith, e, p, h)

quotient-le : (x y : ℕ) → 0 < y → x / y ≤ x
quotient-le x y h = grind (arith, div-add-mod x y)

-- A number of a given sign and its absolute value.
abbrev IsSigned : Bool → ℕ → ℕ → Type 0
IsSigned true a x = (a + x ≡ long_mod) × (0 < x) × (x ≤ long_min)
IsSigned false a x = (a ≡ x) × (x < long_min)

IsSigned-magnitude : (a : ℕ) → a < long_mod → IsSigned (is_neg a) a (magnitude a)
IsSigned-magnitude a h = elim (Bool-cases (is_neg a)) [
  | inl neg ↦ rw neg (ground (arith, neg), ground (arith, neg), ground (arith, neg))
  | inr pos ↦ rw pos (refl, ground (arith, pos))
]

module _ (a b x y q r : ℕ) (law : x ≡ y * q + r) (small : r < y) where
  q_le : q ≤ x
  q_le = grind arith

  signed-law :
      (sa sb : Bool)
      → IsSigned sa a x
      → IsSigned sb b y
      → (signed (xor sa sb) q * b + signed sa r) % long_mod ≡ a
  signed-law true true (ax, xp, xs) (by, yp, ys) =
      let (l, m) = neg_long-multiple r (omega arith) in
      neg_both a x b y q r (neg_long r) l ax xp by law m
  signed-law true false (ax, xp, xs) (by, ys) =
      let (l, m) = neg_long-multiple r (omega arith) in
      let (k, n) = neg_long-multiple q (let le = q_le in omega arith) in
      neg_dividend a x b q r (neg_long q) (neg_long r) k l ax xp (rw by law) n m
  signed-law false true (ax, xs) (by, yp, ys) =
      let (k, n) = neg_long-multiple q (let le = q_le in omega arith) in
      neg_divisor a b y q r (neg_long q) k (omega arith) by (ax ∙ law) n
  signed-law false false (ax, xs) (by, ys) =
      let e : q * b + r ≡ a = rw (by, ax, law) (grind arith) in
      let whole : a % long_mod ≡ a = omega arith in rw (e, whole)

  signed-small :
      (sa : Bool)
      → y ≤ long_min
      → (magnitude (signed sa r) < y) × ((signed sa r ≡ 0) ⊎ (is_neg (signed sa r) ≡ sa))
  signed-small true ys = elim (Bool-cases (r == 0)) [
    | inl z ↦ (ground (arith, z), inl (ground (arith, z)))
    | inr nz ↦ (ground (arith, nz), inr (ground (arith, nz)))
  ]
  signed-small false ys = (ground arith, inr (ground arith))

-- For two integers of 64 bits, where the second one is not 0 and the quotient does not trap,
-- `op_div` and `op_mod` give a quotient and a remainder that make up the first one, modulo 2 ^
-- 64, and the remainder is smaller than the second one without their signs and has the sign of
-- the first one, or is 0.
pub op_div-op_mod :
    {F : Type 0} (doubles : Doubles F) (a b : ℕ)
    → (a < long_mod) × (b < long_mod)
    → b ≢ 0
    → traps a b ≡ false
    → (q r : ℕ) × (op_div doubles (int a) (int b) ≡ some (int q))
      × (op_mod doubles (int a) (int b) ≡ some (int r))
      × ((q * b + r) % long_mod ≡ a)
      × (magnitude r < magnitude b)
      × ((r ≡ 0) ⊎ (is_neg r ≡ is_neg a))
unfolding op_div op_mod
op_div-op_mod doubles a b (la, lb) nz fits =
    let x = magnitude a in
    let y = magnitude b in
    let law = sym (div-add-mod x y) in
    let y_in : (0 < y) × (y ≤ long_min) = elim (Bool-cases (is_neg b)) [
      | inl neg ↦ (ground (arith, neg), ground (arith, neg))
      | inr pos ↦ (ground (arith, pos), ground (arith, pos))
    ] in
    let small = mod-lt x y_in.0 in
    let (less, sign) = signed-small a b x y (x / y) (x % y) law small (is_neg a) y_in.1 in
    let test = ne→==_false b 0 nz in
    (
      long_div a b,
      long_rem a b,
      rw (test, fits),
      rw (test, fits),
      signed-law a b x y (x / y) (x % y) law small (is_neg a) (is_neg b) (IsSigned-magnitude a la)
          (IsSigned-magnitude b lb),
      less,
      sign,
    )
