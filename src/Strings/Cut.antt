-- ===== src/Strings/Cut.antt =====
-- What the methods that cut a string answer, as the bytes of the string in a range.
use javascript_database.Common.{
  ℕ, zero, suc, ◌+◌, ◌-◌, ◌≤◌, ◌<◌, ◌≡◌, ap, subst, ◌⊎◌, inl, inr, Bool, true, false, Bool-cases,
  some, [], ◌∷◌, length, take, drop, get_elem?, get_elem?-lt, lt-get_elem?, ltb, if◌then◌else◌,
  arith,
}
use javascript_database.Common.Int.{ℤ, pos, negsuc}
use javascript_database.Strings.{Str, Arg, int, new_string}
use javascript_database.Strings.Split.{trim_end, trim_start, fcn_str_trim}
use javascript_database.Strings.Joined.{new_string-in}
use javascript_database.Strings.Slice.{text, text_or, clamp, fcn_str_substring}

-- The bytes of the string from `lo` to `hi`.
abbrev pub between : Str → ℕ → ℕ → Str
between this lo hi = take (hi - lo) (drop lo this)

abbrev pub int_arg : Str → ℤ → Arg
int_arg s z = record { str = s; num = int z }

pub cut-between :
    (this : Str) (lo hi : ℕ)
    → (lo ≤ hi) × (hi ≤ length this)
    → text_or (new_string this lo (hi - lo)) ≡ text (between this lo hi)
cut-between this lo hi h = ap text_or (new_string-in this lo (hi - lo) (omega (arith, h)))

clamp-le : (z : ℤ) (len : ℕ) → clamp z len ≤ len
clamp-le (pos n) len = ground arith
clamp-le (negsuc n) len = ground arith

-- `substring` of two integers is the part of the string between them, each brought into the
-- string, and the same with the two exchanged.
pub fcn_str_substring-between :
    (this s t : Str) (x y : ℤ)
    → clamp x (length this) ≤ clamp y (length this)
    → (fcn_str_substring (int_arg s x ∷ int_arg t y ∷ []) this
        ≡ text (between this (clamp x (length this)) (clamp y (length this))))
      × (fcn_str_substring (int_arg t y ∷ int_arg s x ∷ []) this
          ≡ text (between this (clamp x (length this)) (clamp y (length this))))
unfolding fcn_str_substring
fcn_str_substring-between this s t x y h =
    split (clamp x (length this)) (clamp y (length this)) h (clamp-le y (length this))
  where
    split :
        (a b : ℕ)
        → a ≤ b
        → b ≤ length this
        → ((if ltb a b
              then text_or (new_string this a (b - a))
              else if ltb b a
              then text_or (new_string this b (a - b))
              else text [])
            ≡ text (between this a b))
          × ((if ltb b a
                then text_or (new_string this b (a - b))
                else if ltb a b
                then text_or (new_string this a (b - a))
                else text [])
              ≡ text (between this a b))
    split a b h u =
        let c = cut-between this a b (omega arith) in
        elim (Bool-cases (ltb a b)) [
          | inl l ↦ let k : ltb b a ≡ false = ground arith in (rw l c, rw (k, l) c)
          | inr l ↦
              let e : b - a ≡ 0 = ground arith in
              let k : ltb b a ≡ false = ground arith in (rw (l, k, e), rw (k, l, e))
        ]

-- The range that `trim` keeps: outside are spaces only, and at its ends there are none.
pub record Trims (is_space : ℕ → Bool) (this : Str) (lo hi : ℕ) : Type 0 where
  pub in_range : (lo ≤ hi) × (hi ≤ length this)
  pub outside : (i c : ℕ) → get_elem? this i ≡ some c → (i < lo) ⊎ (hi ≤ i) → is_space c ≡ true
  pub at_ends :
      (i c : ℕ) → get_elem? this i ≡ some c → lo < hi → (i ≡ lo) ⊎ (suc i ≡ hi) → is_space c ≡ false

module _ (is_space : ℕ → Bool) (this : Str) where
  record Ended (len e : ℕ) : Type 0 where
    pub below : e ≤ len
    pub spaces : (i c : ℕ) → get_elem? this i ≡ some c → (e ≤ i) × (i < len) → is_space c ≡ true
    pub stop : (i c : ℕ) → get_elem? this i ≡ some c → suc i ≡ e → is_space c ≡ false

  trim_end-Ended : (len : ℕ) → len ≤ length this → Ended len (trim_end is_space this len)
  unfolding trim_end
  trim_end-Ended zero h = record {
    below = omega arith;
    spaces = λ i c g b. absurd (omega (arith, b));
    stop = λ i c g e. absurd (omega arith);
  }
  trim_end-Ended (suc len) h =
      let (d, at_len) = get_elem?-lt this len (omega arith) in
      elim (Bool-cases (is_space d)) [
        | inl t ↦
            let r = trim_end-Ended len (omega arith) in
            rw (trim_end, at_len, t)
              (record {
                below = omega (arith, r.below);
                spaces = λ i c g b. elim (last_or i len b.1) [
                  | inl e ↦ let g' = subst (λ k. get_elem? this k ≡ some c) e g in cc
                  | inr l ↦ r.spaces i c g (b.0, l)
                ];
                stop = λ i c g e. r.stop i c g e;
              })
        | inr f ↦
            rw (trim_end, at_len, f)
              (record {
                below = omega arith;
                spaces = λ i c g b. absurd (omega (arith, b));
                stop = λ i c g e.
                    let k : i ≡ len = omega arith in
                    let g' = subst (λ k. get_elem? this k ≡ some c) k g in cc;
              })
      ]
    where
      last_or : (i len : ℕ) → i < suc len → (i ≡ len) ⊎ (i < len)
      last_or i len b = ground arith

  record Started (start n s : ℕ) : Type 0 where
    pub range : (start ≤ s) × (s ≤ start + n)
    pub spaces : (i c : ℕ) → get_elem? this i ≡ some c → (start ≤ i) × (i < s) → is_space c ≡ true
    pub stop :
        (i c : ℕ) → get_elem? this i ≡ some c → (i ≡ s) × (s < start + n) → is_space c ≡ false

  trim_start-Started :
      (n start : ℕ) → start + n ≤ length this → Started start n (trim_start is_space this n start)
  unfolding trim_start
  trim_start-Started zero start h = record {
    range = omega arith;
    spaces = λ i c g b. absurd (omega (arith, b));
    stop = λ i c g e. absurd (omega (arith, e));
  }
  trim_start-Started (suc n) start h =
      let (d, at_start) = get_elem?-lt this start (omega arith) in
      elim (Bool-cases (is_space d)) [
        | inl t ↦
            let r = trim_start-Started n (suc start) (omega arith) in
            rw (trim_start, at_start, t)
              (record {
                range = omega (arith, r.range);
                spaces = λ i c g b. elim (first_or i start b.0) [
                  | inl e ↦ let g' = subst (λ k. get_elem? this k ≡ some c) e g in cc
                  | inr l ↦ r.spaces i c g (l, b.1)
                ];
                stop = λ i c g e. r.stop i c g (e.0, omega (arith, e));
              })
        | inr f ↦
            rw (trim_start, at_start, f)
              (record {
                range = omega arith;
                spaces = λ i c g b. absurd (omega (arith, b));
                stop = λ i c g e. let g' = subst (λ k. get_elem? this k ≡ some c) e.0 g in cc;
              })
      ]
    where
      first_or : (i start : ℕ) → start ≤ i → (i ≡ start) ⊎ (suc start ≤ i)
      first_or i start b = ground arith

-- `trim` answers with a range of the string: all bytes outside it are spaces, and neither the
-- first nor the last byte of it is one.
pub fcn_str_trim-Trims :
    (is_space : ℕ → Bool) (this : Str)
    → (lo hi : ℕ) × Trims is_space this lo hi
      × (fcn_str_trim is_space this ≡ some (between this lo hi))
unfolding fcn_str_trim
fcn_str_trim-Trims is_space this =
    let hi = trim_end is_space this (length this) in
    let lo = trim_start is_space this hi 0 in
    let e = trim_end-Ended is_space this (length this) (omega arith) in
    let s = trim_start-Started is_space this hi 0 (omega (arith, e.below)) in
    (
      lo,
      hi,
      record {
        in_range = omega (arith, e.below, s.range);
        outside = λ i c g o. elim o [
          | inl l ↦ s.spaces i c g (omega arith)
          | inr r ↦ e.spaces i c g (r, lt-get_elem? this i c g)
        ];
        at_ends =
            λ i c g l o. elim o [ inl b ↦ s.stop i c g (b, omega arith) | inr t ↦ e.stop i c g t ];
      },
      new_string-in this lo (hi - lo) (omega (arith, e.below, s.range)),
    )
