-- ===== src/Strings/Offsets.antt =====
-- `substr`, `slice`, `charAt`, `charCodeAt` and `repeat`.
use javascript_database.Common.{
  ℕ, zero, suc, ◌+◌, ◌-◌, ◌%◌, ◌≤◌, ◌<◌, ◌≡◌, ◌≢◌, refl, sym, ap, ◌∙◌, inl, inr, true, false,
  Bool-cases, none, some, List, [], ◌∷◌, ◌++◌, length, take, drop, get_elem?, get_elem?-lt,
  get_elem?-append_left, length-drop, ltb, arith,
}
use javascript_database.Common.Int.{pos, negsuc, ltb_ℤ, ◌+ℤ◌}
use javascript_database.Vector.{word_mod}
use javascript_database.Strings.{Str, Arg, int}
use javascript_database.Strings.Search.{to_int}
use javascript_database.Strings.Find.{take-all}
use javascript_database.Strings.Joined.{new_string-in}
use javascript_database.Strings.Slice.{
  text, code, text_or, new_cut, neg, left_over, substr_count, fcn_str_substr, fcn_str_slice,
  slice_cut, slice_end, fcn_str_char_code_at, fcn_str_char_at, repeat_loop, fcn_str_repeat,
}
use javascript_database.Strings.Cut.{between, int_arg}

pub to_int-small : (n : ℕ) → n < 2_147_483_648 → to_int (pos n) ≡ pos n
unfolding to_int
to_int-small n h =
    let m : n % word_mod ≡ n = omega arith in
    let l : ltb n 2_147_483_648 ≡ true = ground arith in rw (m, l)

to_int-negsuc : (n : ℕ) → n < 2_147_483_648 → to_int (negsuc n) ≡ negsuc n
unfolding to_int
to_int-negsuc n h =
    let m : n % word_mod ≡ n = omega arith in
    let l : ltb (word_mod - 1 - n) 2_147_483_648 ≡ false = ground arith in
    let e : word_mod - (word_mod - 1 - n) - 1 ≡ n = omega arith in rw (m, l, e)

slice_cut-in :
    (this : Str) (start len : ℕ)
    → start + len ≤ length this
    → slice_cut this (pos start) (pos len) ≡ text (take len (drop start this))
unfolding new_cut
slice_cut-in this start zero h = refl
slice_cut-in this start (suc n) h = ap text_or (new_string-in this start (suc n) h)

-- `slice` from -(n + 1), with n less than the length and the string shorter than 2 ^ 31, is the
-- last n + 1 bytes of the string, whatever end it is given.
pub fcn_str_slice-last :
    (this s : Str) (n : ℕ) (args : List Arg)
    → (n < length this) × (length this < 2_147_483_648)
    → fcn_str_slice (int_arg s (negsuc n) ∷ args) this ≡ text (drop (length this - suc n) this)
unfolding fcn_str_slice
fcn_str_slice-last this s n args h =
    let a = to_int-negsuc n (omega (arith, h)) in
    let b = to_int-small (length this) (omega (arith, h)) in
    let c = to_int-small (suc n) (omega (arith, h)) in
    let start : negsuc n +ℤ pos (length this) ≡ pos (length this - suc n) = ground (arith, h) in
    let cut = slice_cut-in this (length this - suc n) (suc n) (omega (arith, h)) in
    let e : suc n ≡ length (drop (length this - suc n) this) =
      omega (arith, h, length-drop (length this - suc n) this) in
    let all : take (suc n) (drop (length this - suc n) this) ≡ drop (length this - suc n) this =
      ap (λ k. take k (drop (length this - suc n) this)) e ∙ take-all _ in
    rw (a, b, c, start) (cut ∙ ap text all)

-- `slice` between two offsets in order in the string is the part of the string between them,
-- where the end is not 0 and the string shorter than 2 ^ 31.
pub fcn_str_slice-between :
    (this s t : Str) (lo hi : ℕ)
    → (lo ≤ hi) × (hi ≤ length this) × (hi ≢ 0) × (length this < 2_147_483_648)
    → fcn_str_slice (int_arg s (pos lo) ∷ int_arg t (pos hi) ∷ []) this ≡ text (between this lo hi)
unfolding fcn_str_slice
fcn_str_slice-between this s t lo hi h =
    let a = to_int-small lo (omega (arith, h)) in
    let b = to_int-small hi (omega (arith, h)) in
    let e : slice_end (pos hi) (length this) ≡ pos hi = end_in hi (length this) h.2 h.1 in
    let count : pos hi +ℤ neg (pos lo) ≡ pos (hi - lo) = diff lo hi h.0 in
    rw (a, e, b, count) (slice_cut-in this lo (hi - lo) (omega (arith, h)))
  where
    end_in : (hi len : ℕ) → hi ≢ 0 → hi ≤ len → slice_end (pos hi) len ≡ pos hi
    end_in zero len z l = absurd (z refl)
    end_in (suc n) len z l = ground arith

    diff : (lo hi : ℕ) → lo ≤ hi → pos hi +ℤ neg (pos lo) ≡ pos (hi - lo)
    diff zero hi l = ground arith
    diff (suc n) hi l = ground arith

-- At an index inside the string `charCodeAt` is the byte of the string at the index, and `charAt`
-- is the string of that byte.
pub fcn_str_char_at-code :
    (this s : Str) (i : ℕ)
    → i < length this
    → (c : ℕ) × (get_elem? this i ≡ some c)
      × (fcn_str_char_code_at (int_arg s (pos i) ∷ []) this ≡ code c)
      × (fcn_str_char_at (int_arg s (pos i) ∷ []) this ≡ text (c ∷ []))
unfolding fcn_str_char_code_at fcn_str_char_at new_cut
fcn_str_char_at-code this s i h =
    let (c, g) = get_elem?-lt this i h in
    let l : ltb (length this) i ≡ false = ground arith in
    let k : ltb_ℤ (pos i) (pos (length this)) ≡ true = ground arith in
    let a = get_elem?-append_left this (0 ∷ []) i h ∙ g in
    let n = new_string-in this i 1 (omega arith) in
    (c, g, rw (l, a), rw (k, n) (ap text (one_at this i c g)))
  where
    one_at : (this : Str) (i c : ℕ) → get_elem? this i ≡ some c → take 1 (drop i this) ≡ c ∷ []
    one_at [] i c g = cc
    one_at (x ∷ xs) zero c g = cc
    one_at (x ∷ xs) (suc i) c g = one_at xs i c g

-- `repeat` by a count above 0 is still running after any number of rounds.
pub fcn_str_repeat-runs :
    (fuel n : ℕ) (s this : Str) (args : List Arg)
    → fcn_str_repeat fuel (int_arg s (pos (suc n)) ∷ args) this ≡ none
unfolding fcn_str_repeat
fcn_str_repeat-runs fuel n s this args = runs fuel []
  where
    runs : (fuel : ℕ) (val : Str) → repeat_loop fuel (pos (suc n)) this val ≡ none
    runs zero val = ground arith
    runs (suc fuel) val =
        let l : ltb_ℤ (pos 0) (pos (suc n)) ≡ true = ground arith in
        rw (repeat_loop, l) (runs fuel (val ++ this))

-- The end of `substr`: the count that is left, or the given one.
substr_cut :
    (this : Str) (o c : ℕ)
    → o ≤ length this
    → slice_cut this (pos o) (substr_count (left_over this (pos o)) (int (pos c)))
      ≡ text (take c (drop o this))
unfolding new_cut
substr_cut this o c h =
    let left : left_over this (pos o) ≡ pos (length this - o) = diff o h in
    ap (λ z. slice_cut this (pos o) (substr_count z (int (pos c)))) left
    ∙ elim (Bool-cases (ltb_ℤ (pos (length this - o)) (pos c))) [
      | inl t ↦
          let e : take (length this - o) (drop o this) ≡ drop o this =
            ap (λ k. take k (drop o this)) (sym (length-drop o this)) ∙ take-all (drop o this) in
          let e' : take c (drop o this) ≡ drop o this =
            take-long c (drop o this) (ground (arith, t, length-drop o this)) in
          let count : substr_count (pos (length this - o)) (int (pos c)) ≡ pos (length this - o) =
            rw t in
          ap (slice_cut this (pos o)) count
          ∙ slice_cut-in this o (length this - o) (omega arith)
          ∙ ap text (e ∙ sym e')
      | inr f ↦
          let count : substr_count (pos (length this - o)) (int (pos c)) ≡ pos c = rw f in
          ap (slice_cut this (pos o)) count ∙ slice_cut-in this o c (ground arith)
    ]
  where
    diff : (o : ℕ) → o ≤ length this → left_over this (pos o) ≡ pos (length this - o)
    diff zero l = ground arith
    diff (suc n) l = ground arith

    take-long : (c : ℕ) (s : Str) → length s ≤ c → take c s ≡ s
    take-long zero [] l = refl
    take-long zero (x ∷ s) l = absurd (omega arith)
    take-long (suc c) [] l = refl
    take-long (suc c) (x ∷ s) l = ap (λ r. x ∷ r) (take-long c s (omega arith))

-- `substr` of an offset in the string and a count is that many bytes of the string from the
-- offset on, or those that are left; from an offset of -(n + 1), with n less than the length, it
-- counts from the end of the string.
pub fcn_str_substr-take :
    (this s t : Str) (o n c : ℕ)
    → (o ≤ length this) × (n < length this)
    → (fcn_str_substr (int_arg s (pos o) ∷ int_arg t (pos c) ∷ []) this
        ≡ text (take c (drop o this)))
      × (fcn_str_substr (int_arg s (negsuc n) ∷ int_arg t (pos c) ∷ []) this
          ≡ text (take c (drop (length this - suc n) this)))
unfolding fcn_str_substr
fcn_str_substr-take this s t o n c h =
    let start : negsuc n +ℤ pos (length this) ≡ pos (length this - suc n) = ground (arith, h) in
    (
      substr_cut this o c h.0,
      ap (λ z. slice_cut this z (substr_count (left_over this z) (int (pos c)))) start
          ∙ substr_cut this (length this - suc n) c (omega arith),
    )
