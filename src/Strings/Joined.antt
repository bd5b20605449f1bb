-- ===== src/Strings/Joined.antt =====
-- The pieces of `split`, and what `trim` takes off.
use javascript_database.Common.{
  ℕ, zero, suc, ◌+◌, ◌-◌, ◌≤◌, ◌<◌, ◌≡◌, refl, sym, ap, ◌∙◌, subst, ◌⊎◌, inl, inr, true, false,
  Bool-cases, Option, some, List, [], ◌∷◌, ◌++◌, length, take, drop, length-drop, length-take, ltb,
  ◌==◌, arith,
}
use javascript_database.Common.Int.{pos, ltb_ℤ}
use javascript_database.Props.Hash.{name_eq}
use javascript_database.Strings.{Str, Arg, memcmp_eq, new_string, sub_word}
use javascript_database.Strings.Find.{
  Occurs, Fits, take-drop, take-drop_left, memcmp_eq-in, memcmp_eq-Occurs, take-all,
}
use javascript_database.Strings.Replaced.{split_at}
use javascript_database.Strings.Split.{delim_at, last_piece, cons_piece, split_loop, fcn_str_split}

-- The pieces with the delimiter between them.
abbrev pub join : Str → List Str → Str
join delim [] = []
join delim (s ∷ []) = s
join delim (s ∷ t ∷ r) = s ++ (delim ++ join delim (t ∷ r))

pub new_string-in :
    (this : Str) (off len : ℕ)
    → off + len ≤ length this
    → new_string this off len ≡ some (take len (drop off this))
unfolding new_string
new_string-in this off len h = let e = take-drop_left len off this (0 ∷ []) h in rw e (ground arith)

record Splits (this delim : Str) (prev : ℕ) (m : Option (List Str)) : Type 0 where
  pub head : Str
  pub others : List Str
  pub is_some : m ≡ some (head ∷ others)
  pub joined : join delim (head ∷ others) ≡ drop prev this

module _ (this delim : Str) (limit : ℕ) (h : Fits this delim) where
  last-Splits :
      (count prev : ℕ)
      → (count < limit) × (prev < length this)
      → Splits this delim prev (last_piece this (pos limit) count prev)
  unfolding last_piece
  last-Splits count prev b = record {
    head = drop prev this;
    others = [];
    is_some =
        let c : ltb_ℤ (pos count) (pos limit) ≡ true = ground (arith, b) in
        let l : ltb prev (length this) ≡ true = ground (arith, b) in
        let n = new_string-in this prev (length this - prev) (omega (arith, b)) in
        let e : length this - prev ≡ length (drop prev this) =
          omega (arith, length-drop prev this) in
        let a : take (length this - prev) (drop prev this) ≡ drop prev this =
          ap (λ k. take k (drop prev this)) e ∙ take-all (drop prev this) in
        rw (c, l, n, a);
    joined = refl;
  }

  piece-Splits :
      (prev off : ℕ) (m : Option (List Str))
      → prev ≤ off
      → off + length delim ≤ length this
      → Occurs this delim off
      → Splits this delim (off + length delim) m
      → Splits this delim prev (cons_piece (new_string this prev (off - prev)) m)
  piece-Splits prev off m b inside o r = record {
    head = take (off - prev) (drop prev this);
    others = r.head ∷ r.others;
    is_some =
        let n = new_string-in this prev (off - prev) (omega arith) in
        let s = r.is_some in rw (n, s);
    joined =
        ap (λ s. take (off - prev) (drop prev this) ++ (delim ++ s)) r.joined
        ∙ sym (split_at this delim prev off b inside o);
  }

  delim_at-in :
      (off : ℕ)
      → off + length delim ≤ length this
      → (delim_at this delim off ≡ some true) × Occurs this delim off
        ⊎ (delim_at this delim off ≡ some false)
  delim_at-in off b = elim (Bool-cases (length delim == 0)) [
    | inl z ↦ inl (rw z, empty_at delim (ground arith))
    | inr n ↦
        let m = memcmp_eq-in this delim off b in
        elim (Bool-cases (name_eq (take (length delim) (drop off this)) delim)) [
          | inl t ↦
              let e : memcmp_eq this off delim ≡ some true = m ∙ ap some t in
              inl (rw (n, e), memcmp_eq-Occurs this delim off b e)
          | inr f ↦ let e : memcmp_eq this off delim ≡ some false = m ∙ ap some f in inr (rw (n, e))
        ]
  ]
    where
      empty_at : (d : Str) → length d ≡ 0 → Occurs this d off
      empty_at [] z = (
        take off this,
        drop off this,
        sym (take-drop off this),
        omega (arith, length-take off this),
      )
      empty_at (x ∷ d) z = absurd (omega arith)

  loop_end :
      (fuel off prev count : ℕ)
      → ltb_ℤ (pos count) (pos limit) ≡ true
      → ltb off (length this - length delim) ≡ false
      → split_loop (suc fuel) this delim (pos limit) (length this - length delim) off prev count
        ≡ last_piece this (pos limit) count prev
  unfolding split_loop last_piece
  loop_end fuel off prev count k l = rw (split_loop, k, l)

  split_loop-Splits :
      (fuel off prev count : ℕ)
      → (prev ≤ off) × (prev < length this)
      → (count ≤ off) × (off ≤ length this) × (length this < limit)
      → length this - length delim ≤ fuel + off
      → Splits this delim prev
          (split_loop fuel this delim (pos limit) (length this - length delim) off prev count)
  unfolding split_loop
  split_loop-Splits zero off prev count b c d =
      let l : ltb off (length this - length delim) ≡ false = ground arith in
      rw (split_loop, l) (last-Splits count prev (omega (arith, b, c)))
  split_loop-Splits (suc fuel) off prev count b c d =
      let k : ltb_ℤ (pos count) (pos limit) ≡ true = ground (arith, c) in
      elim (Bool-cases (ltb off (length this - length delim))) [
        | inr l ↦
            subst (Splits this delim prev) (sym (loop_end fuel off prev count k l))
              (last-Splits count prev (omega (arith, b, c)))
        | inl l ↦
            let inside : off + length delim < length this = ground (arith, h) in
            elim (delim_at-in off (omega arith)) [
              | inl (e, o) ↦
                  rw (split_loop, k, l, e)
                    (piece-Splits prev off _ b.0 (omega arith) o (
                      split_loop-Splits fuel (suc (off + length delim)) (off + length delim)
                        (suc count) (omega arith) (omega (arith, c)) (omega (arith, d))))
              | inr e ↦
                  rw (split_loop, k, l, e)
                    (split_loop-Splits fuel (suc off) prev count (omega (arith, b))
                      (omega (arith, c)) (omega (arith, d)))
            ]
      ]

-- `split` with one argument ends, and its pieces joined by the delimiter are the string, where
-- the string is shorter than 2 ^ 20 and the delimiter no longer than the string.
pub fcn_str_split-join :
    (a : Arg) (this : Str)
    → Fits this a.str
    → length this < 1_048_576
    → (pieces : List Str) × (fcn_str_split (a ∷ []) this ≡ some pieces) × (join a.str pieces ≡ this)
unfolding fcn_str_split split_loop last_piece
fcn_str_split-join a [] h l =
    let diff : sub_word 0 (length a.str) ≡ 0 = omega (arith, h) in
    ([], ap (λ m. split_loop m [] a.str (pos 1_048_576) m 0 0 0) diff, refl)
fcn_str_split-join a (x ∷ xs) h l =
    let this = x ∷ xs in
    let diff : sub_word (length this) (length a.str) ≡ length this - length a.str =
      omega (arith, h) in
    let s =
      split_loop-Splits this a.str 1_048_576 h (length this - length a.str) 0 0 0 (omega arith)
        (omega arith) (omega arith) in
    (
      s.head ∷ s.others,
      ap (λ m. split_loop m this a.str (pos 1_048_576) m 0 0 0) diff ∙ s.is_some,
      s.joined,
    )
