-- ===== src/Strings/Find.antt =====
-- Occurrences of a text in a string, and the searches for one.
use javascript_database.Common.{
  ℕ, zero, suc, ◌+◌, ◌-◌, ◌≤◌, ◌<◌, ◌≡◌, ◌≢◌, subst, refl, sym, ap, ◌∙◌, ◌⊎◌, inl, inr, true, false,
  Bool-cases, some, List, [], ◌∷◌, ◌++◌, length, take, drop, length-take, length-drop, arith,
}
use javascript_database.Common.Int.{pos}
use javascript_database.Vector.{word_mod}
use javascript_database.Props.Hash.{name_eq, name_eq_sound, name_eq_refl}
use javascript_database.Strings.{Str, Arg, int, memcmp_eq, sub_word}
use javascript_database.Strings.Search.{
  Search, found, missing, fault, scan, second, clamp_low, fcn_str_index_of, fcn_str_includes,
  fcn_str_last_index_of, last_start,
}

-- `this` has `pat` at the offset `i`.
abbrev pub Occurs : Str → Str → ℕ → Type 0
Occurs this pat i = (pre post : Str) × (this ≡ pre ++ (pat ++ post)) × (length pre ≡ i)

pub take-drop : (n : ℕ) (s : Str) → take n s ++ drop n s ≡ s
take-drop zero s = refl
take-drop (suc n) [] = refl
take-drop (suc n) (x ∷ s) = ap (λ r. x ∷ r) (take-drop n s)

pub take-all : (s : Str) → take (length s) s ≡ s
take-all [] = refl
take-all (x ∷ s) = ap (λ r. x ∷ r) (take-all s)

pub drop-append : (pre s : Str) → drop (length pre) (pre ++ s) ≡ s
drop-append [] s = refl
drop-append (x ∷ pre) s = drop-append pre s

pub take-append : (pat s : Str) → take (length pat) (pat ++ s) ≡ pat
take-append [] s = refl
take-append (x ∷ pat) s = ap (λ r. x ∷ r) (take-append pat s)

pub append_assoc : (a b c : Str) → (a ++ b) ++ c ≡ a ++ (b ++ c)
append_assoc [] b c = refl
append_assoc (x ∷ a) b c = ap (λ r. x ∷ r) (append_assoc a b c)

pub take-append_left : (n : ℕ) (s t : Str) → n ≤ length s → take n (s ++ t) ≡ take n s
take-append_left zero s t h = refl
take-append_left (suc n) [] t h = absurd (omega arith)
take-append_left (suc n) (x ∷ s) t h = ap (λ r. x ∷ r) (take-append_left n s t (omega arith))

pub drop-append_left : (n : ℕ) (s t : Str) → n ≤ length s → drop n (s ++ t) ≡ drop n s ++ t
drop-append_left zero s t h = refl
drop-append_left (suc n) [] t h = absurd (omega arith)
drop-append_left (suc n) (x ∷ s) t h = drop-append_left n s t (omega arith)

-- The bytes of the string in a range, whatever follows the string.
pub take-drop_left :
    (n off : ℕ) (s t : Str) → off + n ≤ length s → take n (drop off (s ++ t)) ≡ take n (drop off s)
take-drop_left n off s t h =
    rw (drop-append_left off s t (omega arith))
      (take-append_left n (drop off s) t (omega (arith, length-drop off s)))

module _ (this pat : Str) (off : ℕ) where
  pub memcmp_eq-in :
      off + length pat ≤ length this
      → memcmp_eq this off pat ≡ some (name_eq (take (length pat) (drop off this)) pat)
  unfolding memcmp_eq
  memcmp_eq-in h = let e = take-drop_left (length pat) off this (0 ∷ []) h in rw e (ground arith)

  pub memcmp_eq-Occurs :
      off + length pat ≤ length this → memcmp_eq this off pat ≡ some true → Occurs this pat off
  memcmp_eq-Occurs h e =
      let b = memcmp_eq-in h in
      let same = name_eq_sound (take (length pat) (drop off this)) pat (cc) in
      let rest = take-drop (length pat) (drop off this) in
      let whole = take-drop off this in
      (take off this, drop (length pat) (drop off this), cc, omega (arith, length-take off this))

  pub Occurs-memcmp_eq :
      off + length pat ≤ length this → Occurs this pat off → memcmp_eq this off pat ≡ some true
  Occurs-memcmp_eq h (pre, post, e, l) =
      let b = memcmp_eq-in h in
      let d : drop off this ≡ pat ++ post =
        ap (λ s. drop off s) e
        ∙ ap (λ n. drop n (pre ++ (pat ++ post))) (sym l)
        ∙ drop-append pre (pat ++ post) in
      let t = take-append pat post in let r = name_eq_refl pat in b ∙ rw (d, t, r)

-- The answer is the first occurrence at an offset in a range, or that there is none.
pub data IsFirst (this pat : Str) (lo hi : ℕ) : Search → Type 0 where
  first_at :
      (i : ℕ)
      → (lo ≤ i) × (i < hi)
      → Occurs this pat i
      → ((j : ℕ) → lo ≤ j → j < i → ¬ (Occurs this pat j))
      → IsFirst this pat lo hi (found i)
  nowhere : ((j : ℕ) → lo ≤ j → j < hi → ¬ (Occurs this pat j)) → IsFirst this pat lo hi missing

le_cases : (lo j : ℕ) → lo ≤ j → (j ≡ lo) ⊎ (suc lo ≤ j)
le_cases lo j h = ground arith

module _ (this pat : Str) where
  pub miss :
      (off : ℕ)
      → off + length pat ≤ length this
      → memcmp_eq this off pat ≡ some false
      → ¬ (Occurs this pat off)
  miss off h e o = let t = Occurs-memcmp_eq this pat off h o in cc

  IsFirst-later :
      (lo hi : ℕ) (r : Search)
      → ¬ (Occurs this pat lo)
      → IsFirst this pat (suc lo) hi r
      → IsFirst this pat lo hi r
  IsFirst-later lo hi r not_lo (first_at i b o before) = first_at i (omega (arith, b)) o (λ j l u.
      elim (le_cases lo j l) [
        | inl e ↦ λ p. not_lo (subst (Occurs this pat) e p)
        | inr m ↦ before j m u
      ])
  IsFirst-later lo hi r not_lo (nowhere none_at) = nowhere (λ j l u. elim (le_cases lo j l) [
    | inl e ↦ λ p. not_lo (subst (Occurs this pat) e p)
    | inr m ↦ none_at j m u
  ])

  pub scan-IsFirst :
      (n off : ℕ)
      → (n ≡ 0) ⊎ (off + n + length pat ≤ length this + 1)
      → IsFirst this pat off (off + n) (scan this pat n off)
  unfolding scan
  scan-IsFirst zero off h = nowhere (λ j l u. absurd (omega arith))
  scan-IsFirst (suc n) off h =
      let inside : off + length pat ≤ length this = ground arith in
      let b = memcmp_eq-in this pat off inside in
      let sum : off + suc n ≡ suc off + n = omega arith in
      elim (Bool-cases (name_eq (take (length pat) (drop off this)) pat)) [
        | inl t ↦
            let e : memcmp_eq this off pat ≡ some true = b ∙ ap some t in
            rw (scan, e)
              (first_at off (omega arith) (memcmp_eq-Occurs this pat off inside e)
                (λ j l u. absurd (omega arith)))
        | inr f ↦
            let e : memcmp_eq this off pat ≡ some false = b ∙ ap some f in
            rw (scan, e, sum)
              (IsFirst-later off (suc off + n) _ (miss off inside e)
                (scan-IsFirst n (suc off) (ground arith)))
      ]

  -- A range that starts behind its end is empty.
  IsFirst-range :
      (lo hi : ℕ) (r : Search) → IsFirst this pat lo (lo + (hi - lo)) r → IsFirst this pat lo hi r
  IsFirst-range lo hi r (first_at i b o before) = first_at i (omega (arith, b)) o before
  IsFirst-range lo hi r (nowhere none_at) = nowhere (λ j l u. none_at j l (omega arith))

  scan-range :
      (lo : ℕ)
      → (length pat ≤ length this) × (length this < word_mod)
      → IsFirst this pat lo
          (length this - length pat)
          (scan this pat (sub_word (length this) (length pat) - lo) lo)
  scan-range lo h =
      let diff : sub_word (length this) (length pat) ≡ length this - length pat =
        omega (arith, h) in
      rw diff (
        IsFirst-range lo (length this - length pat) _
          (scan-IsFirst (length this - length pat - lo) lo (ground (arith, h))))

  -- Where the text occurs, the scan that gets there stops there, unless it has stopped before.
  pub scan-found :
      (n off i : ℕ)
      → (off ≤ i) × (i < off + n) × (i + length pat ≤ length this)
      → Occurs this pat i
      → ((j : ℕ) → off ≤ j → j < i → ¬ (Occurs this pat j))
      → scan this pat n off ≡ found i
  unfolding scan
  scan-found zero off i b o before = absurd (omega (arith, b))
  scan-found (suc n) off i b o before =
      let inside : off + length pat ≤ length this = omega (arith, b) in
      let m = memcmp_eq-in this pat off inside in
      elim (le_cases off i b.0) [
        | inl e ↦
            let t = Occurs-memcmp_eq this pat off inside (subst (Occurs this pat) e o) in
            rw (scan, t, e)
        | inr later ↦ elim (Bool-cases (name_eq (take (length pat) (drop off this)) pat)) [
          | inl t ↦ absurd (
              before off (omega arith) (omega arith)
                (memcmp_eq-Occurs this pat off inside (m ∙ ap some t)))
          | inr f ↦
              let s : memcmp_eq this off pat ≡ some false = m ∙ ap some f in
              rw (scan, s)
                (scan-found n (suc off) i (omega (arith, b)) o (λ j l u. before j (omega arith) u))
        ]
      ]

-- The text is no longer than the string, and the lengths are below 2 ^ 32.
abbrev pub Fits : Str → Str → Type 0
Fits this pat = (length pat ≤ length this) × (length this < word_mod)

-- `indexOf` answers with the first occurrence of the text, from the offset on (from 0, where the
-- offset is negative), that ends before the end of the string, or that there is none. The offset
-- is an integer, the text no longer than the string, and the string shorter than 2 ^ 32.
pub fcn_str_index_of-IsFirst :
    (a : Arg) (args : List Arg) (this : Str)
    → Fits this a.str
    → (second (a ∷ args) (int (pos 0))).is_int ≡ true
    → IsFirst this a.str
        (clamp_low (second (a ∷ args) (int (pos 0))).nval)
        (length this - length a.str)
        (fcn_str_index_of (a ∷ args) this)
unfolding fcn_str_index_of
fcn_str_index_of-IsFirst a args this h e =
    rw (fcn_str_index_of, e)
      (scan-range this a.str (clamp_low (second (a ∷ args) (int (pos 0))).nval) h)

-- `includes` with one argument answers with the first occurrence of the text that ends before the
-- end of the string, or that there is none, where the text is no longer than the string and the
-- string shorter than 2 ^ 32.
pub fcn_str_includes-IsFirst :
    (a : Arg) (this : Str)
    → Fits this a.str
    → IsFirst this a.str 0 (length this - length a.str) (fcn_str_includes (a ∷ []) this)
unfolding fcn_str_includes
fcn_str_includes-IsFirst a this h = scan-range this a.str 0 h

-- `indexOf` and `includes` of one text that is longer than the string with its terminator, and
-- shorter than 2 ^ 32, read past the string.
pub fcn_str_index_of-longer :
    (a : Arg) (this : Str)
    → (length this + 1 < length a.str) × (length a.str < word_mod)
    → (fcn_str_index_of (a ∷ []) this ≡ fault) × (fcn_str_includes (a ∷ []) this ≡ fault)
unfolding fcn_str_index_of fcn_str_includes scan memcmp_eq
fcn_str_index_of-longer a this h = (past, past)
  where
    first_round : (n : ℕ) → n ≢ 0 → scan this a.str n 0 ≡ fault
    first_round zero z = absurd (z refl)
    first_round (suc n) z = ground (arith, h)

    past : scan this a.str (sub_word (length this) (length a.str) - 0) 0 ≡ fault
    past = first_round (sub_word (length this) (length a.str) - 0) (omega (arith, h))

-- `lastIndexOf` answers with the first occurrence of the text at its start or after it, if there
-- is one, where the start is the given offset, or where a text of that length ends with the
-- string.
pub fcn_str_last_index_of-first :
    (a : Arg) (args : List Arg) (this : Str) (i : ℕ)
    → i + length a.str ≤ length this
    → last_start
        (second (a ∷ args) (record { is_int = false; nval = pos 0 }))
        (length this)
        (length a.str)
      ≤ i
    → Occurs this a.str i
    → ((j : ℕ)
        → last_start
            (second (a ∷ args) (record { is_int = false; nval = pos 0 }))
            (length this)
            (length a.str)
          ≤ j
        → j < i
        → ¬ (Occurs this a.str j))
    → fcn_str_last_index_of (a ∷ args) this ≡ found i
unfolding fcn_str_last_index_of
fcn_str_last_index_of-first a args this i b l o before =
    scan-found this a.str (length this + 2) _ i (omega (arith, b, l)) o before
