-- ===== src/Strings/Ends.antt =====
-- `startsWith` and `endsWith` against occurrences.
use javascript_database.Common.{
  ℕ, ◌+◌, ◌-◌, ◌≤◌, ◌<◌, ◌≡◌, ap, ◌∙◌, ◌↔◌, inl, inr, Bool, true, false, Bool-cases, some, [], ◌∷◌,
  length, take, drop, leb, arith,
}
use javascript_database.Common.Int.{pos, sub_ℕ, ◌+ℤ◌}
use javascript_database.Props.Hash.{name_eq}
use javascript_database.Strings.{Str, Arg, memcmp_eq}
use javascript_database.Strings.Search.{fcn_str_starts_with, fcn_str_ends_with}
use javascript_database.Strings.Find.{Occurs, memcmp_eq-in, memcmp_eq-Occurs, Occurs-memcmp_eq}
use javascript_database.Strings.Replaced.{Occurs-le}
use javascript_database.Strings.Cut.{int_arg}
use javascript_database.Strings.Offsets.{to_int-small}

memcmp_eq-decides :
    (this pat : Str) (off : ℕ)
    → off + length pat ≤ length this
    → (b : Bool) × (memcmp_eq this off pat ≡ some b) × ((b ≡ true) ↔ Occurs this pat off)
memcmp_eq-decides this pat off h =
    let m = memcmp_eq-in this pat off h in
    (
      name_eq (take (length pat) (drop off this)) pat,
      m,
      (
        λ t. memcmp_eq-Occurs this pat off h (m ∙ ap some t),
        λ o. let e = Occurs-memcmp_eq this pat off h o in cc,
      ),
    )

-- `startsWith` with an offset of 0 or more answers, and says yes exactly where the text occurs in
-- the string at the offset.
pub fcn_str_starts_with-Occurs :
    (a : Arg) (s this : Str) (off : ℕ)
    → (b : Bool) × (fcn_str_starts_with (a ∷ int_arg s (pos off) ∷ []) this ≡ some b)
      × ((b ≡ true) ↔ Occurs this a.str off)
unfolding fcn_str_starts_with
fcn_str_starts_with-Occurs a s this off =
    elim (Bool-cases (leb (off + length a.str) (length this))) [
      | inl t ↦ let (b, e, d) = memcmp_eq-decides this a.str off (ground arith) in (b, rw t e, d)
      | inr f ↦ (
        false,
        rw f,
        (λ t. absurd (cc), λ o. let l = Occurs-le this a.str off o in absurd (ground (arith, l))),
      )
    ]

-- `endsWith` with one argument answers, and says yes exactly where the text occurs at the end of
-- the string. The text is no longer than the string, and the string shorter than 2 ^ 31.
pub fcn_str_ends_with-Occurs :
    (a : Arg) (this : Str)
    → (length this < 2_147_483_648) × (length a.str ≤ length this)
    → (b : Bool) × (fcn_str_ends_with (a ∷ []) this ≡ some b)
      × ((b ≡ true) ↔ Occurs this a.str (length this - length a.str))
unfolding fcn_str_ends_with
fcn_str_ends_with-Occurs a this h =
    let n = to_int-small (length this) h.0 in
    let off : pos (length this) +ℤ sub_ℕ 0 (length a.str) ≡ pos (length this - length a.str) =
      ground (arith, h) in
    let (b, e, d) = memcmp_eq-decides this a.str (length this - length a.str) (omega (arith, h)) in
    (b, rw (fcn_str_ends_with, n, off) e, d)
