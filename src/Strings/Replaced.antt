-- ===== src/Strings/Replaced.antt =====
-- What `replaceAll` answers, against a description that knows no offsets.
use javascript_database.Common.{
  ℕ, zero, suc, ◌+◌, ◌-◌, ◌≤◌, ◌<◌, ◌≡◌, ◌≢◌, refl, sym, ap, ◌∙◌, ◌⊎◌, inl, inr, subst, true, false,
  Bool-cases, some, List, [], ◌∷◌, ◌++◌, length, take, drop, length-take, length-drop,
  length-append, leb, ◌>>=◌, arith,
}
use javascript_database.Props.Hash.{name_eq}
use javascript_database.Strings.{Str, Arg, memcmp_eq, new_string, sub_word}
use javascript_database.Strings.Find.{
  Occurs, Fits, take-all, drop-append, take-drop, append_assoc, take-drop_left, memcmp_eq-in,
  memcmp_eq-Occurs, miss,
}
use javascript_database.Strings.Replace.{
  Matches, matches, cons_match, collect, cat_str, build, replaced, second_str, undefined_str,
  fcn_str_replace_all,
}

-- The second string is the first with its texts replaced: from the left, and none inside another.
pub data Replaces (pat repl : Str) : Str → Str → Type 0 where
  rest : (s : Str) → ((i : ℕ) → ¬ (Occurs s pat i)) → Replaces pat repl s s
  next :
      (a s t : Str)
      → ((i : ℕ) → i < length a → ¬ (Occurs (a ++ (pat ++ s)) pat i))
      → Replaces pat repl s t
      → Replaces pat repl (a ++ (pat ++ s)) (a ++ (repl ++ t))

drop-nil : (n : ℕ) → drop {A = ℕ} n [] ≡ []
drop-nil zero = refl
drop-nil (suc n) = refl

pub drop-drop : (m n : ℕ) (s : Str) → drop n (drop m s) ≡ drop (m + n) s
drop-drop zero n s = let e : 0 + n ≡ n = omega arith in rw e
drop-drop (suc m) n [] = drop-nil n ∙ sym (drop-nil (suc m + n))
drop-drop (suc m) n (x ∷ s) =
    let e : suc m + n ≡ suc (m + n) = omega arith in rw e (drop-drop m n s)

pub Occurs-le : (this pat : Str) (i : ℕ) → Occurs this pat i → i + length pat ≤ length this
Occurs-le this pat i (pre, post, e, l) =
    let n = ap length e in
    omega (arith, n, l, length-append pre (pat ++ post), length-append pat post)

Occurs-drop :
    (this pat : Str) (n i : ℕ)
    → n ≤ length this
    → Occurs (drop n this) pat i
    → Occurs this pat (n + i)
Occurs-drop this pat n i h (pre, post, e, l) =
    let split = take-drop n this in
    let assoc = append_assoc (take n this) pre (pat ++ post) in
    (
      take n this ++ pre,
      post,
      sym split ∙ ap (λ s. take n this ++ s) e ∙ sym assoc,
      omega (arith, length-append (take n this) pre, length-take n this, l),
    )

pub cat_str-in :
    (val this : Str) (off len : ℕ)
    → off + len ≤ length this
    → cat_str val this off len ≡ some (val ++ take len (drop off this))
unfolding new_string
cat_str-in val this off len h =
    let e = take-drop_left len off this (0 ∷ []) h in rw e (ground arith)

-- The string from one offset on, up to the text at a later one.
pub split_at :
    (this pat : Str) (prev off : ℕ)
    → prev ≤ off
    → off + length pat ≤ length this
    → Occurs this pat off
    → drop prev this ≡ take (off - prev) (drop prev this) ++ (pat ++ drop (off + length pat) this)
split_at this pat prev off h b (pre, post, e, l) =
    let skip : drop off this ≡ pat ++ post =
      ap (λ s. drop off s) e
      ∙ ap (λ n. drop n (pre ++ (pat ++ post))) (sym l)
      ∙ drop-append pre (pat ++ post) in
    let tail : drop (off + length pat) this ≡ post =
      sym (drop-drop off (length pat) this)
      ∙ ap (λ s. drop (length pat) s) skip
      ∙ drop-append pat post in
    let gap : prev + (off - prev) ≡ off = omega arith in
    let from : drop (off - prev) (drop prev this) ≡ drop off this =
      drop-drop prev (off - prev) this ∙ ap (λ n. drop n this) gap in
    sym (take-drop (off - prev) (drop prev this))
    ∙ ap (λ s. take (off - prev) (drop prev this) ++ s)
        (from ∙ skip ∙ ap (λ s. pat ++ s) (sym tail))

le_or : (a b : ℕ) → (a ≤ b) ⊎ (b < a)
le_or a b = ground arith

le_cases : (i off : ℕ) → i < suc off → (off ≡ i) ⊎ (i < off)
le_cases i off h = ground arith

record Replacing (this pat repl : Str) (prev : ℕ) (m : Matches) : Type 0 where
  pub found_at : List ℕ
  pub is_found : m ≡ matches found_at
  pub out : Str
  pub built : (val : Str) → build this (length pat) repl val prev found_at ≡ some (val ++ out)
  pub good : Replaces pat repl (drop prev this) out

module _ (this pat repl : Str) (h : Fits this pat) (some_text : length pat ≢ 0) where
  ends :
      (prev off : ℕ)
      → (prev ≤ off) × (prev ≤ length this)
      → length this - length pat < off
      → ((i : ℕ) → prev ≤ i → i < off → ¬ (Occurs this pat i))
      → Replacing this pat repl prev (matches [])
  unfolding build
  ends prev off b past none_at = record {
    found_at = [];
    is_found = refl;
    out = drop prev this;
    built = λ val.
        let l : length this - prev ≡ length (drop prev this) =
          omega (arith, length-drop prev this) in
        let c = cat_str-in val this prev (length this - prev) (omega (arith, b)) in
        let a = take-all (drop prev this) in c ∙ rw (l, a);
    good = rest (drop prev this) (λ i o.
        let o' = Occurs-drop this pat prev i b.1 o in
        none_at (prev + i) (omega arith) (omega (arith, h, Occurs-le this pat (prev + i) o')) o');
  }

  takes :
      (prev off : ℕ) (m : Matches)
      → prev ≤ off
      → Occurs this pat off
      → ((i : ℕ) → prev ≤ i → i < off → ¬ (Occurs this pat i))
      → Replacing this pat repl (off + length pat) m
      → Replacing this pat repl prev (cons_match off m)
  unfolding build
  takes prev off m b o none_at r =
      let a = take (off - prev) (drop prev this) in
      let after = drop (off + length pat) this in
      let inside = Occurs-le this pat off o in
      let whole = split_at this pat prev off b inside o in
      let la : length a ≡ off - prev =
        omega (arith, length-take (off - prev) (drop prev this), length-drop prev this) in
      record {
        found_at = off ∷ r.found_at;
        is_found = ap (cons_match off) r.is_found;
        out = a ++ (repl ++ r.out);
        built = λ val.
            let c = cat_str-in val this prev (off - prev) (omega arith) in
            let f = r.built ((val ++ a) ++ repl) in
            let assoc = append_assoc (val ++ a) repl r.out in
            let assoc' = append_assoc val a (repl ++ r.out) in
            ap
              (λ o.
                o >>= λ s. build this (length pat) repl (s ++ repl) (off + length pat) r.found_at)
              c
            ∙ f
            ∙ ap some (assoc ∙ assoc');
        good =
            subst (λ s. Replaces pat repl s (a ++ (repl ++ r.out))) (sym whole)
              (next a after r.out
                (λ i u o'.
                  let q =
                    Occurs-drop this pat prev i (omega arith)
                      (subst (λ s. Occurs s pat i) (sym whole) o') in
                  none_at (prev + i) (omega arith) (omega arith) q)
                r.good);
      }

  collect-Replacing :
      (fuel prev off : ℕ)
      → (prev ≤ off) × (prev ≤ length this)
      → (off ≤ length this) × (length this < fuel + off)
      → ((i : ℕ) → prev ≤ i → i < off → ¬ (Occurs this pat i))
      → Replacing this pat repl prev (collect fuel this pat off)
  unfolding collect
  collect-Replacing zero prev off b c none_at = absurd (omega (arith, c))
  collect-Replacing (suc fuel) prev off b c none_at =
      let diff : sub_word (length this) (length pat) ≡ length this - length pat =
        omega (arith, h) in
      elim (le_or (off) (length this - length pat)) [
        | inr past ↦
            let l : leb off (length this - length pat) ≡ false = ground arith in
            rw (collect, diff, l) (ends prev off b past none_at)
        | inl inside ↦
            let l : leb off (length this - length pat) ≡ true = ground arith in
            let fits : off + length pat ≤ length this = omega (arith, h) in
            let m = memcmp_eq-in this pat off fits in
            elim (Bool-cases (name_eq (take (length pat) (drop off this)) pat)) [
              | inl t ↦
                  let e : memcmp_eq this off pat ≡ some true = m ∙ ap some t in
                  rw (collect, diff, l, e)
                    (takes prev off _ b.0 (memcmp_eq-Occurs this pat off fits e) none_at (
                      collect-Replacing fuel (off + length pat) (off + length pat) (omega arith)
                        (omega arith) (λ i u v. absurd (omega arith))))
              | inr f ↦
                  let e : memcmp_eq this off pat ≡ some false = m ∙ ap some f in
                  rw (collect, diff, l, e)
                    (collect-Replacing fuel prev (off + 1) (omega (arith, b))
                      (omega (arith, c, h, some_text))
                      (λ i u v. elim (le_cases i off (omega arith)) [
                        | inl same ↦
                            subst (λ k. ¬ (Occurs this pat k)) same (miss this pat off fits e)
                        | inr before ↦ none_at i u before
                      ]))
            ]
      ]

replaced-build :
    (ms : List ℕ) (this repl : Str) (plen : ℕ)
    → replaced (matches ms) this plen repl ≡ build this plen repl [] 0 ms
unfolding replaced build
replaced-build [] this repl plen =
    let c = cat_str-in [] this 0 (length this) (omega arith) in
    let a = take-all this in
    let e : length this - 0 ≡ length this = omega arith in
    sym (ap (cat_str [] this 0) e ∙ c ∙ ap some a)
replaced-build (m ∷ ms) this repl plen = refl

-- `replaceAll`, where the text is neither empty nor longer than the string and the string is
-- shorter than 2 ^ 32, ends, and answers with the string in which the occurrences of the text,
-- taken from the left and none inside another, are replaced.
pub fcn_str_replace_all-Replaces :
    (a : Arg) (args : List Arg) (this : Str)
    → Fits this a.str
    → length a.str ≢ 0
    → (out : Str) × (fcn_str_replace_all (a ∷ args) this ≡ some out)
      × Replaces a.str (second_str (a ∷ args) undefined_str) this out
unfolding fcn_str_replace_all
fcn_str_replace_all-Replaces a args this h t =
    let repl = second_str (a ∷ args) undefined_str in
    let r =
      collect-Replacing this a.str repl h t (length this + 1) 0 0 (omega arith) (omega arith)
        (λ i u v. absurd (omega arith)) in
    (
      r.out,
      ap (λ m. replaced m this (length a.str) repl) r.is_found
          ∙ replaced-build r.found_at this repl (length a.str)
          ∙ r.built [],
      r.good,
    )
