-- ===== src/Strings/First.antt =====
-- `replace`, which looks for its text as `indexOf` does.
use javascript_database.Common.{
  ℕ, zero, suc, ◌+◌, ◌-◌, ◌≤◌, ◌<◌, ◌≡◌, refl, ap, ◌∙◌, Bool, true, false, Option, none, some, List,
  [], ◌∷◌, ◌++◌, length, take, drop, ◌>>=◌, arith,
}
use javascript_database.Strings.{Str, Arg, memcmp_eq}
use javascript_database.Strings.Search.{Search, found, missing, fault, scan}
use javascript_database.Strings.Find.{Occurs, scan-found}
use javascript_database.Strings.Replace.{
  cat_str, replace_loop, or_this, second_str, fcn_str_replace,
}
use javascript_database.Strings.Replaced.{cat_str-in}

-- What `replace` builds from the answer of a search.
at_match : Str → Str → Str → Search → Option Str
at_match this pat repl (found i) =
    cat_str [] this 0 i >>= λ s. cat_str (s ++ repl) this (i + length pat) i
at_match this pat repl missing = some []
at_match this pat repl fault = none

replace_loop-scan :
    (this pat repl : Str) (n off : ℕ)
    → replace_loop this pat repl n off ≡ at_match this pat repl (scan this pat n off)
unfolding replace_loop scan at_match
replace_loop-scan this pat repl zero off = refl
replace_loop-scan this pat repl (suc n) off =
    split (memcmp_eq this off pat) (replace_loop-scan this pat repl n (suc off))
  where
    split :
        (o : Option Bool)
        → replace_loop this pat repl n (suc off)
          ≡ at_match this pat repl (scan this pat n (suc off))
        → elim o as (λ x. Option Str) [
          | none ↦ none
          | some true ↦
              cat_str [] this 0 off >>= λ s. cat_str (s ++ repl) this (off + length pat) off
          | some false ↦ replace_loop this pat repl n (suc off)
        ]
          ≡ at_match this pat repl (elim o as (λ x. Search) [
            | none ↦ fault
            | some true ↦ found off
            | some false ↦ scan this pat n (suc off)
          ])
    split none ih = refl
    split (some true) ih = refl
    split (some false) ih = ih

-- Where the first occurrence of the text is at `i`, does not end the string, and has `i` bytes
-- behind it, `replace` answers with the `i` bytes in front of the text, the replacement, and only
-- `i` bytes behind the text; an empty result becomes the string itself.
pub fcn_str_replace-first :
    (a : Arg) (args : List Arg) (this : Str) (i : ℕ)
    → (i + length a.str < length this) × (i + length a.str + i ≤ length this)
    → Occurs this a.str i
    → ((j : ℕ) → j < i → ¬ (Occurs this a.str j))
    → fcn_str_replace (a ∷ args) this
      ≡ some (
          or_this this
            ((take i this ++ second_str (a ∷ args) []) ++ take i (drop (i + length a.str) this)))
unfolding fcn_str_replace at_match
fcn_str_replace-first a args this i h o before =
    let repl = second_str (a ∷ args) [] in
    let s =
      scan-found this a.str (length this - length a.str) 0 i (omega (arith, h)) o
        (λ j l u. before j u) in
    let c = cat_str-in [] this 0 i (omega (arith, h)) in
    let d = cat_str-in (take i this ++ repl) this (i + length a.str) i (omega (arith, h)) in
    ap (λ m. m >>= λ val. some (or_this this val))
      (replace_loop-scan this a.str repl (length this - length a.str) 0
        ∙ ap (at_match this a.str repl) s
        ∙ ap (λ m. m >>= λ t. cat_str (t ++ repl) this (i + length a.str) i) c
        ∙ d)
