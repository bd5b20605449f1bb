-- ===== src/Strings/Replace.antt =====
-- `replaceAll` and `replace`.
use javascript_database.Common.{
  ℕ, zero, suc, ◌+◌, ◌-◌, true, false, Option, none, some, List, [], ◌∷◌, ◌++◌, length, leb,
  if◌then◌else◌, ◌>>=◌,
}
use javascript_database.Strings.{Str, Arg, memcmp_eq, new_string, sub_word}

-- The vector `matches`; or a read past the string; or a loop that has not ended after its fuel.
pub data Matches : Type 0 where
  matches : List ℕ → Matches
  fault stuck : Matches

abbrev pub cons_match : ℕ → Matches → Matches
cons_match off (matches ms) = matches (off ∷ ms)
cons_match off fault = fault
cons_match off stuck = stuck

-- The loop while off <= thisstr->len - teststr->len.
unfoldable pub collect : ℕ → Str → Str → ℕ → Matches
collect zero this pat off =
    if leb off (sub_word (length this) (length pat)) then stuck else matches []
collect (suc fuel) this pat off =
    if leb off (sub_word (length this) (length pat))
    then elim (memcmp_eq this off pat) [
      | none ↦ fault
      | some true ↦ cons_match off (collect fuel this pat (off + length pat))
      | some false ↦ collect fuel this pat (off + 1)
    ]
    else matches []

-- valueCatStr(val, thisstr->val + off, len)
abbrev pub cat_str : Str → Str → ℕ → ℕ → Option Str
cat_str val this off len = do s ← new_string this off len; some (val ++ s)

-- The loop over the matches, and what follows the last of them.
unfoldable pub build : Str → ℕ → Str → Str → ℕ → List ℕ → Option Str
build this plen repl val prev [] = cat_str val this prev (length this - prev)
build this plen repl val prev (m ∷ ms) = do
  s ← cat_str val this prev (m - prev)
  build this plen repl (s ++ repl) (m + plen) ms

-- UndefinedStr
abbrev pub undefined_str : Str
undefined_str = b'u' ∷ b'n' ∷ b'd' ∷ b'e' ∷ b'f' ∷ b'i' ∷ b'n' ∷ b'e' ∷ b'd' ∷ []

abbrev pub second_str : List Arg → Str → Str
second_str (a ∷ b ∷ args) d = b.str
second_str args d = d

unfoldable pub replaced : Matches → Str → ℕ → Str → Option Str
unfolding build
replaced (matches []) this plen repl = some this
replaced (matches (m ∷ ms)) this plen repl = build this plen repl [] 0 (m ∷ ms)
replaced fault this plen repl = none
replaced stuck this plen repl = none

-- Nothing is a read past the string, or a loop without an end. The loop takes at most one round
-- for each offset where the text is not empty.
unfoldable pub fcn_str_replace_all : List Arg → Str → Option Str
unfolding collect replaced
fcn_str_replace_all [] this = some this
fcn_str_replace_all (a ∷ args) this =
    replaced (collect (length this + 1) this a.str 0) this (length a.str)
      (second_str (a ∷ args) undefined_str)

-- The loop of `replace`, while off < (int)thisstr->len - (int)pattstr->len, `n` times at most.
unfoldable pub replace_loop : Str → Str → Str → ℕ → ℕ → Option Str
replace_loop this pat repl zero off = some []
replace_loop this pat repl (suc n) off = elim (memcmp_eq this off pat) [
  | none ↦ none
  | some true ↦ do s ← cat_str [] this 0 off; cat_str (s ++ repl) this (off + length pat) off
  | some false ↦ replace_loop this pat repl n (suc off)
]

abbrev pub or_this : Str → Str → Str
or_this this [] = this
or_this this (x ∷ val) = x ∷ val

unfoldable pub fcn_str_replace : List Arg → Str → Option Str
unfolding replace_loop
fcn_str_replace [] this = some this
fcn_str_replace (a ∷ args) this = do
  val ← replace_loop this a.str (second_str (a ∷ args) []) (length this - length a.str) 0
  some (or_this this val)
