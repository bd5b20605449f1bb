-- ===== src/Strings/Search.antt =====
-- `indexOf`, `includes`, `startsWith`, `endsWith` and `lastIndexOf`.
use javascript_database.Common.{
  ℕ, zero, suc, ◌+◌, ◌-◌, ◌%◌, Bool, true, false, Option, none, some, List, [], ◌∷◌, length, ltb,
  leb, if◌then◌else◌,
}
use javascript_database.Common.Int.{ℤ, pos, negsuc, sub_ℕ, ◌+ℤ◌}
use javascript_database.Vector.{word_mod}
use javascript_database.Strings.{Str, Number, Arg, int, memcmp_eq, sub_word}

-- The answer of a search: an offset; none, which is -1 or `false`; or a read past the string.
pub data Search : Type 0 where
  found : ℕ → Search
  missing : Search
  fault : Search

-- The loop over the offsets from `off` on, `n` of them.
unfoldable pub scan : Str → Str → ℕ → ℕ → Search
scan this pat zero off = missing
scan this pat (suc n) off = elim (memcmp_eq this off pat) [
  | none ↦ fault
  | some true ↦ found off
  | some false ↦ scan this pat n (suc off)
]

-- `args[1]`, or else the given default.
abbrev pub second : List Arg → Number → Number
second (a ∷ b ∷ args) d = b.num
second args d = d

-- if (off.nval < 0) off.nval = 0
abbrev pub clamp_low : ℤ → ℕ
clamp_low (pos n) = n
clamp_low (negsuc n) = 0

unfoldable pub fcn_str_index_of : List Arg → Str → Search
unfolding scan
fcn_str_index_of [] this = missing
fcn_str_index_of (a ∷ args) this =
    let off = second (a ∷ args) (int (pos 0)) in
    let start = clamp_low off.nval in
    if off.is_int
    then scan this a.str (sub_word (length this) (length a.str) - start) start
    else missing

-- `fcnStrIncludes` from a negative offset reads in front of the string.
unfoldable pub fcn_str_includes : List Arg → Str → Search
unfolding scan
fcn_str_includes [] this = missing
fcn_str_includes (a ∷ args) this =
    let off = second (a ∷ args) (int (pos 0)) in
    elim (if off.is_int then off.nval else pos 0) [
      | negsuc n ↦ fault
      | pos start ↦ scan this a.str (sub_word (length this) (length a.str) - start) start
    ]

unfoldable pub fcn_str_starts_with : List Arg → Str → Option Bool
fcn_str_starts_with [] this = some false
fcn_str_starts_with (a ∷ args) this = elim (second (a ∷ args) (int (pos 0))).nval [
  | negsuc n ↦ some false
  | pos off ↦
      if leb (off + length a.str) (length this) then memcmp_eq this off a.str else some false
]

-- The cast of an int64_t to an int.
unfoldable pub to_int : ℤ → ℤ
to_int (pos n) =
    let w = n % word_mod in if ltb w 2_147_483_648 then pos w else negsuc (word_mod - w - 1)
to_int (negsuc n) =
    let w = word_mod - 1 - n % word_mod in
    if ltb w 2_147_483_648 then pos w else negsuc (word_mod - w - 1)

-- The difference of the two is an int, which the sizes of strings keep in range.
unfoldable pub fcn_str_ends_with : List Arg → Str → Option Bool
unfolding to_int
fcn_str_ends_with [] this = some false
fcn_str_ends_with (a ∷ args) this =
    let end = second (a ∷ args) (int (pos (length this))) in
    elim (to_int end.nval +ℤ sub_ℕ 0 (length a.str)) [
      | negsuc n ↦ some false
      | pos off ↦ memcmp_eq this off a.str
    ]

-- The start of `fcnStrLastIndexOf`, an int: `from`, or what the lengths leave, within the string.
unfoldable pub last_start : Number → ℕ → ℕ → ℕ
unfolding to_int
last_start from len plen =
    let start = clamp_low (to_int (if from.is_int then from.nval else pos (sub_word len plen))) in
    if ltb len start then len else start

-- The loop counts up and has no end of its own: after `length this + 2` rounds it has read past the
-- string, or found the text.
unfoldable pub fcn_str_last_index_of : List Arg → Str → Search
unfolding scan last_start
fcn_str_last_index_of [] this = missing
fcn_str_last_index_of (a ∷ args) this =
    let from = second (a ∷ args) (record { is_int = false; nval = pos 0 }) in
    scan this a.str (length this + 2) (last_start from (length this) (length a.str))
