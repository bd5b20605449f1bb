-- ===== src/Strings/Split.antt =====
-- `split` and `trim`.
use javascript_database.Common.{
  ℕ, zero, suc, ◌+◌, ◌-◌, Bool, true, false, Option, none, some, List, [], ◌∷◌, length, get_elem?,
  ltb, ◌==◌, if◌then◌else◌,
}
use javascript_database.Common.Int.{ℤ, pos, ltb_ℤ}
use javascript_database.Strings.{Str, Arg, int, memcmp_eq, new_string, sub_word}
use javascript_database.Strings.Search.{second}

-- `!delimstr->len || !memcmp(...)`
abbrev pub delim_at : Str → Str → ℕ → Option Bool
delim_at this delim off = if length delim == 0 then some true else memcmp_eq this off delim

-- The last piece, and the test for it.
unfoldable pub last_piece : Str → ℤ → ℕ → ℕ → Option (List Str)
last_piece this limit count prev =
    if ltb_ℤ (pos count) limit
    then if ltb prev (length this)
      then elim (new_string this prev (length this - prev)) [ none ↦ none | some s ↦ some (s ∷ []) ]
      else some []
    else some []

abbrev pub cons_piece : Option Str → Option (List Str) → Option (List Str)
cons_piece (some s) (some r) = some (s ∷ r)
cons_piece none r = none
cons_piece (some s) none = none

-- The loop: a delimiter at `off` ends a piece, and the next offset to test is the one behind the
-- offset where the delimiter ends. Out of fuel it is `none`, as for a read past the string.
unfoldable pub split_loop : ℕ → Str → Str → ℤ → ℕ → ℕ → ℕ → ℕ → Option (List Str)
unfolding last_piece
split_loop zero this delim limit max off prev count =
    if ltb off max then none else last_piece this limit count prev
split_loop (suc fuel) this delim limit max off prev count =
    if ltb_ℤ (pos count) limit
    then if ltb off max
      then elim (delim_at this delim off) [
        | none ↦ none
        | some true ↦ cons_piece (new_string this prev (off - prev)) (
            split_loop fuel this delim limit max (suc (off + length delim)) (off + length delim)
              (suc count))
        | some false ↦ split_loop fuel this delim limit max (suc off) prev count
      ]
      else last_piece this limit count prev
    else last_piece this limit count prev

-- Without an argument the string itself is the one piece.
unfoldable pub fcn_str_split : List Arg → Str → Option (List Str)
unfolding split_loop
fcn_str_split [] this = some (this ∷ [])
fcn_str_split (a ∷ args) this =
    let limit = second (a ∷ args) (int (pos 1_048_576)) in
    if limit.is_int
    then split_loop (sub_word (length this) (length a.str)) this a.str limit.nval
        (sub_word (length this) (length a.str)) 0 0 0
    else some []

-- `isspace` of the C library is `is_space`.
module _ (is_space : ℕ → Bool) where
  -- The first loop: the length without the spaces at the end.
  unfoldable pub trim_end : Str → ℕ → ℕ
  trim_end this zero = zero
  trim_end this (suc len) = elim (get_elem? this len) [
    | none ↦ suc len
    | some c ↦ if is_space c then trim_end this len else suc len
  ]

  -- The second loop, `n` times at most: the offset of the first byte that is no space.
  unfoldable pub trim_start : Str → ℕ → ℕ → ℕ
  trim_start this zero start = start
  trim_start this (suc n) start = elim (get_elem? this start) [
    | none ↦ start
    | some c ↦ if is_space c then trim_start this n (suc start) else start
  ]

  unfoldable pub fcn_str_trim : Str → Option Str
  unfolding trim_end trim_start
  fcn_str_trim this =
      let len = trim_end this (length this) in
      let start = trim_start this len 0 in new_string this start (len - start)
