-- ===== src/Strings/Slice.antt =====
-- The methods that cut a string by offsets, and those that build one. Sums of an int64_t are taken
-- over all integers; the casts to int are written out.
use javascript_database.Common.{
  ℕ, zero, suc, ◌-◌, false, Option, none, some, List, [], ◌∷◌, ◌++◌, map, length, get_elem?, ltb,
  if◌then◌else◌,
}
use javascript_database.Common.Int.{ℤ, pos, negsuc, ◌+ℤ◌, ltb_ℤ}
use javascript_database.Strings.{Str, Number, Arg, int, new_string}
use javascript_database.Strings.Search.{second, clamp_low, to_int}

-- What a method returns: a string, a number, undefined, or NaN; or it reads outside the string.
pub data Cut : Type 0 where
  text : Str → Cut
  code : ℕ → Cut
  undefined nan fault : Cut

abbrev pub text_or : Option Str → Cut
text_or none = fault
text_or (some s) = text s

-- `newString(thisstr->val + off, len)` at an offset of either sign.
unfoldable pub new_cut : Str → ℤ → ℕ → Cut
new_cut this (pos off) len = text_or (new_string this off len)
new_cut this (negsuc off) len = fault

-- `args[0]`, or else the given default.
abbrev pub first : List Arg → Number → Number
first [] d = d
first (a ∷ args) d = a.num

abbrev pub neg : ℤ → ℤ
neg (pos zero) = pos 0
neg (pos (suc n)) = negsuc n
neg (negsuc n) = pos (suc n)

-- An offset brought between 0 and the length.
abbrev pub clamp : ℤ → ℕ → ℕ
clamp z len = let n = clamp_low z in if ltb len n then len else n

unfoldable pub fcn_str_substring : List Arg → Str → Cut
fcn_str_substring args this =
    let off = first args (int (pos 0)) in
    let end = second args (int (pos (length this))) in
    let a = clamp off.nval (length this) in
    let b = clamp end.nval (length this) in
    if off.is_int
    then if ltb a b
      then text_or (new_string this a (b - a))
      else if ltb b a
      then text_or (new_string this b (a - b))
      else text []
    else undefined

-- thisstr->len - off.nval
abbrev pub left_over : Str → ℤ → ℤ
left_over this off = pos (length this) +ℤ neg off

-- The `count` bytes from an offset on, where there are any.
abbrev pub slice_cut : Str → ℤ → ℤ → Cut
slice_cut this start (pos (suc n)) = new_cut this start (suc n)
slice_cut this start (pos zero) = text []
slice_cut this start (negsuc n) = text []

abbrev pub substr_count : ℤ → Number → ℤ
substr_count left given =
    if given.is_int then (if ltb_ℤ left given.nval then left else given.nval) else left

abbrev pub from_end : ℤ → ℕ → ℤ
from_end (pos n) len = pos n
from_end (negsuc n) len = negsuc n +ℤ pos len

unfoldable pub fcn_str_substr : List Arg → Str → Cut
unfolding new_cut
fcn_str_substr [] this = text this
fcn_str_substr (a ∷ args) this =
    let off = from_end a.num.nval (length this) in
    let given = second (a ∷ args) (record { is_int = false; nval = pos 0 }) in
    if a.num.is_int then slice_cut this off (substr_count (left_over this off) given) else text this

-- The end of `slice`.
abbrev pub slice_end : ℤ → ℕ → ℤ
slice_end end len =
    let e = (if ltb_ℤ end (pos 0) then end +ℤ pos len else end) in
    if ltb_ℤ (pos len) e
    then pos len
    else elim e [ pos zero ↦ pos len | pos (suc n) ↦ pos (suc n) | negsuc n ↦ negsuc n ]

unfoldable pub fcn_str_slice : List Arg → Str → Cut
unfolding new_cut to_int
fcn_str_slice args this =
    let slice = first args (int (pos 0)) in
    let end = slice_end (second args (int (pos (length this)))).nval (length this) in
    elim (if slice.is_int then slice.nval else pos 0) [
      | negsuc n ↦
          slice_cut this (to_int (negsuc n) +ℤ to_int (pos (length this))) (to_int (pos (suc n)))
      | pos n ↦ slice_cut this (to_int (pos n)) (to_int end +ℤ neg (to_int (pos n)))
    ]

-- The terminator stands at the index `length this`.
unfoldable pub fcn_str_char_code_at : List Arg → Str → Cut
fcn_str_char_code_at args this =
    let idx = first args (int (pos 0)) in
    elim (if idx.is_int then idx.nval else pos 0) [
      | negsuc n ↦ nan
      | pos n ↦
          if ltb (length this) n
          then nan
          else elim (get_elem? (this ++ 0 ∷ []) n) [ none ↦ fault | some c ↦ code c ]
    ]

-- Only a call without an argument has an index of type vt_undef.
unfoldable pub fcn_str_char_at : List Arg → Str → Cut
unfolding new_cut
fcn_str_char_at args this =
    let idx = first args (int (pos 0)) in
    if idx.is_int
    then if ltb_ℤ idx.nval (pos (length this)) then new_cut this idx.nval 1 else text []
    else text []

-- `toupper` or `tolower` of the C library is `letter`.
abbrev pub fcn_str_to_case : (ℕ → ℕ) → Str → Str
fcn_str_to_case letter this = map letter this

unfoldable pub fcn_str_concat : List Arg → Str → Str
fcn_str_concat [] this = this
fcn_str_concat (a ∷ args) this = fcn_str_concat args (this ++ a.str)

-- `while (idx < count.nval)`, in which `idx` stays 0: nothing is a loop that is still running.
unfoldable pub repeat_loop : ℕ → ℤ → Str → Str → Option Str
repeat_loop zero count this val = none
repeat_loop (suc fuel) count this val =
    if ltb_ℤ (pos 0) count then repeat_loop fuel count this (val ++ this) else some val

unfoldable pub fcn_str_repeat : ℕ → List Arg → Str → Option Str
unfolding repeat_loop
fcn_str_repeat fuel args this = repeat_loop fuel (first args (int (pos 0))).nval this []
