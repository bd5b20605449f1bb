-- ===== src/Arrays/Join.antt =====
-- `join` of arrays as the other way of `split` of strings.
use javascript_database.Common.{◌<◌, ◌≡◌, refl, sym, ap, ◌∙◌, some, List, [], ◌∷◌, ◌++◌, length}
use javascript_database.Strings.{Str, Arg}
use javascript_database.Strings.Find.{Fits, append_assoc}
use javascript_database.Strings.Split.{fcn_str_split}
use javascript_database.Strings.Joined.{join, fcn_str_split-join}
use javascript_database.Arrays.{join_loop, fcn_array_join}

append_nil : (s : Str) → s ++ [] ≡ s
append_nil [] = refl
append_nil (x ∷ s) = ap (λ r. x ∷ r) (append_nil s)

join_loop-join :
    (val delim : Str) (values : List Str) → join_loop val delim values ≡ val ++ join delim values
unfolding join_loop
join_loop-join val delim [] = sym (append_nil val)
join_loop-join val delim (s ∷ []) = refl
join_loop-join val delim (s ∷ t ∷ rest) =
    join_loop-join ((val ++ s) ++ delim) delim (t ∷ rest)
    ∙ append_assoc (val ++ s) delim (join delim (t ∷ rest))
    ∙ append_assoc val s (delim ++ join delim (t ∷ rest))

-- The pieces that `split` with one argument gives are joined to the string again by `join` with
-- the same argument, where the string is shorter than 2 ^ 20 and the delimiter no longer than the
-- string.
pub fcn_array_join-fcn_str_split :
    (a : Arg) (args : List Arg) (this : Str)
    → Fits this a.str
    → length this < 1_048_576
    → (pieces : List Str) × (fcn_str_split (a ∷ []) this ≡ some pieces)
      × (fcn_array_join (a ∷ args) pieces ≡ this)
unfolding fcn_array_join
fcn_array_join-fcn_str_split a args this h l =
    let (pieces, e, whole) = fcn_str_split-join a this h l in
    (pieces, e, join_loop-join [] a.str pieces ∙ whole)
