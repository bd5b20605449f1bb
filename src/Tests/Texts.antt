-- ===== src/Tests/Texts.antt =====
-- Strings for the methods of js_string.c.
use javascript_database.Common.{ℕ, zero, suc, ◌<◌, ◌≡◌, refl, some, List, [], ◌∷◌, arith}
use javascript_database.Common.Int.{pos}
use javascript_database.Props.Hash.{name_eq}
use javascript_database.Strings.{Str, Arg, memcmp_eq}
use javascript_database.Strings.Search.{fault, fcn_str_index_of, fcn_str_includes}
use javascript_database.Strings.Find.{
  Occurs, Occurs-memcmp_eq, IsFirst, fcn_str_index_of-IsFirst, fcn_str_index_of-longer,
}
use javascript_database.Strings.Replace.{fcn_str_replace_all}
use javascript_database.Strings.Replaced.{Replaces, fcn_str_replace_all-Replaces}
use javascript_database.Strings.Split.{fcn_str_split}
use javascript_database.Strings.Joined.{join, fcn_str_split-join}
use javascript_database.Strings.Cut.{int_arg}

abbrev ab : Str
ab = b'a' ∷ b'b' ∷ []

-- "xabyabz"
abbrev xabyabz : Str
xabyabz = b'x' ∷ b'a' ∷ b'b' ∷ b'y' ∷ b'a' ∷ b'b' ∷ b'z' ∷ []

abbrev arg_ab : Arg
arg_ab = int_arg ab (pos 0)

abbrev arg_q : Arg
arg_q = int_arg (b'q' ∷ []) (pos 0)

fcn_str_index_of-IsFirst_example : IsFirst xabyabz ab 0 5 (fcn_str_index_of (arg_ab ∷ []) xabyabz)
fcn_str_index_of-IsFirst_example = fcn_str_index_of-IsFirst arg_ab [] xabyabz (omega arith) refl

fcn_str_index_of-longer_example :
    (fcn_str_index_of (int_arg xabyabz (pos 0) ∷ []) ab ≡ fault)
    × (fcn_str_includes (int_arg xabyabz (pos 0) ∷ []) ab ≡ fault)
fcn_str_index_of-longer_example = fcn_str_index_of-longer (int_arg xabyabz (pos 0)) ab (omega arith)

Occurs-xabyabz : Occurs xabyabz ab 1
Occurs-xabyabz = (b'x' ∷ [], b'y' ∷ b'a' ∷ b'b' ∷ b'z' ∷ [], refl, refl)

not_at_0 : (j : ℕ) → j < 1 → ¬ (Occurs xabyabz ab j)
unfolding memcmp_eq name_eq
not_at_0 zero h o = let e = Occurs-memcmp_eq xabyabz ab 0 (omega arith) o in cc
not_at_0 (suc j) h o = absurd (omega arith)

fcn_str_replace_all-Replaces_example :
    (out : Str) × (fcn_str_replace_all (arg_ab ∷ arg_q ∷ []) xabyabz ≡ some out)
    × Replaces ab (b'q' ∷ []) xabyabz out
fcn_str_replace_all-Replaces_example =
    fcn_str_replace_all-Replaces arg_ab (arg_q ∷ []) xabyabz (omega arith) (omega arith)

-- "xabyabz".replace("ab", "q") is "xqy".
fcn_str_split-join_example :
    (pieces : List Str) × (fcn_str_split (arg_ab ∷ []) xabyabz ≡ some pieces)
    × (join ab pieces ≡ xabyabz)
fcn_str_split-join_example = fcn_str_split-join arg_ab xabyabz (omega arith) (omega arith)

-- "  a " without its spaces.
abbrev spaced : Str
spaced = b' ' ∷ b' ' ∷ b'a' ∷ b' ' ∷ []
