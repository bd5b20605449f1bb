-- ===== src/Tests/Rows.antt =====
-- Arrays for the methods of js_object.c.
use javascript_database.Common.{ℕ, ◌≡◌, refl, some, List, [], ◌∷◌, arith}
use javascript_database.Common.Int.{pos}
use javascript_database.Vector.{vec_grow, grow_cap}
use javascript_database.Strings.{Str, Arg}
use javascript_database.Strings.Split.{fcn_str_split}
use javascript_database.Strings.Cut.{int_arg}
use javascript_database.Arrays.{Part, array, single, fcn_array_slice, fcn_array_join, read_all}
use javascript_database.Arrays.Join.{fcn_array_join-fcn_str_split}

abbrev parts : List (Part ℕ)
parts = array (3 ∷ 4 ∷ []) ∷ single 5 ∷ []

sliced :
    fcn_array_slice {V = ℕ} (int_arg [] (pos 0) ∷ int_arg [] (pos 2) ∷ []) (7 ∷ 8 ∷ 9 ∷ [])
    ≡ some (some (record { cap = 10; items = [] }))
unfolding fcn_array_slice read_all vec_grow grow_cap
sliced = refl

-- "a,b"
abbrev a_b : Str
a_b = b'a' ∷ b',' ∷ b'b' ∷ []

abbrev comma : Arg
comma = int_arg (b',' ∷ []) (pos 0)

fcn_array_join-fcn_str_split_example :
    (pieces : List Str) × (fcn_str_split (comma ∷ []) a_b ≡ some pieces)
    × (fcn_array_join (comma ∷ []) pieces ≡ a_b)
fcn_array_join-fcn_str_split_example =
    fcn_array_join-fcn_str_split comma [] a_b (omega arith) (omega arith)
