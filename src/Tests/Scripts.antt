-- ===== src/Tests/Scripts.antt =====
-- Nodes of programs and keys of indexes.
use javascript_database.Common.{ℕ, ◌≡◌, refl, false, some, List, [], ◌∷◌, ◌++◌, arith}
use javascript_database.Common.Int.{pos}
use javascript_database.Nodes.Table.{ParseData}
use javascript_database.Nodes.Literals.{conv_lit, count_pass, copy_pass, new_str_node}
use javascript_database.Nodes.Decode.{Piece, byte, escaped}
use javascript_database.Keys.Options.{colon_at, text, key_options}
use javascript_database.Keys.Fields.{options_of, key_options-join}
use javascript_database.Keys.Encode.{SourceType, Source, key_fld}
use javascript_database.Keys.Order.{lex, then_by, field_order, key_fld-lex}

abbrev small_table : ParseData
small_table = record { table_size = 4; table_next = 3; line_no = 1 }

-- a, an escaped n, and b
abbrev pieces : List Piece
pieces = byte b'a' ∷ escaped b'n' ∷ byte b'b' ∷ []

-- Two bytes behind a backslash each: the second one is not counted.
cut_runs :
    new_str_node (b'a' ∷ 92 ∷ 92 ∷ b'b' ∷ b'"' ∷ [])
    ≡ record { len = 2; stored = b'a' ∷ 92 ∷ []; lines = 0 }
unfolding new_str_node count_pass copy_pass conv_lit
cut_runs = refl

key_options-join_example :
    key_options (text (b'r' ∷ b'e' ∷ b'v' ∷ b':' ∷ b'i' ∷ b'n' ∷ b't' ∷ []))
    ≡ some (options_of 0 ((b'r' ∷ b'e' ∷ b'v' ∷ []) ∷ (b'i' ∷ b'n' ∷ b't' ∷ []) ∷ []))
unfolding colon_at
key_options-join_example =
    key_options-join (b'r' ∷ b'e' ∷ b'v' ∷ []) ((b'i' ∷ b'n' ∷ b't' ∷ []) ∷ [])
      ((omega arith, refl), ((omega arith, refl), tt))

abbrev source_of : List ℕ → Source
source_of str = record {
  type = SourceType.string;
  nval = pos 0;
  dbl_bits = pos 0;
  boolean = false;
  str = str;
}

key_fld-lex_example :
    (k l : List ℕ) × (key_fld (λ z. []) false 100 20 (source_of (b'a' ∷ [])) ≡ (some k, 20))
    × (key_fld (λ z. []) false 100 20 (source_of (b'a' ∷ b'b' ∷ [])) ≡ (some l, 20))
    × (lex (k ++ 7 ∷ []) (l ++ 5 ∷ [])
        ≡ then_by (field_order 20 (b'a' ∷ []) (b'a' ∷ b'b' ∷ [])) (lex (7 ∷ []) (5 ∷ [])))
key_fld-lex_example =
    key_fld-lex (λ z. []) 100 20 (source_of (b'a' ∷ [])) (source_of (b'a' ∷ b'b' ∷ [])) (7 ∷ [])
      (5 ∷ []) refl (omega arith, omega arith) (omega arith, omega arith, tt)
      (omega arith, omega arith, (omega arith, omega arith, tt))
