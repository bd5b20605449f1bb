-- ===== src/Nodes/Decode.antt =====
-- String literals as sequences of bytes and escapes.
use javascript_database.Common.{ℕ, ◌+◌, ◌≢◌, List, [], ◌∷◌, ◌++◌, ◌==◌, ◌||◌, if◌then◌else◌}
use javascript_database.Nodes.Literals.{conv_lit}

-- A byte as it stands, or a byte behind a backslash.
pub data Piece : Type 0 where
  byte escaped : ℕ → Piece

abbrev pub render : List Piece → List ℕ
render [] = []
render (byte c ∷ ps) = c ∷ render ps
render (escaped d ∷ ps) = 92 ∷ d ∷ render ps

-- The bytes that the pieces stand for: ends of lines are left out.
abbrev pub value_of : Piece → List ℕ
value_of (byte c) = if c == 10 || c == 13 then [] else c ∷ []
value_of (escaped d) = if conv_lit d == 0 then [] else conv_lit d ∷ []

abbrev pub decode : List Piece → List ℕ
decode [] = []
decode (p ∷ ps) = value_of p ++ decode ps

abbrev pub line_ends : List Piece → ℕ
line_ends [] = 0
line_ends (byte c ∷ ps) = (if c == 10 then 1 else 0) + line_ends ps
line_ends (escaped d ∷ ps) = (if d == 10 then 1 else 0) + line_ends ps

-- No backslash stands alone, or behind another, and no NUL is escaped.
abbrev pub IsLiteral : List Piece → Type 0
IsLiteral [] = Unit {0}
IsLiteral (byte c ∷ ps) = (c ≢ 92) × IsLiteral ps
IsLiteral (escaped d ∷ ps) = (d ≢ 92) × (d ≢ 0) × IsLiteral ps
