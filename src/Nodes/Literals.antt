-- ===== src/Nodes/Literals.antt =====
-- `convLit` and `newStrNode`: the node of a string literal, from its text with the quotes.
use javascript_database.Common.{
  ℕ, zero, suc, ◌+◌, ◌-◌, ◌%◌, Bool, true, false, List, [], ◌∷◌, length, ◌==◌, ◌||◌, if◌then◌else◌,
}
use javascript_database.Vector.{word_mod}

unfoldable pub conv_lit : ℕ → ℕ
conv_lit quoted =
    if quoted == 10
    then 0
    else if quoted == 13
    then 0
    else if quoted == b'f'
    then 12
    else if quoted == b'r'
    then 13
    else if quoted == b'n'
    then 10
    else if quoted == b't'
    then 9
    else if quoted == b'b'
    then 8
    else quoted

-- The first pass, over the text behind the opening quote: the bytes that it counts, and the lines.
unfoldable pub count_pass : List ℕ → ℕ × ℕ
count_pass [] = (0, 0)
count_pass (c ∷ text) =
    let (len, lines) = count_pass text in
    if c == 92
    then (len, lines)
    else if c == 10
    then (len, lines + 1)
    else if c == 13
    then (len, lines)
    else (len + 1, lines)

-- The second pass, while idx < max (`left` more bytes) and off < len (`room` more): the bytes that
-- it stores. Behind a backslash (`quoted`) the next byte is read without a test.
unfoldable pub copy_pass : List ℕ → Bool → ℕ → ℕ → List ℕ
copy_pass [] quoted left room = []
copy_pass (c ∷ text) true left room = elim (conv_lit c) [
  | zero ↦ copy_pass text false (left - 1) room
  | suc v ↦ suc v ∷ copy_pass text false (left - 1) (room - 1)
]
copy_pass (c ∷ text) false zero room = []
copy_pass (c ∷ text) false (suc left) zero = []
copy_pass (c ∷ text) false (suc left) (suc room) =
    if c == 92
    then copy_pass text true left (suc room)
    else if c == 10 || c == 13
    then copy_pass text false left (suc room)
    else c ∷ copy_pass text false left room

-- What the node holds: the length that is set, and the bytes that are stored.
pub record StrNode : Type 0 where
  pub len : ℕ
  pub stored : List ℕ
  pub lines : ℕ

-- The text behind the opening quote, with the closing one.
unfoldable pub new_str_node : List ℕ → StrNode
unfolding count_pass copy_pass
new_str_node text =
    let (cnt, lines) = count_pass text in
    let len = (cnt + word_mod - 1) % word_mod in
    record { len = len; stored = copy_pass text false (length text - 1) len; lines = lines }
