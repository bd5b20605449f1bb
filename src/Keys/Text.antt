-- ===== src/Keys/Text.antt =====
-- `toHex` and `fcnKeyToString`: a key as hexadecimal bytes with points between them.
use Prim.Native.Nat.{bit_or}
use javascript_database.Common.{
  ℕ, zero, suc, ◌+◌, ◌-◌, ◌*◌, ◌/◌, ◌%◌, ◌<◌, Bool, true, List, [], ◌∷◌, length, ltb, ◌&&◌,
  if◌then◌else◌,
}
use javascript_database.Vector.{word_mod}

unfoldable pub to_hex : ℕ → ℕ
to_hex ch = if ltb ch 10 then bit_or ch 48 else 65 - 10 + ch

-- The loop, three bytes for one.
unfoldable pub hex_bytes : List ℕ → List ℕ
unfolding to_hex
hex_bytes [] = []
hex_bytes (ch ∷ key) = to_hex (ch / 16) ∷ to_hex (ch % 16) ∷ b'.' ∷ hex_bytes key

-- The `len` of the string that is made, and the bytes that are written to it, but for the terminator
-- behind its room.
unfoldable pub fcn_key_to_string : List ℕ → ℕ × List ℕ
unfolding hex_bytes
fcn_key_to_string key = ((length key * 3 % word_mod + word_mod - 1) % word_mod, hex_bytes key)

-- The key that a text of hexadecimal bytes stands for.
abbrev pub hex_value : ℕ → ℕ
hex_value c = if ltb c b'A' then c - 48 else c - 55

abbrev pub read_key : List ℕ → List ℕ
read_key [] = []
read_key (h ∷ []) = []
read_key (h ∷ l ∷ []) = (hex_value h * 16 + hex_value l) ∷ []
read_key (h ∷ l ∷ point ∷ text) = (hex_value h * 16 + hex_value l) ∷ read_key text

abbrev pub AreBytes : List ℕ → Type 0
AreBytes [] = Unit {0}
AreBytes (ch ∷ key) = (ch < 256) × AreBytes key

-- A test of all numbers below a bound, by evaluation.
all_below : ℕ → (ℕ → Bool) → Bool
all_below zero p = true
all_below (suc n) p = p n && all_below n p
