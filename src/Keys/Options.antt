-- ===== src/Keys/Options.antt =====
-- `type_cmp`, `eval_option` and `key_options`.
use Prim.Native.Nat.{bit_or}
use javascript_database.Common.{
  ℕ, zero, suc, ◌+◌, ◌-◌, Bool, Option, none, some, List, [], ◌∷◌, length, take, drop, ltb, ◌==◌,
  if◌then◌else◌,
}
use javascript_database.Props.Hash.{name_eq}

-- The bits of a field's type; the low three are its kind.
abbrev pub key_bool : ℕ
key_bool = 1

abbrev pub key_int : ℕ
key_int = 2

abbrev pub key_dbl : ℕ
key_dbl = 3

abbrev pub key_str : ℕ
key_str = 4

abbrev pub key_first : ℕ
key_first = 8

abbrev pub key_reverse : ℕ
key_reverse = 16

-- `strlen(val) == amt`, and the same bytes.
abbrev pub type_cmp : List ℕ → List ℕ → Bool
type_cmp type val = name_eq type val

unfoldable pub eval_option : List ℕ → ℕ
eval_option opt =
    if type_cmp opt (b'f' ∷ b'w' ∷ b'd' ∷ [])
    then 0
    else if type_cmp opt (b'r' ∷ b'e' ∷ b'v' ∷ [])
    then key_reverse
    else if type_cmp opt (b'i' ∷ b'n' ∷ b't' ∷ [])
    then key_int
    else if type_cmp opt (b'd' ∷ b'b' ∷ b'l' ∷ [])
    then key_dbl
    else if type_cmp opt (b'b' ∷ b'o' ∷ b'o' ∷ b'l' ∷ [])
    then key_bool
    else if type_cmp opt (b's' ∷ b't' ∷ b'r' ∷ b'i' ∷ b'n' ∷ b'g' ∷ [])
    then key_str
    else 0

-- The loop for the next colon: its index, or the length.
unfoldable pub colon_at : List ℕ → ℕ
colon_at [] = 0
colon_at (c ∷ opt) = if c == b':' then 0 else suc (colon_at opt)

-- The loop over the options, `do ... while ((len -= amt))`; nothing is a loop that has not ended.
unfoldable pub option_loop : ℕ → List ℕ → ℕ → Option ℕ
unfolding colon_at eval_option
option_loop zero opt val = none
option_loop (suc fuel) opt val =
    let amt = colon_at opt in
    let val' = bit_or val (eval_option (take amt opt)) in
    let amt' = (if ltb amt (length opt) then amt + 1 else amt) in
    if length opt - amt' == 0 then some val' else option_loop fuel (drop amt' opt) val'

-- The value of a key field's name: a number, of which it matters whether it is positive; a string;
-- or another value.
pub data KeyOption : Type 0 where
  number : Bool → KeyOption
  text : List ℕ → KeyOption
  other : KeyOption

unfoldable pub key_options : KeyOption → Option ℕ
unfolding option_loop
key_options (number positive) =
    if positive then some key_first else some (bit_or key_first key_reverse)
key_options (text []) = some key_first
key_options (text (c ∷ opt)) = option_loop (length (c ∷ opt)) (c ∷ opt) 0
key_options other = some key_first
