-- ===== src/Strings.antt =====
-- js_string.c: the methods of strings. Here are the arguments of a method and what the methods share.
pub mod Search
pub mod Find
pub mod Replace
pub mod Replaced
pub mod Split
pub mod Joined
pub mod Slice
pub mod Cut
pub mod Offsets
pub mod First
pub mod Ends
use javascript_database.Common.{
  ℕ, zero, suc, ◌+◌, ◌-◌, ◌%◌, Bool, Option, none, some, List, [], ◌∷◌, ◌++◌, length, take, drop,
  leb, if◌then◌else◌,
}
use javascript_database.Common.Int.{ℤ, pos, negsuc}
use javascript_database.Vector.{word_mod}
use javascript_database.Props.Hash.{name_eq}

-- The bytes `val[0]` to `val[len - 1]` of a string_t.
abbrev pub Str : Type 0
Str = List ℕ

-- What `conv2Int` returns: whether its type is vt_int, and its nval.
pub record Number : Type 0 where
  pub is_int : Bool
  pub nval : ℤ

-- An argument of a method: what `conv2Str` and `conv2Int` return for it.
pub record Arg : Type 0 where
  pub str : Str
  pub num : Number

abbrev pub int : ℤ → Number
int z = record { is_int = Bool.true; nval = z }

-- `memcmp(this->val + off, pat->val, pat->len) == 0`, and nothing where that reads past the
-- terminator.
unfoldable pub memcmp_eq : Str → ℕ → Str → Option Bool
memcmp_eq this off pat =
    if leb (off + length pat) (length this + 1)
    then some (name_eq (take (length pat) (drop off (this ++ 0 ∷ []))) pat)
    else none

-- `newString(this->val + off, len)`, and nothing where that reads past the terminator.
unfoldable pub new_string : Str → ℕ → ℕ → Option Str
new_string this off len =
    if leb (off + len) (length this + 1) then some (take len (drop off (this ++ 0 ∷ []))) else none

-- The difference of two uint32_t.
abbrev pub sub_word : ℕ → ℕ → ℕ
sub_word a b = (a + word_mod - b) % word_mod
