-- ===== src/Math/Values.antt =====
-- value_t, for the values that need no reference, and the fields of its union.
use javascript_database.Common.{ℕ, ◌+◌, ◌%◌, Bool, Option, none, some, List, leb, if◌then◌else◌}

-- An int64_t is kept as its 64 bits.
abbrev pub long_mod : ℕ
long_mod = 18_446_744_073_709_551_616

abbrev pub long_min : ℕ
long_min = 9_223_372_036_854_775_808

abbrev pub is_neg : ℕ → Bool
is_neg n = leb long_min n

-- The bits with the sign turned over, which are in the order of the signed numbers.
abbrev pub biased : ℕ → ℕ
biased n = (n + long_min) % long_mod

-- What the code uses of the type double. `bits` and `of_bits` read the same 64 bits as the other
-- type, and `to_int` is the conversion to int64_t.
pub record Doubles (F : Type 0) : Type 0 where
  pub zero : F
  pub of_int : ℕ → F
  pub to_int : F → ℕ
  pub bits : F → ℕ
  pub of_bits : ℕ → F
  -- The bits of the nearest float, and the double of the bits of a float.
  pub to_single : F → ℕ
  pub of_single : ℕ → F
  pub add : F → F → F
  pub sub : F → F → F
  pub mpy : F → F → F
  pub div : F → F → F
  pub neg : F → F
  pub floor : F → F
  pub lt : F → F → Bool
  pub le : F → F → Bool
  pub eq : F → F → Bool

pub data Ctl : Type 0 where
  ctl_none ctl_return ctl_continue ctl_break ctl_error ctl_throw ctl_delete : Ctl

-- The slots of a frame, and those of a scope.
pub data Slot : Type 0 where
  frame scope : ℕ → Slot

pub data Value (F : Type 0) : Type 0 where
  undef nan null : Value F
  bool : Bool → Value F
  int : ℕ → Value F
  dbl : F → Value F
  date : ℕ → Value F
  infinite : Bool → Value F
  string : List ℕ → Value F
  control : Ctl → Value F
  lval : Slot → Value F

abbrev pub vt_number : ℕ
vt_number = 6

-- The place of a type in valuetype_t.
abbrev pub type_of : {F : Type 0} → Value F → ℕ
type_of undef = 0
type_of (bool b) = 1
type_of (int n) = 2
type_of (dbl f) = 3
type_of (date n) = 4
type_of (infinite negative) = 5
type_of (string s) = 7
type_of nan = 8
type_of null = 9
type_of (control ctl) = 12
type_of (lval slot) = 18

abbrev pub bit : Bool → ℕ
bit b = if b then 1 else 0

module _ {F : Type 0} (doubles : Doubles F) where
  -- The field nval; nothing where it has not been set, or is an address.
  abbrev pub nval_of : Value F → Option ℕ
  nval_of (bool b) = some (bit b)
  nval_of (int n) = some n
  nval_of (dbl f) = some (doubles.bits f)
  nval_of (date n) = some n
  nval_of (infinite negative) = some (bit negative)
  nval_of _ = none

  -- The field dbl.
  abbrev pub dbl_of : Value F → Option F
  dbl_of (dbl f) = some f
  dbl_of v = elim (nval_of v) [ none ↦ none | some n ↦ some (doubles.of_bits n) ]
