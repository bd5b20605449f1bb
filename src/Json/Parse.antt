-- ===== src/Json/Parse.antt =====
-- `jsonParse` on a string. A literal or a number ends at a byte that is then read again, as an
-- element: the two rounds are one step here.
use javascript_database.Common.{
  ℕ, Bool, true, false, not, ◌&&◌, ◌||◌, List, [], ◌∷◌, ◌++◌, Option, none, some, length, ltb, ◌==◌,
  if◌then◌else◌,
}
use javascript_database.Props.Hash.{name_eq}
use javascript_database.Strings.{Str}
use javascript_database.Json.Values.{
  Json, undef, null, nan, bool, infinite, number, text, arr, obj, no_elements, no_members, Pair,
  append_element, closed_by,
}

-- jsonState, with the variables that are in use in it: the stack; `next` and `negative`; the bytes
-- in `buff`; and for a string what has been moved from `buff` to `next`, and `quot`.
pub data Parser : Type 0 where
  at_element : List Pair → Json → Bool → Parser
  at_literal at_number : List Pair → Str → Parser
  at_string : List Pair → Bool → Str → Str → Bool → Parser

-- A round goes on, stops with the message of an error, or reads below an empty stack.
pub data Step : Type 0 where
  go : Parser → Step
  wrong fault : Step

-- The literals, and the error for every other token.
unfoldable pub literal_value : Str → Option Json
literal_value buff =
    if name_eq buff (b'n' ∷ b'u' ∷ b'l' ∷ b'l' ∷ [])
    then some null
    else if name_eq buff (b't' ∷ b'r' ∷ b'u' ∷ b'e' ∷ [])
    then some (bool true)
    else if name_eq buff (b'N' ∷ b'a' ∷ b'N' ∷ [])
    then some nan
    else if name_eq buff (b'I' ∷ b'n' ∷ b'f' ∷ b'i' ∷ b'n' ∷ b'i' ∷ b't' ∷ b'y' ∷ [])
    then some (infinite false)
    else if name_eq buff (b'+' ∷ b'I' ∷ b'n' ∷ b'f' ∷ b'i' ∷ b'n' ∷ b'i' ∷ b't' ∷ b'y' ∷ [])
    then some (infinite false)
    else if name_eq buff (b'-' ∷ b'I' ∷ b'n' ∷ b'f' ∷ b'i' ∷ b'n' ∷ b'i' ∷ b't' ∷ b'y' ∷ [])
    then some (infinite true)
    else if name_eq buff (b'f' ∷ b'a' ∷ b'l' ∷ b's' ∷ b'e' ∷ [])
    then some (bool false)
    else none

abbrev pub is_space : ℕ → Bool
is_space ch = ch == 32 || ch == 9 || ch == 10 || ch == 13

abbrev pub is_digit : ℕ → Bool
is_digit ch = not (ltb ch b'0') && not (ltb b'9' ch)

abbrev pub is_undef : Json → Bool
is_undef undef = true
is_undef v = false

abbrev pub sign : Bool → ℕ
sign negative = if negative then b'-' else b'+'

-- A container is opened, where no element is waiting for its comma.
abbrev pub open_pair : List Pair → Json → Bool → Json → Step
open_pair stack next negative value =
    if is_undef next
    then go (at_element (record { name = none; value = value } ∷ stack) undef negative)
    else wrong

-- ':' makes the string a name.
unfoldable pub name_pair : List Pair → Json → Bool → Step
name_pair [] next negative = wrong
name_pair (pair ∷ stack) next negative = elim pair.value [
  | obj ms ↦ elim next [
    | text s ↦ go (at_element (record { name = some s; value = obj ms } ∷ stack) undef negative)
    | _ ↦ wrong
  ]
  | _ ↦ wrong
]

-- '}' and ']' close the innermost container, which becomes `next`.
unfoldable pub close_pair : List Pair → Json → Bool → ℕ → Step
close_pair [] next negative ch = wrong
close_pair (pair ∷ stack) next negative ch =
    if closed_by pair.value ch
    then if is_undef next
      then go (at_element stack pair.value negative)
      else elim (append_element pair.value pair.name next) [
        | none ↦ wrong
        | some pair' ↦ go (at_element stack pair'.value negative)
      ]
    else wrong

-- ',' appends `next` to the innermost container; with no container it reads below the stack.
unfoldable pub next_element : List Pair → Json → Bool → Step
next_element stack next negative = if is_undef next then wrong else elim stack [
  | [] ↦ fault
  | pair ∷ rest ↦ elim (append_element pair.value pair.name next) [
    | none ↦ wrong
    | some pair' ↦ go (at_element (pair' ∷ rest) undef negative)
  ]
]

-- The state jsonElement.
unfoldable pub read_element : List Pair → Json → Bool → ℕ → Step
unfolding name_pair close_pair next_element
read_element stack next negative ch =
    if is_space ch
    then go (at_element stack next negative)
    else if ch == b'-'
    then (if negative then wrong else go (at_element stack next true))
    else if is_digit ch
    then (if is_undef next then go (at_number stack (sign negative ∷ ch ∷ [])) else wrong)
    else if ch == b'"'
    then (if is_undef next then go (at_string stack negative [] [] false) else wrong)
    else if ch == b'['
    then open_pair stack next negative (arr no_elements)
    else if ch == b'{'
    then open_pair stack next negative (obj no_members)
    else if ch == b':'
    then name_pair stack next negative
    else if ch == b'}' || ch == b']'
    then close_pair stack next negative ch
    else if ch == b','
    then next_element stack next negative
    else go (at_literal stack (if negative then b'-' ∷ ch ∷ [] else ch ∷ []))

-- sizeof(buff)
abbrev pub buff_size : ℕ
buff_size = 64

-- The state jsonString, for a byte that is kept: a full buffer is moved first.
abbrev pub keep : List Pair → Bool → Str → Str → ℕ → Step
keep stack negative moved buff ch =
    if length buff == buff_size
    then go (at_string stack negative (moved ++ buff) (ch ∷ []) false)
    else go (at_string stack negative moved (buff ++ ch ∷ []) false)

-- A byte behind a backslash: those that are known keep the byte itself.
abbrev pub is_escape : ℕ → Bool
is_escape ch =
    ch == b'"'
    || ch == b'/'
    || ch == 92
    || ch == b'b'
    || ch == b'f'
    || ch == b'n'
    || ch == b'r'
    || ch == b't'

unfoldable pub read_string : List Pair → Bool → Str → Str → Bool → ℕ → Step
read_string stack negative moved buff true ch =
    if is_escape ch then keep stack negative moved buff ch else wrong
read_string stack negative moved buff false ch =
    if ch == 92
    then go (at_string stack negative moved buff true)
    else if ch == b'"'
    then go (at_element stack (text (moved ++ buff)) negative)
    else keep stack negative moved buff ch

abbrev pub leading_zero : Str → ℕ → Bool
leading_zero (s ∷ d ∷ []) ch = d == b'0' && ch == b'0'
leading_zero buff ch = false

unfoldable pub read_number : List Pair → Str → ℕ → Step
unfolding read_element
read_number stack buff ch =
    if leading_zero buff ch
    then wrong
    else if ch == b',' || ch == b'}' || ch == b']'
    then read_element stack (number buff) false ch
    else if is_digit ch || ch == b'e' || ch == b'E' || ch == b'+' || ch == b'-' || ch == b'.'
    then (if ltb (length buff) buff_size then go (at_number stack (buff ++ ch ∷ [])) else wrong)
    else wrong

-- `isalpha` of the C library is `is_alpha`.
module _ (is_alpha : ℕ → Bool) where
  unfoldable pub read_literal : List Pair → Str → ℕ → Step
  unfolding read_element literal_value
  read_literal stack buff ch =
      if is_alpha ch
      then (if ltb (length buff) buff_size then go (at_literal stack (buff ++ ch ∷ [])) else wrong)
      else elim (literal_value buff) [ none ↦ wrong | some v ↦ read_element stack v false ch ]

  unfoldable pub read : Parser → ℕ → Step
  unfolding read_element read_literal read_number read_string
  read (at_element stack next negative) ch = read_element stack next negative ch
  read (at_literal stack buff) ch = read_literal stack buff ch
  read (at_number stack buff) ch = read_number stack buff ch
  read (at_string stack negative moved buff quot) ch = read_string stack negative moved buff quot ch

  -- The end of the text, EOF: the value, or nothing for an error.
  unfoldable pub read_end : Parser → Option Json
  read_end (at_element [] next negative) = some next
  read_end (at_element (pair ∷ stack) next negative) = none
  read_end (at_literal stack buff) = none
  read_end (at_number [] buff) = some (number buff)
  read_end (at_number (pair ∷ stack) buff) = none
  read_end (at_string stack negative moved buff quot) = none

  -- A read below the stack is nothing too.
  unfoldable pub run : Parser → Str → Option Json
  unfolding read read_end
  run p [] = read_end p
  run p (ch ∷ rest) = elim (read p ch) [ go p' ↦ run p' rest | wrong ↦ none | fault ↦ none ]

  unfoldable pub json_parse : Str → Option Json
  unfolding run
  json_parse str = run (at_element [] undef false) str
