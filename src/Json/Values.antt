-- ===== src/Json/Values.antt =====
-- The values that a JSON text stands for, and the containers under construction.
use javascript_database.Common.{ℕ, Bool, true, Option, none, some, if◌then◌else◌, ◌==◌}
use javascript_database.Props.Hash.{name_eq}
use javascript_database.Strings.{Str}

mutual
  -- `number` is what `js_strtod` gives for the bytes; `undef` is a `next` that is still empty.
  pub data Json : Type 0 where
    undef null nan : Json
    bool infinite : Bool → Json
    number text : Str → Json
    arr : Elements → Json
    obj : Members → Json

  pub data Elements : Type 0 where
    no_elements : Elements
    element : Json → Elements → Elements

  pub data Members : Type 0 where
    no_members : Members
    member : Str → Json → Members → Members

-- A pair_t of the stack: the name that is read, if any, and the container.
pub record Pair : Type 0 where
  pub name : Option Str
  pub value : Json

-- `vec_push` on the array.
abbrev pub push_element : Elements → Json → Elements
push_element no_elements v = element v no_elements
push_element (element w r) v = element w (push_element r v)

-- `replaceValue(lookup(...))`: the member of the name, or a new one at the end.
abbrev pub set_member : Members → Str → Json → Members
set_member no_members name v = member name v no_members
set_member (member key w r) name v =
    if name_eq key name then member key v r else member key w (set_member r name v)

-- `appendElement`: the pair afterwards, or nothing for its message.
unfoldable pub append_element : Json → Option Str → Json → Option Pair
append_element (arr xs) name v = some (record { name = name; value = arr (push_element xs v) })
append_element (obj ms) (some name) v =
    some (record { name = none; value = obj (set_member ms name v) })
append_element (obj ms) none v = none
append_element undef name v = none
append_element null name v = none
append_element nan name v = none
append_element (bool b) name v = none
append_element (infinite b) name v = none
append_element (number s) name v = none
append_element (text s) name v = none

-- Whether a container is closed by the byte.
abbrev pub closed_by : Json → ℕ → Bool
closed_by (arr xs) ch = ch == b']'
closed_by (obj ms) ch = ch == b'}'
closed_by v ch = true
