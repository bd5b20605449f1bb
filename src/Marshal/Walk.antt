-- ===== src/Marshal/Walk.antt =====
-- The loops of `calcSize` and `marshalDoc`, with `fullClone` set, as both callers set it. The model
-- of `marshalDoc` keeps the offset, and not the bytes that it writes below the offset.
use javascript_database.Common.{
  ℕ, zero, suc, ◌+◌, ◌-◌, ◌*◌, ◌%◌, Bool, true, false, List, [], ◌∷◌, ltb, ◌==◌, if◌then◌else◌,
  length,
}
use javascript_database.Vector.{word_mod}
use javascript_database.Props.Hash.{hash_mod, hash_bytes}
use javascript_database.Marshal.Values.{
  string, key, md5, uuid, Value, immediate, text, document, stored, arr, obj, Items, nil, cons,
  Fields, end, field, items_cnt, fields_cnt, drop_items, drop_fields,
}

-- sizeof of value_t, pair_t, and of dbarray_t, dbobject_t and string_t, whose arrays have no length
abbrev pub value_size : ℕ
value_size = 16

abbrev pub pair_size : ℕ
pair_size = 32

abbrev pub header_size : ℕ
header_size = 4

-- The structure of an array, without its elements.
unfoldable pub array_size : ℕ → ℕ
array_size cnt = header_size + cnt * value_size

-- The structure of an object with its hash table.
unfoldable pub object_size : ℕ → ℕ
object_size cnt = header_size + cnt * pair_size + hash_mod cnt * hash_bytes cnt % word_mod

-- What `marshalString` returns: the bytes, the length, and the terminator.
unfoldable pub string_size : List ℕ → ℕ
string_size str = length str + header_size + 1

-- `obj[depth - 1]` and `idx[depth]`.
pub record Frame : Type 0 where
  pub top : Value
  pub idx : ℕ

-- `depth` is the number of frames, the innermost first. `size` is `docSize`, or `offset`.
pub record State : Type 0 where
  pub stack : List Frame
  pub size : ℕ

-- A step goes on, calls `exit`, writes past the end of the array `idx`, or reads at an address that
-- is NULL and an offset.
pub data Next : Type 0 where
  go : State → Next
  exits overrun faults : Next

abbrev pub grow : State → ℕ → State
grow s n = record s { size = (s.size + n) % word_mod }

abbrev pub push : State → Value → State
push s v = record s { stack = record { top = v; idx = 0 } ∷ s.stack }

-- `idx[++depth] = 0`, where `idx` has 1024 elements.
unfoldable pub calc_enter : Value → State → Next
calc_enter v s = if ltb (length s.stack + 1) 1024 then go (push s v) else overrun

-- The switch of `calcSize`. A vt_key takes the default, which adds nothing.
unfoldable pub calc_visit : Value → State → Next
unfolding calc_enter
calc_visit immediate s = go s
calc_visit (text string str) s = go (grow s (string_size str))
calc_visit (text md5 str) s = go (grow s (string_size str))
calc_visit (text uuid str) s = go (grow s (string_size str))
calc_visit (text key str) s = go s
calc_visit document s = calc_enter stored s
calc_visit stored s = calc_enter stored s
calc_visit (arr xs) s = calc_enter (arr xs) s
calc_visit (obj ps) s = calc_enter (obj ps) s

-- `if (depth > 63) exit(1)`, then `idx[++depth] = 0`, where `idx` has 64 elements.
unfoldable pub marshal_enter : Value → State → Next
marshal_enter v s =
    if ltb 63 (length s.stack)
    then exits
    else if ltb (length s.stack + 1) 64
    then go (push s v)
    else overrun

-- The switch of `marshalDoc`.
unfoldable pub marshal_visit : Value → State → Next
unfolding marshal_enter
marshal_visit immediate s = go s
marshal_visit (text kind str) s = go (grow s (string_size str))
marshal_visit document s = marshal_enter stored s
marshal_visit stored s = marshal_enter stored s
marshal_visit (arr xs) s = marshal_enter (arr xs) s
marshal_visit (obj ps) s = marshal_enter (obj ps) s

module _ (visit : Value → State → Next) where
  -- What is left of the array after the structure has been counted: the next element, or the end.
  unfoldable pub array_next : Items → Items → ℕ → List Frame → ℕ → Next
  array_next nil xs i rest size = go (record { stack = rest; size = size })
  array_next (cons v r) xs i rest size =
      visit v (record { stack = record { top = arr xs; idx = suc i } ∷ rest; size = size })

  unfoldable pub object_next : Fields → Fields → ℕ → List Frame → ℕ → Next
  object_next end ps i rest size = go (record { stack = rest; size = size })
  object_next (field name v r) ps i rest size = visit v (record {
    stack = record { top = obj ps; idx = suc i } ∷ rest;
    size = (size + string_size name) % word_mod;
  })

  -- One round of the loop, on the innermost frame and those around it. In a marshaled object it
  -- reads the name of the first property.
  unfoldable pub round : Value → ℕ → List Frame → ℕ → Next
  unfolding array_next object_next
  round (arr xs) i rest size =
      array_next (drop_items i xs) xs i rest
        (if i == 0 then (size + array_size (items_cnt xs)) % word_mod else size)
  round (obj ps) i rest size =
      object_next (drop_fields i ps) ps i rest
        (if i == 0 then (size + object_size (fields_cnt ps)) % word_mod else size)
  round stored i rest size = faults
  round v i rest size = visit v (record { stack = rest; size = size })

-- How a loop ends: with its size, or in one of the ways above. `stuck` is out of fuel.
pub data Outcome : Type 0 where
  done : ℕ → Outcome
  exited overran faulted stuck : Outcome

-- The loop, with the visit of a value and the test for overflow at its head.
unfoldable pub loop : (Value → State → Next) → (ℕ → Bool) → ℕ → State → Outcome
loop visit overflow zero s = elim s.stack [ [] ↦ done s.size | frame ∷ rest ↦ stuck ]
loop visit overflow (suc fuel) s = elim s.stack [
  | [] ↦ done s.size
  | frame ∷ rest ↦ elim (overflow s.size) [
    | true ↦ exited
    | false ↦ elim (round visit frame.top frame.idx rest s.size) [
      | go s' ↦ loop visit overflow fuel s'
      | exits ↦ exited
      | overrun ↦ overran
      | faults ↦ faulted
    ]
  ]
]

abbrev pub begin : Value → ℕ → State
begin doc size = record { stack = record { top = doc; idx = 0 } ∷ []; size = size }

-- `calcSize` makes no test at the head.
abbrev pub calc_test : ℕ → Bool
calc_test size = false

-- `calcSize(doc, true)`
unfoldable pub calc_size : ℕ → Value → Outcome
calc_size fuel doc = loop calc_visit calc_test fuel (begin doc 0)

-- offset - start > docSize
abbrev pub marshal_test : ℕ → ℕ → ℕ → Bool
marshal_test start doc_size offset = ltb doc_size ((offset + word_mod - start) % word_mod)

-- `marshalDoc(doc, base, offset, docSize, val, true)`: the offset behind what it has written.
unfoldable pub marshal_doc : ℕ → Value → ℕ → ℕ → Outcome
marshal_doc fuel doc offset doc_size =
    loop marshal_visit (marshal_test offset doc_size) fuel (begin doc offset)
