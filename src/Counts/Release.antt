-- ===== src/Counts/Release.antt =====
-- `deleteValue`, with the calls of `decrRefCnt`, `abandonValue` and `abandonScope` in it, and
-- `replaceValue`. A deletion adds the calls that it makes in front of those that are still to be
-- made, which is the order of the recursion. What it frees is freed when it begins, where the code
-- does so at its end; nothing refers to it by then.
use javascript_database.Common.{
  ℕ, zero, suc, ◌+◌, ◌&&◌, Bool, true, false, not, Option, none, some, List, [], ◌∷◌, ◌++◌, map,
  if◌then◌else◌, get_elem?, set, length,
}
use javascript_database.Counts.{
  vt_string, vt_closure, vt_array, vt_object, scope_ptr, Reference, RefCounts, incr_ref_cnt,
  decr_ref_cnt, abandon_value,
}

-- What is allocated, by the address. The type of a value that is counted is that of its cell. An
-- array has an object of its own. A closure has the scopes from the second on, and a scope a frame,
-- with the values behind that of the return. None of these values is an lval.
pub data Cell : Type 0 where
  freed text : Cell
  array : List Reference → Reference → Cell
  object : List (Reference × Reference) → Reference → Reference → Cell
  closure : List Reference → Reference → Reference → Cell
  scope : List Reference → List Reference → Reference → Reference → Cell

-- `if (decrRefCnt(val)) deleteValue(val)`, `abandonValue(val)` and `deleteValue(val)`.
pub data Task : Type 0 where
  drop abandon delete : Reference → Task

abbrev pub drops : List Reference → List Task
drops vals = map drop vals

abbrev pub drop_pairs : List (Reference × Reference) → List Task
drop_pairs [] = []
drop_pairs (pair ∷ pairs) = drop pair.0 ∷ drop pair.1 ∷ drop_pairs pairs

-- The calls that a deletion makes.
unfoldable pub contents : Cell → List Task
contents freed = []
contents text = []
contents (array vals obj) = drops vals ++ abandon obj ∷ []
contents (object pairs proto base) = drop_pairs pairs ++ drop proto ∷ delete base ∷ []
contents (closure scopes proto obj) = drops scopes ++ drop proto ∷ drop obj ∷ []
contents (scope vals frame_vals this arguments) =
    drops vals ++ drops frame_vals ++ drop this ∷ drop arguments ∷ []

pub record Heap : Type 0 where
  pub counts : RefCounts
  pub cells : List Cell

-- Whether `deleteValue` frees the object of the value. `deleteDocument` counts down a document, for
-- which `decrRefCnt` does nothing.
abbrev pub frees : Reference → Bool
frees val = not val.marshaled && elim val.type [
  | vt_string ↦ val.refcount
  | vt_closure ↦ true
  | vt_array ↦ true
  | vt_object ↦ true
  | scope_ptr ↦ true
  | _ ↦ false
]

abbrev pub is_freed : Cell → Bool
is_freed freed = true
is_freed _ = false

-- The calls that are to be made, and the heap. There is none where the object has been freed.
unfoldable pub delete_value : Reference → Heap → Option (List Task × Heap)
unfolding contents
delete_value val s =
    if frees val
    then elim (get_elem? s.cells val.raw) [
      | none ↦ none
      | some cell ↦
          if is_freed cell
          then none
          else some (contents cell, record s { cells = set s.cells val.raw freed })
    ]
    else some ([], s)

unfoldable pub visit : Task → Heap → Option (List Task × Heap)
unfolding delete_value decr_ref_cnt abandon_value
visit (drop val) s =
    let (counts, gone) = decr_ref_cnt val s.counts in
    let s' = record s { counts = counts } in if gone then delete_value val s' else some ([], s')
visit (abandon val) s = if abandon_value val s.counts then delete_value val s else some ([], s)
visit (delete val) s = delete_value val s

-- One unit of fuel for each call.
unfoldable pub release : ℕ → List Task → Heap → Option Heap
unfolding visit
release fuel [] s = some s
release zero (task ∷ tasks) s = none
release (suc fuel) (task ∷ tasks) s = elim (visit task s) [
  | none ↦ none
  | some (more, s') ↦ release fuel (more ++ tasks) s'
]

-- The calls in all cells.
unfoldable pub calls : List Cell → ℕ
unfolding contents
calls [] = 0
calls (cell ∷ cells) = length (contents cell) + calls cells

-- Slots of variables, and what they refer to.
pub record Slots : Type 0 where
  pub vals : List Reference
  pub heap : Heap

-- A slot is a variable, an element of a typed array, whose bytes `storeArrayValue` writes, or no lval.
pub data Slot : Type 0 where
  variable : ℕ → Slot
  element not_lval : Slot

-- There is none where the code exits, or reads an object that has been freed.
unfoldable pub replace_value : Slot → Reference → Slots → Option Slots
unfolding incr_ref_cnt release calls
replace_value not_lval value s = none
replace_value element value s =
    some (record s { heap = record s.heap { counts = incr_ref_cnt value s.heap.counts } })
replace_value (variable i) value s = elim (get_elem? s.vals i) [
  | none ↦ none
  | some old ↦
      let heap = record s.heap { counts = incr_ref_cnt value s.heap.counts } in
      elim (release (1 + calls heap.cells) (drop old ∷ []) heap) [
        | none ↦ none
        | some heap' ↦ some (record { vals = set s.vals i value; heap = heap' })
      ]
]
