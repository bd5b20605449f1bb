-- ===== src/Tests/Slots.antt =====
-- Slots whose values are replaced.
use javascript_database.Common.{
  ℕ, ◌≡◌, refl, true, false, Option, none, some, List, [], ◌∷◌, ◌==◌, if◌then◌else◌,
}
use javascript_database.Counts.{
  ValueType, vt_string, vt_array, vt_object, vt_document, vt_other, Reference, RefCounts,
  incr_ref_cnt, decr_ref_cnt, abandon_value,
}
use javascript_database.Counts.Release.{
  Cell, freed, text, array, object, Slots, variable, element, replace_value, release, visit,
  delete_value, contents, calls,
}

abbrev value : ValueType → ℕ → Reference
value type id = record {
  type = type;
  raw = id;
  raw_doc = 0;
  refcount = true;
  weakcount = false;
  marshaled = false;
}

abbrev plain : Reference
plain = record (value vt_other 0) { refcount = false }

abbrev document : Reference
document = record (value vt_document 0) { raw_doc = 5; refcount = false }

-- { s: [s] } with its name s, the array, the object of the array, and an object that is new.
abbrev cells : List Cell
cells =
    object ((value vt_string 1, value vt_array 2) ∷ []) plain plain
    ∷ text
    ∷ array (value vt_string 1 ∷ []) (value vt_object 3)
    ∷ object [] plain plain
    ∷ object [] plain plain
    ∷ []

abbrev counts : RefCounts
counts = record {
  refs = λ id. if id == 0 then 1 else if id == 1 then 2 else if id == 2 then 1 else 0;
  weaks = λ id. 0;
  docs = λ id. 0;
}

abbrev slots : Slots
slots = record {
  vals = plain ∷ value vt_object 0 ∷ [];
  heap = record { counts = counts; cells = cells };
}

abbrev new : Reference
new = value vt_object 4

abbrev cells_of : Option Slots → List Cell
cells_of none = []
cells_of (some s) = s.heap.cells

-- The object is freed with its name, its array and the object of that.
replace_run :
    cells_of (replace_value (variable 1) new slots)
    ≡ freed ∷ freed ∷ freed ∷ freed ∷ object [] plain plain ∷ []
unfolding replace_value release visit delete_value contents calls incr_ref_cnt decr_ref_cnt
    abandon_value
replace_run = refl

abbrev counts_of : Option Slots → RefCounts
counts_of none = counts
counts_of (some s) = s.heap.counts

-- Where a value is stored in a typed array its count goes up, although nothing holds it.
element_run : (counts_of (replace_value element new slots)).refs 4 ≡ 1
unfolding replace_value incr_ref_cnt
element_run = refl

-- The count of a document goes up and not down.
document_run :
    ((decr_ref_cnt document (incr_ref_cnt document counts)).0.docs 5 ≡ 1)
    × (abandon_value (value vt_object 3) counts ≡ true)
unfolding incr_ref_cnt decr_ref_cnt abandon_value
document_run = (refl, refl)
