-- ===== src/Counts/Replaced.antt =====
-- `replaceValue` of a variable keeps the counts.
use javascript_database.Common.{ℕ, ◌+◌, ◌<◌, ◌≡◌, true, some, [], get_elem?}
use javascript_database.Counts.{count_mod, Reference, incr_ref_cnt}
use javascript_database.Counts.Release.{Heap, Slots}
use javascript_database.Counts.Held.{owns, odd_value, is_live, counts_for, never, all, HoldsOf}

-- The count of each object is the number of the slots and of the places in what is allocated that
-- hold it; what is referred to is allocated, and what is allocated is referred to, or is the object
-- of one array. `HoldsOf` says so where calls are still to be made.
abbrev pub IsSound : Slots → Type 0
IsSound s = HoldsOf never s.vals [] s.heap

-- The same where nothing may refer to the object of the value yet.
abbrev pub IsSoundBut : Reference → Slots → Type 0
IsSoundBut value s = HoldsOf (counts_for value) s.vals [] s.heap

-- A value of an object that is allocated and that no array owns.
abbrev pub CanHold : Reference → Slots → Type 0
CanHold value s =
    (odd_value value ≡ 0)
    × (value.refcount ≡ true
        → (is_live s.heap.cells value.raw ≡ true)
          × (all (owns value.raw) s.vals [] s.heap.cells ≡ 0))

module _ (s : Slots) (i : ℕ) (old value : Reference) (sound : IsSoundBut value s)
    (at : get_elem? s.vals i ≡ some old) (few : (id : ℕ) → s.heap.counts.refs id + 1 < count_mod)
    (can : CanHold value s) where
  abbrev counted : Heap
  counted = record s.heap { counts = incr_ref_cnt value s.heap.counts }
