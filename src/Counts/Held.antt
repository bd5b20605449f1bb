-- ===== src/Counts/Held.antt =====
-- The counts as the numbers of what holds an object: slots, and cells that are not freed.
use javascript_database.Common.{
  ℕ, zero, suc, ◌+◌, ◌≤◌, ◌<◌, ◌≡◌, refl, sym, ap, ◌∙◌, Bool, true, false, ◌&&◌, ◌||◌, not, Option,
  none, some, List, [], ◌∷◌, ◌++◌, length, ◌==◌, if◌then◌else◌, arith, Bool-cases, ==_iff, inl, inr,
  get_elem?, set,
}
use javascript_database.Counts.{count_mod, Reference, RefCounts}
use javascript_database.Counts.Release.{
  Cell, freed, Task, drop, abandon, delete, drops, contents, Heap, frees, is_freed, delete_value,
  calls,
}
use javascript_database.Counts.Sums.{sum, sum_cells, sum-append, sum_cells-free, calls-free}

-- 1 where the value counts as a reference to the object.
abbrev pub holds : ℕ → Reference → ℕ
holds id val = if val.refcount && (id == val.raw) then 1 else 0

-- What a call takes from the count of an object, and whether it is the only one to delete it.
abbrev pub refs_to : ℕ → Task → ℕ
refs_to id (drop val) = holds id val
refs_to id _ = 0

abbrev pub owns : ℕ → Task → ℕ
owns id (abandon val) = holds id val
owns id _ = 0

-- 1 for a counted value that `deleteValue` does not free or that is a weak reference too, and for a
-- weak reference that it frees.
abbrev pub odd_value : Reference → ℕ
odd_value val =
    if val.refcount
    then (if frees val && not val.weakcount then 0 else 1)
    else if val.weakcount && frees val
    then 1
    else 0

-- In calls also 1 for a base value that is freed.
abbrev pub odd : Task → ℕ
odd (drop val) = odd_value val
odd (abandon val) = odd_value val
odd (delete val) = if frees val then 1 else 0

abbrev pub is_live : List Cell → ℕ → Bool
is_live cells id = elim (get_elem? cells id) [ none ↦ false | some cell ↦ not (is_freed cell) ]

abbrev pub value_of : Task → Reference
value_of (drop val) = val
value_of (abandon val) = val
value_of (delete val) = val

-- The object of a value that is counted.
abbrev pub counts_for : Reference → ℕ → Bool
counts_for val id = val.refcount && (id == val.raw)

abbrev pub never : ℕ → Bool
never id = false

-- An object that is referred to or owned is there, and is not both.
abbrev pub fits : Bool → ℕ → ℕ → Bool
fits live refs owners =
    ((refs == 0) && (owners == 0)) || (live && ((owners == 0) || ((owners == 1) && (refs == 0))))

-- An object that is there is referred to or owned.
abbrev pub needed : Bool → ℕ → ℕ → Bool
needed live refs owners = not live || (not (refs == 0) || not (owners == 0))

-- The sum over the slots, the calls that are to be made and the cells.
abbrev pub all : (Task → ℕ) → List Reference → List Task → List Cell → ℕ
all f vals ts cells = sum f (drops vals) + sum f ts + sum_cells f cells

-- The counts are these sums, and what is there is referred to or owned, but for some objects.
pub record HoldsOf (but : ℕ → Bool) (vals : List Reference) (ts : List Task) (s : Heap)
    : Type 0 where
  pub counted : (id : ℕ) → s.counts.refs id ≡ all (refs_to id) vals ts s.cells
  pub fitting :
      (id : ℕ) → fits (is_live s.cells id) (s.counts.refs id) (all (owns id) vals ts s.cells) ≡ true
  pub kept :
      (id : ℕ)
      → but id ≡ false
      → needed (is_live s.cells id) (s.counts.refs id) (all (owns id) vals ts s.cells) ≡ true
  pub even : all odd vals ts s.cells ≡ 0
  pub few : (id : ℕ) → s.counts.refs id < count_mod

all-free :
    (f : Task → ℕ) (vals : List Reference) (ts : List Task) (cells : List Cell) (i : ℕ)
    (cell : Cell)
    → get_elem? cells i ≡ some cell
    → all f vals (contents cell ++ ts) (set cells i freed) ≡ all f vals ts cells
all-free f vals ts cells i cell h =
    let a = sum-append f (contents cell) ts in
    let b = sum_cells-free f cells i cell h in omega (arith, a, b)

pub live-cell :
    (cells : List Cell) (i : ℕ)
    → is_live cells i ≡ true
    → (cell : Cell) × (get_elem? cells i ≡ some cell) × (is_freed cell ≡ false)
live-cell [] i h = absurd (ground (arith, h))
live-cell (c ∷ cells) zero h = (c, refl, ground (arith, h))
live-cell (c ∷ cells) (suc i) h = live-cell cells i h

is_live-set :
    (cells : List Cell) (i id : ℕ)
    → (id == i) ≡ false
    → is_live (set cells i freed) id ≡ is_live cells id
is_live-set [] i id h = refl
is_live-set (c ∷ cells) zero zero h = absurd (ground (arith, h))
is_live-set (c ∷ cells) zero (suc id) h = refl
is_live-set (c ∷ cells) (suc i) zero h = refl
is_live-set (c ∷ cells) (suc i) (suc id) h = is_live-set cells i id (ground (arith, h))

not_live-freed : (cells : List Cell) (i : ℕ) → is_live (set cells i freed) i ≡ false
not_live-freed [] i = refl
not_live-freed (c ∷ cells) zero = refl
not_live-freed (c ∷ cells) (suc i) = not_live-freed cells i

module _ (vals : List Reference) (ts : List Task) where
  -- A step of `release` that keeps the sums and uses up one call.
  abbrev pub Steps : Option (List Task × Heap) → Heap → Type 0
  Steps o s =
      (more : List Task) × (s' : Heap) × (o ≡ some (more, s'))
      × HoldsOf never vals (more ++ ts) s'
      × (length more + calls s'.cells ≡ calls s.cells)

  freed-HoldsOf :
      (val : Reference) (cell : Cell) (s : Heap)
      → HoldsOf (counts_for val) vals ts s
      → s.counts.refs val.raw ≡ 0
      → all (owns val.raw) vals ts s.cells ≡ 0
      → get_elem? s.cells val.raw ≡ some cell
      → HoldsOf never vals (contents cell ++ ts) (record s { cells = set s.cells val.raw freed })
  freed-HoldsOf val cell s h none_refer none_own at =
      let i = val.raw in
      let same = λ (id : ℕ). all-free (owns id) vals ts s.cells i cell at in
      record {
        counted = λ id. h.counted id ∙ sym (all-free (refs_to id) vals ts s.cells i cell at);
        fitting = λ id. elim (Bool-cases (id == i)) [
          | inl e ↦
              let p = (==_iff id i).0 e in
              let r = ap s.counts.refs p ∙ none_refer in
              let o = same id ∙ ap (λ j. all (owns j) vals ts s.cells) p ∙ none_own in
              rw (r, o) refl
          | inr ne ↦ rw (same id, is_live-set s.cells i id ne) (h.fitting id)
        ];
        kept = λ id _. elim (Bool-cases (id == i)) [
          | inl e ↦
              let l =
                ap (is_live (set s.cells i freed)) ((==_iff id i).0 e) ∙ not_live-freed s.cells i in
              rw l refl
          | inr ne ↦ rw (same id, is_live-set s.cells i id ne) (h.kept id (ground (arith, ne)))
        ];
        even = all-free odd vals ts s.cells i cell at ∙ h.even;
        few = h.few;
      }

  pub delete_value-Steps :
      (val : Reference) (s : Heap)
      → HoldsOf (counts_for val) vals ts s
      → s.counts.refs val.raw ≡ 0
      → all (owns val.raw) vals ts s.cells ≡ 0
      → frees val ≡ true
      → is_live s.cells val.raw ≡ true
      → Steps (delete_value val s) s
  unfolding delete_value
  delete_value-Steps val s h none_refer none_own f live =
      let (cell, at, here) = live-cell s.cells val.raw live in
      (
        contents cell,
        record s { cells = set s.cells val.raw freed },
        rw (f, at, here) refl,
        freed-HoldsOf val cell s h none_refer none_own at,
        (let c = calls-free s.cells val.raw cell at in omega (arith, c)),
      )

  pub delete_value-skips :
      (val : Reference) (s : Heap)
      → HoldsOf never vals ts s
      → frees val ≡ false
      → Steps (delete_value val s) s
  unfolding delete_value
  delete_value-skips val s h f = ([], s, rw f refl, h, omega arith)

pub fits-le : (l : Bool) (r o r' o' : ℕ) → r' ≤ r → o' ≤ o → fits l r o ≡ true → fits l r' o' ≡ true
fits-le l r o r' o' a b h = ground (arith, a, b, h)

pub fits-refers : (l : Bool) (r o : ℕ) → 1 ≤ r → fits l r o ≡ true → (l ≡ true) × (o ≡ 0)
fits-refers l r o a h = ground (arith, a, h)

pub fits-owned : (l : Bool) (r o : ℕ) → 1 ≤ o → fits l r o ≡ true → (l ≡ true) × (o ≡ 1) × (r ≡ 0)
fits-owned l r o a h = ground (arith, a, h)

pub uncounted : (id : ℕ) (val : Reference) → counts_for val id ≡ false → holds id val ≡ 0
uncounted id val h = rw h refl

takes-holds : (id : ℕ) (t : Task) → refs_to id t + owns id t ≤ holds id (value_of t)
takes-holds id (drop val) = omega arith
takes-holds id (abandon val) = omega arith
takes-holds id (delete val) = omega arith

-- What holds when a call has been taken from those that are to be made, and its count is down.
pub next-HoldsOf :
    (vals : List Reference) (t : Task) (ts : List Task) (s : Heap) (c : RefCounts)
    → HoldsOf never vals (t ∷ ts) s
    → ((id : ℕ) → c.refs id + refs_to id t ≡ s.counts.refs id)
    → HoldsOf (counts_for (value_of t)) vals ts (record s { counts = c })
unfolding sum
next-HoldsOf vals t ts s c h down = record {
  counted = λ id. omega (arith, h.counted id, down id);
  fitting = λ id.
      fits-le (is_live s.cells id) (s.counts.refs id) (all (owns id) vals (t ∷ ts) s.cells)
        (c.refs id) (all (owns id) vals ts s.cells) (omega (arith, down id)) (omega arith)
        (h.fitting id);
  kept = λ id b.
      let none = uncounted id (value_of t) b in
      let takes = takes-holds id t in
      let r : c.refs id ≡ s.counts.refs id = omega (arith, none, takes, down id) in
      let o : all (owns id) vals ts s.cells ≡ all (owns id) vals (t ∷ ts) s.cells =
        omega (arith, none, takes) in
      rw (r, o) (h.kept id refl);
  even = omega (arith, h.even);
  few = λ id. omega (arith, h.few id, down id);
}
