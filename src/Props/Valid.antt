-- ===== src/Props/Valid.antt =====
-- When a property table is well formed, and what `lookupValue` answers on such a table.
use javascript_database.Common.{
  ℕ, suc, ◌%◌, ◌≤◌, ◌<◌, ◌≡◌, ◌≢◌, ◌⊎◌, inl, inr, refl, Bool, true, some, List, length, get_elem?,
  arith, lt-get_elem?, ne→==_false,
}
use native.Mathlib.Nat.{le_refl}
use native.Mathlib.Decide.{ℕ_discrete}
use javascript_database.Props.Hash.{Name, hash_str, hash_mod, hash_bytes}
use javascript_database.Props.Table.{Table, Lookup, hit, vacant, start_of, lookup_value, probe}
use javascript_database.Props.Trail.{Trail, used, dist-lt, free_exists}
use javascript_database.Props.Probe.{Answer, at_pair, at_free, probe-Answer, probe-ne-vacant}

-- The largest capacity for which `vec_grow` computes the size of its block without wrapping.
abbrev pub max_cap : ℕ
max_cap = 113_025_454

pub record IsHashed {ℓ} {V : Type ℓ} (cap : ℕ) (pairs : List (Name × V)) (slots : List ℕ)
    : Type ℓ where
  pub whole : length slots ≡ hash_mod cap
  pub used_is : used slots ≡ length pairs
  pub entries : (h i : ℕ) → get_elem? slots h ≡ some (suc i) → i < length pairs
  -- From the hash of its name, entries in use lead to the entry of each pair.
  pub located :
      (i : ℕ) (name : Name) (v : V)
      → get_elem? pairs i ≡ some (name, v)
      → (k : ℕ) × (q : ℕ) × Trail slots (hash_mod cap) (hash_str name % hash_mod cap) k q
        × (get_elem? slots q ≡ some (suc i))

abbrev pub Distinct {ℓ} : {V : Type ℓ} → List (Name × V) → Type ℓ
Distinct {V} pairs =
    (i j : ℕ) (name : Name) (v w : V)
    → get_elem? pairs i ≡ some (name, v)
    → get_elem? pairs j ≡ some (name, w)
    → i ≡ j

pub record IsValid {ℓ} {V : Type ℓ} (t : Table V) : Type ℓ where
  pub fits : length t.pairs ≤ t.cap
  pub cap_in : (t.cap ≢ 1) × (t.cap ≤ max_cap)
  pub hashed : IsHashed t.cap t.pairs t.slots
  pub distinct : Distinct t.pairs

-- The hash that a caller may pass: that of the name, or 0.
abbrev pub IsHashOf : ℕ → Name → Type 0
IsHashOf hash name = (hash ≡ 0) ⊎ (hash ≡ hash_str name)

start_of-hash_str :
    (cap : ℕ) (name : Name) (hash : ℕ)
    → IsHashOf hash name
    → start_of cap name hash ≡ hash_str name % hash_mod cap
unfolding start_of
start_of-hash_str cap name hash (inl z) = rw z
start_of-hash_str cap name hash (inr e) = ground arith

pub hash_mod_pos : (cap : ℕ) → 2 ≤ cap → cap ≤ max_cap → cap < hash_mod cap
unfolding hash_mod
hash_mod_pos cap h k = omega arith

module _ {ℓ} {V : Type ℓ} (cap : ℕ) (slots : List ℕ) (pairs : List (Name × V)) (name : Name) where
  -- A table with a free entry: the loop answers from every start.
  pub IsHashed-Answer :
      IsHashed cap pairs slots
      → length pairs < hash_mod cap
      → (find : Bool) (start : ℕ) → start < hash_mod cap
      → Answer slots pairs name find
          (hash_mod cap)
          start
          (probe (hash_mod cap) (hash_bytes cap) slots pairs name find (hash_mod cap) start start)
  IsHashed-Answer w room find start s =
      let (p, free) = free_exists slots (omega (arith, w.used_is, w.whole)) in
      let p_in : p < hash_mod cap = omega (arith, lt-get_elem? slots p 0 free, w.whole) in
      probe-Answer cap (hash_mod cap) start p slots pairs name find w.whole w.entries s free p_in
        (hash_mod cap) start s (dist-lt (hash_mod cap) start p s p_in) (le_refl _)

abbrev pub Absent {ℓ} : {V : Type ℓ} → List (Name × V) → Name → Type ℓ
Absent {V} pairs name = (i : ℕ) (v : V) → get_elem? pairs i ≢ some (name, v)

-- Where a new pair may be entered: a free entry at the end of the trail from the name's hash.
abbrev pub IsPlace : ℕ → List ℕ → Name → ℕ → Type 0
IsPlace cap slots name h =
    (k : ℕ) × Trail slots (hash_mod cap) (hash_str name % hash_mod cap) k h
    × (get_elem? slots h ≡ some 0)

-- A correct answer of `lookupValue`: the pair with the name, or a place for it if there is none.
pub data Finds {ℓ} {V : Type ℓ} (t : Table V) (name : Name) : Lookup → Type ℓ where
  found : (i : ℕ) (v : V) → get_elem? t.pairs i ≡ some (name, v) → Finds t name (hit (suc i))
  missing :
      (h : ℕ)
      → Absent t.pairs name
      → (t.cap ≡ 0) ⊎ IsPlace t.cap t.slots name h
      → Finds t name (vacant h)

module _ {ℓ} {V : Type ℓ} (t : Table V) (name : Name) where
  lookup_value-null :
      (hash : ℕ) (find : Bool) → t.cap ≡ 0 → lookup_value t name hash find ≡ vacant 0
  unfolding lookup_value
  lookup_value-null hash find z = rw z

  pub lookup_value-probe :
      (hash : ℕ) (find : Bool)
      → t.cap ≢ 0
      → IsHashOf hash name
      → lookup_value t name hash find
        ≡ probe
            (hash_mod t.cap)
            (hash_bytes t.cap)
            t.slots
            t.pairs
            name
            find
            (hash_mod t.cap)
            (hash_str name % hash_mod t.cap)
            (hash_str name % hash_mod t.cap)
  unfolding lookup_value
  lookup_value-probe hash find n g = rw (ne→==_false t.cap 0 n, start_of-hash_str t.cap name hash g)

  pub null_Absent : IsValid t → t.cap ≡ 0 → Absent t.pairs name
  null_Absent valid z i v g = absurd (omega (arith, valid.fits, lt-get_elem? t.pairs i (name, v) g))

  Finds-Answer :
      (fuel : ℕ) (r : Lookup)
      → IsValid t
      → probe fuel
          (hash_bytes t.cap)
          t.slots
          t.pairs
          name
          true
          (hash_mod t.cap)
          (hash_str name % hash_mod t.cap)
          (hash_str name % hash_mod t.cap)
        ≡ r
      → Answer t.slots t.pairs name true (hash_mod t.cap) (hash_str name % hash_mod t.cap) r
      → Finds t name r
  Finds-Answer fuel r valid e (at_pair i v g f) = found i v g
  Finds-Answer fuel r valid e (at_free k q trail z) = missing q absent (inr (k, trail, z))
    where
      absent : Absent t.pairs name
      absent i v g =
          let (k', q', trail', s) = valid.hashed.located i name v g in
          probe-ne-vacant t.cap (hash_mod t.cap) (hash_str name % hash_mod t.cap) t.slots t.pairs
            name fuel (hash_str name % hash_mod t.cap) k' q' i q v trail' s g valid.hashed.entries e

  -- On a well-formed table, with the hash of the name or 0, `lookupValue` answers with a pair of
  -- that name, or with the free entry where the name belongs if no pair has it; it neither
  -- overflows nor runs on.
  pub lookup_value-Finds :
      (hash : ℕ) → IsValid t → IsHashOf hash name → Finds t name (lookup_value t name hash true)
  lookup_value-Finds hash valid g = elim (ℕ_discrete t.cap 0) [
    | yes z ↦ rw (lookup_value-null hash true z) (missing 0 (null_Absent valid z) (inl z))
    | no n ↦
        let wide = hash_mod_pos t.cap (omega (arith, valid.cap_in.0)) valid.cap_in.1 in
        rw (lookup_value-probe hash true n g) (
          Finds-Answer (hash_mod t.cap) _ valid refl (
            IsHashed-Answer t.cap t.slots t.pairs name valid.hashed (omega (arith, valid.fits)) true
              (hash_str name % hash_mod t.cap) (omega arith)))
  ]
