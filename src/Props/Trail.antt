-- ===== src/Props/Trail.antt =====
-- Walks along the entries of a hash table, and the number of entries in use.
use javascript_database.Common.{
  ℕ, zero, suc, ◌+◌, ◌-◌, ◌<◌, ◌≡◌, ◌≢◌, refl, ◌∙◌, List, [], ◌∷◌, some, leb, if◌then◌else◌, length,
  get_elem?, set, replicate, arith, get_elem?-set_ne,
}
use native.Mathlib.Decide.{ℕ_discrete}
use javascript_database.Props.Table.{wrap}

-- An entry that is in use.
abbrev pub Used : List ℕ → ℕ → Type 0
Used slots h = (i : ℕ) × (get_elem? slots h ≡ some (suc i))

-- From `h`, `k` entries in use lead to entry `q`.
abbrev pub Trail : List ℕ → ℕ → ℕ → ℕ → ℕ → Type 0
Trail slots size h zero q = h ≡ q
Trail slots size h (suc k) q = Used slots h × Trail slots size (wrap size h) k q

pub wrap-lt : (size h : ℕ) → h < size → wrap size h < size
unfolding wrap
wrap-lt size h p = ground arith

-- The steps from `h` to `q` around the table.
pub dist : ℕ → ℕ → ℕ → ℕ
dist size h q = if leb h q then q - h else q + size - h

pub dist-lt : (size h q : ℕ) → h < size → q < size → dist size h q < size
unfolding dist
dist-lt size h q a b = ground arith

pub dist-wrap :
    (size h q : ℕ) → h < size → q < size → h ≢ q → suc (dist size (wrap size h) q) ≡ dist size h q
unfolding dist wrap
dist-wrap size h q a b n = ground arith

-- A write at a free entry leaves the entries in use as they are.
pub Used-set :
    (slots : List ℕ) (q j p : ℕ)
    → get_elem? slots q ≡ some 0
    → Used slots p
    → Used (set slots q (suc j)) p
Used-set slots q j p free (i, e) = elim (ℕ_discrete q p) [
  | yes same ↦ absurd (ground (arith, e, free))
  | no other ↦ (i, get_elem?-set_ne slots q p (suc j) other ∙ e)
]

pub Trail-set :
    (slots : List ℕ) (size h k q p j : ℕ)
    → get_elem? slots q ≡ some 0
    → Trail slots size h k p
    → Trail (set slots q (suc j)) size h k p
Trail-set slots size h zero q p j free t = t
Trail-set slots size h (suc k) q p j free t =
    (Used-set slots q j h free t.0, Trail-set slots size (wrap size h) k q p j free t.1)

-- The number of entries in use.
pub used : List ℕ → ℕ
used [] = 0
used (zero ∷ r) = used r
used (suc i ∷ r) = suc (used r)

pub used-set :
    (slots : List ℕ) (q j : ℕ)
    → get_elem? slots q ≡ some 0
    → used (set slots q (suc j)) ≡ suc (used slots)
unfolding used
used-set [] q j h = cc
used-set (zero ∷ r) zero j h = refl
used-set (suc i ∷ r) zero j h = cc
used-set (zero ∷ r) (suc q) j h = used-set r q j h
used-set (suc i ∷ r) (suc q) j h = omega (arith, used-set r q j h)

-- A table with fewer entries in use than it has entries has a free one.
pub free_exists :
    (slots : List ℕ) → used slots < length slots → (q : ℕ) × (get_elem? slots q ≡ some 0)
unfolding used
free_exists [] h = elim h [ ]
free_exists (zero ∷ r) h = (0, refl)
free_exists (suc i ∷ r) h = let (q, e) = free_exists r (omega arith) in (suc q, e)

pub used-replicate : (n : ℕ) → used (replicate n 0) ≡ 0
unfolding used
used-replicate zero = refl
used-replicate (suc n) = used-replicate n

pub get_elem?-replicate : (n h e : ℕ) → get_elem? (replicate n 0) h ≡ some e → e ≡ 0
get_elem?-replicate zero h e p = absurd (ground arith)
get_elem?-replicate (suc n) zero e p = ground arith
get_elem?-replicate (suc n) (suc h) e p = get_elem?-replicate n h e p
