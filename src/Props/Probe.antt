-- ===== src/Props/Probe.antt =====
-- The probe loop of `lookupValue` over a table that has a free entry.
use javascript_database.Common.{
  ℕ, zero, suc, ◌-◌, ◌≤◌, ◌<◌, ◌≡◌, ◌≢◌, ◌⊎◌, inl, inr, refl, ap, ◌∙◌, Bool, true, false, some,
  List, length, get_elem?, arith, get_elem?-lt, Bool-cases, ne→==_false, ==_iff,
}
use native.Mathlib.Decide.{ℕ_discrete}
use javascript_database.Props.Hash.{
  Name, hash_bytes, hash_entry-hash_bytes, name_eq, name_eq_sound, name_eq_refl,
}
use javascript_database.Props.Table.{Lookup, hit, vacant, overflow, wrap, same_name, probe}
use javascript_database.Props.Trail.{Trail, wrap-lt, dist, dist-wrap}

-- What the loop may answer from entry `h` on.
pub data Answer {ℓ} {V : Type ℓ} (slots : List ℕ) (pairs : List (Name × V)) (name : Name)
    (find : Bool) (size h : ℕ) : Lookup → Type ℓ where
  at_pair :
      (i : ℕ) (v : V)
      → get_elem? pairs i ≡ some (name, v)
      → find ≡ true
      → Answer slots pairs name find size h (hit (suc i))
  at_free :
      (k q : ℕ)
      → Trail slots size h k q
      → get_elem? slots q ≡ some 0
      → Answer slots pairs name find size h (vacant q)

module _ {ℓ} {V : Type ℓ} (cap : ℕ) (slots : List ℕ) (pairs : List (Name × V)) (name : Name)
    (find : Bool) where
  probe-free :
      (fuel size start h : ℕ)
      → get_elem? slots h ≡ some 0
      → probe (suc fuel) (hash_bytes cap) slots pairs name find size start h ≡ vacant h
  unfolding probe
  probe-free fuel size start h e = rw (hash_entry-hash_bytes slots cap h, e, probe)

  probe-hit :
      (fuel size start h i : ℕ)
      → get_elem? slots h ≡ some (suc i)
      → same_name pairs name find (suc i) ≡ some true
      → probe (suc fuel) (hash_bytes cap) slots pairs name find size start h ≡ hit (suc i)
  unfolding probe
  probe-hit fuel size start h i e m = rw (hash_entry-hash_bytes slots cap h, e, probe, m)

  probe-next :
      (fuel size start h i : ℕ)
      → get_elem? slots h ≡ some (suc i)
      → same_name pairs name find (suc i) ≡ some false
      → wrap size h ≢ start
      → probe (suc fuel) (hash_bytes cap) slots pairs name find size start h
        ≡ probe fuel (hash_bytes cap) slots pairs name find size start (wrap size h)
  unfolding probe
  probe-next fuel size start h i e m n =
      rw (hash_entry-hash_bytes slots cap h, e, probe, m, ne→==_false (wrap size h) start n)

  probe-last :
      (fuel size start h i : ℕ)
      → get_elem? slots h ≡ some (suc i)
      → same_name pairs name find (suc i) ≡ some false
      → wrap size h ≡ start
      → probe (suc fuel) (hash_bytes cap) slots pairs name find size start h ≡ overflow
  unfolding probe
  probe-last fuel size start h i e m n =
      rw (hash_entry-hash_bytes slots cap h, e, probe, m, (==_iff (wrap size h) start).1 n)

  -- One step back along a trail.
  Answer-next :
      (size h i : ℕ) (r : Lookup)
      → get_elem? slots h ≡ some (suc i)
      → Answer slots pairs name find size (wrap size h) r
      → Answer slots pairs name find size h r
  Answer-next size h i r e (at_pair j v p f) = at_pair j v p f
  Answer-next size h i r e (at_free k q t z) = at_free (suc k) q ((i, e), t) z

module _ {ℓ} {V : Type ℓ} (pairs : List (Name × V)) (name : Name) where
  -- What a comparison with a pair of the vector says.
  abbrev pub Compared : Bool → ℕ → Type ℓ
  Compared find i =
      (same_name pairs name find (suc i) ≡ some false)
      ⊎ ((v : V) × (same_name pairs name find (suc i) ≡ some true)
          × (get_elem? pairs i ≡ some (name, v))
          × (find ≡ true))

  pub same_name-true :
      (i : ℕ) (key : Name) (v : V)
      → get_elem? pairs i ≡ some (key, v)
      → same_name pairs name true (suc i) ≡ some (name_eq key name)
  unfolding same_name
  same_name-true i key v e = let back : suc i - 1 ≡ i = omega arith in rw (same_name, back, e)

  Compared-at :
      (find : Bool) (i : ℕ) (key : Name) (v : V)
      → get_elem? pairs i ≡ some (key, v)
      → Compared find i
  Compared-at false i key v e = inl (unfold same_name in refl)
  Compared-at true i key v e = elim (Bool-cases (name_eq key name)) [
    | inl same ↦
        inr (v, same_name-true i key v e ∙ ap some same, rw (← name_eq_sound key name same) e, refl)
    | inr other ↦ inl (same_name-true i key v e ∙ ap some other)
  ]

  -- A comparison with a pair of the vector reads no memory outside.
  pub Compared-all : (find : Bool) (i : ℕ) → i < length pairs → Compared find i
  Compared-all find i h =
      let found = get_elem?-lt pairs i h in Compared-at find i (found.0).0 (found.0).1 found.1

module _ {ℓ} {V : Type ℓ} (cap size start p : ℕ) (slots : List ℕ) (pairs : List (Name × V))
    (name : Name) (find : Bool) (whole : length slots ≡ size)
    (entries : (h i : ℕ) → get_elem? slots h ≡ some (suc i) → i < length pairs)
    (start_in : start < size) (free : get_elem? slots p ≡ some 0) (free_in : p < size) where
  abbrev probe_at : ℕ → ℕ → Lookup
  probe_at fuel h = probe fuel (hash_bytes cap) slots pairs name find size start h

  not_free : (h i : ℕ) → get_elem? slots h ≡ some (suc i) → h ≢ p
  not_free h i e same = ground (arith, free, e)

  before_start :
      (h : ℕ) → h < size → h ≢ p → dist size h p ≤ dist size start p → wrap size h ≢ start
  before_start h a n c same = ground (arith, dist-wrap size h p a free_in n)

  probe-step :
      (fuel h e : ℕ)
      → get_elem? slots h ≡ some e
      → (h ≢ p
          → (wrap size h ≢ start)
            × Answer slots pairs name find size (wrap size h) (probe_at fuel (wrap size h)))
      → Answer slots pairs name find size h (probe_at (suc fuel) h)
  probe-step fuel h zero e rest =
      rw (probe-free cap slots pairs name find fuel size start h e) (at_free 0 h refl e)
  probe-step fuel h (suc i) e rest =
      let (onward, answer) = rest (not_free h i e) in
      elim (Compared-all pairs name find i (entries h i e)) [
        | inl m ↦
            rw (probe-next cap slots pairs name find fuel size start h i e m onward)
              (Answer-next cap slots pairs name find size h i _ e answer)
        | inr (v, m, g, f) ↦
            rw (probe-hit cap slots pairs name find fuel size start h i e m) (at_pair i v g f)
      ]

  -- With the free entry less than `fuel` steps ahead, and not behind the start, the loop answers.
  pub probe-Answer :
      (fuel h : ℕ)
      → h < size
      → dist size h p < fuel
      → dist size h p ≤ dist size start p
      → Answer slots pairs name find size h (probe_at fuel h)
  probe-Answer zero h a b c = absurd (omega arith)
  probe-Answer (suc fuel) h a b c =
      let found = get_elem?-lt slots h (omega (arith, whole)) in
      probe-step fuel h found.0 found.1 λ n.
        let nearer = dist-wrap size h p a free_in n in
        (
          before_start h a n c,
          probe-Answer fuel (wrap size h) (wrap-lt size h a) (omega arith) (omega arith),
        )

module _ {ℓ} {V : Type ℓ} (cap size start : ℕ) (slots : List ℕ) (pairs : List (Name × V))
    (name : Name) where
  probe-onward :
      (fuel h e r : ℕ)
      → get_elem? slots h ≡ some (suc e)
      → e < length pairs
      → probe fuel (hash_bytes cap) slots pairs name true size start (wrap size h) ≢ vacant r
      → probe (suc fuel) (hash_bytes cap) slots pairs name true size start h ≢ vacant r
  probe-onward fuel h e r at lt rest = elim (Compared-all pairs name true e lt) [
    | inl m ↦ elim (ℕ_discrete (wrap size h) start) [
      | yes end ↦ rw (probe-last cap slots pairs name true fuel size start h e at m end) (λ x. cc)
      | no on ↦ rw (probe-next cap slots pairs name true fuel size start h e at m on) rest
    ]
    | inr (v, m, g, f) ↦ rw (probe-hit cap slots pairs name true fuel size start h e at m) (λ x. cc)
  ]

  -- A trail of used entries to the entry of a pair with the name: the loop does not miss it.
  pub probe-ne-vacant :
      (fuel h k q i r : ℕ) (v : V)
      → Trail slots size h k q
      → get_elem? slots q ≡ some (suc i)
      → get_elem? pairs i ≡ some (name, v)
      → ((j e : ℕ) → get_elem? slots j ≡ some (suc e) → e < length pairs)
      → probe fuel (hash_bytes cap) slots pairs name true size start h ≢ vacant r
  unfolding probe
  probe-ne-vacant zero h k q i r v t s g entries = λ x. cc
  probe-ne-vacant (suc fuel) h zero q i r v t s g entries =
      let here : get_elem? slots h ≡ some (suc i) = rw t s in
      let same = same_name-true pairs name i name v g ∙ ap some (name_eq_refl name) in
      rw (probe-hit cap slots pairs name true fuel size start h i here same) (λ x. cc)
  probe-ne-vacant (suc fuel) h (suc k) q i r v t s g entries =
      probe-onward fuel h (t.0).0 r (t.0).1 (entries h (t.0).0 (t.0).1)
        (probe-ne-vacant fuel (wrap size h) k q i r v t.1 s g entries)
