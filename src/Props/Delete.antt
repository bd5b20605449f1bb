-- ===== src/Props/Delete.antt =====
-- `deleteField`, a search of the whole hash table.
use javascript_database.Common.{
  ℕ, zero, suc, ◌%◌, ◌<◌, ◌≡◌, ◌≢◌, ◌⊎◌, inl, inr, refl, ap, ◌∙◌, true, Option, none, some, List,
  length, get_elem?, arith, get_elem?-lt, lt-get_elem?, ne→==_false,
}
use native.Mathlib.Decide.{ℕ_discrete}
use javascript_database.Props.Hash.{
  Name, hash_str, hash_mod, hash_bytes, hash_entry-hash_bytes, name_eq_refl,
}
use javascript_database.Props.Table.{Table, delete_loop, delete_field, wrap}
use javascript_database.Props.Trail.{wrap-lt, dist, dist-lt, dist-wrap}
use javascript_database.Props.Probe.{Compared-all, same_name-true}
use javascript_database.Props.Valid.{null_Absent, IsValid, Absent, hash_mod_pos}

-- A correct answer of `deleteField`: the pair with the name, or NULL if there is none.
pub data Locates {ℓ} {V : Type ℓ} (pairs : List (Name × V)) (name : Name)
    : Option (Option ℕ) → Type ℓ where
  located_at :
      (i : ℕ) (v : V) → get_elem? pairs i ≡ some (name, v) → Locates pairs name (some (some i))
  nowhere : Absent pairs name → Locates pairs name (some none)

module _ {ℓ} {V : Type ℓ} (cap size : ℕ) (slots : List ℕ) (pairs : List (Name × V)) (name : Name)
    (whole : length slots ≡ size)
    (entries : (h i : ℕ) → get_elem? slots h ≡ some (suc i) → i < length pairs) where
  abbrev loop : ℕ → ℕ → Option (Option ℕ)
  loop left h = delete_loop left (hash_bytes cap) slots pairs name size h

  -- One round: it ends with a pair that has the name, or goes on.
  data Round (left h : ℕ) : Type ℓ where
    ends :
        (i : ℕ) (v : V)
        → get_elem? slots h ≡ some (suc i)
        → loop (suc left) h ≡ some (some i)
        → get_elem? pairs i ≡ some (name, v)
        → Round left h
    goes_on :
        loop (suc left) h ≡ loop left (wrap size h)
        → ((i : ℕ) (v : V) → get_elem? slots h ≡ some (suc i) → get_elem? pairs i ≢ some (name, v))
        → Round left h

  Round-used : (left h i : ℕ) → get_elem? slots h ≡ some (suc i) → Round left h
  unfolding delete_loop
  Round-used left h i e = elim (Compared-all pairs name true i (entries h i e)) [
    | inl m ↦
        goes_on (rw (delete_loop, hash_entry-hash_bytes slots cap h, e, delete_loop, m)) λ j v f g.
          let k : j ≡ i = ground (arith, e, f) in
          let same =
            same_name-true pairs name i name v (rw (← k) g) ∙ ap some (name_eq_refl name) in
          cc
    | inr (v, m, g, f) ↦
        ends i v e (rw (delete_loop, hash_entry-hash_bytes slots cap h, e, delete_loop, m)) g
  ]

  Round-at : (left h e : ℕ) → get_elem? slots h ≡ some e → Round left h
  unfolding delete_loop
  Round-at left h zero e =
      goes_on (rw (delete_loop, hash_entry-hash_bytes slots cap h, e))
        λ i v f. absurd (ground (arith, e))
  Round-at left h (suc i) e = Round-used left h i e

  Round-all : (left h : ℕ) → h < size → Round left h
  Round-all left h a =
      let (e, at) = get_elem?-lt slots h (omega (arith, whole)) in Round-at left h e at

  loop_sound :
      (left h : ℕ)
      → h < size
      → (loop left h ≡ some none)
        ⊎ ((i : ℕ) × (v : V) × (loop left h ≡ some (some i)) × (get_elem? pairs i ≡ some (name, v)))
  unfolding delete_loop
  loop_sound zero h a = inl refl
  loop_sound (suc left) h a = elim (Round-all left h a) [
    | ends i v at e g ↦ inr (i, v, e, g)
    | goes_on e other ↦ rw e (loop_sound left (wrap size h) (wrap-lt size h a))
  ]

  loop_complete :
      (left h q i : ℕ) (v : V)
      → h < size
      → q < size
      → dist size h q < left
      → get_elem? slots q ≡ some (suc i)
      → get_elem? pairs i ≡ some (name, v)
      → loop left h ≢ some none
  loop_complete zero h q i v a b c s g = absurd (omega arith)
  loop_complete (suc left) h q i v a b c s g = elim (Round-all left h a) [
    | ends j w at e g' ↦ rw e (λ x. cc)
    | goes_on e other ↦ elim (ℕ_discrete h q) [
      | yes same ↦ absurd (other i v (ap (get_elem? slots) same ∙ s) g)
      | no ne ↦ rw e (
          loop_complete left (wrap size h) q i v (wrap-lt size h a) b
            (omega (arith, dist-wrap size h q a b ne)) s g)
    ]
  ]

module _ {ℓ} {V : Type ℓ} (t : Table V) (name : Name) (valid : IsValid t) where
  start : ℕ
  start = hash_str name % hash_mod t.cap

  start_in : t.cap ≢ 0 → start < hash_mod t.cap
  unfolding start
  start_in n =
      let wide = hash_mod_pos t.cap (omega (arith, valid.cap_in.0)) valid.cap_in.1 in omega arith

  Absent-delete_loop :
      t.cap ≢ 0
      → delete_loop (hash_mod t.cap) (hash_bytes t.cap) t.slots t.pairs name (hash_mod t.cap) start
        ≡ some none
      → Absent t.pairs name
  Absent-delete_loop n e i v g =
      let (k, q, trail, s) = valid.hashed.located i name v g in
      let q_in : q < hash_mod t.cap =
        omega (arith, lt-get_elem? t.slots q (suc i) s, valid.hashed.whole) in
      loop_complete t.cap (hash_mod t.cap) t.slots t.pairs name valid.hashed.whole
        valid.hashed.entries (hash_mod t.cap) start q i v (start_in n) q_in
        (dist-lt (hash_mod t.cap) start q (start_in n) q_in) s g e

  whole_loop :
      t.cap ≢ 0
      → Locates t.pairs name (
          delete_loop
            (hash_mod t.cap)
            (hash_bytes t.cap)
            t.slots
            t.pairs
            name
            (hash_mod t.cap)
            start)
  whole_loop n =
      elim (loop_sound t.cap (hash_mod t.cap) t.slots t.pairs name valid.hashed.whole
        valid.hashed.entries (hash_mod t.cap) start (start_in n)) [
          | inl e ↦ rw e (nowhere (Absent-delete_loop n e))
          | inr (i, v, e, g) ↦ rw e (located_at i v g)
        ]

  -- On a well-formed table `deleteField` ends: it finds the pair with the name, or nothing where
  -- no pair has it.
  pub delete_field-Locates : Locates t.pairs name (delete_field t name)
  unfolding delete_field start
  delete_field-Locates = elim (ℕ_discrete t.cap 0) [
    | yes z ↦ rw z (nowhere (null_Absent t name valid z))
    | no n ↦ rw (ne→==_false t.cap 0 n) (whole_loop n)
  ]
