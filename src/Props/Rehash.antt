-- ===== src/Props/Rehash.antt =====
-- The hash table after a pair is entered, and after a rehash.
use javascript_database.Common.{
  ℕ, zero, suc, ◌+◌, ◌%◌, ◌≤◌, ◌<◌, ◌≡◌, ◌≢◌, ◌⊎◌, inl, inr, refl, sym, ap, ◌∙◌, false, some, List,
  [], ◌∷◌, ◌++◌, length, get_elem?, set, replicate, arith, lt-get_elem?, length-set, length-append,
  get_elem?-set_self, get_elem?-set_ne, get_elem?-append_left, get_elem?-append_end,
  length-replicate,
}
use mathlib.Core.List.{append_assoc, append-nil}
use native.Mathlib.Numerals.{add-one}
use native.Mathlib.Decide.{ℕ_discrete, dec_lt}
use javascript_database.Props.Hash.{
  Name, hash_str, hash_mod, hash_bytes, hash_store, hash_store-hash_bytes,
}
use javascript_database.Props.Table.{Lookup, vacant, wrap, same_name, probe, free_slot, rehash}
use javascript_database.Props.Trail.{
  Trail, Trail-set, used-set, used-replicate, get_elem?-replicate,
}
use javascript_database.Props.Probe.{Answer, at_pair, at_free}
use javascript_database.Props.Valid.{max_cap, IsHashed, IsHashed-Answer, IsPlace}

-- A pair of an extended vector is an old one, or the new one at the end.
pub appended_pair {ℓ} :
    {V : Type ℓ} (pairs : List (Name × V)) (name : Name) (v : V) (i : ℕ) (m : Name) (u : V)
    → get_elem? (pairs ++ (name, v) ∷ []) i ≡ some (m, u)
    → (get_elem? pairs i ≡ some (m, u)) ⊎ ((i ≡ length pairs) × (name ≡ m))
appended_pair pairs name v i m u g = elim (dec_lt i (length pairs)) [
  | yes lt ↦ inl (sym (get_elem?-append_left pairs ((name, v) ∷ []) i lt) ∙ g)
  | no ge ↦
      let last : i ≡ length pairs = omega (
        arith,
        lt-get_elem? (pairs ++ (name, v) ∷ []) i (m, u) g,
        length-append pairs ((name, v) ∷ []),
      ) in
      let end = get_elem?-append_end pairs (name, v) in
      inr (last, ground (arith, end, rw last at g))
]

module _ {ℓ} {V : Type ℓ} (cap h : ℕ) (pairs : List (Name × V)) (slots : List ℕ) (name : Name)
    (v : V) (w : IsHashed cap pairs slots) (place : IsPlace cap slots name h) where
  abbrev pairs' : List (Name × V)
  pairs' = pairs ++ (name, v) ∷ []

  abbrev slots' : List ℕ
  slots' = set slots h (suc (length pairs))

  h_in : h < length slots
  h_in = lt-get_elem? slots h 0 place.2

  entered_entries : (p i : ℕ) → get_elem? slots' p ≡ some (suc i) → i < length pairs'
  entered_entries p i g = elim (ℕ_discrete h p) [
    | yes same ↦
        let here = get_elem?-set_self slots h (suc (length pairs)) h_in in
        let there : get_elem? slots' h ≡ some (suc i) = ap (get_elem? slots') same ∙ g in
        let eq : i ≡ length pairs = ground (arith, here, there) in
        omega (arith, eq, length-append pairs ((name, v) ∷ []))
    | no other ↦ omega (
      arith,
      w.entries p i (sym (get_elem?-set_ne slots h p (suc (length pairs)) other) ∙ g),
      length-append pairs ((name, v) ∷ []),
    )
  ]

  entered_located :
      (i : ℕ) (m : Name) (u : V)
      → get_elem? pairs' i ≡ some (m, u)
      → (k : ℕ) × (q : ℕ) × Trail slots' (hash_mod cap) (hash_str m % hash_mod cap) k q
        × (get_elem? slots' q ≡ some (suc i))
  entered_located i m u g = elim (appended_pair pairs name v i m u g) [
    | inl old ↦
        let (k, q, trail, at) = w.located i m u old in
        let other : h ≢ q = λ e. ground (arith, place.2, rw (← e) at at) in
        (
          k,
          q,
          Trail-set slots (hash_mod cap) (hash_str m % hash_mod cap) k h q (length pairs) place.2
              trail,
          get_elem?-set_ne slots h q (suc (length pairs)) other ∙ at,
        )
    | inr (last, e) ↦ (
      place.0,
      h,
      rw (← e) (
          Trail-set slots (hash_mod cap) (hash_str name % hash_mod cap) place.0 h h (length pairs)
            place.2 place.1),
      rw last (get_elem?-set_self slots h (suc (length pairs)) h_in),
    )
  ]

  pub IsHashed-enter : IsHashed cap pairs' slots'
  IsHashed-enter = record {
    whole = length-set slots h (suc (length pairs)) ∙ w.whole;
    used_is = omega (
      arith,
      used-set slots h (length pairs) place.2,
      w.used_is,
      length-append pairs ((name, v) ∷ []),
    );
    entries = entered_entries;
    located = entered_located;
  }

pub IsHashed-cleared {ℓ} :
    {V : Type ℓ} (cap : ℕ) → IsHashed {V = V} cap [] (replicate (hash_mod cap) 0)
IsHashed-cleared cap = record {
  whole = length-replicate (hash_mod cap) 0;
  used_is = used-replicate (hash_mod cap);
  entries = λ h i e. absurd (omega (arith, get_elem?-replicate (hash_mod cap) h (suc i) e));
  located = λ i name v g. absurd (ground (arith, g));
}

module _ {ℓ} {V : Type ℓ} (cap : ℕ) (slots : List ℕ) (pairs : List (Name × V)) (name : Name) where
  -- The rehash finds its entry as a lookup that compares no name does.
  free_slot-probe :
      (fuel size start h q : ℕ)
      → probe fuel (hash_bytes cap) slots pairs name false size start h ≡ vacant q
      → free_slot fuel (hash_bytes cap) slots size h ≡ some q
  unfolding probe free_slot same_name
  free_slot-probe zero size start h q e = cc
  free_slot-probe (suc fuel) size start h q e =
      ground (arith, free_slot-probe fuel size start (wrap size h) q)

  free_slot-IsPlace :
      IsHashed cap pairs slots
      → length pairs < hash_mod cap
      → (h : ℕ) × (free_slot
            (hash_mod cap)
            (hash_bytes cap)
            slots
            (hash_mod cap)
            (hash_str name % hash_mod cap)
          ≡ some h)
        × IsPlace cap slots name h
  free_slot-IsPlace w room =
      at_answer _ refl (IsHashed-Answer cap slots pairs name w room false start (omega arith))
    where
      start : ℕ
      start = hash_str name % hash_mod cap

      at_answer :
          (r : Lookup)
          → probe (hash_mod cap) (hash_bytes cap) slots pairs name false (hash_mod cap) start start
            ≡ r
          → Answer slots pairs name false (hash_mod cap) start r
          → (h : ℕ) × (free_slot
                (hash_mod cap)
                (hash_bytes cap)
                slots
                (hash_mod cap)
                (hash_str name % hash_mod cap)
              ≡ some h)
            × IsPlace cap slots name h
      at_answer r e (at_pair i v g f) = absurd (cc)
      at_answer r e (at_free k q trail z) =
          (q, free_slot-probe (hash_mod cap) (hash_mod cap) start start q e, (k, trail, z))

module _ {ℓ} {V : Type ℓ} (cap : ℕ) (big : cap ≤ hash_mod cap) (cap_in : cap ≤ max_cap) where
  rehash-next :
      (rest done : List (Name × V)) (slots : List ℕ) (name : Name) (v : V) (h : ℕ)
      → free_slot
          (hash_mod cap)
          (hash_bytes cap)
          slots
          (hash_mod cap)
          (hash_str name % hash_mod cap)
        ≡ some h
      → hash_store slots (hash_bytes cap) h (length done + 1)
        ≡ some (set slots h (suc (length done)))
      → rehash (hash_bytes cap) (hash_mod cap) ((name, v) ∷ rest) (length done) slots
        ≡ rehash
            (hash_bytes cap)
            (hash_mod cap)
            rest
            (length (done ++ (name, v) ∷ []))
            (set slots h (suc (length done)))
  unfolding rehash
  rehash-next rest done slots name v h e s =
      let n : length done + 1 ≡ length (done ++ (name, v) ∷ []) =
        omega (arith, length-append done ((name, v) ∷ [])) in
      rw (rehash, e, s, n)

  -- The rehash loop enters all pairs that remain.
  pub rehash-IsHashed :
      (rest done : List (Name × V)) (slots : List ℕ)
      → IsHashed cap done slots
      → length done + length rest ≤ cap
      → (slots' : List ℕ) × (rehash (hash_bytes cap) (hash_mod cap) rest (length done) slots
          ≡ some slots')
        × IsHashed cap (done ++ rest) slots'
  unfolding rehash
  rehash-IsHashed [] done slots w room = (slots, refl, rw append-nil w)
  rehash-IsHashed ((name, v) ∷ rest) done slots w room =
      let (h, found, place) = free_slot-IsPlace cap slots done name w (omega arith) in
      let h_in = lt-get_elem? slots h 0 place.2 in
      let stored : hash_store slots (hash_bytes cap) h (length done + 1)
          ≡ some (set slots h (suc (length done))) =
        rw add-one (
          hash_store-hash_bytes slots cap h (suc (length done)) h_in (omega arith) (omega arith)) in
      let (slots', e, w') =
        rehash-IsHashed rest (done ++ (name, v) ∷ []) (set slots h (suc (length done)))
          (IsHashed-enter cap h done slots name v w place)
          (omega (arith, length-append done ((name, v) ∷ []))) in
      (slots', rehash-next rest done slots name v h found stored ∙ e, rw append_assoc at w')
