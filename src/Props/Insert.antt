-- ===== src/Props/Insert.antt =====
-- Entering a pair into a well-formed property table, in place and by a rehash.
use javascript_database.Common.{
  ℕ, suc, ◌+◌, ◌*◌, ◌%◌, ◌≤◌, ◌<◌, ◌≡◌, ◌≢◌, ◌⊎◌, inl, inr, refl, sym, ◌∙◌, false, some, List, [],
  ◌∷◌, ◌++◌, length, get_elem?, set, replicate, arith, lt-get_elem?, ltb, lt→ltb, length-append,
}
use native.Mathlib.Decide.{dec_lt}
use javascript_database.Vector.{word_mod, grow_cap}
use javascript_database.Props.Hash.{Name, hash_mod, hash_bytes, hash_store-hash_bytes}
use javascript_database.Props.Table.{Table, rehash, set_attribute}
use javascript_database.Props.Valid.{max_cap, IsValid, Distinct, Absent, IsPlace, hash_mod_pos}
use javascript_database.Props.Rehash.{
  appended_pair, IsHashed-enter, rehash-IsHashed, IsHashed-cleared,
}

-- The capacity after a growth holds one more pair.
grow_cap_room :
    (cap cnt : ℕ)
    → cnt ≤ cap
    → cap ≢ 1
    → 2 * cap ≤ max_cap
    → (cnt + 1 ≤ grow_cap cap cnt cap)
      × (2 ≤ grow_cap cap cnt cap)
      × (grow_cap cap cnt cap ≤ max_cap)
unfolding grow_cap
grow_cap_room cap cnt a b c = ground arith

module _ {ℓ} {V : Type ℓ} (t : Table V) (name : Name) (undef : V) (valid : IsValid t)
    (absent : Absent t.pairs name) (room : 2 * t.cap ≤ max_cap) where
  abbrev added : List (Name × V)
  added = t.pairs ++ (name, undef) ∷ []

  added-Distinct : Distinct added
  added-Distinct i j m v w gi gj =
      let pi = added_pair i m v gi in
      let pj = added_pair j m w gj in
      elim pi [
        | inl oi ↦ elim pj [
          | inl oj ↦ valid.distinct i j m v w oi oj
          | inr (lj, ej) ↦ absurd (absent i v (rw ej oi))
        ]
        | inr (li, ei) ↦ elim pj [
          | inl oj ↦ absurd (absent j w (rw ei oj))
          | inr (lj, ej) ↦ li ∙ sym lj
        ]
      ]
    where
      added_pair :
          (i : ℕ) (m : Name) (u : V)
          → get_elem? added i ≡ some (m, u)
          → (get_elem? t.pairs i ≡ some (m, u)) ⊎ ((i ≡ length t.pairs) × (name ≡ m))
      added_pair = appended_pair t.pairs name undef

  length-added : length added ≡ suc (length t.pairs)
  length-added = omega (arith, length-append t.pairs ((name, undef) ∷ []))

  set_attribute_in_place :
      (h : ℕ)
      → length t.pairs + 1 < t.cap
      → IsPlace t.cap t.slots name h
      → set_attribute undef t name h
        ≡ some (record t { pairs = added; slots = set t.slots h (suc (length t.pairs)) })
  unfolding set_attribute
  set_attribute_in_place h lt place =
      let test = lt→ltb ((length t.pairs + 1) % word_mod) t.cap (omega (arith, valid.cap_in.1)) in
      let h_in = lt-get_elem? t.slots h 0 place.2 in
      let stored =
        hash_store-hash_bytes t.slots t.cap h (suc (length t.pairs)) h_in (omega arith)
          (omega (arith, valid.cap_in.1)) in
      rw (set_attribute, test, length-added, stored)

  set_attribute_grown :
      (h : ℕ) (slots' : List ℕ)
      → t.cap ≤ length t.pairs + 1
      → rehash
          (hash_bytes (grow_cap t.cap (length t.pairs) t.cap))
          (hash_mod (grow_cap t.cap (length t.pairs) t.cap))
          added
          0
          (replicate (hash_mod (grow_cap t.cap (length t.pairs) t.cap)) 0)
        ≡ some slots'
      → set_attribute undef t name h
        ≡ some
            (record { cap = grow_cap t.cap (length t.pairs) t.cap; pairs = added; slots = slots' })
  unfolding set_attribute
  set_attribute_grown h slots' ge e =
      let test : ltb ((length t.pairs + 1) % word_mod) t.cap ≡ false =
        ground (arith, valid.fits, valid.cap_in.1) in
      rw (set_attribute, test, e)

  -- `setAttribute` at the place that `lookupValue` found adds the pair, in place or after growing.
  pub set_attribute-IsValid :
      (h : ℕ)
      → (t.cap ≡ 0) ⊎ IsPlace t.cap t.slots name h
      → (t' : Table V) × (set_attribute undef t name h ≡ some t')
        × IsValid t'
        × (t'.pairs ≡ t.pairs ++ (name, undef) ∷ [])
  set_attribute-IsValid h place = elim (dec_lt (length t.pairs + 1) t.cap) [
    | yes lt ↦ elim place [
      | inl null ↦ absurd (omega arith)
      | inr spot ↦ (
        record t { pairs = added; slots = set t.slots h (suc (length t.pairs)) },
        set_attribute_in_place h lt spot,
        record {
          fits = omega (arith, length-added);
          cap_in = valid.cap_in;
          hashed = IsHashed-enter t.cap h t.pairs t.slots name undef valid.hashed spot;
          distinct = added-Distinct;
        },
        refl,
      )
    ]
    | no ge ↦
        let cap' = grow_cap t.cap (length t.pairs) t.cap in
        let (holds, two, below) =
          grow_cap_room t.cap (length t.pairs) valid.fits valid.cap_in.0 room in
        let wide = hash_mod_pos cap' two below in
        let (slots', e, w) =
          rehash-IsHashed cap' (omega (arith, wide)) below added [] (replicate (hash_mod cap') 0)
            (IsHashed-cleared cap') (omega (arith, length-added)) in
        (
          record { cap = cap'; pairs = added; slots = slots' },
          set_attribute_grown h slots' (omega arith) e,
          record {
            fits = omega (arith, length-added);
            cap_in = (omega arith, below);
            hashed = w;
            distinct = added-Distinct;
          },
          refl,
        )
  ]
