-- ===== src/Props/Refine.antt =====
-- A property table as a finite map: `lookup` and `replaceValue` against the association list of its
-- pairs.
use javascript_database.Common.{
  ℕ, zero, suc, ◌-◌, ◌*◌, ◌≤◌, ◌≡◌, inl, inr, refl, sym, ap, ◌∙◌, Bool, true, false, Option, none,
  some, List, [], ◌∷◌, ◌++◌, length, get_elem?, arith, Bool-cases, if◌then◌else◌, length-append,
}
use javascript_database.Props.Hash.{Name, hash_mod, name_eq, name_eq_sound, name_eq_refl}
use javascript_database.Props.Table.{
  Table, Lookup, lookup_value, lookup_rval, lookup_lval, set_value, put, empty,
}
use javascript_database.Props.Valid.{
  max_cap, IsValid, Distinct, Absent, IsHashOf, Finds, found, missing, lookup_value-Finds,
}
use javascript_database.Props.Insert.{set_attribute-IsValid}
use javascript_database.Props.Rehash.{IsHashed-cleared}

module _ {ℓ} {V : Type ℓ} where
  -- The map that pairs stand for.
  unfoldable pub get_of : List (Name × V) → Name → Option V
  get_of [] name = none
  get_of ((key, v) ∷ rest) name = if name_eq key name then some v else get_of rest name

  -- What the program reads for a missing property.
  abbrev pub or_undef : V → Option V → V
  or_undef undef none = undef
  or_undef undef (some v) = v

  get_of-Absent :
      (pairs : List (Name × V)) (name : Name) → Absent pairs name → get_of pairs name ≡ none
  unfolding get_of
  get_of-Absent [] name h = refl
  get_of-Absent ((key, v) ∷ rest) name h = elim (Bool-cases (name_eq key name)) [
    | inl same ↦ absurd (h 0 v (ap (λ k. some (k, v)) (name_eq_sound key name same)))
    | inr other ↦ rw other (get_of-Absent rest name (λ i w g. h (suc i) w g))
  ]

  Distinct-tail :
      (key : Name) (v : V) (rest : List (Name × V)) → Distinct ((key, v) ∷ rest) → Distinct rest
  Distinct-tail key v rest d i j name u w gi gj =
      let e = d (suc i) (suc j) name u w gi gj in omega arith

  get_of-at :
      (pairs : List (Name × V)) (i : ℕ) (name : Name) (v : V)
      → Distinct pairs
      → get_elem? pairs i ≡ some (name, v)
      → get_of pairs name ≡ some v
  unfolding get_of
  get_of-at [] i name v d g = absurd (ground (arith, g))
  get_of-at ((key, w) ∷ rest) zero name v d g =
      let same = name_eq_refl name in ground (arith, g, same)
  get_of-at ((key, w) ∷ rest) (suc i) name v d g = elim (Bool-cases (name_eq key name)) [
    | inl same ↦
        let first = d 0 (suc i) name w v (ap (λ k. some (k, w)) (name_eq_sound key name same)) g in
        absurd (omega arith)
    | inr other ↦ rw other (get_of-at rest i name v (Distinct-tail key w rest d) g)
  ]

  lookup_rval-found :
      (undef : V) (t : Table V) (name : Name) (hash : ℕ) (r : Lookup)
      → lookup_value t name hash true ≡ r
      → IsValid t
      → Finds t name r
      → lookup_rval undef t name hash ≡ some (or_undef undef (get_of t.pairs name))
  unfolding lookup_rval
  lookup_rval-found undef t name hash r e valid (found i v g) =
      let back : suc i - 1 ≡ i = omega arith in
      rw (lookup_rval, e, back, g, get_of-at t.pairs i name v valid.distinct g)
  lookup_rval-found undef t name hash r e valid (missing h absent place) =
      rw (lookup_rval, e, get_of-Absent t.pairs name absent)

  -- Reading a property of a well-formed table, with the hash of its name or 0, ends, and gives
  -- the value that the pairs hold for the name, or undefined if they hold none.
  pub lookup_rval-get_of :
      (undef : V) (t : Table V) (name : Name) (hash : ℕ)
      → IsValid t
      → IsHashOf hash name
      → lookup_rval undef t name hash ≡ some (or_undef undef (get_of t.pairs name))
  lookup_rval-get_of undef t name hash valid g =
      lookup_rval-found undef t name hash _ refl valid (lookup_value-Finds t name hash valid g)

  -- Writes through a value slot.
  length-set_value :
      (pairs : List (Name × V)) (i : ℕ) (v : V) → length (set_value pairs i v) ≡ length pairs
  unfolding set_value
  length-set_value [] i v = refl
  length-set_value ((key, w) ∷ rest) zero v = refl
  length-set_value ((key, w) ∷ rest) (suc i) v = ap suc (length-set_value rest i v)

  set_value-key :
      (pairs : List (Name × V)) (i j : ℕ) (v u : V) (name : Name)
      → get_elem? (set_value pairs i v) j ≡ some (name, u)
      → (w : V) × (get_elem? pairs j ≡ some (name, w))
  unfolding set_value
  set_value-key [] i j v u name g = (u, g)
  set_value-key ((key, w) ∷ rest) zero zero v u name g = (w, ground (arith, g))
  set_value-key ((key, w) ∷ rest) zero (suc j) v u name g = (u, g)
  set_value-key ((key, w) ∷ rest) (suc i) zero v u name g = (u, g)
  set_value-key ((key, w) ∷ rest) (suc i) (suc j) v u name g = set_value-key rest i j v u name g

  get_of-set_value :
      (pairs : List (Name × V)) (i : ℕ) (name m : Name) (v w : V)
      → Distinct pairs
      → get_elem? pairs i ≡ some (name, w)
      → get_of (set_value pairs i v) m ≡ (if name_eq name m then some v else get_of pairs m)
  unfolding set_value get_of
  get_of-set_value [] i name m v w d g = absurd (ground (arith, g))
  get_of-set_value ((key, u) ∷ rest) zero name m v w d g =
      let e : key ≡ name = ground (arith, g) in rw e (ground arith)
  get_of-set_value ((key, u) ∷ rest) (suc i) name m v w d g =
      let both = λ (a : name_eq key m ≡ true) (b : name_eq name m ≡ true).
        d 0 (suc i) name u w
          (ap (λ k. some (k, u)) (name_eq_sound key m a ∙ sym (name_eq_sound name m b))) g in
      let rest_is = get_of-set_value rest i name m v w (Distinct-tail key u rest d) g in
      elim (Bool-cases (name_eq key m)) [
        | inl a ↦ elim (Bool-cases (name_eq name m)) [
          | inl b ↦ absurd (omega (arith, both a b))
          | inr b ↦ rw (a, b)
        ]
        | inr a ↦ rw a rest_is
      ]

  get_of-append :
      (pairs : List (Name × V)) (name m : Name) (v : V)
      → Absent pairs name
      → get_of (pairs ++ (name, v) ∷ []) m ≡ (if name_eq name m then some v else get_of pairs m)
  unfolding get_of
  get_of-append [] name m v h = refl
  get_of-append ((key, w) ∷ rest) name m v h =
      let rest_is = get_of-append rest name m v (λ i u g. h (suc i) u g) in
      elim (Bool-cases (name_eq key m)) [
        | inl a ↦ elim (Bool-cases (name_eq name m)) [
          | inl b ↦
              absurd (
                h 0 w
                  (ap (λ k. some (k, w)) (name_eq_sound key m a ∙ sym (name_eq_sound name m b))))
          | inr b ↦ rw (a, b)
        ]
        | inr a ↦ rw a rest_is
      ]

  set_value-append :
      (pairs : List (Name × V)) (name : Name) (u v : V)
      → set_value (pairs ++ (name, u) ∷ []) (length pairs) v ≡ pairs ++ (name, v) ∷ []
  unfolding set_value
  set_value-append [] name u v = refl
  set_value-append ((key, w) ∷ rest) name u v =
      ap (λ r. (key, w) ∷ r) (set_value-append rest name u v)

  -- Replacing a value leaves a table well formed.
  set_value-IsValid :
      (t : Table V) (i : ℕ) (v : V)
      → IsValid t
      → IsValid (record t { pairs = set_value t.pairs i v })
  set_value-IsValid t i v valid = record {
    fits = omega (arith, length-set_value t.pairs i v, valid.fits);
    cap_in = valid.cap_in;
    hashed = record {
      whole = valid.hashed.whole;
      used_is = valid.hashed.used_is ∙ sym (length-set_value t.pairs i v);
      entries = λ h j e. omega (arith, valid.hashed.entries h j e, length-set_value t.pairs i v);
      located = λ j name u g.
          let (w, old) = set_value-key t.pairs i j v u name g in valid.hashed.located j name w old;
    };
    distinct = λ j k name u w gj gk.
        let (u', oj) = set_value-key t.pairs i j v u name gj in
        let (w', ok) = set_value-key t.pairs i k v w name gk in valid.distinct j k name u' w' oj ok;
  }

  -- What writing a property may do to a table.
  pub record Puts (t : Table V) (name : Name) (v : V) (t' : Table V) : Type ℓ where
    pub valid : IsValid t'
    pub reads :
        (m : Name) → get_of t'.pairs m ≡ (if name_eq name m then some v else get_of t.pairs m)

  put-found :
      (undef v : V) (t : Table V) (name : Name) (hash : ℕ) (r : Lookup)
      → lookup_value t name hash true ≡ r
      → IsValid t
      → 2 * t.cap ≤ max_cap
      → Finds t name r
      → (t' : Table V) × (put undef t name hash v ≡ some t') × Puts t name v t'
  unfolding put lookup_lval
  put-found undef v t name hash r e valid room (found i w g) =
      let back : suc i - 1 ≡ i = omega arith in
      (
        record t { pairs = set_value t.pairs i v },
        rw (put, lookup_lval, e, back),
        record {
          valid = set_value-IsValid t i v valid;
          reads = λ m. get_of-set_value t.pairs i name m v w valid.distinct g;
        },
      )
  put-found undef v t name hash r e valid room (missing h absent place) =
      let (t', added, valid', pairs_are) =
        set_attribute-IsValid t name undef valid absent room h place in
      let n : length t'.pairs - 1 ≡ length t.pairs =
        omega (arith, ap length pairs_are, length-append t.pairs ((name, undef) ∷ [])) in
      let shape : set_value t'.pairs (length t.pairs) v ≡ t.pairs ++ (name, v) ∷ [] =
        ap (λ ps. set_value ps (length t.pairs) v) pairs_are
        ∙ set_value-append t.pairs name undef v in
      (
        record t' { pairs = set_value t'.pairs (length t.pairs) v },
        rw (put, lookup_lval, e, added, n),
        record {
          valid = set_value-IsValid t' (length t.pairs) v valid';
          reads = λ m. ap (λ ps. get_of ps m) shape ∙ get_of-append t.pairs name m v absent;
        },
      )

  -- Writing a property of a well-formed table whose doubled capacity is within the largest one
  -- succeeds: it leaves a well-formed table, whose pairs hold the value written for the name and,
  -- for every other name, what they held before.
  pub put-Puts :
      (undef v : V) (t : Table V) (name : Name) (hash : ℕ)
      → IsValid t
      → IsHashOf hash name
      → 2 * t.cap ≤ max_cap
      → (t' : Table V) × (put undef t name hash v ≡ some t') × Puts t name v t'
  put-Puts undef v t name hash valid g room =
      put-found undef v t name hash _ refl valid room (lookup_value-Finds t name hash valid g)

  pub put_unique :
      (undef v : V) (t t' : Table V) (name : Name) (hash : ℕ)
      → IsValid t
      → IsHashOf hash name
      → 2 * t.cap ≤ max_cap
      → put undef t name hash v ≡ some t'
      → Puts t name v t'
  put_unique undef v t t' name hash valid g room e =
      let (u, eu, puts) = put-Puts undef v t name hash valid g room in
      let same : u ≡ t' = ground (arith, eu) in rw (← same) puts

  -- On a well-formed table whose doubled capacity is within the largest one, after a write that
  -- succeeds, the property reads as the value written, and every other as it did before the
  -- write, whether the hash of a name is given or left 0.
  pub lookup_rval-put :
      (undef v : V) (t t' : Table V) (name m : Name) (hash hash' : ℕ)
      → IsValid t
      → IsHashOf hash name
      → IsHashOf hash' m
      → 2 * t.cap ≤ max_cap
      → put undef t name hash v ≡ some t'
      → lookup_rval undef t' m hash'
        ≡ (if name_eq name m then some v else lookup_rval undef t m hash')
  lookup_rval-put undef v t t' name m hash hash' valid g g' room e =
      let puts = put_unique undef v t t' name hash valid g room e in
      let after = lookup_rval-get_of undef t' m hash' puts.valid g' in
      let before = lookup_rval-get_of undef t m hash' valid g' in
      rw (after, before, puts.reads m) (or_undef-if undef v (name_eq name m) (get_of t.pairs m))
    where
      or_undef-if :
          (undef v : V) (b : Bool) (o : Option V)
          → some (or_undef undef (if b then some v else o))
            ≡ (if b then some v else some (or_undef undef o))
      or_undef-if undef v true o = refl
      or_undef-if undef v false o = refl

  -- A new object has a well-formed table with no property.
  pub IsValid-empty : IsValid (empty {V = V})
  IsValid-empty = record {
    fits = omega arith;
    cap_in = (omega arith, omega arith);
    hashed = unfold hash_mod in IsHashed-cleared {V = V} 0;
    distinct = λ i j name v w gi gj. absurd (ground (arith, gi));
  }
