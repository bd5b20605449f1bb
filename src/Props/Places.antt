-- ===== src/Props/Places.antt =====
-- The places where `lookupAttribute` looks for an attribute, in order.
use javascript_database.Common.{
  ℕ, suc, ◌≡◌, refl, not, Option, none, some, List, [], ◌∷◌, ◌==◌, if◌then◌else◌, Bool-cases, inl,
  inr,
}
use javascript_database.Props.Hash.{Name, hash_str}
use javascript_database.Props.Valid.{IsValid}
use javascript_database.Props.Refine.{get_of, or_undef, lookup_rval-get_of}
use javascript_database.Props.Attribute.{
  read_attribute, World, Subject, object, Attribute, found, absent, in_base, in_original, all_done,
  builtin_of, base_builtins, read_attribute, or_else, examine, lookup_attribute,
}

module _ {V : Type 0} (w : World V) where
  abbrev to_list : Option ℕ → List ℕ
  to_list none = []
  to_list (some id) = id ∷ []

  -- The builtins that stand in for an object: those of its base and then the original ones, which
  -- are left out where the base has no builtins.
  abbrev pub base_places : ℕ → Subject V → List ℕ
  base_places id original =
      if (w.objects id).proto_base == 0
      then to_list (builtin_of w original)
      else elim (base_builtins w id) [ none ↦ [] | some b ↦ b ∷ to_list (builtin_of w original) ]

  -- The object, its prototype, and the builtins of the one that is looked at last.
  abbrev pub places : ℕ → Subject V → List ℕ
  places id original = id ∷ elim ((w.objects id).proto_chain) [
    | none ↦ base_places id original
    | some proto ↦ proto ∷ base_places proto original
  ]

  -- The attribute in the first of the objects where it is not undefined.
  unfoldable pub first_of : List ℕ → Name → Attribute V
  first_of [] name = absent
  first_of (id ∷ ids) name =
      let v = or_undef w.undef (get_of (w.objects id).table.pairs name) in
      if not (w.is_undef v) then found v else first_of ids name

  module _ (valid : (id : ℕ) → IsValid (w.objects id).table) (name : Name)
      (original : Subject V) where
    read_attribute-get_of :
        (id : ℕ)
        → read_attribute w (w.objects id).table name
          ≡ some (or_undef w.undef (get_of (w.objects id).table.pairs name))
    read_attribute-get_of id =
        lookup_rval-get_of w.undef (w.objects id).table name (hash_str name) (valid id) (inr refl)

    or_else-first_of :
        (id : ℕ) (ids : List ℕ) (more : Attribute V)
        → more ≡ first_of ids name
        → or_else w (read_attribute w (w.objects id).table name) more ≡ first_of (id ∷ ids) name
    unfolding first_of
    or_else-first_of id ids more h = rw (read_attribute-get_of id, h) refl

    examine-done :
        (k : ℕ) (obj : Option ℕ)
        → examine w (suc k) all_done obj original name ≡ first_of (to_list obj) name
    unfolding examine first_of
    examine-done k none = refl
    examine-done k (some id) = or_else-first_of id [] absent refl

    examine-original :
        (k : ℕ) (obj : Option ℕ)
        → examine w (suc (suc k)) in_original obj original name
          ≡ first_of (elim obj [ none ↦ [] | some b ↦ b ∷ to_list (builtin_of w original) ]) name
    unfolding examine first_of
    examine-original k none = refl
    examine-original k (some id) =
        or_else-first_of id (to_list (builtin_of w original)) _
          (examine-done k (builtin_of w original))

    examine-base :
        (k id : ℕ)
        → (if (w.objects id).proto_base == 0
            then examine w (suc (suc k)) all_done (builtin_of w original) original name
            else examine w (suc (suc k)) in_original (base_builtins w id) original name)
          ≡ first_of (base_places id original) name
    examine-base k id = elim (Bool-cases ((w.objects id).proto_base == 0)) [
      | inl without ↦ rw without (examine-done (suc k) (builtin_of w original))
      | inr with_base ↦ rw with_base (examine-original k (base_builtins w id))
    ]

    examine-in_base :
        (k id : ℕ)
        → examine w (suc (suc (suc k))) in_base (some id) original name
          ≡ first_of (id ∷ base_places id original) name
    unfolding examine
    examine-in_base k id = or_else-first_of id (base_places id original) _ (examine-base k id)

    examine-chain :
        (k id : ℕ) (proto_chain : Option ℕ)
        → elim proto_chain [
          | some proto ↦ examine w (suc (suc (suc k))) in_base (some proto) original name
          | none ↦
              if (w.objects id).proto_base == 0
              then examine w (suc (suc (suc k))) all_done (builtin_of w original) original name
              else examine w (suc (suc (suc k))) in_original (base_builtins w id) original name
        ]
          ≡ first_of
              (elim proto_chain [
                | none ↦ base_places id original
                | some proto ↦ proto ∷ base_places proto original
              ])
              name
    examine-chain k id none = examine-base (suc k) id
    examine-chain k id (some proto) = examine-in_base k proto

    -- Where all tables are well formed, reading an attribute of an object that is not in a
    -- document looks at the object, at its prototype if it has one, at the builtins of the base
    -- of the last of these, and at the builtins of the type of the original value, and gives the
    -- first value that is not undefined; the prototype of the prototype is not looked at.
    pub lookup_attribute-places :
        (id : ℕ) → lookup_attribute w (object id) name original ≡ first_of (places id original) name
    unfolding lookup_attribute
    lookup_attribute-places id =
        or_else-first_of id _ _ (examine-chain 1 id ((w.objects id).proto_chain))
