-- ===== src/Tests/Objects.antt =====
-- Vectors and property tables.
use javascript_database.Common.{
  ℕ, zero, suc, ◌+◌, ◌*◌, ◌≤◌, ◌<◌, ◌≡◌, refl, inl, inr, true, Option, none, some, List, [], ◌∷◌,
  arith, if◌then◌else◌, ◌==◌,
}
use javascript_database.Vector.{word_mod, Vector, grow_cap, vec_push, alloc_size}
use javascript_database.Vector.Bounds.{IsVector, Pushed, vec_push-Pushed}
use javascript_database.Props.Hash.{
  Name, hash_str, hash_mod, hash_bytes, hash_store, hash_entry, name_eq,
}
use javascript_database.Props.Table.{
  Table, empty, overflow, lookup_lval, probe, set_attribute, rehash, free_slot, same_name, wrap,
  start_of, set_value, delete_loop, lookup_value, lookup_rval, put, delete_field,
}
use javascript_database.Props.Valid.{IsValid, Distinct, Finds, lookup_value-Finds}
use javascript_database.Props.Refine.{
  or_undef, get_of, Puts, put-Puts, put_unique, lookup_rval-get_of, lookup_rval-put, IsValid-empty,
}
use javascript_database.Props.Marshaled.{marshal_table, lookup_value-marshal_table_one}
use javascript_database.Props.Cloned.{clone_object, lookup_rval-clone_object}
use javascript_database.Props.Attribute.{World, object, vt_object, lookup_attribute}
use javascript_database.Props.Places.{first_of, lookup_attribute-places}
use javascript_database.Props.Layout.{pair_size, alloc_size-holds}

abbrev three : Option (Vector ℕ)
three = some (record { cap = 3; items = 7 ∷ 8 ∷ 9 ∷ [] })

three-IsVector : IsVector three
three-IsVector = omega arith

vec_push-Pushed_example : Pushed three 4 (vec_push three 4)
vec_push-Pushed_example = vec_push-Pushed three 4 three-IsVector

abbrev name_a : Name
name_a = b'a' ∷ []

abbrev name_b : Name
name_b = b'b' ∷ []

-- An object with the property a = 5.
abbrev one : Table ℕ
one = record {
  cap = 10;
  pairs = (name_a, 5) ∷ [];
  slots = 0 ∷ 0 ∷ 0 ∷ 0 ∷ 0 ∷ 0 ∷ 0 ∷ 1 ∷ 0 ∷ 0 ∷ 0 ∷ 0 ∷ 0 ∷ 0 ∷ 0 ∷ [];
}

-- What the runs below compute with.
operations : Unit {0}
unfolding put lookup_lval lookup_value lookup_rval probe set_attribute rehash free_slot hash_str
    hash_store hash_entry hash_bytes hash_mod grow_cap same_name wrap start_of set_value
    delete_field name_eq delete_loop marshal_table
operations = tt

put-one : put 0 empty name_a 0 5 ≡ some one
unfolding operations
put-one = refl

one-IsValid : IsValid one
one-IsValid =
    (put_unique 0 5 empty one name_a 0 IsValid-empty (inl refl) (omega arith) put-one).valid

runs :
    (delete_field one name_a ≡ some (some 0))
    × (delete_field one name_b ≡ some none)
    × (lookup_rval 0 one name_b 0 ≡ some 0)
    × (hash_str (1 ∷ 2 ∷ 3 ∷ 4 ∷ 5 ∷ 6 ∷ 7 ∷ 8 ∷ 9 ∷ []) ≡ 3_253_889_342_951_919_371)
unfolding operations
runs = (refl, refl, refl, refl)

lookup_value-Finds_example : Finds one name_b (lookup_value one name_b 0 true)
lookup_value-Finds_example = lookup_value-Finds one name_b 0 one-IsValid (inl refl)

lookup_rval-get_of_example :
    lookup_rval 0 one name_a 97 ≡ some (or_undef 0 (get_of one.pairs name_a))
unfolding operations
lookup_rval-get_of_example = lookup_rval-get_of 0 one name_a 97 one-IsValid (inr refl)

put-Puts_example : (t' : Table ℕ) × (put 0 one name_b 0 6 ≡ some t') × Puts one name_b 6 t'
put-Puts_example = put-Puts 0 6 one name_b 0 one-IsValid (inl refl) (omega arith)

lookup_rval-put_example :
    lookup_rval 0 one name_b 0
    ≡ (if name_eq name_a name_b then some 5 else lookup_rval 0 (empty {V = ℕ}) name_b 0)
lookup_rval-put_example =
    lookup_rval-put 0 5 empty one name_a name_b 0 0 IsValid-empty (inl refl) (inl refl)
      (omega arith) put-one

abbrev two : List (Name × ℕ)
two = (name_a, 5) ∷ (name_b, 6) ∷ []

two-Distinct : Distinct two
two-Distinct zero zero name v w gi gj = refl
two-Distinct zero (suc zero) name v w gi gj = absurd (ground (arith, gi, gj))
two-Distinct zero (suc (suc j)) name v w gi gj = absurd (ground (arith, gj))
two-Distinct (suc zero) zero name v w gi gj = absurd (ground (arith, gi, gj))
two-Distinct (suc zero) (suc zero) name v w gi gj = refl
two-Distinct (suc zero) (suc (suc j)) name v w gi gj = absurd (ground (arith, gj))
two-Distinct (suc (suc i)) j name v w gi gj = absurd (ground (arith, gi))

lookup_value-marshal_table_one_example :
    (t : Table ℕ) × (marshal_table (0 ∷ []) ((name_a, 5) ∷ []) ≡ some t)
    × (lookup_value t name_b 0 true ≡ overflow)
unfolding name_eq
lookup_value-marshal_table_one_example = lookup_value-marshal_table_one name_a name_b 5 0 refl

alloc_size-holds_example :
    (8 + pair_size * 10 + hash_mod 10 * hash_bytes 10 ≤ alloc_size 10 pair_size true)
    × (alloc_size 10 pair_size true < word_mod)
alloc_size-holds_example = alloc_size-holds 10 (omega arith)

lookup_rval-clone_object_example :
    (t : Table ℕ) × (clone_object two ≡ some t)
    × IsValid t
    × (lookup_rval 0 t name_b 0 ≡ some (or_undef 0 (get_of two name_b)))
lookup_rval-clone_object_example =
    lookup_rval-clone_object 0 two name_b 0 two-Distinct (omega arith) (inl refl)

-- Object 0 has no property, object 1 is its prototype, and object 2 has the builtins.
abbrev table_of : ℕ → Table ℕ
table_of zero = empty
table_of (suc id) = one

abbrev world : World ℕ
world = record {
  objects = λ id. record {
    table = table_of id;
    proto_chain = if id == 0 then some 1 else if id == 1 then some 2 else none;
    proto_base = 0;
    proto_sub = 0;
  };
  builtin_proto = λ type. if type == vt_object then some 2 else none;
  builtin_proto_hndl = λ sub. none;
  undef = 0;
  is_undef = λ v. v == 0;
}

world-IsValid : (id : ℕ) → IsValid (world.objects id).table
world-IsValid zero = IsValid-empty
world-IsValid (suc id) = one-IsValid

lookup_attribute-places_example :
    lookup_attribute world (object 0) name_a (object 0) ≡ first_of world (0 ∷ 1 ∷ 2 ∷ []) name_a
lookup_attribute-places_example = lookup_attribute-places world world-IsValid name_a (object 0) 0

-- In storage that is not zero the entry of a property is not found free, and the loop does not end.
abbrev one_pair : List (Name × ℕ)
one_pair = (name_a, 5) ∷ []

marshal_table_run : marshal_table (9 ∷ []) one_pair ≡ none
unfolding operations
marshal_table_run = refl
