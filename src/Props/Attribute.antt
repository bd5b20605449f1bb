-- ===== src/Props/Attribute.antt =====
-- `lookupAttribute`, which looks for an attribute in an object, its prototype and the builtins. It is
-- modelled for reading, up to the call of `evalBuiltin` with what it has found.
use javascript_database.Common.{
  ℕ, zero, suc, Bool, not, Option, none, some, [], ◌∷◌, ◌==◌, if◌then◌else◌,
}
use javascript_database.Props.Hash.{Name, hash_str, name_eq}
use javascript_database.Props.Table.{Table, lookup_rval}

abbrev pub vt_closure : ℕ
vt_closure = 13

abbrev pub vt_object : ℕ
vt_object = 21

abbrev pub vt_hndl : ℕ
vt_hndl = 30

pub record Object (V : Type 0) : Type 0 where
  pub table : Table V
  -- The prototype, if there is one.
  pub proto_chain : Option ℕ
  pub proto_base : ℕ
  pub proto_sub : ℕ

-- The objects by their addresses, `builtinProto` and `builtinProtoHndl` with the addresses of the
-- objects in them, and the undefined values.
pub record World (V : Type 0) : Type 0 where
  pub objects : ℕ → Object V
  pub builtin_proto : ℕ → Option ℕ
  pub builtin_proto_hndl : ℕ → Option ℕ
  pub undef : V
  pub is_undef : V → Bool

-- What an attribute is looked up in: an object, one in a document, a handle with its subtype, a
-- closure with its prototype and its object, another type with an object, or without.
pub data Subject (V : Type 0) : Type 0 where
  object : ℕ → Subject V
  marshaled : Table V → Subject V
  handle : ℕ → Subject V
  closure : V → ℕ → Subject V
  boxed : ℕ → ℕ → Subject V
  typed : ℕ → Subject V

-- What comes of it: a value for `evalBuiltin`, the prototype of a closure, undefined, a fault or
-- `exit`, or no end within the fuel.
pub data Attribute (V : Type 0) : Type 0 where
  found own : V → Attribute V
  absent failed stuck : Attribute V

-- LookupPhase
pub data Phase : Type 0 where
  in_chain in_base in_original all_done : Phase

module _ {V : Type 0} (w : World V) where
  abbrev pub builtin_of : Subject V → Option ℕ
  builtin_of (object id) = w.builtin_proto vt_object
  builtin_of (marshaled t) = w.builtin_proto vt_object
  builtin_of (handle sub) = w.builtin_proto_hndl sub
  builtin_of (closure proto id) = w.builtin_proto vt_closure
  builtin_of (boxed type id) = w.builtin_proto type
  builtin_of (typed type) = w.builtin_proto type

  -- The builtins of protoBase.
  abbrev pub base_builtins : ℕ → Option ℕ
  base_builtins id =
      let oval = w.objects id in
      if oval.proto_base == vt_hndl
      then w.builtin_proto_hndl oval.proto_sub
      else w.builtin_proto oval.proto_base

  abbrev pub read_attribute : Table V → Name → Option V
  read_attribute t name = lookup_rval w.undef t name (hash_str name)

  -- `more` is what follows where the table has no such attribute.
  abbrev pub or_else : Option V → Attribute V → Attribute V
  or_else none more = failed
  or_else (some v) more = if not (w.is_undef v) then found v else more

  unfoldable pub examine : ℕ → Phase → Option ℕ → Subject V → Name → Attribute V
  unfolding lookup_rval hash_str
  examine zero phase obj original name = stuck
  examine (suc fuel) phase none original name = absent
  examine (suc fuel) phase (some id) original name =
      let in_original_type = examine fuel all_done (builtin_of original) original name in
      let in_base_type =
        (if (w.objects id).proto_base == 0
          then in_original_type
          else examine fuel in_original (base_builtins id) original name) in
      or_else (read_attribute (w.objects id).table name) (elim phase [
        | in_chain ↦ elim ((w.objects id).proto_chain) [
          | some proto ↦ examine fuel in_base (some proto) original name
          | none ↦ in_base_type
        ]
        | in_base ↦ in_base_type
        | in_original ↦ in_original_type
        | all_done ↦ absent
      ])

  abbrev pub in_builtin : Option ℕ → Name → Attribute V → Attribute V
  in_builtin none name more = failed
  in_builtin (some id) name more = or_else (read_attribute (w.objects id).table name) more

  -- An attribute of an object in a document.
  abbrev pub examine_document : Table V → Subject V → Name → Attribute V
  examine_document t original name =
      or_else (read_attribute t name)
        (in_builtin (builtin_of original) name (in_builtin (w.builtin_proto vt_object) name absent))

  abbrev pub start_at : Subject V → Option ℕ
  start_at (object id) = some id
  start_at (closure proto id) = some id
  start_at (boxed type id) = some id
  start_at obj = builtin_of obj

  unfoldable pub lookup_attribute : Subject V → Name → Subject V → Attribute V
  unfolding examine name_eq
  lookup_attribute (marshaled t) name original = examine_document t original name
  lookup_attribute (closure proto id) name original =
      if name_eq name (b'p' ∷ b'r' ∷ b'o' ∷ b't' ∷ b'o' ∷ b't' ∷ b'y' ∷ b'p' ∷ b'e' ∷ [])
      then own proto
      else examine 5 in_chain (some id) original name
  lookup_attribute obj name original = examine 5 in_chain (start_at obj) original name
