-- ===== src/Counts.antt =====
-- The reference counts of js_values.c: `incrRefCnt`, `decrRefCnt` and `abandonValue`. `Release` has
-- `deleteValue` and `replaceValue`, `Sums` the sums over what holds an object, and `Held` is about
-- the counts as these sums.
use javascript_database.Common.{
  ℕ, ◌+◌, ◌-◌, ◌%◌, Bool, true, false, ◌&&◌, ◌||◌, not, ◌==◌, if◌then◌else◌,
}
pub mod Release
pub mod Sums
pub mod Held
pub mod Steps
pub mod Replaced

abbrev pub count_mod : ℕ
count_mod = 4_294_967_296

-- The types that the counts depend on. A scope has no value of its own: `scope_ptr` is the pointer
-- to one in a closure, for which `abandonScope` counts like `decrRefCnt`.
pub data ValueType : Type 0 where
  vt_string vt_closure vt_array vt_object vt_document vt_other scope_ptr : ValueType

-- What the counts depend on in a value: its type, the addresses of its object and its document, and
-- the flags.
pub record Reference : Type 0 where
  pub type : ValueType
  pub raw : ℕ
  pub raw_doc : ℕ
  pub refcount : Bool
  pub weakcount : Bool
  pub marshaled : Bool

abbrev pub in_document : Reference → Bool
in_document val = val.marshaled || elim val.type [ vt_document ↦ true | _ ↦ false ]

-- The counts of the objects and the documents by their addresses.
pub record RefCounts : Type 0 where
  pub refs : ℕ → ℕ
  pub weaks : ℕ → ℕ
  pub docs : ℕ → ℕ

abbrev pub set_at : (ℕ → ℕ) → ℕ → ℕ → ℕ → ℕ
set_at f at n i = if i == at then n else f i

abbrev pub count_up : (ℕ → ℕ) → ℕ → ℕ → ℕ
count_up f at = set_at f at ((f at + 1) % count_mod)

abbrev pub count_down : (ℕ → ℕ) → ℕ → ℕ → ℕ
count_down f at = set_at f at ((f at + (count_mod - 1)) % count_mod)

unfoldable pub incr_ref_cnt : Reference → RefCounts → RefCounts
incr_ref_cnt val c =
    if val.refcount
    then record c { refs = count_up c.refs val.raw }
    else if val.weakcount
    then record c { weaks = count_up c.weaks val.raw }
    else if in_document val
    then record c { docs = count_up c.docs val.raw_doc }
    else c

-- The count of a document is not reached behind `return false`. The second result says that nothing
-- refers to the object any more.
unfoldable pub decr_ref_cnt : Reference → RefCounts → RefCounts × Bool
decr_ref_cnt val c =
    if val.refcount
    then (record c { refs = count_down c.refs val.raw }, count_down c.refs val.raw val.raw == 0)
    else if val.weakcount
    then (record c { weaks = count_down c.weaks val.raw }, count_down c.weaks val.raw val.raw == 0)
    else (c, false)

-- Whether the value is deleted.
unfoldable pub abandon_value : Reference → RefCounts → Bool
abandon_value val c =
    if val.refcount && not (c.refs val.raw == 0)
    then false
    else if val.weakcount && not (c.weaks val.raw == 0)
    then false
    else val.refcount || val.weakcount
