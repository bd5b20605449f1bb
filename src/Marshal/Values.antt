-- ===== src/Marshal/Values.antt =====
-- The values of js.h, as far as marshaling tells them apart.
use javascript_database.Common.{ℕ, zero, suc, List}

-- The string types: vt_string, vt_key, vt_md5 and vt_uuid.
pub data Kind : Type 0 where
  string key md5 uuid : Kind

mutual
  -- `immediate` stands for every type whose value slot is copied as it is. A `stored` value is an
  -- object with properties that has been marshaled: its own address is known, and the addresses of
  -- its names are not, since `marshalDoc` leaves their field rawDoc NULL. A `document` is a
  -- vt_document that holds such an object. The other values and their strings are not marshaled.
  pub data Value : Type 0 where
    immediate document stored : Value
    text : Kind → List ℕ → Value
    arr : Items → Value
    obj : Fields → Value

  pub data Items : Type 0 where
    nil : Items
    cons : Value → Items → Items

  pub data Fields : Type 0 where
    end : Fields
    field : List ℕ → Value → Fields → Fields

abbrev pub items_cnt : Items → ℕ
items_cnt nil = 0
items_cnt (cons v r) = suc (items_cnt r)

abbrev pub fields_cnt : Fields → ℕ
fields_cnt end = 0
fields_cnt (field name v r) = suc (fields_cnt r)

-- What is left of an array, or of an object, from an index on.
abbrev pub drop_items : ℕ → Items → Items
drop_items zero xs = xs
drop_items (suc i) nil = nil
drop_items (suc i) (cons v r) = drop_items i r

abbrev pub drop_fields : ℕ → Fields → Fields
drop_fields zero ps = ps
drop_fields (suc i) end = end
drop_fields (suc i) (field name v r) = drop_fields i r

unfoldable mutual
  -- Nothing in the value has been marshaled before.
  pub IsOwn : Value → Type 0
  IsOwn document = ⊥
  IsOwn stored = ⊥
  IsOwn (arr xs) = AreOwn xs
  IsOwn (obj ps) = HasOwn ps
  IsOwn _ = Unit

  pub AreOwn : Items → Type 0
  AreOwn nil = Unit
  AreOwn (cons v r) = IsOwn v × AreOwn r

  pub HasOwn : Fields → Type 0
  HasOwn end = Unit
  HasOwn (field name v r) = IsOwn v × HasOwn r
