-- ===== src/Props/Hash.antt =====
-- `hashStr`, `hashBytes`, `hashStore` and `hashEntry` of js_object.c. A name is its bytes.
use javascript_database.Common.{
  ℕ, zero, suc, ◌+◌, ◌-◌, ◌*◌, ◌/◌, ◌%◌, ◌^◌, ◌<◌, ◌≤◌, ◌≡◌, refl, Bool, true, false, Option, none,
  some, List, [], ◌∷◌, ltb, ◌==◌, if◌then◌else◌, length, get_elem?, set, drop, take, arith, ◌&&◌,
}
use javascript_database.Vector.{word_mod}

abbrev pub Name : Type 0
Name = List ℕ

-- The number that bytes stand for, the lowest first.
pub little_endian : List ℕ → ℕ
little_endian [] = 0
little_endian (b ∷ bs) = b + 256 * little_endian bs

-- The loop of `hashStr` with `rounds` words to go: it takes eight bytes off the end.
hash_words : ℕ → List ℕ → ℕ → ℕ → ℕ × ℕ
hash_words zero str len hash = (len, hash)
hash_words (suc rounds) str len hash =
    hash_words rounds str (len - 8)
      ((hash + little_endian (take 8 (drop (len - 8) str))) % 2 ^ 64 * 5 % 2 ^ 64)

-- The bytes at the front that are left over are added last; the mask cuts off all others.
unfoldable pub hash_str : Name → ℕ
unfolding hash_words little_endian
hash_str str =
    let (left, hash) = hash_words (length str / 8) str (length str) 0 in
    (hash + little_endian (take left str)) % 2 ^ 64

-- The size in bytes of a hash table entry.
unfoldable pub hash_bytes : ℕ → ℕ
hash_bytes cap = if ltb cap 255 then 1 else if ltb cap 65535 then 2 else 4

-- The number of hash table entries for a capacity, `3 * cap / 2`.
unfoldable pub hash_mod : ℕ → ℕ
hash_mod cap = 3 * cap % word_mod / 2

-- A write of one entry, cut to the entry's size. `none` is `exit` on a bad size, or a write
-- outside the table.
unfoldable pub hash_store : List ℕ → ℕ → ℕ → ℕ → Option (List ℕ)
hash_store table hash_ent idx val =
    if ltb idx (length table)
    then (if hash_ent == 1
        then some (set table idx (val % 256))
        else if hash_ent == 2
        then some (set table idx (val % 65536))
        else if hash_ent == 4
        then some (set table idx (val % word_mod))
        else none)
    else none

unfoldable pub hash_entry : List ℕ → ℕ → ℕ → Option ℕ
hash_entry table hash_ent idx =
    if hash_ent == 1
    then get_elem? table idx
    else if hash_ent == 2
    then get_elem? table idx
    else if hash_ent == 4
    then get_elem? table idx
    else none

-- `keystr->len == namestr->len && !memcmp(…)`
unfoldable pub name_eq : Name → Name → Bool
name_eq [] [] = true
name_eq [] (y ∷ ys) = false
name_eq (x ∷ xs) [] = false
name_eq (x ∷ xs) (y ∷ ys) = x == y && name_eq xs ys

pub name_eq_sound : (a b : Name) → name_eq a b ≡ true → a ≡ b
unfolding name_eq
name_eq_sound [] [] h = refl
name_eq_sound [] (y ∷ ys) h = cc
name_eq_sound (x ∷ xs) [] h = cc
name_eq_sound (x ∷ xs) (y ∷ ys) h = ground (arith, name_eq_sound xs ys)

pub name_eq_refl : (a : Name) → name_eq a a ≡ true
unfolding name_eq
name_eq_refl [] = refl
name_eq_refl (x ∷ xs) = ground (arith, name_eq_refl xs)

-- The code always reads entries at the size that `hashBytes` gives.
pub hash_entry-hash_bytes :
    (table : List ℕ) (cap idx : ℕ) → hash_entry table (hash_bytes cap) idx ≡ get_elem? table idx
unfolding hash_entry hash_bytes
hash_entry-hash_bytes table cap idx = ground arith

-- An index into the pairs is stored whole: the entry size is large enough for it.
pub hash_store-hash_bytes :
    (table : List ℕ) (cap idx val : ℕ)
    → idx < length table
    → val ≤ cap
    → cap < word_mod
    → hash_store table (hash_bytes cap) idx val ≡ some (set table idx val)
unfolding hash_store hash_bytes
hash_store-hash_bytes table cap idx val h v c = ground arith
