-- ===== src/Props/Layout.antt =====
-- The block that `vec_grow` allocates for a pair vector (js_vector.c) against the hash table that
-- js_object.c keeps behind the pairs.
use javascript_database.Common.{ℕ, ◌+◌, ◌*◌, ◌≤◌, ◌<◌, ◌≡◌, true, arith}
use javascript_database.Vector.{word_mod, alloc_size, map_size}
use javascript_database.Props.Hash.{hash_mod, hash_bytes}
use javascript_database.Props.Valid.{max_cap}

-- sizeof(pair_t), two values of 16 bytes
abbrev pub pair_size : ℕ
pair_size = 32

-- Both files take the same size for a hash table entry.
pub map_size-hash_bytes : (cap : ℕ) → map_size cap true ≡ hash_bytes cap
unfolding map_size hash_bytes
map_size-hash_bytes cap = ground arith

-- Up to the largest capacity the size of a pair vector does not wrap, and its block holds the
-- header, all pairs and the whole hash table.
pub alloc_size-holds :
    (cap : ℕ)
    → cap ≤ max_cap
    → (8 + pair_size * cap + hash_mod cap * hash_bytes cap ≤ alloc_size cap pair_size true)
      × (alloc_size cap pair_size true < word_mod)
unfolding alloc_size map_size hash_mod hash_bytes
alloc_size-holds n h = ground arith
