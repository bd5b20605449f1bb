-- ===== src/Tests/Documents.antt =====
-- Documents for `calcSize` and `marshalDoc`.
use javascript_database.Common.{suc, ◌+◌, ◌≡◌, refl, [], ◌∷◌, arith}
use javascript_database.Vector.{grow_cap}
use javascript_database.Props.Hash.{hash_mod, hash_bytes}
use javascript_database.Marshal.Values.{
  IsOwn, document, string, key, Value, immediate, text, arr, obj, nil, cons, end, field,
}
use javascript_database.Marshal.Walk.{
  array_size, object_size, string_size, calc_size, marshal_doc, done, faulted, loop, round,
  calc_visit, marshal_visit,
}
use javascript_database.Marshal.Size.{
  total, nesting, rounds, calc_counted, marshal_counted, key_bytes,
}
use javascript_database.Marshal.Agree.Sizes.{calc_size-total}

-- { a: [1, "bc"] }
abbrev nested : Value
nested =
    obj (field (b'a' ∷ []) (arr (cons immediate (cons (text string (b'b' ∷ b'c' ∷ [])) nil))) end)

-- [a key of one byte]
abbrev keyed : Value
keyed = arr (cons (text key (b'k' ∷ [])) nil)

-- What the sizes below compute with.
measures : Unit {0}
unfolding total nesting rounds key_bytes array_size object_size string_size hash_mod hash_bytes
    grow_cap
measures = tt

nested-total : (total calc_counted nested ≡ 86) × (nesting nested ≡ 2) × (rounds nested ≡ 5)
unfolding measures
nested-total = (refl, refl, refl)

nested-IsOwn : IsOwn nested
unfolding IsOwn
nested-IsOwn = ((tt, (tt, tt)), tt)

calc_size-total_example :
    calc_size (suc (rounds nested) + 0) nested ≡ done (total calc_counted nested)
calc_size-total_example =
    calc_size-total nested 0 nested-IsOwn (omega (arith, nested-total))
      (omega (arith, nested-total))

keyed-total :
    (total calc_counted keyed ≡ 20) × (total marshal_counted keyed ≡ 26) × (nesting keyed ≡ 1)
unfolding measures
keyed-total = (refl, refl, refl)

-- A document in an array: the name of its first property is read at no address.
document_run :
    (calc_size 9 (arr (cons document nil)) ≡ faulted)
    × (marshal_doc 9 (arr (cons document nil)) 100 100 ≡ faulted)
unfolding calc_size marshal_doc measures loop round calc_visit marshal_visit
document_run = (refl, refl)
