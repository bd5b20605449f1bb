-- ===== src/Nodes/Modules.antt =====
-- `findFirstNode`: the first node of the module that a slot of the node table belongs to.
use javascript_database.Common.{
  ℕ, ◌+◌, ◌<◌, ◌≡◌, ap, ◌∙◌, Option, none, some, List, [], ◌∷◌, ◌++◌, ltb, if◌then◌else◌, arith,
}

-- The loop, over the `moduleSize` of the modules as they stand in the table, from `start` on.
-- Nothing is a read past the last module.
unfoldable pub find_from : List ℕ → ℕ → ℕ → Option ℕ
find_from [] start slot = if ltb start slot then none else some 0
find_from (size ∷ sizes) start slot =
    let rest = find_from sizes (start + size) slot in
    if ltb start slot then (if ltb slot (start + size) then some start else rest) else some 0

unfoldable pub find_first_node : List ℕ → ℕ → Option ℕ
unfolding find_from
find_first_node sizes slot = find_from sizes 0 slot

abbrev pub sum : List ℕ → ℕ
sum [] = 0
sum (size ∷ sizes) = size + sum sizes

find_from-start :
    (before : List ℕ) (size start slot : ℕ) (after : List ℕ)
    → (start + sum before < slot) × (slot < start + sum before + size)
    → find_from (before ++ size ∷ after) start slot ≡ some (start + sum before)
unfolding find_from
find_from-start [] size start slot after h = ground (arith, h)
find_from-start (b ∷ before) size start slot after h =
    let e = find_from-start before size (start + b) slot after (omega (arith, h)) in
    let same : start + b + sum before ≡ start + (b + sum before) = omega arith in
    ground (arith, h, e, same)

-- A slot inside a module, behind its first node, leads to the first node of the module.
pub find_first_node-start :
    (before : List ℕ) (size slot : ℕ) (after : List ℕ)
    → (sum before < slot) × (slot < sum before + size)
    → find_first_node (before ++ size ∷ after) slot ≡ some (sum before)
unfolding find_first_node
find_first_node-start before size slot after h =
    let e : 0 + sum before ≡ sum before = omega arith in
    find_from-start before size 0 slot after (omega (arith, h)) ∙ ap some e
