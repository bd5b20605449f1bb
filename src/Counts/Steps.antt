-- ===== src/Counts/Steps.antt =====
-- The calls of `release`, one by one.
use javascript_database.Common.{
  ℕ, zero, suc, ◌+◌, ◌≤◌, ◌<◌, ◌≡◌, refl, ap, ◌∙◌, Bool, true, false, ◌&&◌, not, none, some, List,
  [], ◌∷◌, ◌++◌, length, ◌==◌, if◌then◌else◌, arith, Bool-cases, ==_iff, inl, inr, length-append,
}
use javascript_database.Counts.{
  count_mod, count_up, in_document, Reference, RefCounts, incr_ref_cnt, decr_ref_cnt, abandon_value,
}
use javascript_database.Counts.Release.{
  Task, drop, abandon, delete, Heap, frees, visit, release, calls,
}
use javascript_database.Counts.Sums.{sum}
use javascript_database.Counts.Held.{
  holds, owns, odd, odd_value, is_live, counts_for, never, needed, all, HoldsOf, Steps,
  delete_value-Steps, delete_value-skips, fits-refers, fits-owned, next-HoldsOf,
}

pub incr_ref_cnt-holds :
    (id : ℕ) (val : Reference) (c : RefCounts)
    → c.refs id + 1 < count_mod
    → (incr_ref_cnt val c).refs id ≡ c.refs id + holds id val
unfolding incr_ref_cnt
incr_ref_cnt-holds id val c h = elim (Bool-cases val.refcount) [
  | inl counted ↦ rw counted (elim (Bool-cases (id == val.raw)) [
    | inl same ↦ let p = ap c.refs ((==_iff id val.raw).0 same) in rw same (omega (arith, h, p))
    | inr other ↦ rw other (omega arith)
  ])
  | inr free ↦ rw free (uncounted val.weakcount (in_document val))
]
  where
    uncounted :
        (weak document : Bool)
        → (if weak
              then record c { weaks = count_up c.weaks val.raw }
              else if document
              then record c { docs = count_up c.docs val.raw_doc }
              else c).refs
            id
          ≡ c.refs id + 0
    uncounted true document = omega arith
    uncounted false true = omega arith
    uncounted false false = omega arith

holds-one :
    (id : ℕ) (val : Reference) → val.refcount ≡ true → (id == val.raw) ≡ true → holds id val ≡ 1
holds-one id val counted same = rw (counted, same) refl

decr_ref_cnt-holds :
    (id : ℕ) (val : Reference) (c : RefCounts)
    → c.refs id < count_mod
    → holds id val ≤ c.refs id
    → (decr_ref_cnt val c).0.refs id + holds id val ≡ c.refs id
unfolding decr_ref_cnt
decr_ref_cnt-holds id val c h l = elim (Bool-cases val.refcount) [
  | inl counted ↦ rw counted (elim (Bool-cases (id == val.raw)) [
    | inl same ↦
        let p = ap c.refs ((==_iff id val.raw).0 same) in
        let q = holds-one id val counted same in rw same (omega (arith, h, p, q, l))
    | inr other ↦ rw other (omega arith)
  ])
  | inr free ↦ elim (Bool-cases val.weakcount) [
    | inl weak ↦ rw (free, weak) (omega arith)
    | inr plain ↦ rw (free, plain) (omega arith)
  ]
]

-- Where nothing is still to be looked at but the object of a value, and it is needed.
kept-HoldsOf :
    (val : Reference) (vals : List Reference) (ts : List Task) (s : Heap)
    → HoldsOf (counts_for val) vals ts s
    → (val.refcount ≡ true
        → needed
            (is_live s.cells val.raw)
            (s.counts.refs val.raw)
            (all (owns val.raw) vals ts s.cells)
          ≡ true)
    → HoldsOf never vals ts s
kept-HoldsOf val vals ts s h need = record {
  counted = h.counted;
  fitting = h.fitting;
  kept = λ id _. elim (Bool-cases (counts_for val id)) [
    | inl c ↦ let e = (==_iff id val.raw).0 (ground (arith, c)) in rw e (need (ground (arith, c)))
    | inr n ↦ h.kept id n
  ];
  even = h.even;
  few = h.few;
}

decr_ref_cnt-gone :
    (val : Reference) (c : RefCounts)
    → val.refcount ≡ true
    → (decr_ref_cnt val c).1 ≡ ((decr_ref_cnt val c).0.refs val.raw == 0)
unfolding decr_ref_cnt
decr_ref_cnt-gone val c h = rw h refl

decr_ref_cnt-weak :
    (val : Reference) (c : RefCounts)
    → val.refcount ≡ false
    → (decr_ref_cnt val c).1 ≡ true
    → val.weakcount ≡ true
unfolding decr_ref_cnt
decr_ref_cnt-weak val c h g = elim (Bool-cases val.weakcount) [
  | inl w ↦ w
  | inr n ↦ let e : (decr_ref_cnt val c).1 ≡ false = rw (h, n) refl in absurd (ground (arith, g, e))
]

odd-frees : (val : Reference) → val.refcount ≡ true → odd_value val ≡ 0 → frees val ≡ true
odd-frees val r h = elim (Bool-cases (frees val)) [
  | inl f ↦ f
  | inr n ↦ let e : odd_value val ≡ 1 = rw (r, n) refl in absurd (omega (arith, h, e))
]

odd-keeps :
    (val : Reference)
    → val.refcount ≡ false
    → val.weakcount ≡ true
    → odd_value val ≡ 0
    → frees val ≡ false
odd-keeps val r w h = elim (Bool-cases (frees val)) [
  | inl f ↦ let e : odd_value val ≡ 1 = rw (r, w, f) refl in absurd (omega (arith, h, e))
  | inr n ↦ n
]

odd-single : (val : Reference) → val.refcount ≡ true → odd_value val ≡ 0 → val.weakcount ≡ false
odd-single val r h = elim (Bool-cases val.weakcount) [
  | inl w ↦
      let e : odd_value val ≡ 1 = rw (r, w, odd-frees val r h) refl in absurd (omega (arith, h, e))
  | inr n ↦ n
]

holds_self : (val : Reference) → val.refcount ≡ true → holds val.raw val ≡ 1
holds_self val r = ground (arith, r)

refers-needed : (l : Bool) (r o : ℕ) → (r == 0) ≡ false → needed l r o ≡ true
refers-needed l r o h = ground (arith, h)

abandon_value-counted :
    (val : Reference) (c : RefCounts)
    → val.refcount ≡ true
    → abandon_value val c
      ≡ (not (not (c.refs val.raw == 0)) && (not (val.weakcount && not (c.weaks val.raw == 0))))
unfolding abandon_value
abandon_value-counted val c r = elim (Bool-cases (c.refs val.raw == 0)) [
  | inl z ↦ elim (Bool-cases val.weakcount) [
    | inl w ↦ elim (Bool-cases (c.weaks val.raw == 0)) [
      | inl v ↦ rw (r, z, w, v) refl
      | inr v ↦ rw (r, z, w, v) refl
    ]
    | inr w ↦ rw (r, z, w) refl
  ]
  | inr n ↦ rw (r, n) refl
]

abandon_value-weak :
    (val : Reference) (c : RefCounts)
    → val.refcount ≡ false
    → abandon_value val c ≡ true
    → val.weakcount ≡ true
unfolding abandon_value
abandon_value-weak val c r a = elim (Bool-cases val.weakcount) [
  | inl w ↦ w
  | inr n ↦ let e : abandon_value val c ≡ false = rw (r, n) refl in absurd (ground (arith, a, e))
]

module _ (vals : List Reference) (ts : List Task) (val : Reference) (s : Heap) where
  drop-Steps : HoldsOf never vals (drop val ∷ ts) s → Steps vals ts (visit (drop val) s) s
  unfolding visit sum
  drop-Steps h =
      let c = (decr_ref_cnt val s.counts).0 in
      let down =
        λ (id : ℕ). decr_ref_cnt-holds id val s.counts (h.few id) (omega (arith, h.counted id)) in
      let s' : Heap = record s { counts = c } in
      let h' = next-HoldsOf vals (drop val) ts s c h down in
      let even : odd_value val ≡ 0 = omega (arith, h.even) in
      elim (Bool-cases val.refcount) [
        | inl r ↦
            let gone = decr_ref_cnt-gone val s.counts r in
            let one = holds_self val r in
            let was =
              fits-refers (is_live s.cells val.raw) (s.counts.refs val.raw)
                (all (owns val.raw) vals (drop val ∷ ts) s.cells) (omega (arith, one, down val.raw))
                (h.fitting val.raw) in
            elim (Bool-cases (c.refs val.raw == 0)) [
              | inl z ↦
                  rw (gone, z)
                    (delete_value-Steps vals ts val s' h' ((==_iff _ _).0 z) (omega (arith, was))
                      (odd-frees val r even) was.0)
              | inr n ↦ (
                [],
                s',
                rw (gone, n) refl,
                kept-HoldsOf val vals ts s' h' (λ _.
                    refers-needed (is_live s.cells val.raw) (c.refs val.raw)
                      (all (owns val.raw) vals ts s.cells) n),
                omega arith,
              )
            ]
        | inr u ↦
            let h'' = kept-HoldsOf val vals ts s' h' (λ r. absurd (ground (arith, u, r))) in
            elim (Bool-cases (decr_ref_cnt val s.counts).1) [
              | inl g ↦ rw g (
                  delete_value-skips vals ts val s' h''
                    (odd-keeps val u (decr_ref_cnt-weak val s.counts u g) even))
              | inr n ↦ ([], s', rw n refl, h'', omega arith)
            ]
      ]

  abandon-Steps : HoldsOf never vals (abandon val ∷ ts) s → Steps vals ts (visit (abandon val) s) s
  unfolding visit sum
  abandon-Steps h =
      let h' = next-HoldsOf vals (abandon val) ts s s.counts h (λ id. omega arith) in
      let even : odd_value val ≡ 0 = omega (arith, h.even) in
      elim (Bool-cases val.refcount) [
        | inl r ↦
            let single = odd-single val r even in
            let test = abandon_value-counted val s.counts r in
            let one = holds_self val r in
            let was =
              fits-owned (is_live s.cells val.raw) (s.counts.refs val.raw)
                (all (owns val.raw) vals (abandon val ∷ ts) s.cells) (omega (arith, one))
                (h.fitting val.raw) in
            elim (Bool-cases (abandon_value val s.counts)) [
              | inl a ↦ rw a (
                  delete_value-Steps vals ts val s h' was.2 (omega (arith, was, one))
                    (odd-frees val r even) was.0)
              | inr n ↦
                  let e : abandon_value val s.counts ≡ true =
                    rw (test, single, (==_iff _ _).1 was.2) refl in
                  absurd (ground (arith, n, e))
            ]
        | inr u ↦
            let h'' = kept-HoldsOf val vals ts s h' (λ r. absurd (ground (arith, u, r))) in
            elim (Bool-cases (abandon_value val s.counts)) [
              | inl a ↦ rw a (
                  delete_value-skips vals ts val s h''
                    (odd-keeps val u (abandon_value-weak val s.counts u a) even))
              | inr n ↦ ([], s, rw n refl, h'', omega arith)
            ]
      ]

  delete-Steps : HoldsOf never vals (delete val ∷ ts) s → Steps vals ts (visit (delete val) s) s
  unfolding visit sum
  delete-Steps h =
      let f : frees val ≡ false = elim (Bool-cases (frees val)) [
        | inl f ↦ let e : odd (delete val) ≡ 1 = rw f refl in absurd (omega (arith, h.even, e))
        | inr n ↦ n
      ] in
      delete_value-skips vals ts val s
        (record {
          counted = λ id. omega (arith, h.counted id);
          fitting = λ id.
              let o : all (owns id) vals ts s.cells ≡ all (owns id) vals (delete val ∷ ts) s.cells =
                omega arith in
              rw o (h.fitting id);
          kept = λ id b.
              let o : all (owns id) vals ts s.cells ≡ all (owns id) vals (delete val ∷ ts) s.cells =
                omega arith in
              rw o (h.kept id b);
          even = omega (arith, h.even);
          few = h.few;
        })
        f

visit-Steps :
    (vals : List Reference) (t : Task) (ts : List Task) (s : Heap)
    → HoldsOf never vals (t ∷ ts) s
    → Steps vals ts (visit t s) s
visit-Steps vals (drop val) ts s h = drop-Steps vals ts val s h
visit-Steps vals (abandon val) ts s h = abandon-Steps vals ts val s h
visit-Steps vals (delete val) ts s h = delete-Steps vals ts val s h

release-visit :
    (fuel : ℕ) (t : Task) (ts : List Task) (s : Heap) (more : List Task) (s1 : Heap)
    → visit t s ≡ some (more, s1)
    → release (suc fuel) (t ∷ ts) s ≡ release fuel (more ++ ts) s1
unfolding release
release-visit fuel t ts s more s1 h =
    ap (elim [ none ↦ none | some (more, s') ↦ release fuel (more ++ ts) s' ]) h

-- One unit of fuel for each call that is to be made or stands in a cell is enough.
pub release-HoldsOf :
    (fuel : ℕ) (vals : List Reference) (ts : List Task) (s : Heap)
    → length ts + calls s.cells ≤ fuel
    → HoldsOf never vals ts s
    → (s' : Heap) × (release fuel ts s ≡ some s') × HoldsOf never vals [] s'
unfolding release
release-HoldsOf fuel vals [] s l h = (s, refl, h)
release-HoldsOf zero vals (t ∷ ts) s l h = absurd (omega (arith, l))
release-HoldsOf (suc fuel) vals (t ∷ ts) s l h =
    let (more, s1, step, h1, c) = visit-Steps vals t ts s h in
    let (s2, rest, h2) =
      release-HoldsOf fuel vals (more ++ ts) s1
        (let a = length-append more ts in omega (arith, l, c, a)) h1 in
    (s2, release-visit fuel t ts s more s1 step ∙ rest, h2)
