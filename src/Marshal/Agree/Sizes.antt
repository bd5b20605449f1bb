-- ===== src/Marshal/Agree/Sizes.antt =====
-- `calcSize` and `marshalDoc` as walkers, and what the two make of one document.
use javascript_database.Common.{
  ℕ, zero, suc, ◌+◌, ◌-◌, ◌≤◌, ◌<◌, ◌≡◌, refl, ap, ◌∙◌, Bool, true, false, List, length, lt→ltb,
  if◌then◌else◌, ◌⊎◌, inl, inr, [], ◌∷◌, arith,
}
use javascript_database.Vector.{word_mod}
use javascript_database.Marshal.Values.{Kind, string, key, md5, uuid, Value, IsOwn, text, arr, obj}
use javascript_database.Marshal.Walk.{
  State, Next, go, grow, push, calc_enter, calc_visit, calc_test, calc_size, marshal_enter,
  marshal_visit, marshal_test, marshal_doc, string_size, done, exited, exits, overrun, faults,
  Outcome, overran, faulted, Frame, loop, round, begin,
}
use javascript_database.Marshal.Size.{
  total, nesting, rounds, calc_counted, marshal_counted, key_bytes, total-key_bytes,
}
use javascript_database.Marshal.Agree.Walker.{Walker, at, walk_root}

calc_enter-go : (v : Value) (s : State) → length s.stack + 1 < 1024 → calc_enter v s ≡ go (push s v)
unfolding calc_enter
calc_enter-go v s h = rw (lt→ltb (length s.stack + 1) 1024 h)

calc_visit-text :
    (kind : Kind) (str : List ℕ) (s : State)
    → calc_visit (text kind str) s ≡ go (if calc_counted kind then grow s (string_size str) else s)
unfolding calc_visit
calc_visit-text string str s = refl
calc_visit-text key str s = refl
calc_visit-text md5 str s = refl
calc_visit-text uuid str s = refl

unfoldable pub calc_walker : Walker
unfolding calc_visit calc_visit-text calc_enter-go
calc_walker = record {
  visit = calc_visit;
  overflow = calc_test;
  counted = calc_counted;
  limit = 1024;
  first = 0;
  last = word_mod - 1;
  last_in = omega arith;
  below_last = λ size h. refl;
  visit-immediate = λ s. refl;
  visit-text = calc_visit-text;
  visit-arr = λ xs s h. calc_enter-go (arr xs) s h;
  visit-obj = λ ps s h. calc_enter-go (obj ps) s h;
}

-- Where a document nests fewer than 1024 containers, nothing in it has been marshaled before, it
-- holds no document, and its size is below 2 ^ 32, `calcSize` ends within the rounds of its walk,
-- with the size that recursion on the document gives.
pub calc_size-total :
    (doc : Value) (fuel : ℕ)
    → IsOwn doc
    → nesting doc < 1024
    → total calc_counted doc < word_mod
    → calc_size (suc (rounds doc) + fuel) doc ≡ done (total calc_counted doc)
unfolding calc_size calc_walker
calc_size-total doc fuel o h b =
    let sum : 0 + total calc_counted doc ≡ total calc_counted doc = omega arith in
    walk_root calc_walker doc 0 fuel o h (omega arith) ∙ ap done sum

marshal_enter-go :
    (v : Value) (s : State) → length s.stack + 1 < 64 → marshal_enter v s ≡ go (push s v)
unfolding marshal_enter
marshal_enter-go v s h = ground arith

marshal_test-false :
    (start doc_size size : ℕ)
    → start + doc_size < word_mod
    → (start ≤ size) × (size ≤ start + doc_size)
    → marshal_test start doc_size size ≡ false
marshal_test-false start doc_size size h b = ground arith

unfoldable pub marshal_walker : (start doc_size : ℕ) → start + doc_size < word_mod → Walker
unfolding marshal_visit marshal_enter-go marshal_test-false
marshal_walker start doc_size h = record {
  visit = marshal_visit;
  overflow = marshal_test start doc_size;
  counted = marshal_counted;
  limit = 64;
  first = start;
  last = start + doc_size;
  last_in = h;
  below_last = λ size b. marshal_test-false start doc_size size h b;
  visit-immediate = λ s. refl;
  visit-text = λ kind str s. refl;
  visit-arr = λ xs s h. marshal_enter-go (arr xs) s h;
  visit-obj = λ ps s h. marshal_enter-go (obj ps) s h;
}

abbrev no_test : ℕ → Bool
no_test size = false

-- The outcome `a` is that of a stop, or `b`.
Stops : Outcome → Outcome → Type 0
Stops a b = (a ≡ exited) ⊎ (a ≡ b)

next-Stops :
    (f g : State → Outcome) (n : Next)
    → ((s : State) → Stops (f s) (g s))
    → Stops
        (elim n [ go s ↦ f s | exits ↦ exited | overrun ↦ overran | faults ↦ faulted ])
        (elim n [ go s ↦ g s | exits ↦ exited | overrun ↦ overran | faults ↦ faulted ])
unfolding Stops
next-Stops f g (go s) h = h s
next-Stops f g exits h = inl refl
next-Stops f g overrun h = inr refl
next-Stops f g faults h = inr refl

test-Stops : (b : Bool) (a c : Outcome) → Stops a c → Stops (elim b [ true ↦ exited | false ↦ a ]) c
unfolding Stops
test-Stops true a c h = inl refl
test-Stops false a c h = h

-- The test at the head either stops the program or changes nothing.
loop-no_test :
    (visit : Value → State → Next) (test : ℕ → Bool) (fuel : ℕ) (stack : List Frame) (size : ℕ)
    → Stops (loop visit test fuel (at stack size)) (loop visit no_test fuel (at stack size))
unfolding loop Stops
loop-no_test visit test zero stack size = inr refl
loop-no_test visit test (suc fuel) [] size = inr refl
loop-no_test visit test (suc fuel) (frame ∷ rest) size = test-Stops (test size) _ _ (
    next-Stops (loop visit test fuel) (loop visit no_test fuel)
      (round visit frame.top frame.idx rest size)
      (λ s. loop-no_test visit test fuel s.stack s.size))

unfoldable untested_walker : Walker
unfolding marshal_visit marshal_enter-go
untested_walker = record {
  visit = marshal_visit;
  overflow = no_test;
  counted = marshal_counted;
  limit = 64;
  first = 0;
  last = word_mod - 1;
  last_in = omega arith;
  below_last = λ size b. refl;
  visit-immediate = λ s. refl;
  visit-text = λ kind str s. refl;
  visit-arr = λ xs s h. marshal_enter-go (arr xs) s h;
  visit-obj = λ ps s h. marshal_enter-go (obj ps) s h;
}

-- Where a document nests fewer than 64 containers and all that is written ends below 2 ^ 32,
-- `marshalDoc` with the size that `calcSize` computes either exits, or it ends behind the room by
-- exactly the bytes of the vt_key values, which `calcSize` leaves out.
pub marshal_doc-key_bytes :
    (doc : Value) (start doc_size fuel : ℕ)
    → IsOwn doc
    → nesting doc < 64
    → start + total marshal_counted doc < word_mod
    → calc_size (suc (rounds doc) + fuel) doc ≡ done doc_size
    → (marshal_doc (suc (rounds doc) + fuel) doc start doc_size ≡ exited)
      ⊎ (marshal_doc (suc (rounds doc) + fuel) doc start doc_size
          ≡ done (start + doc_size + key_bytes doc))
unfolding marshal_doc Stops untested_walker
marshal_doc-key_bytes doc start doc_size fuel o h c e =
    elim (loop-no_test marshal_visit (marshal_test start doc_size) (suc (rounds doc) + fuel)
      (begin doc start).stack start) [
        | inl out ↦ inl out
        | inr same ↦
            inr (same ∙ walk_root untested_walker doc start fuel o h (omega arith) ∙ ap done whole)
      ]
  where
    whole : start + total marshal_counted doc ≡ start + doc_size + key_bytes doc
    whole =
        let keys = total-key_bytes doc in
        let sized = calc_size-total doc fuel o (omega arith) (omega (arith, keys)) in
        let same : doc_size ≡ total calc_counted doc = ground (arith, sized) in omega (arith, keys)
