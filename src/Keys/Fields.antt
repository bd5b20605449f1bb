-- ===== src/Keys/Fields.antt =====
-- The options of a key field as names with colons between them.
use Prim.Native.Nat.{bit_or}
use javascript_database.Common.{
  ℕ, zero, suc, ◌+◌, ◌-◌, ◌≤◌, ◌<◌, ◌≡◌, ◌≢◌, refl, ◌∙◌, true, false, Bool-cases, inl, inr, some,
  List, [], ◌∷◌, ◌++◌, length, take, drop, length-append, length-drop, ltb, ◌==◌, if◌then◌else◌,
  arith,
}
use javascript_database.Strings.Find.{take-append, take-all}
use javascript_database.Strings.Joined.{join}
use javascript_database.Keys.Options.{
  eval_option, colon_at, option_loop, KeyOption, number, text, other, key_options,
}

-- A name of at least one byte, without colons.
abbrev pub IsName : List ℕ → Type 0
IsName n = (length n ≢ 0) × (colon_at n ≡ length n)

abbrev pub AreNames : List (List ℕ) → Type 0
AreNames [] = Unit {0}
AreNames (n ∷ ns) = IsName n × AreNames ns

-- The bits of all the names together.
abbrev pub options_of : ℕ → List (List ℕ) → ℕ
options_of val [] = val
options_of val (n ∷ ns) = options_of (bit_or val (eval_option n)) ns

colon_at-le : (opt : List ℕ) → colon_at opt ≤ length opt
unfolding colon_at
colon_at-le [] = omega arith
colon_at-le (c ∷ opt) = ground (arith, colon_at-le opt)

colon_at-append : (n rest : List ℕ) → colon_at n ≡ length n → colon_at (n ++ b':' ∷ rest) ≡ length n
unfolding colon_at
colon_at-append [] rest e = ground arith
colon_at-append (c ∷ n) rest e = ground (arith, e, colon_at-append n rest)

option_loop-ends :
    (fuel val : ℕ) (opt : List ℕ)
    → (length opt ≤ fuel) × (0 < length opt)
    → (v : ℕ) × (option_loop fuel opt val ≡ some v)
unfolding option_loop
option_loop-ends zero val opt h = absurd (omega (arith, h))
option_loop-ends (suc fuel) val opt h =
    let amt = colon_at opt in
    let amt' = (if ltb amt (length opt) then amt + 1 else amt) in
    let val' = bit_or val (eval_option (take amt opt)) in
    let small = colon_at-le opt in
    let moves : (0 < amt') × (amt' ≤ length opt) = ground (arith, small, h) in
    elim (Bool-cases (length opt - amt' == 0)) [
      | inl t ↦ (val', rw (option_loop, t))
      | inr f ↦
          let d = length-drop amt' opt in
          let (v, e) =
            option_loop-ends fuel val' (drop amt' opt) (ground (arith, d, moves, h, f)) in
          (v, rw (option_loop, f) e)
    ]

-- The options of a key field are read to an end, whatever they are: a string takes no more rounds
-- than it has bytes.
pub key_options-ends : (o : KeyOption) → (v : ℕ) × (key_options o ≡ some v)
unfolding key_options
key_options-ends (number true) = (_, refl)
key_options-ends (number false) = (_, refl)
key_options-ends (text []) = (_, refl)
key_options-ends (text (c ∷ opt)) = option_loop-ends (length (c ∷ opt)) 0 (c ∷ opt) (omega arith)
key_options-ends other = (_, refl)

option_loop-last :
    (fuel val : ℕ) (n : List ℕ)
    → IsName n
    → option_loop (suc fuel) n val ≡ some (bit_or val (eval_option n))
unfolding option_loop
option_loop-last fuel val n h =
    let e = h.1 in
    let l : ltb (length n) (length n) ≡ false = ground arith in
    let z : (length n - length n == 0) ≡ true = ground arith in
    rw (option_loop, e, l, z, take-all n)

option_loop-next :
    (fuel val : ℕ) (n rest : List ℕ)
    → IsName n
    → length rest ≢ 0
    → option_loop (suc fuel) (n ++ b':' ∷ rest) val
      ≡ option_loop fuel rest (bit_or val (eval_option n))
unfolding option_loop
option_loop-next fuel val n rest h k =
    let e = colon_at-append n rest h.1 in
    let a = length-append n (b':' ∷ rest) in
    let l : ltb (length n) (length (n ++ b':' ∷ rest)) ≡ true = ground (arith, a) in
    let z : (length (n ++ b':' ∷ rest) - (length n + 1) == 0) ≡ false = ground (arith, a, k) in
    let t = take-append n (b':' ∷ rest) in
    let d : drop (length n + 1) (n ++ b':' ∷ rest) ≡ rest = drop_past n rest in
    rw (option_loop, e, l, z, t, d)
  where
    drop_past : (n rest : List ℕ) → drop (length n + 1) (n ++ b':' ∷ rest) ≡ rest
    drop_past [] rest = refl
    drop_past (c ∷ n) rest =
        let s : suc (length n) + 1 ≡ suc (length n + 1) = omega arith in rw s (drop_past n rest)

join-nonempty :
    (n : List ℕ) (ns : List (List ℕ)) → IsName n → length (join (b':' ∷ []) (n ∷ ns)) ≢ 0
join-nonempty n [] h e = h.0 e
join-nonempty n (m ∷ ns) h e =
    omega (arith, h, e, length-append n (b':' ∷ join (b':' ∷ []) (m ∷ ns)))

option_loop-join :
    (fuel val : ℕ) (n : List ℕ) (ns : List (List ℕ))
    → AreNames (n ∷ ns)
    → length (join (b':' ∷ []) (n ∷ ns)) ≤ fuel
    → option_loop fuel (join (b':' ∷ []) (n ∷ ns)) val ≡ some (options_of val (n ∷ ns))
option_loop-join zero val n ns h b = absurd (join-nonempty n ns h.0 (omega arith))
option_loop-join (suc fuel) val n [] h b = option_loop-last fuel val n h.0
option_loop-join (suc fuel) val n (m ∷ ns) h b =
    option_loop-next fuel val n (join (b':' ∷ []) (m ∷ ns)) h.0 (join-nonempty m ns h.1.0)
    ∙ option_loop-join fuel (bit_or val (eval_option n)) m ns h.1
        (omega (arith, length-append n (b':' ∷ join (b':' ∷ []) (m ∷ ns))))

-- The options of a key field, names of at least one byte and without colons that are joined by
-- colons, are read as the bits of all the names together.
pub key_options-join :
    (n : List ℕ) (ns : List (List ℕ))
    → AreNames (n ∷ ns)
    → key_options (text (join (b':' ∷ []) (n ∷ ns))) ≡ some (options_of 0 (n ∷ ns))
unfolding key_options
key_options-join n ns h =
    string (join (b':' ∷ []) (n ∷ ns)) (join-nonempty n ns h.0)
    ∙ option_loop-join (length (join (b':' ∷ []) (n ∷ ns))) 0 n ns h (omega arith)
  where
    string :
        (opt : List ℕ) → length opt ≢ 0 → key_options (text opt) ≡ option_loop (length opt) opt 0
    string [] z = absurd (z refl)
    string (c ∷ opt) z = refl
