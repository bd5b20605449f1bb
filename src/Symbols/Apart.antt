-- ===== src/Symbols/Apart.antt =====
-- The slots of a function and of the blocks in it, one after the other.
use javascript_database.Common.{
  ℕ, ◌≢◌, ◌+◌, ◌≤◌, ◌<◌, ◌≡◌, sym, ap, ◌∙◌, inl, inr, true, false, none, some, List, [], ◌∷◌, ◌++◌,
  arith, Option-cases,
}
use javascript_database.Vector.{word_mod}
use javascript_database.Props.Hash.{Name}
use javascript_database.Props.Refine.{get_of}
use javascript_database.Symbols.Tables.{
  Symbol, Symtab, State, base_of, fix, lookup_fcns, lookup_symbol,
}
use javascript_database.Symbols.Slots.{HasSlots}
use javascript_database.Symbols.Scopes.{has, any_has}
use javascript_database.Symbols.Resolve.{
  symbol_of, lookup_symbol-own, lookup_symbol-skip, lookup_symbol-hit, lookup_symbol-stable,
}

-- Each symbol of a block has a slot of its own among those of the block, which start after `base`.
pub record IsPlaced (base : ℕ) (t : Symtab) : Type 0 where
  pub within :
      (name : Name) (s : Symbol)
      → get_of t.entries name ≡ some s
      → (base + 1 ≤ (fix base s).frame_idx) × ((fix base s).frame_idx ≤ base + t.frame_idx)
  pub apart :
      (a b : Name) (x y : Symbol)
      → get_of t.entries a ≡ some x
      → get_of t.entries b ≡ some y
      → (fix base x).frame_idx ≡ (fix base y).frame_idx
      → a ≡ b

-- The tables of a function and of blocks in it, each block after the one around it.
unfoldable pub AreLaid : State → ℕ → List ℕ → Type 0
AreLaid s symbols [] = HasSlots (s.tabs symbols).entries (s.tabs symbols).frame_idx
AreLaid s symbols (id ∷ ids) =
    IsPlaced (base_of s.tabs symbols ids) (s.tabs id)
    × ((s.tabs id).base_idx ≡ base_of s.tabs symbols ids)
    × AreLaid s symbols ids

-- The slots of a block that is hoisted, wherever it starts.
pub HasSlots-IsPlaced :
    (base : ℕ) (t : Symtab)
    → HasSlots t.entries t.frame_idx
    → ((name : Name) (s : Symbol) → get_of t.entries name ≡ some s → s.fixed ≡ false)
    → base + t.frame_idx < word_mod
    → IsPlaced base t
HasSlots-IsPlaced base t has fresh room =
    let moved : (name : Name) (s : Symbol)
        → get_of t.entries name ≡ some s
        → (fix base s).frame_idx ≡ s.frame_idx + base =
      λ name s g. let e = fresh name s g in let w = has.within name s g in ground (arith, e, w) in
    record {
      within = λ name s g.
          let m = moved name s g in let w = has.within name s g in (omega arith, omega arith);
      apart = λ a b x y ga gb same.
          let ma = moved a x ga in let mb = moved b y gb in has.apart a b x y ga gb (omega arith);
    }

same_symbol : (x y : Symbol) → some x ≡ some y → x ≡ y
same_symbol x y e = ap (λ o. elim o [ none ↦ x | some z ↦ z ]) e

own_symbol :
    (s : State) (name : Name) (symbols : ℕ) (symbol : Symbol)
    → get_of (s.tabs symbols).entries name ≡ some symbol
    → symbol_of (lookup_symbol name symbols [] s) ≡ some symbol
unfolding lookup_fcns
own_symbol s name symbols symbol found =
    rw (lookup_symbol-own name symbols s (some symbol) (rw (lookup_fcns, found)))

block_symbol :
    (s : State) (name : Name) (symbols id : ℕ) (ids : List ℕ) (symbol : Symbol)
    → get_of (s.tabs id).entries name ≡ some symbol
    → symbol_of (lookup_symbol name symbols (id ∷ ids) s)
      ≡ some (fix (base_of s.tabs symbols ids) symbol)
block_symbol s name symbols id ids symbol found =
    rw (lookup_symbol-hit name symbols id ids s symbol found)

module _ (s : State) (name : Name) (symbols id : ℕ) (ids : List ℕ) where
  module _ (gone : get_of (s.tabs id).entries name ≡ none) where
    outer_has :
        any_has name ((id ∷ ids) ++ symbols ∷ []) s ≡ true
        → any_has name (ids ++ symbols ∷ []) s ≡ true
    unfolding any_has
    outer_has own = rw gone at own

    outer_symbol :
        symbol_of (lookup_symbol name symbols (id ∷ ids) s)
        ≡ symbol_of (lookup_symbol name symbols ids s)
    outer_symbol = rw (lookup_symbol-skip name symbols id ids s gone)

-- The symbol that a name has in the table of the function, where it has one in some table.
own_found :
    (s : State) (name : Name) (symbols : ℕ)
    → any_has name ([] ++ symbols ∷ []) s ≡ true
    → (x : Symbol) × (get_of (s.tabs symbols).entries name ≡ some x)
unfolding any_has
own_found s name symbols own = elim (Option-cases (get_of (s.tabs symbols).entries name)) [
  | inl gone ↦ absurd (ground (arith, gone, own))
  | inr found ↦ found
]

AreLaid-within :
    (s : State) (name : Name) (symbols : ℕ) (blocks : List ℕ) (symbol : Symbol)
    → AreLaid s symbols blocks
    → any_has name (blocks ++ symbols ∷ []) s ≡ true
    → symbol_of (lookup_symbol name symbols blocks s) ≡ some symbol
    → (1 ≤ symbol.frame_idx) × (symbol.frame_idx ≤ base_of s.tabs symbols blocks)
unfolding AreLaid
AreLaid-within s name symbols [] symbol laid own e =
    let (x, found) = own_found s name symbols own in
    let same = same_symbol x symbol (sym (own_symbol s name symbols x found) ∙ e) in
    rw (← same) (laid.within name x found)
AreLaid-within s name symbols (id ∷ ids) symbol laid own e =
    let (placed, base, rest) = laid in
    elim (Option-cases (get_of (s.tabs id).entries name)) [
      | inl gone ↦
          let w =
            AreLaid-within s name symbols ids symbol rest (outer_has s name symbols id ids gone own)
              (sym (outer_symbol s name symbols id ids gone) ∙ e) in
          (w.0, omega (arith, w.1, base))
      | inr (x, found) ↦
          let same = same_symbol _ symbol (sym (block_symbol s name symbols id ids x found) ∙ e) in
          let w = placed.within name x found in
          rw (← same) (omega (arith, w.0), omega (arith, w.1, base))
    ]

AreLaid-apart :
    (s : State) (a b : Name) (symbols : ℕ) (blocks : List ℕ) (x y : Symbol)
    → AreLaid s symbols blocks
    → any_has a (blocks ++ symbols ∷ []) s ≡ true
    → any_has b (blocks ++ symbols ∷ []) s ≡ true
    → symbol_of (lookup_symbol a symbols blocks s) ≡ some x
    → symbol_of (lookup_symbol b symbols blocks s) ≡ some y
    → x.frame_idx ≡ y.frame_idx
    → a ≡ b
unfolding AreLaid
AreLaid-apart s a b symbols [] x y laid own_a own_b ea eb same =
    let (p, fp) = own_found s a symbols own_a in
    let (q, fq) = own_found s b symbols own_b in
    let sp = same_symbol p x (sym (own_symbol s a symbols p fp) ∙ ea) in
    let sq = same_symbol q y (sym (own_symbol s b symbols q fq) ∙ eb) in
    laid.apart a b p q fp fq (rw (sp, sq) same)
AreLaid-apart s a b symbols (id ∷ ids) x y laid own_a own_b ea eb same =
    let (placed, base, rest) = laid in
    elim (Option-cases (get_of (s.tabs id).entries a)) [
      | inl gone_a ↦
          let up_a = outer_has s a symbols id ids gone_a own_a in
          let to_a = sym (outer_symbol s a symbols id ids gone_a) ∙ ea in
          elim (Option-cases (get_of (s.tabs id).entries b)) [
            | inl gone_b ↦
                AreLaid-apart s a b symbols ids x y rest up_a
                  (outer_has s b symbols id ids gone_b own_b) to_a
                  (sym (outer_symbol s b symbols id ids gone_b) ∙ eb) same
            | inr (q, fq) ↦
                let sq = same_symbol _ y (sym (block_symbol s b symbols id ids q fq) ∙ eb) in
                let w = AreLaid-within s a symbols ids x rest up_a to_a in
                let v = rw sq at (placed.within b q fq) in absurd (omega (arith, w.1, v.0, same))
          ]
      | inr (p, fp) ↦
          let sp = same_symbol _ x (sym (block_symbol s a symbols id ids p fp) ∙ ea) in
          elim (Option-cases (get_of (s.tabs id).entries b)) [
            | inl gone_b ↦
                let w =
                  AreLaid-within s b symbols ids y rest (outer_has s b symbols id ids gone_b own_b)
                    (sym (outer_symbol s b symbols id ids gone_b) ∙ eb) in
                let v = rw sp at (placed.within a p fp) in absurd (omega (arith, w.1, v.0, same))
            | inr (q, fq) ↦
                let sq = same_symbol _ y (sym (block_symbol s b symbols id ids q fq) ∙ eb) in
                placed.apart a b p q fp fq (rw (sp, sq) same)
          ]
    ]

-- In a function and blocks in it that are laid out one after the other, two names that are
-- declared there and looked up one after the other have different slots, where the names differ.
pub lookup_symbol-apart :
    (a b : Name) (symbols : ℕ) (blocks : List ℕ) (s t u : State) (x y : Symbol)
    → AreLaid s symbols blocks
    → any_has a (blocks ++ symbols ∷ []) s ≡ true
    → any_has b (blocks ++ symbols ∷ []) s ≡ true
    → lookup_symbol a symbols blocks s ≡ some (x, t)
    → lookup_symbol b symbols blocks t ≡ some (y, u)
    → a ≢ b
    → x.frame_idx ≢ y.frame_idx
lookup_symbol-apart a b symbols blocks s t u x y laid own_a own_b ea eb differ same =
    let before = sym (lookup_symbol-stable a b symbols blocks s t x ea) in
    differ (
      AreLaid-apart s a b symbols blocks x y laid own_a own_b (ap symbol_of ea)
        (before ∙ ap symbol_of eb) same)
