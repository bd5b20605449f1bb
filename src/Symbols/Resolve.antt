-- ===== src/Symbols/Resolve.antt =====
-- `lookupSymbol` on the slots of the blocks and of the function around a name.
use javascript_database.Common.{
  ℕ, ◌≡◌, refl, sym, ap, ◌∙◌, inl, inr, false, Option, none, some, List, [], ◌∷◌, ◌==◌, arith,
  Bool-cases, Option-cases, ==_iff,
}
use javascript_database.Props.Hash.{Name, name_eq, name_eq_sound, name_eq_refl}
use javascript_database.Props.Refine.{get_of}
use javascript_database.Symbols.Tables.{
  Symbol, State, set_tab, put_symbol, base_of, fix, lookup_fcns, lookup_symbol,
}
use javascript_database.Symbols.Slots.{get_of-put_symbol}

-- The symbol of a lookup, without the state.
abbrev pub symbol_of : Option (Symbol × State) → Option Symbol
symbol_of none = none
symbol_of (some (symbol, s)) = some symbol

fix-fix : (base : ℕ) (symbol : Symbol) → fix base (fix base symbol) ≡ fix base symbol
fix-fix base symbol = elim (Bool-cases symbol.fixed) [ inl e ↦ simp (e) | inr e ↦ simp (e) ]

-- States that differ at most in the symbols of one name.
record IsAlike (name : Name) (s t : State) : Type 0 where
  base : (id : ℕ) → (t.tabs id).base_idx ≡ (s.tabs id).base_idx
  frame : (id : ℕ) → (t.tabs id).frame_idx ≡ (s.tabs id).frame_idx
  parents : (id : ℕ) → (t.tabs id).parents ≡ (s.tabs id).parents
  others :
      (id : ℕ) (other : Name)
      → name_eq name other ≡ false
      → get_of (t.tabs id).entries other ≡ get_of (s.tabs id).entries other
  missing :
      (id : ℕ) → get_of (s.tabs id).entries name ≡ none → get_of (t.tabs id).entries name ≡ none

IsAlike-refl : (name : Name) (s : State) → IsAlike name s s
IsAlike-refl name s = record {
  base = λ id. refl;
  frame = λ id. refl;
  parents = λ id. refl;
  others = λ id other e. refl;
  missing = λ id e. e;
}

abbrev with_symbol : ℕ → Name → Symbol → State → State
with_symbol id name symbol s =
    set_tab id (record (s.tabs id) { entries = put_symbol (s.tabs id).entries name symbol }) s

with_symbol-IsAlike :
    (id : ℕ) (name : Name) (old new : Symbol) (s : State)
    → get_of (s.tabs id).entries name ≡ some old
    → IsAlike name s (with_symbol id name new s)
with_symbol-IsAlike id name old new s found = record {
  base = λ j. elim (Bool-cases (j == id)) [
    | inl here ↦ rw (here, (==_iff j id).0 here)
    | inr there ↦ rw there
  ];
  frame = λ j. elim (Bool-cases (j == id)) [
    | inl here ↦ rw (here, (==_iff j id).0 here)
    | inr there ↦ rw there
  ];
  parents = λ j. elim (Bool-cases (j == id)) [
    | inl here ↦ rw (here, (==_iff j id).0 here)
    | inr there ↦ rw there
  ];
  others = λ j other e. elim (Bool-cases (j == id)) [
    | inl here ↦
        rw (here, (==_iff j id).0 here, get_of-put_symbol (s.tabs id).entries name new other, e)
    | inr there ↦ rw there
  ];
  missing = λ j gone. elim (Bool-cases (j == id)) [
    | inl here ↦
        let at_id : get_of (s.tabs id).entries name ≡ none = rw (← (==_iff j id).0 here) gone in
        absurd (ground (arith, at_id, found))
    | inr there ↦ rw there gone
  ];
}

base_of-IsAlike :
    (name : Name) (s t : State) (symbols : ℕ) (ids : List ℕ)
    → IsAlike name s t
    → base_of t.tabs symbols ids ≡ base_of s.tabs symbols ids
base_of-IsAlike name s t symbols [] like = like.frame symbols
base_of-IsAlike name s t symbols (id ∷ ids) like = rw (like.base id, like.frame id)

pub lookup_symbol-own :
    (name : Name) (symbols : ℕ) (s : State) (o : Option Symbol)
    → lookup_fcns name (symbols ∷ (s.tabs symbols).parents) s ≡ o
    → lookup_symbol name symbols [] s ≡ (elim o [ none ↦ none | some symbol ↦ some (symbol, s) ])
unfolding lookup_symbol put_symbol
lookup_symbol-own name symbols s o e = rw (lookup_symbol, e)

pub lookup_symbol-skip :
    (name : Name) (symbols id : ℕ) (ids : List ℕ) (s : State)
    → get_of (s.tabs id).entries name ≡ none
    → lookup_symbol name symbols (id ∷ ids) s ≡ lookup_symbol name symbols ids s
unfolding lookup_symbol put_symbol
lookup_symbol-skip name symbols id ids s gone = rw (lookup_symbol, gone)

pub lookup_symbol-hit :
    (name : Name) (symbols id : ℕ) (ids : List ℕ) (s : State) (old : Symbol)
    → get_of (s.tabs id).entries name ≡ some old
    → lookup_symbol name symbols (id ∷ ids) s
      ≡ some (
        fix (base_of s.tabs symbols ids) old,
        with_symbol id name (fix (base_of s.tabs symbols ids) old) s,
      )
unfolding lookup_symbol put_symbol
lookup_symbol-hit name symbols id ids s old found = rw (lookup_symbol, found)

state_of : (p q : Symbol × State) → some p ≡ some q → p.1 ≡ q.1
state_of p q e = ap (λ o. elim o [ none ↦ p.1 | some r ↦ r.1 ]) e

none_ne_some : (p : Symbol × State) → Path (Option (Symbol × State)) none (some p) → ⊥
none_ne_some p e = absurd cc

lookup_symbol-IsAlike :
    (name : Name) (symbols : ℕ) (blocks : List ℕ) (s t : State) (symbol : Symbol)
    → lookup_symbol name symbols blocks s ≡ some (symbol, t)
    → IsAlike name s t
lookup_symbol-IsAlike name symbols [] s t symbol e =
    elim (Option-cases (lookup_fcns name (symbols ∷ (s.tabs symbols).parents) s)) [
      | inl gone ↦
          absurd (none_ne_some (symbol, t) (sym (lookup_symbol-own name symbols s none gone) ∙ e))
      | inr found ↦
          let own = lookup_symbol-own name symbols s (some found.0) found.1 in
          rw (← state_of (found.0, s) (symbol, t) (sym own ∙ e)) (IsAlike-refl name s)
    ]
lookup_symbol-IsAlike name symbols (id ∷ ids) s t symbol e =
    elim (Option-cases (get_of (s.tabs id).entries name)) [
      | inl gone ↦
          lookup_symbol-IsAlike name symbols ids s t symbol
            (sym (lookup_symbol-skip name symbols id ids s gone) ∙ e)
      | inr found ↦
          let hit = lookup_symbol-hit name symbols id ids s found.0 found.1 in
          rw (← state_of _ (symbol, t) (sym hit ∙ e))
            (with_symbol-IsAlike id name found.0 _ s found.1)
    ]

lookup_fcns-IsAlike :
    (name : Name) (s t : State) (other : Name) (ids : List ℕ)
    → IsAlike name s t
    → name_eq name other ≡ false
    → lookup_fcns other ids t ≡ lookup_fcns other ids s
unfolding lookup_fcns
lookup_fcns-IsAlike name s t other [] like differ = refl
lookup_fcns-IsAlike name s t other (id ∷ ids) like differ =
    let same = like.others id other differ in
    elim (Option-cases (get_of (s.tabs id).entries other)) [
      | inl gone ↦ rw (lookup_fcns, same, gone) (lookup_fcns-IsAlike name s t other ids like differ)
      | inr found ↦ rw (lookup_fcns, same, found.1)
    ]

-- Another name is resolved as before.
lookup_symbol-other :
    (name : Name) (s t : State) (other : Name) (symbols : ℕ) (blocks : List ℕ)
    → IsAlike name s t
    → name_eq name other ≡ false
    → symbol_of (lookup_symbol other symbols blocks t)
      ≡ symbol_of (lookup_symbol other symbols blocks s)
lookup_symbol-other name s t other symbols [] like differ =
    let parents = like.parents symbols in
    let own = lookup_fcns-IsAlike name s t other (symbols ∷ (s.tabs symbols).parents) like differ in
    elim (Option-cases (lookup_fcns other (symbols ∷ (s.tabs symbols).parents) s)) [
      | inl gone ↦ rw (
        lookup_symbol-own other symbols s none gone,
        lookup_symbol-own other symbols t none (rw parents (own ∙ gone)),
      )
      | inr found ↦ rw (
        lookup_symbol-own other symbols s (some found.0) found.1,
        lookup_symbol-own other symbols t (some found.0) (rw parents (own ∙ found.1)),
      )
    ]
lookup_symbol-other name s t other symbols (id ∷ ids) like differ =
    let same = like.others id other differ in
    elim (Option-cases (get_of (s.tabs id).entries other)) [
      | inl gone ↦
          rw
            (
              lookup_symbol-skip other symbols id ids s gone,
              lookup_symbol-skip other symbols id ids t (same ∙ gone),
            )
            (lookup_symbol-other name s t other symbols ids like differ)
      | inr found ↦ rw (
        lookup_symbol-hit other symbols id ids s found.0 found.1,
        lookup_symbol-hit other symbols id ids t found.0 (same ∙ found.1),
        base_of-IsAlike name s t symbols ids like,
      )
    ]

-- The same name is resolved to the same symbol.
lookup_symbol-again :
    (name : Name) (s t : State) (symbol : Symbol) (symbols : ℕ) (blocks : List ℕ)
    → lookup_symbol name symbols blocks s ≡ some (symbol, t)
    → symbol_of (lookup_symbol name symbols blocks t)
      ≡ symbol_of (lookup_symbol name symbols blocks s)
lookup_symbol-again name s t symbol symbols [] e =
    elim (Option-cases (lookup_fcns name (symbols ∷ (s.tabs symbols).parents) s)) [
      | inl gone ↦
          absurd (none_ne_some (symbol, t) (sym (lookup_symbol-own name symbols s none gone) ∙ e))
      | inr found ↦
          let own = lookup_symbol-own name symbols s (some found.0) found.1 in
          rw (← state_of (found.0, s) (symbol, t) (sym own ∙ e))
    ]
lookup_symbol-again name s t symbol symbols (id ∷ ids) e =
    elim (Option-cases (get_of (s.tabs id).entries name)) [
      | inl gone ↦
          let e' = sym (lookup_symbol-skip name symbols id ids s gone) ∙ e in
          let still = (lookup_symbol-IsAlike name symbols ids s t symbol e').missing id gone in
          rw
            (
              lookup_symbol-skip name symbols id ids s gone,
              lookup_symbol-skip name symbols id ids t still,
            )
            (lookup_symbol-again name s t symbol symbols ids e')
      | inr found ↦
          let base = base_of s.tabs symbols ids in
          let hit = lookup_symbol-hit name symbols id ids s found.0 found.1 in
          let now : with_symbol id name (fix base found.0) s ≡ t =
            state_of _ (symbol, t) (sym hit ∙ e) in
          let like = lookup_symbol-IsAlike name symbols (id ∷ ids) s t symbol e in
          let there : get_of (t.tabs id).entries name ≡ some (fix base found.0) = rw (
            ← now,
            (==_iff id id).1 refl,
            get_of-put_symbol (s.tabs id).entries name (fix base found.0) name,
            name_eq_refl name,
          ) in
          rw (
            hit,
            lookup_symbol-hit name symbols id ids t (fix base found.0) there,
            base_of-IsAlike name s t symbols ids like,
            fix-fix base found.0,
          )
    ]

-- After a lookup of a name that is found, any name is resolved to the symbol that it is resolved
-- to before, in the same function and blocks.
pub lookup_symbol-stable :
    (first second : Name) (symbols : ℕ) (blocks : List ℕ) (s t : State) (symbol : Symbol)
    → lookup_symbol first symbols blocks s ≡ some (symbol, t)
    → symbol_of (lookup_symbol second symbols blocks t)
      ≡ symbol_of (lookup_symbol second symbols blocks s)
lookup_symbol-stable first second symbols blocks s t symbol e =
    elim (Bool-cases (name_eq first second)) [
      | inl same ↦
          rw (← name_eq_sound first second same)
            (lookup_symbol-again first s t symbol symbols blocks e)
      | inr differ ↦
          let like = lookup_symbol-IsAlike first symbols blocks s t symbol e in
          lookup_symbol-other first s t second symbols blocks like differ
    ]
