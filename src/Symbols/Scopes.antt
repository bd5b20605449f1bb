-- ===== src/Symbols/Scopes.antt =====
-- The names of a program that are declared in the tables around them, and the lookups of `assignSlots`,
-- which leave it as it is which tables have which names.
use javascript_database.Common.{
  ℕ, ◌≡◌, refl, sym, inl, inr, Bool, true, false, ◌&&◌, ◌||◌, Option, none, some, List, [], ◌∷◌,
  ◌++◌, ◌==◌, ◌>>=◌, Bool-cases, Option-cases, ==_iff,
}
use javascript_database.Props.Hash.{Name, name_eq, name_eq_sound}
use javascript_database.Props.Refine.{get_of}
use javascript_database.Symbols.Tree.{
  Node, Nodes, empty, list, elem, obj, array, call, ifthen, while, for_in, for, assign, binary,
  unary, return, ternary, var, block, fcn_def, fcn_expr, other, end, item,
}
use javascript_database.Symbols.Tables.{
  Symbol, Symtab, State, set_tab, put_symbol, lookup_fcns, lookup_symbol,
}
use javascript_database.Symbols.Slots.{get_of-put_symbol}
use javascript_database.Symbols.Assign.{resolve, callee_of}

abbrev pub is_some {ℓ} : {A : Type ℓ} → Option A → Bool
is_some none = false
is_some (some a) = true

abbrev pub has : Name → Symtab → Bool
has name t = is_some (get_of t.entries name)

-- One of the tables has the name.
unfoldable pub any_has : Name → List ℕ → State → Bool
any_has name [] s = false
any_has name (id ∷ ids) s = has name (s.tabs id) || any_has name ids s

-- The tables in which a name is looked up: of the blocks around it and of the functions around it.
abbrev pub scopes : ℕ → List ℕ → State → List ℕ
scopes symbols blocks s = blocks ++ symbols ∷ (s.tabs symbols).parents

-- Whether each name of a part of the program that is read, written or called is in a table around it.
unfoldable mutual
  unfolding any_has callee_of

  pub bound : Node → ℕ → List ℕ → State → Bool
  bound empty symbols blocks s = true
  bound (list ns) symbols blocks s = bound_list ns symbols blocks s
  bound (elem n) symbols blocks s = bound n symbols blocks s
  bound (obj n) symbols blocks s = bound n symbols blocks s
  bound (array n) symbols blocks s = bound n symbols blocks s
  bound (call name args) symbols blocks s =
      bound args symbols blocks s && bound name symbols blocks s
  bound (ifthen cond then_stmt else_stmt) symbols blocks s =
      bound cond symbols blocks s
      && (bound then_stmt symbols blocks s && bound else_stmt symbols blocks s)
  bound (while cond stmt) symbols blocks s =
      bound cond symbols blocks s && bound stmt symbols blocks s
  bound (for_in id init expr stmt) symbols blocks s =
      let inner = id ∷ (s.tabs id).parents in
      bound init symbols inner s && (bound expr symbols inner s && bound stmt symbols inner s)
  bound (for id init cond incr stmt) symbols blocks s =
      let inner = id ∷ (s.tabs id).parents in
      bound init symbols inner s
      && (bound cond symbols inner s && (bound incr symbols inner s && bound stmt symbols inner s))
  bound (assign left right) symbols blocks s =
      bound left symbols blocks s && bound right symbols blocks s
  bound (binary left right) symbols blocks s =
      bound left symbols blocks s && bound right symbols blocks s
  bound (unary n) symbols blocks s = bound n symbols blocks s
  bound (return n) symbols blocks s = bound n symbols blocks s
  bound (ternary cond on_true on_false) symbols blocks s =
      bound cond symbols blocks s
      && (bound on_true symbols blocks s && bound on_false symbols blocks s)
  bound (var id decl scope name) symbols blocks s = any_has name (scopes symbols blocks s) s
  bound (block id body) symbols blocks s = bound body symbols (id ∷ (s.tabs id).parents) s
  bound (fcn_def id node name params body) symbols blocks s = bound body id blocks s
  bound (fcn_expr id name params body) symbols blocks s = bound body id blocks s
  bound other symbols blocks s = true

  pub bound_list : Nodes → ℕ → List ℕ → State → Bool
  bound_list end symbols blocks s = true
  bound_list (item n ns) symbols blocks s =
      bound n symbols blocks s && bound_list ns symbols blocks s

-- The same tables around each other, with the same names.
pub record AreSame (s0 : State) (s : State) : Type 0 where
  pub parents : (id : ℕ) → (s.tabs id).parents ≡ (s0.tabs id).parents
  pub names : (id : ℕ) (name : Name) → has name (s.tabs id) ≡ has name (s0.tabs id)

pub AreSame-refl : (s : State) → AreSame s s
AreSame-refl s = record { parents = λ id. refl; names = λ id name. refl }

pub set_tab-AreSame :
    (s0 s : State) (id : ℕ) (t : Symtab)
    → AreSame s0 s
    → t.parents ≡ (s.tabs id).parents
    → ((name : Name) → has name t ≡ has name (s.tabs id))
    → AreSame s0 (set_tab id t s)
set_tab-AreSame s0 s id t same p h = record {
  parents = λ j. elim (Bool-cases (j == id)) [
    | inl here ↦ rw (here, (==_iff j id).0 here, p, same.parents id)
    | inr there ↦ rw (there, same.parents j)
  ];
  names = λ j name. elim (Bool-cases (j == id)) [
    | inl here ↦ rw (here, (==_iff j id).0 here, h name, same.names id name)
    | inr there ↦ rw (there, same.names j name)
  ];
}

-- A run that goes on with the same scopes if `b`, and exits if not.
pub data Ends (s0 : State) : Bool → Option State → Type 0 where
  ends : (s : State) → AreSame s0 s → Ends s0 true (some s)
  exits : Ends s0 false none

pub Ends-then :
    (s0 : State) (b c : Bool) (o : Option State) (f : State → Option State)
    → Ends s0 b o
    → ((s : State) → AreSame s0 s → Ends s0 c (f s))
    → Ends s0 (b && c) (o >>= f)
Ends-then s0 b c o f (ends s same) next = next s same
Ends-then s0 b c o f exits next = exits

any_has-AreSame :
    (s0 s : State) (name : Name) (ids : List ℕ)
    → AreSame s0 s
    → any_has name ids s ≡ any_has name ids s0
unfolding any_has
any_has-AreSame s0 s name [] same = refl
any_has-AreSame s0 s name (id ∷ ids) same =
    rw (same.names id name, any_has-AreSame s0 s name ids same)

scopes-AreSame :
    (s0 s : State) (name : Name) (symbols : ℕ) (blocks : List ℕ)
    → AreSame s0 s
    → any_has name (scopes symbols blocks s) s ≡ any_has name (scopes symbols blocks s0) s0
scopes-AreSame s0 s name symbols blocks same =
    rw (same.parents symbols) (any_has-AreSame s0 s name _ same)

data Finds (s0 : State) : Bool → Option (Symbol × State) → Type 0 where
  finds : (symbol : Symbol) (s : State) → AreSame s0 s → Finds s0 true (some (symbol, s))
  fails : Finds s0 false none

fixed_in_place :
    (s0 s : State) (name : Name) (id : ℕ) (old new : Symbol)
    → AreSame s0 s
    → get_of (s.tabs id).entries name ≡ some old
    → AreSame s0
        (set_tab id (record (s.tabs id) { entries = put_symbol (s.tabs id).entries name new }) s)
fixed_in_place s0 s name id old new same g = set_tab-AreSame s0 s id _ same refl (λ other.
    elim (Bool-cases (name_eq name other)) [
      | inl here ↦
          let o = sym (name_eq_sound name other here) in
          rw (get_of-put_symbol (s.tabs id).entries name new other, here, o, g)
      | inr there ↦ rw (get_of-put_symbol (s.tabs id).entries name new other, there)
    ])

lookup_fcns-Finds :
    (s0 s : State) (name : Name) (ids : List ℕ)
    → AreSame s0 s
    → Finds s0
        (any_has name ids s)
        (elim (lookup_fcns name ids s) [ none ↦ none | some symbol ↦ some (symbol, s) ])
unfolding lookup_fcns any_has
lookup_fcns-Finds s0 s name [] same = fails
lookup_fcns-Finds s0 s name (id ∷ ids) same =
    elim (Option-cases (get_of (s.tabs id).entries name)) [
      | inl missing ↦ rw missing (lookup_fcns-Finds s0 s name ids same)
      | inr found ↦ rw (found.1) (finds found.0 s same)
    ]

lookup_symbol-Finds :
    (s0 s : State) (name : Name) (symbols : ℕ) (blocks : List ℕ)
    → AreSame s0 s
    → Finds s0 (any_has name (scopes symbols blocks s) s) (lookup_symbol name symbols blocks s)
unfolding lookup_symbol any_has
lookup_symbol-Finds s0 s name symbols [] same =
    lookup_fcns-Finds s0 s name (scopes symbols [] s) same
lookup_symbol-Finds s0 s name symbols (id ∷ ids) same =
    elim (Option-cases (get_of (s.tabs id).entries name)) [
      | inl missing ↦ rw (lookup_symbol, missing) (lookup_symbol-Finds s0 s name symbols ids same)
      | inr found ↦
          rw (lookup_symbol, found.1)
            (finds _ _ (fixed_in_place s0 s name id found.0 _ same found.1))
    ]

noted :
    (s0 : State) (b : Bool) (o : Option (Symbol × State)) (f : Symbol → State → State)
    → Finds s0 b o
    → ((symbol : Symbol) (s : State) → AreSame s0 s → AreSame s0 (f symbol s))
    → Ends s0 b (o >>= λ (symbol, s). some (f symbol s))
noted s0 b o f (finds symbol s same) keep = ends _ (keep symbol s same)
noted s0 b o f fails keep = exits

pub resolve-Ends :
    (s0 s : State) (called : Bool) (node : ℕ) (name : Name) (symbols : ℕ) (blocks : List ℕ)
    → AreSame s0 s
    → Ends s0
        (any_has name (scopes symbols blocks s0) s0)
        (resolve called node name symbols blocks s)
unfolding resolve
resolve-Ends s0 s called node name symbols blocks same =
    rw (← scopes-AreSame s0 s name symbols blocks same) (
      noted s0 _ _ _ (lookup_symbol-Finds s0 s name symbols blocks same)
        (λ symbol s' same'. record { parents = same'.parents; names = same'.names }))
