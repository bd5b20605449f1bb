-- ===== src/Symbols/Tables.antt =====
-- symtab_t, symbol_t, `findSymbol`, `insertSymbol` and `lookupSymbol`. The entries of a table are the
-- map that its property table stands for.
use javascript_database.Common.{
  ℕ, ◌+◌, ◌%◌, Bool, true, false, Option, none, some, List, [], ◌∷◌, ◌==◌, if◌then◌else◌,
}
use javascript_database.Vector.{word_mod}
use javascript_database.Props.Hash.{Name, name_eq}
use javascript_database.Props.Refine.{get_of}

-- The numbers of a symNode have 16 bits.
abbrev pub half_mod : ℕ
half_mod = 65536

pub record Symbol : Type 0 where
  pub frame_idx : ℕ
  pub depth : ℕ
  pub scoped : Bool
  pub fixed : Bool

-- `parents` are the tables that lead from `parent` outwards. `nparams` is that of the function node,
-- and `child_fcns` the list that `childFcns` heads.
pub record Symtab : Type 0 where
  pub depth : ℕ
  pub base_idx : ℕ
  pub frame_idx : ℕ
  pub scope_cnt : ℕ
  pub nparams : ℕ
  pub child_fcns : List ℕ
  pub parents : List ℕ
  pub entries : List (Name × Symbol)

-- What `level` and `frameIdx` of a symNode are set to, and whether flag_scope is.
pub record Note : Type 0 where
  pub node : ℕ
  pub level : ℕ
  pub frame_idx : ℕ
  pub scoped : Bool

-- All tables, each under its number, and the notes on the nodes, the last one first.
pub record State : Type 0 where
  pub tabs : ℕ → Symtab
  pub notes : List Note

abbrev pub set_tab : ℕ → Symtab → State → State
set_tab id t s = record s { tabs = λ j. if j == id then t else s.tabs j }

-- `findSymbol` with `create`, and a write of the symbol: at its place, or at the end.
unfoldable pub put_symbol : List (Name × Symbol) → Name → Symbol → List (Name × Symbol)
put_symbol [] name sym = (name, sym) ∷ []
put_symbol ((key, old) ∷ entries) name sym =
    if name_eq key name then (key, sym) ∷ entries else (key, old) ∷ put_symbol entries name sym

-- A symbol that is new is not fixed; one that is there keeps its mark.
abbrev pub was_fixed : Option Symbol → Bool
was_fixed none = false
was_fixed (some sym) = sym.fixed

-- `insertSymbol`: the next slot of the table, for a new name or for one that is there. A new symbol
-- is not fixed; the code does not set the field.
unfoldable pub insert_symbol : Name → Bool → Symtab → Symtab
unfolding put_symbol
insert_symbol name scoped t =
    let idx = (t.frame_idx + 1) % word_mod in
    record t {
      frame_idx = idx;
      entries = put_symbol t.entries name (record {
        frame_idx = idx;
        depth = t.depth % half_mod;
        scoped = scoped;
        fixed = was_fixed (get_of t.entries name);
      });
    }

-- What is added to a block symbol's slot: the end of the parent block, or that of the frame.
abbrev pub base_of : (ℕ → Symtab) → ℕ → List ℕ → ℕ
base_of tabs symbols [] = (tabs symbols).frame_idx
base_of tabs symbols (parent ∷ parents) = (tabs parent).base_idx + (tabs parent).frame_idx

abbrev pub fix : ℕ → Symbol → Symbol
fix base sym =
    if sym.fixed
    then sym
    else record sym { frame_idx = (sym.frame_idx + base) % word_mod; fixed = true }

-- The loop over the functions.
unfoldable pub lookup_fcns : Name → List ℕ → State → Option Symbol
lookup_fcns name [] s = none
lookup_fcns name (id ∷ ids) s = elim (get_of (s.tabs id).entries name) [
  | some sym ↦ some sym
  | none ↦ lookup_fcns name ids s
]

-- The loop over the blocks, which fixes the symbol that it finds, and then that over the functions.
unfoldable pub lookup_symbol : Name → ℕ → List ℕ → State → Option (Symbol × State)
unfolding lookup_fcns put_symbol
lookup_symbol name symbols [] s = elim (lookup_fcns name (symbols ∷ (s.tabs symbols).parents) s) [
  | none ↦ none
  | some sym ↦ some (sym, s)
]
lookup_symbol name symbols (id ∷ ids) s = elim (get_of (s.tabs id).entries name) [
  | none ↦ lookup_symbol name symbols ids s
  | some sym ↦
      let sym' = fix (base_of s.tabs symbols ids) sym in
      some (
        sym',
        set_tab id (record (s.tabs id) { entries = put_symbol (s.tabs id).entries name sym' }) s,
      )
]
