-- ===== src/Tests/Scopes.antt =====
-- The symbols of a small program.
use javascript_database.Common.{
  ◌≡◌, refl, Bool, true, false, none, some, [], ◌∷◌, ◌==◌, ◌≢◌, if◌then◌else◌, arith,
}
use javascript_database.Props.Hash.{Name, name_eq}
use javascript_database.Props.Refine.{get_of}
use javascript_database.Symbols.Tree.{
  Nodes, list, assign, var, block, fcn_def, end, item, array, fcn_expr, unnamed,
}
use javascript_database.Symbols.Tables.{Symbol, Symtab, State, put_symbol, lookup_symbol}
use javascript_database.Symbols.Hoist.{hoist_list}
use javascript_database.Symbols.Assign.{assign_list, compile_scripts}
use javascript_database.Symbols.Slots.{HasSlots, put_symbol-HasSlots}
use javascript_database.Symbols.Declared.{AreSlotted, decls_in, hoist-AreSlotted}
use javascript_database.Symbols.Scopes.{is_some, any_has, bound_list}
use javascript_database.Symbols.Bound.{compile_scripts-bound}
use javascript_database.Symbols.Apart.{HasSlots-IsPlaced, AreLaid, lookup_symbol-apart}

-- function f(a) { let x; { let y = x; } }
abbrev program : Nodes
program =
    item
      (fcn_def 1 10 (b'f' ∷ []) (list (item (var 11 true false (b'a' ∷ [])) end)) (
        block 2 (
          list (
            item (var 12 true true (b'x' ∷ [])) (
              item
                (block 3 (assign (var 13 true true (b'y' ∷ [])) (var 14 false false (b'x' ∷ []))))
                end)))))
      end

abbrev no_symbols : Symtab
no_symbols = record {
  depth = 0;
  base_idx = 0;
  frame_idx = 0;
  scope_cnt = 0;
  nparams = 0;
  child_fcns = [];
  parents = [];
  entries = [];
}

abbrev fresh : State
fresh = record { tabs = λ id. no_symbols; notes = [] }

HasSlots-empty : HasSlots [] 0
unfolding get_of
HasSlots-empty = record {
  within = λ name s g. absurd (ground (arith, g));
  apart = λ a b x y ga gb e. absurd (ground (arith, ga));
}

hoist-AreSlotted_example : AreSlotted 4 (hoist_list program 0 [] fresh)
unfolding decls_in
hoist-AreSlotted_example =
    hoist-AreSlotted program 0 [] 0 fresh (omega arith)
      (record { each = λ id. (HasSlots-empty, omega arith) })

compile_scripts-bound_example :
    is_some (compile_scripts program 0 [] fresh)
    ≡ bound_list program 0 [] (hoist_list program 0 [] fresh)
compile_scripts-bound_example = compile_scripts-bound program 0 [] fresh

-- The names of the block are found, and one that is declared nowhere is not.
compile_runs :
    (is_some (compile_scripts program 0 [] fresh) ≡ true)
    × (is_some (compile_scripts (item (var 20 false false (b'z' ∷ [])) end) 0 [] fresh) ≡ false)
unfolding compile_scripts hoist_list assign_list get_of name_eq
compile_runs = (refl, refl)

-- A function in an array is not hoisted, and its parameter is not found.
abbrev in_array : Nodes
in_array =
    item
      (array (fcn_expr 1 unnamed (var 11 true false (b'a' ∷ [])) (var 12 false false (b'a' ∷ []))))
      end

array_runs : is_some (compile_scripts in_array 0 [] fresh) ≡ false
unfolding compile_scripts hoist_list assign_list get_of name_eq
array_runs = refl

abbrev slot_one : Bool → Symbol
slot_one scoped = record { frame_idx = 1; depth = 1; scoped = scoped; fixed = false }

-- A function 1 with a, and a block 2 in it with x.
abbrev nested : State
nested = record {
  tabs = λ id.
      if id == 2
      then record no_symbols {
        depth = 1;
        base_idx = 1;
        frame_idx = 1;
        entries = (b'x' ∷ [], slot_one true) ∷ [];
      }
      else record no_symbols {
        depth = 1;
        frame_idx = 1;
        entries = (b'a' ∷ [], slot_one false) ∷ [];
      };
  notes = [];
}

abbrev after_x : State
after_x = elim (lookup_symbol (b'x' ∷ []) 1 (2 ∷ []) nested) [
  | none ↦ nested
  | some found ↦ found.1
]

abbrev x_symbol : Symbol
x_symbol = record { frame_idx = 2; depth = 1; scoped = true; fixed = true }

HasSlots-one : (name : Name) (scoped : Bool) → HasSlots ((name, slot_one scoped) ∷ []) 1
unfolding put_symbol
HasSlots-one name scoped = put_symbol-HasSlots [] 0 name (slot_one scoped) HasSlots-empty refl

AreLaid-nested : AreLaid nested 1 (2 ∷ [])
unfolding AreLaid get_of
AreLaid-nested = (
  HasSlots-IsPlaced 1 (nested.tabs 2) (HasSlots-one (b'x' ∷ []) true)
      (λ name s g. ground (arith, g)) (omega arith),
  refl,
  HasSlots-one (b'a' ∷ []) false,
)

lookup_symbol-apart_example : x_symbol.frame_idx ≢ (slot_one false).frame_idx
unfolding lookup_symbol get_of name_eq put_symbol any_has
lookup_symbol-apart_example =
    lookup_symbol-apart (b'x' ∷ []) (b'a' ∷ []) 1 (2 ∷ []) nested after_x after_x x_symbol
      (slot_one false) AreLaid-nested refl refl refl refl (λ e. absurd (ground (arith, e)))
