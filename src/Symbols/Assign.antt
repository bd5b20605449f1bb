-- ===== src/Symbols/Assign.antt =====
-- `assignSlots` and `compileScripts`. Where the program prints an error and exits, there is no state.
use javascript_database.Common.{
  ℕ, ◌+◌, ◌-◌, ◌%◌, Bool, true, false, Option, none, some, List, ◌∷◌, ◌>>=◌,
}
use javascript_database.Vector.{word_mod}
use javascript_database.Props.Hash.{Name}
use javascript_database.Symbols.Tree.{
  Node, Nodes, empty, list, elem, obj, array, call, ifthen, while, for_in, for, assign, binary,
  unary, return, ternary, var, block, fcn_def, fcn_expr, other, end, item,
}
use javascript_database.Symbols.Tables.{
  half_mod, Symbol, Note, State, set_tab, base_of, lookup_symbol,
}
use javascript_database.Symbols.Hoist.{hoist_list}

unfoldable pub set_depth : ℕ → ℕ → State → State
set_depth id symbols s =
    set_tab id (record (s.tabs id) { depth = ((s.tabs symbols).depth + 1) % word_mod }) s

-- The slots of a block come after those of the block around it, or after those of the function.
unfoldable pub set_base : ℕ → ℕ → State → State
set_base id symbols s =
    set_tab id
      (record (s.tabs id) { base_idx = base_of s.tabs symbols (s.tabs id).parents % word_mod }) s

-- What a node is told of its symbol.
abbrev pub note_of : ℕ → ℕ → Symbol → Bool → Note
note_of node depth sym scoped = record {
  node = node;
  level = (depth + word_mod - sym.depth) % half_mod;
  frame_idx = sym.frame_idx % half_mod;
  scoped = scoped;
}

-- The name is looked up and the node told; a call leaves the flags of its name as they are.
unfoldable pub resolve : Bool → ℕ → Name → ℕ → List ℕ → State → Option State
unfolding lookup_symbol
resolve called node name symbols blocks s = do
  (sym, s') ← lookup_symbol name symbols blocks s
  some (record s' {
    notes =
        note_of node (s'.tabs symbols).depth sym (elim called [ true ↦ false | false ↦ sym.scoped ])
        ∷ s'.notes;
  })

-- A name that is called.
unfoldable pub callee_of : Node → Option (ℕ × Name)
callee_of (var id decl scope name) = some (id, name)
callee_of _ = none

unfoldable mutual
  unfolding resolve set_depth set_base callee_of

  pub assign_slots : Node → ℕ → List ℕ → State → Option State
  assign_slots empty symbols blocks s = some s
  assign_slots (list ns) symbols blocks s = assign_list ns symbols blocks s
  assign_slots (elem n) symbols blocks s = assign_slots n symbols blocks s
  assign_slots (obj n) symbols blocks s = assign_slots n symbols blocks s
  assign_slots (array n) symbols blocks s = assign_slots n symbols blocks s
  assign_slots (call name args) symbols blocks s = do
    s' ← assign_slots args symbols blocks s
    elim (callee_of name) [
      | none ↦ assign_slots name symbols blocks s'
      | some found ↦ resolve true found.0 found.1 symbols blocks s'
    ]
  assign_slots (ifthen cond then_stmt else_stmt) symbols blocks s = do
    s1 ← assign_slots cond symbols blocks s
    s2 ← assign_slots then_stmt symbols blocks s1
    assign_slots else_stmt symbols blocks s2
  assign_slots (while cond stmt) symbols blocks s = do
    s1 ← assign_slots cond symbols blocks s
    assign_slots stmt symbols blocks s1
  assign_slots (for_in id init expr stmt) symbols blocks s = do
    let inner = id ∷ (s.tabs id).parents
    s1 ← assign_slots init symbols inner (set_base id symbols s)
    s2 ← assign_slots expr symbols inner s1
    assign_slots stmt symbols inner s2
  assign_slots (for id init cond incr stmt) symbols blocks s = do
    let inner = id ∷ (s.tabs id).parents
    s1 ← assign_slots init symbols inner (set_base id symbols s)
    s2 ← assign_slots cond symbols inner s1
    s3 ← assign_slots incr symbols inner s2
    assign_slots stmt symbols inner s3
  assign_slots (assign left right) symbols blocks s = do
    s1 ← assign_slots left symbols blocks s
    assign_slots right symbols blocks s1
  assign_slots (binary left right) symbols blocks s = do
    s1 ← assign_slots left symbols blocks s
    assign_slots right symbols blocks s1
  assign_slots (unary n) symbols blocks s = assign_slots n symbols blocks s
  assign_slots (return n) symbols blocks s = assign_slots n symbols blocks s
  assign_slots (ternary cond on_true on_false) symbols blocks s = do
    s1 ← assign_slots cond symbols blocks s
    s2 ← assign_slots on_true symbols blocks s1
    assign_slots on_false symbols blocks s2
  assign_slots (var id decl scope name) symbols blocks s = resolve false id name symbols blocks s
  assign_slots (block id body) symbols blocks s =
      assign_slots body symbols (id ∷ (s.tabs id).parents) (set_base id symbols s)
  assign_slots (fcn_def id node name params body) symbols blocks s =
      assign_slots body id blocks (set_depth id symbols s)
  assign_slots (fcn_expr id name params body) symbols blocks s =
      assign_slots body id blocks (set_depth id symbols s)
  assign_slots other symbols blocks s = some s

  pub assign_list : Nodes → ℕ → List ℕ → State → Option State
  assign_list end symbols blocks s = some s
  assign_list (item n ns) symbols blocks s = do
    s1 ← assign_slots n symbols blocks s
    assign_list ns symbols blocks s1

-- The modules are all hoisted before any slot is assigned.
unfoldable pub compile_scripts : Nodes → ℕ → List ℕ → State → Option State
unfolding hoist_list assign_list
compile_scripts modules symbols blocks s =
    assign_list modules symbols blocks (hoist_list modules symbols blocks s)
