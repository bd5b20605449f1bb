-- ===== src/Symbols/Hoist.antt =====
-- `hoistSymbols`: the declarations are entered in the tables. `symbols` is the table of the function,
-- `blocks` those of the blocks around the node, the innermost first.
use javascript_database.Common.{ℕ, ◌+◌, ◌%◌, Bool, true, false, List, [], ◌∷◌, ltb, if◌then◌else◌}
use javascript_database.Vector.{word_mod}
use javascript_database.Props.Hash.{Name}
use javascript_database.Symbols.Tree.{
  Node, Nodes, FcnName, empty, list, elem, obj, array, call, ifthen, while, for_in, for, assign,
  binary, unary, return, ternary, var, block, fcn_def, fcn_expr, other, end, item, unnamed, named,
}
use javascript_database.Symbols.Tables.{half_mod, State, set_tab, insert_symbol}

-- The table that a declaration goes to, and whether it is that of a block.
unfoldable pub target : Bool → ℕ → List ℕ → ℕ × Bool
target false symbols blocks = (symbols, false)
target true symbols [] = (symbols, false)
target true symbols (blk ∷ blocks) = (blk, true)

-- `insertSymbol` on a table of the state.
unfoldable pub declare : Name → ℕ × Bool → State → State
unfolding insert_symbol
declare name (id, scoped) s = set_tab id (insert_symbol name scoped (s.tabs id)) s

-- A new scope frame.
unfoldable pub open_block : ℕ → ℕ → List ℕ → State → State
open_block id symbols blocks s =
    set_tab id (record (s.tabs id) { depth = (s.tabs symbols).depth; parents = blocks }) s

-- The slots that the table around needs for its blocks.
unfoldable pub raise_scope : ℕ → ℕ → State → State
raise_scope id outer s =
    if ltb (s.tabs outer).scope_cnt (s.tabs id).frame_idx
    then set_tab outer (record (s.tabs outer) { scope_cnt = (s.tabs id).frame_idx }) s
    else s

-- The table around a block.
abbrev pub outer_of : ℕ → List ℕ → ℕ
outer_of symbols [] = symbols
outer_of symbols (blk ∷ blocks) = blk

unfoldable pub open_fcn : ℕ → ℕ → State → State
open_fcn id symbols s =
    set_tab id
      (record (s.tabs id) {
        depth = ((s.tabs symbols).depth + 1) % word_mod;
        parents = symbols ∷ (s.tabs symbols).parents;
      })
      s

unfoldable pub count_params : ℕ → State → State
count_params id s = set_tab id (record (s.tabs id) { nparams = (s.tabs id).frame_idx }) s

-- The name of a function: in the table of the function around for a definition, in its own for an
-- expression.
unfoldable pub declare_fcn : ℕ → Name → ℕ → State → State
unfolding declare
declare_fcn node name id s =
    let s' = declare name (id, false) s in
    record s' {
      notes =
          record {
            node = node;
            level = 0;
            frame_idx = (s'.tabs id).frame_idx % half_mod;
            scoped = false;
          }
          ∷ s'.notes;
    }

unfoldable pub declare_own : FcnName → ℕ → State → State
unfolding declare_fcn
declare_own unnamed id s = s
declare_own (named node name) id s = declare_fcn node name id s

unfoldable pub link_fcn : ℕ → ℕ → State → State
link_fcn id symbols s =
    set_tab symbols (record (s.tabs symbols) { child_fcns = id ∷ (s.tabs symbols).child_fcns }) s

unfoldable mutual
  unfolding target declare open_block raise_scope open_fcn count_params declare_fcn declare_own
      link_fcn

  pub hoist : Node → ℕ → List ℕ → State → State
  hoist empty symbols blocks s = s
  hoist (list ns) symbols blocks s = hoist_list ns symbols blocks s
  hoist (elem n) symbols blocks s = hoist n symbols blocks s
  hoist (obj n) symbols blocks s = hoist n symbols blocks s
  hoist (array n) symbols blocks s = s
  hoist (call name args) symbols blocks s = hoist args symbols blocks (hoist name symbols blocks s)
  hoist (ifthen cond then_stmt else_stmt) symbols blocks s =
      hoist else_stmt symbols blocks (hoist then_stmt symbols blocks s)
  hoist (while cond stmt) symbols blocks s = hoist stmt symbols blocks s
  hoist (for_in id init expr stmt) symbols blocks s = hoist stmt symbols (id ∷ blocks) (
      raise_scope id (outer_of symbols blocks)
        (hoist init symbols (id ∷ blocks) (open_block id symbols blocks s)))
  hoist (for id init cond incr stmt) symbols blocks s = hoist stmt symbols (id ∷ blocks) (
      raise_scope id (outer_of symbols blocks)
        (hoist init symbols (id ∷ blocks) (open_block id symbols blocks s)))
  hoist (assign left right) symbols blocks s =
      hoist right symbols blocks (hoist left symbols blocks s)
  hoist (binary left right) symbols blocks s = s
  hoist (unary n) symbols blocks s = s
  hoist (return n) symbols blocks s = hoist n symbols blocks s
  hoist (ternary cond on_true on_false) symbols blocks s = s
  hoist (var id decl scope name) symbols blocks s =
      if decl then declare name (target scope symbols blocks) s else s
  hoist (block id body) symbols blocks s =
      raise_scope id (outer_of symbols blocks)
        (hoist body symbols (id ∷ blocks) (open_block id symbols blocks s))
  hoist (fcn_def id node name params body) symbols blocks s = hoist body id blocks (
      count_params id (
        hoist params id blocks
          (open_fcn id symbols (link_fcn id symbols (declare_fcn node name symbols s)))))
  hoist (fcn_expr id name params body) symbols blocks s =
      hoist body id blocks
        (declare_own name id (count_params id (hoist params id blocks (open_fcn id symbols s))))
  hoist other symbols blocks s = s

  pub hoist_list : Nodes → ℕ → List ℕ → State → State
  hoist_list end symbols blocks s = s
  hoist_list (item n ns) symbols blocks s = hoist_list ns symbols blocks (hoist n symbols blocks s)
