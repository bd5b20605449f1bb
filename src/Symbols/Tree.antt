-- ===== src/Symbols/Tree.antt =====
-- The parse nodes, as far as `hoistSymbols` and `assignSlots` tell them apart. The first number of a
-- node names the symbol table or the symNode in it.
use javascript_database.Common.{ℕ, Bool}
use javascript_database.Props.Hash.{Name}

mutual
  pub data Node : Type 0 where
    -- slot 0
    empty : Node
    -- node_list, node_endlist
    list : Nodes → Node
    -- node_elem, of which only the right side is looked at
    elem : Node → Node
    obj array : Node → Node
    -- node_pipe, node_fcncall: the function and the arguments
    call : Node → Node → Node
    ifthen : Node → Node → Node → Node
    -- node_while, node_dowhile: the condition and the statement
    while : Node → Node → Node
    -- var, expr, stmt
    for_in : ℕ → Node → Node → Node → Node
    -- init, cond, incr, stmt
    for : ℕ → Node → Node → Node → Node → Node
    -- node_opassign, node_assign
    assign : Node → Node → Node
    -- node_lor, node_land, node_math, node_access
    binary : Node → Node → Node
    -- node_neg, node_enum, node_incr, node_typeof
    unary : Node → Node
    return : Node → Node
    ternary : Node → Node → Node → Node
    -- with flag_decl and flag_scope
    var : ℕ → Bool → Bool → Name → Node
    block : ℕ → Node → Node
    -- the symNode and the name; params and body
    fcn_def : ℕ → ℕ → Name → Node → Node → Node
    -- a name is optional
    fcn_expr : ℕ → FcnName → Node → Node → Node
    other : Node

  pub data Nodes : Type 0 where
    end : Nodes
    item : Node → Nodes → Nodes

  pub data FcnName : Type 0 where
    unnamed : FcnName
    named : ℕ → Name → FcnName
