-- ===== src/Eval/Nodes.antt =====
-- The parse nodes that are evaluated here.
use javascript_database.Common.{ℕ, Bool, true, false, List}
use javascript_database.Math.Values.{Value, Ctl}
use javascript_database.Math.Dispatch.{MathOp, NegOp}

-- The aux field of a node_opassign.
pub data PlusMinus : Type 0 where
  pm_assign pm_add pm_sub pm_mpy pm_div pm_mod pm_and pm_xor pm_or pm_lshift pm_rshift : PlusMinus

pub data IncrDecr : Type 0 where
  incr_before incr_after decr_before decr_after : IncrDecr

mutual
  pub data Node (F : Type 0) : Type 0 where
    -- slot 0
    first : Node F
    num : Value F → Node F
    str : List ℕ → Node F
    -- frameIdx, flag_scope and flag_lval; the level is 0
    var : ℕ → Bool → Bool → Node F
    assign : Node F → Node F → Node F
    op_assign : PlusMinus → Node F → Node F → Node F
    incr : IncrDecr → Node F → Node F
    math : MathOp → Node F → Node F → Node F
    neg : NegOp → Node F → Node F
    lor land : Node F → Node F → Node F
    ternary : Node F → Node F → Node F → Node F
    list : Nodes F → Node F
    -- condexpr, thenstmt, elsestmt
    ifthen : Node F → Node F → Node F → Node F
    -- cond, stmt
    while dowhile : Node F → Node F → Node F
    -- scopeCnt of its symbols, init, cond, incr, stmt
    for : ℕ → Node F → Node F → Node F → Node F → Node F
    -- scopeCnt, body
    block : ℕ → Node F → Node F
    -- aux, expr: return, break and continue
    return : Ctl → Node F → Node F
    fcndef : Node F
    -- node_throw and others without an entry in dispatchTable
    badop : Node F

  -- node_list ... node_endlist
  pub data Nodes (F : Type 0) : Type 0 where
    last : Node F → Nodes F
    item : Node F → Nodes F → Nodes F

-- Whether there is a node.
abbrev pub present : {F : Type 0} → Node F → Bool
present first = false
present _ = true
