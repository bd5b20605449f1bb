-- ===== src/Eval/Fuel.antt =====
-- `dispatch` on one unit of fuel more.
use javascript_database.Common.{ℕ, zero, suc, false, not, if◌then◌else◌}
use javascript_database.Math.Values.{Value, bool, lval}
use javascript_database.Math.Dispatch.{Machine}
use javascript_database.Eval.Nodes.{
  Node, Nodes, first, num, str, var, assign, op_assign, incr, math, neg, lor, land, ternary, list,
  ifthen, while, dowhile, for, block, return, fcndef, badop, last, item, present,
}
use javascript_database.Eval.Env.{Env}
use javascript_database.Eval.Dispatch.{
  leaves, is_control, dispatch, eval_init, eval_list, while_loop, do_loop, for_loop, for_cond,
  for_step, is_true,
}
use javascript_database.Eval.Outcomes.{◌≼◌, same, ran_out, bind_grows, if_grows, leaves_grows}

module _ {F : Type 0} (m : Machine F) where
  mutual
    unfolding dispatch

    pub dispatch_step :
        (k : ℕ) (n : Node F) (env : Env F) → dispatch m k n env ≼ dispatch m (suc k) n env
    dispatch_step zero n env = ran_out
    dispatch_step (suc k) (assign left right) env = bind_grows _ _ (dispatch_step k left _) (elim [
      | lval slot ↦ λ env1. bind_grows _ _ (dispatch_step k right _) λ v env2. same
      | _ ↦ λ env1. same
    ])
    dispatch_step (suc k) (op_assign op left right) env =
        bind_grows _ _ (dispatch_step k left _) (elim [
          | lval slot ↦ λ env1. bind_grows _ _ (dispatch_step k right _) λ v env2. same
          | _ ↦ λ env1. same
        ])
    dispatch_step (suc k) (incr op expr) env =
        bind_grows _ _ (dispatch_step k expr env) λ v env1. same
    dispatch_step (suc k) (math op left right) env =
        bind_grows _ _ (dispatch_step k left env)
          λ l env1. bind_grows _ _ (dispatch_step k right env1) λ r env2. same
    dispatch_step (suc k) (neg op expr) env =
        bind_grows _ _ (dispatch_step k expr env) λ v env1. same
    dispatch_step (suc k) (lor left right) env = bind_grows _ _ (dispatch_step k left env) λ l env1.
        if_grows (is_true m l) same (bind_grows _ _ (dispatch_step k right env1) λ r env2. same)
    dispatch_step (suc k) (land left right) env =
        bind_grows _ _ (dispatch_step k left env) λ l env1.
          if_grows (is_true m l) (bind_grows _ _ (dispatch_step k right env1) λ r env2. same) same
    dispatch_step (suc k) (ternary cond on_true on_false) env =
        bind_grows _ _ (dispatch_step k cond env) λ c env1. dispatch_step k _ env1
    dispatch_step (suc k) (list ns) env = list_step k ns env
    dispatch_step (suc k) (ifthen cond then_stmt else_stmt) env =
        bind_grows _ _ (dispatch_step k cond env) λ c env1.
          if_grows (present (if is_true m c then then_stmt else else_stmt)) (dispatch_step k _ env1)
            same
    dispatch_step (suc k) (while cond stmt) env =
        if_grows (present cond) (while_step k cond stmt env) same
    dispatch_step (suc k) (dowhile cond stmt) env = do_step k cond stmt env
    dispatch_step (suc k) (for cnt init cond step stmt) env =
        bind_grows _ _ (init_step k init env) λ v env1.
          bind_grows _ _ (if_grows (is_control v) same (for_loop_step k cond step stmt v env1))
            λ val env2. same
    dispatch_step (suc k) (block cnt body) env =
        bind_grows _ _ (dispatch_step k body env) λ v env1. same
    dispatch_step (suc k) (return ctl expr) env =
        bind_grows _ _ (init_step k expr env) λ v env1. same
    dispatch_step (suc k) first env = same
    dispatch_step (suc k) (num v) env = same
    dispatch_step (suc k) (str s) env = same
    dispatch_step (suc k) (var idx scoped flag) env = same
    dispatch_step (suc k) fcndef env = same
    dispatch_step (suc k) badop env = same

    init_step : (k : ℕ) (n : Node F) (env : Env F) → eval_init m k n env ≼ eval_init m (suc k) n env
    init_step zero n env = ran_out
    init_step (suc k) n env = if_grows (present n) (dispatch_step k n env) same

    list_step :
        (k : ℕ) (ns : Nodes F) (env : Env F) → eval_list m k ns env ≼ eval_list m (suc k) ns env
    list_step zero ns env = ran_out
    list_step (suc k) (last n) env = dispatch_step k n env
    list_step (suc k) (item n ns) env =
        bind_grows _ _ (dispatch_step k n env)
          λ v env1. if_grows (is_control v) same (list_step k ns env1)

    pub while_step :
        (k : ℕ) (cond stmt : Node F) (env : Env F)
        → while_loop m k cond stmt env ≼ while_loop m (suc k) cond stmt env
    while_step zero cond stmt env = ran_out
    while_step (suc k) cond stmt env = bind_grows _ _ (dispatch_step k cond env) λ c env1.
        if_grows (not (is_true m c)) same (
          bind_grows _ _ (dispatch_step k stmt env1)
            λ v env2. leaves_grows (leaves v) _ _ (while_step k cond stmt env2))

    do_step :
        (k : ℕ) (cond stmt : Node F) (env : Env F)
        → do_loop m k cond stmt env ≼ do_loop m (suc k) cond stmt env
    do_step zero cond stmt env = ran_out
    do_step (suc k) cond stmt env = bind_grows _ _ (dispatch_step k stmt env) λ v env1.
        leaves_grows (leaves v) _ _ (
          if_grows (not (present cond)) same (
            bind_grows _ _ (dispatch_step k cond env1)
              λ c env2. if_grows (is_true m c) (do_step k cond stmt env2) same))

    for_loop_step :
        (k : ℕ) (cond step stmt : Node F) (val : Value F) (env : Env F)
        → for_loop m k cond step stmt val env ≼ for_loop m (suc k) cond step stmt val env
    for_loop_step zero cond step stmt val env = ran_out
    for_loop_step (suc k) cond step stmt val env = bind_grows _ _ (for_cond_step k cond env) (elim [
      | bool false ↦ λ env1. same
      | _ ↦ λ env1.
          bind_grows _ _ (dispatch_step k stmt env1)
            λ v env2. leaves_grows (leaves v) _ _ (for_step_step k cond step stmt v env2)
    ])

    for_cond_step :
        (k : ℕ) (cond : Node F) (env : Env F) → for_cond m k cond env ≼ for_cond m (suc k) cond env
    for_cond_step zero cond env = ran_out
    for_cond_step (suc k) cond env =
        if_grows (present cond) (bind_grows _ _ (dispatch_step k cond env) λ c env1. same) same

    for_step_step :
        (k : ℕ) (cond step stmt : Node F) (val : Value F) (env : Env F)
        → for_step m k cond step stmt val env ≼ for_step m (suc k) cond step stmt val env
    for_step_step zero cond step stmt val env = ran_out
    for_step_step (suc k) cond step stmt val env =
        if_grows (not (present step)) (for_loop_step k cond step stmt val env) (
          bind_grows _ _ (dispatch_step k step env)
            λ v env1. if_grows (is_control v) same (for_loop_step k cond step stmt v env1))
