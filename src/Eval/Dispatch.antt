-- ===== src/Eval/Dispatch.antt =====
-- `dispatch` and the functions of dispatchTable. Each call of a function takes one unit of fuel. The
-- clauses of `dispatch` are, in their order, `eval_noop`, `eval_num`, `eval_string`, `eval_var`,
-- `eval_assign`, `eval_opassign`, `eval_incr`, `eval_math`, `eval_neg`, `eval_lor`, `eval_land`,
-- `eval_tern`, `eval_list`, `eval_ifthen`, `eval_while`, `eval_dowhile`, `eval_for`, `eval_block`,
-- `eval_return`, `eval_noop` and `eval_badop`. The clauses of an assignment leave the last step to
-- `Store`, and those of the loops to the functions below.
use javascript_database.Common.{ℕ, zero, suc, Bool, true, false, not, ◌||◌, ◌==◌, if◌then◌else◌}
use javascript_database.Math.Values.{
  Value, undef, null, bool, string, control, lval, ctl_return, ctl_break, frame, scope,
}
use javascript_database.Math.Convert.{conv2_bool}
use javascript_database.Math.Dispatch.{Machine, math_values, neg_value}
use javascript_database.Eval.Nodes.{
  Node, Nodes, first, num, str, var, assign, op_assign, incr, math, neg, lor, land, ternary, list,
  ifthen, while, dowhile, for, block, return, fcndef, badop, last, item, present,
}
use javascript_database.Eval.Env.{
  Env, Outcome, gives, exits, running, ◌>>=◌, or_stuck, read_slot, write_slot, reset_scope,
}
use javascript_database.Eval.Store.{op_store, incr_store}

-- How a statement ends, as a loop reads it.
pub data Leaves : Type 0 where
  goes_on breaks returns : Leaves

abbrev pub leaves : {F : Type 0} → Value F → Leaves
leaves (control ctl_break) = breaks
leaves (control ctl_return) = returns
leaves _ = goes_on

abbrev pub is_control : {F : Type 0} → Value F → Bool
is_control (control ctl) = true
is_control _ = false

abbrev pub with_lval : {F : Type 0} → Bool → Env F → Env F
with_lval flag env = record env { lval = flag }

-- `eval_var`: the value of a slot, or the slot.
unfoldable pub eval_var : {F : Type 0} → ℕ → Bool → Bool → Env F → Outcome F
eval_var idx scoped flag env =
    let slot = (if scoped then scope idx else frame idx) in
    if idx == 0
    then exits
    else if flag || env.lval
    then gives (lval slot) env
    else gives (read_slot env slot) env

module _ {F : Type 0} (m : Machine F) where
  abbrev pub is_true : Value F → Bool
  is_true v = conv2_bool m.doubles m.strtod v

  -- `makeError`
  abbrev pub make_error : Env F → Outcome F
  make_error env = gives (control m.stray) env

  unfoldable mutual
    unfolding eval_var math_values neg_value op_store incr_store

    pub dispatch : ℕ → Node F → Env F → Outcome F
    dispatch zero n env = running
    dispatch (suc fuel) first env = gives null env
    dispatch (suc fuel) (num v) env = gives v env
    dispatch (suc fuel) (str s) env = gives (string s) env
    dispatch (suc fuel) (var idx scoped flag) env = eval_var idx scoped flag env
    dispatch (suc fuel) (assign left right) env = do
      (place, env1) ← dispatch fuel left (with_lval true env)
      let env2 = with_lval env.lval env1
      elim place [
        | lval slot ↦ do (v, env3) ← dispatch fuel right env2; gives v (write_slot slot v env3)
        | _ ↦ make_error env2
      ]
    dispatch (suc fuel) (op_assign op left right) env = do
      (place, env1) ← dispatch fuel left (with_lval true env)
      let env2 = with_lval env.lval env1
      elim place [
        | lval slot ↦ do
          (v, env3) ← dispatch fuel right env2
          op_store m op slot (read_slot env3 slot) v env3
        | _ ↦ make_error env2
      ]
    dispatch (suc fuel) (incr op expr) env = do
      (place, env1) ← dispatch fuel expr env
      elim place [ lval slot ↦ incr_store m op slot env1 | _ ↦ make_error env1 ]
    dispatch (suc fuel) (math op left right) env = do
      (l, env1) ← dispatch fuel left env
      (r, env2) ← dispatch fuel right env1
      or_stuck env2 (math_values m op l r)
    dispatch (suc fuel) (neg op expr) env = do
      (v, env1) ← dispatch fuel expr env
      or_stuck env1 (neg_value m op v)
    dispatch (suc fuel) (lor left right) env = do
      (l, env1) ← dispatch fuel left env
      if is_true l
          then gives (bool true) env1
          else (dispatch fuel right env1 >>= λ (r, env2). gives (bool (is_true r)) env2)
    dispatch (suc fuel) (land left right) env = do
      (l, env1) ← dispatch fuel left env
      if is_true l
          then (dispatch fuel right env1 >>= λ (r, env2). gives (bool (is_true r)) env2)
          else gives (bool false) env1
    dispatch (suc fuel) (ternary cond on_true on_false) env = do
      (c, env1) ← dispatch fuel cond env
      dispatch fuel (if is_true c then on_true else on_false) env1
    dispatch (suc fuel) (list ns) env = eval_list fuel ns env
    dispatch (suc fuel) (ifthen cond then_stmt else_stmt) env = do
      (c, env1) ← dispatch fuel cond env
      let stmt = (if is_true c then then_stmt else else_stmt)
      if present stmt then dispatch fuel stmt env1 else gives undef env1
    dispatch (suc fuel) (while cond stmt) env =
        if present cond then while_loop fuel cond stmt env else gives undef env
    dispatch (suc fuel) (dowhile cond stmt) env = do_loop fuel cond stmt env
    dispatch (suc fuel) (for cnt init cond step stmt) env = do
      (v, env1) ← eval_init fuel init env
      (val, env2) ← (if is_control v then gives v env1 else for_loop fuel cond step stmt v env1)
      gives val (reset_scope cnt env2)
    dispatch (suc fuel) (block cnt body) env = do
      (val, env1) ← dispatch fuel body env
      gives val (reset_scope cnt env1)
    dispatch (suc fuel) (return ctl expr) env = do
      (v, env1) ← eval_init fuel expr env
      gives (control ctl) (write_slot (frame 0) v env1)
    dispatch (suc fuel) fcndef env = gives null env
    dispatch (suc fuel) badop env = make_error env

    -- A node that may be absent, in whose place undefined stands.
    pub eval_init : ℕ → Node F → Env F → Outcome F
    eval_init zero n env = running
    eval_init (suc fuel) n env = if present n then dispatch fuel n env else gives undef env

    pub eval_list : ℕ → Nodes F → Env F → Outcome F
    eval_list zero ns env = running
    eval_list (suc fuel) (last n) env = dispatch fuel n env
    eval_list (suc fuel) (item n ns) env = do
      (v, env1) ← dispatch fuel n env
      if is_control v then gives v env1 else eval_list fuel ns env1

    pub while_loop : ℕ → Node F → Node F → Env F → Outcome F
    while_loop zero cond stmt env = running
    while_loop (suc fuel) cond stmt env = do
      (c, env1) ← dispatch fuel cond env
      if not (is_true c)
          then gives undef env1
          else (dispatch fuel stmt env1 >>= λ (v, env2). elim (leaves v) [
            | goes_on ↦ while_loop fuel cond stmt env2
            | breaks ↦ gives undef env2
            | returns ↦ gives v env2
          ])

    pub do_loop : ℕ → Node F → Node F → Env F → Outcome F
    do_loop zero cond stmt env = running
    do_loop (suc fuel) cond stmt env = do
      (v, env1) ← dispatch fuel stmt env
      elim (leaves v) [
        | goes_on ↦
            if not (present cond)
            then gives undef env1
            else (dispatch fuel cond env1 >>= λ (c, env2).
                if is_true c then do_loop fuel cond stmt env2 else gives undef env2)
        | breaks ↦ gives undef env1
        | returns ↦ gives v env1
      ]

    -- `val` is the value of what was evaluated last.
    pub for_loop : ℕ → Node F → Node F → Node F → Value F → Env F → Outcome F
    for_loop zero cond step stmt val env = running
    for_loop (suc fuel) cond step stmt val env = do
      (go, env1) ← for_cond fuel cond env
      elim go [
        | bool false ↦ gives val env1
        | _ ↦ do
          (v, env2) ← dispatch fuel stmt env1
          elim (leaves v) [
            | goes_on ↦ for_step fuel cond step stmt v env2
            | breaks ↦ gives v env2
            | returns ↦ gives v env2
          ]
      ]

    -- Whether the loop goes on.
    pub for_cond : ℕ → Node F → Env F → Outcome F
    for_cond zero cond env = running
    for_cond (suc fuel) cond env =
        if present cond
        then (dispatch fuel cond env >>= λ (c, env1). gives (bool (is_true c)) env1)
        else gives (bool true) env

    pub for_step : ℕ → Node F → Node F → Node F → Value F → Env F → Outcome F
    for_step zero cond step stmt val env = running
    for_step (suc fuel) cond step stmt val env =
        if not (present step)
        then for_loop fuel cond step stmt val env
        else (dispatch fuel step env >>= λ (v, env1).
            if is_control v then gives v env1 else for_loop fuel cond step stmt v env1)
