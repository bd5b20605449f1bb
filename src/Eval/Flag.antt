-- ===== src/Eval/Flag.antt =====
-- The flag lval of the environment, which an assignment sets while its left side is evaluated.
use javascript_database.Common.{ℕ, zero, suc, Bool, true, false, ◌≡◌, ◌∙◌, refl, subst}
use javascript_database.Math.Values.{Value, bool, lval, Slot, frame, scope}
use javascript_database.Math.Dispatch.{Machine}
use javascript_database.Eval.Nodes.{
  Node, Nodes, first, num, str, var, assign, op_assign, incr, math, neg, lor, land, ternary, list,
  ifthen, while, dowhile, for, block, return, fcndef, badop, last, item,
}
use javascript_database.Eval.Env.{Env, Outcome, gives, write_slot, reset_scope}
use javascript_database.Eval.Dispatch.{
  leaves, is_control, with_lval, eval_var, dispatch, eval_init, eval_list, while_loop, do_loop,
  for_loop, for_cond, for_step,
}
use javascript_database.Eval.Outcomes.{
  Gives, gave, exited, timeout, bind-Gives, if_Gives, or_stuck-Gives, leaves-Gives, gives_holds,
}
use javascript_database.Eval.Changes.{op_store-Gives, incr_store-Gives}

module _ {F : Type 0} (m : Machine F) where
  -- An outcome whose environment has the flag `b`.
  abbrev HasFlag : Bool → Outcome F → Type 0
  HasFlag b = Gives (λ v env. env.lval ≡ b)

  write_slot-flag :
      (slot : Slot) (v : Value F) (env : Env F) → (write_slot slot v env).lval ≡ env.lval
  write_slot-flag (frame i) v env = refl
  write_slot-flag (scope i) v env = refl

  eval_var-HasFlag :
      (i : ℕ) (scoped flag : Bool) (env : Env F) → HasFlag env.lval (eval_var i scoped flag env)
  unfolding eval_var
  eval_var-HasFlag i scoped flag env = if_Gives _ exited (if_Gives _ (gave refl) (gave refl))

  mutual
    unfolding dispatch

    dispatch_flag :
        (k : ℕ) (n : Node F) (b : Bool) (env : Env F)
        → env.lval ≡ b
        → HasFlag b (dispatch m k n env)
    dispatch_flag zero n b env h = timeout
    dispatch_flag (suc k) (assign left right) b env h =
        bind-Gives _ (dispatch_flag k left true (with_lval true env) refl) (elim [
          | lval slot ↦ λ env1 h1.
              bind-Gives _ (dispatch_flag k right b (with_lval env.lval env1) h)
                λ v env3 h3. gave (write_slot-flag slot v env3 ∙ h3)
          | _ ↦ λ env1 h1. gave h
        ])
    dispatch_flag (suc k) (op_assign op left right) b env h =
        bind-Gives _ (dispatch_flag k left true (with_lval true env) refl) (elim [
          | lval slot ↦ λ env1 h1.
              bind-Gives _ (dispatch_flag k right b (with_lval env.lval env1) h) λ v env3 h3.
                op_store-Gives m slot env3 h3 (λ w. write_slot-flag slot w env3 ∙ h3) op _ v
          | _ ↦ λ env1 h1. gave h
        ])
    dispatch_flag (suc k) (incr op expr) b env h =
        bind-Gives _ (dispatch_flag k expr b env h) (elim [
          | lval slot ↦
              λ env1 h1. incr_store-Gives m slot env1 h1 (λ w. write_slot-flag slot w env1 ∙ h1) op
          | _ ↦ λ env1 h1. gave h1
        ])
    dispatch_flag (suc k) (math op left right) b env h =
        bind-Gives _ (dispatch_flag k left b env h) λ l env1 h1.
          bind-Gives _ (dispatch_flag k right b env1 h1) λ r env2 h2. or_stuck-Gives env2 _ λ w. h2
    dispatch_flag (suc k) (neg op expr) b env h =
        bind-Gives _ (dispatch_flag k expr b env h) λ v env1 h1. or_stuck-Gives env1 _ λ w. h1
    dispatch_flag (suc k) (lor left right) b env h =
        bind-Gives _ (dispatch_flag k left b env h) λ l env1 h1.
          if_Gives _ (gave h1) (bind-Gives _ (dispatch_flag k right b env1 h1) λ r env2 h2. gave h2)
    dispatch_flag (suc k) (land left right) b env h =
        bind-Gives _ (dispatch_flag k left b env h) λ l env1 h1.
          if_Gives _ (bind-Gives _ (dispatch_flag k right b env1 h1) λ r env2 h2. gave h2) (gave h1)
    dispatch_flag (suc k) (ternary cond on_true on_false) b env h =
        bind-Gives _ (dispatch_flag k cond b env h) λ c env1 h1. dispatch_flag k _ b env1 h1
    dispatch_flag (suc k) (list ns) b env h = list_flag k ns b env h
    dispatch_flag (suc k) (ifthen cond then_stmt else_stmt) b env h =
        bind-Gives _ (dispatch_flag k cond b env h)
          λ c env1 h1. if_Gives _ (dispatch_flag k _ b env1 h1) (gave h1)
    dispatch_flag (suc k) (while cond stmt) b env h =
        if_Gives _ (while_flag k cond stmt b env h) (gave h)
    dispatch_flag (suc k) (dowhile cond stmt) b env h = do_flag k cond stmt b env h
    dispatch_flag (suc k) (for cnt init cond step stmt) b env h =
        bind-Gives _ (init_flag k init b env h) λ v env1 h1.
          bind-Gives (λ (val, env2). gives val (reset_scope cnt env2))
            (if_Gives (is_control v) (gave {v = v} {env = env1} h1)
              (for_loop_flag k cond step stmt v b env1 h1))
            λ val env2 h2. gave h2
    dispatch_flag (suc k) (block cnt body) b env h =
        bind-Gives _ (dispatch_flag k body b env h) λ v env1 h1. gave h1
    dispatch_flag (suc k) (return ctl expr) b env h =
        bind-Gives _ (init_flag k expr b env h) λ v env1 h1. gave h1
    dispatch_flag (suc k) first b env h = gave h
    dispatch_flag (suc k) (num v) b env h = gave h
    dispatch_flag (suc k) (str s) b env h = gave h
    dispatch_flag (suc k) (var i scoped flag) b env h =
        subst (λ c. HasFlag c (eval_var i scoped flag env)) h (eval_var-HasFlag i scoped flag env)
    dispatch_flag (suc k) fcndef b env h = gave h
    dispatch_flag (suc k) badop b env h = gave h

    init_flag :
        (k : ℕ) (n : Node F) (b : Bool) (env : Env F)
        → env.lval ≡ b
        → HasFlag b (eval_init m k n env)
    init_flag zero n b env h = timeout
    init_flag (suc k) n b env h = if_Gives _ (dispatch_flag k n b env h) (gave h)

    list_flag :
        (k : ℕ) (ns : Nodes F) (b : Bool) (env : Env F)
        → env.lval ≡ b
        → HasFlag b (eval_list m k ns env)
    list_flag zero ns b env h = timeout
    list_flag (suc k) (last n) b env h = dispatch_flag k n b env h
    list_flag (suc k) (item n ns) b env h =
        bind-Gives _ (dispatch_flag k n b env h)
          λ v env1 h1. if_Gives _ (gave h1) (list_flag k ns b env1 h1)

    while_flag :
        (k : ℕ) (cond stmt : Node F) (b : Bool) (env : Env F)
        → env.lval ≡ b
        → HasFlag b (while_loop m k cond stmt env)
    while_flag zero cond stmt b env h = timeout
    while_flag (suc k) cond stmt b env h = bind-Gives _ (dispatch_flag k cond b env h) λ c env1 h1.
        if_Gives _ (gave h1) (
          bind-Gives _ (dispatch_flag k stmt b env1 h1) λ v env2 h2.
            leaves-Gives (leaves v) (while_flag k cond stmt b env2 h2) (gave h2) (gave h2))

    do_flag :
        (k : ℕ) (cond stmt : Node F) (b : Bool) (env : Env F)
        → env.lval ≡ b
        → HasFlag b (do_loop m k cond stmt env)
    do_flag zero cond stmt b env h = timeout
    do_flag (suc k) cond stmt b env h = bind-Gives _ (dispatch_flag k stmt b env h) λ v env1 h1.
        leaves-Gives (leaves v)
          (if_Gives _ (gave h1) (
            bind-Gives _ (dispatch_flag k cond b env1 h1)
              λ c env2 h2. if_Gives _ (do_flag k cond stmt b env2 h2) (gave h2)))
          (gave h1) (gave h1)

    for_loop_flag :
        (k : ℕ) (cond step stmt : Node F) (val : Value F) (b : Bool) (env : Env F)
        → env.lval ≡ b
        → HasFlag b (for_loop m k cond step stmt val env)
    for_loop_flag zero cond step stmt val b env h = timeout
    for_loop_flag (suc k) cond step stmt val b env h =
        bind-Gives _ (for_cond_flag k cond b env h) (elim [
          | bool false ↦ λ env1 h1. gave h1
          | _ ↦ λ env1 h1. bind-Gives _ (dispatch_flag k stmt b env1 h1) λ v env2 h2.
              leaves-Gives (leaves v) (for_step_flag k cond step stmt v b env2 h2) (gave h2)
                (gave h2)
        ])

    for_cond_flag :
        (k : ℕ) (cond : Node F) (b : Bool) (env : Env F)
        → env.lval ≡ b
        → HasFlag b (for_cond m k cond env)
    for_cond_flag zero cond b env h = timeout
    for_cond_flag (suc k) cond b env h =
        if_Gives _ (bind-Gives _ (dispatch_flag k cond b env h) λ c env1 h1. gave h1) (gave h)

    for_step_flag :
        (k : ℕ) (cond step stmt : Node F) (val : Value F) (b : Bool) (env : Env F)
        → env.lval ≡ b
        → HasFlag b (for_step m k cond step stmt val env)
    for_step_flag zero cond step stmt val b env h = timeout
    for_step_flag (suc k) cond step stmt val b env h =
        if_Gives _ (for_loop_flag k cond step stmt val b env h) (
          bind-Gives _ (dispatch_flag k step b env h)
            λ v env1 h1. if_Gives _ (gave h1) (for_loop_flag k cond step stmt v b env1 h1))

  -- An evaluation that gives a value leaves the flag lval of the environment as it was.
  pub dispatch-flag :
      (k : ℕ) (n : Node F) (env env' : Env F) (v : Value F)
      → dispatch m k n env ≡ gives v env'
      → env'.lval ≡ env.lval
  dispatch-flag k n env env' v p = gives_holds (dispatch_flag k n env.lval env refl) p
