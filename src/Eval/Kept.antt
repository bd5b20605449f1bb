-- ===== src/Eval/Kept.antt =====
-- Evaluating what the parser has made leaves no control `break` or `return` behind.
use javascript_database.Common.{
  ℕ, zero, suc, Bool, true, false, Option, none, some, ap, refl, if◌then◌else◌,
}
use javascript_database.Math.Values.{Value, bool, control, lval, frame}
use javascript_database.Math.Dispatch.{Machine}
use javascript_database.Eval.Nodes.{
  Node, Nodes, first, num, str, var, assign, op_assign, incr, math, neg, lor, land, ternary, list,
  ifthen, while, dowhile, for, block, return, fcndef, badop, last, item,
}
use javascript_database.Eval.Env.{Env, gives, or_stuck, reset_scope}
use javascript_database.Eval.Dispatch.{
  leaves, is_control, eval_var, dispatch, eval_init, eval_list, while_loop, do_loop, for_loop,
  for_cond, for_step, is_true,
}
use javascript_database.Eval.Outcomes.{
  gave, exited, got_stuck, timeout, bind-Gives, if_Gives, leaves-Gives,
}
use javascript_database.Eval.Results.{
  IsPlain, YieldsPlain, plain, math_values_plain, neg_value_plain,
}
use javascript_database.Eval.Parsed.{
  IsParsed, AreParsed, IsClean, Stays, with_lval-IsClean, read_slot-IsClean, write_slot-IsClean,
  reset_scope-IsClean, op_store-Stays, incr_store-Stays,
}

module _ {F : Type 0} (m : Machine F) (stray_plain : IsPlain {F = F} (control m.stray)) where
  eval_var-Stays :
      (i : ℕ) (scoped flag : Bool) (env : Env F) → IsClean env → Stays (eval_var i scoped flag env)
  unfolding eval_var
  eval_var-Stays i scoped flag env h =
      if_Gives _ exited (if_Gives _ (gave (refl, h)) (gave (read_slot-IsClean env _ h, h)))

  or_stuck-Stays :
      (env : Env F) (v : Option (Value F)) → YieldsPlain v → IsClean env → Stays (or_stuck env v)
  or_stuck-Stays env none p h = got_stuck
  or_stuck-Stays env (some v) (plain p) h = gave (p, h)

  IsParsed-choice :
      (b : Bool) (n n' : Node F) → IsParsed n → IsParsed n' → IsParsed (if b then n else n')
  IsParsed-choice true n n' h h' = h
  IsParsed-choice false n n' h h' = h'

  mutual
    unfolding dispatch IsParsed

    pub dispatch-Stays :
        (k : ℕ) (n : Node F) (env : Env F) → IsParsed n → IsClean env → Stays (dispatch m k n env)
    dispatch-Stays zero n env s h = timeout
    dispatch-Stays (suc k) (assign left right) env s h =
        bind-Gives _ (dispatch-Stays k left _ s.0 (with_lval-IsClean true env h)) (elim [
          | lval slot ↦ λ env1 h1.
              bind-Gives _ (dispatch-Stays k right _ s.1 (with_lval-IsClean env.lval env1 h1.1))
                λ v env3 h3. gave (h3.0, write_slot-IsClean slot v env3 h3.1 h3.0)
          | _ ↦ λ env1 h1. gave (stray_plain, with_lval-IsClean env.lval env1 h1.1)
        ])
    dispatch-Stays (suc k) (op_assign op left right) env s h =
        bind-Gives _ (dispatch-Stays k left _ s.0 (with_lval-IsClean true env h)) (elim [
          | lval slot ↦ λ env1 h1.
              bind-Gives _ (dispatch-Stays k right _ s.1 (with_lval-IsClean env.lval env1 h1.1))
                λ v env3 h3. op_store-Stays m op slot _ v env3 h3.1 h3.0
          | _ ↦ λ env1 h1. gave (stray_plain, with_lval-IsClean env.lval env1 h1.1)
        ])
    dispatch-Stays (suc k) (incr op expr) env s h =
        bind-Gives _ (dispatch-Stays k expr env s h) (elim [
          | lval slot ↦ λ env1 h1. incr_store-Stays m op slot env1 h1.1
          | _ ↦ λ env1 h1. gave (stray_plain, h1.1)
        ])
    dispatch-Stays (suc k) (math op left right) env s h =
        bind-Gives _ (dispatch-Stays k left env s.0 h) λ l env1 h1.
          bind-Gives _ (dispatch-Stays k right env1 s.1 h1.1)
            λ r env2 h2. or_stuck-Stays env2 _ (math_values_plain m op l r) h2.1
    dispatch-Stays (suc k) (neg op expr) env s h =
        bind-Gives _ (dispatch-Stays k expr env s h)
          λ v env1 h1. or_stuck-Stays env1 _ (neg_value_plain m op v stray_plain) h1.1
    dispatch-Stays (suc k) (lor left right) env s h =
        bind-Gives _ (dispatch-Stays k left env s.0 h) λ l env1 h1.
          if_Gives _ (gave (refl, h1.1))
            (bind-Gives _ (dispatch-Stays k right env1 s.1 h1.1) λ r env2 h2. gave (refl, h2.1))
    dispatch-Stays (suc k) (land left right) env s h =
        bind-Gives _ (dispatch-Stays k left env s.0 h) λ l env1 h1.
          if_Gives _
            (bind-Gives _ (dispatch-Stays k right env1 s.1 h1.1) λ r env2 h2. gave (refl, h2.1))
            (gave (refl, h1.1))
    dispatch-Stays (suc k) (ternary cond on_true on_false) env s h =
        bind-Gives _ (dispatch-Stays k cond env s.0 h)
          λ c env1 h1. dispatch-Stays k _ env1 (IsParsed-choice (is_true m c) _ _ s.1 s.2) h1.1
    dispatch-Stays (suc k) (list ns) env s h = list-Stays k ns env s h
    dispatch-Stays (suc k) (ifthen cond then_stmt else_stmt) env s h =
        bind-Gives _ (dispatch-Stays k cond env s.0 h) λ c env1 h1.
          if_Gives _ (dispatch-Stays k _ env1 (IsParsed-choice (is_true m c) _ _ s.1 s.2) h1.1)
            (gave (refl, h1.1))
    dispatch-Stays (suc k) (while cond stmt) env s h =
        if_Gives _ (while-Stays k cond stmt env s.0 s.1 h) (gave (refl, h))
    dispatch-Stays (suc k) (dowhile cond stmt) env s h = do-Stays k cond stmt env s.0 s.1 h
    dispatch-Stays (suc k) (for cnt init cond step stmt) env s h =
        bind-Gives _ (init-Stays k init env s.0 h) λ v env1 h1.
          bind-Gives (λ (val, env2). gives val (reset_scope cnt env2))
            (if_Gives (is_control v) (gave {v = v} {env = env1} h1)
              (for_loop-Stays k cond step stmt v env1 s.1 s.2 s.3 h1.0 h1.1))
            λ val env2 h2. gave (h2.0, reset_scope-IsClean cnt env2 h2.1)
    dispatch-Stays (suc k) (block cnt body) env s h =
        bind-Gives _ (dispatch-Stays k body env s h)
          λ v env1 h1. gave (h1.0, reset_scope-IsClean cnt env1 h1.1)
    dispatch-Stays (suc k) (return ctl expr) env s h =
        bind-Gives _ (init-Stays k expr env s.1 h) λ v env1 h1.
          gave (
            ap (λ c. leaves {F = F} (control c)) s.0,
            write_slot-IsClean (frame 0) v env1 h1.1 h1.0,
          )
    dispatch-Stays (suc k) (num v) env s h = gave (s, h)
    dispatch-Stays (suc k) (var i scoped flag) env s h = eval_var-Stays i scoped flag env h
    dispatch-Stays (suc k) first env s h = gave (refl, h)
    dispatch-Stays (suc k) (str x) env s h = gave (refl, h)
    dispatch-Stays (suc k) fcndef env s h = gave (refl, h)
    dispatch-Stays (suc k) badop env s h = gave (stray_plain, h)

    init-Stays :
        (k : ℕ) (n : Node F) (env : Env F) → IsParsed n → IsClean env → Stays (eval_init m k n env)
    init-Stays zero n env s h = timeout
    init-Stays (suc k) n env s h = if_Gives _ (dispatch-Stays k n env s h) (gave (refl, h))

    list-Stays :
        (k : ℕ) (ns : Nodes F) (env : Env F)
        → AreParsed ns
        → IsClean env
        → Stays (eval_list m k ns env)
    list-Stays zero ns env s h = timeout
    list-Stays (suc k) (last n) env s h = dispatch-Stays k n env s h
    list-Stays (suc k) (item n ns) env s h =
        bind-Gives _ (dispatch-Stays k n env s.0 h)
          λ v env1 h1. if_Gives _ (gave h1) (list-Stays k ns env1 s.1 h1.1)

    while-Stays :
        (k : ℕ) (cond stmt : Node F) (env : Env F)
        → IsParsed cond
        → IsParsed stmt
        → IsClean env
        → Stays (while_loop m k cond stmt env)
    while-Stays zero cond stmt env s t h = timeout
    while-Stays (suc k) cond stmt env s t h =
        bind-Gives _ (dispatch-Stays k cond env s h) λ c env1 h1. if_Gives _ (gave (refl, h1.1)) (
          bind-Gives _ (dispatch-Stays k stmt env1 t h1.1) λ v env2 h2.
            leaves-Gives (leaves v) (while-Stays k cond stmt env2 s t h2.1) (gave (refl, h2.1))
              (gave h2))

    do-Stays :
        (k : ℕ) (cond stmt : Node F) (env : Env F)
        → IsParsed cond
        → IsParsed stmt
        → IsClean env
        → Stays (do_loop m k cond stmt env)
    do-Stays zero cond stmt env s t h = timeout
    do-Stays (suc k) cond stmt env s t h = bind-Gives _ (dispatch-Stays k stmt env t h) λ v env1 h1.
        leaves-Gives (leaves v)
          (if_Gives _ (gave (refl, h1.1)) (
            bind-Gives _ (dispatch-Stays k cond env1 s h1.1)
              λ c env2 h2. if_Gives _ (do-Stays k cond stmt env2 s t h2.1) (gave (refl, h2.1))))
          (gave (refl, h1.1)) (gave h1)

    for_loop-Stays :
        (k : ℕ) (cond step stmt : Node F) (val : Value F) (env : Env F)
        → IsParsed cond
        → IsParsed step
        → IsParsed stmt
        → IsPlain val
        → IsClean env
        → Stays (for_loop m k cond step stmt val env)
    for_loop-Stays zero cond step stmt val env s t r p h = timeout
    for_loop-Stays (suc k) cond step stmt val env s t r p h =
        bind-Gives _ (for_cond-Stays k cond env s h) (elim [
          | bool false ↦ λ env1 h1. gave (p, h1.1)
          | _ ↦ λ env1 h1. bind-Gives _ (dispatch-Stays k stmt env1 r h1.1) λ v env2 h2.
              leaves-Gives (leaves v) (for_step-Stays k cond step stmt v env2 s t r h2.0 h2.1)
                (gave h2) (gave h2)
        ])

    for_cond-Stays :
        (k : ℕ) (cond : Node F) (env : Env F)
        → IsParsed cond
        → IsClean env
        → Stays (for_cond m k cond env)
    for_cond-Stays zero cond env s h = timeout
    for_cond-Stays (suc k) cond env s h =
        if_Gives _ (bind-Gives _ (dispatch-Stays k cond env s h) λ c env1 h1. gave (refl, h1.1))
          (gave (refl, h))

    for_step-Stays :
        (k : ℕ) (cond step stmt : Node F) (val : Value F) (env : Env F)
        → IsParsed cond
        → IsParsed step
        → IsParsed stmt
        → IsPlain val
        → IsClean env
        → Stays (for_step m k cond step stmt val env)
    for_step-Stays zero cond step stmt val env s t r p h = timeout
    for_step-Stays (suc k) cond step stmt val env s t r p h =
        if_Gives _ (for_loop-Stays k cond step stmt val env s t r p h) (
          bind-Gives _ (dispatch-Stays k step env t h) λ v env1 h1.
            if_Gives _ (gave h1) (for_loop-Stays k cond step stmt v env1 s t r h1.0 h1.1))
