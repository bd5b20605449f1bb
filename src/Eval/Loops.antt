-- ===== src/Eval/Loops.antt =====
-- `eval_while`: the rounds of a loop as a relation, which does not speak of fuel.
use javascript_database.Common.{
  ℕ, zero, suc, ◌+◌, ◌≤◌, true, false, ◌≡◌, refl, ◌∙◌, sym, arith, ◌↔◌,
}
use javascript_database.Math.Values.{Value, undef}
use javascript_database.Math.Dispatch.{Machine}
use javascript_database.Eval.Nodes.{Node, while, present}
use javascript_database.Eval.Env.{Env, Outcome, gives, exits, stuck, running, ◌>>=◌}
use javascript_database.Eval.Dispatch.{
  goes_on, breaks, returns, leaves, dispatch, while_loop, is_true,
}
use javascript_database.Eval.Outcomes.{
  Gives, gave, exited, got_stuck, timeout, bind-Gives, test-Gives, round-Gives, map-Gives,
  gives_holds, more_fuel_gives,
}
use javascript_database.Eval.Fuel.{dispatch_step, while_step}

module _ {F : Type 0} (m : Machine F) where
  -- The node gives the value with enough fuel.
  pub data Evaluates (n : Node F) (env : Env F) (v : Value F) (env' : Env F) : Type 0 where
    by_fuel : (k : ℕ) → dispatch m k n env ≡ gives v env' → Evaluates n env v env'

  -- The rounds of a loop from `env` to its end.
  pub data Rounds (cond stmt : Node F) : Env F → Value F → Env F → Type 0 where
    ends :
        {env env1 : Env F} {c : Value F}
        → Evaluates cond env c env1
        → is_true m c ≡ false
        → Rounds cond stmt env undef env1
    broken :
        {env env1 env2 : Env F} {c v : Value F}
        → Evaluates cond env c env1
        → is_true m c ≡ true
        → Evaluates stmt env1 v env2
        → leaves v ≡ breaks
        → Rounds cond stmt env undef env2
    returned :
        {env env1 env2 : Env F} {c v : Value F}
        → Evaluates cond env c env1
        → is_true m c ≡ true
        → Evaluates stmt env1 v env2
        → leaves v ≡ returns
        → Rounds cond stmt env v env2
    again :
        {env env1 env2 env3 : Env F} {c v w : Value F}
        → Evaluates cond env c env1
        → is_true m c ≡ true
        → Evaluates stmt env1 v env2
        → leaves v ≡ goes_on
        → Rounds cond stmt env2 w env3
        → Rounds cond stmt env w env3

  data Loops (cond stmt : Node F) (env : Env F) (v : Value F) (env' : Env F) : Type 0 where
    loops : (k : ℕ) → while_loop m k cond stmt env ≡ gives v env' → Loops cond stmt env v env'

  more_dispatch :
      (n : Node F) (env : Env F) (k k' : ℕ) {env' : Env F} {v : Value F}
      → k ≤ k'
      → dispatch m k n env ≡ gives v env'
      → dispatch m k' n env ≡ gives v env'
  more_dispatch n env k k' h p =
      more_fuel_gives (λ i. dispatch m i n env) (λ i. dispatch_step m i n env) k k' h p

  more_while :
      (cond stmt : Node F) (env : Env F) (k k' : ℕ) {env' : Env F} {v : Value F}
      → k ≤ k'
      → while_loop m k cond stmt env ≡ gives v env'
      → while_loop m k' cond stmt env ≡ gives v env'
  more_while cond stmt env k k' h p =
      more_fuel_gives (λ i. while_loop m i cond stmt env) (λ i. while_step m i cond stmt env) k k' h
        p

  Rounds-Loops :
      {cond stmt : Node F} {env env' : Env F} {v : Value F}
      → Rounds cond stmt env v env'
      → Loops cond stmt env v env'
  unfolding dispatch
  Rounds-Loops (ends (by_fuel k p) h) = loops (suc k) (rw (p, h) refl)
  Rounds-Loops (broken (by_fuel k p) h (by_fuel i q) l) =
      let p' = more_dispatch _ _ k (k + i) (omega arith) p in
      let q' = more_dispatch _ _ i (k + i) (omega arith) q in
      loops (suc (k + i)) (rw (p', h, q', ◌>>=◌, l) refl)
  Rounds-Loops (returned (by_fuel k p) h (by_fuel i q) l) =
      let p' = more_dispatch _ _ k (k + i) (omega arith) p in
      let q' = more_dispatch _ _ i (k + i) (omega arith) q in
      loops (suc (k + i)) (rw (p', h, q', ◌>>=◌, l) refl)
  Rounds-Loops (again (by_fuel k p) h (by_fuel i q) l r) = elim (Rounds-Loops r) [
    | loops j t ↦
        let p' = more_dispatch _ _ k (k + i + j) (omega arith) p in
        let q' = more_dispatch _ _ i (k + i + j) (omega arith) q in
        let t' = more_while _ _ _ j (k + i + j) (omega arith) t in
        loops (suc (k + i + j)) (rw (p', h, q', ◌>>=◌, l, t') refl)
  ]

  evaluated : (k : ℕ) (n : Node F) (env : Env F) → Gives (Evaluates n env) (dispatch m k n env)
  evaluated k n env = by_outcome (dispatch m k n env) refl
    where
      by_outcome : (o : Outcome F) → dispatch m k n env ≡ o → Gives (Evaluates n env) o
      by_outcome (gives v env1) p = gave (by_fuel k p)
      by_outcome exits p = exited
      by_outcome stuck p = got_stuck
      by_outcome running p = timeout

  loop-Rounds :
      (k : ℕ) (cond stmt : Node F) (env : Env F)
      → Gives (Rounds cond stmt env) (while_loop m k cond stmt env)
  unfolding dispatch
  loop-Rounds zero cond stmt env = timeout
  loop-Rounds (suc k) cond stmt env = bind-Gives _ (evaluated k cond env) λ c env1 e.
      test-Gives (is_true m c) (λ h. gave (ends e h))
        λ h. bind-Gives _ (evaluated k stmt env1) λ v env2 d.
          round-Gives (leaves v)
            (λ l. map-Gives (loop-Rounds k cond stmt env2) λ w env3. again e h d l)
            (λ l. gave (broken e h d l)) (λ l. gave (returned e h d l))

  -- A `while` statement with a condition ends with a value and an environment, on enough fuel,
  -- exactly where its rounds lead there: the condition is evaluated, then the statement, until
  -- the condition is false or the statement gives the control `break` or `return`.
  pub eval_while-Rounds :
      (cond stmt : Node F) (env env' : Env F) (v : Value F)
      → present cond ≡ true
      → Evaluates (while cond stmt) env v env' ↔ Rounds cond stmt env v env'
  unfolding dispatch
  eval_while-Rounds cond stmt env env' v h = (to, from)
    where
      to : Evaluates (while cond stmt) env v env' → Rounds cond stmt env v env'
      to (by_fuel zero p) = cc
      to (by_fuel (suc k) p) = gives_holds (loop-Rounds k cond stmt env) (sym (rw h refl) ∙ p)

      from : Rounds cond stmt env v env' → Evaluates (while cond stmt) env v env'
      from r = elim (Rounds-Loops r) [ loops k p ↦ by_fuel (suc k) (rw h p) ]
