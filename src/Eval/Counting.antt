-- ===== src/Eval/Counting.antt =====
-- A loop that counts: while (x < n) x += 1, where x is variable 1 of the frame.
use javascript_database.Common.{
  ℕ, zero, suc, ◌+◌, ◌-◌, ◌≤◌, ◌<◌, ◌%◌, ◌≡◌, refl, ap, ◌∙◌, true, false, ltb, arith,
}
use javascript_database.Math.Values.{long_min, long_mod, biased, undef, bool, int, frame}
use javascript_database.Math.Arith.{op_add}
use javascript_database.Math.Compare.{math_lt, op_lt}
use javascript_database.Math.Dispatch.{
  Machine, compare_op, math_values, compare_values, compare_numbers,
}
use javascript_database.Math.Convert.{conv2_bool}
use javascript_database.Eval.Nodes.{Node, num, var, op_assign, math, while, pm_add}
use javascript_database.Eval.Env.{Env, gives, ◌>>=◌, write_slot}
use javascript_database.Eval.Store.{op_store, op_switch}
use javascript_database.Eval.Dispatch.{with_lval, eval_var, dispatch}
use javascript_database.Eval.Loops.{Evaluates, by_fuel, Rounds, ends, again, eval_while-Rounds}

module _ {F : Type 0} (m : Machine F) (n : ℕ) (fits : n < long_min) where
  abbrev pub below : Node F
  below = math (compare_op math_lt) (var 1 false false) (num (int n))

  abbrev pub add_one : Node F
  add_one = op_assign pm_add (var 1 false true) (num (int 1))

  -- The environment after a round.
  abbrev after : ℕ → Env F → Env F
  after i env = write_slot (frame 1) (int (suc i)) (with_lval env.lval (with_lval true env))

  ltb-biased : (i : ℕ) → i ≤ n → ltb (biased i) (biased n) ≡ ltb i n
  ltb-biased i h = ground (arith, h, fits)

  below-ltb :
      (i : ℕ) (env : Env F)
      → i ≤ n
      → env.lval ≡ false
      → env.frame_values 1 ≡ int i
      → dispatch m 2 below env ≡ gives (bool (ltb i n)) env
  unfolding dispatch eval_var math_values compare_values compare_numbers op_lt
  below-ltb i env h l x =
      rw (l, ◌>>=◌, x) (ap (λ b. gives (bool b) (with_lval false env)) (ltb-biased i h))

  word : (i : ℕ) → i < n → (i + 1) % long_mod ≡ suc i
  word i h = omega (arith, h, fits)

  add_one-suc :
      (i : ℕ) (env : Env F)
      → i < n
      → env.frame_values 1 ≡ int i
      → dispatch m 2 add_one env ≡ gives (int (suc i)) (after i env)
  unfolding dispatch eval_var op_store op_switch op_add
  add_one-suc i env h x = rw x (
      ap
        (λ j.
          gives (int j) (write_slot (frame 1) (int j) (with_lval env.lval (with_lval true env))))
        (word i h))

  ltb-n : (i : ℕ) → i ≡ n → ltb i n ≡ false
  ltb-n i h = ground (arith, h)

  ltb-less : (i : ℕ) → i < n → ltb i n ≡ true
  ltb-less i h = ground (arith, h)

  counts :
      (d i : ℕ) (env : Env F)
      → i + d ≡ n
      → env.lval ≡ false
      → env.frame_values 1 ≡ int i
      → (env' : Env F) × Rounds m below add_one env undef env' × (env'.frame_values 1 ≡ int n)
  unfolding conv2_bool
  counts zero i env p l x =
      let last = ltb-n i (omega (arith, p)) in
      (
        env,
        ends (by_fuel 2 (below-ltb i env (omega (arith, p)) l x)) last,
        x ∙ ap int (omega (arith, p)),
      )
  counts (suc d) i env p l x =
      let (env', rounds, ended) = counts d (suc i) (after i env) (omega (arith, p)) l refl in
      (
        env',
        again (by_fuel 2 (below-ltb i env (omega (arith, p)) l x)) (ltb-less i (omega (arith, p)))
            (by_fuel 2 (add_one-suc i env (omega (arith, p)) x)) refl rounds,
        ended,
      )

  -- The loop `while (x < n) x += 1`, where x is a variable of the frame that holds an integer of
  -- at most n, and n is below 2 ^ 63, ends, and x is n then.
  pub eval_while-counts :
      (i : ℕ) (env : Env F)
      → i ≤ n
      → env.lval ≡ false
      → env.frame_values 1 ≡ int i
      → (env' : Env F) × Evaluates m (while below add_one) env undef env'
        × (env'.frame_values 1 ≡ int n)
  eval_while-counts i env h l x =
      let (env', rounds, ended) = counts (n - i) i env (omega (arith, h)) l x in
      (env', (eval_while-Rounds m below add_one env env' undef refl).1 rounds, ended)
