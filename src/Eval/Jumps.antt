-- ===== src/Eval/Jumps.antt =====
-- The loops of a program that the parser has made.
use javascript_database.Common.{true, false, ◌≡◌, refl}
use javascript_database.Math.Values.{Value, undef, control}
use javascript_database.Math.Dispatch.{Machine}
use javascript_database.Eval.Nodes.{Node, while, present}
use javascript_database.Eval.Env.{Env}
use javascript_database.Eval.Dispatch.{is_true}
use javascript_database.Eval.Outcomes.{gives_holds}
use javascript_database.Eval.Results.{IsPlain}
use javascript_database.Eval.Parsed.{IsParsed, IsClean}
use javascript_database.Eval.Loops.{
  Rounds, Evaluates, ends, broken, returned, again, by_fuel, eval_while-Rounds,
}
use javascript_database.Eval.Kept.{dispatch-Stays}

module _ {F : Type 0} (m : Machine F) (stray_plain : IsPlain {F = F} (control m.stray)) where
  -- The condition is false where the loop ends.
  pub data CondFails (cond : Node F) (env' : Env F) : Type 0 where
    cond_fails :
        {env : Env F} {c : Value F}
        → Evaluates m cond env c env'
        → is_true m c ≡ false
        → CondFails cond env'

  Evaluates-Stays :
      {n : Node F} {env env' : Env F} {v : Value F}
      → IsParsed n
      → IsClean env
      → Evaluates m n env v env'
      → IsPlain v × IsClean env'
  Evaluates-Stays s h (by_fuel k p) = gives_holds (dispatch-Stays m stray_plain k _ _ s h) p

  Rounds-CondFails :
      {cond stmt : Node F} {env env' : Env F} {v : Value F}
      → IsParsed cond
      → IsParsed stmt
      → IsClean env
      → Rounds m cond stmt env v env'
      → (v ≡ undef) × CondFails cond env'
  Rounds-CondFails s t h (ends e q) = (refl, cond_fails e q)
  Rounds-CondFails s t h (broken e q d l) =
      let h1 = Evaluates-Stays s h e in let h2 = Evaluates-Stays t h1.1 d in cc
  Rounds-CondFails s t h (returned e q d l) =
      let h1 = Evaluates-Stays s h e in let h2 = Evaluates-Stays t h1.1 d in cc
  Rounds-CondFails s t h (again e q d l r) =
      let h1 = Evaluates-Stays s h e in
      let h2 = Evaluates-Stays t h1.1 d in Rounds-CondFails s t h2.1 r

  -- In nodes as the parser makes them, whose field aux is never `break` or `return`, a `while`
  -- statement that ends gives undefined, and ends where its condition has been evaluated and is
  -- false, whatever `break`, `continue` and `return` stand in it. No variable holds such a
  -- control before, and an error does not leave one in its field ctl.
  pub eval_while-IsParsed :
      (cond stmt : Node F) (env env' : Env F) (v : Value F)
      → IsParsed cond
      → IsParsed stmt
      → present cond ≡ true
      → IsClean env
      → Evaluates m (while cond stmt) env v env'
      → (v ≡ undef) × CondFails cond env'
  eval_while-IsParsed cond stmt env env' v s t p h e =
      Rounds-CondFails s t h ((eval_while-Rounds m cond stmt env env' v p).0 e)
