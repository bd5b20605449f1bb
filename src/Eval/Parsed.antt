-- ===== src/Eval/Parsed.antt =====
-- The nodes that the parser makes. js.y sets the field flag of the nodes of `return`, `break` and
-- `continue`, where `eval_return` reads the field aux.
use javascript_database.Common.{ℕ, Bool, ◌&&◌, ◌||◌, ltb, ◌==◌, ◌++◌, Option, none, some, ◌≡◌, refl}
use javascript_database.Math.Values.{
  Value, undef, nan, int, dbl, string, vt_number, type_of, ctl_none, Slot, frame, scope,
}
use javascript_database.Math.Dispatch.{Machine, is_string, string_of}
use javascript_database.Eval.Nodes.{
  Node, Nodes, num, assign, op_assign, incr, math, neg, lor, land, ternary, list, ifthen, while,
  dowhile, for, block, return, last, item, PlusMinus, IncrDecr,
}
use javascript_database.Eval.Env.{Env, Outcome, put, read_slot, write_slot, reset_scope}
use javascript_database.Eval.Store.{
  is_pm_assign, is_pm_add, store, op_store, step_value, incr_store,
}
use javascript_database.Eval.Dispatch.{with_lval}
use javascript_database.Eval.Outcomes.{Gives, gave, got_stuck, if_Gives, case-Gives}
use javascript_database.Eval.Results.{IsPlain, choice_plain, YieldsPlain, plain, op_switch_plain}

module _ {F : Type 0} where
  unfoldable mutual
    -- No node has the control `break` or `return` in its field aux, and no literal is one.
    pub IsParsed : Node F → Type 0
    IsParsed (num v) = IsPlain v
    IsParsed (assign left right) = IsParsed left × IsParsed right
    IsParsed (op_assign op left right) = IsParsed left × IsParsed right
    IsParsed (incr op expr) = IsParsed expr
    IsParsed (math op left right) = IsParsed left × IsParsed right
    IsParsed (neg op expr) = IsParsed expr
    IsParsed (lor left right) = IsParsed left × IsParsed right
    IsParsed (land left right) = IsParsed left × IsParsed right
    IsParsed (ternary cond on_true on_false) = IsParsed cond × IsParsed on_true × IsParsed on_false
    IsParsed (list ns) = AreParsed ns
    IsParsed (ifthen cond then_stmt else_stmt) =
        IsParsed cond × IsParsed then_stmt × IsParsed else_stmt
    IsParsed (while cond stmt) = IsParsed cond × IsParsed stmt
    IsParsed (dowhile cond stmt) = IsParsed cond × IsParsed stmt
    IsParsed (for cnt init cond step stmt) =
        IsParsed init × IsParsed cond × IsParsed step × IsParsed stmt
    IsParsed (block cnt body) = IsParsed body
    IsParsed (return ctl expr) = (ctl ≡ ctl_none) × IsParsed expr
    IsParsed _ = Unit

    pub AreParsed : Nodes F → Type 0
    AreParsed (last n) = IsParsed n
    AreParsed (item n ns) = IsParsed n × AreParsed ns

  -- No variable holds the control `break` or `return`.
  pub record IsClean (env : Env F) : Type 0 where
    frames : (i : ℕ) → IsPlain (env.frame_values i)
    scopes : (i : ℕ) → IsPlain (env.scope_values i)

  pub clean :
      {env : Env F}
      → ((i : ℕ) → IsPlain (env.frame_values i))
      → ((i : ℕ) → IsPlain (env.scope_values i))
      → IsClean env
  clean h k = record { frames = h; scopes = k }

  put_plain :
      (values : ℕ → Value F) (idx : ℕ) (v : Value F)
      → ((i : ℕ) → IsPlain (values i))
      → IsPlain v
      → (i : ℕ) → IsPlain (put values idx v i)
  put_plain values idx v h p i = choice_plain (i == idx) v (values i) p (h i)

  pub read_slot-IsClean : (env : Env F) (slot : Slot) → IsClean env → IsPlain (read_slot env slot)
  read_slot-IsClean env (frame i) h = h.frames i
  read_slot-IsClean env (scope i) h = h.scopes i

  pub write_slot-IsClean :
      (slot : Slot) (v : Value F) (env : Env F)
      → IsClean env
      → IsPlain v
      → IsClean (write_slot slot v env)
  write_slot-IsClean (frame i) v env h p = record {
    frames = put_plain env.frame_values i v h.frames p;
    scopes = h.scopes;
  }
  write_slot-IsClean (scope i) v env h p = record {
    frames = h.frames;
    scopes = put_plain env.scope_values i v h.scopes p;
  }

  pub with_lval-IsClean : (b : Bool) (env : Env F) → IsClean env → IsClean (with_lval b env)
  with_lval-IsClean b env h = record { frames = h.frames; scopes = h.scopes }

  pub reset_scope-IsClean : (cnt : ℕ) (env : Env F) → IsClean env → IsClean (reset_scope cnt env)
  reset_scope-IsClean cnt env h = record {
    frames = h.frames;
    scopes = λ i. choice_plain (ltb i cnt) undef (env.scope_values i) refl (h.scopes i);
  }

  -- Neither the value nor the variables are the control `break` or `return`.
  abbrev pub Stays : Outcome F → Type 0
  Stays = Gives (λ v env. IsPlain v × IsClean env)

module _ {F : Type 0} (m : Machine F) where
  store-Stays :
      (slot : Slot) (env : Env F) (v : Option (Value F))
      → IsClean env
      → YieldsPlain v
      → Stays (store m slot env v)
  store-Stays slot env none h p = got_stuck
  store-Stays slot env (some v) h (plain p) = gave (p, write_slot-IsClean slot v env h p)

  pub op_store-Stays :
      (op : PlusMinus) (slot : Slot) (val right : Value F) (env : Env F)
      → IsClean env
      → IsPlain right
      → Stays (op_store m op slot val right env)
  unfolding op_store
  op_store-Stays op slot val right env h p =
      case-Gives (is_pm_assign m op) (λ q. store-Stays slot env (some right) h (plain p))
        λ q.
          if_Gives (is_pm_add m op && (is_string val || is_string right))
            (store-Stays slot env (some (string (string_of m val ++ string_of m right))) h
              (plain refl))
            (if_Gives (ltb vt_number (type_of val) || ltb vt_number (type_of right))
              (gave {v = nan} (refl, h)) (store-Stays slot env _ h (op_switch_plain m op _ _ q)))

  step_value-Stays :
      (op : IncrDecr) (slot : Slot) (env : Env F) (v : Value F)
      → IsClean env
      → Stays (step_value m op slot env v)
  step_value-Stays op slot env (int n) h = gave (refl, write_slot-IsClean slot _ env h refl)
  step_value-Stays op slot env (dbl f) h = gave (refl, write_slot-IsClean slot _ env h refl)
  step_value-Stays op slot env _ h = gave (refl, h)

  pub incr_store-Stays :
      (op : IncrDecr) (slot : Slot) (env : Env F) → IsClean env → Stays (incr_store m op slot env)
  unfolding incr_store
  incr_store-Stays op slot env h = step_value-Stays op slot env (read_slot env slot) h
