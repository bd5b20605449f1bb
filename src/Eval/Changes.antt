-- ===== src/Eval/Changes.antt =====
-- What `op_store` and `incr_store` give: the environment as it is, or with the slot written.
use javascript_database.Common.{Option, none, some, ◌&&◌, ◌||◌, ltb, ◌++◌}
use javascript_database.Math.Values.{Value, nan, int, dbl, string, vt_number, type_of, Slot}
use javascript_database.Math.Dispatch.{Machine, is_string, string_of}
use javascript_database.Eval.Nodes.{PlusMinus, IncrDecr}
use javascript_database.Eval.Env.{Env, write_slot, read_slot}
use javascript_database.Eval.Store.{
  is_pm_assign, is_pm_add, store, op_store, step_value, incr_store,
}
use javascript_database.Eval.Outcomes.{
  Gives, gave, got_stuck, if_Gives, IsDone, gives_value, is_undefined, if_IsDone,
}

module _ {F : Type 0} (m : Machine F) where
  module _ {P : Env F → Type 0} (slot : Slot) (env : Env F) (stays : P env)
      (written : (v : Value F) → P (write_slot slot v env)) where
    store-Gives : (v : Option (Value F)) → Gives (λ _. P) (store m slot env v)
    store-Gives none = got_stuck
    store-Gives (some v) = gave (written v)

    pub op_store-Gives :
        (op : PlusMinus) (val right : Value F) → Gives (λ _. P) (op_store m op slot val right env)
    unfolding op_store
    op_store-Gives op val right = if_Gives (is_pm_assign m op) (store-Gives (some right)) (
        if_Gives (is_pm_add m op && (is_string val || is_string right))
          (store-Gives (some (string (string_of m val ++ string_of m right))))
          (if_Gives (ltb vt_number (type_of val) || ltb vt_number (type_of right))
            (gave {v = nan} stays) (store-Gives _)))

    step_value-Gives : (op : IncrDecr) (v : Value F) → Gives (λ _. P) (step_value m op slot env v)
    step_value-Gives op (int n) = gave (written _)
    step_value-Gives op (dbl f) = gave (written _)
    step_value-Gives op _ = gave stays

    pub incr_store-Gives : (op : IncrDecr) → Gives (λ _. P) (incr_store m op slot env)
    unfolding incr_store
    incr_store-Gives op = step_value-Gives op (read_slot env slot)

  store-IsDone : (slot : Slot) (env : Env F) (v : Option (Value F)) → IsDone (store m slot env v)
  store-IsDone slot env none = is_undefined
  store-IsDone slot env (some v) = gives_value

  pub op_store-IsDone :
      (slot : Slot) (env : Env F) (op : PlusMinus) (val right : Value F)
      → IsDone (op_store m op slot val right env)
  unfolding op_store
  op_store-IsDone slot env op val right =
      if_IsDone (is_pm_assign m op) (store-IsDone slot env (some right)) (
        if_IsDone (is_pm_add m op && (is_string val || is_string right))
          (store-IsDone slot env (some (string (string_of m val ++ string_of m right))))
          (if_IsDone (ltb vt_number (type_of val) || ltb vt_number (type_of right))
            (gives_value {v = nan} {env = env}) (store-IsDone slot env _)))

  step_value-IsDone :
      (op : IncrDecr) (slot : Slot) (env : Env F) (v : Value F)
      → IsDone (step_value m op slot env v)
  step_value-IsDone op slot env (int n) = gives_value
  step_value-IsDone op slot env (dbl f) = gives_value
  step_value-IsDone op slot env _ = gives_value

  pub incr_store-IsDone :
      (slot : Slot) (env : Env F) (op : IncrDecr) → IsDone (incr_store m op slot env)
  unfolding incr_store
  incr_store-IsDone slot env op = step_value-IsDone op slot env (read_slot env slot)
