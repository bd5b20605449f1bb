-- ===== src/Symbols/Declared.antt =====
-- `hoistSymbols` on the slots of all tables.
use javascript_database.Common.{
  ℕ, ◌+◌, ◌≤◌, ◌<◌, inl, inr, Bool, true, false, List, ◌∷◌, ◌==◌, ltb, if◌then◌else◌, arith,
  Bool-cases,
}
use javascript_database.Vector.{word_mod}
use javascript_database.Props.Hash.{Name}
use javascript_database.Symbols.Tree.{
  Node, Nodes, empty, list, elem, obj, array, call, ifthen, while, for_in, for, assign, binary,
  unary, return, ternary, var, block, fcn_def, fcn_expr, other, end, item, unnamed, named,
}
use javascript_database.Symbols.Tables.{Symtab, State, set_tab}
use javascript_database.Symbols.Slots.{IsSlotted, insert_symbol-IsSlotted}
use javascript_database.Symbols.Hoist.{
  target, declare, open_block, raise_scope, outer_of, open_fcn, count_params, declare_fcn,
  declare_own, link_fcn, hoist, hoist_list,
}

-- The number of declarations in a part of the program.
unfoldable mutual
  pub decls : Node → ℕ
  decls empty = 0
  decls (list ns) = decls_in ns
  decls (elem n) = decls n
  decls (obj n) = decls n
  decls (array n) = decls n
  decls (call name args) = decls name + decls args
  decls (ifthen cond then_stmt else_stmt) = decls cond + decls then_stmt + decls else_stmt
  decls (while cond stmt) = decls cond + decls stmt
  decls (for_in id init expr stmt) = decls init + decls expr + decls stmt
  decls (for id init cond incr stmt) = decls init + decls cond + decls incr + decls stmt
  decls (assign left right) = decls left + decls right
  decls (binary left right) = decls left + decls right
  decls (unary n) = decls n
  decls (return n) = decls n
  decls (ternary cond on_true on_false) = decls cond + decls on_true + decls on_false
  decls (var id decl scope name) = if decl then 1 else 0
  decls (block id body) = decls body
  decls (fcn_def id node name params body) = 1 + decls params + decls body
  decls (fcn_expr id unnamed params body) = decls params + decls body
  decls (fcn_expr id (named node name) params body) = 1 + decls params + decls body
  decls other = 0

  pub decls_in : Nodes → ℕ
  decls_in end = 0
  decls_in (item n ns) = decls n + decls_in ns

-- In every table the symbols have slots of their own, and no table has more than `k` slots.
pub record AreSlotted (k : ℕ) (s : State) : Type 0 where
  pub each : (id : ℕ) → IsSlotted (s.tabs id) × ((s.tabs id).frame_idx ≤ k)

set_tab-AreSlotted :
    (k id : ℕ) (t : Symtab) (s : State)
    → AreSlotted k s
    → IsSlotted t
    → t.frame_idx ≤ k
    → AreSlotted k (set_tab id t s)
set_tab-AreSlotted k id t s all ok fits = record {
  each = λ j. elim (Bool-cases (j == id)) [
    | inl here ↦ rw here (ok, fits)
    | inr there ↦ rw there (all.each j)
  ];
}

AreSlotted-le : (k l : ℕ) (s : State) → k ≤ l → AreSlotted k s → AreSlotted l s
AreSlotted-le k l s le all = record {
  each = λ id. ((all.each id).0, omega (arith, (all.each id).1));
}

declare-AreSlotted :
    (k : ℕ) (name : Name) (at : ℕ × Bool) (s : State)
    → k + 1 < word_mod
    → AreSlotted k s
    → AreSlotted (k + 1) (declare name at s)
unfolding declare
declare-AreSlotted k name (id, scoped) s room all =
    let (ok, fits) = all.each id in
    let (slotted, next) = insert_symbol-IsSlotted name scoped (s.tabs id) ok (omega arith) in
    set_tab-AreSlotted (k + 1) id _ s (AreSlotted-le k (k + 1) s (omega arith) all) slotted
      (omega arith)

open_block-AreSlotted :
    (k id symbols : ℕ) (blocks : List ℕ) (s : State)
    → AreSlotted k s
    → AreSlotted k (open_block id symbols blocks s)
unfolding open_block
open_block-AreSlotted k id symbols blocks s all =
    set_tab-AreSlotted k id _ s all (all.each id).0 (all.each id).1

raise_scope-AreSlotted :
    (k id outer : ℕ) (s : State) → AreSlotted k s → AreSlotted k (raise_scope id outer s)
unfolding raise_scope
raise_scope-AreSlotted k id outer s all =
    elim (Bool-cases (ltb (s.tabs outer).scope_cnt (s.tabs id).frame_idx)) [
      | inl more ↦
          rw more (set_tab-AreSlotted k outer _ s all (all.each outer).0 (all.each outer).1)
      | inr enough ↦ rw enough all
    ]

open_fcn-AreSlotted :
    (k id symbols : ℕ) (s : State) → AreSlotted k s → AreSlotted k (open_fcn id symbols s)
unfolding open_fcn
open_fcn-AreSlotted k id symbols s all =
    set_tab-AreSlotted k id _ s all (all.each id).0 (all.each id).1

count_params-AreSlotted : (k id : ℕ) (s : State) → AreSlotted k s → AreSlotted k (count_params id s)
unfolding count_params
count_params-AreSlotted k id s all = set_tab-AreSlotted k id _ s all (all.each id).0 (all.each id).1

link_fcn-AreSlotted :
    (k id symbols : ℕ) (s : State) → AreSlotted k s → AreSlotted k (link_fcn id symbols s)
unfolding link_fcn
link_fcn-AreSlotted k id symbols s all =
    set_tab-AreSlotted k symbols _ s all (all.each symbols).0 (all.each symbols).1

declare_fcn-AreSlotted :
    (k node : ℕ) (name : Name) (id : ℕ) (s : State)
    → k + 1 < word_mod
    → AreSlotted k s
    → AreSlotted (k + 1) (declare_fcn node name id s)
unfolding declare_fcn
declare_fcn-AreSlotted k node name id s room all = record {
  each = (declare-AreSlotted k name (id, false) s room all).each;
}

block-AreSlotted :
    (k d id symbols : ℕ) (blocks : List ℕ) (f : State → State) (s : State)
    → ((s : State) → AreSlotted k s → AreSlotted (k + d) (f s))
    → AreSlotted k s
    → AreSlotted
        (k + d)
        (raise_scope id (outer_of symbols blocks) (f (open_block id symbols blocks s)))
block-AreSlotted k d id symbols blocks f s step all =
    raise_scope-AreSlotted (k + d) id (outer_of symbols blocks) _
      (step _ (open_block-AreSlotted k id symbols blocks s all))

mutual
  unfolding hoist decls declare_own

  hoist_node-AreSlotted :
      (n : Node) (symbols : ℕ) (blocks : List ℕ) (k : ℕ) (s : State)
      → k + decls n < word_mod
      → AreSlotted k s
      → AreSlotted (k + decls n) (hoist n symbols blocks s)
  hoist_node-AreSlotted empty symbols blocks k s room all = AreSlotted-le k _ s (omega arith) all
  hoist_node-AreSlotted (list ns) symbols blocks k s room all =
      hoist_list-AreSlotted ns symbols blocks k s room all
  hoist_node-AreSlotted (elem n) symbols blocks k s room all =
      hoist_node-AreSlotted n symbols blocks k s room all
  hoist_node-AreSlotted (obj n) symbols blocks k s room all =
      hoist_node-AreSlotted n symbols blocks k s room all
  hoist_node-AreSlotted (array n) symbols blocks k s room all =
      AreSlotted-le k _ s (omega arith) all
  hoist_node-AreSlotted (call name args) symbols blocks k s room all =
      AreSlotted-le (k + decls name + decls args) _ _ (omega arith) (
        hoist_node-AreSlotted args symbols blocks (k + decls name) _ (omega arith)
          (hoist_node-AreSlotted name symbols blocks k s (omega arith) all))
  hoist_node-AreSlotted (ifthen cond then_stmt else_stmt) symbols blocks k s room all =
      AreSlotted-le (k + decls then_stmt + decls else_stmt) _ _ (omega arith) (
        hoist_node-AreSlotted else_stmt symbols blocks (k + decls then_stmt) _ (omega arith)
          (hoist_node-AreSlotted then_stmt symbols blocks k s (omega arith) all))
  hoist_node-AreSlotted (while cond stmt) symbols blocks k s room all =
      AreSlotted-le (k + decls stmt) _ _ (omega arith)
        (hoist_node-AreSlotted stmt symbols blocks k s (omega arith) all)
  hoist_node-AreSlotted (for_in id init expr stmt) symbols blocks k s room all =
      AreSlotted-le (k + decls init + decls stmt) _ _ (omega arith) (
        hoist_node-AreSlotted stmt symbols (id ∷ blocks) (k + decls init) _ (omega arith) (
          block-AreSlotted k (decls init) id symbols blocks (hoist init symbols (id ∷ blocks)) s
            (λ s'. hoist_node-AreSlotted init symbols (id ∷ blocks) k s' (omega arith)) all))
  hoist_node-AreSlotted (for id init cond incr stmt) symbols blocks k s room all =
      AreSlotted-le (k + decls init + decls stmt) _ _ (omega arith) (
        hoist_node-AreSlotted stmt symbols (id ∷ blocks) (k + decls init) _ (omega arith) (
          block-AreSlotted k (decls init) id symbols blocks (hoist init symbols (id ∷ blocks)) s
            (λ s'. hoist_node-AreSlotted init symbols (id ∷ blocks) k s' (omega arith)) all))
  hoist_node-AreSlotted (assign left right) symbols blocks k s room all =
      AreSlotted-le (k + decls left + decls right) _ _ (omega arith) (
        hoist_node-AreSlotted right symbols blocks (k + decls left) _ (omega arith)
          (hoist_node-AreSlotted left symbols blocks k s (omega arith) all))
  hoist_node-AreSlotted (binary left right) symbols blocks k s room all =
      AreSlotted-le k _ s (omega arith) all
  hoist_node-AreSlotted (unary n) symbols blocks k s room all =
      AreSlotted-le k _ s (omega arith) all
  hoist_node-AreSlotted (return n) symbols blocks k s room all =
      hoist_node-AreSlotted n symbols blocks k s room all
  hoist_node-AreSlotted (ternary cond on_true on_false) symbols blocks k s room all =
      AreSlotted-le k _ s (omega arith) all
  hoist_node-AreSlotted (var id true scope name) symbols blocks k s room all =
      declare-AreSlotted k name (target scope symbols blocks) s room all
  hoist_node-AreSlotted (var id false scope name) symbols blocks k s room all =
      AreSlotted-le k _ s (omega arith) all
  hoist_node-AreSlotted (block id body) symbols blocks k s room all =
      block-AreSlotted k (decls body) id symbols blocks (hoist body symbols (id ∷ blocks)) s
        (λ s'. hoist_node-AreSlotted body symbols (id ∷ blocks) k s' room) all
  hoist_node-AreSlotted (fcn_def id node name params body) symbols blocks k s room all =
      AreSlotted-le (k + 1 + decls params + decls body) _ _ (omega arith) (
        hoist_node-AreSlotted body id blocks (k + 1 + decls params) _ (omega arith) (
          count_params-AreSlotted (k + 1 + decls params) id _ (
            hoist_node-AreSlotted params id blocks (k + 1) _ (omega arith) (
              open_fcn-AreSlotted (k + 1) id symbols _ (
                link_fcn-AreSlotted (k + 1) id symbols _
                  (declare_fcn-AreSlotted k node name symbols s (omega arith) all))))))
  hoist_node-AreSlotted (fcn_expr id unnamed params body) symbols blocks k s room all =
      AreSlotted-le (k + decls params + decls body) _ _ (omega arith) (
        hoist_node-AreSlotted body id blocks (k + decls params) _ (omega arith) (
          count_params-AreSlotted (k + decls params) id _ (
            hoist_node-AreSlotted params id blocks k _ (omega arith)
              (open_fcn-AreSlotted k id symbols s all))))
  hoist_node-AreSlotted (fcn_expr id (named node name) params body) symbols blocks k s room all =
      AreSlotted-le (k + decls params + 1 + decls body) _ _ (omega arith) (
        hoist_node-AreSlotted body id blocks (k + decls params + 1) _ (omega arith) (
          declare_fcn-AreSlotted (k + decls params) node name id _ (omega arith) (
            count_params-AreSlotted (k + decls params) id _ (
              hoist_node-AreSlotted params id blocks k _ (omega arith)
                (open_fcn-AreSlotted k id symbols s all)))))
  hoist_node-AreSlotted other symbols blocks k s room all = AreSlotted-le k _ s (omega arith) all

  hoist_list-AreSlotted :
      (ns : Nodes) (symbols : ℕ) (blocks : List ℕ) (k : ℕ) (s : State)
      → k + decls_in ns < word_mod
      → AreSlotted k s
      → AreSlotted (k + decls_in ns) (hoist_list ns symbols blocks s)
  hoist_list-AreSlotted end symbols blocks k s room all = AreSlotted-le k _ s (omega arith) all
  hoist_list-AreSlotted (item n ns) symbols blocks k s room all =
      AreSlotted-le (k + decls n + decls_in ns) _ _ (omega arith) (
        hoist_list-AreSlotted ns symbols blocks (k + decls n) _ (omega arith)
          (hoist_node-AreSlotted n symbols blocks k s (omega arith) all))

-- Hoisting the modules of a program keeps it that in every table each symbol has a slot of its
-- own, from 1 on, and no table grows by more slots than the program has declarations, where the
-- slots and the declarations together are below 2 ^ 32.
pub hoist-AreSlotted :
    (modules : Nodes) (symbols : ℕ) (blocks : List ℕ) (k : ℕ) (s : State)
    → k + decls_in modules < word_mod
    → AreSlotted k s
    → AreSlotted (k + decls_in modules) (hoist_list modules symbols blocks s)
hoist-AreSlotted = hoist_list-AreSlotted
