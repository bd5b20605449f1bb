-- ===== src/Symbols/Bound.antt =====
-- When `assignSlots` ends, and when it exits at a name that it does not find.
use javascript_database.Common.{
  ℕ, ◌≡◌, refl, Bool, true, false, Option, none, some, List, ◌∷◌, ◌>>=◌,
}
use javascript_database.Symbols.Tree.{
  Node, Nodes, empty, list, elem, obj, array, call, ifthen, while, for_in, for, assign, binary,
  unary, return, ternary, var, block, fcn_def, fcn_expr, other, end, item,
}
use javascript_database.Symbols.Tables.{State}
use javascript_database.Symbols.Hoist.{hoist_list}
use javascript_database.Symbols.Assign.{
  set_depth, set_base, resolve, callee_of, assign_slots, assign_list, compile_scripts,
}
use javascript_database.Symbols.Scopes.{
  is_some, bound, bound_list, AreSame, AreSame-refl, set_tab-AreSame, Ends, ends, exits, Ends-then,
  resolve-Ends,
}

set_base-AreSame :
    (s0 s : State) (id symbols : ℕ) → AreSame s0 s → AreSame s0 (set_base id symbols s)
unfolding set_base
set_base-AreSame s0 s id symbols same = set_tab-AreSame s0 s id _ same refl (λ name. refl)

set_depth-AreSame :
    (s0 s : State) (id symbols : ℕ) → AreSame s0 s → AreSame s0 (set_depth id symbols s)
unfolding set_depth
set_depth-AreSame s0 s id symbols same = set_tab-AreSame s0 s id _ same refl (λ name. refl)

-- From a state with the same scopes, a part ends as in `s0`.
abbrev Goes : State → Node → ℕ → List ℕ → Type 0
Goes s0 n symbols blocks =
    (s : State)
    → AreSame s0 s
    → Ends s0 (bound n symbols blocks s0) (assign_slots n symbols blocks s)

Ends-block :
    (s0 s : State) (id symbols : ℕ) (b : Bool) (f : List ℕ → State → Option State)
    → AreSame s0 s
    → ((s : State) → AreSame s0 s → Ends s0 b (f (id ∷ (s0.tabs id).parents) s))
    → Ends s0 b (f (id ∷ (s.tabs id).parents) (set_base id symbols s))
Ends-block s0 s id symbols b f same step =
    rw (same.parents id) (step _ (set_base-AreSame s0 s id symbols same))

Ends-callee :
    (s0 : State) (name : Node) (symbols : ℕ) (blocks : List ℕ)
    → Goes s0 name symbols blocks
    → (s : State) → AreSame s0 s
    → Ends s0 (bound name symbols blocks s0) (elim (callee_of name) [
      | none ↦ assign_slots name symbols blocks s
      | some found ↦ resolve true found.0 found.1 symbols blocks s
    ])
unfolding callee_of bound
Ends-callee s0 (var id decl scope name) symbols blocks goes s same =
    resolve-Ends s0 s true id name symbols blocks same
Ends-callee s0 _ symbols blocks goes s same = goes s same

mutual
  unfolding assign_slots bound

  assign_node-Ends :
      (s0 : State) (n : Node) (symbols : ℕ) (blocks : List ℕ) → Goes s0 n symbols blocks
  assign_node-Ends s0 empty symbols blocks s same = ends s same
  assign_node-Ends s0 (list ns) symbols blocks s same = assign_list-Ends s0 ns symbols blocks s same
  assign_node-Ends s0 (elem n) symbols blocks s same = assign_node-Ends s0 n symbols blocks s same
  assign_node-Ends s0 (obj n) symbols blocks s same = assign_node-Ends s0 n symbols blocks s same
  assign_node-Ends s0 (array n) symbols blocks s same = assign_node-Ends s0 n symbols blocks s same
  assign_node-Ends s0 (call name args) symbols blocks s same =
      Ends-then s0 _ _ _ _ (assign_node-Ends s0 args symbols blocks s same)
        (Ends-callee s0 name symbols blocks (assign_node-Ends s0 name symbols blocks))
  assign_node-Ends s0 (ifthen cond then_stmt else_stmt) symbols blocks s same =
      Ends-then s0 _ _ _ _ (assign_node-Ends s0 cond symbols blocks s same) (λ s1 same1.
        Ends-then s0 _ _ _ _ (assign_node-Ends s0 then_stmt symbols blocks s1 same1)
          (assign_node-Ends s0 else_stmt symbols blocks))
  assign_node-Ends s0 (while cond stmt) symbols blocks s same =
      Ends-then s0 _ _ _ _ (assign_node-Ends s0 cond symbols blocks s same)
        (assign_node-Ends s0 stmt symbols blocks)
  assign_node-Ends s0 (for_in id init expr stmt) symbols blocks s same =
      Ends-block s0 s id symbols _
        (λ inner s'. do
          s1 ← assign_slots init symbols inner s'
          s2 ← assign_slots expr symbols inner s1
          assign_slots stmt symbols inner s2)
        same
        (λ s' same'.
          let inner = id ∷ (s0.tabs id).parents in
          Ends-then s0 _ _ _ _ (assign_node-Ends s0 init symbols inner s' same') (λ s1 same1.
            Ends-then s0 _ _ _ _ (assign_node-Ends s0 expr symbols inner s1 same1)
              (assign_node-Ends s0 stmt symbols inner)))
  assign_node-Ends s0 (for id init cond incr stmt) symbols blocks s same =
      Ends-block s0 s id symbols _
        (λ inner s'. do
          s1 ← assign_slots init symbols inner s'
          s2 ← assign_slots cond symbols inner s1
          s3 ← assign_slots incr symbols inner s2
          assign_slots stmt symbols inner s3)
        same
        (λ s' same'.
          let inner = id ∷ (s0.tabs id).parents in
          Ends-then s0 _ _ _ _ (assign_node-Ends s0 init symbols inner s' same') (λ s1 same1.
            Ends-then s0 _ _ _ _ (assign_node-Ends s0 cond symbols inner s1 same1) (λ s2 same2.
              Ends-then s0 _ _ _ _ (assign_node-Ends s0 incr symbols inner s2 same2)
                (assign_node-Ends s0 stmt symbols inner))))
  assign_node-Ends s0 (assign left right) symbols blocks s same =
      Ends-then s0 _ _ _ _ (assign_node-Ends s0 left symbols blocks s same)
        (assign_node-Ends s0 right symbols blocks)
  assign_node-Ends s0 (binary left right) symbols blocks s same =
      Ends-then s0 _ _ _ _ (assign_node-Ends s0 left symbols blocks s same)
        (assign_node-Ends s0 right symbols blocks)
  assign_node-Ends s0 (unary n) symbols blocks s same = assign_node-Ends s0 n symbols blocks s same
  assign_node-Ends s0 (return n) symbols blocks s same = assign_node-Ends s0 n symbols blocks s same
  assign_node-Ends s0 (ternary cond on_true on_false) symbols blocks s same =
      Ends-then s0 _ _ _ _ (assign_node-Ends s0 cond symbols blocks s same) (λ s1 same1.
        Ends-then s0 _ _ _ _ (assign_node-Ends s0 on_true symbols blocks s1 same1)
          (assign_node-Ends s0 on_false symbols blocks))
  assign_node-Ends s0 (var id decl scope name) symbols blocks s same =
      resolve-Ends s0 s false id name symbols blocks same
  assign_node-Ends s0 (block id body) symbols blocks s same =
      Ends-block s0 s id symbols _ (assign_slots body symbols) same
        (assign_node-Ends s0 body symbols (id ∷ (s0.tabs id).parents))
  assign_node-Ends s0 (fcn_def id node name params body) symbols blocks s same =
      assign_node-Ends s0 body id blocks _ (set_depth-AreSame s0 s id symbols same)
  assign_node-Ends s0 (fcn_expr id name params body) symbols blocks s same =
      assign_node-Ends s0 body id blocks _ (set_depth-AreSame s0 s id symbols same)
  assign_node-Ends s0 other symbols blocks s same = ends s same

  assign_list-Ends :
      (s0 : State) (ns : Nodes) (symbols : ℕ) (blocks : List ℕ) (s : State)
      → AreSame s0 s
      → Ends s0 (bound_list ns symbols blocks s0) (assign_list ns symbols blocks s)
  assign_list-Ends s0 end symbols blocks s same = ends s same
  assign_list-Ends s0 (item n ns) symbols blocks s same =
      Ends-then s0 _ _ _ _ (assign_node-Ends s0 n symbols blocks s same)
        (assign_list-Ends s0 ns symbols blocks)

Ends-is_some : (s0 : State) (b : Bool) (o : Option State) → Ends s0 b o → is_some o ≡ b
Ends-is_some s0 b o (ends s same) = refl
Ends-is_some s0 b o exits = refl

-- `compileScripts` ends, and does not exit at a name that it does not find, exactly where after
-- hoisting each name that is read, written or called is in the table of a block or a function
-- around it.
pub compile_scripts-bound :
    (modules : Nodes) (symbols : ℕ) (blocks : List ℕ) (s : State)
    → is_some (compile_scripts modules symbols blocks s)
      ≡ bound_list modules symbols blocks (hoist_list modules symbols blocks s)
unfolding compile_scripts
compile_scripts-bound modules symbols blocks s =
    let hoisted = hoist_list modules symbols blocks s in
    Ends-is_some hoisted _ _
      (assign_list-Ends hoisted modules symbols blocks hoisted (AreSame-refl hoisted))
