-- ===== src/AstPass/Calls.antt =====
-- Which callers the visit of a translation unit records (ast-pass/GetLabeledStmts.cpp).
use llvm_tracer.Prelude.{
  ℕ, Bool, true, false, ◌&&◌, ◌||◌, not, ◌≡◌, refl, ◌∙◌, Option, none, some, List, [], ◌∷◌, Text,
  text_eq, text_eq_iff, arith,
}
use llvm_tracer.Prelude.Dict.{lookup, insert, lookup-insert}
use llvm_tracer.AstPass.Tree.{
  Stmt, label, call, other, Stmts, nil, cons, null, start_line, FunctionDecl, function_info,
  LabelMap, info_of,
}
use llvm_tracer.AstPass.Visitor.{
  add_to_label_map, add_caller, first_unlabelled, handle_if_label_stmt, handle_if_call_expr,
  handle_child, handle_children, visit_all_child_stmts_of, visit_stacked, mark_inlined,
  add_function, visit_function_decl, handle_translation_unit,
}

abbrev is_there {ℓ} : {A : Type ℓ} → Option A → Bool
is_there none = false
is_there (some a) = true

-- Is `c` among the callers that the map has for `g`?
pub is_caller : Text → Text → LabelMap → Bool
unfolding info_of
is_caller c g m = is_there (lookup c (info_of g m).callers)

-- Does the statement itself call `g` directly?
abbrev pub is_call : Text → Stmt → Bool
is_call g (call (some callee) line args) = text_eq callee g
is_call g _ = false

abbrev pub has_call : Text → Stmts → Bool
has_call g nil = false
has_call g (cons s ss) = is_call g s || has_call g ss
has_call g (null ss) = has_call g ss

-- Does a statement below call `g` directly?
unfoldable mutual
  pub calls_below : Text → Stmt → Bool
  calls_below g (label name line sub) = is_call g sub || calls_below g sub
  calls_below g (call callee line args) = has_call g args || calls_below_all g args
  calls_below g (other line children) = has_call g children || calls_below_all g children

  pub calls_below_all : Text → Stmts → Bool
  calls_below_all g nil = false
  calls_below_all g (cons s ss) = calls_below g s || calls_below_all g ss
  calls_below_all g (null ss) = calls_below_all g ss

is_caller-add_caller :
    (c g callee caller : Text) (m : LabelMap)
    → is_caller c g (add_caller callee caller m)
      ≡ (is_caller c g m || (text_eq caller c && text_eq callee g))
unfolding is_caller add_caller info_of
is_caller-add_caller c g callee caller m = ground (
  arith,
  lookup-insert callee g
      (record (info_of callee m) { callers = insert caller tt (info_of callee m).callers }) m,
  lookup-insert caller c tt (info_of callee m).callers,
  text_eq_iff callee g,
)

is_caller-add_to_label_map :
    (c g func name : Text) (n : ℕ) (m : LabelMap)
    → is_caller c g (add_to_label_map func name n m) ≡ is_caller c g m
unfolding is_caller add_to_label_map info_of
is_caller-add_to_label_map c g func name n m = ground (
  arith,
  lookup-insert func g
      (record (info_of func m) {
        label_to_line_num = insert name n (info_of func m).label_to_line_num;
      })
      m,
  text_eq_iff func g,
)

module _ (c g : Text) (func : FunctionDecl) where
  -- Calls of `g` that are met make `c` a caller if `c` is the visited function and not `main`.
  abbrev Calls : Bool → LabelMap → LabelMap → Type 0
  Calls found m m' =
      is_caller c g m' ≡ (is_caller c g m || (text_eq func.name c && (not func.is_main && found)))

  Calls-trans :
      (a b : Bool) (m₁ m₂ m₃ : LabelMap) → Calls a m₁ m₂ → Calls b m₂ m₃ → Calls (a || b) m₁ m₃
  Calls-trans a b m₁ m₂ m₃ h k = ground arith

  Calls-trans_back :
      (a b : Bool) (m₁ m₂ m₃ : LabelMap) → Calls b m₁ m₂ → Calls a m₂ m₃ → Calls (a || b) m₁ m₃
  Calls-trans_back a b m₁ m₂ m₃ h k = ground arith

  handle_child-Calls : (s : Stmt) (m : LabelMap) → Calls (is_call g s) m (handle_child s func m)
  unfolding handle_child handle_if_label_stmt handle_if_call_expr
  handle_child-Calls (label name line sub) m =
      ground
        (arith, is_caller-add_to_label_map c g func.name name (start_line (first_unlabelled sub)) m)
  handle_child-Calls (call none line args) m = ground arith
  handle_child-Calls (call (some callee) line args) m =
      ground (arith, is_caller-add_caller c g callee func.name m)
  handle_child-Calls (other line children) m = ground arith

  handle_children-Calls :
      (ss : Stmts) (m : LabelMap) → Calls (has_call g ss) m (handle_children ss func m)
  unfolding handle_children
  handle_children-Calls nil m = ground arith
  handle_children-Calls (cons s ss) m =
      Calls-trans (is_call g s) (has_call g ss) m (handle_child s func m)
        (handle_children ss func (handle_child s func m)) (handle_child-Calls s m)
        (handle_children-Calls ss (handle_child s func m))
  handle_children-Calls (null ss) m = handle_children-Calls ss m

  mutual
    unfolding visit_all_child_stmts_of visit_stacked calls_below calls_below_all

    visit-Calls :
        (s : Stmt) (m : LabelMap) → Calls (calls_below g s) m (visit_all_child_stmts_of s func m)
    visit-Calls (label name line sub) m =
        Calls-trans (is_call g sub) (calls_below g sub) m (handle_child sub func m)
          (visit_all_child_stmts_of sub func (handle_child sub func m)) (handle_child-Calls sub m)
          (visit-Calls sub (handle_child sub func m))
    visit-Calls (call callee line args) m =
        Calls-trans (has_call g args) (calls_below_all g args) m (handle_children args func m)
          (visit_stacked args func (handle_children args func m)) (handle_children-Calls args m)
          (visit_stacked-Calls args (handle_children args func m))
    visit-Calls (other line children) m =
        Calls-trans (has_call g children) (calls_below_all g children) m
          (handle_children children func m)
          (visit_stacked children func (handle_children children func m))
          (handle_children-Calls children m)
          (visit_stacked-Calls children (handle_children children func m))

    visit_stacked-Calls :
        (ss : Stmts) (m : LabelMap) → Calls (calls_below_all g ss) m (visit_stacked ss func m)
    visit_stacked-Calls nil m = ground arith
    visit_stacked-Calls (cons s ss) m =
        Calls-trans_back (calls_below g s) (calls_below_all g ss) m (visit_stacked ss func m)
          (visit_all_child_stmts_of s func (visit_stacked ss func m)) (visit_stacked-Calls ss m)
          (visit-Calls s (visit_stacked ss func m))
    visit_stacked-Calls (null ss) m = visit_stacked-Calls ss m

is_caller-insert_inlined :
    (c g name : Text) (m : LabelMap)
    → is_caller c g (insert name (record (info_of name m) { inlined = true }) m) ≡ is_caller c g m
unfolding is_caller info_of
is_caller-insert_inlined c g name m =
    ground (
      arith,
      lookup-insert name g (record (info_of name m) { inlined = true }) m,
      text_eq_iff name g,
    )

is_caller-mark_inlined :
    (c g : Text) (attrs : List Bool) (name : Text) (m : LabelMap)
    → is_caller c g (mark_inlined attrs name m) ≡ is_caller c g m
unfolding mark_inlined
is_caller-mark_inlined c g [] name m = refl
is_caller-mark_inlined c g (true ∷ attrs) name m =
    is_caller-mark_inlined c g attrs name
      (insert name (record (info_of name m) { inlined = true }) m)
    ∙ is_caller-insert_inlined c g name m
is_caller-mark_inlined c g (false ∷ attrs) name m = is_caller-mark_inlined c g attrs name m

is_caller-add_function :
    (c g name : Text) (m : LabelMap) → is_caller c g (add_function name m) ≡ is_caller c g m
unfolding is_caller add_function info_of
is_caller-add_function c g name m =
    ground (arith, lookup-insert name g function_info m, text_eq_iff name g)

-- Is the declaration a free function `c`, not `main`, whose body calls `g` directly?
abbrev pub is_recorded_call : Text → Text → FunctionDecl → Bool
is_recorded_call c g func =
    not func.is_method
    && (func.has_body && (text_eq func.name c && (not func.is_main && calls_below g func.body)))

visit_function_decl-Calls :
    (c g : Text) (func : FunctionDecl) (m : LabelMap)
    → is_caller c g (visit_function_decl func m) ≡ (is_caller c g m || is_recorded_call c g func)
unfolding visit_function_decl
visit_function_decl-Calls c g func m =
    let added = add_function func.name m in
    ground (
      arith,
      visit-Calls c g func func.body (mark_inlined func.attrs func.name added),
      is_caller-mark_inlined c g func.attrs func.name added,
      is_caller-add_function c g func.name m,
    )

abbrev pub records_call : Text → Text → List FunctionDecl → Bool
records_call c g [] = false
records_call c g (func ∷ funcs) = is_recorded_call c g func || records_call c g funcs

-- After the visit of a translation unit, `c` is a caller of `g` in the map exactly if it was before
-- or the unit defines a free function `c`, not `main`, with a direct call of `g` below its body,
-- at any depth.
pub unit-callers :
    (c g : Text) (funcs : List FunctionDecl) (m : LabelMap)
    → is_caller c g (handle_translation_unit funcs m) ≡ (is_caller c g m || records_call c g funcs)
unfolding handle_translation_unit
unit-callers c g [] m = ground arith
unit-callers c g (func ∷ funcs) m = ground (
  arith,
  unit-callers c g funcs (visit_function_decl func m),
  visit_function_decl-Calls c g func m,
)
