-- ===== src/AstPass/Visitor.antt =====
-- `LabeledStmtVisitor` (ast-pass/GetLabeledStmts.cpp).
use llvm_tracer.Prelude.{ℕ, Bool, true, none, some, List, [], ◌∷◌, Text, if◌then◌else◌}
use llvm_tracer.Prelude.Dict.{lookup, insert}
use llvm_tracer.AstPass.Tree.{
  Stmt, label, call, other, Stmts, nil, cons, null, start_line, FunctionDecl, function_info,
  LabelMap, info_of,
}

-- `labelMap[func][label] = line`.
unfoldable pub add_to_label_map : Text → Text → ℕ → LabelMap → LabelMap
unfolding info_of
add_to_label_map func name line m =
    let info = info_of func m in
    insert func (record info { label_to_line_num = insert name line info.label_to_line_num }) m

-- `labelMap[callee].add_caller(caller)`.
unfoldable pub add_caller : Text → Text → LabelMap → LabelMap
unfolding info_of
add_caller callee caller m =
    let info = info_of callee m in
    insert callee (record info { callers = insert caller tt info.callers }) m

-- The loop that skips labels: the first substatement that has none.
unfoldable pub first_unlabelled : Stmt → Stmt
first_unlabelled (label name line sub) = first_unlabelled sub
first_unlabelled (call callee line args) = call callee line args
first_unlabelled (other line children) = other line children

unfoldable pub handle_if_label_stmt : Stmt → FunctionDecl → LabelMap → LabelMap
unfolding add_to_label_map first_unlabelled start_line
handle_if_label_stmt (label name line sub) func m =
    add_to_label_map func.name name (start_line (first_unlabelled sub)) m
handle_if_label_stmt (call callee line args) func m = m
handle_if_label_stmt (other line children) func m = m

unfoldable pub handle_if_call_expr : Stmt → FunctionDecl → LabelMap → LabelMap
unfolding add_caller
handle_if_call_expr (label name line sub) func m = m
handle_if_call_expr (call none line args) func m = m
handle_if_call_expr (call (some callee) line args) func m =
    if func.is_main then m else add_caller callee func.name m
handle_if_call_expr (other line children) func m = m

unfoldable pub handle_child : Stmt → FunctionDecl → LabelMap → LabelMap
unfolding handle_if_label_stmt handle_if_call_expr
handle_child s func m = handle_if_call_expr s func (handle_if_label_stmt s func m)

-- The loop over the children, which also stacks them.
unfoldable pub handle_children : Stmts → FunctionDecl → LabelMap → LabelMap
unfolding handle_child
handle_children nil func m = m
handle_children (cons s ss) func m = handle_children ss func (handle_child s func m)
handle_children (null ss) func m = handle_children ss func m

-- The children are visited from the top of the stack: the last one first.
unfoldable mutual
  pub visit_all_child_stmts_of : Stmt → FunctionDecl → LabelMap → LabelMap
  visit_all_child_stmts_of (label name line sub) func m =
      visit_all_child_stmts_of sub func (handle_child sub func m)
  visit_all_child_stmts_of (call callee line args) func m =
      visit_stacked args func (handle_children args func m)
  visit_all_child_stmts_of (other line children) func m =
      visit_stacked children func (handle_children children func m)

  pub visit_stacked : Stmts → FunctionDecl → LabelMap → LabelMap
  visit_stacked nil func m = m
  visit_stacked (cons s ss) func m = visit_all_child_stmts_of s func (visit_stacked ss func m)
  visit_stacked (null ss) func m = visit_stacked ss func m

-- The loop over the attributes.
unfoldable pub mark_inlined : List Bool → Text → LabelMap → LabelMap
unfolding info_of
mark_inlined [] name m = m
mark_inlined (always_inline ∷ attrs) name m =
    mark_inlined attrs name
      (if always_inline then insert name (record (info_of name m) { inlined = true }) m else m)

unfoldable pub add_function : Text → LabelMap → LabelMap
add_function name m = elim (lookup name m) [ none ↦ insert name function_info m | some info ↦ m ]

unfoldable pub visit_function_decl : FunctionDecl → LabelMap → LabelMap
unfolding add_function mark_inlined
visit_function_decl func m =
    if func.is_method
    then m
    else if func.has_body
    then visit_all_child_stmts_of func.body func
        (mark_inlined func.attrs func.name (add_function func.name m))
    else m

-- `TraverseDecl` calls the visitor on each function declaration of the translation unit.
unfoldable pub handle_translation_unit : List FunctionDecl → LabelMap → LabelMap
unfolding visit_function_decl
handle_translation_unit [] m = m
handle_translation_unit (func ∷ funcs) m =
    handle_translation_unit funcs (visit_function_decl func m)
