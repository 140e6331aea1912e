-- ===== src/AstPass/Labels.antt =====
-- Which labels the visit of a function records (ast-pass/GetLabeledStmts.cpp).
use llvm_tracer.Prelude.{
  ℕ, Bool, true, false, ◌&&◌, ◌||◌, ◌≡◌, Option, none, some, Text, text_eq, text_eq_iff,
  if◌then◌else◌, arith,
}
use llvm_tracer.Prelude.Dict.{lookup, insert, lookup-insert}
use llvm_tracer.AstPass.Tree.{
  Stmt, label, call, other, Stmts, nil, cons, null, start_line, FunctionDecl, LabelMap, info_of,
}
use llvm_tracer.AstPass.Visitor.{
  add_to_label_map, add_caller, first_unlabelled, handle_if_label_stmt, handle_if_call_expr,
  handle_child, handle_children, visit_all_child_stmts_of, visit_stacked,
}

-- The line that the map has for a label of a function.
pub label_line : Text → Text → LabelMap → Option ℕ
unfolding info_of
label_line func name m = lookup name (info_of func m).label_to_line_num

-- Does the statement itself have the label?
abbrev pub is_labelled : Text → Stmt → Bool
is_labelled l (label name line sub) = text_eq name l
is_labelled l _ = false

abbrev pub has_labelled : Text → Stmts → Bool
has_labelled l nil = false
has_labelled l (cons s ss) = is_labelled l s || has_labelled l ss
has_labelled l (null ss) = has_labelled l ss

-- Does a statement below have the label?
unfoldable mutual
  pub occurs_below : Text → Stmt → Bool
  occurs_below l (label name line sub) = is_labelled l sub || occurs_below l sub
  occurs_below l (call callee line args) = has_labelled l args || occurs_below_all l args
  occurs_below l (other line children) = has_labelled l children || occurs_below_all l children

  pub occurs_below_all : Text → Stmts → Bool
  occurs_below_all l nil = false
  occurs_below_all l (cons s ss) = occurs_below l s || occurs_below_all l ss
  occurs_below_all l (null ss) = occurs_below_all l ss

-- Wherever the label stands on the statement itself, its first unlabelled statement starts on the line `n`.
abbrev pub IsAtLine : Text → ℕ → Stmt → Type 0
IsAtLine l n (label name line sub) = text_eq name l ≡ true → start_line (first_unlabelled sub) ≡ n
IsAtLine l n _ = Unit {0}

abbrev pub AreAtLine : Text → ℕ → Stmts → Type 0
AreAtLine l n nil = Unit {0}
AreAtLine l n (cons s ss) = IsAtLine l n s × AreAtLine l n ss
AreAtLine l n (null ss) = AreAtLine l n ss

-- The same of all statements below. In C a function has a label once, so that this holds for a line.
unfoldable mutual
  pub IsAtLineBelow : Text → ℕ → Stmt → Type 0
  IsAtLineBelow l n (label name line sub) = IsAtLine l n sub × IsAtLineBelow l n sub
  IsAtLineBelow l n (call callee line args) = AreAtLine l n args × AreAtLineBelow l n args
  IsAtLineBelow l n (other line children) = AreAtLine l n children × AreAtLineBelow l n children

  pub AreAtLineBelow : Text → ℕ → Stmts → Type 0
  AreAtLineBelow l n nil = Unit {0}
  AreAtLineBelow l n (cons s ss) = IsAtLineBelow l n s × AreAtLineBelow l n ss
  AreAtLineBelow l n (null ss) = AreAtLineBelow l n ss

label_line-add_caller :
    (f l callee caller : Text) (m : LabelMap)
    → label_line f l (add_caller callee caller m) ≡ label_line f l m
unfolding label_line add_caller info_of
label_line-add_caller f l callee caller m = ground (
  arith,
  lookup-insert callee f
      (record (info_of callee m) { callers = insert caller tt (info_of callee m).callers }) m,
  text_eq_iff callee f,
)

label_line-add_to_label_map :
    (f l g name : Text) (n : ℕ) (m : LabelMap)
    → label_line f l (add_to_label_map g name n m)
      ≡ (if text_eq g f && text_eq name l then some n else label_line f l m)
unfolding label_line add_to_label_map info_of
label_line-add_to_label_map f l g name n m = ground (
  arith,
  lookup-insert g f
      (record (info_of g m) { label_to_line_num = insert name n (info_of g m).label_to_line_num })
      m,
  text_eq_iff g f,
  lookup-insert name l n (info_of g m).label_to_line_num,
)

module _ (f l : Text) (n : ℕ) (func : FunctionDecl) where
  -- The entry of the label after a step at which it may occur.
  abbrev Seen : Bool → LabelMap → LabelMap → Type 0
  Seen found m m' =
      label_line f l m' ≡ (if text_eq func.name f && found then some n else label_line f l m)

  Seen-trans :
      (a b : Bool) (m₁ m₂ m₃ : LabelMap) → Seen a m₁ m₂ → Seen b m₂ m₃ → Seen (a || b) m₁ m₃
  Seen-trans a b m₁ m₂ m₃ h k = ground arith

  Seen-trans_back :
      (a b : Bool) (m₁ m₂ m₃ : LabelMap) → Seen b m₁ m₂ → Seen a m₂ m₃ → Seen (a || b) m₁ m₃
  Seen-trans_back a b m₁ m₂ m₃ h k = ground arith

  handle_child-Seen :
      (s : Stmt) (m : LabelMap) → IsAtLine l n s → Seen (is_labelled l s) m (handle_child s func m)
  unfolding handle_child handle_if_label_stmt handle_if_call_expr
  handle_child-Seen (label name line sub) m h = ground (
    arith,
    label_line-add_to_label_map f l func.name name (start_line (first_unlabelled sub)) m,
    h,
  )
  handle_child-Seen (call none line args) m h = ground arith
  handle_child-Seen (call (some callee) line args) m h =
      ground (arith, label_line-add_caller f l callee func.name m)
  handle_child-Seen (other line children) m h = ground arith

  handle_children-Seen :
      (ss : Stmts) (m : LabelMap)
      → AreAtLine l n ss
      → Seen (has_labelled l ss) m (handle_children ss func m)
  unfolding handle_children
  handle_children-Seen nil m h = ground arith
  handle_children-Seen (cons s ss) m h =
      Seen-trans (is_labelled l s) (has_labelled l ss) m (handle_child s func m)
        (handle_children ss func (handle_child s func m)) (handle_child-Seen s m h.0)
        (handle_children-Seen ss (handle_child s func m) h.1)
  handle_children-Seen (null ss) m h = handle_children-Seen ss m h

  mutual
    unfolding visit_all_child_stmts_of visit_stacked occurs_below occurs_below_all IsAtLineBelow
        AreAtLineBelow

    visit-Seen :
        (s : Stmt) (m : LabelMap)
        → IsAtLineBelow l n s
        → Seen (occurs_below l s) m (visit_all_child_stmts_of s func m)
    visit-Seen (label name line sub) m h =
        Seen-trans (is_labelled l sub) (occurs_below l sub) m (handle_child sub func m)
          (visit_all_child_stmts_of sub func (handle_child sub func m))
          (handle_child-Seen sub m h.0) (visit-Seen sub (handle_child sub func m) h.1)
    visit-Seen (call callee line args) m h =
        Seen-trans (has_labelled l args) (occurs_below_all l args) m (handle_children args func m)
          (visit_stacked args func (handle_children args func m)) (handle_children-Seen args m h.0)
          (visit_stacked-Seen args (handle_children args func m) h.1)
    visit-Seen (other line children) m h =
        Seen-trans (has_labelled l children) (occurs_below_all l children) m
          (handle_children children func m)
          (visit_stacked children func (handle_children children func m))
          (handle_children-Seen children m h.0)
          (visit_stacked-Seen children (handle_children children func m) h.1)

    visit_stacked-Seen :
        (ss : Stmts) (m : LabelMap)
        → AreAtLineBelow l n ss
        → Seen (occurs_below_all l ss) m (visit_stacked ss func m)
    visit_stacked-Seen nil m h = ground arith
    visit_stacked-Seen (cons s ss) m h =
        Seen-trans_back (occurs_below l s) (occurs_below_all l ss) m (visit_stacked ss func m)
          (visit_all_child_stmts_of s func (visit_stacked ss func m)) (visit_stacked-Seen ss m h.1)
          (visit-Seen s (visit_stacked ss func m) h.0)
    visit_stacked-Seen (null ss) m h = visit_stacked-Seen ss m h

-- Take a label `l` and a line `n` such that every occurrence of `l` below the body stands for the
-- line `n`. Then the visit of the body sets the entry of `l` for the visited function to `n` if
-- `l` occurs below, and it changes the entry of `l` for no other function and no entry of a label
-- that does not occur.
pub visit-labels :
    (f l : Text) (n : ℕ) (func : FunctionDecl) (body : Stmt) (m : LabelMap)
    → IsAtLineBelow l n body
    → label_line f l (visit_all_child_stmts_of body func m)
      ≡ (if text_eq func.name f && occurs_below l body then some n else label_line f l m)
visit-labels f l n func body m h = visit-Seen f l n func body m h
