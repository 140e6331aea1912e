-- ===== src/AstPass/Tree.antt =====
-- What ast-pass/GetLabeledStmts.cpp reads of clang's AST, and the label map that it fills.
use llvm_tracer.Prelude.{ℕ, Bool, false, Option, none, some, List, [], Text}
use llvm_tracer.Prelude.Dict.{Dict, lookup}

-- A statement with the line where it starts: a labelled statement, a call with its direct callee
-- (if there is one), or any other. A child may be null.
mutual
  pub data Stmt : Type 0 where
    label : Text → ℕ → Stmt → Stmt
    call : Option Text → ℕ → Stmts → Stmt
    other : ℕ → Stmts → Stmt

  pub data Stmts : Type 0 where
    nil : Stmts
    cons : Stmt → Stmts → Stmts
    null : Stmts → Stmts

-- The line of a statement.
unfoldable pub start_line : Stmt → ℕ
start_line (label name line sub) = line
start_line (call callee line args) = line
start_line (other line children) = line

-- A function declaration. `attrs` says of each attribute whether it is `AlwaysInline`.
pub record FunctionDecl : Type 0 where
  pub name : Text
  pub is_main : Bool
  pub is_method : Bool
  pub has_body : Bool
  pub attrs : List Bool
  pub body : Stmt

-- The set of callers is a map to units.
pub record FunctionInfo : Type 0 where
  pub label_to_line_num : Dict ℕ
  pub callers : Dict (Unit {0})
  pub inlined : Bool

abbrev pub function_info : FunctionInfo
function_info = record { label_to_line_num = []; callers = []; inlined = false }

abbrev pub LabelMap : Type 0
LabelMap = Dict FunctionInfo

-- `labelMap[name]`, as a value: an entry that is not there is a new one.
unfoldable pub info_of : Text → LabelMap → FunctionInfo
info_of name m = elim (lookup name m) [ none ↦ function_info | some info ↦ info ]
