-- ===== src/Pass/Entry.antt =====
-- What stands at the start of an instrumented function (full-trace/full_trace.cpp).
use llvm_tracer.Prelude.{
  ℕ, zero, suc, length, replicate, All, Bool, true, false, ◌≡◌, some, List, [], ◌∷◌, map,
  if◌then◌else◌,
}
use llvm_tracer.Pass.Succeeds.{Succeeds}
use llvm_tracer.Pass.Shape.{param_of, is_printed}
use llvm_tracer.Pass.Stores.{IsStorable}
use llvm_tracer.Pass.FittingCode.{IsPrintable}
use llvm_tracer.Runtime.State.{forward_line}
use llvm_tracer.Pass.Sizes.{IrType}
use llvm_tracer.Pass.Ids.{NameTables}
use llvm_tracer.Pass.Opcodes.{Opcodes}
use llvm_tracer.Pass.Inserted.{TypedValue, Inserted, print_argument}

abbrev pub count_from : ℕ → ℕ → List ℕ
count_from k zero = []
count_from k (suc n) = k ∷ count_from (suc k) n

module _ (p : IrType → ℕ) where
  -- A number, a pointer or a vector that can be printed.
  abbrev pub IsPrinted : TypedValue → Type 0
  IsPrinted o = (is_printed o.type_of ≡ true) × (o.is_function ≡ false) × IsPrintable p o

module _ (p : IrType → ℕ) (tables : NameTables) where
  -- One line with the number, with a vector that can be stored.
  abbrev IsPrint : ℕ → List Inserted → Type 0
  IsPrint k lines =
      (line : Inserted) × (lines ≡ line ∷ []) × (param_of line ≡ some k) × IsStorable p line

  abbrev Prints : ℕ → TypedValue → Type 0
  Prints k o = Succeeds (IsPrint k) (print_argument p tables k o)

  -- The numbers of the lines of `n` arguments from the `k`-th on.
  abbrev pub numbers : Bool → ℕ → ℕ → List ℕ
  numbers is_entry_block k n = if is_entry_block then count_from k n else replicate n forward_line

  -- The lines of all, with their numbers.
  abbrev AreNumbered : Bool → ℕ → List TypedValue → List Inserted → Type 0
  AreNumbered is_entry_block k args lines =
      (map param_of lines ≡ map some (numbers is_entry_block k (length args)))
      × All (IsStorable p) lines
