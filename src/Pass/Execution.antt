-- ===== src/Pass/Execution.antt =====
-- Running instrumented code: the calls that full-trace/full_trace.cpp inserts, on the state of
-- profile-func/trace_logger.cpp.
use llvm_tracer.Prelude.{
  ℕ, ℤ, pos, Bool, Option, none, some, List, [], ◌∷◌, ◌++◌, Text, if◌then◌else◌,
}
use llvm_tracer.Prelude.Result.{Result, ok, ◌>>=◌}
use llvm_tracer.Runtime.Gz.{Gz}
use llvm_tracer.Runtime.State.{World}
use llvm_tracer.Runtime.Status.{trace_logger_update_status}
use llvm_tracer.Runtime.Lines as Lines
use llvm_tracer.Runtime.Lines.{trace_logger_log_entry}
use llvm_tracer.Runtime.Log.{
  Line, first, int_value, ptr_value, string_value, double_value, vector_value,
}
use llvm_tracer.Runtime.Session.{Event, prints, run_events}
use llvm_tracer.Pass.Ids.{Value}
use llvm_tracer.Pass.Inserted.{
  ParamLine, zero_value, value_of, string_of, buffer_of, Inserted, log_entry, update_status, log0,
  log_int, log_double, log_ptr, log_string, log_vector,
}
use llvm_tracer.Pass.Handlers.{Instruction}
use llvm_tracer.Pass.Blocks.{BlockItem, original, inserted}

-- The values of the program at a point: numbers extended to 64 bits, floating-point numbers,
-- addresses, and the bytes of vectors.
pub record Values (Double : Type 0) : Type 0 where
  pub int_of : Value → ℤ
  pub double_of : Value → Double
  pub ptr_of : Value → ℕ
  pub memory_of : Value → Text

abbrev pub flag : Bool → ℤ
flag b = pos (if b then 1 else 0)

abbrev pub operand_of : ParamLine → Lines.Operand
operand_of line = record {
  line = pos line.param_num;
  size = pos line.size;
  is_reg = flag line.is_reg;
  label = line.reg_id;
  is_phi = flag line.is_phi;
  prev_bbid = line.prev_bbid;
}

module _ {Double : Type 0} (values : Values Double) where
  -- The line that a call prints. A pass never puts together the pairs that print none.
  abbrev pub line_of : Inserted → Option (Line Double)
  line_of (log0 line f bbid instid opcode tracked toplevel) =
      some (first line f bbid instid (pos opcode))
  line_of (log_int line zero_value) = some (int_value (pos 0) (operand_of line))
  line_of (log_int line (value_of v)) = some (int_value (values.int_of v) (operand_of line))
  line_of (log_double line (value_of v)) =
      some (double_value (values.double_of v) (operand_of line))
  line_of (log_ptr line zero_value) = some (ptr_value 0 (operand_of line))
  line_of (log_ptr line (value_of v)) = some (ptr_value (values.ptr_of v) (operand_of line))
  line_of (log_string line (string_of s)) = some (string_value s (operand_of line))
  line_of (log_vector line (buffer_of n element pointee v)) =
      some (vector_value line.size (values.memory_of v) (operand_of line))
  line_of _ = none

  abbrev pub line_events : Inserted → List (Event Double)
  line_events c = elim (line_of c) [ none ↦ [] | some l ↦ prints l ∷ [] ]

  abbrev pub lines_events : List Inserted → List (Event Double)
  lines_events [] = []
  lines_events (c ∷ cs) = line_events c ++ lines_events cs

  -- What a run of items logs if there is no status call among them.
  abbrev pub items_events :
      (Instruction → List (Event Double)) → List BlockItem → List (Event Double)
  items_events inside [] = []
  items_events inside (original inst ∷ items) = inside inst ++ items_events inside items
  items_events inside (inserted c ∷ items) = line_events c ++ items_events inside items

module _ {Double : Type 0} (show_double : Double → Text) {z : Gz} (values : Values Double) where
  unfoldable pub run_inserted : Inserted → World z → Result (World z)
  run_inserted (log_entry f n) w = trace_logger_log_entry f (pos n) w
  run_inserted (update_status f opcode tracked toplevel) w =
      trace_logger_update_status f (pos opcode) tracked toplevel w
  run_inserted c w = run_events show_double (line_events values c) w

  unfoldable pub run_all_inserted : List Inserted → World z → Result (World z)
  unfolding run_inserted
  run_all_inserted [] w = ok w
  run_all_inserted (c ∷ cs) w = run_inserted c w >>= run_all_inserted cs

  -- An original instruction logs what its callee logs.
  unfoldable pub run_items :
      (Instruction → List (Event Double)) → List BlockItem → World z → Result (World z)
  unfolding run_inserted
  run_items inside [] w = ok w
  run_items inside (original inst ∷ items) w =
      run_events show_double (inside inst) w >>= run_items inside items
  run_items inside (inserted c ∷ items) w = run_inserted c w >>= run_items inside items
