-- ===== src/Runtime/Table.antt =====
-- `log_or_not` against the truth table in the comment above it (profile-func/trace_logger.cpp).
use llvm_tracer.Prelude.{ℤ, Bool, true, false, ◌&&◌, ◌≡◌, Text, text_eq, is_pos, arith, not}
use llvm_tracer.Prelude.Result.{Result, ok, err, assertion_failed}
use llvm_tracer.Runtime.State.{TraceInfo, LoggingStatus, log_and_continue, do_not_log, ret_op}
use llvm_tracer.Runtime.Status.{log_or_not, is_empty}

-- The last column of the table.
pub data Behavior : Type 0 where
  refrains logs continues is_bad : Behavior

-- TLM, TLF, RET, and whether the function is the top-level function that is being traced.
abbrev pub table : Bool → Bool → Bool → Bool → Behavior
table false false ret same = refrains
table false true ret same = logs
table true false ret same = continues
table true true false same = logs
table true true true true = refrains
table true true true false = is_bad

abbrev pub behave : {File : Type 0} → TraceInfo File → Behavior → Result LoggingStatus
behave t refrains = ok do_not_log
behave t logs = ok log_and_continue
behave t continues = ok t.current_logging_status
behave t is_bad = err assertion_failed

abbrev pub is_current : {File : Type 0} → Text → TraceInfo File → Bool
is_current name t =
    not (is_empty t.current_toplevel_function) && text_eq name t.current_toplevel_function

-- `log_or_not` does what the table says in each of its rows, where a return from a function other
-- than the one being traced (none is, if the name is empty) is a failed assertion.
pub log_or_not-table :
    {File : Type 0} (tlm tlf : Bool) (opcode : ℤ) (name : Text) (t : TraceInfo File)
    → log_or_not tlm tlf opcode name t
      ≡ behave t (table tlm tlf (is_pos ret_op opcode) (is_current name t))
unfolding log_or_not
log_or_not-table tlm tlf opcode name t = ground arith
