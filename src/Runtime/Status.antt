-- ===== src/Runtime/Status.antt =====
-- When to log: `log_or_not`, `trace_logger_update_status` and `do_not_log`
-- (profile-func/trace_logger.cpp).
use llvm_tracer.Prelude.{ℤ, to_int64, Bool, true, not, none, some}
use llvm_tracer.Prelude.{[], ◌++◌, Text, codes, text_eq, if◌then◌else◌, is_pos, length, ◌==◌}
use llvm_tracer.Prelude.Decimal.{show_int}
use llvm_tracer.Prelude.Result.{Result, ok, err, ◌>>=◌, assertion_failed}
use llvm_tracer.Runtime.Gz.{Gz}
use llvm_tracer.Runtime.State.{
  TraceInfo, World, LoggingStatus, log_and_continue, do_not_log, is_do_not_log, the_trace, ret_op,
  default_trace_name,
}
use llvm_tracer.Runtime.Files.{create_trace, fin_toplevel}

abbrev pub is_empty : Text → Bool
is_empty s = length s == 0

module _ {File : Type 0} where
  unfoldable pub log_or_not : Bool → Bool → ℤ → Text → TraceInfo File → Result LoggingStatus
  log_or_not is_toplevel_mode is_toplevel_function opcode current_function t =
      if not is_toplevel_mode
      then ok (if is_toplevel_function then log_and_continue else do_not_log)
      else if not is_toplevel_function
      then ok t.current_logging_status
      else if not (is_pos ret_op opcode)
      then ok log_and_continue
      else if is_empty t.current_toplevel_function
      then err assertion_failed
      else if text_eq current_function t.current_toplevel_function
      then ok do_not_log
      else err assertion_failed

  -- The two messages on a change of status.
  unfoldable pub report : LoggingStatus → LoggingStatus → TraceInfo File → Text
  report log_and_continue do_not_log t =
      t.trace_name
      ++ (codes ": Stopping logging at inst " ++ (show_int (to_int64 t.inst_count) ++ codes ".\n"))
  report do_not_log log_and_continue t =
      t.trace_name
      ++ (codes ": Starting to log at inst = " ++ (show_int (to_int64 t.inst_count) ++ codes ".\n"))
  report log_and_continue log_and_continue t = []
  report do_not_log do_not_log t = []

module _ {z : Gz} where
  -- The last test of `trace_logger_update_status`, on the trace with its new status.
  unfoldable pub settle : Text → TraceInfo z.File → World z → World z
  unfolding fin_toplevel
  settle name t w = elim t.current_logging_status [
    | log_and_continue ↦
        if is_empty t.current_toplevel_function
        then record w { trace = some (record t { current_toplevel_function = name }) }
        else record w { trace = some t }
    | do_not_log ↦
        fin_toplevel (record w { trace = some (record t { current_toplevel_function = [] }) })
  ]

  unfoldable pub update_trace : Text → ℤ → Bool → Bool → World z → Result (World z)
  unfolding log_or_not report settle
  update_trace name opcode is_tracked_function is_toplevel_mode w = do
    t ← the_trace w
    let temp = t.current_logging_status
    now ← log_or_not is_toplevel_mode is_tracked_function opcode name t
    let t' : TraceInfo z.File = record t { current_logging_status = now }
    ok (settle name t' (record w { stdout = w.stdout ++ report temp now t' }))

  unfoldable pub trace_logger_update_status : Text → ℤ → Bool → Bool → World z → Result (World z)
  unfolding update_trace create_trace
  trace_logger_update_status name opcode is_tracked_function is_toplevel_mode w = elim w.trace [
    | some t ↦ update_trace name opcode is_tracked_function is_toplevel_mode w
    | none ↦
        if is_tracked_function
        then (do
          created ← create_trace default_trace_name w
          update_trace name opcode is_tracked_function is_toplevel_mode created)
        else ok w
  ]

  -- The function `do_not_log`, which has the name of a status.
  unfoldable pub does_not_log : World z → Bool
  does_not_log w = elim w.trace [ none ↦ true | some t ↦ is_do_not_log t.current_logging_status ]
