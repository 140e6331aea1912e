-- ===== src/Runtime/Phase.antt =====
-- In top-level mode `trace_logger_update_status` is a machine with two phases: idle, or tracing a
-- function.
use llvm_tracer.Prelude.{ℤ, Bool, true, false, ◌≡◌, Text, text_eq, is_pos, arith}
use llvm_tracer.Prelude.{none, some, if◌then◌else◌}
use llvm_tracer.Prelude.Result.{Result, ok, err, ◌>>=◌, assertion_failed}
use llvm_tracer.Runtime.Gz.{Gz}
use llvm_tracer.Runtime.State.{World, TraceInfo, ret_op, is_do_not_log}
use llvm_tracer.Runtime.Status.{is_empty, trace_logger_update_status}

pub data Phase : Type 0 where
  idle : Phase
  tracing : Text → Phase

abbrev trace_phase : {File : Type 0} → TraceInfo File → Phase
trace_phase t =
    if is_do_not_log t.current_logging_status then idle else tracing t.current_toplevel_function

abbrev pub phase : {z : Gz} → World z → Phase
phase w = elim w.trace [ none ↦ idle | some t ↦ trace_phase t ]

-- A trace logs exactly while it knows which function it traces.
abbrev IsCoherentTrace : {File : Type 0} → TraceInfo File → Type 0
IsCoherentTrace t = is_do_not_log t.current_logging_status ≡ is_empty t.current_toplevel_function

abbrev pub IsCoherent : {z : Gz} → World z → Type 0
IsCoherent w = elim w.trace [ none ↦ Unit {0} | some t ↦ IsCoherentTrace t ]

-- A call for a tracked function with the opcode of a return leaves the function, with any other
-- opcode it enters one. Calls for other functions change nothing.
abbrev pub phase_step : Text → Bool → Bool → Phase → Result Phase
phase_step name false ret p = ok p
phase_step name true false idle = ok (tracing name)
phase_step name true false (tracing f) = ok (tracing f)
phase_step name true true idle = err assertion_failed
phase_step name true true (tracing f) = if text_eq name f then ok idle else err assertion_failed

module _ {z : Gz} where
  -- From a coherent state `trace_logger_update_status` does the step of the machine, and fails
  -- where that fails.
  pub phase-update_status :
      (name : Text) (opcode : ℤ) (tracked : Bool) (w : World z)
      → is_empty name ≡ false
      → IsCoherent w
      → (do w' ← trace_logger_update_status name opcode tracked true w; ok (phase w'))
        ≡ phase_step name tracked (is_pos ret_op opcode) (phase w)
  unfolding trace_logger_update_status
  phase-update_status name opcode tracked w named c = ground arith

  -- It keeps the state coherent, and leaves a trace only while it logs.
  pub update_status-IsCoherent :
      (name : Text) (opcode : ℤ) (tracked : Bool) (w w' : World z)
      → is_empty name ≡ false
      → IsCoherent w
      → trace_logger_update_status name opcode tracked true w ≡ ok w'
      → IsCoherent w' × (phase w' ≡ idle → w'.trace ≡ none)
  unfolding trace_logger_update_status
  update_status-IsCoherent name opcode tracked w w' named c e = ground arith
