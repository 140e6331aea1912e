-- ===== src/Runtime/Calls.antt =====
-- Any sequence of the calls that a thread makes of profile-func/trace_logger.cpp, against the
-- machine with two phases.
use llvm_tracer.Prelude.{
  replicate, ◌+◌, ◌/◌, ℕ, ℤ, pos, Bool, true, false, ◌≡◌, ap, ◌∙◌, sym, Text, is_pos, arith,
}
use llvm_tracer.Prelude.{List, [], ◌∷◌, All, if◌then◌else◌}
use llvm_tracer.Prelude.Decimal.{show_int, show_hex}
use llvm_tracer.Prelude.Result.{Result, ok, ◌>>=◌, >>=-eq-ok}
use llvm_tracer.Runtime.Gz.{Gz}
use llvm_tracer.Runtime.State.{World, ret_op}
use llvm_tracer.Runtime.Files.{llvmtracer_set_trace_name, open_trace_file}
use llvm_tracer.Runtime.Status.{trace_logger_update_status, is_empty, does_not_log}
use llvm_tracer.Runtime.Lines.{
  Operand, create_if_missing, trace_logger_log_entry, print_entry, print_operand, print_first_line,
  print_vector, trace_logger_log0, trace_logger_log_int, trace_logger_log_ptr,
  trace_logger_log_string, trace_logger_log_double, trace_logger_log_vector,
}
use llvm_tracer.Runtime.Hex.{convert_bytes_to_hex, c_string}
use llvm_tracer.Runtime.Phase.{
  Phase, phase, IsCoherent, phase_step, phase-update_status, update_status-IsCoherent,
}
use llvm_tracer.Runtime.Log.{
  Line, first, int_value, ptr_value, string_value, double_value, vector_value, log_line,
}

pub data Call (Double : Type 0) : Type 0 where
  updates : Text → ℤ → Bool → Call Double
  enters : Text → ℤ → Call Double
  prints : Line Double → Call Double
  names : Text → Call Double

module _ {Double : Type 0} (show_double : Double → Text) {z : Gz} where
  unfoldable pub run_call : Bool → Call Double → World z → Result (World z)
  run_call mode (updates name opcode tracked) w =
      trace_logger_update_status name opcode tracked mode w
  run_call mode (enters name n) w = trace_logger_log_entry name n w
  run_call mode (prints l) w = log_line show_double l w
  run_call mode (names name) w = llvmtracer_set_trace_name name w

  unfoldable pub run_calls : Bool → List (Call Double) → World z → Result (World z)
  run_calls mode [] w = ok w
  run_calls mode (c ∷ cs) w = run_call mode c w >>= run_calls mode cs

-- Only the status calls move the machine.
abbrev pub call_step : {Double : Type 0} → Call Double → Phase → Result Phase
call_step (updates name opcode tracked) p = phase_step name tracked (is_pos ret_op opcode) p
call_step _ p = ok p

abbrev pub call_steps : {Double : Type 0} → List (Call Double) → Phase → Result Phase
call_steps [] p = ok p
call_steps (c ∷ cs) p = call_step c p >>= call_steps cs

abbrev pub IsNamed : {Double : Type 0} → Call Double → Type 0
IsNamed (updates name opcode tracked) = is_empty name ≡ false
IsNamed (enters name n) = Unit {0}
IsNamed (prints l) = Unit {0}
IsNamed (names name) = Unit {0}

-- The phase and the coherence read the status and the function of the trace alone.
abbrev SamePhase : {z : Gz} → World z → World z → Type 0
SamePhase w w' = (phase w' ≡ phase w) × (IsCoherent w → IsCoherent w')

module _ {z : Gz} where
  open_trace_file-SamePhase : (w w' : World z) → open_trace_file w ≡ ok w' → SamePhase w w'
  unfolding open_trace_file
  open_trace_file-SamePhase w w' e = ground arith

  print_entry-SamePhase :
      (name : Text) (n : ℤ) (w w' : World z) → print_entry name n w ≡ ok w' → SamePhase w w'
  unfolding print_entry
  print_entry-SamePhase name n w w' e =
      let (o, opened, rest) = >>=-eq-ok (open_trace_file w) _ e in
      let (same, keeps) = open_trace_file-SamePhase w o opened in ground (arith, same, keeps)

  print_operand-SamePhase :
      (o : Operand) (value : Text) (w w' : World z)
      → print_operand o value w ≡ ok w'
      → SamePhase w w'
  unfolding print_operand
  print_operand-SamePhase o value w w' e = ground arith

  print_vector-SamePhase :
      (size : ℕ) (value : Text) (o : Operand) (w w' : World z)
      → print_vector size value o w ≡ ok w'
      → SamePhase w w'
  unfolding print_vector
  print_vector-SamePhase size value o w w' e =
      let (s, _, printed) =
        >>=-eq-ok (convert_bytes_to_hex (replicate (size / 4 + 3) 0) value (size / 8)) _ e in
      print_operand-SamePhase (record o { size = pos size }) (c_string s) w w' printed

  print_first_line-SamePhase :
      (line : ℤ) (name bbid instid : Text) (opcode : ℤ) (w w' : World z)
      → print_first_line line name bbid instid opcode w ≡ ok w'
      → SamePhase w w'
  unfolding print_first_line
  print_first_line-SamePhase line name bbid instid opcode w w' e = ground arith

  set_trace_name-SamePhase :
      (name : Text) (w w' : World z) → llvmtracer_set_trace_name name w ≡ ok w' → SamePhase w w'
  unfolding llvmtracer_set_trace_name
  set_trace_name-SamePhase name w w' e = ground arith

  -- A printing call that is not suppressed.
  unless_suppressed :
      (printed : Result (World z)) (w w' : World z)
      → ((v : World z) → printed ≡ ok v → SamePhase w v)
      → (if does_not_log w then ok w else printed) ≡ ok w'
      → SamePhase w w'
  unless_suppressed printed w w' h e = ground (arith, h w')

  create_if_missing-SamePhase : (w w' : World z) → create_if_missing w ≡ ok w' → SamePhase w w'
  unfolding create_if_missing
  create_if_missing-SamePhase w w' e = ground arith

  log_entry-SamePhase :
      (name : Text) (n : ℤ) (w w' : World z)
      → trace_logger_log_entry name n w ≡ ok w'
      → SamePhase w w'
  unfolding trace_logger_log_entry
  log_entry-SamePhase name n w w' e =
      let (u, made, rest) = >>=-eq-ok (create_if_missing w) _ e in
      let (same, keeps) = create_if_missing-SamePhase w u made in
      let (same', keeps') =
        unless_suppressed (print_entry name n u) u w' (print_entry-SamePhase name n u) rest in
      (same' ∙ same, λ c. keeps' (keeps c))

  log_line-SamePhase :
      {Double : Type 0} (show_double : Double → Text) (l : Line Double) (w w' : World z)
      → log_line show_double l w ≡ ok w'
      → SamePhase w w'
  unfolding log_line trace_logger_log0 trace_logger_log_int trace_logger_log_ptr
      trace_logger_log_string trace_logger_log_double trace_logger_log_vector
  log_line-SamePhase show_double (first line name bbid instid opcode) w w' e =
      unless_suppressed _ w w' (λ v. print_first_line-SamePhase line name bbid instid opcode w v) e
  log_line-SamePhase show_double (int_value value o) w w' e =
      unless_suppressed _ w w' (λ v. print_operand-SamePhase o (show_int value) w v) e
  log_line-SamePhase show_double (ptr_value value o) w w' e =
      unless_suppressed _ w w' (λ v. print_operand-SamePhase o (show_hex value) w v) e
  log_line-SamePhase show_double (string_value value o) w w' e =
      unless_suppressed _ w w' (λ v. print_operand-SamePhase o value w v) e
  log_line-SamePhase show_double (double_value value o) w w' e =
      unless_suppressed _ w w' (λ v. print_operand-SamePhase o (show_double value) w v) e
  log_line-SamePhase show_double (vector_value size memory o) w w' e =
      unless_suppressed _ w w' (λ v. print_vector-SamePhase size memory o w v) e

module _ {Double : Type 0} (show_double : Double → Text) {z : Gz} where
  run_call-phase :
      (c : Call Double) (w w' : World z)
      → IsNamed c
      → IsCoherent w
      → run_call show_double true c w ≡ ok w'
      → (call_step c (phase w) ≡ ok (phase w')) × IsCoherent w'
  unfolding run_call
  run_call-phase (updates name opcode tracked) w w' named c e = (
    sym (phase-update_status name opcode tracked w named c) ∙ rw e,
    (update_status-IsCoherent name opcode tracked w w' named c e).0,
  )
  run_call-phase (enters name n) w w' named c e =
      let (s, k) = log_entry-SamePhase name n w w' e in (ap ok (sym s), k c)
  run_call-phase (prints l) w w' named c e =
      let (s, k) = log_line-SamePhase show_double l w w' e in (ap ok (sym s), k c)
  run_call-phase (names name) w w' named c e =
      let (s, k) = set_trace_name-SamePhase name w w' e in (ap ok (sym s), k c)

  -- Under top-level mode, a run of calls of named functions that the program survives, from a
  -- coherent state, takes the machine through the steps of its status calls, and keeps the state
  -- coherent.
  pub run_calls-phase :
      (cs : List (Call Double)) (w w' : World z)
      → All IsNamed cs
      → IsCoherent w
      → run_calls show_double true cs w ≡ ok w'
      → (call_steps cs (phase w) ≡ ok (phase w')) × IsCoherent w'
  unfolding run_calls
  run_calls-phase [] w w' named c e = (ground arith, ground arith)
  run_calls-phase (k ∷ ks) w w' named c e =
      let (u, step, rest) = >>=-eq-ok (run_call show_double true k w) _ e in
      let (moved, c') = run_call-phase k w u named.0 c step in
      let (steps, kept) = run_calls-phase ks u w' named.1 c' rest in (rw moved steps, kept)
