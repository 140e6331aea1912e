-- ===== src/Runtime/Unopened.antt =====
-- Tracing without an entry line: `trace_logger_log_entry` is the only call that opens a file, and
-- full-trace/full_trace.cpp inserts it in top-level mode alone.
use llvm_tracer.Prelude.{
  ℕ, ℤ, ◌+◌, ◌/◌, ◌≤◌, Bool, true, false, ◌≡◌, refl, Text, arith, length, length-replicate,
  replicate,
}
use llvm_tracer.Prelude.{none, some, List, [], ◌∷◌, All, Bool-cases, inl, inr, pos}
use llvm_tracer.Prelude.Decimal.{show_int, show_hex}
use llvm_tracer.Prelude.Result.{Result, ok, err, bad_file, ◌>>=◌, >>=-eq-ok}
use llvm_tracer.Runtime.Gz.{Gz}
use llvm_tracer.Runtime.State.{World}
use llvm_tracer.Runtime.Files.{llvmtracer_set_trace_name}
use llvm_tracer.Runtime.Status.{trace_logger_update_status, does_not_log}
use llvm_tracer.Runtime.Hex.{convert_bytes_to_hex, c_string}
use llvm_tracer.Runtime.Printing.{convert_bytes_to_hex_fits}
use llvm_tracer.Runtime.Lines.{
  Operand, print_operand, print_first_line, print_vector, trace_logger_log0, trace_logger_log_int,
  trace_logger_log_ptr, trace_logger_log_string, trace_logger_log_double, trace_logger_log_vector,
}
use llvm_tracer.Runtime.Log.{
  Line, first, int_value, ptr_value, string_value, double_value, vector_value, IsBacked, log_line,
}
use llvm_tracer.Runtime.Calls.{Call, updates, enters, prints, names, run_call, run_calls}

abbrev pub HasNoFile : {z : Gz} → World z → Type 0
HasNoFile w = elim w.trace [ none ↦ Unit {0} | some t ↦ t.trace_file ≡ none ]

abbrev pub IsNoEntry : {Double : Type 0} → Call Double → Type 0
IsNoEntry (enters name n) = ⊥
IsNoEntry (updates name opcode tracked) = Unit {0}
IsNoEntry (prints l) = Unit {0}
IsNoEntry (names name) = Unit {0}

module _ {z : Gz} where
  print_operand-bad_file :
      (o : Operand) (value : Text) (w : World z)
      → HasNoFile w
      → does_not_log w ≡ false
      → print_operand o value w ≡ err bad_file
  unfolding print_operand does_not_log
  print_operand-bad_file o value w h d = ground arith

  print_first_line-bad_file :
      (line : ℤ) (name bbid instid : Text) (opcode : ℤ) (w : World z)
      → HasNoFile w
      → does_not_log w ≡ false
      → print_first_line line name bbid instid opcode w ≡ err bad_file
  unfolding print_first_line does_not_log
  print_first_line-bad_file line name bbid instid opcode w h d = ground arith

  print_vector-bad_file :
      (size : ℕ) (memory : Text) (o : Operand) (w : World z)
      → size / 8 ≤ length memory
      → HasNoFile w
      → does_not_log w ≡ false
      → print_vector size memory o w ≡ err bad_file
  unfolding print_vector
  print_vector-bad_file size memory o w b h d =
      let (buf, converted, _, _) =
        convert_bytes_to_hex_fits (replicate (size / 4 + 3) 0) memory (size / 8) b
          (omega (arith, length-replicate {A = ℕ} (size / 4 + 3) 0)) in
      rw converted (print_operand-bad_file (record o { size = pos size }) (c_string buf) w h d)

  print_vector-ne-ok :
      (size : ℕ) (memory : Text) (o : Operand) (w w' : World z)
      → HasNoFile w
      → does_not_log w ≡ false
      → print_vector size memory o w ≡ ok w'
      → ⊥
  unfolding print_vector
  print_vector-ne-ok size memory o w w' h d e =
      let (s, _, printed) =
        >>=-eq-ok (convert_bytes_to_hex (replicate (size / 4 + 3) 0) memory (size / 8)) _ e in
      cc (print_operand-bad_file (record o { size = pos size }) (c_string s) w h d, printed)

  update_status-HasNoFile :
      (name : Text) (opcode : ℤ) (tracked mode : Bool) (w w' : World z)
      → HasNoFile w
      → trace_logger_update_status name opcode tracked mode w ≡ ok w'
      → HasNoFile w'
  unfolding trace_logger_update_status
  update_status-HasNoFile name opcode tracked mode w w' h e = ground arith

  set_trace_name-HasNoFile :
      (name : Text) (w w' : World z)
      → HasNoFile w
      → llvmtracer_set_trace_name name w ≡ ok w'
      → HasNoFile w'
  unfolding llvmtracer_set_trace_name
  set_trace_name-HasNoFile name w w' h e = ground arith

-- In this mode the status call of a listed function always succeeds, and turns logging on.
update_starts :
    {z : Gz} (name : Text) (opcode : ℤ) (w : World z)
    → (w' : World z) × (trace_logger_update_status name opcode true false w ≡ ok w')
      × (does_not_log w' ≡ false)
unfolding trace_logger_update_status does_not_log
update_starts {z} name opcode w = start (trace_logger_update_status name opcode true false w) refl
  where
    start :
        (r : Result (World z))
        → trace_logger_update_status name opcode true false w ≡ r
        → (w' : World z) × (trace_logger_update_status name opcode true false w ≡ ok w')
          × (does_not_log w' ≡ false)
    start (ok u) e = (u, e, ground arith)
    start (err f) e = absurd (ground arith)

module _ {Double : Type 0} (show_double : Double → Text) {z : Gz} where
  log_line-bad_file :
      (l : Line Double) (w : World z)
      → IsBacked l
      → HasNoFile w
      → does_not_log w ≡ false
      → log_line show_double l w ≡ err bad_file
  unfolding log_line trace_logger_log0 trace_logger_log_int trace_logger_log_ptr
      trace_logger_log_string trace_logger_log_double trace_logger_log_vector
  log_line-bad_file (first line name bbid instid opcode) w b h d =
      rw d (print_first_line-bad_file line name bbid instid opcode w h d)
  log_line-bad_file (int_value value o) w b h d =
      rw d (print_operand-bad_file o (show_int value) w h d)
  log_line-bad_file (ptr_value value o) w b h d =
      rw d (print_operand-bad_file o (show_hex value) w h d)
  log_line-bad_file (string_value value o) w b h d = rw d (print_operand-bad_file o value w h d)
  log_line-bad_file (double_value value o) w b h d =
      rw d (print_operand-bad_file o (show_double value) w h d)
  log_line-bad_file (vector_value size memory o) w b h d =
      rw d (print_vector-bad_file size memory o w b h d)

  log_line_suppressed :
      (l : Line Double) (w : World z) → does_not_log w ≡ true → log_line show_double l w ≡ ok w
  unfolding log_line trace_logger_log0 trace_logger_log_int trace_logger_log_ptr
      trace_logger_log_string trace_logger_log_double trace_logger_log_vector
  log_line_suppressed (first line name bbid instid opcode) w d = rw d
  log_line_suppressed (int_value value o) w d = rw d
  log_line_suppressed (ptr_value value o) w d = rw d
  log_line_suppressed (string_value value o) w d = rw d
  log_line_suppressed (double_value value o) w d = rw d
  log_line_suppressed (vector_value size memory o) w d = rw d

  log_line-ne-ok :
      (l : Line Double) (w w' : World z)
      → HasNoFile w
      → does_not_log w ≡ false
      → log_line show_double l w ≡ ok w'
      → ⊥
  unfolding log_line trace_logger_log_vector
  log_line-ne-ok (first line name bbid instid opcode) w w' h d e =
      cc (log_line-bad_file (first line name bbid instid opcode) w tt h d, e)
  log_line-ne-ok (int_value value o) w w' h d e =
      cc (log_line-bad_file (int_value value o) w tt h d, e)
  log_line-ne-ok (ptr_value value o) w w' h d e =
      cc (log_line-bad_file (ptr_value value o) w tt h d, e)
  log_line-ne-ok (string_value value o) w w' h d e =
      cc (log_line-bad_file (string_value value o) w tt h d, e)
  log_line-ne-ok (double_value value o) w w' h d e =
      cc (log_line-bad_file (double_value value o) w tt h d, e)
  log_line-ne-ok (vector_value size memory o) w w' h d e =
      print_vector-ne-ok size memory o w w' h d (rw d at e)

  log_line_unopened :
      (l : Line Double) (w w' : World z)
      → HasNoFile w
      → log_line show_double l w ≡ ok w'
      → does_not_log w ≡ true
  log_line_unopened l w w' h e = elim (Bool-cases (does_not_log w)) [
    | inl d ↦ d
    | inr d ↦ absurd (log_line-ne-ok l w w' h d e)
  ]

  run_call-HasNoFile :
      (mode : Bool) (c : Call Double) (w w' : World z)
      → IsNoEntry c
      → HasNoFile w
      → run_call show_double mode c w ≡ ok w'
      → HasNoFile w'
  unfolding run_call
  run_call-HasNoFile mode (updates name opcode tracked) w w' q h e =
      update_status-HasNoFile name opcode tracked mode w w' h e
  run_call-HasNoFile mode (enters name n) w w' q h e = absurd q
  run_call-HasNoFile mode (prints l) w w' q h e =
      ground (arith, log_line_suppressed l w (log_line_unopened l w w' h e))
  run_call-HasNoFile mode (names name) w w' q h e = set_trace_name-HasNoFile name w w' h e

  run_calls-HasNoFile :
      (mode : Bool) (cs : List (Call Double)) (w w' : World z)
      → All IsNoEntry cs
      → HasNoFile w
      → run_calls show_double mode cs w ≡ ok w'
      → HasNoFile w'
  unfolding run_calls
  run_calls-HasNoFile mode [] w w' q h e = ground arith
  run_calls-HasNoFile mode (c ∷ cs) w w' q h e =
      let (u, step, rest) = >>=-eq-ok (run_call show_double mode c w) _ e in
      run_calls-HasNoFile mode cs u w' q.1 (run_call-HasNoFile mode c w u q.0 h step) rest

  -- Without an entry line no file is ever opened. So in the mode that traces only the listed
  -- functions, from a state without an open file and after any run of other calls that the program
  -- survives, the status call of a listed function turns logging on, and the next printing call
  -- (of a vector: with its bytes in memory) uses a stream that was never set.
  pub unopened_print_fails :
      (cs : List (Call Double)) (name : Text) (opcode : ℤ) (l : Line Double) (w w' : World z)
      → All IsNoEntry cs
      → HasNoFile w
      → IsBacked l
      → run_calls show_double false cs w ≡ ok w'
      → (do
        logging ← trace_logger_update_status name opcode true false w'
        log_line show_double l logging)
        ≡ err bad_file
  unopened_print_fails cs name opcode l w w' q h b ran =
      let (u, updated, logs) = update_starts name opcode w' in
      let opened = run_calls-HasNoFile false cs w w' q h ran in
      rw updated (
        log_line-bad_file l u b (update_status-HasNoFile name opcode true false w' u opened updated)
          logs)
