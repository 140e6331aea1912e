-- ===== src/Runtime/Session.antt =====
-- One call of a top-level function as the instrumented code makes it (profile-func/trace_logger.cpp
-- with the calls that full-trace/full_trace.cpp inserts): the status call and the entry line, the
-- body, and the status call in front of the return.
pub mod Content
use llvm_tracer.Prelude.{ℕ, ◌≡◌, refl, sym, ap, ◌∙◌, ◌≢◌, ◌⊎◌, inl, inr, ℤ, pos, Bool, true, false}
use llvm_tracer.Prelude.{
  Option, none, some, List, [], ◌∷◌, ◌++◌, append_assoc, append-nil, Text, text_eq_refl, codes, All,
  arith, if◌then◌else◌,
}
use llvm_tracer.Prelude.Dict.{lookup}
use llvm_tracer.Prelude.Result.{Result, ok, err, ◌>>=◌, exit_failure}
use llvm_tracer.Runtime.Gz.{Gz, View, IsLawful}
use llvm_tracer.Runtime.State.{
  World, TraceInfo, trace_info, log_and_continue, do_not_log, ret_op, default_trace_name,
}
use llvm_tracer.Runtime.Status.{is_empty, trace_logger_update_status, report, does_not_log}
use llvm_tracer.Runtime.Lines.{entry_line, trace_logger_log_entry}
use llvm_tracer.Runtime.Opening.{IsRegistered, Opens, label_section}
use llvm_tracer.Runtime.Log.{
  Line, IsBacked, log_line, line_text, count_after, log_line-Adds, IsLogging, Adds, Adds-trans,
}

-- What happens inside a top-level function: a printed line, or the return of a callee that is not
-- tracked.
pub data Event (Double : Type 0) : Type 0 where
  prints : Line Double → Event Double
  returns : Text → Event Double

abbrev pub IsBackedEvent : {Double : Type 0} → Event Double → Type 0
IsBackedEvent (prints l) = IsBacked l
IsBackedEvent (returns name) = Unit {0}

-- The calls at the start of a top-level function.
unfoldable pub enter : {z : Gz} → Text → ℤ → World z → Result (World z)
enter func_name num_parameters w = do
  updated ← trace_logger_update_status func_name (pos 0) true true w
  trace_logger_log_entry func_name num_parameters updated

module _ {Double : Type 0} (show_double : Double → Text) where
  unfoldable pub run_event : {z : Gz} → Event Double → World z → Result (World z)
  run_event (prints l) w = log_line show_double l w
  run_event (returns name) w = trace_logger_update_status name (pos ret_op) false true w

  unfoldable pub run_events : {z : Gz} → List (Event Double) → World z → Result (World z)
  run_events [] w = ok w
  run_events (e ∷ es) w = run_event e w >>= run_events es

  -- The lines that are printed, when the instruction count is `n`.
  unfoldable pub events_text : List (Event Double) → ℕ → Text
  events_text [] n = []
  events_text (prints l ∷ es) n = line_text show_double l n ++ events_text es (count_after l n)
  events_text (returns name ∷ es) n = events_text es n

  unfoldable pub session : {z : Gz} → Text → ℤ → List (Event Double) → World z → Result (World z)
  unfolding enter run_events
  session func_name num_parameters body w = do
    entered ← enter func_name num_parameters w
    ran ← run_events body entered
    trace_logger_update_status func_name (pos ret_op) true true ran

-- The trace that a top-level call begins with: the one at hand, or a new one.
abbrev pub beginning : {z : Gz} → World z → TraceInfo z.File
beginning w = elim w.trace [ none ↦ trace_info default_trace_name | some t ↦ t ]

-- Nothing is being traced, and the lock is free.
pub record IsIdle {z : Gz} (v : View z) (w : World z) : Type 0 where
  pub unlocked : w.locked ≡ false
  pub waits : (beginning w).current_logging_status ≡ do_not_log
  pub nameless : (beginning w).current_toplevel_function ≡ []
  pub registered : IsRegistered v w.gz_files w.disk

abbrev pub entered_trace : {File : Type 0} → Text → TraceInfo File → TraceInfo File
entered_trace func_name t = record t {
  current_logging_status = log_and_continue;
  current_toplevel_function = func_name;
}

module _ {z : Gz} where
  abbrev pub entered_world : Text → World z → World z
  entered_world func_name w =
      let t = record (beginning w) { current_logging_status = log_and_continue } in
      record w {
        trace = some (entered_trace func_name (beginning w));
        stdout = w.stdout ++ report do_not_log log_and_continue t;
      }

  abbrev pub left_world : TraceInfo z.File → World z → World z
  left_world t w =
      let stopped = record t { current_logging_status = do_not_log } in
      record w { trace = none; stdout = w.stdout ++ report log_and_continue do_not_log stopped }

  update_enters :
      (func_name : Text) (w : World z)
      → (beginning w).current_logging_status ≡ do_not_log
      → (beginning w).current_toplevel_function ≡ []
      → trace_logger_update_status func_name (pos 0) true true w ≡ ok (entered_world func_name w)
  unfolding trace_logger_update_status
  update_enters func_name w h k = ground arith

  update_leaves :
      (func_name : Text) (w : World z) (t : TraceInfo z.File)
      → is_empty func_name ≡ false
      → w.trace ≡ some t
      → t.current_logging_status ≡ log_and_continue
      → t.current_toplevel_function ≡ func_name
      → trace_logger_update_status func_name (pos ret_op) true true w ≡ ok (left_world t w)
  unfolding trace_logger_update_status
  update_leaves func_name w t named e h k = ground (arith, text_eq_refl func_name)

  update_ignores :
      (name : Text) (w : World z) (t : TraceInfo z.File)
      → is_empty t.current_toplevel_function ≡ false
      → w.trace ≡ some t
      → t.current_logging_status ≡ log_and_continue
      → trace_logger_update_status name (pos ret_op) false true w ≡ ok w
  unfolding trace_logger_update_status
  update_ignores name w t named e h = ground (arith, append-nil w.stdout)
