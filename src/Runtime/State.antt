-- ===== src/Runtime/State.antt =====
-- The globals of profile-func/trace_logger.cpp and the types of trace_logger.h.
use llvm_tracer.Prelude.{ℕ, Bool, true, false, Option, none, [], Text, codes}
use llvm_tracer.Prelude.Dict.{Dict}
use llvm_tracer.Prelude.Result.{Result, or_fault, bad_pointer, bad_file}
use llvm_tracer.Runtime.Gz.{Gz}

abbrev pub result_line : ℕ
result_line = 19134

abbrev pub forward_line : ℕ
forward_line = 24601

abbrev pub ret_op : ℕ
ret_op = 1

abbrev pub default_trace_name : Text
default_trace_name = codes "dynamic_trace.gz"

pub data LoggingStatus : Type 0 where
  log_and_continue do_not_log : LoggingStatus

abbrev pub is_do_not_log : LoggingStatus → Bool
is_do_not_log log_and_continue = false
is_do_not_log do_not_log = true

-- `trace_file` is `none` until `open_trace_file` sets it: the constructor leaves it
-- uninitialised. `inst_count` is the bit pattern of an `int64_t`.
pub record TraceInfo (File : Type 0) : Type 0 where
  pub trace_name : Text
  pub trace_file : Option File
  pub inst_count : ℕ
  pub current_toplevel_function : Text
  pub current_logging_status : LoggingStatus

abbrev pub trace_info : {File : Type 0} → Text → TraceInfo File
trace_info name = record {
  trace_name = name;
  trace_file = none;
  inst_count = 0;
  current_toplevel_function = [];
  current_logging_status = do_not_log;
}

-- What one thread sees: its own `trace`, and what all threads share.
pub record World (z : Gz) : Type 0 where
  pub trace : Option (TraceInfo z.File)
  pub gz_files : Dict z.File
  pub locked : Bool
  pub labelmap_str : Text
  pub disk : z.Disk
  pub stdout : Text
  pub at_exit : Bool

-- `trace->…` needs a trace, and a call of zlib a stream.
abbrev pub the_trace : {z : Gz} → World z → Result (TraceInfo z.File)
the_trace w = or_fault w.trace bad_pointer

abbrev pub the_file : {File : Type 0} → TraceInfo File → Result File
the_file t = or_fault t.trace_file bad_file

abbrev pub start : (z : Gz) → z.Disk → World z
start z d = record {
  trace = none;
  gz_files = [];
  locked = false;
  labelmap_str = [];
  disk = d;
  stdout = [];
  at_exit = false;
}
