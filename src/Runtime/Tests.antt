-- ===== src/Runtime/Tests.antt =====
-- Runs over streams in memory, and the theorems at concrete data.
use llvm_tracer.Prelude.{
  ℕ, pos, negsuc, true, false, ◌≡◌, refl, ◌⊎◌, ◌↔◌, Text, codes, text_eq, none, some, arith, List,
  [], ◌∷◌, ◌++◌, length, to_int64,
}
use llvm_tracer.Prelude.Decimal.{show_int}
use llvm_tracer.Prelude.Dict.{lookup, insert}
use llvm_tracer.Prelude.Result.{
  Result, Fault, ok, err, ◌>>=◌, exit_failure, bad_file, buffer_overflow,
}
use llvm_tracer.Runtime.State.{
  World, TraceInfo, start, trace_info, default_trace_name, log_and_continue,
}
use llvm_tracer.Runtime.Memory.{memory, memory_view, memory-IsLawful, no_files}
use llvm_tracer.Runtime.Files.{
  open_trace_file, llvmtracer_set_trace_name, fin_main, section_header, section_footer,
}
use llvm_tracer.Runtime.Hex.{convert_bytes_to_hex, c_string}
use llvm_tracer.Runtime.Status.{trace_logger_update_status, log_or_not}
use llvm_tracer.Runtime.Lines.{
  Operand, trace_logger_log_entry, entry_line, line_tag, trace_logger_log0, trace_logger_log_int,
}
use llvm_tracer.Runtime.Table.{log_or_not-table, behave, table}
use llvm_tracer.Runtime.Phase.{idle}
use llvm_tracer.Runtime.Opening.{CannotOpen, Opens, open_trace_file-Opens}
use llvm_tracer.Runtime.Printing.{
  hex_text, convert_bytes_to_hex_fits, convert_bytes_to_hex_overflows,
}
use llvm_tracer.Runtime.Log.{first, int_value, vector_value, operand_line, Line, log_line}
use llvm_tracer.Runtime.Session.{Event, prints, returns, session, run_event, IsIdle, beginning}
use llvm_tracer.Runtime.Session.Content.{session-Traced, printed, Traced}
use llvm_tracer.Runtime.Log.{IsLogging, Adds, log_line-Adds, line_text}
use llvm_tracer.Runtime.Phase.{IsCoherent, tracing}
use llvm_tracer.Runtime.Fields.{
  HasPlainTexts, SameOperand, fields, fields-operand_line, operand_line_inj,
}
use llvm_tracer.Runtime.Misuse.{nested_calls, nested_calls_fail, untracked_return_forgets_name}
use llvm_tracer.Runtime.Unopened.{unopened_print_fails}
use llvm_tracer.Runtime.Closing.{ClosesOpen, fin_main-closes}
use llvm_tracer.Runtime.Calls.{
  call_steps, Call, updates, enters, names, run_call, run_calls, run_calls-phase,
}

-- No program of these tests prints a floating-point value.
abbrev show_none : Unit {0} → Text
show_none d = []

abbrev sum_operand : Operand
sum_operand = record {
  line = pos 19134;
  size = pos 32;
  is_reg = pos 1;
  label = codes "add";
  is_phi = pos 0;
  prev_bbid = codes "phi";
}

abbrev body : List (Event (Unit {0}))
body =
    prints (first (pos 12) (codes "top") (codes "0:0") (codes "add") (pos 11))
    ∷ prints (int_value (negsuc 4) sum_operand)
    ∷ returns (codes "helper")
    ∷ prints (first (negsuc 0) (codes "top") (codes "0:0") (codes "0:0-0") (pos 1))
    ∷ []

abbrev labelled : World memory
labelled = record (start memory no_files) { labelmap_str = codes "top/loop 12\n" }

written : Result (World memory) → Text
written (ok w) = w.disk.text 0
written (err e) = []

run_session : Result (World memory)
unfolding session run_event trace_logger_update_status trace_logger_log_entry open_trace_file lookup
    insert log_line
run_session = session show_none (codes "top") (pos 2) body labelled

session_text :
    written run_session
    ≡ codes
        "%%%% LABEL MAP START %%%%\ntop/loop 12\n%%%% LABEL MAP END %%%%\n\n\nentry,top,2,\n\n0,12,top,0:0,add,11,0\nr,32,-5,1,add,\n\n0,-1,top,0:0,0:0-0,1,1\n"
unfolding written run_session trace_logger_log0 trace_logger_log_int text_eq section_header
    section_footer entry_line show_int to_int64 line_tag
session_text = refl

labelled-IsIdle : IsIdle memory_view labelled
unfolding lookup
labelled-IsIdle = record {
  unlocked = refl;
  waits = refl;
  nameless = refl;
  registered = record { opened = λ n f e. cc; distinct = λ n m f e h. cc };
}

session-Traced_example :
    ((session show_none (codes "top") (pos 2) body labelled ≡ err exit_failure)
      × CannotOpen default_trace_name labelled)
    ⊎ ((w' : World memory) × (session show_none (codes "top") (pos 2) body labelled ≡ ok w')
        × Traced memory_view default_trace_name
            (printed show_none (codes "top") (pos 2) body labelled)
            labelled
            w')
session-Traced_example =
    session-Traced show_none memory-IsLawful (codes "top") (pos 2) body labelled refl (omega arith)
      labelled-IsIdle

abbrev top_trace : TraceInfo ℕ
top_trace = trace_info (codes "a.gz")

abbrev named_world : World memory
named_world = record labelled { trace = some top_trace }

open_trace_file-Opens_example :
    ((open_trace_file named_world ≡ err exit_failure) ↔ CannotOpen (codes "a.gz") named_world)
    × ((open_trace_file named_world ≡ err exit_failure)
        ⊎ ((w' : World memory) × (open_trace_file named_world ≡ ok w')
            × Opens memory_view top_trace named_world w'))
open_trace_file-Opens_example =
    open_trace_file-Opens memory-IsLawful named_world top_trace refl refl labelled-IsIdle.registered

abbrev busy_trace : TraceInfo ℕ
busy_trace = record {
  trace_name = codes "a.gz";
  trace_file = some 0;
  inst_count = 7;
  current_toplevel_function = codes "top";
  current_logging_status = log_and_continue;
}

-- One file is open, and a thread logs to it.
abbrev busy : World memory
busy = record {
  trace = some busy_trace;
  gz_files = (codes "a.gz", 0) ∷ [];
  locked = false;
  labelmap_str = [];
  disk = record { next = 1; text = λ f. []; live = λ f. true };
  stdout = [];
  at_exit = true;
}

busy-IsLogging : IsLogging memory_view 0 busy_trace busy
busy-IsLogging = record { has_trace = refl; status = refl; stream = refl; live = refl }

abbrev vector_line : Line (Unit {0})
vector_line = vector_value 16 (250 ∷ 7 ∷ []) sum_operand

log_line-Adds_example :
    (w' : World memory) × (log_line show_none vector_line busy ≡ ok w')
    × Adds memory_view 0 busy_trace (line_text show_none vector_line 7) 7 busy w'
log_line-Adds_example =
    log_line-Adds show_none memory-IsLawful 0 vector_line busy_trace busy (omega arith)
      busy-IsLogging

log_or_not-table_example :
    log_or_not true true (pos 1) (codes "top") busy_trace
    ≡ behave busy_trace (table true true true true)
unfolding text_eq
log_or_not-table_example = log_or_not-table true true (pos 1) (codes "top") busy_trace

abbrev leaving : List (Call (Unit {0}))
leaving = updates (codes "helper") (pos 1) false ∷ updates (codes "top") (pos 1) true ∷ []

left : World memory
left = record busy { trace = none; stdout = codes "a.gz: Stopping logging at inst 7.\n" }

run_calls-phase_example : (call_steps leaving (tracing (codes "top")) ≡ ok idle) × IsCoherent left
unfolding left run_calls run_call trace_logger_update_status text_eq show_int to_int64
run_calls-phase_example = run_calls-phase show_none leaving busy left (refl, (refl, tt)) refl refl

convert_bytes_to_hex_fits_example :
    (buf' : Text) × (convert_bytes_to_hex (1 ∷ 1 ∷ 1 ∷ 1 ∷ 1 ∷ 1 ∷ 1 ∷ []) (250 ∷ 7 ∷ 9 ∷ []) 2
      ≡ ok buf')
    × (c_string buf' ≡ codes "0x" ++ hex_text (250 ∷ 7 ∷ []))
    × (length buf' ≡ 7)
convert_bytes_to_hex_fits_example =
    convert_bytes_to_hex_fits (1 ∷ 1 ∷ 1 ∷ 1 ∷ 1 ∷ 1 ∷ 1 ∷ []) (250 ∷ 7 ∷ 9 ∷ []) 2 (omega arith)
      (omega arith)

convert_bytes_to_hex_overflows_example :
    convert_bytes_to_hex (1 ∷ 1 ∷ 1 ∷ 1 ∷ 1 ∷ 1 ∷ []) (250 ∷ 7 ∷ 9 ∷ []) 2 ≡ err buffer_overflow
convert_bytes_to_hex_overflows_example =
    convert_bytes_to_hex_overflows (1 ∷ 1 ∷ 1 ∷ 1 ∷ 1 ∷ 1 ∷ []) (250 ∷ 7 ∷ 9 ∷ []) 2 (omega arith)
      (omega arith)

sum-HasPlainTexts : HasPlainTexts sum_operand (codes "5")
sum-HasPlainTexts = omega arith

fields-operand_line_example :
    fields (operand_line sum_operand (codes "5"))
    ≡ codes "r" ∷ codes "32" ∷ codes "5" ∷ codes "1" ∷ codes "add" ∷ codes "\n" ∷ []
unfolding line_tag show_int
fields-operand_line_example = fields-operand_line sum_operand (codes "5") sum-HasPlainTexts

operand_line_inj_example : SameOperand sum_operand sum_operand × (codes "5" ≡ codes "5")
operand_line_inj_example =
    operand_line_inj sum_operand sum_operand (codes "5") (codes "5") sum-HasPlainTexts
      sum-HasPlainTexts refl

nested_calls_fail_example :
    (e : Fault) × (run_calls show_none true
        (nested_calls (codes "top") (codes "top") (enters (codes "top") (pos 0) ∷ []) [] [])
        labelled
      ≡ err e)
nested_calls_fail_example =
    nested_calls_fail show_none (codes "top") (codes "top") (enters (codes "top") (pos 0) ∷ []) []
      [] labelled refl refl (tt, tt) tt tt tt refl

untracked_return_forgets_name_example :
    (w' : World memory) × ((do
      named ← llvmtracer_set_trace_name (codes "a.gz") labelled
      trace_logger_update_status (codes "helper") (pos 1) false true named)
      ≡ ok w')
    × (beginning w' ≡ trace_info default_trace_name)
untracked_return_forgets_name_example =
    untracked_return_forgets_name (codes "a.gz") (codes "helper") (pos 1) labelled refl

unopened_print_fails_example :
    (do
      logging ← trace_logger_update_status (codes "f") (pos 1) true false named_world
      log_line show_none vector_line logging)
    ≡ err bad_file
unfolding run_calls run_call llvmtracer_set_trace_name
unopened_print_fails_example =
    unopened_print_fails show_none (names (codes "a.gz") ∷ []) (codes "f") (pos 1) vector_line
      labelled named_world (tt, tt) tt (omega arith) refl

fin_main-closes_example :
    ClosesOpen memory_view busy.gz_files busy.disk
    × ((fin_main busy).trace ≡ none)
    × ((name : Text) (f : ℕ)
        → lookup name busy.gz_files ≡ some f
        → memory_view.is_open f (fin_main busy).disk ≡ false)
    × ((f : ℕ) → memory_view.content f (fin_main busy).disk ≡ memory_view.content f busy.disk)
fin_main-closes_example = fin_main-closes memory-IsLawful busy (refl, tt, tt)
