-- ===== src/Pass/BlockTests.antt =====
-- A small function, instrumented and run (full-trace/full_trace.cpp and
-- profile-func/trace_logger.cpp).
use llvm_tracer.Prelude.{
  to_int64, ℕ, pos, negsuc, ◌≡◌, refl, ◌⊎◌, true, false, All, Option, none, some, List, [], ◌∷◌,
  Text, codes, text_eq, if◌then◌else◌, arith,
}
use llvm_tracer.Prelude.Dict.{lookup, insert}
use llvm_tracer.Prelude.Decimal.{show_ℕ, show_int, show_hex}
use mathlib.Core.List.Memᴰ.{head, tail}
use llvm_tracer.Prelude.Result.{Result, ok, err, exit_failure, assertion_failed, ◌>>=◌}
use llvm_tracer.Runtime.State.{World, start, default_trace_name, ret_op}
use llvm_tracer.Runtime.Memory.{memory, memory_view, memory-IsLawful, no_files}
use llvm_tracer.Runtime.Status.{trace_logger_update_status}
use llvm_tracer.Runtime.Files.{open_trace_file, section_header, section_footer}
use llvm_tracer.Runtime.Lines.{
  trace_logger_log_entry, trace_logger_log0, trace_logger_log_int, trace_logger_log_ptr, entry_line,
  line_tag,
}
use llvm_tracer.Runtime.Log.{log_line}
use llvm_tracer.Runtime.Session.{run_events, run_event}
use llvm_tracer.Runtime.Session.{Event, IsBackedEvent, IsIdle, session}
use llvm_tracer.Runtime.Session.Content.{Traced, printed}
use llvm_tracer.Runtime.Opening.{CannotOpen}
use llvm_tracer.Pass.Setup.{Tracer, is_tracked_function, runs_on_basic_block}
use llvm_tracer.Pass.Sizes.{IrType, integer, unknown}
use llvm_tracer.Pass.Ids.{Value, other_debug}
use llvm_tracer.Pass.Opcodes.{opcode_to_fixed_point}
use llvm_tracer.Pass.Inserted.{TypedValue, no_string}
use llvm_tracer.Pass.Handlers.{IrOperand, return_inst, other_inst, Instruction}
use llvm_tracer.Pass.Blocks.{BasicBlock, BlockItem, Function, Instrumented, run_on_function}
use llvm_tracer.Pass.Execution.{Values}
use llvm_tracer.Pass.Sessions.{Visit, run_call, call_body, IsTopLevel, IsVisit}
use llvm_tracer.Pass.CallSession.{run_call-session, run_call-Traced}
use llvm_tracer.Pass.Names.{
  any_name, is_dma_function, is_host_mem_function, is_set_sampling_factor, to_fxpt, occurs_up_to,
  starts_with,
}
use mathlib.Core.List.{Memᴰ}
use llvm_tracer.Prelude.{zip, map, get_elem?, ◌↔◌}
use llvm_tracer.Pass.VectorBuffers.{
  VectorType, VectorStore, create_vec_buf_key, create_vector_args, no_buffers, IsPlain,
  store_vector, create_vector_args-buffers,
}
use llvm_tracer.Pass.Tests.{llvm_opcodes, primitive_size, no_names, f_args}

-- No program of these tests prints a floating-point value.
abbrev show_none : Unit {0} → Text
show_none d = []

abbrev pub tracer : Tracer
tracer = record {
  is_toplevel_mode = true;
  tracked_functions = (codes "f", tt) ∷ [];
  mangled_name_map = (codes "f", codes "f") ∷ [];
}

abbrev value_named : ℕ → Text → Value
value_named key name = record {
  key = key;
  name = name;
  slot = negsuc 0;
  is_undef = false;
  is_bitcast = false;
  is_pointer = false;
}

abbrev typed_of : Value → IrType → TypedValue
typed_of v t = record {
  value = v;
  type_of = t;
  is_function = false;
  constant_string = no_string;
  pointee = none;
}

abbrev pub n_operand : IrOperand
n_operand = record {
  typed = typed_of (value_named 1 (codes "n")) (integer 32);
  is_instruction = false;
  loop_depth = none;
}

-- `%r = add i32 %n, %n`
abbrev pub add_inst : Instruction
add_inst = record {
  typed = typed_of (value_named 10 (codes "r")) (integer 32);
  opcode = 11;
  kind = other_inst;
  operands = n_operand ∷ n_operand ∷ [];
  has_result = true;
  is_terminator = false;
  debug_loc = some 12;
  debug = other_debug;
}

-- `ret void`
abbrev pub ret_inst : Instruction
ret_inst = record {
  typed = typed_of (value_named 11 []) (unknown 0);
  opcode = 1;
  kind = return_inst;
  operands = [];
  has_result = false;
  is_terminator = true;
  debug_loc = none;
  debug = other_debug;
}

abbrev pub first_block : BasicBlock
first_block = record {
  value = value_named 20 (codes "entry");
  loop_depth = 0;
  phis = [];
  pads = [];
  insts = add_inst ∷ [];
}

abbrev pub last_block : BasicBlock
last_block = record {
  value = value_named 21 (codes "exit");
  loop_depth = 0;
  phis = [];
  pads = [];
  insts = ret_inst ∷ [];
}

abbrev f : Function
f = record {
  name = codes "f";
  args = f_args;
  debug_infos = [];
  preheaders = [];
  blocks = first_block ∷ last_block ∷ [];
}

abbrev fresh : Instrumented
fresh = record { func_modified = false; entry_calls = []; blocks = []; tables = no_names }

abbrev first_of : List (List BlockItem) → List BlockItem
first_of (b ∷ blocks) = b
first_of [] = []

abbrev second_of : List (List BlockItem) → List BlockItem
second_of (b ∷ c ∷ blocks) = c
second_of _ = []

abbrev result_of : Result (Option Instrumented) → Instrumented
result_of (ok (some i)) = i
result_of _ = fresh

unfoldable instrumented_f : Instrumented
instrumented_f = result_of (run_on_function primitive_size llvm_opcodes tracer f no_names)

instrumented_f-eq :
    run_on_function primitive_size llvm_opcodes tracer f no_names ≡ ok (some instrumented_f)
unfolding instrumented_f run_on_function any_name is_dma_function is_host_mem_function
    is_set_sampling_factor to_fxpt text_eq show_ℕ lookup
instrumented_f-eq = refl

abbrev vector_of : ℕ → VectorType
vector_of bits = record { num_elements = 4; element_type = 13; element_bits = bits; pointee = none }

-- `<4 x i32>`, `<4 x i1>`, `<4 x i4>` and `<4 x i32>` again
abbrev four_vectors : List VectorType
four_vectors = vector_of 32 ∷ vector_of 1 ∷ vector_of 4 ∷ vector_of 32 ∷ []

small_elements_share :
    map (λ (a : VectorStore). a.buffer) (create_vector_args four_vectors no_buffers).0
    ≡ 0 ∷ 1 ∷ 1 ∷ 0 ∷ []
unfolding create_vector_args
small_elements_share = refl

abbrev pointers_to : ℕ → VectorType
pointers_to n = record { num_elements = 2; element_type = 8; element_bits = 0; pointee = some n }

-- `<2 x i8*>` and `<2 x i32*>`
pointer_vectors_clash :
    (store_vector (pointers_to 8) no_buffers >>= store_vector (pointers_to 32))
    ≡ err assertion_failed
unfolding store_vector
pointer_vectors_clash = refl

create_vector_args-buffers_example :
    ((t : VectorType) (a : VectorStore)
      → Memᴰ (t, a) (zip four_vectors (create_vector_args four_vectors no_buffers).0)
      → (u : VectorType) × (get_elem?
            (create_vector_args four_vectors no_buffers).1.allocas
            a.buffer
          ≡ some u)
        × (create_vec_buf_key u ≡ create_vec_buf_key t)
        × (IsPlain u → IsPlain t → u ≡ t))
    × ((t t' : VectorType) (a a' : VectorStore)
        → Memᴰ (t, a) (zip four_vectors (create_vector_args four_vectors no_buffers).0)
        → Memᴰ (t', a') (zip four_vectors (create_vector_args four_vectors no_buffers).0)
        → (create_vec_buf_key t ≡ create_vec_buf_key t') ↔ (a.buffer ≡ a'.buffer))
create_vector_args-buffers_example = create_vector_args-buffers four_vectors

abbrev values : Values (Unit {0})
values = record {
  int_of = λ v. pos v.key;
  double_of = λ v. tt;
  ptr_of = λ v. 4096;
  memory_of = λ v. [];
}

abbrev nothing : Instruction → List (Event (Unit {0}))
nothing inst = []

abbrev first_visit : Visit (Unit {0})
first_visit = record {
  block = first_block;
  items = first_of instrumented_f.blocks;
  values = values;
  inside = nothing;
}

abbrev last_visit : Visit (Unit {0})
last_visit = record {
  block = last_block;
  items = second_of instrumented_f.blocks;
  values = values;
  inside = nothing;
}

labelled : World memory
labelled = record (start memory no_files) { labelmap_str = codes "f/loop 12\n" }

written : Result (World memory) → Text
written (ok w) = w.disk.text 0
written (err e) = []

run_f : Text
run_f = written (run_call show_none values instrumented_f (first_visit ∷ []) last_visit labelled)

f-IsTopLevel : IsTopLevel tracer (codes "f")
unfolding is_tracked_function runs_on_basic_block lookup text_eq is_dma_function
    is_host_mem_function is_set_sampling_factor any_name
f-IsTopLevel = (refl, refl, refl, refl)

labelled-IsIdle : IsIdle memory_view labelled
unfolding lookup labelled
labelled-IsIdle = record {
  unlocked = refl;
  waits = refl;
  nameless = refl;
  registered = record { opened = λ n f e. cc; distinct = λ n m f e h. cc };
}

first_visit-IsVisit : IsVisit f instrumented_f first_visit
unfolding instrumented_f run_on_function any_name is_dma_function is_host_mem_function
    is_set_sampling_factor to_fxpt text_eq show_ℕ lookup
first_visit-IsVisit = head refl

last_visit-IsVisit : IsVisit f instrumented_f last_visit
unfolding instrumented_f run_on_function any_name is_dma_function is_host_mem_function
    is_set_sampling_factor to_fxpt text_eq show_ℕ lookup
last_visit-IsVisit = tail (head refl)

ret-opcode : (if to_fxpt (codes "f") then opcode_to_fixed_point llvm_opcodes 1 else 1) ≡ ret_op
unfolding to_fxpt occurs_up_to starts_with
ret-opcode = refl

body-IsBacked : All IsBackedEvent (call_body values instrumented_f (first_visit ∷ []) last_visit)
unfolding instrumented_f run_on_function any_name is_dma_function is_host_mem_function
    is_set_sampling_factor to_fxpt text_eq show_ℕ lookup
body-IsBacked = omega arith

run_call-session_example :
    run_call show_none values instrumented_f (first_visit ∷ []) last_visit labelled
    ≡ session show_none
        (codes "f")
        (pos 2)
        (call_body values instrumented_f (first_visit ∷ []) last_visit)
        labelled
run_call-session_example =
    run_call-session show_none primitive_size llvm_opcodes tracer f no_names instrumented_f values
      (first_visit ∷ []) last_visit labelled f-IsTopLevel instrumented_f-eq
      ((first_visit-IsVisit, (refl, tt)), tt)
      ([], ret_inst, last_visit-IsVisit, refl, tt, refl, refl, refl, ret-opcode)

run_f_text :
    run_f
    ≡ codes
        "%%%% LABEL MAP START %%%%\nf/loop 12\n%%%% LABEL MAP END %%%%\n\n\nentry,f,2,\n1,64,0x1000,1,p,\n2,32,1,1,loop,\n\n0,12,f,entry:0,r,11,0\n2,32,1,1,n,\n1,32,1,1,n,\nr,32,10,1,r,\n\n0,-1,f,exit:0,exit:0-0,1,1\n"
unfolding run_f instrumented_f run_call written run_on_function lookup insert text_eq
    is_dma_function is_host_mem_function is_set_sampling_factor show_ℕ show_int
    trace_logger_update_status labelled trace_logger_log_entry open_trace_file run_events run_event
    log_line trace_logger_log_ptr trace_logger_log_int trace_logger_log0 section_header
    section_footer entry_line to_int64 line_tag to_fxpt show_hex
run_f_text = refl

run_call-Traced_example :
    ((run_call show_none values instrumented_f (first_visit ∷ []) last_visit labelled
        ≡ err exit_failure)
      × CannotOpen default_trace_name labelled)
    ⊎ ((w' : World memory) × (run_call show_none values instrumented_f
            (first_visit ∷ [])
            last_visit
            labelled
          ≡ ok w')
        × Traced memory_view default_trace_name
            (printed show_none
              (codes "f")
              (pos 2)
              (call_body values instrumented_f (first_visit ∷ []) last_visit)
              labelled)
            labelled
            w')
unfolding text_eq labelled
run_call-Traced_example =
    run_call-Traced show_none primitive_size llvm_opcodes tracer f no_names instrumented_f values
      (first_visit ∷ []) last_visit labelled memory-IsLawful f-IsTopLevel instrumented_f-eq
      ((first_visit-IsVisit, (refl, tt)), tt)
      ([], ret_inst, last_visit-IsVisit, refl, tt, refl, refl, refl, ret-opcode) refl body-IsBacked
      labelled-IsIdle
