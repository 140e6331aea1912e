-- ===== src/Pass/Tests.antt =====
-- The pass on small data (full-trace/full_trace.cpp).
use llvm_tracer.Prelude.{
  ℕ, ◌*◌, ◌/◌, negsuc, true, false, not, ◌||◌, ltb, ◌==◌, length, ◌≡◌, ◌↔◌, refl, none, some, List,
  [], ◌∷◌, ◌++◌, Text, codes, text_eq, text_lt, All, if◌then◌else◌, arith,
}
use llvm_tracer.Prelude.Decimal.{show_ℕ}
use llvm_tracer.Prelude.Dict.{insert}
use llvm_tracer.Prelude.Result.{ok}
use mathlib.Core.List.{Memᴰ}
use llvm_tracer.Runtime.State.{World, start}
use llvm_tracer.Runtime.Memory.{memory, no_files}
use llvm_tracer.Pass.Names.{
  contains, split, get_user_workload_functions, any_name, intrinsics, is_llvm_intrinsic, to_fxpt,
  is_dma_function, is_host_mem_function, is_set_sampling_factor, is_special_math_op,
}
use llvm_tracer.Pass.Workload.{listing, IsListable, workload-listing}
use llvm_tracer.Pass.Classes.{is_llvm_intrinsic-prefix, to_fxpt-anywhere}
use llvm_tracer.Pass.Setup.{
  Subprogram, Tracer, do_initialization, is_tracked_function, runs_on_function, CalledFunction,
}
use llvm_tracer.Pass.Tracked.{
  new_tracer, any_listed, last_name, is_unmangled, do_initialization-tracks,
}
use llvm_tracer.Pass.Sizes.{
  IrType, pointer, floating_point, integer, vector, array, floating_point_size, get_mem_size,
}
use llvm_tracer.Pass.ArraySizes.{IsPrimitiveSize, array-size}
use llvm_tracer.Pass.Ids.{
  Value, NameTables, find_slot, find_key, make_value_id, name_bitcast, get_inst_id,
}
use llvm_tracer.Pass.Bitcasts.{named_bitcast_takes_ids}
use llvm_tracer.Pass.BlockIds.{make_value_id-depth}
use llvm_tracer.Pass.Opcodes.{Opcodes, call_opcode, call_opcode-plain}
use llvm_tracer.Pass.VectorBuffers.{no_buffers, find_buffer}
use llvm_tracer.Pass.Stores.{AreBuffers}
use llvm_tracer.Pass.Inserted.{no_string, TypedValue, Inserted}
use llvm_tracer.Pass.LabelMap.{run_on_module}
use llvm_tracer.Pass.Registered.{run_module_calls, registers_label_map}

abbrev two_names : List Text
two_names = codes "triad" ∷ codes "fft" ∷ []

two_names-IsListable : All IsListable two_names
two_names-IsListable = (
  (
    ground arith,
    (ground arith, (ground arith, (ground arith, (ground arith, (ground arith, tt))))),
  ),
  ((ground arith, (ground arith, (ground arith, (ground arith, tt)))), tt),
)

workload-listing_example :
    contains (get_user_workload_functions (some (listing two_names))) (codes "fft")
    ≡ any_name two_names (codes "fft")
workload-listing_example = workload-listing two_names (codes "fft") two_names-IsListable

is_llvm_intrinsic-prefix_example : (is_llvm_intrinsic (codes "llvm.sqrt.f64") ≡ true) ↔ (
    (prefix : Text) × (rest : Text) × Memᴰ prefix intrinsics
    × (codes "llvm.sqrt.f64" ≡ prefix ++ rest))
is_llvm_intrinsic-prefix_example = is_llvm_intrinsic-prefix (codes "llvm.sqrt.f64")

to_fxpt-anywhere_example : (to_fxpt (codes "my_fxp_helper") ≡ true) ↔ (
    (before : Text) × (after : Text) × (codes "my_fxp_helper" ≡ before ++ (codes "_fxp" ++ after)))
to_fxpt-anywhere_example = to_fxpt-anywhere (codes "my_fxp_helper")

abbrev c_and_cpp : List Subprogram
c_and_cpp =
    record { name = codes "triad"; linkage_name = [] }
    ∷ record { name = codes "fft"; linkage_name = codes "_Z3fftv" }
    ∷ []

do_initialization-tracks_example :
    (t : Tracer) × (do_initialization (some (codes "triad,fft")) false c_and_cpp new_tracer ≡ ok t)
    × (is_tracked_function t (codes "_Z3fftv")
        ≡ any_listed
            (get_user_workload_functions (some (codes "triad,fft")))
            (codes "_Z3fftv")
            c_and_cpp)
    × (runs_on_function t (codes "_Z3fftv")
        ≡ is_unmangled (codes "_Z3fftv") (last_name (codes "_Z3fftv") c_and_cpp none))
    × (t.is_toplevel_mode
        ≡ (length (get_user_workload_functions (some (codes "triad,fft"))) == 1 || false))
unfolding get_user_workload_functions split insert text_eq text_lt
do_initialization-tracks_example =
    do_initialization-tracks (some (codes "triad,fft")) false c_and_cpp (codes "_Z3fftv") refl
      (refl, (refl, tt))

abbrev memcpy : CalledFunction
memcpy = record { name = codes "llvm.memcpy.p0i8"; is_intrinsic = true }

-- The primitive sizes that LLVM documents.
abbrev pub primitive_size : IrType → ℕ
primitive_size (floating_point kind) = floating_point_size kind
primitive_size (integer bits) = bits
primitive_size (vector n element) = n * primitive_size element
primitive_size _ = 0

primitive_size-IsPrimitiveSize : IsPrimitiveSize primitive_size
primitive_size-IsPrimitiveSize = record {
  of_pointer = refl;
  of_function = refl;
  of_label = refl;
  of_struct = λ elements. refl;
  of_array = λ n element. refl;
  of_floating_point = λ kind. refl;
  of_integer = λ bits. refl;
  of_vector = λ n element. refl;
}

array-size_example : get_mem_size primitive_size (array 4 pointer) ≡ ok 0
array-size_example = array-size primitive_size primitive_size-IsPrimitiveSize 4 pointer refl

abbrev pub no_names : NameTables
no_names = record {
  value_debug_name = [];
  slot_to_var_name = [];
  preheader_line_num = [];
  vector_buffers = no_buffers;
}

pub no_buffers-AreBuffers : AreBuffers no_buffers
unfolding find_buffer
no_buffers-AreBuffers = ((λ key buffer e. cc), tt)

abbrev block : Value
block = record {
  key = 1;
  name = codes "loop";
  slot = negsuc 0;
  is_undef = false;
  is_bitcast = false;
  is_pointer = false;
}

make_value_id-depth_example :
    make_value_id no_names block (some 123)
    ≡ ok (some (codes "loop" ++ (codes ":" ++ show_ℕ (if ltb 123 100 then 123 else 123 / 10))))
make_value_id-depth_example =
    make_value_id-depth no_names block 123 refl (omega arith) (omega arith)

abbrev cast : Value
cast = record {
  key = 2;
  name = codes "q";
  slot = negsuc 0;
  is_undef = false;
  is_bitcast = true;
  is_pointer = true;
}

abbrev pub p : Value
p = record {
  key = 3;
  name = codes "p";
  slot = negsuc 0;
  is_undef = false;
  is_bitcast = false;
  is_pointer = true;
}

abbrev store : Value
store = record {
  key = 4;
  name = [];
  slot = negsuc 0;
  is_undef = false;
  is_bitcast = false;
  is_pointer = false;
}

named_bitcast_takes_ids_example :
    (tables' : NameTables) × (name_bitcast cast p (codes "q") no_names ≡ ok (codes "p", tables'))
    × (get_inst_id tables' store (some (codes "loop:1")) (some 0)
        ≡ ok (true, some (codes "p"), some 0))
unfolding find_slot find_key
named_bitcast_takes_ids_example =
    named_bitcast_takes_ids no_names cast p store (codes "q") (some (codes "loop:1")) (some 0) refl
      refl refl refl refl (omega arith) refl (refl, refl)

abbrev pub llvm_opcodes : Opcodes
llvm_opcodes = record {
  f_add = 12;
  f_sub = 14;
  f_mul = 16;
  f_div = 19;
  f_rem = 22;
  fp_trunc = 43;
  fp_ext = 44;
  f_cmp = 52;
  add = 11;
  sub = 13;
  mul = 15;
  s_div = 18;
  s_rem = 21;
  trunc = 36;
  s_ext = 38;
  i_cmp = 51;
}

abbrev dma_load_function : CalledFunction
dma_load_function = record { name = codes "dmaLoad"; is_intrinsic = false }

call_opcode-plain_example :
    (call_opcode dma_load_function 49 == 49)
    ≡ not (
        is_dma_function dma_load_function.name
        || (is_host_mem_function dma_load_function.name
            || (is_set_sampling_factor dma_load_function.name
                || (is_special_math_op dma_load_function.name || dma_load_function.is_intrinsic))))
call_opcode-plain_example = call_opcode-plain dma_load_function 49 (omega arith)

registers_label_map_example :
    (w : World memory) × (run_module_calls
        (run_on_module true (some (codes "f/loop 5\n")) []).1
        (start memory no_files)
      ≡ ok w)
    × (w.labelmap_str ≡ codes "f/loop 5\n")
registers_label_map_example = registers_label_map memory no_files (codes "f/loop 5\n") (
  ground arith,
  (
    ground arith,
    (
      ground arith,
      (
        ground arith,
        (ground arith, (ground arith, (ground arith, (ground arith, (ground arith, tt))))),
      ),
    ),
  ),
)

abbrev tracing_f : Tracer
tracing_f = record {
  is_toplevel_mode = true;
  tracked_functions = (codes "f", tt) ∷ [];
  mangled_name_map = [];
}

abbrev pub f_args : List TypedValue
f_args =
    record {
      value = p;
      type_of = pointer;
      is_function = false;
      constant_string = no_string;
      pointee = none;
    }
    ∷ record {
      value = block;
      type_of = integer 32;
      is_function = false;
      constant_string = no_string;
      pointee = none;
    }
    ∷ []
