-- ===== src/Pass/Inserted.antt =====
-- The calls of the trace logger that the pass inserts (full-trace/full_trace.cpp), in their order.
use llvm_tracer.Prelude.{
  ltb, ℕ, suc, length, take, Bool, true, false, ◌&&◌, ℤ, negsuc, Option, none, some, List, [], ◌∷◌,
  ◌++◌, Text, codes, if◌then◌else◌,
}
use llvm_tracer.Prelude.Result.{Result, err, ok, bad_pointer, assertion_failed, ◌>>=◌}
use llvm_tracer.Runtime.State.{forward_line}
use llvm_tracer.Pass.Setup.{Tracer, is_tracked_function}
use llvm_tracer.Pass.Sizes.{
  FloatingPoint, half, float, double, x86_fp80, fp128, ppc_fp128, IrType, pointer, label_type,
  floating_point, integer, vector, get_mem_size,
}
use llvm_tracer.Pass.VectorBuffers.{VectorType, VectorBuffers, store_vector}
use llvm_tracer.Pass.Ids.{Value, NameTables, get_value_name, make_value_id, copy_to_buffer}
use llvm_tracer.Pass.Opcodes.{Opcodes, opcode_to_fixed_point}

-- What a pointer to bytes says at compile time: nothing, its string if it is the address of a
-- constant array, or that it is the address of a global variable without an initializer.
pub data ConstantString : Type 0 where
  no_string : ConstantString
  constant_bytes : Text → ConstantString
  no_initializer : ConstantString

-- A value with its type. A pointer, or a vector of pointers, has the type that it points to, as a
-- number. `is_function` is the test of the value's kind.
pub record TypedValue : Type 0 where
  pub value : Value
  pub type_of : IrType
  pub is_function : Bool
  pub constant_string : ConstantString
  pub pointee : Option ℕ

-- What a printed line gets besides the value.
pub record ParamLine : Type 0 where
  pub param_num : ℕ
  pub size : ℕ
  pub is_reg : Bool
  pub reg_id : Text
  pub is_phi : Bool
  pub prev_bbid : Text

-- What the program passes when it runs: a number, the value extended or converted, a string of the
-- module, or a pointer to a buffer that holds the value, a vector with its number of elements and
-- their type.
pub data Passed : Type 0 where
  zero_value : Passed
  value_of : Value → Passed
  string_of : Text → Passed
  buffer_of : ℕ → IrType → Option ℕ → Value → Passed

pub data Inserted : Type 0 where
  log_entry : Text → ℕ → Inserted
  update_status : Text → ℕ → Bool → Bool → Inserted
  log0 : ℤ → Text → Text → Text → ℕ → Bool → Bool → Inserted
  log_int log_double log_ptr log_string log_vector : ParamLine → Passed → Inserted

-- The members of `InstEnv` that the calls use; `func_name` has been copied to its buffer.
pub record InstEnv : Type 0 where
  pub func_name : Text
  pub bbid : Text
  pub instid : Text
  pub line_number : ℤ
  pub instc : ℕ
  pub to_fxpt : Bool

-- `CreateFPExt` to `double` has no wider numbers.
abbrev pub fits_double : FloatingPoint → Bool
fits_double half = true
fits_double float = true
fits_double double = true
fits_double _ = false

-- `CreateZExt` and `CreateFPExt` assert that the value is not wider than the 64 bits of the result,
-- and `getInitializer` that there is one. Values of a type without a case below are only warned of.
unfoldable pub print_param_line :
    ParamLine → IrType → Option TypedValue → Bool → Result (List Inserted)
print_param_line line datatype none is_intrinsic = ok (log_int line zero_value ∷ [])
print_param_line line (integer bits) (some o) is_intrinsic =
    if ltb 64 bits then err assertion_failed else ok (log_int line (value_of o.value) ∷ [])
print_param_line line (floating_point kind) (some o) is_intrinsic =
    if fits_double kind then ok (log_double line (value_of o.value) ∷ []) else err assertion_failed
print_param_line line pointer (some o) true = ok (log_ptr line zero_value ∷ [])
print_param_line line pointer (some o) false = elim o.constant_string [
  | no_string ↦ ok (log_ptr line (value_of o.value) ∷ [])
  | constant_bytes s ↦ ok (log_string line (string_of s) ∷ [])
  | no_initializer ↦ err assertion_failed
]
print_param_line line (vector n element) (some o) is_intrinsic =
    ok (log_vector line (buffer_of n element o.pointee o.value) ∷ [])
print_param_line line _ (some o) is_intrinsic = ok []

-- Numbers in place of LLVM's type IDs.
abbrev pub type_id : IrType → ℕ
type_id (floating_point half) = 1
type_id (floating_point float) = 2
type_id (floating_point double) = 3
type_id (floating_point x86_fp80) = 4
type_id (floating_point fp128) = 5
type_id (floating_point ppc_fp128) = 6
type_id (integer bits) = 7
type_id pointer = 8
type_id _ = 9

module _ (get_primitive_size_in_bits : IrType → ℕ) where
  abbrev pub vector_type_of : ℕ → IrType → Option ℕ → VectorType
  vector_type_of n element pointee = record {
    num_elements = n;
    element_type = type_id element;
    element_bits = get_primitive_size_in_bits element;
    pointee = pointee;
  }

  -- The stores to the vector buffers that go with the calls. They come here after the calls of a
  -- block or of the function's start, which changes which fault comes first, but not whether there
  -- is one.
  unfoldable pub store_vectors : List Inserted → VectorBuffers → Result VectorBuffers
  unfolding store_vector
  store_vectors [] s = ok s
  store_vectors (log_vector line (buffer_of n element pointee v) ∷ calls) s =
      store_vector (vector_type_of n element pointee) s >>= store_vectors calls
  store_vectors (_ ∷ calls) s = store_vectors calls s

module _ (opcodes : Opcodes) (tracer : Tracer) where
  abbrev pub env_opcode : InstEnv → ℕ → ℕ
  env_opcode env opcode = if env.to_fxpt then opcode_to_fixed_point opcodes opcode else opcode

  unfoldable pub print_first_line : InstEnv → ℕ → Inserted
  print_first_line env opcode =
      log0 env.line_number env.func_name env.bbid env.instid (env_opcode env opcode)
        (is_tracked_function tracer env.func_name) tracer.is_toplevel_mode

  unfoldable pub print_top_level_entry_first_line : InstEnv → ℕ → Inserted
  print_top_level_entry_first_line env num_params = log_entry env.func_name num_params

  unfoldable pub update_tracer_status : InstEnv → ℕ → Inserted
  update_tracer_status env opcode =
      update_status env.func_name (env_opcode env opcode) (is_tracked_function tracer env.func_name)
        tracer.is_toplevel_mode

abbrev pub is_label_type : IrType → Bool
is_label_type label_type = true
is_label_type _ = false

module _ (tables : NameTables) where
  -- The name of an argument in a buffer of 256 bytes, which a label fills by `makeValueId` and a
  -- function does not fill, and the argument if it has a value to print.
  unfoldable pub argument_name : TypedValue → Result (Text × Bool × Option TypedValue)
  unfolding get_value_name make_value_id
  argument_name o =
      let name = get_value_name tables o.value in
      if is_label_type o.type_of
      then (make_value_id tables o.value none >>= λ id. elim id [
        | none ↦ err bad_pointer
        | some id ↦ ok (id, true, none)
      ])
      else if o.is_function
      then err bad_pointer
      else ok (take 255 name.1, name.0, some o)

module _ (get_primitive_size_in_bits : IrType → ℕ) (tables : NameTables) where
  -- The body of the loop over the arguments.
  unfoldable pub print_argument : ℕ → TypedValue → Result (List Inserted)
  unfolding argument_name get_mem_size print_param_line
  print_argument param_num o = get_mem_size get_primitive_size_in_bits o.type_of >>= λ size.
      argument_name tables o >>= λ (reg_id, is_reg, value).
      print_param_line
        (record {
          param_num = param_num;
          size = size;
          is_reg = is_reg;
          reg_id = reg_id;
          is_phi = false;
          prev_bbid = codes "phi";
        })
        o.type_of value false

  unfoldable pub print_arguments : Bool → ℕ → List TypedValue → Result (List Inserted)
  unfolding print_argument
  print_arguments is_entry_block call_id [] = ok []
  print_arguments is_entry_block call_id (o ∷ args) =
      let rest = print_arguments is_entry_block (suc call_id) args in
      print_argument (if is_entry_block then call_id else forward_line) o >>= λ line.
      rest >>= λ lines. ok (line ++ lines)

  -- The arguments, with the stores of vectors among them.
  unfoldable pub print_all_arguments : Bool → List TypedValue → Result (List Inserted)
  unfolding print_arguments store_vectors
  print_all_arguments is_entry_block args = print_arguments is_entry_block 1 args >>= λ lines.
      store_vectors get_primitive_size_in_bits lines tables.vector_buffers >>= λ buffers. ok lines

  -- The calls stand in front of the first instruction after the vector buffers.
  unfoldable pub run_on_function_entry :
      Opcodes → Tracer → Text → List TypedValue → Result (List Inserted)
  unfolding print_all_arguments update_tracer_status print_top_level_entry_first_line
  run_on_function_entry opcodes tracer func_name args =
      if is_tracked_function tracer func_name && tracer.is_toplevel_mode
      then (copy_to_buffer func_name >>= λ buffer.
          let env : InstEnv = record {
            func_name = buffer;
            bbid = [];
            instid = [];
            line_number = negsuc 0;
            instc = 0;
            to_fxpt = false;
          } in
          print_all_arguments true args >>= λ lines. ok (
            update_tracer_status opcodes tracer env 0
            ∷ print_top_level_entry_first_line opcodes tracer env (length args)
            ∷ lines))
      else print_all_arguments false args
