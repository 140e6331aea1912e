-- ===== src/Pass/Handlers.antt =====
-- The handlers of one instruction: the calls that they insert (full-trace/full_trace.cpp).
use llvm_tracer.Prelude.{
  ℕ, zero, suc, length, Bool, true, false, Option, none, some, List, [], ◌∷◌, ◌++◌, Text, codes,
  if◌then◌else◌,
}
use llvm_tracer.Prelude.Result.{Result, err, ok, or_fault, assertion_failed, bad_pointer, ◌>>=◌}
use llvm_tracer.Runtime.State.{result_line}
use llvm_tracer.Pass.Setup.{Tracer, CalledFunction, is_empty}
use llvm_tracer.Pass.Sizes.{IrType, get_mem_size}
use llvm_tracer.Pass.Ids.{
  Value, NameTables, DebugInfo, get_value_name, get_inst_id, make_value_id, copy_to_buffer,
  name_bitcast,
}
use llvm_tracer.Pass.Opcodes.{Opcodes, call_opcode}
use llvm_tracer.Pass.Inserted.{
  TypedValue, ParamLine, Inserted, InstEnv, print_param_line, print_first_line,
  update_tracer_status, is_label_type,
}

-- An operand; a block has its loop depth.
pub record IrOperand : Type 0 where
  pub typed : TypedValue
  pub is_instruction : Bool
  pub loop_depth : Option ℕ

-- What the pass tells apart; a call has its called function, if that is known, with the number of
-- its declared parameters.
pub data InstKind : Type 0 where
  invoke_inst alloca_inst return_inst other_inst : InstKind
  call_inst : Option CalledFunction → ℕ → InstKind

abbrev pub is_return : InstKind → Bool
is_return return_inst = true
is_return _ = false

pub record Instruction : Type 0 where
  pub typed : TypedValue
  pub opcode : ℕ
  pub kind : InstKind
  pub operands : List IrOperand
  pub has_result : Bool
  pub is_terminator : Bool
  pub debug_loc : Option ℕ
  pub debug : DebugInfo

-- A value that comes in from a block, which has its loop depth.
pub record Incoming : Type 0 where
  pub operand : IrOperand
  pub block : Value
  pub depth : ℕ

pub record PhiNode : Type 0 where
  pub inst : Instruction
  pub incoming : List Incoming

-- A variable after a write that may have left it alone.
abbrev pub or_before {ℓ} : {A : Type ℓ} → Option A → A → A
or_before none before = before
or_before (some written) before = written

abbrev pub last {ℓ} : {A : Type ℓ} → List A → Option A
last [] = none
last (a ∷ []) = some a
last (a ∷ b ∷ as') = last (b ∷ as')

unfoldable pub set_operand_name_and_reg : NameTables → Value → Text → Result (Bool × Text)
unfolding get_inst_id
set_operand_name_and_reg tables inst operand_name =
    get_inst_id tables inst none none >>= λ (is_reg, id, instc).
    ok (is_reg, or_before id operand_name)

-- The register flag, the name and the value of an operand of an instruction that is no phi node.
unfoldable pub operand_params : NameTables → IrOperand → Result (Bool × Text × Option TypedValue)
unfolding set_operand_name_and_reg get_value_name make_value_id copy_to_buffer
operand_params tables o =
    let name = get_value_name tables o.typed.value in
    copy_to_buffer name.1 >>= λ buffer.
    if o.is_instruction
    then (set_operand_name_and_reg tables o.typed.value buffer >>= λ (is_reg, id).
        ok (is_reg, id, some o.typed))
    else if is_label_type o.typed.type_of
    then (make_value_id tables o.typed.value o.loop_depth >>= λ id.
        ok (true, or_before id buffer, none))
    else if o.typed.is_function
    then ok (name.0, buffer, none)
    else ok (name.0, buffer, some o.typed)

-- The same of a phi node's operand, where an instruction has no value.
unfoldable pub phi_operand_params :
    NameTables → IrOperand → Text → Result (Bool × Text × Option TypedValue)
unfolding set_operand_name_and_reg get_value_name copy_to_buffer
phi_operand_params tables o operR =
    let name = get_value_name tables o.typed.value in
    if o.is_instruction
    then (set_operand_name_and_reg tables o.typed.value operR >>= λ (is_reg, id).
        ok (is_reg, id, none))
    else (copy_to_buffer name.1 >>= λ buffer. ok (name.0, buffer, some o.typed))

-- Only a cast changes its id, by its operand.
unfoldable pub bitcast_name : NameTables → Instruction → Text → Result (Text × NameTables)
unfolding name_bitcast
bitcast_name tables inst instid = elim inst.operands [
  | [] ↦ ok (instid, tables)
  | o ∷ operands ↦ name_bitcast inst.typed.value o.typed.value instid tables
]

module _ (get_primitive_size_in_bits : IrType → ℕ) where
  unfoldable pub print_operand_line : NameTables → Bool → ℕ → IrOperand → Result (List Inserted)
  unfolding operand_params get_mem_size print_param_line
  print_operand_line tables is_intrinsic param_num o =
      get_mem_size get_primitive_size_in_bits o.typed.type_of >>= λ size.
      operand_params tables o >>= λ (is_reg, operand_name, value).
      print_param_line
        (record {
          param_num = param_num;
          size = size;
          is_reg = is_reg;
          reg_id = operand_name;
          is_phi = false;
          prev_bbid = codes "phi";
        })
        o.typed.type_of value is_intrinsic

  -- The loop over the operands, from the last to the first.
  unfoldable pub print_operands : NameTables → ℕ → List IrOperand → Result (List Inserted)
  unfolding print_operand_line
  print_operands tables param_num [] = ok []
  print_operands tables param_num (o ∷ operands) =
      print_operands tables (suc param_num) operands >>= λ lines.
      print_operand_line tables false param_num o >>= λ line. ok (lines ++ line)

  -- The loop over the declared parameters of a called function, with the operands of the call.
  unfoldable pub print_call_args :
      NameTables → Bool → ℕ → ℕ → List IrOperand → Result (List Inserted)
  unfolding print_operand_line
  print_call_args tables is_intrinsic param_num zero operands = ok []
  print_call_args tables is_intrinsic param_num (suc n) [] = err bad_pointer
  print_call_args tables is_intrinsic param_num (suc n) (o ∷ operands) =
      print_operand_line tables is_intrinsic param_num o >>= λ line.
      print_call_args tables is_intrinsic (suc param_num) n operands >>= λ lines. ok (line ++ lines)

  -- A phi node's operand; its two buffers come with what they held before.
  unfoldable pub print_phi_operand :
      NameTables → ℕ → Incoming → Text → Text → Result (List Inserted × Text × Text)
  unfolding phi_operand_params make_value_id get_mem_size print_param_line
  print_phi_operand tables param_num i prev_bbid operR = do
    id ← make_value_id tables i.block (some i.depth)
    let prev = or_before id prev_bbid
    size ← get_mem_size get_primitive_size_in_bits i.operand.typed.type_of
    (is_reg, buffer, value) ← phi_operand_params tables i.operand operR
    let line : ParamLine = record {
      param_num = param_num;
      size = size;
      is_reg = is_reg;
      reg_id = buffer;
      is_phi = true;
      prev_bbid = prev;
    }
    lines ← print_param_line line i.operand.typed.type_of value false
    ok (lines, prev, buffer)

  unfoldable pub print_phi_operands :
      NameTables → ℕ → List Incoming → Text → Text → Result (List Inserted × Text × Text)
  unfolding print_phi_operand
  print_phi_operands tables param_num [] prev_bbid operR = ok ([], prev_bbid, operR)
  print_phi_operands tables param_num (i ∷ incoming) prev_bbid operR = do
    (lines, prev, buffer) ← print_phi_operands tables (suc param_num) incoming prev_bbid operR
    (line, prev', buffer') ← print_phi_operand tables param_num i prev buffer
    ok (lines ++ line, prev', buffer')

  -- The line of a result, with the id of the instruction.
  unfoldable pub print_result_line : Text → Text → Instruction → Result (List Inserted)
  unfolding get_mem_size print_param_line
  print_result_line instid prev_bbid inst = do
    size ← get_mem_size get_primitive_size_in_bits inst.typed.type_of
    let line : ParamLine = record {
      param_num = result_line;
      size = size;
      is_reg = true;
      reg_id = instid;
      is_phi = false;
      prev_bbid = prev_bbid;
    }
    if inst.is_terminator
        then err assertion_failed
        else print_param_line line inst.typed.type_of (some inst.typed) false

  module _ (opcodes : Opcodes) (tracer : Tracer) where
    unfoldable pub handle_call_instruction :
        NameTables → Instruction → CalledFunction → ℕ → InstEnv → Result (List Inserted)
    unfolding print_first_line call_opcode print_param_line print_call_args copy_to_buffer
        get_mem_size
    handle_call_instruction tables inst fun num_params env = do
      caller_op_name ← copy_to_buffer fun.name
      let head = print_first_line opcodes tracer env (call_opcode fun inst.opcode)
      func_name_op ← or_fault (last inst.operands) bad_pointer
      size ← get_mem_size get_primitive_size_in_bits func_name_op.typed.type_of
      let line : ParamLine = record {
        param_num = length inst.operands;
        size = size;
        is_reg = true;
        reg_id = caller_op_name;
        is_phi = false;
        prev_bbid = codes "phi";
      }
      callee ←
          print_param_line line func_name_op.typed.type_of (some func_name_op.typed)
            fun.is_intrinsic
      args ← print_call_args tables fun.is_intrinsic 1 num_params inst.operands
      if is_empty func_name_op.typed.value.name
          then err assertion_failed
          else ok (head ∷ callee ++ args)

    unfoldable pub handle_non_phi_non_call_instruction :
        NameTables → Instruction → InstEnv → Result (List Inserted)
    unfolding print_first_line print_operands update_tracer_status
    handle_non_phi_non_call_instruction tables inst env = do
      lines ← print_operands tables 1 inst.operands
      ok (
          print_first_line opcodes tracer env inst.opcode ∷ lines
          ++ (if is_return inst.kind
              then update_tracer_status opcodes tracer env inst.opcode ∷ []
              else []))

  -- The lines, with the id and the tables, which a cast of a named pointer changes.
  unfoldable pub handle_instruction_result :
      NameTables → Instruction → Text → Result (List Inserted × Text × NameTables)
  unfolding bitcast_name print_result_line
  handle_instruction_result tables inst instid = do
    (id, tables') ← bitcast_name tables inst instid
    lines ← print_result_line id (codes "phi") inst
    ok (lines, id, tables')
