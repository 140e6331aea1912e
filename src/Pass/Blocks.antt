-- ===== src/Pass/Blocks.antt =====
-- `runOnBasicBlock` and `runOnFunction` (full-trace/full_trace.cpp): the instrumented code, as the
-- original instructions with the inserted calls in their places.
use llvm_tracer.Prelude.{
  ℕ, map, Bool, true, false, ◌||◌, not, negsuc, Option, none, some, List, [], ◌∷◌, ◌++◌, Text,
  text_eq, codes, if◌then◌else◌,
}
use llvm_tracer.Prelude.Result.{Result, ok, ◌>>=◌}
use llvm_tracer.Pass.Names.{to_fxpt}
use llvm_tracer.Pass.Setup.{Tracer, runs_on_basic_block, runs_on_function, trace_call}
use llvm_tracer.Pass.Sizes.{IrType}
use llvm_tracer.Pass.Ids.{
  Value, NameTables, DebugInfo, dbg_declare, get_inst_id, make_value_id, copy_to_buffer,
  set_line_number_if_exists, process_alloca_instruction, collect_debug_info, purge_debug_info,
}
use llvm_tracer.Pass.Opcodes.{Opcodes}
use llvm_tracer.Pass.Inserted.{
  TypedValue, Inserted, InstEnv, print_first_line, run_on_function_entry, store_vectors,
}
use llvm_tracer.Pass.VectorBuffers.{no_buffers}
use llvm_tracer.Pass.Handlers.{
  InstKind, invoke_inst, alloca_inst, call_inst, Instruction, PhiNode, or_before,
  print_phi_operands, print_result_line, handle_call_instruction,
  handle_non_phi_non_call_instruction, handle_instruction_result,
}

-- A block: its phi nodes, the landing pads and the like behind them, and the instructions from the
-- first insertion point on.
pub record BasicBlock : Type 0 where
  pub value : Value
  pub loop_depth : ℕ
  pub phis : List PhiNode
  pub pads : List Instruction
  pub insts : List Instruction

pub data BlockItem : Type 0 where
  original : Instruction → BlockItem
  inserted : Inserted → BlockItem

abbrev pub calls_of : List BlockItem → List Inserted
calls_of [] = []
calls_of (original inst ∷ items) = calls_of items
calls_of (inserted c ∷ items) = c ∷ calls_of items

abbrev pub declared : DebugInfo → Option (Value × Option Text)
declared (dbg_declare arg var_name) = some (arg, var_name)
declared _ = none

-- The debug declarations among the instructions after an alloca, with their variables.
abbrev pub declarations : List Instruction → List (Option (Value × Option Text))
declarations [] = []
declarations (i ∷ insts) = declared i.debug ∷ declarations insts

-- Is the instruction left alone? An invoke is not looked at; a call is tested by its function.
abbrev pub is_traced : Tracer → InstKind → Bool
is_traced tracer (call_inst called n) = trace_call tracer called
is_traced tracer _ = true

abbrev pub is_invoke : InstKind → Bool
is_invoke invoke_inst = true
is_invoke _ = false

abbrev pub is_alloca : InstKind → Bool
is_alloca alloca_inst = true
is_alloca _ = false

-- What the loop over the instructions changes.
pub record BlockState : Type 0 where
  pub env : InstEnv
  pub tables : NameTables

abbrev pub phi_insts : List PhiNode → List Instruction
phi_insts phis = map (λ (phi : PhiNode). phi.inst) phis

-- The instructions in front of the first insertion point.
abbrev pub leading : BasicBlock → List Instruction
leading block = phi_insts block.phis ++ block.pads

-- The ids and the line number of an instruction.
unfoldable pub identify : BasicBlock → Instruction → BlockState → Result InstEnv
unfolding make_value_id get_inst_id set_line_number_if_exists
identify block inst s = do
  id ← make_value_id s.tables block.value (some block.loop_depth)
  let bbid = or_before id s.env.bbid
  (named, instid, instc) ← get_inst_id s.tables inst.typed.value (some bbid) (some s.env.instc)
  ok (record s.env {
    bbid = bbid;
    instid = or_before instid s.env.instid;
    instc = or_before instc s.env.instc;
    line_number = set_line_number_if_exists s.tables inst.typed.value inst.debug_loc;
  })

module _ (get_primitive_size_in_bits : IrType → ℕ) (opcodes : Opcodes) (tracer : Tracer) where
  -- The loop over the phi nodes.
  unfoldable pub handle_phi_nodes :
      BasicBlock → List PhiNode → Text → Text → BlockState → Result (List Inserted × BlockState)
  unfolding identify print_first_line print_phi_operands print_result_line
  handle_phi_nodes block [] prev_bbid operR s = ok ([], s)
  handle_phi_nodes block (phi ∷ phis) prev_bbid operR s = do
    env ← identify block phi.inst s
    (lines, prev, buffer) ←
        print_phi_operands get_primitive_size_in_bits s.tables 1 phi.incoming prev_bbid operR
    result ←
        (if phi.inst.has_result
          then print_result_line get_primitive_size_in_bits env.instid prev phi.inst
          else ok [])
    (rest, s') ← handle_phi_nodes block phis prev buffer (record s { env = env })
    ok (print_first_line opcodes tracer env phi.inst.opcode ∷ lines ++ (result ++ rest), s')

  unfoldable pub handle_kind :
      InstKind → NameTables → Instruction → InstEnv → Result (List Inserted)
  unfolding handle_call_instruction handle_non_phi_non_call_instruction
  handle_kind (call_inst (some fun) n) tables inst env =
      handle_call_instruction get_primitive_size_in_bits opcodes tracer tables inst fun n env
  handle_kind _ tables inst env =
      handle_non_phi_non_call_instruction get_primitive_size_in_bits opcodes tracer tables inst env

  unfoldable pub handle_result :
      NameTables → Instruction → Text → Result (List Inserted × Text × NameTables)
  unfolding handle_instruction_result
  handle_result tables inst instid =
      if inst.has_result
      then handle_instruction_result get_primitive_size_in_bits tables inst instid
      else ok ([], instid, tables)

  -- One round of the loop: the calls in front of the instruction and behind it.
  unfoldable pub instrument_instruction :
      BasicBlock
      → Instruction
      → List Instruction
      → BlockState
      → Result (List Inserted × List Inserted × BlockState)
  unfolding identify handle_kind handle_result process_alloca_instruction
  instrument_instruction block inst following s =
      if is_invoke inst.kind
      then ok ([], [], s)
      else identify block inst s >>= λ env.
          if not (is_traced tracer inst.kind)
          then ok ([], [], record s { env = env })
          else handle_kind inst.kind s.tables inst env >>= λ before.
              handle_result s.tables inst env.instid >>= λ (behind, instid, tables).
              (if is_alloca inst.kind
                then process_alloca_instruction inst.typed.value (declarations following) tables
                else ok tables)
              >>= λ tables'. ok (
                before,
                behind,
                record { env = record env { instid = instid }; tables = tables' },
              )

  unfoldable pub instrument_instructions :
      BasicBlock → List Instruction → BlockState → Result (List BlockItem × BlockState)
  unfolding instrument_instruction
  instrument_instructions block [] s = ok ([], s)
  instrument_instructions block (inst ∷ insts) s = do
    (before, behind, s') ← instrument_instruction block inst insts s
    (items, s'') ← instrument_instructions block insts s'
    ok (map inserted before ++ (original inst ∷ map inserted behind ++ items), s'')

  -- The stores to the vector buffers for the calls of a block.
  unfoldable pub store_block : List BlockItem → NameTables → Result NameTables
  unfolding store_vectors
  store_block items tables =
      store_vectors get_primitive_size_in_bits (calls_of items) tables.vector_buffers >>= λ buffers.
      ok (record tables { vector_buffers = buffers })

  -- The function's name is copied to its buffer. The tables come back for the next block.
  unfoldable pub run_on_basic_block :
      Text → BasicBlock → NameTables → Result (List BlockItem × NameTables)
  unfolding runs_on_basic_block handle_phi_nodes instrument_instructions store_block
  run_on_basic_block func_name block tables =
      if not (runs_on_basic_block tracer func_name)
      then ok (map original (leading block ++ block.insts), tables)
      else copy_to_buffer func_name >>= λ buffer.
          let env : InstEnv = record {
            func_name = buffer;
            bbid = [];
            instid = [];
            line_number = negsuc 0;
            instc = 0;
            to_fxpt = to_fxpt func_name;
          } in
          handle_phi_nodes block block.phis [] [] (record { env = env; tables = tables })
          >>= λ (phi_calls, s). instrument_instructions block block.insts s >>= λ (items, s').
              store_block (map inserted phi_calls ++ items) s'.tables >>= λ tables'.
              ok (map original (leading block) ++ (map inserted phi_calls ++ items), tables')

  unfoldable pub run_on_basic_blocks :
      Text → List BasicBlock → NameTables → Result (List (List BlockItem) × NameTables)
  unfolding run_on_basic_block
  run_on_basic_blocks func_name [] tables = ok ([], tables)
  run_on_basic_blocks func_name (block ∷ blocks) tables = do
    (items, tables') ← run_on_basic_block func_name block tables
    (rest, tables'') ← run_on_basic_blocks func_name blocks tables'
    ok (items ∷ rest, tables'')

-- The debug information of all instructions, in their order.
unfoldable pub collect_debug_infos : List DebugInfo → NameTables → Result NameTables
unfolding collect_debug_info
collect_debug_infos [] tables = ok tables
collect_debug_infos (info ∷ infos) tables =
    collect_debug_info info tables >>= collect_debug_infos infos

-- A function; `preheaders` has the branches at the end of the loops' preheaders, by their keys,
-- with the start lines of the loops, the latest assignment first.
pub record Function : Type 0 where
  pub name : Text
  pub args : List TypedValue
  pub debug_infos : List DebugInfo
  pub preheaders : List (ℕ × ℕ)
  pub blocks : List BasicBlock

-- What the pass leaves: the calls at the start of the function, the blocks, and its tables.
pub record Instrumented : Type 0 where
  pub func_modified : Bool
  pub entry_calls : List Inserted
  pub blocks : List (List BlockItem)
  pub tables : NameTables

module _ (get_primitive_size_in_bits : IrType → ℕ) (opcodes : Opcodes) (tracer : Tracer) where
  abbrev pub entry_calls_of : Function → NameTables → Result (List Inserted)
  entry_calls_of f tables =
      if text_eq f.name (codes "main")
      then ok []
      else run_on_function_entry get_primitive_size_in_bits tables opcodes tracer f.name f.args

  -- The result of the last block is kept, and the entry of another function than `main` counts.
  unfoldable pub run_on_function : Function → NameTables → Result (Option Instrumented)
  unfolding runs_on_function collect_debug_infos run_on_basic_blocks run_on_function_entry
      purge_debug_info
  run_on_function f tables = if not (runs_on_function tracer f.name) then ok none else (do
    collected ←
        collect_debug_infos f.debug_infos
          (record tables { slot_to_var_name = []; vector_buffers = no_buffers })
    let start = record collected {
      preheader_line_num = f.preheaders ++ collected.preheader_line_num;
    }
    (blocks, tables') ←
        run_on_basic_blocks get_primitive_size_in_bits opcodes tracer f.name f.blocks start
    entry ← entry_calls_of f tables'
    ok (
        some (record {
          func_modified = runs_on_basic_block tracer f.name || not (text_eq f.name (codes "main"));
          entry_calls = entry;
          blocks = blocks;
          tables = purge_debug_info tables';
        })))
