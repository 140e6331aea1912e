-- ===== src/Pass/Ids.antt =====
-- Names of values, blocks and instructions (full-trace/full_trace.cpp). A value has what the pass
-- reads of it: its address as a key, its name (empty if it has none) and its slot in the function,
-- which is -1 for a value that has a name or gives no result. Names have no zero byte.
use llvm_tracer.Prelude.{
  ℕ, suc, ◌+◌, ◌*◌, length, take, Bool, true, false, ◌&&◌, ◌||◌, not, ℤ, pos, negsuc, Option, none,
  some, List, [], ◌∷◌, ◌++◌, Text, codes, if◌then◌else◌, ◌==◌, ltb,
}
use llvm_tracer.Prelude.Decimal.{show_ℕ, show_int}
use llvm_tracer.Prelude.Result.{
  Result, err, ok, assertion_failed, bad_pointer, buffer_overflow, ◌>>=◌,
}
use llvm_tracer.Pass.Setup.{is_empty}
use llvm_tracer.Pass.VectorBuffers.{VectorBuffers}

pub record Value : Type 0 where
  pub key : ℕ
  pub name : Text
  pub slot : ℤ
  pub is_undef : Bool
  pub is_bitcast : Bool
  pub is_pointer : Bool

abbrev pub int_eq : ℤ → ℤ → Bool
int_eq (pos m) (pos n) = m == n
int_eq (negsuc m) (negsuc n) = m == n
int_eq _ _ = false

-- The tables of the pass on one function, with its buffers for vectors.
pub record NameTables : Type 0 where
  pub value_debug_name : List (ℕ × Text)
  pub slot_to_var_name : List (ℤ × Text)
  pub preheader_line_num : List (ℕ × ℕ)
  pub vector_buffers : VectorBuffers

unfoldable pub find_key {ℓ} : {V : Type ℓ} → ℕ → List (ℕ × V) → Option V
find_key key [] = none
find_key key ((k, v) ∷ table) = if k == key then some v else find_key key table

unfoldable pub find_slot : ℤ → List (ℤ × Text) → Option Text
find_slot slot [] = none
find_slot slot ((s, name) ∷ table) = if int_eq s slot then some name else find_slot slot table

-- The capacity of the buffers for ids.
abbrev pub buf_size : ℕ
buf_size = 256

-- `strcpy` and `sprintf` into such a buffer.
unfoldable pub copy_to_buffer : Text → Result Text
copy_to_buffer s = if ltb (length s) buf_size then ok s else err buffer_overflow

unfoldable pub get_value_name : NameTables → Value → Bool × Text
unfolding find_key
get_value_name tables v =
    if not (is_empty v.name)
    then (true, v.name)
    else elim (find_key v.key tables.value_debug_name) [
      | none ↦ (false, [])
      | some name ↦ (true, name)
    ]

-- The instruction id, with the new instruction count. `bbid` and `instc` may be null; without a
-- name and a slot they are needed.
unfoldable pub get_inst_id :
    NameTables → Value → Option Text → Option ℕ → Result (Bool × Option Text × Option ℕ)
unfolding get_value_name find_slot copy_to_buffer
get_inst_id tables inst bbid instc =
    let name = get_value_name tables inst in
    if name.0
    then (copy_to_buffer name.1 >>= λ id. ok (true, some id, instc))
    else elim (find_slot inst.slot tables.slot_to_var_name) [
      | some var_name ↦ copy_to_buffer var_name >>= λ id. ok (true, some id, instc)
      | none ↦ elim inst.slot [
        | pos slot ↦ copy_to_buffer (show_ℕ slot) >>= λ id. ok (true, some id, instc)
        | negsuc n ↦ if n == 0 then count_id bbid instc else ok (false, none, instc)
      ]
    ]
  where
    count_id : Option Text → Option ℕ → Result (Bool × Option Text × Option ℕ)
    count_id (some block) (some count) =
        copy_to_buffer (block ++ (codes "-" ++ show_ℕ count)) >>= λ id.
        ok (true, some id, some (suc count))
    count_id _ _ = err assertion_failed

-- `strcpy` of the name or `sprintf` of the slot; `loop_depth` is that of a basic block. The id is
-- none if the buffer is left as it was.
unfoldable pub make_value_id : NameTables → Value → Option ℕ → Result (Option Text)
unfolding get_value_name copy_to_buffer
make_value_id tables v (some loop_depth) =
    let name = get_value_name tables v in
    (if name.0
      then copy_to_buffer (take (length name.1 + 3) (name.1 ++ (codes ":" ++ show_ℕ loop_depth)))
      else copy_to_buffer (take (2 * 3) (show_int v.slot ++ (codes ":" ++ show_ℕ loop_depth))))
    >>= λ id. ok (some id)
make_value_id tables v none =
    let name = get_value_name tables v in
    if name.0 then (copy_to_buffer name.1 >>= λ id. ok (some id)) else elim v.slot [
      | pos slot ↦ copy_to_buffer (show_ℕ slot) >>= λ id. ok (some id)
      | negsuc n ↦ if n == 0 then err assertion_failed else ok none
    ]

-- A debug intrinsic: its argument and its variable, if there is one.
pub data DebugInfo : Type 0 where
  dbg_declare dbg_value dbg_addr : Value → Option Text → DebugInfo
  other_debug : DebugInfo

-- The end of `collectDebugInfo`.
unfoldable pub add_debug_name : Value → Option Text → NameTables → NameTables
unfolding find_key
add_debug_name arg none tables = tables
add_debug_name arg (some var_name) tables =
    if arg.is_undef || arg.is_bitcast
    then tables
    else elim (find_key arg.key tables.value_debug_name) [
      | none ↦ record tables { value_debug_name = (arg.key, var_name) ∷ tables.value_debug_name }
      | some name ↦ tables
    ]

-- A `dbg.addr` intrinsic takes the address from the `dbgDeclare` of the first test, which is null.
unfoldable pub collect_debug_info : DebugInfo → NameTables → Result NameTables
unfolding add_debug_name
collect_debug_info (dbg_declare arg var) tables = ok (add_debug_name arg var tables)
collect_debug_info (dbg_value arg var) tables = ok (add_debug_name arg var tables)
collect_debug_info (dbg_addr arg var) tables = err bad_pointer
collect_debug_info other_debug tables = ok tables

unfoldable pub purge_debug_info : NameTables → NameTables
purge_debug_info tables = record tables { value_debug_name = []; preheader_line_num = [] }

abbrev pub set_slot_name : ℤ → Text → NameTables → NameTables
set_slot_name slot name tables = record tables {
  slot_to_var_name = (slot, name) ∷ tables.slot_to_var_name;
}

-- The loop over the instructions that follow in the block: a debug declaration with its variable,
-- whose pointer is null if there is none, or another instruction.
unfoldable pub find_debug_declare :
    ℤ → List (Option (Value × Option Text)) → NameTables → Result NameTables
find_debug_declare alloca_id [] tables = ok tables
find_debug_declare alloca_id (none ∷ following) tables =
    find_debug_declare alloca_id following tables
find_debug_declare alloca_id (some (wrapping_arg, var_name) ∷ following) tables =
    let rest = find_debug_declare alloca_id following tables in
    if wrapping_arg.is_undef || not (int_eq wrapping_arg.slot alloca_id)
    then rest
    else elim var_name [
      | none ↦ err bad_pointer
      | some name ↦ ok (set_slot_name wrapping_arg.slot name tables)
    ]

unfoldable pub process_alloca_instruction :
    Value → List (Option (Value × Option Text)) → NameTables → Result NameTables
unfolding get_value_name find_debug_declare
process_alloca_instruction alloca following tables =
    if (get_value_name tables alloca).0
    then ok tables
    else find_debug_declare alloca.slot following tables

-- The line of an instruction, from the loop whose preheader it ends or from its debug location.
unfoldable pub set_line_number_if_exists : NameTables → Value → Option ℕ → ℤ
unfolding find_key
set_line_number_if_exists tables inst debug_loc =
    elim (find_key inst.key tables.preheader_line_num) [
      | some line ↦ pos line
      | none ↦ elim debug_loc [ some line ↦ pos line | none ↦ negsuc 0 ]
    ]

-- The start of `handleInstructionResult`: the id of a cast of a named pointer is the pointer's name.
unfoldable pub name_bitcast : Value → Value → Text → NameTables → Result (Text × NameTables)
unfolding get_value_name find_slot copy_to_buffer
name_bitcast inst operand instid tables =
    let name = get_value_name tables operand in
    if inst.is_bitcast
      && (is_unset (find_slot inst.slot tables.slot_to_var_name) && (operand.is_pointer && name.0))
    then (copy_to_buffer name.1 >>= λ id. ok (id, set_slot_name inst.slot id tables))
    else ok (instid, tables)
  where
    is_unset : Option Text → Bool
    is_unset none = true
    is_unset (some n) = false
