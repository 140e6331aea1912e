-- ===== src/Pass/Bitcasts.antt =====
-- What a named cast of a named pointer does to the ids that follow (full-trace/full_trace.cpp).
use llvm_tracer.Prelude.{
  ℕ, ◌<◌, length, true, false, ◌≡◌, negsuc, Option, none, some, ◌∷◌, Text, arith,
}
use llvm_tracer.Prelude.Result.{ok}
use llvm_tracer.Pass.Setup.{is_empty}
use llvm_tracer.Pass.Ids.{
  Value, NameTables, find_key, find_slot, copy_to_buffer, get_value_name, get_inst_id, name_bitcast,
}

-- A value without a name in the IR and in the debug information.
abbrev pub IsUnnamed : NameTables → Value → Type 0
IsUnnamed tables v = (is_empty v.name ≡ true) × (find_key v.key tables.value_debug_name ≡ none)

-- Take a cast with the slot -1, as a named value has it, of a named pointer, whose name fits the
-- buffer, while the slot -1 has no name. Then the pointer's name becomes the id of the cast, and
-- after it the id of each instruction without a name and with the slot -1, in place of its block
-- and count, which does not advance.
pub named_bitcast_takes_ids :
    (tables : NameTables) (cast pointer inst : Value) (instid : Text) (bbid : Option Text)
    (instc : Option ℕ)
    → cast.is_bitcast ≡ true
    → cast.slot ≡ negsuc 0
    → find_slot (negsuc 0) tables.slot_to_var_name ≡ none
    → pointer.is_pointer ≡ true
    → is_empty pointer.name ≡ false
    → length pointer.name < 256
    → inst.slot ≡ negsuc 0
    → IsUnnamed tables inst
    → (tables' : NameTables) × (name_bitcast cast pointer instid tables
        ≡ ok (pointer.name, tables'))
      × (get_inst_id tables' inst bbid instc ≡ ok (true, some pointer.name, instc))
unfolding name_bitcast get_inst_id get_value_name copy_to_buffer find_slot
named_bitcast_takes_ids tables cast pointer inst instid bbid instc is_cast no_slot unset is_pointer
      named short inst_slot unnamed =
    (
      record tables { slot_to_var_name = (negsuc 0, pointer.name) ∷ tables.slot_to_var_name },
      ground arith,
      ground (arith, unnamed.0, unnamed.1),
    )
