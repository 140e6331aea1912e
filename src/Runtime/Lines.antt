-- ===== src/Runtime/Lines.antt =====
-- The lines of a trace: `trace_logger_log_entry`, `trace_logger_log0` and the five functions that
-- print an operand (profile-func/trace_logger.cpp).
use llvm_tracer.Prelude.{ℕ, ◌+◌, ◌%◌, ◌/◌, ◌^◌, ℤ, pos, to_int64, Bool, not}
use llvm_tracer.Prelude.{none, some, ◌++◌, Text, codes, if◌then◌else◌, is_pos, replicate}
use llvm_tracer.Prelude.Decimal.{show_int, show_hex}
use llvm_tracer.Prelude.Result.{Result, ok, ◌>>=◌}
use llvm_tracer.Runtime.Gz.{Gz}
use llvm_tracer.Runtime.State.{
  World, the_trace, the_file, result_line, forward_line, default_trace_name,
}
use llvm_tracer.Runtime.Files.{create_trace, open_trace_file}
use llvm_tracer.Runtime.Status.{does_not_log}
use llvm_tracer.Runtime.Hex.{convert_bytes_to_hex, c_string}

-- The common arguments of the functions that print an operand.
pub record Operand : Type 0 where
  pub line : ℤ
  pub size : ℤ
  pub is_reg : ℤ
  pub label : Text
  pub is_phi : ℤ
  pub prev_bbid : Text

abbrev pub nonzero : ℤ → Bool
nonzero n = not (is_pos 0 n)

-- `\nentry,%s,%d,\n`
unfoldable pub entry_line : Text → ℤ → Text
entry_line func_name num_parameters =
    codes "\nentry," ++ (func_name ++ (codes "," ++ (show_int num_parameters ++ codes ",\n")))

-- `\n0,%d,%s,%s,%s,%d,%ld\n`
unfoldable pub first_line : ℤ → Text → Text → Text → ℤ → ℕ → Text
first_line line_number name bbid instid opcode inst_count =
    codes "\n0,"
    ++ (show_int line_number
        ++ (codes ","
            ++ (name
                ++ (codes ","
                    ++ (bbid
                        ++ (codes ","
                            ++ (instid
                                ++ (codes ","
                                    ++ (show_int opcode
                                        ++ (codes ","
                                            ++ (show_int (to_int64 inst_count)
                                                ++ codes "\n")))))))))))

unfoldable pub line_tag : ℤ → Text
line_tag line =
    if is_pos result_line line
    then codes "r"
    else if is_pos forward_line line
    then codes "f"
    else show_int line

-- The three formatted writes of an operand, the first with its value already converted.
unfoldable pub operand_head : Operand → Text → Text
operand_head o value =
    line_tag o.line
    ++ (codes ","
        ++ (show_int o.size ++ (codes "," ++ (value ++ (codes "," ++ show_int o.is_reg)))))

unfoldable pub operand_label : Operand → Text
operand_label o = if nonzero o.is_reg then codes "," ++ o.label else codes ", "

unfoldable pub operand_tail : Operand → Text
operand_tail o = if nonzero o.is_phi then codes "," ++ (o.prev_bbid ++ codes ",\n") else codes ",\n"

module _ {z : Gz} where
  unfoldable pub print_operand : Operand → Text → World z → Result (World z)
  unfolding operand_head operand_label operand_tail
  print_operand o value w = do
    t ← the_trace w
    gz_file ← the_file t
    let d₁ = z.gzprintf gz_file (operand_head o value) w.disk
    let d₂ = z.gzprintf gz_file (operand_label o) d₁
    ok (record w { disk = z.gzprintf gz_file (operand_tail o) d₂ })

  unfoldable pub print_entry : Text → ℤ → World z → Result (World z)
  print_entry func_name num_parameters w = do
    opened ← open_trace_file w
    t ← the_trace opened
    gz_file ← the_file t
    ok (record opened {
      disk = z.gzprintf gz_file (entry_line func_name num_parameters) opened.disk;
    })

  unfoldable pub create_if_missing : World z → Result (World z)
  unfolding create_trace
  create_if_missing w = elim w.trace [ none ↦ create_trace default_trace_name w | some t ↦ ok w ]

  unfoldable pub trace_logger_log_entry : Text → ℤ → World z → Result (World z)
  unfolding create_if_missing does_not_log print_entry
  trace_logger_log_entry func_name num_parameters w = do
    created ← create_if_missing w
    if does_not_log created then ok created else print_entry func_name num_parameters created

  unfoldable pub print_first_line : ℤ → Text → Text → Text → ℤ → World z → Result (World z)
  unfolding first_line
  print_first_line line_number name bbid instid opcode w = do
    t ← the_trace w
    gz_file ← the_file t
    let line = first_line line_number name bbid instid opcode t.inst_count
    ok (record w {
      disk = z.gzprintf gz_file line w.disk;
      trace = some (record t { inst_count = (t.inst_count + 1) % 2 ^ 64 });
    })

  unfoldable pub trace_logger_log0 : ℤ → Text → Text → Text → ℤ → World z → Result (World z)
  unfolding does_not_log print_first_line
  trace_logger_log0 line_number name bbid instid opcode w =
      if does_not_log w then ok w else print_first_line line_number name bbid instid opcode w

  unfoldable pub trace_logger_log_int : ℤ → Operand → World z → Result (World z)
  unfolding does_not_log print_operand
  trace_logger_log_int value o w =
      if does_not_log w then ok w else print_operand o (show_int value) w

  unfoldable pub trace_logger_log_ptr : ℕ → Operand → World z → Result (World z)
  unfolding does_not_log print_operand
  trace_logger_log_ptr value o w =
      if does_not_log w then ok w else print_operand o (show_hex value) w

  unfoldable pub trace_logger_log_string : Text → Operand → World z → Result (World z)
  unfolding does_not_log print_operand
  trace_logger_log_string value o w = if does_not_log w then ok w else print_operand o value w

  -- The floating-point type and the `%f` conversion of the C library are arguments.
  unfoldable pub trace_logger_log_double :
      {Double : Type 0} → (Double → Text) → Double → Operand → World z → Result (World z)
  unfolding does_not_log print_operand
  trace_logger_log_double show_double value o w =
      if does_not_log w then ok w else print_operand o (show_double value) w

  -- `value` is the memory that the pointer leads to; the bytes of `value_str` start as zeros,
  -- which C++ leaves undefined.
  unfoldable pub print_vector : ℕ → Text → Operand → World z → Result (World z)
  unfolding print_operand convert_bytes_to_hex
  print_vector size value o w = do
    value_str ← convert_bytes_to_hex (replicate (size / 4 + 3) 0) value (size / 8)
    print_operand (record o { size = pos size }) (c_string value_str) w

  unfoldable pub trace_logger_log_vector : ℕ → Text → Operand → World z → Result (World z)
  unfolding does_not_log print_vector
  trace_logger_log_vector size value o w =
      if does_not_log w then ok w else print_vector size value o w
