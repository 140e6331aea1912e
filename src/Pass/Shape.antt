-- ===== src/Pass/Shape.antt =====
-- The shape of what the handlers insert (full-trace/full_trace.cpp): lines, and one status call in
-- front of a return.
mod Lines
pub use Lines.{
  IsLine, AreLines, param_of, is_printed, IsOneLine, print_param_line-IsOneLine, one_line-AreLines,
  print_param_line-AreLines, IsResult, line_opcode, AreLinesFor, all_printed, down_to, up_from,
  line_numbers, append-AreLinesFor, print_param_line-AreLinesFor, IsHeaded, IsHandled,
}
use llvm_tracer.Prelude.{
  ℕ, zero, suc, length, ◌≡◌, refl, sym, subst, ◌&&◌, arith, Bool, true, false, Bool-cases, inl, inr,
  All-append, some, List, [], ◌∷◌, ◌++◌, Text, codes,
}
use llvm_tracer.Prelude.Result.{err, or_fault, bad_pointer, assertion_failed}
use llvm_tracer.Runtime.State.{result_line}
use llvm_tracer.Pass.Ensures.{Ensures, after, after_with, either, weaken}
use llvm_tracer.Pass.Setup.{Tracer, CalledFunction, is_empty}
use llvm_tracer.Pass.Sizes.{IrType, get_mem_size}
use llvm_tracer.Pass.Ids.{NameTables, make_value_id, copy_to_buffer}
use llvm_tracer.Pass.Opcodes.{Opcodes, call_opcode}
use llvm_tracer.Pass.Inserted.{ParamLine, Inserted, InstEnv, print_param_line}
use llvm_tracer.Pass.Handlers.{
  IrOperand, Instruction, Incoming, or_before, last, operand_params, phi_operand_params,
  print_operand_line, print_operands, print_call_args, print_phi_operand, print_phi_operands,
  print_result_line, bitcast_name, handle_call_instruction, handle_non_phi_non_call_instruction,
  handle_instruction_result,
}

module _ (p : IrType → ℕ) where
  print_operand_line-AreLinesFor :
      (tables : NameTables) (b : Bool) (k : ℕ) (o : IrOperand)
      → Ensures
          (AreLinesFor (is_printed o.typed.type_of) (k ∷ []))
          (print_operand_line p tables b k o)
  unfolding print_operand_line
  print_operand_line-AreLinesFor tables b k o =
      let Goal = AreLinesFor (is_printed o.typed.type_of) (k ∷ []) in
      after Goal (get_mem_size p o.typed.type_of) _ λ size.
        after Goal (operand_params tables o) _ λ (is_reg, operand_name, value).
          print_param_line-AreLinesFor
            (record {
              param_num = k;
              size = size;
              is_reg = is_reg;
              reg_id = operand_name;
              is_phi = false;
              prev_bbid = codes "phi";
            })
            o.typed.type_of value b

  print_operands-AreLinesFor :
      (tables : NameTables) (k : ℕ) (os : List IrOperand)
      → Ensures (AreLinesFor (all_printed os) (down_to k os)) (print_operands p tables k os)
  unfolding print_operands
  print_operands-AreLinesFor tables k [] = (tt, inr refl)
  print_operands-AreLinesFor tables k (o ∷ os) =
      let Goal = AreLinesFor (all_printed (o ∷ os)) (down_to k (o ∷ os)) in
      after_with Goal (AreLinesFor (all_printed os) (down_to (suc k) os))
        (print_operands p tables (suc k) os) _ (print_operands-AreLinesFor tables (suc k) os)
        λ lines h.
          after_with Goal (AreLinesFor (is_printed o.typed.type_of) (k ∷ []))
            (print_operand_line p tables false k o) _
            (print_operand_line-AreLinesFor tables false k o)
            λ line h'.
              swapped (all_printed os) (is_printed o.typed.type_of) (down_to (suc k) os ++ (k ∷ []))
                (lines ++ line)
                (append-AreLinesFor (all_printed os) (is_printed o.typed.type_of)
                  (down_to (suc k) os) (k ∷ []) lines line h h')
    where
      swapped :
          (a b : Bool) (ns : List ℕ) (calls : List Inserted)
          → AreLinesFor (a && b) ns calls
          → AreLinesFor (b && a) ns calls
      swapped true true ns calls h = h
      swapped true false ns calls h = h
      swapped false true ns calls h = h
      swapped false false ns calls h = h

  -- The lines of the arguments of a call, of which there are `n`.
  print_call_args-AreLinesFor :
      (tables : NameTables) (b : Bool) (k n : ℕ) (os : List IrOperand)
      → Ensures (AreLinesFor (all_printed os) (up_from k n)) (print_call_args p tables b k n os)
  unfolding print_call_args
  print_call_args-AreLinesFor tables b k zero os = (tt, inr refl)
  print_call_args-AreLinesFor tables b k (suc n) [] = tt
  print_call_args-AreLinesFor tables b k (suc n) (o ∷ os) =
      let Goal = AreLinesFor (all_printed (o ∷ os)) (up_from k (suc n)) in
      after_with Goal (AreLinesFor (is_printed o.typed.type_of) (k ∷ []))
        (print_operand_line p tables b k o) _ (print_operand_line-AreLinesFor tables b k o)
        λ line h.
          after_with Goal (AreLinesFor (all_printed os) (up_from (suc k) n))
            (print_call_args p tables b (suc k) n os) _
            (print_call_args-AreLinesFor tables b (suc k) n os)
            λ lines h'.
              append-AreLinesFor (is_printed o.typed.type_of) (all_printed os) (k ∷ [])
                (up_from (suc k) n) line lines h h'

  -- The last operand is printed if all are.
  all_printed-last :
      (os : List IrOperand)
      → Ensures
          (λ (o : IrOperand). (is_printed o.typed.type_of && all_printed os) ≡ all_printed os)
          (or_fault (last os) bad_pointer)
  all_printed-last [] = tt
  all_printed-last (o ∷ []) = ground arith
  all_printed-last (o ∷ o' ∷ os) =
      weaken
        (λ (x : IrOperand).
          (is_printed x.typed.type_of && all_printed (o' ∷ os)) ≡ all_printed (o' ∷ os))
        (λ (x : IrOperand).
          (is_printed x.typed.type_of && all_printed (o ∷ o' ∷ os)) ≡ all_printed (o ∷ o' ∷ os))
        (or_fault (last (o' ∷ os)) bad_pointer) (all_printed-last (o' ∷ os))
        λ x e. absorbed (is_printed x.typed.type_of) (is_printed o.typed.type_of) _ e
    where
      absorbed : (a b c : Bool) → (a && c) ≡ c → (a && (b && c)) ≡ (b && c)
      absorbed true b c e = refl
      absorbed false true c e = e
      absorbed false false c e = refl

  -- The lines of a phi node come with two buffers.
  abbrev AreFirst : List Inserted × Text × Text → Type 0
  AreFirst r = AreLines r.0

  print_phi_operand-AreLines :
      (tables : NameTables) (k : ℕ) (i : Incoming) (prev buffer : Text)
      → Ensures AreFirst (print_phi_operand p tables k i prev buffer)
  unfolding print_phi_operand
  print_phi_operand-AreLines tables k i prev buffer =
      after AreFirst (make_value_id tables i.block (some i.depth)) _ λ id.
        after AreFirst (get_mem_size p i.operand.typed.type_of) _ λ size.
          after AreFirst (phi_operand_params tables i.operand buffer) _ λ named.
            let line : ParamLine = record {
              param_num = k;
              size = size;
              is_reg = named.0;
              reg_id = named.1;
              is_phi = true;
              prev_bbid = or_before id prev;
            } in
            after_with AreFirst AreLines
              (print_param_line line i.operand.typed.type_of named.2 false) _
              (print_param_line-AreLines line i.operand.typed.type_of named.2 false) λ lines h. h

  pub print_phi_operands-AreLines :
      (tables : NameTables) (k : ℕ) (is' : List Incoming) (prev buffer : Text)
      → Ensures AreFirst (print_phi_operands p tables k is' prev buffer)
  unfolding print_phi_operands
  print_phi_operands-AreLines tables k [] prev buffer = tt
  print_phi_operands-AreLines tables k (i ∷ is') prev buffer =
      after_with AreFirst AreFirst (print_phi_operands p tables (suc k) is' prev buffer) _
        (print_phi_operands-AreLines tables (suc k) is' prev buffer)
        λ (lines, prev', buffer') h.
          after_with AreFirst AreFirst (print_phi_operand p tables k i prev' buffer') _
            (print_phi_operand-AreLines tables k i prev' buffer')
            λ r h'. All-append IsLine lines r.0 h h'

  pub print_result_line-IsResult :
      (instid prev : Text) (inst : Instruction)
      → Ensures (IsResult inst.typed.type_of) (print_result_line p instid prev inst)
  unfolding print_result_line
  print_result_line-IsResult instid prev inst =
      let Goal : List Inserted → Type 0 = IsResult inst.typed.type_of in
      after Goal (get_mem_size p inst.typed.type_of) _ λ size.
        let line : ParamLine = record {
          param_num = result_line;
          size = size;
          is_reg = true;
          reg_id = instid;
          is_phi = false;
          prev_bbid = prev;
        } in
        let call = print_param_line line inst.typed.type_of (some inst.typed) false in
        either Goal inst.is_terminator (err assertion_failed) call tt
          (elim (Bool-cases (is_printed inst.typed.type_of)) [
            | inl printed ↦
                weaken (IsOneLine result_line) Goal call
                  (print_param_line-IsOneLine line inst.typed.type_of inst.typed false printed)
                  λ calls h. (one_line-AreLines result_line calls h, inr h)
            | inr other ↦
                weaken AreLines Goal call
                  (print_param_line-AreLines line inst.typed.type_of (some inst.typed) false)
                  λ calls h. (h, inl other)
          ])

  pub handle_instruction_result-IsResult :
      (tables : NameTables) (inst : Instruction) (instid : Text)
      → Ensures
          (λ (r : List Inserted × Text × NameTables). IsResult inst.typed.type_of r.0)
          (handle_instruction_result p tables inst instid)
  unfolding handle_instruction_result
  handle_instruction_result-IsResult tables inst instid =
      let Goal : List Inserted × Text × NameTables → Type 0 =
        λ r. IsResult inst.typed.type_of r.0 in
      after Goal (bitcast_name tables inst instid) _ λ (id, tables').
        after_with Goal (IsResult inst.typed.type_of) (print_result_line p id (codes "phi") inst) _
          (print_result_line-IsResult id (codes "phi") inst) λ lines h. h

  module _ (opcodes : Opcodes) (tracer : Tracer) where
    pub handle_call_instruction-IsHeaded :
        (tables : NameTables) (inst : Instruction) (fun : CalledFunction) (n : ℕ) (env : InstEnv)
        → Ensures
            (IsHeaded opcodes tracer env
              (call_opcode fun inst.opcode)
              (all_printed inst.operands)
              (length inst.operands ∷ up_from 1 n))
            (handle_call_instruction p opcodes tracer tables inst fun n env)
    unfolding handle_call_instruction
    handle_call_instruction-IsHeaded tables inst fun n env =
        let os = inst.operands in
        let Goal : List Inserted → Type 0 =
          IsHeaded opcodes tracer env (call_opcode fun inst.opcode) (all_printed os)
            (length os ∷ up_from 1 n) in
        after Goal (copy_to_buffer fun.name) _ λ caller_op_name.
          after_with Goal
            (λ (o : IrOperand). (is_printed o.typed.type_of && all_printed os) ≡ all_printed os)
            (or_fault (last os) bad_pointer) _ (all_printed-last os)
            λ callee absorbed. after Goal (get_mem_size p callee.typed.type_of) _ λ size.
              let line : ParamLine = record {
                param_num = length os;
                size = size;
                is_reg = true;
                reg_id = caller_op_name;
                is_phi = false;
                prev_bbid = codes "phi";
              } in
              after_with Goal (AreLinesFor (is_printed callee.typed.type_of) (length os ∷ []))
                (print_param_line line callee.typed.type_of (some callee.typed) fun.is_intrinsic) _
                (print_param_line-AreLinesFor line callee.typed.type_of (some callee.typed)
                  fun.is_intrinsic)
                λ head h.
                  after_with Goal (AreLinesFor (all_printed os) (up_from 1 n))
                    (print_call_args p tables fun.is_intrinsic 1 n os) _
                    (print_call_args-AreLinesFor tables fun.is_intrinsic 1 n os)
                    λ args h'.
                      either Goal (is_empty callee.typed.value.name) (err assertion_failed) _ tt (
                        head ++ args,
                        subst (λ b. AreLinesFor b (length os ∷ up_from 1 n) (head ++ args)) absorbed
                            (append-AreLinesFor (is_printed callee.typed.type_of) (all_printed os)
                              (length os ∷ []) (up_from 1 n) head args h h'),
                        refl,
                      )

    pub handle_non_phi_non_call_instruction-IsHandled :
        (tables : NameTables) (inst : Instruction) (env : InstEnv)
        → line_opcode inst.kind inst.opcode ≡ inst.opcode
        → line_numbers inst.kind inst.operands ≡ down_to 1 inst.operands
        → Ensures
            (IsHandled opcodes tracer inst env)
            (handle_non_phi_non_call_instruction p opcodes tracer tables inst env)
    unfolding handle_non_phi_non_call_instruction
    handle_non_phi_non_call_instruction-IsHandled tables inst env same numbers =
        let os = inst.operands in
        after_with (IsHandled opcodes tracer inst env) (AreLinesFor (all_printed os) (down_to 1 os))
          (print_operands p tables 1 os) _ (print_operands-AreLinesFor tables 1 os)
          λ lines h. (
            lines,
            subst (λ ns. AreLinesFor (all_printed os) ns lines) (sym numbers) h,
            rw same refl,
          )
