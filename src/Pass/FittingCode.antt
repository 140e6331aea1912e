-- ===== src/Pass/FittingCode.antt =====
-- Instructions for which the pass inserts its calls without a fault (full-trace/full_trace.cpp).
use llvm_tracer.Prelude.{
  ℕ, zero, suc, ◌≤◌, length, ltb, ◌≡◌, refl, sym, subst, Bool, true, false, inl, inr, ◌⊎◌, All,
  All-append, Option, none, some, List, [], ◌∷◌, Text, codes, if◌then◌else◌, arith,
}
use llvm_tracer.Prelude.Result.{err, ok, or_fault, assertion_failed, bad_pointer}
use llvm_tracer.Runtime.State.{result_line}
use llvm_tracer.Pass.Succeeds.{Succeeds, Any, then_with, chosen, forget}
use llvm_tracer.Pass.VectorBuffers.{IsPlain}
use llvm_tracer.Pass.Stores.{IsStorable}
use llvm_tracer.Pass.Fitting.{
  IsShort, HasShortName, IsFitting, IsFittingValue, IsNamed, copy_fits, name_IsShort,
  operand_id_fits, block_id_fits, label_id_fits, name_bitcast_fits,
}
use llvm_tracer.Pass.Setup.{Tracer, CalledFunction, is_empty}
use llvm_tracer.Pass.Sizes.{
  IrType, pointer, function, label_type, struct, floating_point, integer, vector, array, unknown,
  get_mem_size,
}
use llvm_tracer.Pass.Ids.{
  Value, NameTables, copy_to_buffer, get_value_name, get_inst_id, make_value_id, name_bitcast,
}
use llvm_tracer.Pass.Opcodes.{Opcodes}
use llvm_tracer.Pass.Inserted.{
  TypedValue, ConstantString, no_string, constant_bytes, no_initializer, fits_double, ParamLine,
  Passed, Inserted, log_ptr, log_string, InstEnv, print_param_line, print_first_line,
  update_tracer_status, vector_type_of, is_label_type,
}
use llvm_tracer.Pass.Handlers.{
  IrOperand, call_inst, is_return, Instruction, Incoming, PhiNode, or_before, last,
  set_operand_name_and_reg, operand_params, phi_operand_params, bitcast_name, print_operand_line,
  print_operands, print_call_args, print_phi_operand, print_phi_operands, print_result_line,
  handle_call_instruction, handle_non_phi_non_call_instruction, handle_instruction_result,
}
use llvm_tracer.Pass.Blocks.{declared}

-- There is a value behind a pointer to a global variable.
abbrev pub has_initializer : ConstantString → Bool
has_initializer no_initializer = false
has_initializer _ = true

module _ (p : IrType → ℕ) where
  -- The type has a size.
  abbrev pub IsSized : IrType → Type 0
  IsSized t = Succeeds Any (get_mem_size p t)

  -- A value that can be printed: an integer of at most 64 bits, a number that is not wider than
  -- `double`, a pointer that is not the address of a global variable without an initializer, and a
  -- vector of numbers of whole bytes.
  abbrev pub IsPrintableType : IrType → ConstantString → Option ℕ → Type 0
  IsPrintableType (integer bits) s pointee = ltb 64 bits ≡ false
  IsPrintableType (floating_point kind) s pointee = fits_double kind ≡ true
  IsPrintableType pointer s pointee = has_initializer s ≡ true
  IsPrintableType (vector n element) s pointee = IsPlain (vector_type_of p n element pointee)
  IsPrintableType _ s pointee = Unit {0}

  abbrev pub IsPrintable : TypedValue → Type 0
  IsPrintable o = IsPrintableType o.type_of o.constant_string o.pointee

  -- Calls whose vectors can be stored.
  abbrev pub AreCalls : List Inserted → Type 0
  AreCalls = All (IsStorable p)

  -- No value, or the one value.
  abbrev IsOr : TypedValue → Option TypedValue → Type 0
  IsOr o none = Unit {0}
  IsOr o (some o') = o' ≡ o

  pub print_value_fits :
      (line : ParamLine) (t : IrType) (o : TypedValue) (b : Bool)
      → IsPrintableType t o.constant_string o.pointee
      → Succeeds AreCalls (print_param_line line t (some o) b)
  unfolding print_param_line
  print_value_fits line (integer bits) o b h = rw h (tt, tt)
  print_value_fits line (floating_point kind) o b h = rw h (tt, tt)
  print_value_fits line pointer o true h = (tt, tt)
  print_value_fits line pointer o false h = of_string o.constant_string h
    where
      of_string :
          (s : ConstantString)
          → has_initializer s ≡ true
          → Succeeds AreCalls (elim s [
            | no_string ↦ ok (log_ptr line (Passed.value_of o.value) ∷ [])
            | constant_bytes text ↦ ok (log_string line (Passed.string_of text) ∷ [])
            | no_initializer ↦ err assertion_failed
          ])
      of_string no_string e = (tt, tt)
      of_string (constant_bytes text) e = (tt, tt)
      of_string no_initializer e = cc
  print_value_fits line (vector n element) o b h = (h, tt)
  print_value_fits line function o b h = tt
  print_value_fits line label_type o b h = tt
  print_value_fits line (struct elements) o b h = tt
  print_value_fits line (array n element) o b h = tt
  print_value_fits line (unknown bits) o b h = tt

  pub print_param_line_fits :
      (line : ParamLine) (o : TypedValue) (v : Option TypedValue) (b : Bool)
      → IsPrintable o
      → IsOr o v
      → Succeeds AreCalls (print_param_line line o.type_of v b)
  unfolding print_param_line
  print_param_line_fits line o none b h same = (tt, tt)
  print_param_line_fits line o (some o') b h same =
      subst (λ (x : TypedValue). Succeeds AreCalls (print_param_line line o.type_of (some x) b))
        (sym same) (print_value_fits line o.type_of o b h)

  -- An operand with a fitting name, a size and a value that can be printed; an instruction has a
  -- name or a slot, and so does a label that is no basic block.
  pub record IsFittingOperand (o : IrOperand) : Type 0 where
    pub value_fits : IsFittingValue o.typed.value
    pub sized : IsSized o.typed.type_of
    pub printable : IsPrintable o.typed
    pub instruction_named : o.is_instruction ≡ true → IsNamed o.typed.value
    pub label_named :
        is_label_type o.typed.type_of ≡ true
        → ((d : ℕ) × (o.loop_depth ≡ some d)) ⊎ IsNamed o.typed.value

  pub record IsFittingInstruction (inst : Instruction) : Type 0 where
    pub value_fits : IsFittingValue inst.typed.value
    pub operands_fit : All IsFittingOperand inst.operands
    pub result_fits :
        inst.has_result ≡ true
        → IsSized inst.typed.type_of × IsPrintable inst.typed × (inst.is_terminator ≡ false)
    pub call_fits :
        (fun : CalledFunction) (n : ℕ)
        → inst.kind ≡ call_inst (some fun) n
        → IsShort fun.name
          × (n ≤ length inst.operands)
          × ((callee : IrOperand) × (last inst.operands ≡ some callee)
              × IsFittingOperand callee
              × (is_empty callee.typed.value.name ≡ false))
    pub declaration_fits :
        (v : Value) (name : Option Text) → declared inst.debug ≡ some (v, name) → HasShortName name

  pub record IsFittingPhi (phi : PhiNode) : Type 0 where
    pub inst_fits : IsFittingInstruction phi.inst
    pub incoming_fit :
        All (λ (i : Incoming). IsFittingOperand i.operand × IsFittingValue i.block) phi.incoming

  module _ (tables : NameTables) (fits : IsFitting tables) where
    label_fits :
        (v : Value)
        → IsFittingValue v
        → (depth : Option ℕ) → ((d : ℕ) × (depth ≡ some d)) ⊎ IsNamed v
        → Succeeds Any (make_value_id tables v depth)
    label_fits v h (some d) named =
        forget _ (make_value_id tables v (some d)) (block_id_fits tables fits v d h)
    label_fits v h none (inl (d, e)) = cc
    label_fits v h none (inr named) = label_id_fits tables fits v h named

    abbrev IsParams : TypedValue → Bool × Text × Option TypedValue → Type 0
    IsParams o r = IsOr o r.2

    operand_params_fit :
        (o : IrOperand) → IsFittingOperand o → Succeeds (IsParams o.typed) (operand_params tables o)
    unfolding operand_params
    operand_params_fit o h =
        let Goal : Bool × Text × Option TypedValue → Type 0 = IsParams o.typed in
        then_with Goal (λ b. b ≡ (get_value_name tables o.typed.value).1)
          (copy_to_buffer (get_value_name tables o.typed.value).1) _
          (copy_fits _ 200 (name_IsShort tables fits o.typed.value h.value_fits) (omega arith))
          λ buffer e.
            chosen Goal o.is_instruction _ _
              (λ is_inst.
                then_with Goal Any (set_operand_name_and_reg tables o.typed.value buffer) _
                  (then_with Any Any (get_inst_id tables o.typed.value none none) _
                    (operand_id_fits tables fits o.typed.value h.value_fits
                      (h.instruction_named is_inst))
                    λ r _. tt)
                  λ r _. refl)
              (λ _.
                chosen Goal (is_label_type o.typed.type_of) _ _
                  (λ is_label.
                    then_with Goal Any (make_value_id tables o.typed.value o.loop_depth) _
                      (label_fits o.typed.value h.value_fits o.loop_depth (h.label_named is_label))
                      λ id _. tt)
                  (λ _. chosen Goal o.typed.is_function _ _ (λ _. tt) (λ _. refl)))

    print_operand_line_fits :
        (b : Bool) (k : ℕ) (o : IrOperand)
        → IsFittingOperand o
        → Succeeds AreCalls (print_operand_line p tables b k o)
    unfolding print_operand_line
    print_operand_line_fits b k o h =
        then_with AreCalls Any (get_mem_size p o.typed.type_of) _ h.sized λ size _.
          then_with AreCalls (IsParams o.typed) (operand_params tables o) _ (operand_params_fit o h)
            λ (is_reg, name, value) same.
              print_param_line_fits
                (record {
                  param_num = k;
                  size = size;
                  is_reg = is_reg;
                  reg_id = name;
                  is_phi = false;
                  prev_bbid = codes "phi";
                })
                o.typed value b h.printable same

    print_operands_fit :
        (k : ℕ) (os : List IrOperand)
        → All IsFittingOperand os
        → Succeeds AreCalls (print_operands p tables k os)
    unfolding print_operands
    print_operands_fit k [] h = tt
    print_operands_fit k (o ∷ os) h =
        then_with AreCalls AreCalls (print_operands p tables (suc k) os) _
          (print_operands_fit (suc k) os h.1)
          λ lines stored.
            then_with AreCalls AreCalls (print_operand_line p tables false k o) _
              (print_operand_line_fits false k o h.0)
              λ line stored'. All-append (IsStorable p) lines line stored stored'

    print_call_args_fit :
        (b : Bool) (k n : ℕ) (os : List IrOperand)
        → All IsFittingOperand os
        → n ≤ length os
        → Succeeds AreCalls (print_call_args p tables b k n os)
    unfolding print_call_args
    print_call_args_fit b k zero os h few = tt
    print_call_args_fit b k (suc n) [] h few = absurd (omega (arith, few))
    print_call_args_fit b k (suc n) (o ∷ os) h few =
        then_with AreCalls AreCalls (print_operand_line p tables b k o) _
          (print_operand_line_fits b k o h.0)
          λ line stored.
            then_with AreCalls AreCalls (print_call_args p tables b (suc k) n os) _
              (print_call_args_fit b (suc k) n os h.1 (omega (arith, few)))
              λ lines stored'. All-append (IsStorable p) line lines stored stored'

    pub print_result_line_fits :
        (instid prev : Text) (inst : Instruction)
        → IsSized inst.typed.type_of
        → IsPrintable inst.typed
        → inst.is_terminator ≡ false
        → Succeeds AreCalls (print_result_line p instid prev inst)
    unfolding print_result_line
    print_result_line_fits instid prev inst sized printable no_end =
        then_with AreCalls Any (get_mem_size p inst.typed.type_of) _ sized λ size _.
          chosen AreCalls inst.is_terminator _ _ (λ end. absurd (ground (arith, end, no_end)))
            (λ _.
              print_value_fits
                (record {
                  param_num = result_line;
                  size = size;
                  is_reg = true;
                  reg_id = instid;
                  is_phi = false;
                  prev_bbid = prev;
                })
                inst.typed.type_of inst.typed false printable)

    phi_operand_params_fit :
        (o : IrOperand) (buffer : Text)
        → IsFittingOperand o
        → Succeeds (IsParams o.typed) (phi_operand_params tables o buffer)
    unfolding phi_operand_params set_operand_name_and_reg
    phi_operand_params_fit o buffer h =
        let Goal : Bool × Text × Option TypedValue → Type 0 = IsParams o.typed in
        chosen Goal o.is_instruction _ _
          (λ is_inst.
            then_with Goal Any (set_operand_name_and_reg tables o.typed.value buffer) _
              (then_with Any Any (get_inst_id tables o.typed.value none none) _
                (operand_id_fits tables fits o.typed.value h.value_fits
                  (h.instruction_named is_inst))
                λ r _. tt)
              λ r _. tt)
          (λ _.
            then_with Goal (λ b. b ≡ (get_value_name tables o.typed.value).1)
              (copy_to_buffer (get_value_name tables o.typed.value).1) _
              (copy_fits _ 200 (name_IsShort tables fits o.typed.value h.value_fits) (omega arith))
              λ b _. refl)

    -- The lines of a phi node come with two buffers.
    abbrev pub AreFirst : List Inserted × Text × Text → Type 0
    AreFirst r = AreCalls r.0

    print_phi_operand_fits :
        (k : ℕ) (i : Incoming) (prev buffer : Text)
        → IsFittingOperand i.operand
        → IsFittingValue i.block
        → Succeeds AreFirst (print_phi_operand p tables k i prev buffer)
    unfolding print_phi_operand
    print_phi_operand_fits k i prev buffer h b =
        then_with AreFirst Any (make_value_id tables i.block (some i.depth)) _
          (forget _ (make_value_id tables i.block (some i.depth))
            (block_id_fits tables fits i.block i.depth b))
          λ id _.
            then_with AreFirst Any (get_mem_size p i.operand.typed.type_of) _ h.sized λ size _.
              then_with AreFirst (IsParams i.operand.typed)
                (phi_operand_params tables i.operand buffer) _
                (phi_operand_params_fit i.operand buffer h)
                λ (is_reg, name, value) same.
                  let line : ParamLine = record {
                    param_num = k;
                    size = size;
                    is_reg = is_reg;
                    reg_id = name;
                    is_phi = true;
                    prev_bbid = or_before id prev;
                  } in
                  then_with AreFirst AreCalls
                    (print_param_line line i.operand.typed.type_of value false) _
                    (print_param_line_fits line i.operand.typed value false h.printable same)
                    λ lines stored. stored

    pub print_phi_operands_fit :
        (k : ℕ) (incoming : List Incoming) (prev buffer : Text)
        → All (λ (i : Incoming). IsFittingOperand i.operand × IsFittingValue i.block) incoming
        → Succeeds AreFirst (print_phi_operands p tables k incoming prev buffer)
    unfolding print_phi_operands
    print_phi_operands_fit k [] prev buffer h = tt
    print_phi_operands_fit k (i ∷ incoming) prev buffer h =
        then_with AreFirst AreFirst (print_phi_operands p tables (suc k) incoming prev buffer) _
          (print_phi_operands_fit (suc k) incoming prev buffer h.1)
          λ (lines, prev', buffer') stored.
            then_with AreFirst AreFirst (print_phi_operand p tables k i prev' buffer') _
              (print_phi_operand_fits k i prev' buffer' h.0.0 h.0.1)
              λ r stored'. All-append (IsStorable p) lines r.0 stored stored'

    bitcast_name_fits :
        (inst : Instruction) (instid : Text) (os : List IrOperand)
        → All IsFittingOperand os
        → Succeeds
            (λ (r : Text × NameTables). IsFitting r.1)
            (elim os [
              | [] ↦ ok (instid, tables)
              | o ∷ operands ↦ name_bitcast inst.typed.value o.typed.value instid tables
            ])
    bitcast_name_fits inst instid [] h = fits
    bitcast_name_fits inst instid (o ∷ os) h =
        name_bitcast_fits tables fits inst.typed.value o.typed.value instid h.0.value_fits

    pub handle_instruction_result_fits :
        (inst : Instruction) (instid : Text)
        → IsFittingInstruction inst
        → inst.has_result ≡ true
        → Succeeds
            (λ (r : List Inserted × Text × NameTables). AreCalls r.0 × IsFitting r.2)
            (handle_instruction_result p tables inst instid)
    unfolding handle_instruction_result
    handle_instruction_result_fits inst instid h has =
        let Goal : List Inserted × Text × NameTables → Type 0 = λ r. AreCalls r.0 × IsFitting r.2 in
        then_with Goal (λ (r : Text × NameTables). IsFitting r.1) (bitcast_name tables inst instid)
          _ (bitcast_name_fits inst instid inst.operands h.operands_fit)
          λ (id, tables') fits'.
            let (sized, printable, no_end) = h.result_fits has in
            then_with Goal AreCalls (print_result_line p id (codes "phi") inst) _
              (print_result_line_fits id (codes "phi") inst sized printable no_end)
              λ lines stored. (stored, fits')

    module _ (opcodes : Opcodes) (tracer : Tracer) where
      abbrev IsCallee : IrOperand → Type 0
      IsCallee o = IsFittingOperand o × (is_empty o.typed.value.name ≡ false)

      pub handle_call_instruction_fits :
          (inst : Instruction) (fun : CalledFunction) (n : ℕ) (env : InstEnv)
          → IsFittingInstruction inst
          → inst.kind ≡ call_inst (some fun) n
          → Succeeds AreCalls (handle_call_instruction p opcodes tracer tables inst fun n env)
      unfolding handle_call_instruction print_first_line
      handle_call_instruction_fits inst fun n env h e =
          let (short, few, (callee, is_last, callee_fits, named)) = h.call_fits fun n e in
          then_with AreCalls (λ b. b ≡ fun.name) (copy_to_buffer fun.name) _
            (copy_fits fun.name 200 short (omega arith))
            λ name _.
              then_with AreCalls IsCallee (or_fault (last inst.operands) bad_pointer) _
                (rw is_last (callee_fits, named))
                λ o (fits_o, named_o).
                  then_with AreCalls Any (get_mem_size p o.typed.type_of) _ fits_o.sized λ size _.
                    let line : ParamLine = record {
                      param_num = length inst.operands;
                      size = size;
                      is_reg = true;
                      reg_id = name;
                      is_phi = false;
                      prev_bbid = codes "phi";
                    } in
                    then_with AreCalls AreCalls
                      (print_param_line line o.typed.type_of (some o.typed) fun.is_intrinsic) _
                      (print_value_fits line o.typed.type_of o.typed fun.is_intrinsic
                        fits_o.printable)
                      λ head stored.
                        then_with AreCalls AreCalls
                          (print_call_args p tables fun.is_intrinsic 1 n inst.operands) _
                          (print_call_args_fit fun.is_intrinsic 1 n inst.operands h.operands_fit
                            few)
                          λ args stored'.
                            chosen AreCalls (is_empty o.typed.value.name) (err assertion_failed) _
                              (λ unnamed. absurd (ground (arith, unnamed, named_o)))
                              (λ _. (tt, All-append (IsStorable p) head args stored stored'))

      pub handle_non_phi_non_call_instruction_fits :
          (inst : Instruction) (env : InstEnv)
          → IsFittingInstruction inst
          → Succeeds AreCalls (handle_non_phi_non_call_instruction p opcodes tracer tables inst env)
      unfolding handle_non_phi_non_call_instruction print_first_line update_tracer_status
      handle_non_phi_non_call_instruction_fits inst env h =
          then_with AreCalls AreCalls (print_operands p tables 1 inst.operands) _
            (print_operands_fit 1 inst.operands h.operands_fit)
            λ lines stored.
              (tt, All-append (IsStorable p) lines _ stored (status (is_return inst.kind)))
        where
          status :
              (b : Bool)
              → AreCalls
                  (if b then update_tracer_status opcodes tracer env inst.opcode ∷ [] else [])
          status true = (tt, tt)
          status false = tt
