-- ===== src/Pass/Returns.antt =====
-- Blocks with and without a return (full-trace/full_trace.cpp): where the status call stands.
use llvm_tracer.Prelude.{
  ◌≡◌, refl, sym, subst, ap, ◌∙◌, Bool, false, All, All-append, map, List, [], ◌∷◌, ◌++◌,
  append_assoc, Text, if◌then◌else◌,
}
use llvm_tracer.Pass.Setup.{Tracer, is_tracked_function}
use llvm_tracer.Pass.Opcodes.{Opcodes, opcode_to_fixed_point}
use llvm_tracer.Pass.Inserted.{Inserted, update_status}
use llvm_tracer.Pass.Handlers.{return_inst, is_return, Instruction}
use llvm_tracer.Pass.Blocks.{BlockItem, original, inserted}
use llvm_tracer.Pass.Shape.{IsLine, AreLines}
use llvm_tracer.Pass.BlockShape.{IsAround-none_behind, return_status, Shaped}

-- Among the items only instructions and lines.
abbrev pub IsLineItem : BlockItem → Type 0
IsLineItem (original inst) = Unit {0}
IsLineItem (inserted c) = IsLine c

pub originals-AreLineItems : (insts : List Instruction) → All IsLineItem (map original insts)
originals-AreLineItems [] = tt
originals-AreLineItems (i ∷ insts) = (tt, originals-AreLineItems insts)

pub inserted-AreLineItems : (cs : List Inserted) → AreLines cs → All IsLineItem (map inserted cs)
inserted-AreLineItems [] h = tt
inserted-AreLineItems (c ∷ cs) h = (h.0, inserted-AreLineItems cs h.1)

in_front :
    (before : List Inserted) (c : Inserted) (inst : Instruction)
    → map inserted (before ++ (c ∷ [])) ++ (original inst ∷ [])
      ≡ map inserted before ++ (inserted c ∷ original inst ∷ [])
in_front [] c inst = refl
in_front (b ∷ before) c inst =
    ap (λ (items : List BlockItem). inserted b ∷ items) (in_front before c inst)

abbrev pub NoReturn : Instruction → Type 0
NoReturn inst = is_return inst.kind ≡ false

module _ (opcodes : Opcodes) (tracer : Tracer) (f : Text) (fxpt : Bool) where
  no_status :
      (inst : Instruction) → NoReturn inst → AreLines (return_status opcodes tracer f fxpt inst)
  no_status inst e = rw e tt

  -- The items of an instruction that is no return, in front of line items.
  round-AreLineItems :
      (inst : Instruction) (before behind : List Inserted) (rest : List BlockItem)
      → NoReturn inst
      → AreLines before
      → AreLines behind
      → All IsLineItem rest
      → All IsLineItem (
          map inserted (before ++ return_status opcodes tracer f fxpt inst)
          ++ (original inst ∷ map inserted behind ++ rest))
  round-AreLineItems inst before behind rest no_return h h' more =
      All-append IsLineItem (map inserted (before ++ return_status opcodes tracer f fxpt inst)) _
        (inserted-AreLineItems (before ++ return_status opcodes tracer f fxpt inst)
          (All-append IsLine before _ h (no_status inst no_return)))
        (
          tt,
          All-append IsLineItem (map inserted behind) rest (inserted-AreLineItems behind h') more,
        )

  pub Shaped-AreLineItems :
      (insts : List Instruction) (items : List BlockItem)
      → All NoReturn insts
      → Shaped opcodes tracer f fxpt insts items
      → All IsLineItem items
  Shaped-AreLineItems [] items none_returns e = subst (All IsLineItem) (sym e) tt
  Shaped-AreLineItems (inst ∷ insts) items none_returns
        (before, behind, rest, h, h', around, shaped, e) =
      subst (All IsLineItem) (sym e) (
        round-AreLineItems inst before behind rest none_returns.0 h h'
          (Shaped-AreLineItems insts rest none_returns.1 shaped))

  -- The status call at the end of a block with a return.
  abbrev pub last_status : Instruction → Inserted
  last_status ret =
      update_status f (if fxpt then opcode_to_fixed_point opcodes ret.opcode else ret.opcode)
        (is_tracked_function tracer f) tracer.is_toplevel_mode

  status-eq :
      (ret : Instruction)
      → ret.kind ≡ return_inst
      → return_status opcodes tracer f fxpt ret ≡ last_status ret ∷ []
  status-eq ret returns = rw returns refl

  abbrev pub EndsInReturn : Instruction → List BlockItem → Type 0
  EndsInReturn ret items =
      (lines : List BlockItem) × All IsLineItem lines
      × (items ≡ lines ++ (inserted (last_status ret) ∷ original ret ∷ []))

  pub Shaped-EndsInReturn :
      (front : List Instruction) (ret : Instruction) (items : List BlockItem)
      → All NoReturn front
      → ret.kind ≡ return_inst
      → ret.has_result ≡ false
      → Shaped opcodes tracer f fxpt (front ++ (ret ∷ [])) items
      → EndsInReturn ret items
  Shaped-EndsInReturn [] ret items none_returns returns no_result
        (before, behind, rest, h, h', around, none_left, e) =
      (
        map inserted before,
        inserted-AreLineItems before h,
        e
            ∙ ap
                (λ (b : List Inserted).
                  map inserted (before ++ return_status opcodes tracer f fxpt ret)
                  ++ (original ret ∷ map inserted b ++ rest))
                (IsAround-none_behind opcodes tracer f fxpt ret before behind no_result around)
            ∙ ap
                (λ (r : List BlockItem).
                  map inserted (before ++ return_status opcodes tracer f fxpt ret)
                  ++ (original ret ∷ r))
                none_left
            ∙ ap (λ (st : List Inserted). map inserted (before ++ st) ++ (original ret ∷ []))
                (status-eq ret returns)
            ∙ in_front before (last_status ret) ret,
      )
  Shaped-EndsInReturn (inst ∷ front) ret items none_returns returns no_result
        (before, behind, rest, h, h', around, shaped, e) =
      let (lines, l, e') =
        Shaped-EndsInReturn front ret rest none_returns.1 returns no_result shaped in
      (
        map inserted (before ++ return_status opcodes tracer f fxpt inst)
            ++ (original inst ∷ map inserted behind ++ lines),
        round-AreLineItems inst before behind lines none_returns.0 h h' l,
        e ∙ rw e' (simp append_assoc),
      )
