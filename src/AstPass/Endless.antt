-- ===== src/AstPass/Endless.antt =====
-- A source file whose label map is never written (ast-pass/GetLabeledStmts.cpp).
use llvm_tracer.Prelude.{
  ℕ, true, Bool-cases, inl, inr, ◌≡◌, refl, ap, ◌∙◌, Option, none, some, [], ◌∷◌, Text, text_eq,
  text_eq_iff, arith,
}
use mathlib.Core.List.{Memᴰ}
use llvm_tracer.Prelude.Dict.{lookup}
use llvm_tracer.AstPass.Tree.{FunctionInfo, LabelMap, info_of}
use llvm_tracer.AstPass.Callers.{caller_names, is_inlined}
use llvm_tracer.AstPass.Output.{join, write_function, write_functions, end_source_file_action}
use llvm_tracer.AstPass.Search.{recursive_search_never_ends}

join-none : (first rest : Option Text) → rest ≡ none → join first rest ≡ none
join-none none rest e = refl
join-none (some s) rest e = rw e refl

-- The loop over the functions stops at one that it cannot write.
write_functions-none :
    (fuel : ℕ) (m rest : LabelMap) (f : Text) (info : FunctionInfo)
    → lookup f rest ≡ some info
    → write_function fuel m f info ≡ none
    → write_functions fuel m rest ≡ none
unfolding write_functions lookup
write_functions-none fuel m [] f info e n = cc
write_functions-none fuel m ((g, other) ∷ rest) f info e n = elim (Bool-cases (text_eq g f)) [
  | inl same ↦
      let g-eq-f : g ≡ f = (text_eq_iff g f).0 same in
      let info-eq-other : other ≡ info = ground arith in
      ap (λ r. join r (write_functions fuel m rest))
        (ap (λ x. write_function fuel m x other) g-eq-f
          ∙ ap (write_function fuel m f) info-eq-other
          ∙ n)
  | inr differ ↦
      join-none (write_function fuel m g other) (write_functions fuel m rest)
        (write_functions-none fuel m rest f info (ground arith) n)
]

-- If a function of the map is inlined and its own caller, then no fuel is enough to write the map:
-- the recursion at the end of the source file does not end.
pub recursive_file_never_ends :
    (m : LabelMap) (f : Text) (info : FunctionInfo) (file : Text) (fuel : ℕ)
    → lookup f m ≡ some info
    → info.inlined ≡ true
    → Memᴰ f (caller_names f m)
    → end_source_file_action fuel m file ≡ none
unfolding end_source_file_action write_function info_of
recursive_file_never_ends m f info file fuel e i h =
    rw (write_functions-none fuel m m f info e unwritten, end_source_file_action) refl
  where
    inlined : is_inlined f m ≡ true
    inlined = rw (e, is_inlined) i

    unwritten : write_function fuel m f info ≡ none
    unwritten = rw (i, recursive_search_never_ends m f fuel h inlined) refl
