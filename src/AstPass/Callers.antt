-- ===== src/AstPass/Callers.antt =====
-- `findAllNoninlinedCallers` (ast-pass/GetLabeledStmts.cpp). `none` means that the fuel, which
-- bounds the depth of the recursion, ran out.
use llvm_tracer.Prelude.{
  ℕ, zero, suc, Bool, Option, none, some, List, [], ◌∷◌, ◌++◌, Text, if◌then◌else◌, map,
}
use llvm_tracer.AstPass.Tree.{LabelMap, info_of}

abbrev pub caller_names : Text → LabelMap → List Text
caller_names name m = map (λ entry. entry.0) (info_of name m).callers

abbrev pub is_inlined : Text → LabelMap → Bool
is_inlined name m = (info_of name m).inlined

abbrev pub append_both : Option (List Text) → Option (List Text) → Option (List Text)
append_both none bs = none
append_both (some as') none = none
append_both (some as') (some bs) = some (as' ++ bs)

-- The loop over the callers of one function, where `search` is the recursive call.
unfoldable pub loop_callers :
    (Text → Option (List Text)) → LabelMap → List Text → Option (List Text)
loop_callers search m [] = some []
loop_callers search m (caller ∷ rest) =
    append_both (if is_inlined caller m then search caller else some (caller ∷ []))
      (loop_callers search m rest)

unfoldable pub find_all_noninlined_callers : ℕ → LabelMap → Text → Option (List Text)
unfolding loop_callers
find_all_noninlined_callers zero m leaf = none
find_all_noninlined_callers (suc fuel) m leaf =
    loop_callers (find_all_noninlined_callers fuel m) m (caller_names leaf m)
