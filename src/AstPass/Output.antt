-- ===== src/AstPass/Output.antt =====
-- The label map file: `writeLabelMapLine`, `writeLabelMapLineWithInline` and
-- `EndSourceFileAction` (ast-pass/GetLabeledStmts.cpp).
use llvm_tracer.Prelude.{ℕ, Option, none, some, List, [], ◌∷◌, ◌++◌, Text, codes, if◌then◌else◌}
use llvm_tracer.Prelude.Dict.{Dict}
use llvm_tracer.Prelude.Decimal.{show_ℕ}
use llvm_tracer.AstPass.Tree.{FunctionInfo, LabelMap}
use llvm_tracer.AstPass.Callers.{find_all_noninlined_callers}

unfoldable pub write_label_map_line : Text → Text → ℕ → Text
write_label_map_line function name line_number =
    function ++ (codes "/" ++ (name ++ (codes " " ++ (show_ℕ line_number ++ codes "\n"))))

unfoldable pub caller_words : List Text → Text
caller_words [] = []
caller_words (caller ∷ callers) = codes " " ++ (caller ++ caller_words callers)

abbrev pub inline_words : List Text → Text
inline_words [] = []
inline_words (caller ∷ callers) = codes " inline" ++ caller_words (caller ∷ callers)

unfoldable pub write_label_map_line_with_inline : Text → Text → ℕ → List Text → Text
unfolding caller_words
write_label_map_line_with_inline function name line_number callers =
    function
    ++ (codes "/"
        ++ (name ++ (codes " " ++ (show_ℕ line_number ++ (inline_words callers ++ codes "\n")))))

-- The loop over the labels of one function; `callers` is none for a function that is not inlined.
unfoldable pub write_labels : Text → Option (List Text) → Dict ℕ → Text
unfolding write_label_map_line write_label_map_line_with_inline
write_labels function callers [] = []
write_labels function none ((name, line_number) ∷ labels) =
    write_label_map_line function name line_number ++ write_labels function none labels
write_labels function (some callers) ((name, line_number) ∷ labels) =
    write_label_map_line_with_inline function name line_number callers
    ++ write_labels function (some callers) labels

unfoldable pub write_function : ℕ → LabelMap → Text → FunctionInfo → Option Text
unfolding write_labels
write_function fuel m function info =
    if info.inlined
    then (elim (find_all_noninlined_callers fuel m function) [
      | none ↦ none
      | some callers ↦ some (write_labels function (some callers) info.label_to_line_num)
    ])
    else some (write_labels function none info.label_to_line_num)

abbrev pub join : Option Text → Option Text → Option Text
join none t = none
join (some s) none = none
join (some s) (some t) = some (s ++ t)

-- The loop over the functions of `m`. An entry that `labelMap[…]` adds on the way has no labels
-- and would print nothing.
unfoldable pub write_functions : ℕ → LabelMap → Dict FunctionInfo → Option Text
unfolding write_function
write_functions fuel m [] = some []
write_functions fuel m ((function, info) ∷ rest) =
    join (write_function fuel m function info) (write_functions fuel m rest)

-- The file gets the text at its end, and the map is cleared for the next source file.
unfoldable pub end_source_file_action : ℕ → LabelMap → Text → Option (Text × LabelMap)
unfolding write_functions
end_source_file_action fuel m file = elim (write_functions fuel m m) [
  | none ↦ none
  | some text ↦ some (file ++ text, [])
]
