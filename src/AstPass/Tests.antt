-- ===== src/AstPass/Tests.antt =====
-- A small translation unit for the AST pass (ast-pass/GetLabeledStmts.cpp).
use llvm_tracer.Prelude.{
  ℕ, ◌<◌, true, false, Bool-cases, ◌||◌, ◌&&◌, ◌≡◌, ◌↔◌, refl, inl, inr, none, some, List, [], ◌∷◌,
  Text, codes, text_eq, text_lt, sym, subst, text_eq_iff, if◌then◌else◌, arith,
}
use llvm_tracer.Prelude.Dict.{lookup, insert}
use llvm_tracer.Prelude.Decimal.{show_ℕ}
use mathlib.Core.List.{Memᴰ}
use mathlib.Core.List.Memᴰ.{head, tail}
use llvm_tracer.AstPass.Tree.{
  Stmt, start_line, label, call, other, nil, cons, FunctionDecl, LabelMap, info_of,
}
use llvm_tracer.AstPass.Visitor.{
  first_unlabelled, visit_all_child_stmts_of, handle_children, handle_translation_unit,
}
use llvm_tracer.AstPass.Callers.{caller_names, is_inlined, find_all_noninlined_callers}
use llvm_tracer.AstPass.Output.{end_source_file_action}
use llvm_tracer.AstPass.Labels.{label_line, occurs_below, IsAtLineBelow, visit-labels}
use llvm_tracer.AstPass.Calls.{is_caller, records_call, unit-callers}
use llvm_tracer.AstPass.Endless.{recursive_file_never_ends}
use llvm_tracer.AstPass.Search.{IsRanked, Reaches, find_all-finds, recursive_search_never_ends}

abbrev f : Text
f = codes "f"

abbrev g : Text
g = codes "g"

abbrev h : Text
h = codes "h"

abbrev loop : Text
loop = codes "loop"

-- `{ loop: for (...) { h(); } }`, with the loop on the next line.
abbrev f_body : Stmt
f_body = other 3 (cons (label loop 4 (other 5 (cons (call (some h) 6 nil) nil))) nil)

abbrev f_decl : FunctionDecl
f_decl = record {
  name = f;
  is_main = false;
  is_method = false;
  has_body = true;
  attrs = true ∷ [];
  body = f_body;
}

-- `g` calls `f`.
abbrev g_decl : FunctionDecl
g_decl = record {
  name = g;
  is_main = false;
  is_method = false;
  has_body = true;
  attrs = [];
  body = other 9 (cons (call (some f) 10 nil) nil);
}

abbrev unit_decls : List FunctionDecl
unit_decls = f_decl ∷ g_decl ∷ []

labelmap_test :
    end_source_file_action 5 (handle_translation_unit unit_decls []) []
    ≡ some (codes "f/loop 5 inline g\n", [])
unfolding end_source_file_action handle_translation_unit show_ℕ visit_all_child_stmts_of
    handle_children insert lookup text_eq text_lt find_all_noninlined_callers
labelmap_test = refl

f_body-IsAtLineBelow : IsAtLineBelow loop 5 f_body
unfolding IsAtLineBelow start_line first_unlabelled
f_body-IsAtLineBelow = ((λ e. refl, tt), ((tt, ((tt, tt), ((tt, tt), tt))), tt))

visit-labels_example :
    label_line f loop (visit_all_child_stmts_of f_body f_decl [])
    ≡ (if text_eq f f && occurs_below loop f_body then some 5 else label_line f loop [])
visit-labels_example = visit-labels f loop 5 f_decl f_body [] f_body-IsAtLineBelow

unit-callers_example :
    is_caller g f (handle_translation_unit unit_decls [])
    ≡ (is_caller g f [] || records_call g f unit_decls)
unit-callers_example = unit-callers g f unit_decls []

-- `f` is inlined into `h`, which is inlined into `g`.
abbrev inlined_map : LabelMap
inlined_map =
    (f, record { label_to_line_num = (loop, 5) ∷ []; callers = (h, tt) ∷ []; inlined = true })
    ∷ (h, record { label_to_line_num = []; callers = (g, tt) ∷ []; inlined = true })
    ∷ []

abbrev rank : Text → ℕ
rank name = if text_eq name f then 1 else 0

f_called : (a : Text) → Memᴰ a (h ∷ []) → rank a < 1
unfolding text_eq
f_called a (head e) = rw e (omega arith)
f_called a (tail k) = elim k [ ]

h_called : (a : Text) → Memᴰ a (g ∷ []) → is_inlined a inlined_map ≡ true → rank a < 0
unfolding info_of lookup text_eq
h_called a (head e) i = absurd (ground (arith, subst (λ x. is_inlined x inlined_map ≡ true) e i))
h_called a (tail k) i = elim k [ ]

none_called :
    (leaf : Text)
    → text_eq f leaf ≡ false
    → text_eq h leaf ≡ false
    → caller_names leaf inlined_map ≡ []
unfolding info_of lookup text_eq
none_called leaf e e' = rw e (rw e' refl)

inlined_map-IsRanked : IsRanked rank inlined_map
unfolding info_of lookup text_eq
inlined_map-IsRanked leaf a k i = elim (Bool-cases (text_eq f leaf)) [
  | inl e ↦ of_f leaf ((text_eq_iff f leaf).0 e) k
  | inr n ↦ elim (Bool-cases (text_eq h leaf)) [
    | inl e ↦ of_h leaf ((text_eq_iff h leaf).0 e) k
    | inr n' ↦ elim (subst (λ (callers : List Text). Memᴰ a callers) (none_called leaf n n') k) [ ]
  ]
]
  where
    of_f : (leaf : Text) → f ≡ leaf → Memᴰ a (caller_names leaf inlined_map) → rank a < rank leaf
    of_f leaf e k =
        subst (λ x. rank a < rank x) e
          (f_called a (subst (λ (x : Text). Memᴰ a (caller_names x inlined_map)) (sym e) k))

    of_h : (leaf : Text) → h ≡ leaf → Memᴰ a (caller_names leaf inlined_map) → rank a < rank leaf
    of_h leaf e k = absurd (
        omega (
          arith,
          h_called a (subst (λ (x : Text). Memᴰ a (caller_names x inlined_map)) (sym e) k) i,
        ))

find_all-finds_example :
    (found : List Text) × (find_all_noninlined_callers 2 inlined_map f ≡ some found)
    × ((c : Text) → Memᴰ c found ↔ Reaches inlined_map f c)
unfolding text_eq
find_all-finds_example = find_all-finds rank inlined_map 2 f inlined_map-IsRanked (omega arith)

-- `f` is inlined and calls itself.
abbrev recursive_map : LabelMap
recursive_map =
    (f, record { label_to_line_num = (loop, 5) ∷ []; callers = (f, tt) ∷ []; inlined = true }) ∷ []

recursive_search_never_ends_example : find_all_noninlined_callers 100 recursive_map f ≡ none
unfolding info_of lookup text_eq
recursive_search_never_ends_example =
    recursive_search_never_ends recursive_map f 100 (head refl) refl

recursive_file_never_ends_example : end_source_file_action 100 recursive_map [] ≡ none
unfolding info_of lookup text_eq
recursive_file_never_ends_example =
    recursive_file_never_ends recursive_map f
      (record { label_to_line_num = (loop, 5) ∷ []; callers = (f, tt) ∷ []; inlined = true }) [] 100
      refl refl (head refl)
