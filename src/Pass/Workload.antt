-- ===== src/Pass/Workload.antt =====
-- The functions that WORKLOAD lists (full-trace/full_trace.cpp).
use llvm_tracer.Prelude.{
  ℕ, Bool, true, false, ◌||◌, ◌≡◌, ◌≢◌, refl, sym, ap, ◌∙◌, some, List, [], ◌∷◌, ◌++◌, append-nil,
  append_assoc, Text, text_eq, text_eq_iff, All, ◌==◌, arith,
}
use llvm_tracer.Prelude.Dict.{lookup, insert, lookup-insert}
use llvm_tracer.Pass.Names.{
  StringSet, contains, items_from, insert_all, split, get_user_workload_functions, any_name,
}

pub contains-insert :
    (name f : Text) (s : StringSet)
    → contains (insert name tt s) f ≡ (text_eq name f || contains s f)
contains-insert name f s = ground (arith, lookup-insert name f tt s)

contains-insert_all :
    (items : List Text) (s : StringSet) (f : Text)
    → contains (insert_all items s) f ≡ (any_name items f || contains s f)
unfolding insert_all any_name
contains-insert_all [] s f = refl
contains-insert_all (item ∷ items) s f = ground (
  arith,
  contains-insert_all items (insert item tt s) f,
  contains-insert item f s,
  text_eq_iff item f,
  text_eq_iff f item,
)

-- The names with commas between them.
pub listing : List Text → Text
listing [] = []
listing (name ∷ []) = name
listing (name ∷ next ∷ names) = name ++ (b',' ∷ listing (next ∷ names))

-- A name that can be listed is not empty and has no comma.
abbrev pub IsListable : Text → Type 0
IsListable name = (name ≢ []) × All (λ c. c ≢ b',') name

not_comma : (c : ℕ) → c ≢ b',' → (c == b',') ≡ false
not_comma c h = ground arith

items_from-append :
    (item name s : Text)
    → All (λ c. c ≢ b',') name
    → items_from b',' item (name ++ s) ≡ items_from b',' (item ++ name) s
unfolding items_from
items_from-append item [] s h = ap (λ t. items_from b',' t s) (sym (append-nil item))
items_from-append item (c ∷ name) s h = rw (not_comma c h.0) (
    items_from-append (item ++ (c ∷ [])) name s h.1
    ∙ ap (λ t. items_from b',' t s) (append_assoc item (c ∷ []) name))

items_from_end : (item : Text) → item ≢ [] → items_from b',' item [] ≡ item ∷ []
unfolding items_from
items_from_end [] h = absurd (h refl)
items_from_end (c ∷ item) h = refl

items-listing :
    (names : List Text) → All IsListable names → items_from b',' [] (listing names) ≡ names
unfolding listing items_from
items-listing [] h = refl
items-listing (name ∷ []) h =
    ap (items_from b',' []) (sym (append-nil name))
    ∙ items_from-append [] name [] h.0.1
    ∙ items_from_end name h.0.0
items-listing (name ∷ next ∷ names) h =
    items_from-append [] name (b',' ∷ listing (next ∷ names)) h.0.1
    ∙ ap (λ t. name ∷ t) (items-listing (next ∷ names) h.1)

-- If WORKLOAD lists names that are not empty and have no comma, with commas between them, the
-- workload functions are exactly these names.
pub workload-listing :
    (names : List Text) (f : Text)
    → All IsListable names
    → contains (get_user_workload_functions (some (listing names))) f ≡ any_name names f
unfolding get_user_workload_functions split lookup
workload-listing names f h =
    contains-insert_all (items_from b',' [] (listing names)) [] f
    ∙ no_more (any_name (items_from b',' [] (listing names)) f)
    ∙ ap (λ items. any_name items f) (items-listing names h)
  where
    no_more : (b : Bool) → (b || contains [] f) ≡ b
    no_more true = refl
    no_more false = refl
