-- ===== src/AstPass/Search.antt =====
-- What `findAllNoninlinedCallers` finds, and when it ends (ast-pass/GetLabeledStmts.cpp).
mod Loop
use llvm_tracer.Prelude.{
  ℕ, zero, suc, ◌<◌, Bool, true, false, Bool-cases, ◌≡◌, refl, sym, ap, ◌∙◌, subst, ◌⊎◌, ◌↔◌, inl,
  inr, Option, none, some, List, [], ◌∷◌, ◌++◌, Text, if◌then◌else◌, arith,
}
use mathlib.Core.List.{Memᴰ}
use mathlib.Core.List.Memᴰ.{head, tail, append_left, append_right, append_cases}
use llvm_tracer.AstPass.Tree.{LabelMap}
use llvm_tracer.AstPass.Callers.{
  caller_names, is_inlined, append_both, loop_callers, find_all_noninlined_callers,
}
use llvm_tracer.AstPass.Search.Loop.{
  From, at, below, loop-From, From-loop, loop-none, loop-searched, loop-some,
}

-- `c` is not inlined and calls `leaf`, directly or through functions that are all inlined.
pub data Reaches (m : LabelMap) : Text → Text → Type 0 where
  direct :
      {leaf c : Text} → Memᴰ c (caller_names leaf m) → is_inlined c m ≡ false → Reaches m leaf c
  through :
      {leaf a c : Text}
      → Memᴰ a (caller_names leaf m)
      → is_inlined a m ≡ true
      → Reaches m a c
      → Reaches m leaf c

found-Reaches :
    (m : LabelMap) (c : Text) (fuel : ℕ) (leaf : Text) (found : List Text)
    → find_all_noninlined_callers fuel m leaf ≡ some found
    → Memᴰ c found
    → Reaches m leaf c
unfolding find_all_noninlined_callers
found-Reaches m c zero leaf found e h = cc
found-Reaches m c (suc fuel) leaf found e h =
    step (loop-From (find_all_noninlined_callers fuel m) m c (caller_names leaf m) found e h)
      (λ (a : Text) (others : List Text). found-Reaches m c fuel a others)
  where
    step :
        From (find_all_noninlined_callers fuel m) m c (caller_names leaf m)
        → ((a : Text) (others : List Text)
            → find_all_noninlined_callers fuel m a ≡ some others
            → Memᴰ c others
            → Reaches m a c)
        → Reaches m leaf c
    step (at h n) again = direct h n
    step (below a others h i e k) again = through h i (again a others e k)

Reaches-found :
    (m : LabelMap) (c : Text) (fuel : ℕ) (leaf : Text) (found : List Text)
    → find_all_noninlined_callers fuel m leaf ≡ some found
    → Reaches m leaf c
    → Memᴰ c found
unfolding find_all_noninlined_callers
Reaches-found m c zero leaf found e h = cc
Reaches-found m c (suc fuel) leaf found e (direct h n) =
    From-loop (find_all_noninlined_callers fuel m) m c (caller_names leaf m) found e (at h n)
Reaches-found m c (suc fuel) leaf found e (through {a = a} h i r) =
    let (others, e') =
      loop-searched (find_all_noninlined_callers fuel m) m a (caller_names leaf m) found a e h i in
    From-loop (find_all_noninlined_callers fuel m) m c (caller_names leaf m) found e
      (below a others h i e' (Reaches-found m c fuel a others e' r))

-- The inlined functions call one another without a cycle: an inlined caller has a smaller rank.
abbrev pub IsRanked : (Text → ℕ) → LabelMap → Type 0
IsRanked rank m = (f a : Text) → Memᴰ a (caller_names f m) → is_inlined a m ≡ true → rank a < rank f

search-some :
    (rank : Text → ℕ) (m : LabelMap)
    → IsRanked rank m
    → (fuel : ℕ) (leaf : Text) → rank leaf < fuel
    → (found : List Text) × (find_all_noninlined_callers fuel m leaf ≡ some found)
unfolding find_all_noninlined_callers
search-some rank m ranked zero leaf h = absurd (omega arith)
search-some rank m ranked (suc fuel) leaf h =
    loop-some (find_all_noninlined_callers fuel m) m leaf (caller_names leaf m)
      (λ a k i. search-some rank m ranked fuel a (omega (arith, ranked leaf a k i)))

-- If each inlined caller of a function has a smaller rank than the function, the search ends with
-- fuel above the rank of the function, and it finds exactly the functions that are not inlined and
-- call it, directly or through functions that are all inlined.
pub find_all-finds :
    (rank : Text → ℕ) (m : LabelMap) (fuel : ℕ) (leaf : Text)
    → IsRanked rank m
    → rank leaf < fuel
    → (found : List Text) × (find_all_noninlined_callers fuel m leaf ≡ some found)
      × ((c : Text) → Memᴰ c found ↔ Reaches m leaf c)
find_all-finds rank m fuel leaf ranked h =
    let (found, e) = search-some rank m ranked fuel leaf h in
    (found, e, λ c. (found-Reaches m c fuel leaf found e, Reaches-found m c fuel leaf found e))

-- The search from an inlined function that is its own caller runs out of any fuel: the recursion
-- does not end.
pub recursive_search_never_ends :
    (m : LabelMap) (leaf : Text) (fuel : ℕ)
    → Memᴰ leaf (caller_names leaf m)
    → is_inlined leaf m ≡ true
    → find_all_noninlined_callers fuel m leaf ≡ none
unfolding find_all_noninlined_callers
recursive_search_never_ends m leaf zero h i = refl
recursive_search_never_ends m leaf (suc fuel) h i =
    loop-none (find_all_noninlined_callers fuel m) m leaf (caller_names leaf m) leaf h i
      (recursive_search_never_ends m leaf fuel h i)
