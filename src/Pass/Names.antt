-- ===== src/Pass/Names.antt =====
-- Which functions the pass treats in which way: the lists of names and the tests on them
-- (full-trace/full_trace.cpp).
use llvm_tracer.Prelude.{
  ℕ, zero, suc, ◌-◌, length, Bool, true, false, ◌&&◌, ◌||◌, Option, none, some, List, [], ◌∷◌, ◌++◌,
  ltb, Text, codes, text_eq, if◌then◌else◌, ◌==◌,
}
use llvm_tracer.Prelude.Dict.{Dict, lookup, insert}

-- A `std::set<std::string>`.
abbrev pub StringSet : Type 0
StringSet = Dict (Unit {0})

abbrev pub contains : StringSet → Text → Bool
contains s name = elim (lookup name s) [ none ↦ false | some u ↦ true ]

-- The texts that `std::getline` reads up to each delimiter: none after a last delimiter. `item` is
-- what is read of the next one.
unfoldable pub items_from : ℕ → Text → Text → List Text
items_from delim [] [] = []
items_from delim (c ∷ item) [] = (c ∷ item) ∷ []
items_from delim item (c ∷ s) =
    if c == delim then item ∷ items_from delim [] s else items_from delim (item ++ (c ∷ [])) s

unfoldable pub insert_all : List Text → StringSet → StringSet
insert_all [] elems = elems
insert_all (item ∷ items) elems = insert_all items (insert item tt elems)

unfoldable pub split : Text → ℕ → StringSet → StringSet
unfolding items_from insert_all
split s delim elems = insert_all (items_from delim [] s) elems

-- The variable WORKLOAD, if it is set.
unfoldable pub get_user_workload_functions : Option Text → StringSet
unfolding split
get_user_workload_functions none = []
get_user_workload_functions (some workload) = split workload b',' []

abbrev pub intrinsics : List Text
intrinsics =
    codes "llvm.memcpy"
    ∷ codes "llvm.memmove"
    ∷ codes "llvm.memset"
    ∷ codes "llvm.sqrt"
    ∷ codes "llvm.powi"
    ∷ codes "llvm.sin"
    ∷ codes "llvm.cos"
    ∷ codes "llvm.pow"
    ∷ codes "llvm.exp"
    ∷ codes "llvm.exp2"
    ∷ codes "llvm.log"
    ∷ codes "llvm.log10"
    ∷ codes "llvm.log2"
    ∷ codes "llvm.fma"
    ∷ codes "llvm.fabs"
    ∷ codes "llvm.copysign"
    ∷ codes "llvm.floor"
    ∷ codes "llvm.ceil"
    ∷ codes "llvm.trunc"
    ∷ codes "llvm.rint"
    ∷ codes "llvm.nearbyint"
    ∷ codes "llvm.round"
    ∷ codes "llvm.bswap"
    ∷ codes "llvm.ctpop"
    ∷ codes "llvm.ctlz"
    ∷ codes "llvm.cttz"
    ∷ codes "llvm.sadd.with.overflow"
    ∷ codes "llvm.uadd.with.overflow"
    ∷ codes "llvm.ssub.with.overflow"
    ∷ codes "llvm.usub.with.overflow"
    ∷ codes "llvm.smul.with.overflow"
    ∷ codes "llvm.umul.with.overflow"
    ∷ codes "llvm.fmuladd"
    ∷ codes "llvm.x86."
    ∷ []

abbrev pub special_math_ops : List Text
special_math_ops =
    codes "acos"
    ∷ codes "asin"
    ∷ codes "atan"
    ∷ codes "atan2"
    ∷ codes "cos"
    ∷ codes "cosh"
    ∷ codes "sin"
    ∷ codes "sinh"
    ∷ codes "tanh"
    ∷ codes "exp"
    ∷ codes "frexp"
    ∷ codes "ldexp"
    ∷ codes "log"
    ∷ codes "log10"
    ∷ codes "modf"
    ∷ codes "pow"
    ∷ codes "sqrt"
    ∷ codes "ceil"
    ∷ codes "fabs"
    ∷ codes "floor"
    ∷ codes "fmod"
    ∷ []

-- `func.compare(0, prefix.size(), prefix) == 0`.
unfoldable pub starts_with : Text → Text → Bool
starts_with [] func = true
starts_with (p ∷ prefix) [] = false
starts_with (p ∷ prefix) (c ∷ func) = p == c && starts_with prefix func

unfoldable pub any_prefix : List Text → Text → Bool
unfolding starts_with
any_prefix [] func = false
any_prefix (prefix ∷ rest) func = if starts_with prefix func then true else any_prefix rest func

unfoldable pub is_llvm_intrinsic : Text → Bool
unfolding any_prefix
is_llvm_intrinsic func = any_prefix intrinsics func

unfoldable pub any_name : List Text → Text → Bool
any_name [] func = false
any_name (name ∷ rest) func = if text_eq func name then true else any_name rest func

unfoldable pub is_special_math_op : Text → Bool
unfolding any_name
is_special_math_op func = any_name special_math_ops func

unfoldable pub is_dma_function : Text → Bool
is_dma_function name =
    text_eq name (codes "dmaLoad")
    || (text_eq name (codes "dmaStore")
        || (text_eq name (codes "dmaFence") || text_eq name (codes "setReadyBits")))

unfoldable pub is_host_mem_function : Text → Bool
is_host_mem_function name = text_eq name (codes "hostLoad") || text_eq name (codes "hostStore")

unfoldable pub is_set_sampling_factor : Text → Bool
is_set_sampling_factor name = text_eq name (codes "setSamplingFactor")

-- `rfind(pattern, pos)` succeeds if the pattern stands at some index up to `pos`. The index is
-- computed with wrap-around: for a name shorter than four bytes it is no bound.
unfoldable pub occurs_up_to : Text → ℕ → Text → Bool
unfolding starts_with
occurs_up_to pattern zero s = starts_with pattern s
occurs_up_to pattern (suc pos) [] = starts_with pattern []
occurs_up_to pattern (suc pos) (c ∷ s) = starts_with pattern (c ∷ s) || occurs_up_to pattern pos s

unfoldable pub to_fxpt : Text → Bool
unfolding occurs_up_to
to_fxpt name =
    occurs_up_to (codes "_fxp") (if ltb (length name) 4 then length name else length name - 4) name
