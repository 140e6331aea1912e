-- ===== src/Pass/Tracked.antt =====
-- Which functions the pass tracks and instruments (full-trace/full_trace.cpp).
use llvm_tracer.Prelude.{
  All, length, Bool, false, ◌&&◌, ◌||◌, ◌≡◌, refl, ap, ◌∙◌, Option, none, some, List, [], ◌∷◌, Text,
  text_eq, if◌then◌else◌, ◌==◌, arith,
}
use llvm_tracer.Prelude.Dict.{lookup, insert, lookup-insert}
use llvm_tracer.Prelude.Result.{ok, ◌>>=◌, >>=-eq-ok}
use llvm_tracer.Pass.Names.{StringSet, get_user_workload_functions}
use llvm_tracer.Pass.Workload.{contains-insert}
use llvm_tracer.Pass.Setup.{
  Subprogram, Tracer, is_empty, symbol_name, is_listed, add_subprogram, add_subprograms,
  do_initialization, is_tracked_function, runs_on_function,
}

-- The tracer before a module is read.
abbrev pub new_tracer : Tracer
new_tracer = record { is_toplevel_mode = false; tracked_functions = []; mangled_name_map = [] }

-- Is one of the subprograms the function, and listed?
abbrev pub any_listed : StringSet → Text → List Subprogram → Bool
any_listed workloads f [] = false
any_listed workloads f (s ∷ subprograms) =
    text_eq (symbol_name s) f && is_listed workloads s || any_listed workloads f subprograms

-- The plain name of the last subprogram that is the function.
abbrev pub last_name : Text → List Subprogram → Option Text → Option Text
last_name f [] found = found
last_name f (s ∷ subprograms) found =
    last_name f subprograms (if text_eq (symbol_name s) f then some s.name else found)

-- What the loop leaves for a function.
Reads : StringSet → Text → List Subprogram → Tracer → Tracer → Type 0
Reads workloads f subprograms t t' =
    (is_tracked_function t' f ≡ (any_listed workloads f subprograms || is_tracked_function t f))
    × (lookup f t'.mangled_name_map ≡ last_name f subprograms (lookup f t.mangled_name_map))
    × (t'.is_toplevel_mode ≡ t.is_toplevel_mode)

abbrev IsNamed : Subprogram → Type 0
IsNamed s = (is_empty s.name && is_empty s.linkage_name) ≡ false

add_subprogram-Reads :
    (workloads : StringSet) (f : Text) (s : Subprogram) (t t' : Tracer)
    → add_subprogram workloads s t ≡ ok t'
    → Reads workloads f (s ∷ []) t t'
unfolding Reads add_subprogram is_tracked_function
add_subprogram-Reads workloads f s t t' e = ground (
  arith,
  contains-insert (symbol_name s) f t.tracked_functions,
  lookup-insert (symbol_name s) f s.name t.mangled_name_map,
)

add_subprograms-Reads :
    (workloads : StringSet) (f : Text) (subprograms : List Subprogram) (t t' : Tracer)
    → add_subprograms workloads subprograms t ≡ ok t'
    → Reads workloads f subprograms t t'
unfolding Reads add_subprograms
add_subprograms-Reads workloads f [] t t' e = ground arith
add_subprograms-Reads workloads f (s ∷ subprograms) t t' e =
    let (t₁, e₁, e₂) =
      >>=-eq-ok (add_subprogram workloads s t) (add_subprograms workloads subprograms) e in
    let first = add_subprogram-Reads workloads f s t t₁ e₁ in
    let rest = add_subprograms-Reads workloads f subprograms t₁ t' e₂ in
    (
      ground (arith, first.0, rest.0),
      rest.1 ∙ ap (last_name f subprograms) first.1,
      rest.2 ∙ first.2,
    )

add_subprogram-ok :
    (workloads : StringSet) (s : Subprogram) (t : Tracer)
    → IsNamed s
    → (t' : Tracer) × (add_subprogram workloads s t ≡ ok t')
unfolding add_subprogram
add_subprogram-ok workloads s t named = (
  record t {
    mangled_name_map = insert (symbol_name s) s.name t.mangled_name_map;
    tracked_functions =
        (if is_listed workloads s
          then insert (symbol_name s) tt t.tracked_functions
          else t.tracked_functions);
  },
  rw named refl,
)

add_subprograms-ok :
    (workloads : StringSet) (subprograms : List Subprogram) (t : Tracer)
    → All IsNamed subprograms
    → (t' : Tracer) × (add_subprograms workloads subprograms t ≡ ok t')
unfolding add_subprograms
add_subprograms-ok workloads [] t named = (t, refl)
add_subprograms-ok workloads (s ∷ subprograms) t named =
    let (t₁, e₁) = add_subprogram-ok workloads s t named.0 in
    let (t₂, e₂) = add_subprograms-ok workloads subprograms t₁ named.1 in
    (t₂, ap (λ r. r >>= add_subprograms workloads subprograms) e₁ ∙ e₂)

-- Is the plain name that the function has last its own?
abbrev pub is_unmangled : Text → Option Text → Bool
is_unmangled f none = false
is_unmangled f (some name) = text_eq name f

new_tracer-Reads :
    (workloads : StringSet) (f : Text) (subprograms : List Subprogram) (toplevel : Bool)
    (t : Tracer)
    → Reads workloads f subprograms (record new_tracer { is_toplevel_mode = toplevel }) t
    → (is_tracked_function t f ≡ any_listed workloads f subprograms)
      × (runs_on_function t f ≡ is_unmangled f (last_name f subprograms none))
unfolding Reads is_tracked_function runs_on_function lookup
new_tracer-Reads workloads f subprograms toplevel t (tracked, names, mode) =
    (ground (arith, tracked), rw (names, runs_on_function) (same (last_name f subprograms none)))
  where
    same :
        (name : Option Text)
        → (elim name [ none ↦ false | some name ↦ text_eq name f ]) ≡ is_unmangled f name
    same none = refl
    same (some name) = refl

-- If WORKLOAD lists a function and each subprogram has a name, then the pass is set up from its
-- new state; it tracks exactly the functions that are a listed subprogram, by its plain or its
-- linkage name; it instruments exactly those whose last subprogram has the name of the function as
-- its plain name; and it is in top-level mode exactly if one name is listed or the option asks for
-- it.
pub do_initialization-tracks :
    (workload : Option Text) (trace_all_callees : Bool) (subprograms : List Subprogram) (f : Text)
    → is_empty (get_user_workload_functions workload) ≡ false
    → All IsNamed subprograms
    → (t : Tracer) × (do_initialization workload trace_all_callees subprograms new_tracer ≡ ok t)
      × (is_tracked_function t f ≡ any_listed (get_user_workload_functions workload) f subprograms)
      × (runs_on_function t f ≡ is_unmangled f (last_name f subprograms none))
      × (t.is_toplevel_mode
          ≡ (length (get_user_workload_functions workload) == 1 || trace_all_callees))
unfolding do_initialization Reads
do_initialization-tracks workload all subprograms f listed named =
    let workloads = get_user_workload_functions workload in
    let start = record new_tracer { is_toplevel_mode = length workloads == 1 || all } in
    let (t, e) = add_subprograms-ok workloads subprograms start named in
    let reads = add_subprograms-Reads workloads f subprograms start t e in
    let (tracked, runs) =
      new_tracer-Reads workloads f subprograms (length workloads == 1 || all) t reads in
    (t, rw listed e, tracked, runs, reads.2)
