-- ===== src/Pass/Shape/Lines.antt =====
-- The lines that the handlers insert, and their numbers (full-trace/full_trace.cpp).
use llvm_tracer.Prelude.{
  ℕ, zero, suc, length, ltb, ◌≡◌, refl, sym, subst, ◌∙◌, ◌&&◌, map, arith, Bool, true, false,
  Bool-cases, inl, inr, ◌⊎◌, All, All-append, Option, none, some, List, [], ◌∷◌, ◌++◌,
  if◌then◌else◌,
}
use llvm_tracer.Prelude.Result.{err, ok, assertion_failed}
use llvm_tracer.Runtime.State.{result_line}
use llvm_tracer.Pass.Ensures.{Ensures, either, weaken}
use llvm_tracer.Pass.Setup.{Tracer}
use llvm_tracer.Pass.Sizes.{
  IrType, pointer, function, label_type, struct, floating_point, integer, vector, array, unknown,
}
use llvm_tracer.Pass.Opcodes.{Opcodes, call_opcode}
use llvm_tracer.Pass.Inserted.{
  TypedValue, ConstantString, no_string, constant_bytes, no_initializer, fits_double, ParamLine,
  Passed, Inserted, log_entry, update_status, log_int, log_double, log_vector, log_ptr, log_string,
  InstEnv, print_param_line, print_first_line, update_tracer_status,
}
use llvm_tracer.Pass.Handlers.{IrOperand, InstKind, call_inst, is_return, Instruction}

-- A call that prints a line of an instruction: neither an entry nor a status call.
abbrev pub IsLine : Inserted → Type 0
IsLine (log_entry name n) = ⊥
IsLine (update_status name opcode tracked toplevel) = ⊥
IsLine _ = Unit {0}

abbrev pub AreLines : List Inserted → Type 0
AreLines = All IsLine

-- The line number of a printed value; other calls have none.
abbrev pub param_of : Inserted → Option ℕ
param_of (log_int line v) = some line.param_num
param_of (log_double line v) = some line.param_num
param_of (log_ptr line v) = some line.param_num
param_of (log_string line v) = some line.param_num
param_of (log_vector line v) = some line.param_num
param_of _ = none

-- The types of values that are printed: numbers, pointers and vectors.
abbrev pub is_printed : IrType → Bool
is_printed pointer = true
is_printed (floating_point kind) = true
is_printed (integer bits) = true
is_printed (vector n element) = true
is_printed _ = false

-- One line with the number.
abbrev pub IsOneLine : ℕ → List Inserted → Type 0
IsOneLine k calls = (call : Inserted) × (calls ≡ call ∷ []) × (param_of call ≡ some k) × IsLine call

pub print_param_line-IsOneLine :
    (line : ParamLine) (t : IrType) (o : TypedValue) (is_intrinsic : Bool)
    → is_printed t ≡ true
    → Ensures (IsOneLine line.param_num) (print_param_line line t (some o) is_intrinsic)
unfolding print_param_line
print_param_line-IsOneLine line (integer bits) o b h =
    either _ (ltb 64 bits) (err assertion_failed) _ tt (_, refl, refl, tt)
print_param_line-IsOneLine line (floating_point kind) o b h =
    either _ (fits_double kind) _ (err assertion_failed) (_, refl, refl, tt) tt
print_param_line-IsOneLine line pointer o true h = (_, refl, refl, tt)
print_param_line-IsOneLine line pointer o false h = of_string o.constant_string
  where
    of_string :
        (s : ConstantString)
        → Ensures (IsOneLine line.param_num) (elim s [
          | no_string ↦ ok (log_ptr line (Passed.value_of o.value) ∷ [])
          | constant_bytes text ↦ ok (log_string line (Passed.string_of text) ∷ [])
          | no_initializer ↦ err assertion_failed
        ])
    of_string no_string = (_, refl, refl, tt)
    of_string (constant_bytes text) = (_, refl, refl, tt)
    of_string no_initializer = tt
print_param_line-IsOneLine line (vector n element) o b h = (_, refl, refl, tt)
print_param_line-IsOneLine line function o b h = cc
print_param_line-IsOneLine line label_type o b h = cc
print_param_line-IsOneLine line (struct elements) o b h = cc
print_param_line-IsOneLine line (array n element) o b h = cc
print_param_line-IsOneLine line (unknown bits) o b h = cc

pub one_line-AreLines : (k : ℕ) (calls : List Inserted) → IsOneLine k calls → AreLines calls
one_line-AreLines k calls (call, e, n, h) = subst AreLines (sym e) (h, tt)

pub print_param_line-AreLines :
    (line : ParamLine) (t : IrType) (v : Option TypedValue) (is_intrinsic : Bool)
    → Ensures AreLines (print_param_line line t v is_intrinsic)
unfolding print_param_line
print_param_line-AreLines line t none b = (tt, tt)
print_param_line-AreLines line t (some o) b = elim (Bool-cases (is_printed t)) [
  | inl printed ↦
      weaken (IsOneLine line.param_num) AreLines (print_param_line line t (some o) b)
        (print_param_line-IsOneLine line t o b printed) (one_line-AreLines line.param_num)
  | inr other ↦ not_printed t other
]
  where
    not_printed :
        (t : IrType) → is_printed t ≡ false → Ensures AreLines (print_param_line line t (some o) b)
    not_printed function h = tt
    not_printed label_type h = tt
    not_printed (struct elements) h = tt
    not_printed (array n element) h = tt
    not_printed (unknown bits) h = tt
    not_printed pointer h = cc
    not_printed (integer bits) h = cc
    not_printed (floating_point kind) h = cc
    not_printed (vector n element) h = cc

-- Lines, and for a type that is printed one line of a result.
abbrev pub IsResult : IrType → List Inserted → Type 0
IsResult t calls = AreLines calls × ((is_printed t ≡ false) ⊎ IsOneLine result_line calls)

-- The opcode in the first line.
abbrev pub line_opcode : InstKind → ℕ → ℕ
line_opcode (call_inst (some fun) n) opcode = call_opcode fun opcode
line_opcode _ opcode = opcode

-- Numbered lines for operands of printed types, and lines in any case.
abbrev pub AreLinesFor : Bool → List ℕ → List Inserted → Type 0
AreLinesFor all_are_printed numbers calls =
    AreLines calls × ((all_are_printed ≡ false) ⊎ (map param_of calls ≡ map some numbers))

abbrev pub all_printed : List IrOperand → Bool
all_printed [] = true
all_printed (o ∷ os) = is_printed o.typed.type_of && all_printed os

-- The numbers of the operands from the `k`-th on, the last one first.
abbrev pub down_to : ℕ → List IrOperand → List ℕ
down_to k [] = []
down_to k (o ∷ os) = down_to (suc k) os ++ (k ∷ [])

-- The numbers of the lines after the first one. A call of a known function has its arguments, in
-- their order, after the function; their number is the function's.
abbrev pub up_from : ℕ → ℕ → List ℕ
up_from k zero = []
up_from k (suc n) = k ∷ up_from (suc k) n

abbrev pub line_numbers : InstKind → List IrOperand → List ℕ
line_numbers (call_inst (some fun) n) os = length os ∷ up_from 1 n
line_numbers _ os = down_to 1 os

map-append :
    {A : Type 0} {B : Type 0} (f : A → B) (xs ys : List A) → map f (xs ++ ys) ≡ map f xs ++ map f ys
map-append f [] ys = refl
map-append f (x ∷ xs) ys = rw (map-append f xs ys) refl

one_line-numbers :
    (k : ℕ) (calls : List Inserted) → IsOneLine k calls → map param_of calls ≡ some k ∷ []
one_line-numbers k calls (call, e, n, h) = rw (e, n) refl

pub append-AreLinesFor :
    (b b' : Bool) (ns ns' : List ℕ) (calls calls' : List Inserted)
    → AreLinesFor b ns calls
    → AreLinesFor b' ns' calls'
    → AreLinesFor (b && b') (ns ++ ns') (calls ++ calls')
append-AreLinesFor b b' ns ns' calls calls' (h, n) (h', n') =
    (All-append IsLine calls calls' h h', both n n')
  where
    both :
        (b ≡ false) ⊎ (map param_of calls ≡ map some ns)
        → (b' ≡ false) ⊎ (map param_of calls' ≡ map some ns')
        → ((b && b') ≡ false) ⊎ (map param_of (calls ++ calls') ≡ map some (ns ++ ns'))
    both (inl other) n' = inl (ground (arith, other))
    both (inr e) (inl other) = inl (ground (arith, other))
    both (inr e) (inr e') =
        inr (map-append param_of calls calls' ∙ (rw (e, e') refl ∙ sym (map-append some ns ns')))

-- The line of an operand, with its value or without one.
pub print_param_line-AreLinesFor :
    (line : ParamLine) (t : IrType) (v : Option TypedValue) (is_intrinsic : Bool)
    → Ensures
        (AreLinesFor (is_printed t) (line.param_num ∷ []))
        (print_param_line line t v is_intrinsic)
unfolding print_param_line
print_param_line-AreLinesFor line t none b = ((tt, tt), inr refl)
print_param_line-AreLinesFor line t (some o) b = elim (Bool-cases (is_printed t)) [
  | inl printed ↦
      weaken (IsOneLine line.param_num) (AreLinesFor (is_printed t) (line.param_num ∷ []))
        (print_param_line line t (some o) b) (print_param_line-IsOneLine line t o b printed)
        λ calls h.
          (one_line-AreLines line.param_num calls h, inr (one_line-numbers line.param_num calls h))
  | inr other ↦
      weaken AreLines (AreLinesFor (is_printed t) (line.param_num ∷ []))
        (print_param_line line t (some o) b) (print_param_line-AreLines line t (some o) b)
        λ calls h. (h, inl other)
]

module _ (opcodes : Opcodes) (tracer : Tracer) where
  -- The first line, with its opcode, and further lines.
  abbrev pub IsHeaded : InstEnv → ℕ → Bool → List ℕ → List Inserted → Type 0
  IsHeaded env opcode printed numbers calls =
      (rest : List Inserted) × AreLinesFor printed numbers rest
      × (calls ≡ print_first_line opcodes tracer env opcode ∷ rest)

  -- The status call of a return comes last.
  abbrev pub IsHandled : Instruction → InstEnv → List Inserted → Type 0
  IsHandled inst env calls =
      (rest : List Inserted) × AreLinesFor (all_printed inst.operands)
        (line_numbers inst.kind inst.operands) rest
      × (calls
          ≡ (print_first_line opcodes tracer env (line_opcode inst.kind inst.opcode) ∷ rest)
            ++ (if is_return inst.kind
                then update_tracer_status opcodes tracer env inst.opcode ∷ []
                else []))
