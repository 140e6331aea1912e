-- ===== src/Pass/Fitting.antt =====
-- Names and numbers that fit the buffers of the pass (full-trace/full_trace.cpp), for which naming a
-- value or an instruction succeeds.
use llvm_tracer.Prelude.{
  ℕ, zero, suc, ◌+◌, ◌*◌, ◌/◌, ◌<◌, ◌≤◌, length, length-append, take, ltb, lt→ltb, ◌≡◌, refl, sym,
  subst, ◌∙◌, Bool, true, false, not, Bool-cases, inl, inr, ◌⊎◌, ◌||◌, ◌&&◌, All, ℤ, pos, negsuc,
  Option, none, some, Option-cases, List, [], ◌∷◌, ◌++◌, Text, codes, if◌then◌else◌, ◌==◌, arith,
}
use llvm_tracer.Prelude.Decimal.{show_ℕ, show_int, show_digits}
use llvm_tracer.Prelude.Result.{err, ok, assertion_failed, bad_pointer, ◌>>=◌}
use llvm_tracer.Pass.Succeeds.{Succeeds, Any, then_with, chosen}
use llvm_tracer.Pass.Setup.{is_empty}
use llvm_tracer.Pass.Stores.{AreBuffers}
use llvm_tracer.Pass.Ids.{
  Value, NameTables, find_key, find_slot, copy_to_buffer, get_value_name, get_inst_id,
  make_value_id, int_eq, set_slot_name, name_bitcast, find_debug_declare,
  process_alloca_instruction,
}
use llvm_tracer.Pass.Handlers.{or_before}

-- Ten to the power `k + 1`.
abbrev tens : ℕ → ℕ
tens zero = 10
tens (suc k) = 10 * tens k

show_digits_le :
    (k fuel n : ℕ) (out : Text)
    → n < tens k
    → length (show_digits 10 fuel n out) ≤ suc k + length out
unfolding show_digits
show_digits_le k zero n out h = omega arith
show_digits_le zero (suc fuel) n out h = rw (lt→ltb n 10 h) (omega arith)
show_digits_le (suc k) (suc fuel) n out h = elim (Bool-cases (ltb n 10)) [
  | inl small ↦ rw small (omega arith)
  | inr large ↦
      rw large (omega (arith, show_digits_le k fuel (n / 10) (_ ∷ out) (omega (arith, h))))
]

-- Counts and slots have at most ten digits.
abbrev pub max_number : ℕ
max_number = 10000000000

length-show_ℕ_le : (n : ℕ) → n < max_number → length (show_ℕ n) ≤ 10
unfolding show_ℕ
length-show_ℕ_le n h = omega (arith, show_digits_le 9 (suc n) n [] h)

length-take_le : (n : ℕ) (s : Text) → length (take n s) ≤ n
length-take_le zero s = omega arith
length-take_le (suc n) [] = omega arith
length-take_le (suc n) (c ∷ s) = omega (arith, length-take_le n s)

-- Texts that fit a buffer together with what the pass may put behind them.
abbrev pub IsShort : Text → Type 0
IsShort s = length s ≤ 200

-- The name of a variable that there is.
abbrev pub HasShortName : Option Text → Type 0
HasShortName none = ⊥
HasShortName (some name) = IsShort name

-- The kept names fit, and so do the vector buffers.
abbrev pub IsFitting : NameTables → Type 0
IsFitting tables =
    ((key : ℕ) (name : Text) → find_key key tables.value_debug_name ≡ some name → IsShort name)
    × ((slot : ℤ) (name : Text) → find_slot slot tables.slot_to_var_name ≡ some name → IsShort name)
    × AreBuffers tables.vector_buffers

abbrev pub IsFittingSlot : ℤ → Type 0
IsFittingSlot (pos n) = n < max_number
IsFittingSlot (negsuc n) = Unit {0}

abbrev pub IsFittingValue : Value → Type 0
IsFittingValue v = IsShort v.name × IsFittingSlot v.slot

-- The value has a name or a slot.
abbrev pub IsNamed : Value → Type 0
IsNamed v = (is_empty v.name ≡ false) ⊎ ((n : ℕ) × (v.slot ≡ pos n))

pub copy_fits :
    (s : Text) (n : ℕ) → length s ≤ n → n < 256 → Succeeds (λ b. b ≡ s) (copy_to_buffer s)
unfolding copy_to_buffer
copy_fits s n h k = rw (lt→ltb (length s) 256 (omega (arith, h, k))) refl

some_text_inj : (s t : Text) → some s ≡ some t → s ≡ t
some_text_inj s t e = cc

module _ (tables : NameTables) (fits : IsFitting tables) where
  pub name_IsShort : (v : Value) → IsFittingValue v → IsShort (get_value_name tables v).1
  unfolding get_value_name
  name_IsShort v h = elim (Bool-cases (not (is_empty v.name))) [
    | inl named ↦ rw named h.0
    | inr unnamed ↦ elim (Option-cases (find_key v.key tables.value_debug_name)) [
      | inl absent ↦ rw (unnamed, absent) (omega arith)
      | inr (name, there) ↦ rw (unnamed, there) (fits.0 v.key name there)
    ]
  ]

  value_named : (v : Value) → is_empty v.name ≡ false → (get_value_name tables v).0 ≡ true
  unfolding get_value_name
  value_named v e = rw e refl

  -- The id of an instruction, with a block and a count for one without a name and a slot.
  abbrev Counts : ℕ → Bool × Option Text × Option ℕ → Type 0
  Counts count r = or_before r.2 count ≤ suc count

  pub get_inst_id_fits :
      (inst : Value) (bbid : Text) (count : ℕ)
      → IsFittingValue inst
      → length bbid ≤ 210
      → count < max_number
      → Succeeds (Counts count) (get_inst_id tables inst (some bbid) (some count))
  unfolding get_inst_id
  get_inst_id_fits inst bbid count h short few =
      chosen (Counts count) (get_value_name tables inst).0 _ _
        (λ named.
          then_with (Counts count) (λ b. b ≡ (get_value_name tables inst).1)
            (copy_to_buffer (get_value_name tables inst).1) _
            (copy_fits _ 200 (name_IsShort inst h) (omega arith)) λ id e. omega arith)
        (λ unnamed. elim (Option-cases (find_slot inst.slot tables.slot_to_var_name)) [
          | inr (name, there) ↦ rw there (
              then_with (Counts count) (λ b. b ≡ name) (copy_to_buffer name) _
                (copy_fits name 200 (fits.1 inst.slot name there) (omega arith))
                λ id e. omega arith)
          | inl absent ↦ rw absent (by_slot inst.slot h.1)
        ])
    where
      by_slot :
          (slot : ℤ)
          → IsFittingSlot slot
          → Succeeds (Counts count) (elim slot [
            | pos n ↦ copy_to_buffer (show_ℕ n) >>= λ id. ok (true, some id, some count)
            | negsuc n ↦
                (if n == 0
                  then (copy_to_buffer (bbid ++ (codes "-" ++ show_ℕ count)) >>= λ id.
                      ok (true, some id, some (suc count)))
                  else ok (false, none, some count))
          ])
      by_slot (pos n) f =
          then_with (Counts count) (λ b. b ≡ show_ℕ n) (copy_to_buffer (show_ℕ n)) _
            (copy_fits (show_ℕ n) 10 (length-show_ℕ_le n f) (omega arith)) λ id e. omega arith
      by_slot (negsuc n) f =
          chosen (Counts count) (n == 0) _ _
            (λ _.
              then_with (Counts count) (λ b. b ≡ bbid ++ (codes "-" ++ show_ℕ count))
                (copy_to_buffer (bbid ++ (codes "-" ++ show_ℕ count))) _
                (copy_fits (bbid ++ (codes "-" ++ show_ℕ count)) 221
                  (omega (
                    arith,
                    length-append bbid (codes "-" ++ show_ℕ count),
                    length-show_ℕ_le count few,
                    short,
                  ))
                  (omega arith))
                λ id e. omega arith)
            (λ _. omega arith)

  -- The same without a block and a count, for an operand.
  pub operand_id_fits :
      (inst : Value)
      → IsFittingValue inst
      → IsNamed inst
      → Succeeds Any (get_inst_id tables inst none none)
  unfolding get_inst_id get_value_name
  operand_id_fits inst h named =
      chosen Any (get_value_name tables inst).0 _ _
        (λ _.
          then_with Any (λ b. b ≡ (get_value_name tables inst).1)
            (copy_to_buffer (get_value_name tables inst).1) _
            (copy_fits _ 200 (name_IsShort inst h) (omega arith)) λ id e. tt)
        (λ unnamed. elim (Option-cases (find_slot inst.slot tables.slot_to_var_name)) [
          | inr (name, there) ↦ rw there (
              then_with Any (λ b. b ≡ name) (copy_to_buffer name) _
                (copy_fits name 200 (fits.1 inst.slot name there) (omega arith)) λ id e. tt)
          | inl absent ↦ rw absent (by_slot named unnamed)
        ])
    where
      by_slot :
          IsNamed inst
          → (get_value_name tables inst).0 ≡ false
          → Succeeds {A = Bool × Option Text × Option ℕ} Any (elim inst.slot [
            | pos n ↦ copy_to_buffer (show_ℕ n) >>= λ id. ok (true, some id, none)
            | negsuc n ↦ if n == 0 then err assertion_failed else ok (false, none, none)
          ])
      by_slot (inl has_name) unnamed = absurd (ground (arith, value_named inst has_name, unnamed))
      by_slot (inr (n, e)) unnamed = rw e (
          then_with Any (λ b. b ≡ show_ℕ n) (copy_to_buffer (show_ℕ n)) _
            (copy_fits (show_ℕ n) 10 (length-show_ℕ_le n (subst IsFittingSlot e h.1)) (omega arith))
            λ id e. tt)

  -- The id of a block with its loop depth.
  pub block_id_fits :
      (v : Value) (depth : ℕ)
      → IsFittingValue v
      → Succeeds
          (λ (id : Option Text). (before : Text) → length (or_before id before) ≤ 210)
          (make_value_id tables v (some depth))
  unfolding make_value_id
  block_id_fits v depth h =
      let Goal : Option Text → Type 0 =
        λ id. (before : Text) → length (or_before id before) ≤ 210 in
      let name = get_value_name tables v in
      then_with Goal (λ b. length b ≤ 210)
        (if name.0
          then copy_to_buffer (take (length name.1 + 3) (name.1 ++ (codes ":" ++ show_ℕ depth)))
          else copy_to_buffer (take (2 * 3) (show_int v.slot ++ (codes ":" ++ show_ℕ depth))))
        _
        (chosen (λ (b : Text). length b ≤ 210) name.0 _ _
          (λ _.
            taken (length name.1 + 3) (name.1 ++ (codes ":" ++ show_ℕ depth))
              (omega (arith, name_IsShort v h)))
          (λ _. taken (2 * 3) (show_int v.slot ++ (codes ":" ++ show_ℕ depth)) (omega arith)))
        λ b short before. short
    where
      taken :
          (n : ℕ) (s : Text)
          → n ≤ 210
          → Succeeds (λ (b : Text). length b ≤ 210) (copy_to_buffer (take n s))
      taken n s few =
          rw (lt→ltb (length (take n s)) 256 (omega (arith, length-take_le n s)))
            (omega (arith, length-take_le n s))

  -- The id of a label that is an operand.
  pub label_id_fits :
      (v : Value) → IsFittingValue v → IsNamed v → Succeeds Any (make_value_id tables v none)
  unfolding make_value_id
  label_id_fits v h named =
      chosen Any (get_value_name tables v).0 _ _
        (λ _.
          then_with Any (λ b. b ≡ (get_value_name tables v).1)
            (copy_to_buffer (get_value_name tables v).1) _
            (copy_fits _ 200 (name_IsShort v h) (omega arith)) λ id e. tt)
        (λ unnamed. by_slot named unnamed)
    where
      by_slot :
          IsNamed v
          → (get_value_name tables v).0 ≡ false
          → Succeeds {A = Option Text} Any (elim v.slot [
            | pos n ↦ copy_to_buffer (show_ℕ n) >>= λ id. ok (some id)
            | negsuc n ↦ if n == 0 then err assertion_failed else ok none
          ])
      by_slot (inl has_name) unnamed = absurd (ground (arith, value_named v has_name, unnamed))
      by_slot (inr (n, e)) unnamed = rw e (
          then_with Any (λ b. b ≡ show_ℕ n) (copy_to_buffer (show_ℕ n)) _
            (copy_fits (show_ℕ n) 10 (length-show_ℕ_le n (subst IsFittingSlot e h.1)) (omega arith))
            λ id e. tt)

  set_slot_name_fits :
      (slot : ℤ) (name : Text) → IsShort name → IsFitting (set_slot_name slot name tables)
  unfolding find_slot
  set_slot_name_fits slot name short = (fits.0, named, fits.2)
    where
      named :
          (s : ℤ) (found : Text)
          → find_slot s ((slot, name) ∷ tables.slot_to_var_name) ≡ some found
          → IsShort found
      named s found e = elim (Bool-cases (int_eq slot s)) [
        | inl same ↦ subst IsShort (some_text_inj name found (rw same refl ∙ e)) short
        | inr other ↦ fits.1 s found (rw other refl ∙ e)
      ]

  pub name_bitcast_fits :
      (inst operand : Value) (instid : Text)
      → IsFittingValue operand
      → Succeeds
          (λ (r : Text × NameTables). IsFitting r.1)
          (name_bitcast inst operand instid tables)
  unfolding name_bitcast
  name_bitcast_fits inst operand instid h =
      let Goal : Text × NameTables → Type 0 = λ r. IsFitting r.1 in
      chosen Goal
        (inst.is_bitcast
          && ((elim (find_slot inst.slot tables.slot_to_var_name) [ none ↦ true | some n ↦ false ])
              && (operand.is_pointer && (get_value_name tables operand).0)))
        (copy_to_buffer (get_value_name tables operand).1 >>= λ id.
          ok (id, set_slot_name inst.slot id tables))
        (ok (instid, tables))
        (λ _.
          then_with Goal (λ b. b ≡ (get_value_name tables operand).1)
            (copy_to_buffer (get_value_name tables operand).1)
            (λ id. ok (id, set_slot_name inst.slot id tables))
            (copy_fits _ 200 (name_IsShort operand h) (omega arith))
            λ id e.
              set_slot_name_fits inst.slot id (subst IsShort (sym e) (name_IsShort operand h)))
        (λ _. fits)

  -- The declarations behind an alloca have variables with short names.
  abbrev pub AreShort : List (Option (Value × Option Text)) → Type 0
  AreShort ds =
      All
        (λ (d : Option (Value × Option Text)).
          (v : Value) (name : Option Text) → d ≡ some (v, name) → HasShortName name)
        ds

  find_debug_declare_fits :
      (slot : ℤ) (ds : List (Option (Value × Option Text)))
      → AreShort ds
      → Succeeds IsFitting (find_debug_declare slot ds tables)
  unfolding find_debug_declare
  find_debug_declare_fits slot [] h = fits
  find_debug_declare_fits slot (none ∷ ds) h = find_debug_declare_fits slot ds h.1
  find_debug_declare_fits slot (some (v, name) ∷ ds) h =
      chosen IsFitting (v.is_undef || not (int_eq v.slot slot)) _ _
        (λ _. find_debug_declare_fits slot ds h.1) (λ _. with_name name (h.0 v name refl))
    where
      with_name :
          (name : Option Text)
          → HasShortName name
          → Succeeds IsFitting
              (elim name [ none ↦ err bad_pointer | some n ↦ ok (set_slot_name v.slot n tables) ])
      with_name none short = absurd short
      with_name (some n) short = set_slot_name_fits v.slot n short

  pub process_alloca_instruction_fits :
      (alloca : Value) (ds : List (Option (Value × Option Text)))
      → AreShort ds
      → Succeeds IsFitting (process_alloca_instruction alloca ds tables)
  unfolding process_alloca_instruction
  process_alloca_instruction_fits alloca ds h =
      chosen IsFitting (get_value_name tables alloca).0 _ _ (λ _. fits)
        (λ _. find_debug_declare_fits alloca.slot ds h)
