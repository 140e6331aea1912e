-- ===== src/Pass/BlockIds.antt =====
-- How far the id of a block tells its loop depth (full-trace/full_trace.cpp).
use llvm_tracer.Prelude.{
  ℕ, zero, suc, ◌+◌, ◌/◌, ◌%◌, ◌<◌, ◌≤◌, length, length-append, take, take_all, take-append_length,
  true, false, Bool-cases, inl, inr, ltb, lt→ltb, ◌≡◌, refl, sym, ap, ◌∙◌, some, [], ◌∷◌, ◌++◌,
  append_assoc, Text, codes, if◌then◌else◌, arith,
}
use llvm_tracer.Prelude.Decimal.{digit, show_digits, show_ℕ}
use llvm_tracer.Prelude.Result.{ok}
use llvm_tracer.Pass.Setup.{is_empty}
use llvm_tracer.Pass.Ids.{Value, NameTables, copy_to_buffer, get_value_name, make_value_id}

show_digits-out :
    (fuel n : ℕ) (out more : Text)
    → show_digits 10 fuel n (out ++ more) ≡ show_digits 10 fuel n out ++ more
unfolding show_digits
show_digits-out zero n out more = refl
show_digits-out (suc fuel) n out more = elim (Bool-cases (ltb n 10)) [
  | inl y ↦ rw y refl
  | inr large ↦ rw large (show_digits-out fuel (n / 10) (digit (n % 10) ∷ out) more)
]

-- Fuel that is enough changes nothing.
show_digits-enough :
    (a b n : ℕ) (out : Text) → n < a → n < b → show_digits 10 a n out ≡ show_digits 10 b n out
unfolding show_digits
show_digits-enough zero b n out h k = absurd (omega arith)
show_digits-enough (suc a) zero n out h k = absurd (omega arith)
show_digits-enough (suc a) (suc b) n out h k = elim (Bool-cases (ltb n 10)) [
  | inl y ↦ rw y refl
  | inr large ↦
      rw large
        (show_digits-enough a b (n / 10) (digit (n % 10) ∷ out) (ground arith) (ground arith))
]

-- The last digit of a number comes after the digits of its tenth.
show_ℕ-step : (n : ℕ) → 10 ≤ n → show_ℕ n ≡ show_ℕ (n / 10) ++ (digit (n % 10) ∷ [])
unfolding show_ℕ show_digits
show_ℕ-step n h = rw (not_small n h) (
    show_digits-enough n (suc (n / 10)) (n / 10) (digit (n % 10) ∷ []) (omega arith) (omega arith)
    ∙ show_digits-out (suc (n / 10)) (n / 10) [] (digit (n % 10) ∷ []))
  where
    not_small : (n : ℕ) → 10 ≤ n → ltb n 10 ≡ false
    not_small n h = ground arith

show_ℕ-one : (n : ℕ) → n < 10 → show_ℕ n ≡ digit n ∷ []
unfolding show_ℕ show_digits
show_ℕ-one n h = rw (lt→ltb n 10 h) refl

length-show_ℕ_two : (n : ℕ) → 10 ≤ n → n < 100 → length (show_ℕ n) ≡ 2
length-show_ℕ_two n h k =
    ap length
      (show_ℕ-step n h ∙ ap (λ s. s ++ (digit (n % 10) ∷ [])) (show_ℕ-one (n / 10) (omega arith)))

-- The text that the format of a named block gives, and what its bound leaves.
abbrev block_text : Text → ℕ → Text
block_text name loop_depth = name ++ (codes ":" ++ show_ℕ loop_depth)

length-block_text :
    (name : Text) (depth : ℕ)
    → length (block_text name depth) ≡ length name + suc (length (show_ℕ depth))
length-block_text name depth = length-append name (codes ":" ++ show_ℕ depth)

length-show_ℕ_le : (n : ℕ) → n < 100 → length (show_ℕ n) ≤ 2
length-show_ℕ_le n h = elim (Bool-cases (ltb n 10)) [
  | inl y ↦ omega (arith, ap length (show_ℕ-one n (ground arith)))
  | inr large ↦ omega (arith, length-show_ℕ_two n (ground arith) h)
]

take-block_text_short :
    (name : Text) (depth : ℕ)
    → depth < 100
    → take (length name + 3) (block_text name depth) ≡ block_text name depth
take-block_text_short name depth h =
    take_all (length name + 3) (block_text name depth)
      (omega (arith, length-block_text name depth, length-show_ℕ_le depth h))

take-block_text_long :
    (name : Text) (depth : ℕ)
    → 100 ≤ depth
    → depth < 1000
    → take (length name + 3) (block_text name depth) ≡ block_text name (depth / 10)
take-block_text_long name depth h k =
    ap (take (length name + 3)) (more name depth h)
    ∙ ap (λ n. take n (block_text name (depth / 10) ++ (digit (depth % 10) ∷ []))) (sym three)
    ∙ take-append_length (block_text name (depth / 10)) (digit (depth % 10) ∷ [])
  where
    more :
        (name : Text) (depth : ℕ)
        → 100 ≤ depth
        → block_text name depth ≡ block_text name (depth / 10) ++ (digit (depth % 10) ∷ [])
    more name depth h =
        ap (λ s. name ++ (codes ":" ++ s)) (show_ℕ-step depth (omega arith))
        ∙ sym (append_assoc name (codes ":" ++ show_ℕ (depth / 10)) (digit (depth % 10) ∷ []))

    three : length (block_text name (depth / 10)) ≡ length name + 3
    three = omega (
      arith,
      length-block_text name (depth / 10),
      length-show_ℕ_two (depth / 10) (omega arith) (omega arith),
    )

-- For a block whose name leaves room in the buffer and a loop depth below 1000, the id is the
-- name, a colon and the loop depth if the depth has at most two digits; a depth of three digits
-- loses its last one.
pub make_value_id-depth :
    (tables : NameTables) (block : Value) (depth : ℕ)
    → is_empty block.name ≡ false
    → length block.name + 3 < 256
    → depth < 1000
    → make_value_id tables block (some depth)
      ≡ ok (some (block_text block.name (if ltb depth 100 then depth else depth / 10)))
unfolding make_value_id get_value_name copy_to_buffer
make_value_id-depth tables block depth named short h = elim (Bool-cases (ltb depth 100)) [
  | inl y ↦
      let small : depth < 100 = ground arith in
      rw
        (
          named,
          y,
          take-block_text_short block.name depth small,
          copied block.name depth short small,
        )
        refl
  | inr large ↦
      let tenth : depth / 10 < 100 = omega arith in
      rw
        (
          named,
          large,
          take-block_text_long block.name depth (ground arith) h,
          copied block.name (depth / 10) short tenth,
        )
        refl
]
  where
    copied :
        (name : Text) (d : ℕ)
        → length name + 3 < 256
        → d < 100
        → ltb (length (block_text name d)) 256 ≡ true
    copied name d short small =
        lt→ltb (length (block_text name d)) 256
          (omega (arith, length-block_text name d, length-show_ℕ_le d small))
