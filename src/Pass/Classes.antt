-- ===== src/Pass/Classes.antt =====
-- What the tests on names accept (full-trace/full_trace.cpp).
use llvm_tracer.Prelude.{
  ℕ, zero, suc, ◌-◌, ◌≤◌, length, length-append, true, Bool-cases, ◌≡◌, ◌↔◌, inl, inr, refl, sym,
  ap, ◌∙◌, subst, List, [], ◌∷◌, ◌++◌, Text, codes, if◌then◌else◌, ltb, arith,
}
use mathlib.Core.List.{Memᴰ}
use mathlib.Core.List.Memᴰ.{head, tail}
use llvm_tracer.Pass.Names.{
  intrinsics, starts_with, any_prefix, is_llvm_intrinsic, occurs_up_to, to_fxpt,
}

starts_with→append :
    (prefix s : Text) → starts_with prefix s ≡ true → (rest : Text) × (s ≡ prefix ++ rest)
unfolding starts_with
starts_with→append [] s e = (s, refl)
starts_with→append (p ∷ prefix) [] e = ground arith
starts_with→append (p ∷ prefix) (c ∷ s) e =
    let (rest, e') = starts_with→append prefix s (ground arith) in (rest, ground arith)

starts_with-append : (prefix rest : Text) → starts_with prefix (prefix ++ rest) ≡ true
unfolding starts_with
starts_with-append [] rest = refl
starts_with-append (p ∷ prefix) rest = ground (arith, starts_with-append prefix rest)

any_prefix→ :
    (prefixes : List Text) (s : Text)
    → any_prefix prefixes s ≡ true
    → (prefix : Text) × (rest : Text) × Memᴰ prefix prefixes × (s ≡ prefix ++ rest)
unfolding any_prefix
any_prefix→ [] s e = ground arith
any_prefix→ (prefix ∷ prefixes) s e = elim (Bool-cases (starts_with prefix s)) [
  | inl y ↦ let (rest, e') = starts_with→append prefix s y in (prefix, rest, head refl, e')
  | inr n ↦
      let (found, rest, k, e') = any_prefix→ prefixes s (ground arith) in (found, rest, tail k, e')
]

→any_prefix :
    (prefixes : List Text) (prefix rest : Text)
    → Memᴰ prefix prefixes
    → any_prefix prefixes (prefix ++ rest) ≡ true
unfolding any_prefix
→any_prefix [] prefix rest k = elim k [ ]
→any_prefix (p ∷ prefixes) prefix rest (head e) =
    rw (ap (λ q. starts_with q (prefix ++ rest)) (sym e) ∙ starts_with-append prefix rest) refl
→any_prefix (p ∷ prefixes) prefix rest (tail k) = ground (arith, →any_prefix prefixes prefix rest k)

-- `isLLVMIntrinsic` accepts exactly the names that begin with an entry of the list.
pub is_llvm_intrinsic-prefix :
    (func : Text)
    → (is_llvm_intrinsic func ≡ true)
      ↔ ((prefix : Text) × (rest : Text) × Memᴰ prefix intrinsics × (func ≡ prefix ++ rest))
unfolding is_llvm_intrinsic
is_llvm_intrinsic-prefix func = (
  any_prefix→ intrinsics func,
  λ (prefix, rest, k, e). rw e (→any_prefix intrinsics prefix rest k),
)

occurs→ :
    (pattern : Text) (pos : ℕ) (s : Text)
    → occurs_up_to pattern pos s ≡ true
    → (before : Text) × (after : Text) × (s ≡ before ++ (pattern ++ after))
unfolding occurs_up_to
occurs→ pattern zero s e = let (rest, e') = starts_with→append pattern s e in ([], rest, e')
occurs→ pattern (suc pos) [] e = let (rest, e') = starts_with→append pattern [] e in ([], rest, e')
occurs→ pattern (suc pos) (c ∷ s) e = elim (Bool-cases (starts_with pattern (c ∷ s))) [
  | inl y ↦ let (rest, e') = starts_with→append pattern (c ∷ s) y in ([], rest, e')
  | inr n ↦
      let (before, after, e') = occurs→ pattern pos s (ground arith) in
      (c ∷ before, after, ap (◌∷◌ c) e')
]

→occurs :
    (pattern before after : Text) (pos : ℕ)
    → length before ≤ pos
    → occurs_up_to pattern pos (before ++ (pattern ++ after)) ≡ true
unfolding occurs_up_to
→occurs pattern [] after zero h = starts_with-append pattern after
→occurs pattern [] after (suc pos) h = go (pattern ++ after) (starts_with-append pattern after)
  where
    go : (s : Text) → starts_with pattern s ≡ true → occurs_up_to pattern (suc pos) s ≡ true
    go [] e = e
    go (c ∷ s) e = ground arith
→occurs pattern (c ∷ before) after zero h = absurd (omega arith)
→occurs pattern (c ∷ before) after (suc pos) h =
    ground (arith, →occurs pattern before after pos (omega arith))

last_index : (before after : Text) → length before ≤ length (before ++ (codes "_fxp" ++ after)) - 4
last_index before after =
    omega (arith, length-append before (codes "_fxp" ++ after), length-append (codes "_fxp") after)

-- The pass prints fixed-point operations for a function exactly if `_fxp` stands anywhere in its name.
pub to_fxpt-anywhere :
    (name : Text)
    → (to_fxpt name ≡ true)
      ↔ ((before : Text) × (after : Text) × (name ≡ before ++ (codes "_fxp" ++ after)))
unfolding to_fxpt
to_fxpt-anywhere name = (
  occurs→ (codes "_fxp") (if ltb (length name) 4 then length name else length name - 4) name,
  λ (before, after, e).
      subst
        (λ (n : Text).
          occurs_up_to (codes "_fxp") (if ltb (length n) 4 then length n else length n - 4) n
          ≡ true)
        (sym e) (→occurs (codes "_fxp") before after (bound before after) (enough before after)),
)
  where
    bound : (before after : Text) → ℕ
    bound before after =
        let n = before ++ (codes "_fxp" ++ after) in
        if ltb (length n) 4 then length n else length n - 4

    enough : (before after : Text) → length before ≤ bound before after
    enough before after = ground (arith, last_index before after)
