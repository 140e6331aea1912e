-- ===== src/Pass/Ensures.antt =====
-- What a result has if it is one, and the rules for the steps of a computation.
use llvm_tracer.Prelude.{Bool, true, false, ◌≡◌, refl, subst, if◌then◌else◌}
use llvm_tracer.Prelude.Result.{Result, err, ok, ◌>>=◌}

abbrev pub Ensures {ℓ κ} : {A : Type ℓ} → (A → Type κ) → Result A → Type κ
Ensures P (err fault) = Unit
Ensures P (ok a) = P a

module _ {ℓ μ κ} {A : Type ℓ} {B : Type μ} (P : B → Type κ) where
  -- A step whose result does not matter.
  pub after :
      (first : Result A) (rest : A → Result B)
      → ((a : A) → Ensures P (rest a))
      → Ensures P (first >>= rest)
  after (err fault) rest h = tt
  after (ok a) rest h = h a

-- A step with a property of its own.
pub after_with {ℓ μ κ ν} :
    {A : Type ℓ} {B : Type μ} (P : B → Type κ) (Q : A → Type ν) (first : Result A)
    (rest : A → Result B)
    → Ensures Q first
    → ((a : A) → Q a → Ensures P (rest a))
    → Ensures P (first >>= rest)
after_with P Q (err fault) rest q h = tt
after_with P Q (ok a) rest q h = h a q

pub either {ℓ κ} :
    {A : Type ℓ} (P : A → Type κ) (b : Bool) (yes_case no_case : Result A)
    → Ensures P yes_case
    → Ensures P no_case
    → Ensures P (if b then yes_case else no_case)
either P true yes_case no_case h k = h
either P false yes_case no_case h k = k

-- The same where the branches know the test.
pub either_by {ℓ κ} :
    {A : Type ℓ} (P : A → Type κ) (b : Bool) (yes_case no_case : Result A)
    → (b ≡ true → Ensures P yes_case)
    → (b ≡ false → Ensures P no_case)
    → Ensures P (if b then yes_case else no_case)
either_by P true yes_case no_case h k = h refl
either_by P false yes_case no_case h k = k refl

pub weaken {ℓ κ ν} :
    {A : Type ℓ} (P : A → Type κ) (Q : A → Type ν) (r : Result A)
    → Ensures P r
    → ((a : A) → P a → Q a)
    → Ensures Q r
weaken P Q (err fault) h k = tt
weaken P Q (ok a) h k = k a h

ok_inj {ℓ} : {A : Type ℓ} (b a : A) → ok b ≡ ok a → b ≡ a
ok_inj b a e = cc

-- A property that a result has.
pub ensured {ℓ κ} :
    {A : Type ℓ} (P : A → Type κ) (r : Result A) (a : A) → Ensures P r → r ≡ ok a → P a
ensured P (err fault) a h e = cc
ensured P (ok b) a h e = subst P (ok_inj b a e) h

pub ensures {ℓ κ} :
    {A : Type ℓ} (P : A → Type κ) (r : Result A) → ((a : A) → r ≡ ok a → P a) → Ensures P r
ensures P (err fault) h = tt
ensures P (ok a) h = h a refl
