-- ===== src/Pass/Succeeds.antt =====
-- A computation that gives a result, and what the result has; the rules for its steps.
use llvm_tracer.Prelude.{Bool, true, false, ◌≡◌, refl, if◌then◌else◌}
use llvm_tracer.Prelude.Result.{Result, err, ok, ◌>>=◌}

abbrev pub Succeeds : {A : Type 0} → (A → Type 0) → Result A → Type 0
Succeeds P (err fault) = ⊥
Succeeds P (ok a) = P a

-- No more than that there is a result.
abbrev pub Any : {A : Type 0} → A → Type 0
Any a = Unit {0}

pub then_with :
    {A : Type 0} {B : Type 0} (P : B → Type 0) (Q : A → Type 0) (first : Result A)
    (rest : A → Result B)
    → Succeeds Q first
    → ((a : A) → Q a → Succeeds P (rest a))
    → Succeeds P (first >>= rest)
then_with P Q (err fault) rest q h = absurd q
then_with P Q (ok a) rest q h = h a q

pub chosen :
    {A : Type 0} (P : A → Type 0) (b : Bool) (yes_case no_case : Result A)
    → (b ≡ true → Succeeds P yes_case)
    → (b ≡ false → Succeeds P no_case)
    → Succeeds P (if b then yes_case else no_case)
chosen P true yes_case no_case h k = h refl
chosen P false yes_case no_case h k = k refl

pub succeeded :
    {A : Type 0} (P : A → Type 0) (r : Result A) → Succeeds P r → (a : A) × (r ≡ ok a) × P a
succeeded P (err fault) h = absurd h
succeeded P (ok a) h = (a, refl, h)

pub forget : {A : Type 0} (P : A → Type 0) (r : Result A) → Succeeds P r → Succeeds Any r
forget P (err fault) h = h
forget P (ok a) h = tt
