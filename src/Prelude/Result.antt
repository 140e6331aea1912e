-- ===== src/Prelude/Result.antt =====
-- Results of code that can stop: a failed assertion, `exit(-1)`, or a use of memory that C++ leaves
-- undefined.
use mathlib.Core.Option.{Option, none, some}
use mathlib.Core.Path.{◌≡◌, refl}

pub data Fault : Type 0 where
  assertion_failed exit_failure bad_pointer bad_file deadlock buffer_overflow out_of_fuel : Fault

pub data Result {ℓ} (T : Type ℓ) : Type ℓ where
  err : Fault → Result T
  ok : T → Result T

-- A pointer or a lookup that has to lead somewhere.
abbrev pub or_fault {ℓ} : {T : Type ℓ} → Option T → Fault → Result T
or_fault (some t) fault = ok t
or_fault none fault = err fault

-- The rest of a computation runs if its first part did not stop.
infixl 5 ◌>>=◌
abbrev pub ◌>>=◌ {ℓ κ} : {S : Type ℓ} {T : Type κ} → Result S → (S → Result T) → Result T
err fault >>= rest = err fault
ok s >>= rest = rest s

pub >>=-eq-ok {ℓ κ} :
    {S : Type ℓ} {T : Type κ} (first : Result S) (rest : S → Result T) {t : T}
    → (first >>= rest) ≡ ok t
    → (s : S) × (first ≡ ok s) × (rest s ≡ ok t)
>>=-eq-ok (err fault) rest ended = cc
>>=-eq-ok (ok s) rest ended = (s, refl, ended)

pub >>=_congr {ℓ κ} :
    {S : Type ℓ} {T : Type κ} (first : Result S) (rest rest' : S → Result T)
    → ((s : S) → rest s ≡ rest' s)
    → (first >>= rest) ≡ (first >>= rest')
>>=_congr (err fault) rest rest' h = refl
>>=_congr (ok s) rest rest' h = h s

pub >>=_assoc {ℓ κ μ} :
    {S : Type ℓ} {T : Type κ} {U : Type μ} (first : Result S) (next : S → Result T)
    (rest : T → Result U)
    → (first >>= next >>= rest) ≡ (first >>= λ s. (next s >>= rest))
>>=_assoc (err fault) next rest = refl
>>=_assoc (ok s) next rest = refl
