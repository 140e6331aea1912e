-- ===== src/Prelude/Dict.antt =====
-- `std::map<std::string, V>` as an association list in the order of its keys.
use llvm_tracer.Prelude.Tests.{if◌then◌else◌}
use llvm_tracer.Prelude.Bytes.{Text, text_eq, text_eq_iff, text_lt}
use mathlib.Core.Path.{◌≡◌, refl}
use mathlib.Core.Logic.{◌≢◌, ◌⊎◌}
use mathlib.Core.Option.{Option, none, some}
use mathlib.Core.List.{List, [], ◌∷◌}
use native.Mathlib.Omega.{arith}

abbrev pub Dict {ℓ} : Type ℓ → Type ℓ
Dict V = List (Text × V)

module _ {ℓ} {V : Type ℓ} where
  unfoldable pub lookup : Text → Dict V → Option V
  lookup k [] = none
  lookup k ((j, v) ∷ m) = if text_eq j k then some v else lookup k m

  -- `m[k] = v`: an old key keeps its place, a new one comes before the first greater key.
  unfoldable pub insert : Text → V → Dict V → Dict V
  insert k v [] = (k, v) ∷ []
  insert k v ((j, w) ∷ m) =
      if text_eq j k
      then (k, v) ∷ m
      else if text_lt k j
      then (k, v) ∷ (j, w) ∷ m
      else (j, w) ∷ insert k v m

  -- A write is seen at its key alone.
  pub lookup-insert :
      (k : Text) (j : Text) (v : V) (m : Dict V)
      → lookup j (insert k v m) ≡ (if text_eq k j then some v else lookup j m)
  unfolding insert lookup
  lookup-insert k j v [] = refl
  lookup-insert k j v ((key, old) ∷ m) =
      ground (arith, lookup-insert k j v m, text_eq_iff key k, text_eq_iff key j, text_eq_iff k j)

  pub lookup-insert_cases :
      (k j : Text) (v w : V) (m : Dict V)
      → lookup j (insert k v m) ≡ some w
      → ((k ≡ j) × (v ≡ w)) ⊎ ((k ≢ j) × (lookup j m ≡ some w))
  lookup-insert_cases k j v w m e = ground (arith, lookup-insert k j v m, text_eq_iff k j)
