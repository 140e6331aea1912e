-- ===== src/AstPass/Search/Loop.antt =====
-- One call of `findAllNoninlinedCallers`: its loop over the callers (ast-pass/GetLabeledStmts.cpp).
use llvm_tracer.Prelude.{
  true, false, Bool-cases, ◌≡◌, refl, sym, subst, inl, inr, Option, none, some, List, [], ◌∷◌, ◌++◌,
  Text, if◌then◌else◌, arith,
}
use mathlib.Core.List.{Memᴰ}
use mathlib.Core.List.Memᴰ.{head, tail, append_left, append_right, append_cases}
use llvm_tracer.AstPass.Tree.{LabelMap}
use llvm_tracer.AstPass.Callers.{is_inlined, append_both, loop_callers}

append_both-eq-some :
    (left right : Option (List Text)) (found : List Text)
    → append_both left right ≡ some found
    → (first : List Text) × (rest : List Text) × (left ≡ some first)
      × (right ≡ some rest)
      × (found ≡ first ++ rest)
append_both-eq-some none right found e = cc
append_both-eq-some (some first) none found e = cc
append_both-eq-some (some first) (some rest) found e = (first, rest, refl, refl, cc)

-- `c` comes from a caller in the list: the caller itself, or one that the search finds from it.
pub data From (search : Text → Option (List Text)) (m : LabelMap) (c : Text)
    : List Text → Type 0 where
  at : {callers : List Text} → Memᴰ c callers → is_inlined c m ≡ false → From search m c callers
  below :
      {callers : List Text} (a : Text) (found : List Text)
      → Memᴰ a callers
      → is_inlined a m ≡ true
      → search a ≡ some found
      → Memᴰ c found
      → From search m c callers

Memᴰ-some : (c : Text) (cs ds : List Text) → some cs ≡ some ds → Memᴰ c cs → Memᴰ c ds
Memᴰ-some c cs ds e h = subst (λ (es : List Text). Memᴰ c es) (ground arith) h

single : (c a : Text) → Memᴰ c (a ∷ []) → c ≡ a
single c a (head e) = e
single c a (tail h) = elim h [ ]

module _ (search : Text → Option (List Text)) (m : LabelMap) (c : Text) where
  From-tail :
      (a : Text) (callers : List Text) → From search m c callers → From search m c (a ∷ callers)
  From-tail a callers (at h n) = at (tail h) n
  From-tail a callers (below b found h i e k) = below b found (tail h) i e k

  -- What the loop finds at one caller.
  abbrev at_caller : Text → Option (List Text)
  at_caller a = if is_inlined a m then search a else some (a ∷ [])

  first-From :
      (a : Text) (callers first : List Text)
      → at_caller a ≡ some first
      → Memᴰ c first
      → From search m c (a ∷ callers)
  first-From a callers first e h = elim (Bool-cases (is_inlined a m)) [
    | inl i ↦ below a first (head refl) i (ground arith) h
    | inr n ↦
        let c-eq-a : c ≡ a = single c a (Memᴰ-some c first (a ∷ []) (ground arith) h) in
        at (head c-eq-a) (subst (λ x. is_inlined x m ≡ false) (sym c-eq-a) n)
  ]

  From-first :
      (a : Text) (first : List Text)
      → at_caller a ≡ some first
      → is_inlined a m ≡ false
      → c ≡ a
      → Memᴰ c first
  From-first a first e n c-eq-a = Memᴰ-some c (a ∷ []) first (ground arith) (head c-eq-a)

  From-found :
      (a b : Text) (first found : List Text)
      → at_caller a ≡ some first
      → b ≡ a
      → is_inlined b m ≡ true
      → search b ≡ some found
      → Memᴰ c found
      → Memᴰ c first
  From-found a b first found e b-eq-a i k h = Memᴰ-some c found first (ground arith) h

  loop-cons :
      (a : Text) (callers found : List Text)
      → loop_callers search m (a ∷ callers) ≡ some found
      → (first : List Text) × (rest : List Text) × (at_caller a ≡ some first)
        × (loop_callers search m callers ≡ some rest)
        × (found ≡ first ++ rest)
  unfolding loop_callers
  loop-cons a callers found e =
      append_both-eq-some (at_caller a) (loop_callers search m callers) found e

  pub loop-From :
      (callers found : List Text)
      → loop_callers search m callers ≡ some found
      → Memᴰ c found
      → From search m c callers
  unfolding loop_callers
  loop-From [] found e h = elim (Memᴰ-some c found [] (sym e) h) [ ]
  loop-From (a ∷ callers) found e h =
      let (first, rest, e₁, e₂, e₃) = loop-cons a callers found e in
      elim (append_cases first (subst (λ (cs : List Text). Memᴰ c cs) e₃ h)) [
        | inl l ↦ first-From a callers first e₁ l
        | inr r ↦ From-tail a callers (loop-From callers rest e₂ r)
      ]

  place :
      (a : Text) (callers first rest : List Text)
      → at_caller a ≡ some first
      → (From search m c callers → Memᴰ c rest)
      → From search m c (a ∷ callers)
      → Memᴰ c (first ++ rest)
  place a callers first rest e in_rest (at (head c-eq-a) n) =
      append_left rest (From-first a first e (subst (λ x. is_inlined x m ≡ false) c-eq-a n) c-eq-a)
  place a callers first rest e in_rest (at (tail h) n) = append_right first (in_rest (at h n))
  place a callers first rest e in_rest (below b others (head b-eq-a) i k l) =
      append_left rest (From-found a b first others e b-eq-a i k l)
  place a callers first rest e in_rest (below b others (tail h) i k l) =
      append_right first (in_rest (below b others h i k l))

  pub From-loop :
      (callers found : List Text)
      → loop_callers search m callers ≡ some found
      → From search m c callers
      → Memᴰ c found
  From-loop [] found e (at h n) = elim h [ ]
  From-loop [] found e (below b others h i k l) = elim h [ ]
  From-loop (a ∷ callers) found e h =
      let (first, rest, e₁, e₂, e₃) = loop-cons a callers found e in
      subst (λ (cs : List Text). Memᴰ c cs) (sym e₃)
        (place a callers first rest e₁
          (λ (h : From search m c callers). From-loop callers rest e₂ h) h)

  pub loop-none :
      (callers : List Text) (a : Text)
      → Memᴰ a callers
      → is_inlined a m ≡ true
      → search a ≡ none
      → loop_callers search m callers ≡ none
  unfolding loop_callers
  loop-none [] a h i n = elim h [ ]
  loop-none (b ∷ callers) a (head e) i n =
      first-none (subst (λ x. is_inlined x m ≡ true) e i) (subst (λ x. search x ≡ none) e n)
    where
      first-none :
          is_inlined b m ≡ true
          → search b ≡ none
          → append_both (at_caller b) (loop_callers search m callers) ≡ none
      first-none i n = ground arith
  loop-none (b ∷ callers) a (tail h) i n = rest-none (at_caller b) (loop-none callers a h i n)
    where
      rest-none :
          (found : Option (List Text))
          → loop_callers search m callers ≡ none
          → append_both found (loop_callers search m callers) ≡ none
      rest-none none e = refl
      rest-none (some found) e = ground arith

  pub loop-searched :
      (callers found : List Text) (a : Text)
      → loop_callers search m callers ≡ some found
      → Memᴰ a callers
      → is_inlined a m ≡ true
      → (others : List Text) × (search a ≡ some others)
  loop-searched callers found a e h i = go (search a) refl
    where
      go :
          (result : Option (List Text))
          → search a ≡ result
          → (others : List Text) × (search a ≡ some others)
      go none n = absurd (ground (arith, loop-none callers a h i n))
      go (some others) e = (others, e)

  pub loop-some :
      (callers : List Text)
      → ((a : Text)
          → Memᴰ a callers
          → is_inlined a m ≡ true
          → (found : List Text) × (search a ≡ some found))
      → (found : List Text) × (loop_callers search m callers ≡ some found)
  unfolding loop_callers
  loop-some [] searched = ([], refl)
  loop-some (a ∷ callers) searched =
      let (rest, e) = loop-some callers (λ b h i. searched b (tail h) i) in
      elim (Bool-cases (is_inlined a m)) [
        | inl i ↦ let (first, e') = searched a (head refl) i in (first ++ rest, ground arith)
        | inr n ↦ (a ∷ rest, ground arith)
      ]
