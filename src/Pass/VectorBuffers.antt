-- ===== src/Pass/VectorBuffers.antt =====
-- The buffers for vectors (full-trace/full_trace.cpp): a vector is stored to a buffer on the stack
-- of the function, and vectors with the same key share one.
use llvm_tracer.Prelude.{
  zip, ℕ, zero, suc, ◌/◌, ◌%◌, length, get_elem?, ◌≡◌, refl, sym, ap, ◌∙◌, ◌↔◌, ◌⊎◌, subst, Bool,
  true, false, ◌&&◌, Option, none, some, Bool-cases, inl, inr, List, [], ◌∷◌, ◌++◌, if◌then◌else◌,
  ◌==◌, ==_iff, arith,
}
use llvm_tracer.Prelude.Result.{Result, err, ok, assertion_failed}
use mathlib.Core.List.{Memᴰ}
use mathlib.Core.List.Memᴰ.{head, tail}

-- The type of a vector: the number of its elements, their type ID, their size in bits, which is 0
-- for pointers, and the type that they point to, if they are pointers, as a number.
pub record VectorType : Type 0 where
  pub num_elements : ℕ
  pub element_type : ℕ
  pub element_bits : ℕ
  pub pointee : Option ℕ

pub record VecBufKey : Type 0 where
  pub num_elements : ℕ
  pub scalar_size : ℕ
  pub element_type : ℕ

unfoldable pub create_vec_buf_key : VectorType → VecBufKey
create_vec_buf_key t = record {
  num_elements = t.num_elements;
  scalar_size = t.element_bits / 8;
  element_type = t.element_type;
}

abbrev key_eq : VecBufKey → VecBufKey → Bool
key_eq a b =
    (a.num_elements == b.num_elements)
    && ((a.scalar_size == b.scalar_size) && (a.element_type == b.element_type))

unfoldable pub find_buffer : VecBufKey → List (VecBufKey × ℕ) → Option ℕ
find_buffer key [] = none
find_buffer key ((k, buffer) ∷ buffers) =
    if key_eq k key then some buffer else find_buffer key buffers

-- `vector_buffers`, and the allocas of the function in the order of their making, which numbers them.
pub record VectorBuffers : Type 0 where
  pub vector_buffers : List (VecBufKey × ℕ)
  pub allocas : List VectorType

-- The store of a vector: its buffer and the alignment.
pub record VectorStore : Type 0 where
  pub buffer : ℕ
  pub alignment : ℕ

unfoldable pub create_vector_arg : VectorType → VectorBuffers → VectorStore × VectorBuffers
unfolding create_vec_buf_key find_buffer
create_vector_arg t s =
    let key = create_vec_buf_key t in
    elim (find_buffer key s.vector_buffers) [
      | none ↦ (
        record { buffer = length s.allocas; alignment = key.scalar_size },
        record {
          vector_buffers = (key, length s.allocas) ∷ s.vector_buffers;
          allocas = s.allocas ++ (t ∷ []);
        },
      )
      | some buffer ↦ (record { buffer = buffer; alignment = key.scalar_size }, s)
    ]

abbrev pub pointee_eq : Option ℕ → Option ℕ → Bool
pointee_eq none none = true
pointee_eq (some m) (some n) = m == n
pointee_eq _ _ = false

abbrev pub type_eq : VectorType → VectorType → Bool
type_eq a b =
    (a.num_elements == b.num_elements)
    && ((a.element_type == b.element_type)
        && ((a.element_bits == b.element_bits) && pointee_eq a.pointee b.pointee))

abbrev pub buffer_type_eq : Option VectorType → VectorType → Bool
buffer_type_eq none t = false
buffer_type_eq (some u) t = type_eq u t

-- `CreateAlignedStore` asserts that the buffer has the type of the vector.
unfoldable pub store_vector : VectorType → VectorBuffers → Result VectorBuffers
unfolding create_vector_arg
store_vector t s =
    let (a, s') = create_vector_arg t s in
    if buffer_type_eq (get_elem? s'.allocas a.buffer) t then ok s' else err assertion_failed

-- The vectors of a function, in their order.
unfoldable pub create_vector_args :
    List VectorType → VectorBuffers → List VectorStore × VectorBuffers
unfolding create_vector_arg
create_vector_args [] s = ([], s)
create_vector_args (t ∷ ts) s =
    let (r, s') = create_vector_arg t s in let (rs, s'') = create_vector_args ts s' in (r ∷ rs, s'')

-- `runOnFunction` begins with none.
abbrev pub no_buffers : VectorBuffers
no_buffers = record { vector_buffers = []; allocas = [] }

key_eq_lem : (a b : VecBufKey) → key_eq a b ≡ true → a ≡ b
key_eq_lem a b e = ground (arith, ==_iff a.num_elements b.num_elements)

key_eq_refl : (a : VecBufKey) → key_eq a a ≡ true
key_eq_refl a = ground (arith, ==_iff a.num_elements a.num_elements)

get_elem?_old :
    (ts : List VectorType) (t u : VectorType) (i : ℕ)
    → get_elem? ts i ≡ some u
    → get_elem? (ts ++ (t ∷ [])) i ≡ some u
get_elem?_old [] t u i e = cc
get_elem?_old (x ∷ ts) t u zero e = e
get_elem?_old (x ∷ ts) t u (suc i) e = get_elem?_old ts t u i e

get_elem?_new :
    (ts : List VectorType) (t : VectorType) → get_elem? (ts ++ (t ∷ [])) (length ts) ≡ some t
get_elem?_new [] t = refl
get_elem?_new (x ∷ ts) t = get_elem?_new ts t

some_inj : (a b : ℕ) → some a ≡ some b → a ≡ b
some_inj a b e = cc

never : {A : Type 0} (b : ℕ) → none ≡ some b → A
never b e = cc

-- A buffer has been made for a vector with its key.
abbrev pub HasBuffer : VectorBuffers → VecBufKey → ℕ → Type 0
HasBuffer s key buffer =
    (u : VectorType) × (get_elem? s.allocas buffer ≡ some u) × (create_vec_buf_key u ≡ key)

abbrev pub Inv : VectorBuffers → Type 0
Inv s =
    (key : VecBufKey) (buffer : ℕ)
    → find_buffer key s.vector_buffers ≡ some buffer
    → HasBuffer s key buffer

abbrev Keeps : VectorBuffers → VectorBuffers → Type 0
Keeps s s' =
    (key : VecBufKey) (buffer : ℕ)
    → find_buffer key s.vector_buffers ≡ some buffer
    → find_buffer key s'.vector_buffers ≡ some buffer

-- What one vector does.
abbrev Stored : VectorType → VectorBuffers → VectorStore × VectorBuffers → Type 0
Stored t s r =
    Inv r.1
    × Keeps s r.1
    × (find_buffer (create_vec_buf_key t) r.1.vector_buffers ≡ some r.0.buffer)

module _ (t : VectorType) (s : VectorBuffers) (h : Inv s) where
  abbrev pub with_new : VectorBuffers
  with_new = record {
    vector_buffers = (create_vec_buf_key t, length s.allocas) ∷ s.vector_buffers;
    allocas = s.allocas ++ (t ∷ []);
  }

  new_buffer :
      (key : VecBufKey)
      → create_vec_buf_key t ≡ key
      → find_buffer key with_new.vector_buffers ≡ some (length s.allocas)
  unfolding find_buffer
  new_buffer key e = rw (← e, key_eq_refl (create_vec_buf_key t)) refl

  old_buffer :
      (key : VecBufKey)
      → key_eq (create_vec_buf_key t) key ≡ false
      → find_buffer key with_new.vector_buffers ≡ find_buffer key s.vector_buffers
  unfolding find_buffer
  old_buffer key e = rw e refl

  with_new-Stored :
      find_buffer (create_vec_buf_key t) s.vector_buffers ≡ none
      → Stored t s (
        record { buffer = length s.allocas; alignment = (create_vec_buf_key t).scalar_size },
        with_new,
      )
  with_new-Stored absent = (has, keeps, new_buffer (create_vec_buf_key t) refl)
    where
      has : Inv with_new
      has key buffer e = elim (Bool-cases (key_eq (create_vec_buf_key t) key)) [
        | inl same ↦
            let e' = key_eq_lem (create_vec_buf_key t) key same in
            (
              t,
              ap (get_elem? with_new.allocas)
                    (some_inj buffer (length s.allocas) (sym e ∙ new_buffer key e'))
                  ∙ get_elem?_new s.allocas t,
              e',
            )
        | inr other ↦
            let (u, there, k) = h key buffer (sym (old_buffer key other) ∙ e) in
            (u, get_elem?_old s.allocas t u buffer there, k)
      ]

      keeps : Keeps s with_new
      keeps key buffer e = elim (Bool-cases (key_eq (create_vec_buf_key t) key)) [
        | inl same ↦
            let found =
              ap (λ k. find_buffer k s.vector_buffers) (key_eq_lem (create_vec_buf_key t) key same)
              ∙ e in
            never buffer (sym absent ∙ found)
        | inr other ↦ old_buffer key other ∙ e
      ]

  pub create_vector_arg-Stored : Stored t s (create_vector_arg t s)
  unfolding create_vector_arg
  create_vector_arg-Stored = go (find_buffer (create_vec_buf_key t) s.vector_buffers) refl
    where
      go :
          (o : Option ℕ)
          → find_buffer (create_vec_buf_key t) s.vector_buffers ≡ o
          → Stored t s (elim o [
            | none ↦ (
              record { buffer = length s.allocas; alignment = (create_vec_buf_key t).scalar_size },
              with_new,
            )
            | some buffer ↦
                (record { buffer = buffer; alignment = (create_vec_buf_key t).scalar_size }, s)
          ])
      go none absent = with_new-Stored absent
      go (some buffer) there = (h, (λ key b e. e), there)

Memᴰ-cases {ℓ} : {A : Type ℓ} {x y : A} {xs : List A} → Memᴰ y (x ∷ xs) → (y ≡ x) ⊎ Memᴰ y xs
Memᴰ-cases (head e) = inl e
Memᴰ-cases (tail h) = inr h

-- What the vectors of a function do.
abbrev AllStored : List VectorType → VectorBuffers → List VectorStore × VectorBuffers → Type 0
AllStored ts s r =
    Inv r.1
    × Keeps s r.1
    × ((t : VectorType) (a : VectorStore)
        → Memᴰ (t, a) (zip ts r.0)
        → find_buffer (create_vec_buf_key t) r.1.vector_buffers ≡ some a.buffer)

create_vector_args-AllStored :
    (ts : List VectorType) (s : VectorBuffers) → Inv s → AllStored ts s (create_vector_args ts s)
unfolding create_vector_args
create_vector_args-AllStored [] s h = (h, (λ key b e. e), λ t a m. elim m [ ])
create_vector_args-AllStored (t ∷ ts) s h =
    let (h', keeps, here) = create_vector_arg-Stored t s h in
    let (h'', keeps', found) = create_vector_args-AllStored ts (create_vector_arg t s).1 h' in
    (
      h'',
      (λ key b e. keeps' key b (keeps key b e)),
      λ u a m. elim (Memᴰ-cases m) [
        | inl same ↦
            subst
              (λ (x : VectorType × VectorStore).
                find_buffer (create_vec_buf_key x.0)
                  (create_vector_args ts (create_vector_arg t s).1).1.vector_buffers
                ≡ some x.1.buffer)
              (sym same) (keeps' (create_vec_buf_key t) (create_vector_arg t s).0.buffer here)
        | inr later ↦ found u a later
      ],
    )

-- Vectors of numbers that take whole bytes.
abbrev pub IsPlain : VectorType → Type 0
IsPlain t = (t.element_bits % 8 ≡ 0) × (t.pointee ≡ none)

some_type_inj : (u u' : VectorType) → some u ≡ some u' → u ≡ u'
some_type_inj u u' e = cc

pub same_type :
    (u t : VectorType) → create_vec_buf_key u ≡ create_vec_buf_key t → IsPlain u → IsPlain t → u ≡ t
unfolding create_vec_buf_key
same_type u t k plain plain' = cc (
  ap (λ (x : VecBufKey). x.num_elements) k,
  ap (λ (x : VecBufKey). x.element_type) k,
  bits,
  plain.1,
  plain'.1,
)
  where
    bits : u.element_bits ≡ t.element_bits
    bits = omega (arith, ap (λ (x : VecBufKey). x.scalar_size) k, plain.0, plain'.0)

same_buffer :
    (s : VectorBuffers) {k k' : VecBufKey} {b b' : ℕ}
    → find_buffer k s.vector_buffers ≡ some b
    → find_buffer k' s.vector_buffers ≡ some b'
    → k ≡ k'
    → b ≡ b'
same_buffer s {b} {b'} e e' k =
    some_inj b b' (sym e ∙ (ap (λ key. find_buffer key s.vector_buffers) k ∙ e'))

same_key :
    (s : VectorBuffers) {k k' : VecBufKey} {b b' : ℕ}
    → HasBuffer s k b
    → HasBuffer s k' b'
    → b ≡ b'
    → k ≡ k'
same_key s (u, there, e) (u', there', e') same =
    sym e
    ∙ (ap create_vec_buf_key
          (some_type_inj u u' (sym there ∙ (ap (get_elem? s.allocas) same ∙ there')))
        ∙ e')

-- In a function every vector is stored to a buffer that was made for a vector with the same key, and
-- so for its own type if the elements of both are numbers that take whole bytes. Two vectors get the same buffer
-- exactly if they have the same key.
pub create_vector_args-buffers :
    (ts : List VectorType)
    → ((t : VectorType) (a : VectorStore)
        → Memᴰ (t, a) (zip ts (create_vector_args ts no_buffers).0)
        → (u : VectorType) × (get_elem? (create_vector_args ts no_buffers).1.allocas a.buffer
            ≡ some u)
          × (create_vec_buf_key u ≡ create_vec_buf_key t)
          × (IsPlain u → IsPlain t → u ≡ t))
      × ((t t' : VectorType) (a a' : VectorStore)
          → Memᴰ (t, a) (zip ts (create_vector_args ts no_buffers).0)
          → Memᴰ (t', a') (zip ts (create_vector_args ts no_buffers).0)
          → (create_vec_buf_key t ≡ create_vec_buf_key t') ↔ (a.buffer ≡ a'.buffer))
unfolding find_buffer
create_vector_args-buffers ts =
    let (h, keeps, found) = create_vector_args-AllStored ts no_buffers (λ key b e. cc) in
    (
      (λ t a m.
          let (u, there, k) = h (create_vec_buf_key t) a.buffer (found t a m) in
          (u, there, k, same_type u t k)),
      (λ t t' a a' m m'. (
        same_buffer (create_vector_args ts no_buffers).1 (found t a m) (found t' a' m'),
        same_key (create_vector_args ts no_buffers).1
            (h (create_vec_buf_key t) a.buffer (found t a m))
            (h (create_vec_buf_key t') a'.buffer (found t' a' m')),
      )),
    )
