-- ===== src/Pass/Stores.antt =====
-- The stores to the vector buffers that go without a fault (full-trace/full_trace.cpp).
use llvm_tracer.Prelude.{
  ℕ, zero, suc, length, get_elem?, ◌≡◌, subst, true, All, All-append, Option, none, some, List, [],
  ◌∷◌, ◌++◌, map, ==_iff, arith,
}
use llvm_tracer.Pass.Succeeds.{Succeeds, then_with}
use llvm_tracer.Pass.Sizes.{IrType}
use llvm_tracer.Pass.Inserted.{
  Inserted, log_vector, buffer_of, log_int, log_double, log_ptr, log_string, log0, log_entry,
  update_status, zero_value, value_of, string_of, vector_type_of, store_vectors,
}
use llvm_tracer.Pass.Blocks.{BlockItem, inserted, calls_of}
use llvm_tracer.Pass.VectorBuffers.{
  VectorType, VectorStore, VectorBuffers, create_vec_buf_key, find_buffer, create_vector_arg,
  store_vector, type_eq, Inv, IsPlain, with_new, create_vector_arg-Stored, same_type,
}

-- Every buffer was made for a vector with its key, and all are of whole bytes.
abbrev pub AreBuffers : VectorBuffers → Type 0
AreBuffers s = Inv s × All IsPlain s.allocas

type_eq_refl : (t : VectorType) → IsPlain t → type_eq t t ≡ true
type_eq_refl t (bits, no_pointee) = rw no_pointee (
    ground (
      arith,
      ==_iff t.num_elements t.num_elements,
      ==_iff t.element_type t.element_type,
      ==_iff t.element_bits t.element_bits,
    ))

plain_elem :
    (ts : List VectorType) (i : ℕ) (u : VectorType)
    → All IsPlain ts
    → get_elem? ts i ≡ some u
    → IsPlain u
plain_elem [] i u h e = cc
plain_elem (t ∷ ts) zero u h e = subst IsPlain (some_type t u e) h.0
  where
    some_type : (a b : VectorType) → some a ≡ some b → a ≡ b
    some_type a b e = cc
plain_elem (t ∷ ts) (suc i) u h e = plain_elem ts i u h.1 e

abbrev ArePlain : VectorStore × VectorBuffers → Type 0
ArePlain r = All IsPlain r.1.allocas

new_plain :
    (t : VectorType) (s : VectorBuffers) (inv : Inv s)
    → IsPlain t
    → All IsPlain s.allocas
    → ArePlain (create_vector_arg t s)
unfolding create_vector_arg
new_plain t s inv plain h = go (find_buffer (create_vec_buf_key t) s.vector_buffers)
  where
    go :
        (o : Option ℕ)
        → ArePlain (elim o [
          | none ↦ (
            record { buffer = length s.allocas; alignment = (create_vec_buf_key t).scalar_size },
            with_new t s inv,
          )
          | some buffer ↦
              (record { buffer = buffer; alignment = (create_vec_buf_key t).scalar_size }, s)
        ])
    go none = All-append IsPlain s.allocas (t ∷ []) h (plain, tt)
    go (some buffer) = h

store_vector_fits :
    (t : VectorType) (s : VectorBuffers)
    → IsPlain t
    → AreBuffers s
    → Succeeds AreBuffers (store_vector t s)
unfolding store_vector
store_vector_fits t s plain (inv, plains) =
    let (inv', keeps, here) = create_vector_arg-Stored t s inv in
    let (u, there, k) = inv' (create_vec_buf_key t) (create_vector_arg t s).0.buffer here in
    let plains' = new_plain t s inv plain plains in
    let same =
      same_type u t k
        (plain_elem (create_vector_arg t s).1.allocas (create_vector_arg t s).0.buffer u plains'
          there)
        plain in
    rw (there, same, type_eq_refl t plain) (inv', plains')

module _ (p : IrType → ℕ) where
  -- A vector that is passed in a buffer is of numbers of whole bytes.
  abbrev pub IsStorable : Inserted → Type 0
  IsStorable (log_vector line (buffer_of n element pointee v)) =
      IsPlain (vector_type_of p n element pointee)
  IsStorable _ = Unit {0}

  pub store_vectors_fit :
      (calls : List Inserted) (s : VectorBuffers)
      → All IsStorable calls
      → AreBuffers s
      → Succeeds AreBuffers (store_vectors p calls s)
  unfolding store_vectors
  store_vectors_fit [] s h fits = fits
  store_vectors_fit (log_vector line (buffer_of n element pointee v) ∷ calls) s h fits =
      then_with AreBuffers AreBuffers (store_vector (vector_type_of p n element pointee) s)
        (store_vectors p calls) (store_vector_fits (vector_type_of p n element pointee) s h.0 fits)
        λ s' fits'. store_vectors_fit calls s' h.1 fits'
  store_vectors_fit (log_vector line zero_value ∷ calls) s h fits =
      store_vectors_fit calls s h.1 fits
  store_vectors_fit (log_vector line (value_of v) ∷ calls) s h fits =
      store_vectors_fit calls s h.1 fits
  store_vectors_fit (log_vector line (string_of v) ∷ calls) s h fits =
      store_vectors_fit calls s h.1 fits
  store_vectors_fit (log_int line v ∷ calls) s h fits = store_vectors_fit calls s h.1 fits
  store_vectors_fit (log_double line v ∷ calls) s h fits = store_vectors_fit calls s h.1 fits
  store_vectors_fit (log_ptr line v ∷ calls) s h fits = store_vectors_fit calls s h.1 fits
  store_vectors_fit (log_string line v ∷ calls) s h fits = store_vectors_fit calls s h.1 fits
  store_vectors_fit (log0 a b c d e f g ∷ calls) s h fits = store_vectors_fit calls s h.1 fits
  store_vectors_fit (log_entry a b ∷ calls) s h fits = store_vectors_fit calls s h.1 fits
  store_vectors_fit (update_status a b c d ∷ calls) s h fits = store_vectors_fit calls s h.1 fits

  -- The calls among the items of a block.
  abbrev pub AreStorable : List BlockItem → Type 0
  AreStorable items = All IsStorable (calls_of items)

  pub calls-AreStorable :
      (calls : List Inserted) (items : List BlockItem)
      → All IsStorable calls
      → AreStorable items
      → AreStorable (map inserted calls ++ items)
  calls-AreStorable [] items h h' = h'
  calls-AreStorable (c ∷ calls) items h h' = (h.0, calls-AreStorable calls items h.1 h')
