-- ===== src/Hashtable/Blocks/Free.antt =====
-- `delete_Htable_and_content`: what it frees.
use distributed_hash_table.Base.{
  ℕ, ◌+◌, ◌<◌, ◌≡◌, refl, ◌∙◌, inl, inr, List, [], ◌∷◌, none, Memory, Returns, arith, length,
  Option-cases,
}
use distributed_hash_table.Heap.{Heap, same, Holds}
use distributed_hash_table.Heap.Laws.{release-Holds}
use distributed_hash_table.Hashtable.Blocks.{
  Chain, last, link, Table, free_tail, free_bucket, free_buckets, delete_htable_and_content,
}
use distributed_hash_table.Hashtable.Blocks.Owned.{
  of_chain, of_array, of_table, IsTidyArray, IsTidyTable,
}
use distributed_hash_table.Hashtable.Blocks.Store.{kv_pair_free-Holds}

-- What freeing ends in: the blocks that are allocated, and the outcomes of malloc that are left.
abbrev pub Left : (ℕ → ℕ) → Memory → Heap → Type 0
Left g m h = Holds h g × (h.memory ≡ m)

pub free_tail-Left :
    (at : ℕ) (b : Chain) (h : Heap) (g : ℕ → ℕ)
    → Holds h (λ a. same a at + (of_chain a b + g a))
    → Returns (free_tail at b h) (Left g h.memory)
unfolding free_tail
free_tail-Left at (last kv) h g own =
    let ((kv', h₁), e₁, (_, own₁, m₁)) =
      kv_pair_free-Holds kv h (λ a. same a at + g a) (λ a. omega (arith, own a)) in
    let (h₂, e₂, (own₂, m₂)) = release-Holds at h₁ g own₁ in
    (h₂, simp (free_tail, e₁, e₂), (own₂, m₂ ∙ m₁))
free_tail-Left at (link kv next tail) h g own =
    let ((kv', h₁), e₁, (_, own₁, m₁)) =
      kv_pair_free-Holds kv h (λ a. same a at + (same a next + (of_chain a tail + g a)))
        (λ a. omega (arith, own a)) in
    let (h₂, e₂, (own₂, m₂)) =
      release-Holds at h₁ (λ a. same a next + (of_chain a tail + g a)) own₁ in
    let (h₃, e₃, (own₃, m₃)) = free_tail-Left next tail h₂ g own₂ in
    (h₃, simp (free_tail, e₁, e₂, e₃), (own₃, m₃ ∙ (m₂ ∙ m₁)))

free_bucket-Left :
    (b : Chain) (h : Heap) (g : ℕ → ℕ)
    → Holds h (λ a. of_chain a b + g a)
    → Returns (free_bucket b h) (Left g h.memory)
unfolding free_bucket
free_bucket-Left (last kv) h g own =
    let ((kv', h₁), e₁, (_, own₁, m₁)) = kv_pair_free-Holds kv h g own in
    (h₁, simp (free_bucket, e₁), (own₁, m₁))
free_bucket-Left (link kv next tail) h g own =
    let ((kv', h₁), e₁, (_, own₁, m₁)) =
      kv_pair_free-Holds kv h (λ a. same a next + (of_chain a tail + g a))
        (λ a. omega (arith, own a)) in
    let (h₂, e₂, (own₂, m₂)) = free_tail-Left next tail h₁ g own₁ in
    (h₂, simp (free_bucket, e₁, e₂), (own₂, m₂ ∙ m₁))

free_buckets-Left :
    (bs : List Chain) (h : Heap) (g : ℕ → ℕ)
    → Holds h (λ a. of_array a bs + g a)
    → Returns (free_buckets (length bs) bs h) (Left g h.memory)
unfolding free_buckets
free_buckets-Left [] h g own = (h, refl, ((λ a. omega (arith, own a)), refl))
free_buckets-Left (b ∷ bs) h g own =
    let (h₁, e₁, (own₁, m₁)) =
      free_bucket-Left b h (λ a. of_array a bs + g a) (λ a. omega (arith, own a)) in
    let (h₂, e₂, (own₂, m₂)) = free_buckets-Left bs h₁ g own₁ in
    (h₂, simp (free_buckets, e₁, e₂), (own₂, m₂ ∙ m₁))

-- `delete_Htable_and_content` on a tidy table that owns its blocks frees each of them once and no other
-- block, and leaves a table without buckets.
pub delete_htable_and_content-Left :
    (t : Table) (h : Heap) (g : ℕ → ℕ)
    → IsTidyTable t
    → Holds h (λ a. of_table a t + g a)
    → Returns
        (delete_htable_and_content t h)
        (λ (t', h'). (t' ≡ record { buckets = none; size = 0 }) × Left g h.memory h')
unfolding delete_htable_and_content
delete_htable_and_content-Left t h g tidy own = elim (Option-cases t.buckets) [
  | inl missing ↦ (
    (record { buckets = none; size = 0 }, h),
    simp (delete_htable_and_content, missing),
    (refl, ((λ a. omega (arith, rw missing at (own a))), refl)),
  )
  | inr ((at, bs), here) ↦
      let whole : (0 < t.size) × IsTidyArray t.size bs = rw here at tidy in
      let (h₁, e₁, (own₁, m₁)) =
        free_buckets-Left bs h (λ a. same a at + g a) (λ a. omega (arith, rw here at (own a))) in
      let (h₂, e₂, (own₂, m₂)) = release-Holds at h₁ g own₁ in
      (
        (record { buckets = none; size = 0 }, h₂),
        simp (delete_htable_and_content, here, ← whole.1.width, e₁, e₂),
        (refl, (own₂, m₂ ∙ m₁)),
      )
]
