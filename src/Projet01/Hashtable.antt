-- ===== src/Projet01/Hashtable.antt =====
-- provided/grading/projet01/hashtable.c: where the table of week 7 differs from the final one. A get
-- returns a pointer into the table, and the deletion starts behind the first bucket of each chain.
use distributed_hash_table.Base.{
  ℕ, zero, suc, ◌+◌, ◌<◌, ◌≡◌, refl, ◌∙◌, List, [], ◌∷◌, none, some, Run, ok, fault, out_of_bounds,
  ◌>>=◌, Returns, arith, length, if◌then◌else◌,
}
use distributed_hash_table.CString.{Bytes, CharPointer, str_eq}
use distributed_hash_table.Heap.{Heap, same, release, Held, Holds}
use distributed_hash_table.Heap.Laws.{release-Holds}
use distributed_hash_table.Hashtable.{hash_function}
use distributed_hash_table.Hashtable.Blocks.{Chain, last, link, head, Table, bucket_at, free_tail}
use distributed_hash_table.Hashtable.Blocks.Owned.{
  of_pair, of_chain, of_array, of_table, IsTidyArray, IsTidyTable,
}
use distributed_hash_table.Hashtable.Blocks.Free.{Left, free_tail-Left}

-- The `while` loop of `get_Htable_value`: the pointer that the bucket holds.
unfoldable pub get_from_chain : Chain → Bytes → Held
get_from_chain (last kv) key = elim kv.key [
  | none ↦ none
  | some (at, k) ↦ if str_eq k key then kv.value else none
]
get_from_chain (link kv next tail) key = elim kv.key [
  | none ↦ none
  | some (at, k) ↦ if str_eq k key then kv.value else get_from_chain tail key
]

unfoldable pub get_htable_value : Table → CharPointer → Run Held
get_htable_value t none = ok none
get_htable_value t (some key) = elim t.buckets [
  | none ↦ ok none
  | some (at, bs) ↦
      bucket_at bs (hash_function (some key) t.size) >>= λ b. ok (get_from_chain b key)
]

-- The body of the `for` loop of `delete_Htable_and_content`: its `while` loop from the tail on.
unfoldable pub free_from_tail : Chain → Heap → Run Heap
free_from_tail (last kv) h = ok h
free_from_tail (link kv next tail) h = free_tail next tail h

-- The `for` loop: the rounds left, and the buckets from the index on.
unfoldable pub free_tails : ℕ → List Chain → Heap → Run Heap
free_tails zero bs h = ok h
free_tails (suc n) [] h = fault out_of_bounds
free_tails (suc n) (b ∷ bs) h = free_from_tail b h >>= λ h'. free_tails n bs h'

unfoldable pub delete_htable_and_content : Table → Heap → Run (Table × Heap)
delete_htable_and_content t h = elim t.buckets [
  | none ↦ ok (record { buckets = none; size = 0 }, h)
  | some (at, bs) ↦ free_tails t.size bs h >>= λ h₁.
      release at h₁ >>= λ h₂. ok (record { buckets = none; size = 0 }, h₂)
]

-- How often the pairs in the first buckets of the chains own an address.
abbrev pub of_heads : ℕ → List Chain → ℕ
of_heads a [] = 0
of_heads a (b ∷ bs) = of_pair a (head b) + of_heads a bs

free_from_tail-Left :
    (b : Chain) (h : Heap) (g : ℕ → ℕ)
    → Holds h (λ a. of_chain a b + g a)
    → Returns (free_from_tail b h) (Left (λ a. of_pair a (head b) + g a) h.memory)
unfolding free_from_tail
free_from_tail-Left (last kv) h g own = (h, refl, (own, refl))
free_from_tail-Left (link kv next tail) h g own =
    free_tail-Left next tail h (λ a. of_pair a kv + g a) (λ a. omega (arith, own a))

free_tails-Left :
    (bs : List Chain) (h : Heap) (g : ℕ → ℕ)
    → Holds h (λ a. of_array a bs + g a)
    → Returns (free_tails (length bs) bs h) (Left (λ a. of_heads a bs + g a) h.memory)
unfolding free_tails
free_tails-Left [] h g own = (h, refl, (own, refl))
free_tails-Left (b ∷ bs) h g own =
    let (h₁, e₁, (own₁, m₁)) =
      free_from_tail-Left b h (λ a. of_array a bs + g a) (λ a. omega (arith, own a)) in
    let (h₂, e₂, (own₂, m₂)) =
      free_tails-Left bs h₁ (λ a. of_pair a (head b) + g a) (λ a. omega (arith, own₁ a)) in
    (h₂, simp (free_tails, e₁, e₂), ((λ a. omega (arith, own₂ a)), m₂ ∙ m₁))

-- `delete_Htable_and_content` of week 7, on a tidy table that has buckets and owns its blocks, frees no
-- block twice and frees the array and what stands behind the first bucket of each chain, but the strings
-- of the first buckets stay allocated, and nothing points to them any more.
pub delete_htable_and_content-leak :
    (t : Table) (at : ℕ) (bs : List Chain) (h : Heap) (g : ℕ → ℕ)
    → t.buckets ≡ some (at, bs)
    → IsTidyTable t
    → Holds h (λ a. of_table a t + g a)
    → Returns
        (delete_htable_and_content t h)
        (λ (t', h'). (t'.buckets ≡ none) × Holds h' (λ a. of_heads a bs + g a))
unfolding delete_htable_and_content
delete_htable_and_content-leak t at bs h g here tidy own =
    let whole : (0 < t.size) × IsTidyArray t.size bs = rw here at tidy in
    let (h₁, e₁, (own₁, m₁)) =
      free_tails-Left bs h (λ a. same a at + g a) (λ a. omega (arith, rw here at (own a))) in
    let (h₂, e₂, (own₂, m₂)) =
      release-Holds at h₁ (λ a. of_heads a bs + g a) (λ a. omega (arith, own₁ a)) in
    (
      (record { buckets = none; size = 0 }, h₂),
      simp (delete_htable_and_content, here, ← whole.1.width, e₁, e₂),
      (refl, own₂),
    )
