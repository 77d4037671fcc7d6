-- ===== src/Hashtable/Blocks/Content.antt =====
-- done/hashtable.c with its blocks: the list of the pairs of a table, `copy_pair`, `get_Htable_content`
-- and `kv_list_free`.
use distributed_hash_table.Base.{
  ℕ, zero, suc, List, [], ◌∷◌, ◌++◌, Option, none, some, Run, ok, fault, null_pointer, ◌>>=◌, ◌==◌,
  if◌then◌else◌,
}
use distributed_hash_table.Heap.{Heap, alloc, realloc, release, text, duplicate}
use distributed_hash_table.Hashtable.Blocks.{
  Pair, Chain, last, link, Table, bucket_at, kv_pair_free,
}

-- `kv_list_t`: its block, the block of its array, and the `size` pairs in the array.
pub record PairList : Type 0 where
  pub at : ℕ
  pub array : Option ℕ
  pub pairs : List Pair

-- The `for` loop of `kv_list_free`.
unfoldable pub free_pairs : List Pair → Heap → Run Heap
free_pairs [] h = ok h
free_pairs (kv ∷ rest) h = kv_pair_free kv h >>= λ (_, h'). free_pairs rest h'

unfoldable pub kv_list_free : Option PairList → Heap → Run Heap
kv_list_free none h = ok h
kv_list_free (some l) h = elim l.array [
  | none ↦ release l.at h
  | some array ↦ free_pairs l.pairs h >>= λ h₁. release array h₁ >>= λ h₂. release l.at h₂
]

unfoldable pub copy_pair : Pair → Heap → Pair × Heap
copy_pair kv h =
    let (k, h₁) = duplicate (text kv.key) h in
    let (v, h₂) = duplicate (text kv.value) h₁ in (record { key = k; value = v }, h₂)

-- From the test of the new array on; without one the list is freed.
unfoldable pub stored : Pair → PairList → Option ℕ → Heap → Run (Option PairList × Heap)
stored kv l none h = kv_list_free (some l) h >>= λ h₂. ok (none, h₂)
stored kv l (some array) h =
    let (copy, h₂) = copy_pair kv h in
    ok (some (record l { array = some array; pairs = l.pairs ++ copy ∷ [] }), h₂)

-- One pass of the `while` loop of `get_Htable_content`; `none` when realloc fails.
unfoldable pub append_pair : Pair → PairList → Heap → Run (Option PairList × Heap)
append_pair kv l h = realloc l.array h >>= λ (array, h₁). stored kv l array h₁

-- The `while` loop over one chain.
unfoldable pub content_of_chain : Chain → PairList → Heap → Run (Option PairList × Heap)
content_of_chain (last kv) l h = elim kv.key [
  | none ↦ ok (some l, h)
  | some k ↦ append_pair kv l h >>= λ (found, h'). elim found [
    | none ↦ ok (none, h')
    | some l' ↦ fault null_pointer
  ]
]
content_of_chain (link kv next tail) l h = elim kv.key [
  | none ↦ ok (some l, h)
  | some k ↦ append_pair kv l h >>= λ (found, h'). elim found [
    | none ↦ ok (none, h')
    | some l' ↦ content_of_chain tail l' h'
  ]
]

-- The `for` loop: the rounds left, and the index.
unfoldable pub content_loop : ℕ → ℕ → List Chain → PairList → Heap → Run (Option PairList × Heap)
content_loop zero i bs l h = ok (some l, h)
content_loop (suc n) i bs l h = bucket_at bs i >>= λ b. content_of_chain b l h >>= λ (found, h').
    elim found [ none ↦ ok (none, h') | some l' ↦ content_loop n (suc i) bs l' h' ]

unfoldable pub get_htable_content : Table → Heap → Run (Option PairList × Heap)
get_htable_content t h =
    let (at, h₁) = alloc h in
    elim at [
      | none ↦ ok (none, h₁)
      | some a ↦
          let empty : PairList = record { at = a; array = none; pairs = [] } in
          elim t.buckets [
            | none ↦ if t.size == 0 then ok (some empty, h₁) else fault null_pointer
            | some (_, bs) ↦ content_loop t.size 0 bs empty h₁
          ]
    ]
