-- ===== src/Projet02/Hashtable.antt =====
-- `get_Htable_content` of provided/grading/projet02/hashtable.c with its blocks. The rest of that file is
-- as in done/.
pub mod Twice
pub mod DoubleFree
use distributed_hash_table.Base.{
  ℕ, zero, suc, List, [], ◌∷◌, ◌++◌, Option, none, some, Run, ok, fault, null_pointer, ◌>>=◌, ◌==◌,
  if◌then◌else◌,
}
use distributed_hash_table.Heap.{Heap, alloc, realloc, release}
use distributed_hash_table.Hashtable.Blocks.{Pair, Chain, last, link, Table, bucket_at}
use distributed_hash_table.Hashtable.Blocks.Content.{PairList, kv_list_free, copy_pair}

-- From the test of the new array on; without one the list is freed by `kv_list_free`, and again.
unfoldable pub stored : Pair → PairList → Option ℕ → Heap → Run (Option PairList × Heap)
stored kv l none h = kv_list_free (some l) h >>= λ h₂. release l.at h₂ >>= λ h₃. ok (none, h₃)
stored kv l (some array) h =
    let (copy, h₂) = copy_pair kv h in
    ok (some (record l { array = some array; pairs = l.pairs ++ copy ∷ [] }), h₂)

-- One pass of the `while` loop of `get_Htable_content`; `none` when realloc fails.
unfoldable pub append_pair : Pair → PairList → Heap → Run (Option PairList × Heap)
append_pair kv l h = realloc l.array h >>= λ (array, h₁). stored kv l array h₁

-- The `while` loop over one chain.
unfoldable pub content_of_chain : Chain → PairList → Heap → Run (Option PairList × Heap)
content_of_chain (last kv) l h = elim kv.key [
  | none ↦ ok (some l, h)
  | some k ↦ append_pair kv l h >>= λ (found, h'). elim found [
    | none ↦ ok (none, h')
    | some l' ↦ fault null_pointer
  ]
]
content_of_chain (link kv next tail) l h = elim kv.key [
  | none ↦ ok (some l, h)
  | some k ↦ append_pair kv l h >>= λ (found, h'). elim found [
    | none ↦ ok (none, h')
    | some l' ↦ content_of_chain tail l' h'
  ]
]

-- The `for` loop: the rounds left, and the index.
unfoldable pub content_loop : ℕ → ℕ → List Chain → PairList → Heap → Run (Option PairList × Heap)
content_loop zero i bs l h = ok (some l, h)
content_loop (suc n) i bs l h = bucket_at bs i >>= λ b. content_of_chain b l h >>= λ (found, h').
    elim found [ none ↦ ok (none, h') | some l' ↦ content_loop n (suc i) bs l' h' ]

unfoldable pub get_htable_content : Table → Heap → Run (Option PairList × Heap)
get_htable_content t h =
    let (at, h₁) = alloc h in
    elim at [
      | none ↦ ok (none, h₁)
      | some a ↦
          let empty : PairList = record { at = a; array = none; pairs = [] } in
          elim t.buckets [
            | none ↦ if t.size == 0 then ok (some empty, h₁) else fault null_pointer
            | some (_, bs) ↦ content_loop t.size 0 bs empty h₁
          ]
    ]
