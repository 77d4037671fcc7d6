-- ===== src/Hashtable/Blocks.antt =====
-- done/hashtable.c with its blocks: the chained hash table in the heap, and what its operations
-- allocate and free. A bucket is its pair and its tail; the first bucket of a chain is an element of
-- the array, and each other one stands in a block of its own.
pub mod Owned
pub mod Store
pub mod Add
pub mod Write
pub mod Free
pub mod Content
pub mod PairLists
pub mod Appended
pub mod Listed
pub mod Read
use distributed_hash_table.Base.{
  ℕ, zero, suc, Bool, true, false, List, [], ◌∷◌, ◌++◌, Option, none, some, Run, ok, fault,
  null_pointer, out_of_bounds, ◌>>=◌, get_elem?, set, replicate, ◌==◌, if◌then◌else◌,
}
use distributed_hash_table.Error.{ErrorCode, err_none, err_nomem, err_bad_parameter}
use distributed_hash_table.CString.{Bytes, CharPointer, str_eq}
use distributed_hash_table.Heap.{Heap, alloc, release, Held, text, duplicate, free_const_ptr}
use distributed_hash_table.Hashtable.{hash_function}

-- `kv_pair_t`.
pub record Pair : Type 0 where
  pub key : Held
  pub value : Held

abbrev pub no_pair : Pair
no_pair = record { key = none; value = none }

-- `bucket_t`: a bucket whose tail is NULL, or one whose tail stands in the block at an address.
pub data Chain : Type 0 where
  last : Pair → Chain
  link : Pair → ℕ → Chain → Chain

-- `Htable_t`: the block of the array, and the buckets in it.
pub record Table : Type 0 where
  pub buckets : Option (ℕ × List Chain)
  pub size : ℕ

-- `bucket->head`.
abbrev pub head : Chain → Pair
head (last kv) = kv
head (link kv at tail) = kv

-- `kv_pair_free`, with what it leaves in the pair.
unfoldable pub kv_pair_free : Pair → Heap → Run (Pair × Heap)
kv_pair_free kv h =
    free_const_ptr kv.key h >>= λ h₁. free_const_ptr kv.value h₁ >>= λ h₂. ok (no_pair, h₂)

-- From the two calls of `strdup` on: the copies are stored, or the tail is freed and taken back.
unfoldable pub store_pair : ℕ → Pair → Heap → Run (Chain × ErrorCode × Heap)
store_pair at kv h =
    let failed : Run (Chain × ErrorCode × Heap) =
      release at h >>= λ h₁. kv_pair_free kv h₁ >>= λ (kv', h₂). ok (last kv', err_nomem, h₂) in
    elim kv.key [
      | none ↦ failed
      | some k ↦ elim kv.value [
        | none ↦ failed
        | some v ↦ ok (link kv at (last no_pair), err_none, h)
      ]
    ]

-- `add_bucket`: the bucket after the call, and the code.
unfoldable pub add_bucket : Chain → Bytes → Bytes → Heap → Run (Chain × ErrorCode × Heap)
add_bucket b key value h =
    let (at, h₁) = alloc h in
    let (k, h₂) = duplicate (some key) h₁ in
    let (v, h₃) = duplicate (some value) h₂ in
    elim at [
      | none ↦ ok (last (head b), err_nomem, h₁)
      | some a ↦ store_pair a (record { key = k; value = v }) h₃
    ]

-- The value of a pair whose key was found: the copy, and then the old value is freed, or, when
-- `strdup` fails, the old value.
unfoldable pub overwrite : Pair → Bytes → Heap → Run (Pair × ErrorCode × Heap)
overwrite kv value h =
    let (copy, h₁) = duplicate (some value) h in
    elim copy [
      | none ↦ ok (kv, err_nomem, h₁)
      | some v ↦
          free_const_ptr kv.value h₁ >>= λ h₂. ok (record kv { value = some v }, err_none, h₂)
    ]

-- The `while` loop of `add_Htable_value` and the call behind it.
unfoldable pub add_to_chain : Chain → Bytes → Bytes → Heap → Run (Chain × ErrorCode × Heap)
add_to_chain (last kv) key value h = elim kv.key [
  | none ↦ add_bucket (last kv) key value h
  | some (at, k) ↦
      if str_eq k key
      then (overwrite kv value h >>= λ (kv', e, h'). ok (last kv', e, h'))
      else fault null_pointer
]
add_to_chain (link kv next tail) key value h =
    let rest = add_to_chain tail key value h in
    elim kv.key [
      | none ↦ add_bucket (link kv next tail) key value h
      | some (at, k) ↦
          if str_eq k key
          then (overwrite kv value h >>= λ (kv', e, h'). ok (link kv' next tail, e, h'))
          else (rest >>= λ (tail', e, h'). ok (link kv next tail', e, h'))
    ]

-- `table.buckets[idx]`.
unfoldable pub bucket_at : List Chain → ℕ → Run Chain
bucket_at bs i = elim (get_elem? bs i) [ some b ↦ ok b | none ↦ fault out_of_bounds ]

-- From `size_t idx` on: the chain of the key's index is written to.
unfoldable pub add_to_array :
    List Chain → ℕ → Bytes → Bytes → Heap → Run (List Chain × ErrorCode × Heap)
add_to_array bs size key value h =
    let idx = hash_function (some key) size in
    bucket_at bs idx >>= λ b.
    add_to_chain b key value h >>= λ (b', e, h'). ok (set bs idx b', e, h')

unfoldable pub add_htable_value :
    Table → CharPointer → CharPointer → Heap → Run (Table × ErrorCode × Heap)
add_htable_value t none value h = ok (t, err_bad_parameter, h)
add_htable_value t (some key) none h = ok (t, err_bad_parameter, h)
add_htable_value t (some key) (some value) h = elim t.buckets [
  | none ↦ ok (t, err_bad_parameter, h)
  | some (at, bs) ↦ add_to_array bs t.size key value h >>= λ (bs', e, h').
      ok (record t { buckets = some (at, bs') }, e, h')
]

-- The `while` loop of `get_Htable_value`: the caller owns the copy.
unfoldable pub get_from_chain : Chain → Bytes → Heap → Held × Heap
get_from_chain (last kv) key h = elim kv.key [
  | none ↦ (none, h)
  | some (at, k) ↦ if str_eq k key then duplicate (text kv.value) h else (none, h)
]
get_from_chain (link kv next tail) key h = elim kv.key [
  | none ↦ (none, h)
  | some (at, k) ↦ if str_eq k key then duplicate (text kv.value) h else get_from_chain tail key h
]

unfoldable pub get_htable_value : Table → CharPointer → Heap → Run (Held × Heap)
get_htable_value t none h = ok (none, h)
get_htable_value t (some key) h = elim t.buckets [
  | none ↦ ok (none, h)
  | some (at, bs) ↦
      bucket_at bs (hash_function (some key) t.size) >>= λ b. ok (get_from_chain b key h)
]

-- `construct_Htable`, behind its assertion that the size is not 0.
unfoldable pub construct_htable : ℕ → Heap → Table × Heap
construct_htable size h =
    let (at, h') = alloc h in
    elim at [
      | none ↦ (record { buckets = none; size = 0 }, h')
      | some a ↦ (record { buckets = some (a, replicate size (last no_pair)); size = size }, h')
    ]

-- The `while` loop of `free_bucket`, from the bucket in the block at the address.
unfoldable pub free_tail : ℕ → Chain → Heap → Run Heap
free_tail at (last kv) h = kv_pair_free kv h >>= λ (_, h₁). release at h₁
free_tail at (link kv next tail) h =
    kv_pair_free kv h >>= λ (_, h₁). release at h₁ >>= λ h₂. free_tail next tail h₂

unfoldable pub free_bucket : Chain → Heap → Run Heap
free_bucket (last kv) h = kv_pair_free kv h >>= λ (_, h₁). ok h₁
free_bucket (link kv next tail) h = kv_pair_free kv h >>= λ (_, h₁). free_tail next tail h₁

-- The `for` loop of `delete_Htable_and_content`: the rounds left, and the buckets from the index on.
unfoldable pub free_buckets : ℕ → List Chain → Heap → Run Heap
free_buckets zero bs h = ok h
free_buckets (suc n) [] h = fault out_of_bounds
free_buckets (suc n) (b ∷ bs) h = free_bucket b h >>= λ h'. free_buckets n bs h'

-- The table that it leaves behind its pointer, and the heap.
unfoldable pub delete_htable_and_content : Table → Heap → Run (Table × Heap)
delete_htable_and_content t h = elim t.buckets [
  | none ↦ ok (record { buckets = none; size = 0 }, h)
  | some (at, bs) ↦ free_buckets t.size bs h >>= λ h₁.
      release at h₁ >>= λ h₂. ok (record { buckets = none; size = 0 }, h₂)
]
