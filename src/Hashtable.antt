-- ===== src/Hashtable.antt =====
-- done/hashtable.h and done/hashtable.c: the chained hash table.
--
-- A `bucket_t` is its pair and its tail, and `null` is the NULL pointer. The array of buckets holds
-- the first bucket of each chain by value; a chain ends in a bucket whose key is NULL. Writing to a
-- bucket through a pointer gives the new chain. The calls of `free` change no value that is read
-- later: they are left to Hashtable/Blocks.
pub mod Chain
pub mod Table
pub mod Construct
pub mod Update
pub mod Content
pub mod Blocks
use Prim.Native.Nat.{bit_xor}
use distributed_hash_table.Base.{
  ℕ, zero, suc, ◌+◌, ◌*◌, ◌/◌, ◌%◌, ◌^◌, ◌-◌, Bool, true, false, List, [], ◌∷◌, ◌++◌, Option, none,
  some, Memory, malloc, Run, ok, fault, null_pointer, out_of_bounds, ◌>>=◌, get_elem?, set,
  replicate, ◌==◌, if◌then◌else◌,
}
use distributed_hash_table.Error.{ErrorCode, err_none, err_nomem, err_bad_parameter}
use distributed_hash_table.CString.{Bytes, CharPointer, str_eq, strdup}

-- `kv_pair_t`.
pub record KvPair : Type 0 where
  pub key : CharPointer
  pub value : CharPointer

-- `bucket_t *`.
pub data Bucket : Type 0 where
  null : Bucket
  bucket : CharPointer → CharPointer → Bucket → Bucket

-- `Htable_t`; `none` stands for NULL.
pub record Htable : Type 0 where
  pub buckets : Option (List Bucket)
  pub size : ℕ

-- `HTABLE_SIZE`.
abbrev pub htable_size : ℕ
htable_size = 256

-- `size_t` has 64 bits.
abbrev pub word : ℕ → ℕ
word n = n % 2 ^ 64

abbrev pub size_max : ℕ
size_max = 2 ^ 64 - 1

-- The loop over the key: add the byte, add `hash << 10`, xor `hash >> 6`.
hash_bytes : Bytes → ℕ → ℕ
hash_bytes [] hash = hash
hash_bytes (c ∷ key) hash =
    let added = word (hash + c) in
    let spread = word (added + word (added * 2 ^ 10)) in
    hash_bytes key (bit_xor spread (spread / 2 ^ 6))

-- The three last mixing steps.
hash_finish : ℕ → ℕ
hash_finish hash =
    let first = word (hash + word (hash * 2 ^ 3)) in
    let second = bit_xor first (first / 2 ^ 11) in word (second + word (second * 2 ^ 15))

unfoldable pub hash_function : CharPointer → ℕ → ℕ
unfolding hash_bytes hash_finish
hash_function key zero = size_max
hash_function none (suc n) = size_max
hash_function (some key) (suc n) = hash_finish (hash_bytes key 0) % suc n

-- A bucket as calloc or memset leaves it.
abbrev pub empty_bucket : Bucket
empty_bucket = bucket none none null

-- The copies of key and value are stored, or the tail is taken back.
store_pair : CharPointer → CharPointer → Bucket × ErrorCode
store_pair (some k) (some v) = (bucket (some k) (some v) empty_bucket, err_none)
store_pair k v = (empty_bucket, err_nomem)

-- The bucket after the call, and the code.
pub add_bucket : Bucket → Bytes → Bytes → Memory → Run (Bucket × ErrorCode × Memory)
unfolding store_pair strdup
add_bucket null key value m = fault null_pointer
add_bucket (bucket k v tail) key value m =
    let (got, m₁) = malloc m in
    let (k', m₂) = strdup (some key) m₁ in
    let (v', m₃) = strdup (some value) m₂ in
    let (b, e) = store_pair k' v' in
    ok (if got then (b, e, m₃) else (bucket k v null, err_nomem, m₁))

-- The new value of a key that was found, or the old one when strdup fails.
pub overwrite : Bytes → CharPointer → Bucket → Bytes → Memory → Bucket × ErrorCode × Memory
unfolding strdup
overwrite k old tail value m =
    let (copy, m') = strdup (some value) m in
    elim copy [
      | some new ↦ (bucket (some k) (some new) tail, err_none, m')
      | none ↦ (bucket (some k) old tail, err_nomem, m')
    ]

-- The `while` loop of `add_Htable_value` and the call behind it.
pub add_to_chain : Bucket → Bytes → Bytes → Memory → Run (Bucket × ErrorCode × Memory)
unfolding overwrite add_bucket
add_to_chain null key value m = fault null_pointer
add_to_chain (bucket none v tail) key value m = add_bucket (bucket none v tail) key value m
add_to_chain (bucket (some k) v tail) key value m =
    let rest = add_to_chain tail key value m in
    if str_eq k key
    then ok (overwrite k v tail value m)
    else (rest >>= λ (tail', e, m'). ok (bucket (some k) v tail', e, m'))

-- `table.buckets[idx]`.
pub bucket_at : List Bucket → ℕ → Run Bucket
bucket_at bs i = elim (get_elem? bs i) [ some b ↦ ok b | none ↦ fault out_of_bounds ]

-- From `size_t idx` on: the chain of the key's index is written to.
pub add_to_array : List Bucket → ℕ → Bytes → Bytes → Memory → Run (List Bucket × ErrorCode × Memory)
unfolding bucket_at add_to_chain
add_to_array bs size key value m =
    let idx = hash_function (some key) size in
    bucket_at bs idx >>= λ b.
    add_to_chain b key value m >>= λ (b', e, m'). ok (set bs idx b', e, m')

unfoldable pub add_htable_value :
    Htable → CharPointer → CharPointer → Memory → Run (Htable × ErrorCode × Memory)
unfolding add_to_array
add_htable_value t none value m = ok (t, err_bad_parameter, m)
add_htable_value t (some key) none m = ok (t, err_bad_parameter, m)
add_htable_value t (some key) (some value) m = elim t.buckets [
  | none ↦ ok (t, err_bad_parameter, m)
  | some bs ↦ add_to_array bs t.size key value m >>= λ (bs', e, m').
      ok (record t { buckets = some bs' }, e, m')
]

-- The `while` loop of `get_Htable_value`; the copy of the value is made by `strdup`.
pub get_from_chain : Bucket → Bytes → Memory → CharPointer × Memory
unfolding strdup
get_from_chain null key m = (none, m)
get_from_chain (bucket none v tail) key m = (none, m)
get_from_chain (bucket (some k) v tail) key m =
    if str_eq k key then strdup v m else get_from_chain tail key m

unfoldable pub get_htable_value : Htable → CharPointer → Memory → Run (CharPointer × Memory)
unfolding bucket_at get_from_chain
get_htable_value t none m = ok (none, m)
get_htable_value t (some key) m = elim t.buckets [
  | none ↦ ok (none, m)
  | some bs ↦ bucket_at bs (hash_function (some key) t.size) >>= λ b. ok (get_from_chain b key m)
]

-- `construct_Htable`, behind its assertion that the size is not 0.
unfoldable pub construct_htable : ℕ → Memory → Htable × Memory
construct_htable size m =
    let (got, m') = malloc m in
    (
      if got
          then record { buckets = some (replicate size empty_bucket); size = size }
          else record { buckets = none; size = 0 },
      m',
    )

-- The table that `delete_Htable_and_content` leaves behind its pointer.
unfoldable pub delete_htable : Htable → Htable
delete_htable t = record { buckets = none; size = 0 }

-- `copy_pair`.
copy_pair : KvPair → Memory → KvPair × Memory
unfolding strdup
copy_pair kv m =
    let (k, m₁) = strdup kv.key m in
    let (v, m₂) = strdup kv.value m₁ in (record { key = k; value = v }, m₂)

-- The `while` loop of `get_Htable_content` over one chain; `none` when realloc fails.
pub content_of_chain : Bucket → List KvPair → Memory → Run (Option (List KvPair) × Memory)
unfolding copy_pair
content_of_chain null pairs m = fault null_pointer
content_of_chain (bucket none v tail) pairs m = ok (some pairs, m)
content_of_chain (bucket (some k) v tail) pairs m =
    let (got, m₁) = malloc m in
    let (kv, m₂) = copy_pair (record { key = some k; value = v }) m₁ in
    let rest = content_of_chain tail (pairs ++ kv ∷ []) m₂ in if got then rest else ok (none, m₁)

-- The `for` loop of `get_Htable_content`: the rounds left, and the index.
pub content_loop : ℕ → ℕ → List Bucket → List KvPair → Memory → Run (Option (List KvPair) × Memory)
unfolding bucket_at content_of_chain
content_loop zero i bs pairs m = ok (some pairs, m)
content_loop (suc n) i bs pairs m = bucket_at bs i >>= λ b.
    content_of_chain b pairs m >>= λ (found, m'). elim found [
      | none ↦ ok (none, m')
      | some pairs' ↦ content_loop n (suc i) bs pairs' m'
    ]

-- `none` is the NULL that the function returns when it has no memory.
unfoldable pub get_htable_content : Htable → Memory → Run (Option (List KvPair) × Memory)
unfolding content_loop
get_htable_content t m =
    let (got, m₁) = malloc m in
    let work : Run (Option (List KvPair) × Memory) = elim t.buckets [
      | some bs ↦ content_loop t.size 0 bs [] m₁
      | none ↦ if t.size == 0 then ok (some [], m₁) else fault null_pointer
    ] in
    if got then work else ok (none, m₁)
