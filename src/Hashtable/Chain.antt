-- ===== src/Hashtable/Chain.antt =====
-- One chain of buckets: what it stores, and what the loops over it do.
use distributed_hash_table.Base.{
  ℕ, suc, ◌+◌, ◌≤◌, ◌≡◌, refl, ◌⊎◌, inl, inr, true, false, [], Option, none, some, Memory, Returns,
  arith, if◌then◌else◌, Bool-cases,
}
use distributed_hash_table.Error.{ErrorCode, err_none, err_nomem}
use distributed_hash_table.CString.{Bytes, CharPointer, str_eq, strdup}
use distributed_hash_table.CString.Laws.{str_eq_iff}
use distributed_hash_table.Hashtable.{
  Bucket, null, bucket, add_bucket, overwrite, add_to_chain, get_from_chain,
}

-- Each filled bucket has a value and a tail, and the chain ends in a bucket with no key.
abbrev pub IsChain : Bucket → Type 0
IsChain null = ⊥
IsChain (bucket none v tail) = Unit
IsChain (bucket (some k) none tail) = ⊥
IsChain (bucket (some k) (some v) tail) = IsChain tail

-- The value stored under a key.
unfoldable pub find : Bytes → Bucket → Option Bytes
find q null = none
find q (bucket none v tail) = none
find q (bucket (some k) v tail) = if str_eq k q then v else find q tail

-- How often a key is stored.
unfoldable pub count : Bytes → Bucket → ℕ
count q null = 0
count q (bucket none v tail) = 0
count q (bucket (some k) v tail) = if str_eq k q then suc (count q tail) else count q tail

-- A write of `v` at `k` that ended with code `e`: it is done, or nothing changed.
abbrev pub Written :
    Bytes → Bytes → (Bytes → Option Bytes) → (Bytes → Option Bytes) → ErrorCode → Type 0
Written k v before after e =
    ((e ≡ err_none) × ((q : Bytes) → after q ≡ (if str_eq k q then some v else before q)))
    ⊎ ((e ≡ err_nomem) × ((q : Bytes) → after q ≡ before q))

-- What a call of `add_to_chain` on the chain `b` ends in.
pub record Added (k v : Bytes) (b : Bucket) (m : Memory) (r : Bucket × ErrorCode × Memory)
    : Type 0 where
  pub chain : IsChain r.0
  pub written : Written k v (λ q. find q b) (λ q. find q r.0) r.1
  pub counted : (q : Bytes) → count q r.0 ≤ (if str_eq k q then 1 else 0) + count q b
  pub once : count k b ≤ 1 → count k r.0 ≤ 1
  pub enough : m ≡ [] → (r.1 ≡ err_none) × (r.2 ≡ [])

add_bucket-Added :
    (k v : Bytes) (v₀ : CharPointer) (tail : Bucket) (m : Memory)
    → Returns (add_bucket (bucket none v₀ tail) k v m) (Added k v (bucket none v₀ tail) m)
unfolding add_bucket find count
add_bucket-Added k v v₀ tail m = (
  _,
  refl,
  record {
    chain = ground arith;
    written = ground arith;
    counted = λ q. ground arith;
    once = ground arith;
    enough = λ e. ground arith;
  },
)

overwrite-Added :
    (k₀ k v old : Bytes) (tail : Bucket) (m : Memory)
    → IsChain tail
    → str_eq k₀ k ≡ true
    → Added k v (bucket (some k₀) (some old) tail) m (overwrite k₀ (some old) tail v m)
unfolding overwrite find count
overwrite-Added k₀ k v old tail m h same = record {
  chain = ground arith;
  written = ground (arith, str_eq_iff k₀ k);
  counted = λ q. ground arith;
  once = ground arith;
  enough = λ e. ground arith;
}

-- A bucket with another key in front changes neither.
Written-behind :
    (k₀ k v old : Bytes) (tail tail' : Bucket) (e : ErrorCode)
    → str_eq k₀ k ≡ false
    → Written k v (λ q. find q tail) (λ q. find q tail') e
    → Written k v
        (λ q. find q (bucket (some k₀) (some old) tail))
        (λ q. find q (bucket (some k₀) (some old) tail'))
        e
unfolding find
Written-behind k₀ k v old tail tail' e other (inl (c, w)) =
    inl (c, λ q. ground (arith, w q, str_eq_iff k₀ k, str_eq_iff k₀ q, str_eq_iff k q))
Written-behind k₀ k v old tail tail' e other (inr (c, w)) = inr (c, λ q. ground (arith, w q))

Added-behind :
    (k₀ k v old : Bytes) (tail tail' : Bucket) (m m' : Memory) (e : ErrorCode)
    → str_eq k₀ k ≡ false
    → Added k v tail m (tail', e, m')
    → Added k v (bucket (some k₀) (some old) tail) m (bucket (some k₀) (some old) tail', e, m')
unfolding count
Added-behind k₀ k v old tail tail' m m' e other a = record {
  chain = a.chain;
  written = Written-behind k₀ k v old tail tail' e other a.written;
  counted = λ q. ground (arith, a.counted q);
  once = ground (arith, a.once);
  enough = a.enough;
}

-- A call of `add_to_chain` on a chain ends, in a chain that was written to or is as before.
pub add_to_chain-Added :
    (b : Bucket) (k v : Bytes) (m : Memory)
    → IsChain b
    → Returns (add_to_chain b k v m) (Added k v b m)
unfolding add_to_chain
add_to_chain-Added null k v m h = absurd h
add_to_chain-Added (bucket none v₀ tail) k v m h = add_bucket-Added k v v₀ tail m
add_to_chain-Added (bucket (some k₀) none tail) k v m h = absurd h
add_to_chain-Added (bucket (some k₀) (some old) tail) k v m h =
    let ((tail', e, m'), run, a) = add_to_chain-Added tail k v m h in
    elim (Bool-cases (str_eq k₀ k)) [
      | inl same ↦
          (overwrite k₀ (some old) tail v m, rw same, overwrite-Added k₀ k v old tail m h same)
      | inr other ↦ (
        (bucket (some k₀) (some old) tail', e, m'),
        rw (other, run),
        Added-behind k₀ k v old tail tail' m m' e other a,
      )
    ]

-- The loop of `get_Htable_value` copies the value that is found.
pub get_from_chain_lem :
    (b : Bucket) (q : Bytes) (m : Memory) → get_from_chain b q m ≡ strdup (find q b) m
unfolding get_from_chain find strdup
get_from_chain_lem null q m = refl
get_from_chain_lem (bucket none v tail) q m = refl
get_from_chain_lem (bucket (some k) v tail) q m = ground (arith, get_from_chain_lem tail q m)

pub count-zero-find : (q : Bytes) (b : Bucket) → count q b ≡ 0 → find q b ≡ none
unfolding count find
count-zero-find q null h = refl
count-zero-find q (bucket none v tail) h = refl
count-zero-find q (bucket (some k) v tail) h = ground (arith, count-zero-find q tail)
