-- ===== src/Hashtable/Blocks/Store.antt =====
-- What `kv_pair_free`, `add_bucket` and the overwriting of a value do to the blocks.
use distributed_hash_table.Base.{
  ℕ, ◌+◌, ◌≡◌, ◌≢◌, refl, ap, ◌∙◌, inl, inr, Bool, true, false, none, some, Memory, malloc, Run, ok,
  ◌>>=◌, Returns, arith, if◌then◌else◌,
}
use distributed_hash_table.Error.{ErrorCode, err_none, err_nomem}
use distributed_hash_table.CString.{Bytes, CharPointer, strdup}
use distributed_hash_table.Heap.{Heap, same, alloc, release, Held, text, held, duplicate, Holds}
use distributed_hash_table.Heap.Laws.{
  alloc-cases, alloc-malloc, release-Holds, free_const_ptr-Holds, duplicate-Holds, duplicate-strdup,
}
use distributed_hash_table.Hashtable as Values
use distributed_hash_table.Hashtable.{Bucket, bucket, null, empty_bucket}
use distributed_hash_table.Hashtable.Blocks.{
  Pair, no_pair, Chain, last, link, kv_pair_free, store_pair, add_bucket, overwrite,
}
use distributed_hash_table.Hashtable.Blocks.Owned.{of_pair, of_chain, forget, IsTidy}

pub kv_pair_free-Holds :
    (kv : Pair) (h : Heap) (g : ℕ → ℕ)
    → Holds h (λ a. of_pair a kv + g a)
    → Returns
        (kv_pair_free kv h)
        (λ (kv', h'). (kv' ≡ no_pair) × Holds h' g × (h'.memory ≡ h.memory))
unfolding kv_pair_free
kv_pair_free-Holds kv h g own =
    let (h₁, e₁, (own₁, m₁)) =
      free_const_ptr-Holds kv.key h (λ a. held a kv.value + g a) (λ a. omega (arith, own a)) in
    let (h₂, e₂, (own₂, m₂)) = free_const_ptr-Holds kv.value h₁ g own₁ in
    ((no_pair, h₂), rw (e₁, e₂) refl, (refl, own₂, m₂ ∙ m₁))

-- What a call that writes to a bucket ends in: the bucket is tidy, nothing but the bucket's own blocks is
-- allocated beside `g`, and with the addresses forgotten the call is the one on values.
pub record Stored (run : Run (Bucket × ErrorCode × Memory)) (g : ℕ → ℕ)
    (r : Chain × ErrorCode × Heap) : Type 0 where
  pub tidy : IsTidy r.0
  pub owned : Holds r.2 (λ a. of_chain a r.0 + g a)
  pub agrees : run ≡ ok (forget r.0, r.1, r.2.memory)

store_failed :
    (at : ℕ) (kv : Pair) (h : Heap) (g : ℕ → ℕ)
    → Holds h (λ a. same a at + (of_pair a kv + g a))
    → Returns
        (release at h >>= λ h₁. kv_pair_free kv h₁ >>= λ (kv', h₂). ok (last kv', err_nomem, h₂))
        (Stored (ok (empty_bucket, err_nomem, h.memory)) g)
store_failed at kv h g own =
    let (h₁, e₁, (own₁, m₁)) = release-Holds at h (λ a. of_pair a kv + g a) own in
    let ((kv₂, h₂), e₂, (none₂, own₂, m₂)) = kv_pair_free-Holds kv h₁ g own₁ in
    (
      (last no_pair, err_nomem, h₂),
      rw (e₁, e₂, none₂) refl,
      record { tidy = (refl, refl); owned = λ a. omega (arith, own₂ a); agrees = rw (m₂, m₁) refl },
    )

store_pair-Stored :
    (at : ℕ) (k v : Held) (h : Heap) (g : ℕ → ℕ)
    → Holds h (λ a. same a at + (of_pair a (record { key = k; value = v }) + g a))
    → Returns
        (store_pair at (record { key = k; value = v }) h)
        (Stored (let (b, e) = Values.store_pair (text k) (text v) in ok (b, e, h.memory)) g)
unfolding store_pair Values.store_pair
store_pair-Stored at none none h g own = store_failed at no_pair h g own
store_pair-Stored at none (some v) h g own =
    store_failed at (record { key = none; value = some v }) h g own
store_pair-Stored at (some k) none h g own =
    store_failed at (record { key = some k; value = none }) h g own
store_pair-Stored at (some k) (some v) h g own = (
  (link (record { key = some k; value = some v }) at (last no_pair), err_none, h),
  refl,
  record {
    tidy = ((λ e. cc), (λ e. cc), (refl, refl));
    owned = λ a. omega (arith, own a);
    agrees = refl;
  },
)

-- `add_bucket` on values, by the outcomes of its allocations.
values_add_bucket :
    (b : Bucket) (old old' : CharPointer) (k v : Bytes) (k' v' : CharPointer) (m m₁ m₂ m₃ : Memory)
    → malloc m ≡ (true, m₁)
    → strdup (some k) m₁ ≡ (k', m₂)
    → strdup (some v) m₂ ≡ (v', m₃)
    → Values.add_bucket (bucket old old' b) k v m
      ≡ (let (b', e) = Values.store_pair k' v' in ok (b', e, m₃))
unfolding Values.add_bucket
values_add_bucket b old old' k v k' v' m m₁ m₂ m₃ got ek ev =
    rw
      (
        ← ap (λ r. r.0) ev,
        ← ap (λ r. r.1) ev,
        ← ap (λ r. r.0) ek,
        ← ap (λ r. r.1) ek,
        Values.add_bucket,
        got,
      )
      refl

pub add_bucket-Stored :
    (kv : Pair) (k v : Bytes) (h : Heap) (g : ℕ → ℕ)
    → IsTidy (last kv)
    → Holds h g
    → Returns
        (add_bucket (last kv) k v h)
        (Stored (Values.add_bucket (forget (last kv)) k v h.memory) g)
unfolding add_bucket Values.add_bucket
add_bucket-Stored kv k v h g tidy own = elim (alloc-cases h g own) [
  | inl (failed, own₁) ↦ (
    (last kv, err_nomem, (alloc h).1),
    rw (add_bucket, failed) refl,
    record {
      tidy = tidy;
      owned = λ a. rw (tidy.0, tidy.1) (omega (arith, own₁ a));
      agrees = rw (Values.add_bucket, alloc-malloc h, failed) refl;
    },
  )
  | inr (at, got, own₁) ↦
      let h₁ = (alloc h).1 in
      let own₂ = duplicate-Holds (some k) h₁ (λ a. same a at + g a) own₁ in
      let (k', h₂) = duplicate (some k) h₁ in
      let own₃ = duplicate-Holds (some v) h₂ (λ a. held a k' + (same a at + g a)) own₂ in
      let (v', h₃) = duplicate (some v) h₂ in
      let (r, e, s) = store_pair-Stored at k' v' h₃ g (λ a. omega (arith, own₃ a)) in
      (
        r,
        rw (add_bucket, got, e) refl,
        record {
          tidy = s.tidy;
          owned = s.owned;
          agrees =
              values_add_bucket null _ _ k v _ _ h.memory h₁.memory h₂.memory h₃.memory
                (rw got at (alloc-malloc h)) (duplicate-strdup (some k) h₁)
                (duplicate-strdup (some v) h₂)
              ∙ s.agrees;
        },
      )
]

-- What `overwrite` ends in for a pair whose key is `k`.
pub record Overwritten (kv : Pair) (k v : Bytes) (h : Heap) (g : ℕ → ℕ)
    (r : Pair × ErrorCode × Heap) : Type 0 where
  pub key : r.0.key ≡ kv.key
  pub filled : r.0.value ≢ none
  pub owned : Holds r.2 (λ a. of_pair a r.0 + g a)
  pub agrees :
      (tail : Bucket)
      → Values.overwrite k (text kv.value) tail v h.memory
        ≡ (bucket (some k) (text r.0.value) tail, r.1, r.2.memory)

-- `overwrite` on values, by the outcome of its allocation.
values_overwrite :
    (k v : Bytes) (old : CharPointer) (tail : Bucket) (m m₁ : Memory) (got : Bool)
    → malloc m ≡ (got, m₁)
    → Values.overwrite k old tail v m ≡ (
        if got
        then (bucket (some k) (some v) tail, err_none, m₁)
        else (bucket (some k) old tail, err_nomem, m₁))
unfolding Values.overwrite
values_overwrite k v old tail m m₁ true e = rw (Values.overwrite, e, e) refl
values_overwrite k v old tail m m₁ false e = rw (Values.overwrite, e, e) refl

pub overwrite-Overwritten :
    (kv : Pair) (k v : Bytes) (h : Heap) (g : ℕ → ℕ)
    → kv.value ≢ none
    → Holds h (λ a. of_pair a kv + g a)
    → Returns (overwrite kv v h) (Overwritten kv k v h g)
unfolding overwrite duplicate
overwrite-Overwritten kv k v h g filled own = elim (alloc-cases h (λ a. of_pair a kv + g a) own) [
  | inl (failed, own₁) ↦ (
    (kv, err_nomem, (alloc h).1),
    rw (overwrite, duplicate, failed) refl,
    record {
      key = refl;
      filled = filled;
      owned = own₁;
      agrees = λ tail.
          values_overwrite k v (text kv.value) tail h.memory _ false
            (rw failed at (alloc-malloc h));
    },
  )
  | inr (at, got, own₁) ↦
      let (h₂, e₂, (own₂, m₂)) =
        free_const_ptr-Holds kv.value (alloc h).1 (λ a. same a at + (held a kv.key + g a))
          (λ a. omega (arith, own₁ a)) in
      (
        (record kv { value = some (at, v) }, err_none, h₂),
        rw (overwrite, duplicate, got, e₂) refl,
        record {
          key = refl;
          filled = λ e. cc;
          owned = λ a. omega (arith, own₂ a);
          agrees = λ tail. rw m₂ (
              values_overwrite k v (text kv.value) tail h.memory _ true
                (rw got at (alloc-malloc h)));
        },
      )
]
