-- ===== src/Hashtable/Blocks/Add.antt =====
-- The loop of `add_Htable_value` with its blocks.
use distributed_hash_table.Base.{
  ℕ, ◌+◌, ◌≡◌, ◌≢◌, refl, ◌∙◌, inl, inr, true, false, none, some, Memory, ok, Returns, arith,
  Bool-cases, Option-cases,
}
use distributed_hash_table.Error.{ErrorCode}
use distributed_hash_table.CString.{Bytes, CharPointer, str_eq}
use distributed_hash_table.Heap.{Heap, same, text, Holds}
use distributed_hash_table.Hashtable as Values
use distributed_hash_table.Hashtable.{Bucket, bucket, null, empty_bucket}
use distributed_hash_table.Hashtable.Blocks.{
  Pair, Chain, last, link, add_bucket, overwrite, add_to_chain,
}
use distributed_hash_table.Hashtable.Blocks.Owned.{of_pair, of_chain, forget, IsTidy}
use distributed_hash_table.Hashtable.Blocks.Store.{
  Stored, add_bucket-Stored, Overwritten, overwrite-Overwritten,
}

-- The bucket of a pair that was overwritten, before the same tail.
Overwritten-Stored :
    (kv : Pair) (k v : Bytes) (next : ℕ) (tail : Chain) (h : Heap) (g : ℕ → ℕ)
    → kv.key ≢ none
    → IsTidy tail
    → (r : Pair × ErrorCode × Heap) → text kv.key ≡ some k
    → Overwritten kv k v h (λ a. same a next + (of_chain a tail + g a)) r
    → Stored
        (ok (Values.overwrite k (text kv.value) (forget tail) v h.memory))
        g
        (link r.0 next tail, r.1, r.2)
Overwritten-Stored kv k v next tail h g filled tidy r e w = record {
  tidy = (rw w.key filled, w.filled, tidy);
  owned = λ a. omega (arith, w.owned a);
  agrees = rw (w.agrees (forget tail), w.key, e) refl;
}

-- A bucket whose key is the one that is written, or another one.
module _ (kv : Pair) (next at : ℕ) (k₀ k v : Bytes) (tail : Chain) (h : Heap)
    (here : kv.key ≡ some (at, k₀)) where
  add_to_chain-found :
      (kv' : Pair) (e : ErrorCode) (h' : Heap)
      → str_eq k₀ k ≡ true
      → overwrite kv v h ≡ ok (kv', e, h')
      → add_to_chain (link kv next tail) k v h ≡ ok (link kv' next tail, e, h')
  unfolding add_to_chain
  add_to_chain-found kv' e h' found run = rw (add_to_chain, here, found, run) refl

  add_to_chain-passed :
      (tail' : Chain) (e : ErrorCode) (h' : Heap)
      → str_eq k₀ k ≡ false
      → add_to_chain tail k v h ≡ ok (tail', e, h')
      → add_to_chain (link kv next tail) k v h ≡ ok (link kv next tail', e, h')
  unfolding add_to_chain
  add_to_chain-passed tail' e h' other run = simp (add_to_chain, here, other, run)

  values_found :
      (old : CharPointer) (b : Bucket) (m : Memory)
      → str_eq k₀ k ≡ true
      → Values.add_to_chain (bucket (text kv.key) old b) k v m ≡ ok (Values.overwrite k₀ old b v m)
  unfolding Values.add_to_chain
  values_found old b m found = rw (here, Values.add_to_chain, found) refl

  values_passed :
      (old : CharPointer) (b b' : Bucket) (e : ErrorCode) (m m' : Memory)
      → str_eq k₀ k ≡ false
      → Values.add_to_chain b k v m ≡ ok (b', e, m')
      → Values.add_to_chain (bucket (text kv.key) old b) k v m
        ≡ ok (bucket (text kv.key) old b', e, m')
  unfolding Values.add_to_chain
  values_passed old b b' e m m' other run = rw (here, Values.add_to_chain, other, run) refl

-- The last bucket is filled.
module _ (kv : Pair) (k v : Bytes) (here : kv.key ≡ none) where
  add_to_chain-last : (h : Heap) → add_to_chain (last kv) k v h ≡ add_bucket (last kv) k v h
  unfolding add_to_chain
  add_to_chain-last h = simp (add_to_chain, here)

  values_last :
      (old : CharPointer) (b : Bucket) (m : Memory)
      → Values.add_to_chain (bucket (text kv.key) old b) k v m
        ≡ Values.add_bucket (bucket (text kv.key) old b) k v m
  unfolding Values.add_to_chain
  values_last old b m = rw here refl

pub add_to_chain-Stored :
    (b : Chain) (k v : Bytes) (h : Heap) (g : ℕ → ℕ)
    → IsTidy b
    → Holds h (λ a. of_chain a b + g a)
    → Returns (add_to_chain b k v h) (Stored (Values.add_to_chain (forget b) k v h.memory) g)
unfolding add_to_chain Values.add_to_chain
add_to_chain-Stored (last kv) k v h g tidy own =
    let (r, e, s) =
      add_bucket-Stored kv k v h g tidy (λ a. omega (arith, rw (tidy.0, tidy.1) at (own a))) in
    (
      r,
      add_to_chain-last kv k v tidy.0 h ∙ e,
      record {
        tidy = s.tidy;
        owned = s.owned;
        agrees = values_last kv k v tidy.0 (text kv.value) null h.memory ∙ s.agrees;
      },
    )
add_to_chain-Stored (link kv next tail) k v h g (key, value, tidy) own =
    elim (Option-cases kv.key) [
      | inl missing ↦ absurd (key missing)
      | inr ((at, k₀), here) ↦ elim (Bool-cases (str_eq k₀ k)) [
        | inl found ↦
            let ((kv', e, h'), run, w) =
              overwrite-Overwritten kv k₀ v h (λ a. same a next + (of_chain a tail + g a)) value
                (λ a. omega (arith, own a)) in
            let s =
              Overwritten-Stored kv k₀ v next tail h g key tidy (kv', e, h') (rw here refl) w in
            (
              (link kv' next tail, e, h'),
              add_to_chain-found kv next at k₀ k v tail h here kv' e h' found run,
              record {
                tidy = s.tidy;
                owned = s.owned;
                agrees =
                    values_found kv next at k₀ k v tail h here (text kv.value) (forget tail)
                      h.memory found
                    ∙ s.agrees;
              },
            )
        | inr other ↦
            let ((tail', e, h'), run, s) =
              add_to_chain-Stored tail k v h (λ a. of_pair a kv + (same a next + g a)) tidy
                (λ a. omega (arith, own a)) in
            (
              (link kv next tail', e, h'),
              add_to_chain-passed kv next at k₀ k v tail h here tail' e h' other run,
              record {
                tidy = (key, value, s.tidy);
                owned = λ a. omega (arith, s.owned a);
                agrees =
                    values_passed kv next at k₀ k v tail h here (text kv.value) (forget tail)
                      (forget tail') e h.memory h'.memory other s.agrees;
              },
            )
      ]
    ]
