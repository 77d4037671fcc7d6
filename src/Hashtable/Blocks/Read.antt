-- ===== src/Hashtable/Blocks/Read.antt =====
-- `construct_Htable` and `get_Htable_value` with their blocks.
use distributed_hash_table.Base.{
  ℕ, zero, suc, ◌+◌, ◌<◌, ◌≡◌, refl, ap, ◌∙◌, inl, inr, true, false, List, ◌∷◌, none, some, Memory,
  malloc, Run, ok, Returns, arith, get_elem?, replicate, All-replicate, get_elem?-lt, get_elem?-map,
  length-replicate, Option-cases,
}
use distributed_hash_table.CString.{Bytes, CharPointer, strdup}
use distributed_hash_table.Heap.{Heap, Held, text, held, duplicate, Holds}
use distributed_hash_table.Heap.Laws.{alloc-cases, alloc-malloc, duplicate-Holds, duplicate-strdup}
use distributed_hash_table.Hashtable as Values
use distributed_hash_table.Hashtable.{Bucket, empty_bucket, Htable, hash_function}
use distributed_hash_table.Hashtable.Chain.{find, get_from_chain_lem}
use distributed_hash_table.Hashtable.Table.{home, home-lt}
use distributed_hash_table.Hashtable.Blocks.{
  Chain, last, link, no_pair, Table, bucket_at, get_from_chain, get_htable_value, construct_htable,
}
use distributed_hash_table.Hashtable.Blocks.Owned.{
  of_array, of_table, forget, forget_all, forget_table, IsTidy, IsTidyArray, IsTidyTable,
}

-- The loop of `get_Htable_value` copies the value that is found.
get_from_chain-find :
    (b : Chain) (q : Bytes) (h : Heap) → get_from_chain b q h ≡ duplicate (find q (forget b)) h
unfolding get_from_chain find duplicate
get_from_chain-find (last kv) q h = ground (arith, Option-cases kv.key)
get_from_chain-find (link kv next tail) q h =
    ground (arith, Option-cases kv.key, get_from_chain-find tail q h)

-- What a call that returns a string ends in: the caller owns the string and nothing more is allocated, and
-- the call is the one on values.
pub record Got (run : Run (CharPointer × Memory)) (g : ℕ → ℕ) (r : Held × Heap) : Type 0 where
  pub owned : Holds r.1 (λ a. held a r.0 + g a)
  pub agrees : run ≡ ok (text r.0, r.1.memory)

values_get_htable_value :
    (t : Htable) (bs : List Bucket) (b : Bucket) (q : Bytes) (m : Memory)
    → t.buckets ≡ some bs
    → get_elem? bs (home q t.size) ≡ some b
    → Values.get_htable_value t (some q) m ≡ ok (strdup (find q b) m)
unfolding Values.get_htable_value Values.bucket_at
values_get_htable_value t bs b q m here at =
    simp (Values.get_htable_value, Values.bucket_at, here, at, get_from_chain_lem)

pub get_htable_value-Got :
    (t : Table) (key : CharPointer) (h : Heap) (g : ℕ → ℕ)
    → IsTidyTable t
    → Holds h g
    → Returns
        (get_htable_value t key h)
        (Got (Values.get_htable_value (forget_table t) key h.memory) g)
unfolding get_htable_value bucket_at Values.get_htable_value
get_htable_value-Got t none h g tidy own =
    ((none, h), refl, record { owned = λ a. omega (arith, own a); agrees = refl })
get_htable_value-Got t (some q) h g tidy own = elim (Option-cases t.buckets) [
  | inl missing ↦ (
    (none, h),
    simp (get_htable_value, missing),
    record { owned = λ a. omega (arith, own a); agrees = simp (Values.get_htable_value, missing) },
  )
  | inr ((at, bs), here) ↦
      let whole : (0 < t.size) × IsTidyArray t.size bs = rw here at tidy in
      let (b, there) =
        get_elem?-lt bs (home q t.size) (rw whole.1.width (home-lt q t.size whole.0)) in
      let found = find q (forget b) in
      (
        duplicate found h,
        simp (get_htable_value, bucket_at, here, there, get_from_chain-find),
        record {
          owned = duplicate-Holds found h g own;
          agrees =
              values_get_htable_value (forget_table t) (forget_all bs) (forget b) q h.memory
                (rw here refl) (get_elem?-map forget bs (home q t.size) there)
              ∙ ap ok (duplicate-strdup found h);
        },
      )
]

-- What `construct_Htable` ends in.
pub record Constructed (size : ℕ) (h : Heap) (g : ℕ → ℕ) (r : Table × Heap) : Type 0 where
  pub tidy : IsTidyTable r.0
  pub owned : Holds r.1 (λ a. of_table a r.0 + g a)
  pub agrees : Values.construct_htable size h.memory ≡ (forget_table r.0, r.1.memory)

of_array-replicate : (a n : ℕ) → of_array a (replicate n (last no_pair)) ≡ 0
of_array-replicate a zero = refl
of_array-replicate a (suc n) = omega (arith, of_array-replicate a n)

forget_all-replicate : (n : ℕ) → forget_all (replicate n (last no_pair)) ≡ replicate n empty_bucket
forget_all-replicate zero = refl
forget_all-replicate (suc n) = ap (λ l. empty_bucket ∷ l) (forget_all-replicate n)

values_construct :
    (size : ℕ) (m m₁ : Memory)
    → ((malloc m ≡ (true, m₁))
        → Values.construct_htable size m
          ≡ (record { buckets = some (replicate size empty_bucket); size = size }, m₁))
      × ((malloc m ≡ (false, m₁))
          → Values.construct_htable size m ≡ (record { buckets = none; size = 0 }, m₁))
unfolding Values.construct_htable
values_construct size m m₁ = (
  λ got. rw (Values.construct_htable, got) refl,
  λ failed. rw (Values.construct_htable, failed) refl,
)

pub construct_htable-Constructed :
    (size : ℕ) (h : Heap) (g : ℕ → ℕ)
    → 0 < size
    → Holds h g
    → Constructed size h g (construct_htable size h)
unfolding construct_htable
construct_htable-Constructed size h g positive own = elim (alloc-cases h g own) [
  | inl (failed, own₁) ↦
      rw (construct_htable, failed)
        (record {
          tidy = refl;
          owned = λ a. omega (arith, own₁ a);
          agrees = (values_construct size h.memory _).1 (rw failed at (alloc-malloc h));
        })
  | inr (at, got, own₁) ↦
      rw (construct_htable, got)
        (record {
          tidy = (
            positive,
            record {
              width = length-replicate size (last no_pair);
              tidy = All-replicate IsTidy size (last no_pair) (refl, refl);
            },
          );
          owned = λ a. omega (arith, own₁ a, of_array-replicate a size);
          agrees =
              rw (forget_all-replicate size)
                ((values_construct size h.memory _).0 (rw got at (alloc-malloc h)));
        })
]
