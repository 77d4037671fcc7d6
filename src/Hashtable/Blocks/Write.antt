-- ===== src/Hashtable/Blocks/Write.antt =====
-- `add_Htable_value` with its blocks.
use distributed_hash_table.Base.{
  ℕ, zero, suc, ◌+◌, ◌<◌, ◌≡◌, refl, ap, ◌∙◌, inl, inr, List, [], ◌∷◌, none, some, Memory, ok,
  Returns, arith, length, get_elem?, set, All-set, All-get_elem?, get_elem?-map, get_elem?-lt,
  length-set, Option-cases,
}
use mathlib.Core.Option.{some-injective}
use distributed_hash_table.Error.{ErrorCode, err_bad_parameter}
use distributed_hash_table.CString.{Bytes, CharPointer}
use distributed_hash_table.Heap.{Heap, same, Holds}
use distributed_hash_table.Hashtable as Values
use distributed_hash_table.Hashtable.{Bucket, Htable, hash_function}
use distributed_hash_table.Hashtable.Table.{home, home-lt}
use distributed_hash_table.Hashtable.Blocks.{
  Chain, Table, add_to_chain, bucket_at, add_to_array, add_htable_value,
}
use distributed_hash_table.Hashtable.Blocks.Owned.{
  of_chain, of_array, of_table, forget, forget_all, forget_table, IsTidy, IsTidyArray, IsTidyTable,
}
use distributed_hash_table.Hashtable.Blocks.Add.{add_to_chain-Stored}

-- What the other chains of an array own.
others : ℕ → List Chain → ℕ → ℕ
others a [] i = 0
others a (b ∷ bs) zero = of_array a bs
others a (b ∷ bs) (suc i) = of_chain a b + others a bs i

of_array-others :
    (a : ℕ) (bs : List Chain) (i : ℕ) (b : Chain)
    → get_elem? bs i ≡ some b
    → of_array a bs ≡ of_chain a b + others a bs i
unfolding others
of_array-others a [] i b h = cc
of_array-others a (c ∷ bs) zero b h = ap (λ d. of_chain a d + of_array a bs) (some-injective _ _ h)
of_array-others a (c ∷ bs) (suc i) b h = omega (arith, of_array-others a bs i b h)

of_array-set :
    (a : ℕ) (bs : List Chain) (i : ℕ) (b : Chain)
    → i < length bs
    → of_array a (set bs i b) ≡ of_chain a b + others a bs i
unfolding others
of_array-set a [] i b h = absurd (omega (arith, h))
of_array-set a (c ∷ bs) zero b h = refl
of_array-set a (c ∷ bs) (suc i) b h = omega (arith, of_array-set a bs i b (omega (arith, h)))

forget_all-set :
    (bs : List Chain) (i : ℕ) (b : Chain)
    → forget_all (set bs i b) ≡ set (forget_all bs) i (forget b)
forget_all-set [] i b = refl
forget_all-set (c ∷ bs) zero b = refl
forget_all-set (c ∷ bs) (suc i) b = ap (λ l. forget c ∷ l) (forget_all-set bs i b)

-- What a call of `add_Htable_value` on the table `t` ends in: the table is tidy, the blocks that are
-- allocated are its own and those beside it, and the call is the one on values.
pub record Wrote (t : Table) (key value : CharPointer) (h : Heap) (g : ℕ → ℕ)
    (r : Table × ErrorCode × Heap) : Type 0 where
  pub tidy : IsTidyTable r.0
  pub owned : Holds r.2 (λ a. of_table a r.0 + g a)
  pub agrees :
      Values.add_htable_value (forget_table t) key value h.memory
      ≡ ok (forget_table r.0, r.1, r.2.memory)

-- The write to the array of buckets.
record WroteArray (size : ℕ) (bs : List Chain) (k v : Bytes) (h : Heap) (g : ℕ → ℕ)
    (r : List Chain × ErrorCode × Heap) : Type 0 where
  tidy : IsTidyArray size r.0
  owned : Holds r.2 (λ a. of_array a r.0 + g a)
  agrees :
      Values.add_to_array (forget_all bs) size k v h.memory ≡ ok (forget_all r.0, r.1, r.2.memory)

values_add_to_array :
    (bs : List Bucket) (size : ℕ) (k v : Bytes) (b b' : Bucket) (e : ErrorCode) (m m' : Memory)
    → get_elem? bs (home k size) ≡ some b
    → Values.add_to_chain b k v m ≡ ok (b', e, m')
    → Values.add_to_array bs size k v m ≡ ok (set bs (home k size) b', e, m')
unfolding Values.add_to_array Values.bucket_at
values_add_to_array bs size k v b b' e m m' at run =
    rw (Values.add_to_array, Values.bucket_at, at, run) refl

blocks_add_to_array :
    (bs : List Chain) (size : ℕ) (k v : Bytes) (b b' : Chain) (e : ErrorCode) (h h' : Heap)
    → get_elem? bs (home k size) ≡ some b
    → add_to_chain b k v h ≡ ok (b', e, h')
    → add_to_array bs size k v h ≡ ok (set bs (home k size) b', e, h')
unfolding add_to_array bucket_at
blocks_add_to_array bs size k v b b' e h h' at run = rw (add_to_array, bucket_at, at, run) refl

add_to_array-WroteArray :
    (size : ℕ) (bs : List Chain) (k v : Bytes) (h : Heap) (g : ℕ → ℕ)
    → 0 < size
    → IsTidyArray size bs
    → Holds h (λ a. of_array a bs + g a)
    → Returns (add_to_array bs size k v h) (WroteArray size bs k v h g)
add_to_array-WroteArray size bs k v h g positive t own =
    let i = home k size in
    let lt : i < length bs = rw t.width (home-lt k size positive) in
    let (b, at) = get_elem?-lt bs i lt in
    let ((b', e, h'), run, s) =
      add_to_chain-Stored b k v h (λ a. others a bs i + g a) (All-get_elem? IsTidy bs i t.tidy at)
        (λ a. omega (arith, own a, of_array-others a bs i b at)) in
    (
      (set bs i b', e, h'),
      blocks_add_to_array bs size k v b b' e h h' at run,
      record {
        tidy = record {
          width = length-set bs i b' ∙ t.width;
          tidy = All-set IsTidy bs i b' t.tidy s.tidy;
        };
        owned = λ a. omega (arith, s.owned a, of_array-set a bs i b' lt);
        agrees = rw (forget_all-set bs i b') (
            values_add_to_array (forget_all bs) size k v (forget b) (forget b') e h.memory h'.memory
              (get_elem?-map forget bs i at) s.agrees);
      },
    )

values_add_htable_value :
    (t : Htable) (bs bs' : List Bucket) (k v : Bytes) (e : ErrorCode) (m m' : Memory)
    → t.buckets ≡ some bs
    → Values.add_to_array bs t.size k v m ≡ ok (bs', e, m')
    → Values.add_htable_value t (some k) (some v) m ≡ ok (record t { buckets = some bs' }, e, m')
unfolding Values.add_htable_value
values_add_htable_value t bs bs' k v e m m' here run = simp (Values.add_htable_value, here, run)

-- A call without a key, a value or buckets.
refused :
    (t : Table) (key value : CharPointer) (h : Heap) (g : ℕ → ℕ)
    → IsTidyTable t
    → Holds h (λ a. of_table a t + g a)
    → add_htable_value t key value h ≡ ok (t, err_bad_parameter, h)
    → Values.add_htable_value (forget_table t) key value h.memory
      ≡ ok (forget_table t, err_bad_parameter, h.memory)
    → Returns (add_htable_value t key value h) (Wrote t key value h g)
refused t key value h g tidy own run agrees =
    ((t, err_bad_parameter, h), run, record { tidy = tidy; owned = own; agrees = agrees })

-- `add_Htable_value` on a tidy table that owns its blocks frees no block twice, keeps the table tidy and
-- owner of its blocks and leaves the other blocks as they are, whichever allocations fail; with the
-- addresses forgotten the call is the one on values.
pub add_htable_value-Wrote :
    (t : Table) (key value : CharPointer) (h : Heap) (g : ℕ → ℕ)
    → IsTidyTable t
    → Holds h (λ a. of_table a t + g a)
    → Returns (add_htable_value t key value h) (Wrote t key value h g)
unfolding add_htable_value Values.add_htable_value
add_htable_value-Wrote t none value h g tidy own = refused t none value h g tidy own refl refl
add_htable_value-Wrote t (some k) none h g tidy own = refused t (some k) none h g tidy own refl refl
add_htable_value-Wrote t (some k) (some v) h g tidy own = elim (Option-cases t.buckets) [
  | inl missing ↦
      refused t (some k) (some v) h g tidy own (simp (add_htable_value, missing))
        (simp (Values.add_htable_value, missing))
  | inr ((at, bs), here) ↦
      let whole : (0 < t.size) × IsTidyArray t.size bs = rw here at tidy in
      let ((bs', e, h'), run, s) =
        add_to_array-WroteArray t.size bs k v h (λ a. same a at + g a) whole.0 whole.1
          (λ a. omega (arith, rw here at (own a))) in
      (
        (record t { buckets = some (at, bs') }, e, h'),
        simp (add_htable_value, here, run),
        record {
          tidy = (whole.0, s.tidy);
          owned = λ a. omega (arith, s.owned a);
          agrees =
              values_add_htable_value (forget_table t) (forget_all bs) (forget_all bs') k v e
                h.memory h'.memory (rw here refl) s.agrees;
        },
      )
]
