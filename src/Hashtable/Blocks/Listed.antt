-- ===== src/Hashtable/Blocks/Listed.antt =====
-- The `for` loop of `get_Htable_content` with its blocks, and the whole of it.
use distributed_hash_table.Base.{
  ℕ, zero, suc, ◌+◌, ◌<◌, ◌≡◌, refl, ◌∙◌, inl, inr, true, false, List, [], Option, none, some,
  Memory, malloc, ok, Returns, arith, length, map, get_elem?, All, All-get_elem?, get_elem?-lt,
  get_elem?-map, Option-cases,
}
use distributed_hash_table.Heap.{Heap, alloc, Holds}
use distributed_hash_table.Heap.Laws.{alloc-cases, alloc-malloc}
use distributed_hash_table.Hashtable as Values
use distributed_hash_table.Hashtable.{KvPair, Bucket, bucket, Htable}
use distributed_hash_table.Hashtable.Blocks.{Chain, Table, bucket_at}
use distributed_hash_table.Hashtable.Blocks.Owned.{
  forget, forget_all, forget_table, IsTidy, IsTidyArray, IsTidyTable,
}
use distributed_hash_table.Hashtable.Blocks.Content.{
  PairList, content_of_chain, content_loop, get_htable_content,
}
use distributed_hash_table.Hashtable.Blocks.PairLists.{of_list, forget_pair, IsList, Listed}
use distributed_hash_table.Hashtable.Blocks.Appended.{content_of_chain-Listed}

-- One round of the `for` loop on values, by what the chain ends in.
values_stop :
    (n i : ℕ) (bs : List Bucket) (b : Bucket) (pairs : List KvPair) (m m₁ : Memory)
    → get_elem? bs i ≡ some b
    → Values.content_of_chain b pairs m ≡ ok (none, m₁)
    → Values.content_loop (suc n) i bs pairs m ≡ ok (none, m₁)
unfolding Values.content_loop Values.bucket_at
values_stop n i bs b pairs m m₁ at run = rw (Values.content_loop, Values.bucket_at, at, run) refl

values_go :
    (n i : ℕ) (bs : List Bucket) (b : Bucket) (pairs pairs' : List KvPair) (m m₁ : Memory)
    → get_elem? bs i ≡ some b
    → Values.content_of_chain b pairs m ≡ ok (some pairs', m₁)
    → Values.content_loop (suc n) i bs pairs m ≡ Values.content_loop n (suc i) bs pairs' m₁
unfolding Values.content_loop Values.bucket_at
values_go n i bs b pairs pairs' m m₁ at run =
    rw (Values.content_loop, Values.bucket_at, at, run) refl

-- One round with its blocks: the rest of the loop is run if the list is made.
content_loop-round :
    (n i : ℕ) (bs : List Chain) (b : Chain) (l : PairList) (h h₁ : Heap) (g : ℕ → ℕ)
    → get_elem? bs i ≡ some b
    → (found : Option PairList) → content_of_chain b l h ≡ ok (found, h₁)
    → Listed (Values.content_of_chain (forget b) (map forget_pair l.pairs) h.memory) g (found, h₁)
    → ((l₁ : PairList)
        → IsList (some l₁)
        → Holds h₁ (λ a. of_list a (some l₁) + g a)
        → Returns (content_loop n (suc i) bs l₁ h₁) (
            Listed
              (Values.content_loop n (suc i) (forget_all bs) (map forget_pair l₁.pairs) h₁.memory)
              g))
    → Returns (content_loop (suc n) i bs l h) (
        Listed (Values.content_loop (suc n) i (forget_all bs) (map forget_pair l.pairs) h.memory) g)
unfolding content_loop bucket_at
content_loop-round n i bs b l h h₁ g at none run s later = (
  (none, h₁),
  rw (content_loop, bucket_at, at, run) refl,
  record {
    whole = tt;
    owned = s.owned;
    agrees =
        values_stop n i (forget_all bs) (forget b) (map forget_pair l.pairs) h.memory h₁.memory
          (get_elem?-map forget bs i at) s.agrees;
  },
)
content_loop-round n i bs b l h h₁ g at (some l₁) run s later =
    let (r, e, s₁) = later l₁ s.whole s.owned in
    (
      r,
      rw (content_loop, bucket_at, at, run) e,
      record {
        whole = s₁.whole;
        owned = s₁.owned;
        agrees =
            values_go n i (forget_all bs) (forget b) (map forget_pair l.pairs)
              (map forget_pair l₁.pairs) h.memory h₁.memory (get_elem?-map forget bs i at) s.agrees
            ∙ s₁.agrees;
      },
    )

content_loop-Listed :
    (n i : ℕ) (bs : List Chain) (l : PairList) (h : Heap) (g : ℕ → ℕ)
    → All IsTidy bs
    → i + n ≡ length bs
    → IsList (some l)
    → Holds h (λ a. of_list a (some l) + g a)
    → Returns
        (content_loop n i bs l h)
        (Listed (Values.content_loop n i (forget_all bs) (map forget_pair l.pairs) h.memory) g)
unfolding content_loop Values.content_loop
content_loop-Listed zero i bs l h g tidy range is own =
    ((some l, h), refl, record { whole = is; owned = own; agrees = refl })
content_loop-Listed (suc n) i bs l h g tidy range is own =
    let (b, at) = get_elem?-lt bs i (omega (arith, range)) in
    let ((found, h₁), e₁, s) =
      content_of_chain-Listed b l h g (All-get_elem? IsTidy bs i tidy at) is own in
    content_loop-round n i bs b l h h₁ g at found e₁ s
      (λ l₁ is₁ own₁. content_loop-Listed n (suc i) bs l₁ h₁ g tidy (omega (arith, range)) is₁ own₁)

values_get_htable_content :
    (t : Htable) (m m₁ : Memory)
    → ((malloc m ≡ (false, m₁)) → Values.get_htable_content t m ≡ ok (none, m₁))
      × ((bs : List Bucket)
          → malloc m ≡ (true, m₁)
          → t.buckets ≡ some bs
          → Values.get_htable_content t m ≡ Values.content_loop t.size 0 bs [] m₁)
      × (malloc m ≡ (true, m₁)
          → t.buckets ≡ none
          → t.size ≡ 0
          → Values.get_htable_content t m ≡ ok (some [], m₁))
unfolding Values.get_htable_content
values_get_htable_content t m m₁ = (
  λ failed. rw (Values.get_htable_content, failed) refl,
  λ bs got here. rw (Values.get_htable_content, got, here, got) refl,
  λ got missing z. rw (Values.get_htable_content, got, missing, z, got) refl,
)

-- `get_Htable_content` on a tidy table ends without a fault, whichever allocations fail: it returns a
-- list that owns its blocks, or NULL, and then nothing more is allocated than before; with the addresses
-- forgotten it is the call on values.
pub get_htable_content-Listed :
    (t : Table) (h : Heap) (g : ℕ → ℕ)
    → IsTidyTable t
    → Holds h g
    → Returns
        (get_htable_content t h)
        (Listed (Values.get_htable_content (forget_table t) h.memory) g)
unfolding get_htable_content
get_htable_content-Listed t h g tidy own = elim (alloc-cases h g own) [
  | inl (failed, own₁) ↦ (
    (none, (alloc h).1),
    simp (get_htable_content, failed),
    record {
      whole = tt;
      owned = λ a. omega (arith, own₁ a);
      agrees =
          (values_get_htable_content (forget_table t) h.memory _).0 (rw failed at (alloc-malloc h));
    },
  )
  | inr (at, got, own₁) ↦
      let empty : PairList = record { at = at; array = none; pairs = [] } in
      let taken : malloc h.memory ≡ (true, (alloc h).1.memory) = rw got at (alloc-malloc h) in
      let owned : Holds (alloc h).1 (λ a. of_list a (some empty) + g a) =
        λ a. omega (arith, own₁ a) in
      elim (Option-cases t.buckets) [
        | inl missing ↦
            let z : t.size ≡ 0 = rw missing at tidy in
            (
              (some empty, (alloc h).1),
              simp (get_htable_content, got, missing, z),
              record {
                whole = λ e. refl;
                owned = owned;
                agrees =
                    (values_get_htable_content (forget_table t) h.memory _).2 taken
                      (rw missing refl) z;
              },
            )
        | inr ((array, bs), here) ↦
            let whole : (0 < t.size) × IsTidyArray t.size bs = rw here at tidy in
            let (r, e, s) =
              content_loop-Listed t.size 0 bs empty (alloc h).1 g whole.1.tidy
                (omega (arith, whole.1.width)) (λ e. refl) owned in
            (
              r,
              simp (get_htable_content, got, here, e),
              record {
                whole = s.whole;
                owned = s.owned;
                agrees =
                    (values_get_htable_content (forget_table t) h.memory _).1 (forget_all bs) taken
                      (rw here refl)
                    ∙ s.agrees;
              },
            )
      ]
]
