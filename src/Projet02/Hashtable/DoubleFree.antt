-- ===== src/Projet02/Hashtable/DoubleFree.antt =====
-- A realloc that fails: the list is freed twice, as Projet02/Server says on values.
use mathlib.Core.Option.{some-injective}
use distributed_hash_table.Base.{
  ℕ, ◌≡◌, refl, sym, ap, ◌∙◌, inl, inr, List, Option, none, some, ok, fault, ◌⊎◌, true, false,
  malloc, Returns, ok-injective, double_free, Memory, arith, Bool-cases,
}
use mathlib.Core.Path.{subst}
use distributed_hash_table.Heap.{Heap, occurrences, alloc, release, Holds}
use distributed_hash_table.Heap.Laws.{alloc-cases, alloc-malloc}
use distributed_hash_table.Hashtable as Values
use distributed_hash_table.Hashtable.{KvPair, Htable}
use distributed_hash_table.Projet02.Server as Server
use distributed_hash_table.Hashtable.Blocks.Owned.{forget_table, IsTidyTable}
use distributed_hash_table.Hashtable.Blocks.PairLists.{Listed}
use distributed_hash_table.Hashtable.Blocks.Listed.{get_htable_content-Listed}
use distributed_hash_table.Hashtable.Blocks.{Table}
use distributed_hash_table.Hashtable.Blocks.Content as Final
use distributed_hash_table.Hashtable.Blocks.Content.{PairList, kv_list_free, copy_pair}
use distributed_hash_table.Projet02.Hashtable.{get_htable_content}
use distributed_hash_table.Projet02.Hashtable.Twice.{again, get_htable_content-again}

-- The call on values, by what the final version answers.
values_get_htable_content :
    (t : Htable) (m m₁ : Memory)
    → ((list : List KvPair)
        → Values.get_htable_content t m ≡ ok (some list, m₁)
        → Server.get_htable_content t m ≡ ok (some list, m₁))
      × ((malloc m).0 ≡ false
          → Values.get_htable_content t m ≡ ok (none, m₁)
          → Server.get_htable_content t m ≡ ok (none, m₁))
      × ((malloc m).0 ≡ true
          → Values.get_htable_content t m ≡ ok (none, m₁)
          → Server.get_htable_content t m ≡ fault double_free)
unfolding Server.get_htable_content
values_get_htable_content t m m₁ = (
  λ list run. rw (Server.get_htable_content, run) refl,
  λ failed run. rw (Server.get_htable_content, run) (rw failed refl),
  λ got run. rw (Server.get_htable_content, run) (rw got refl),
)

-- A new block has an address of its own.
alloc-next : (h : Heap) (at : ℕ) → (alloc h).0 ≡ some at → at ≡ h.next
unfolding alloc
alloc-next h at got = elim (Bool-cases (malloc h.memory).0) [
  | inl taken ↦ let e = rw taken at got in sym (some-injective _ _ e)
  | inr failed ↦ let e = rw failed at got in absurd (cc)
]

release-double_free :
    (x : ℕ) (h : Heap) → occurrences x h.live ≡ 0 → release x h ≡ fault double_free
unfolding release
release-double_free x h gone = rw gone refl

-- How the call ends by the list that the final version makes, once the list's block is allocated.
ends_by_list :
    (t : Table) (h h₁ : Heap) (g : ℕ → ℕ) (at : ℕ) (list : Option PairList)
    → (malloc h.memory).0 ≡ true
    → g at ≡ 0
    → get_htable_content t h ≡ again at (list, h₁)
    → Listed (Values.get_htable_content (forget_table t) h.memory) g (list, h₁)
    → ((get_htable_content t h ≡ fault double_free)
        × (Server.get_htable_content (forget_table t) h.memory ≡ fault double_free))
      ⊎ Returns
          (get_htable_content t h)
          (Listed (Server.get_htable_content (forget_table t) h.memory) g)
ends_by_list t h h₁ g at none got free e s = inl (
  e ∙ rw (release-double_free at h₁ (omega (arith, s.owned at, free))) refl,
  (values_get_htable_content (forget_table t) h.memory h₁.memory).2 got s.agrees,
)
ends_by_list t h h₁ g at (some l) got free e s = inr (
  (some l, h₁),
  e,
  record {
    whole = s.whole;
    owned = s.owned;
    agrees = (values_get_htable_content (forget_table t) h.memory h₁.memory).0 _ s.agrees;
  },
)

-- How it ends when the list's own allocation fails.
ends_without :
    (t : Table) (h : Heap) (g : ℕ → ℕ) (r : Option PairList × Heap)
    → (alloc h).0 ≡ none
    → Final.get_htable_content t h ≡ ok r
    → Listed (Values.get_htable_content (forget_table t) h.memory) g r
    → Returns
        (get_htable_content t h)
        (Listed (Server.get_htable_content (forget_table t) h.memory) g)
unfolding get_htable_content Final.get_htable_content
ends_without t h g r failed e s =
    let stopped : Final.get_htable_content t h ≡ ok (none, (alloc h).1) =
      rw (Final.get_htable_content, failed) refl in
    let same : ◌≡◌ {A = Option PairList × Heap} (none, (alloc h).1) r =
      ok-injective _ _ (sym stopped ∙ e) in
    let s' = subst (Listed (Values.get_htable_content (forget_table t) h.memory) g) (sym same) s in
    (
      (none, (alloc h).1),
      rw (get_htable_content, failed) refl,
      record {
        whole = tt;
        owned = s'.owned;
        agrees =
            (values_get_htable_content (forget_table t) h.memory _).1
              (ap (λ m. m.0) (alloc-malloc h) ∙ rw failed refl) s'.agrees;
      },
    )

-- `get_Htable_content` of week 10, on a tidy table, where the next address is new: it frees the block of
-- the list twice exactly when the model on values says so, which is when the list's own allocation
-- succeeds and a later realloc fails; otherwise it ends, the list owns its blocks and nothing else is
-- allocated beside what was, and with the addresses forgotten it is the call on values.
pub get_htable_content-double_free :
    (t : Table) (h : Heap) (g : ℕ → ℕ)
    → IsTidyTable t
    → Holds h g
    → g h.next ≡ 0
    → ((get_htable_content t h ≡ fault double_free)
        × (Server.get_htable_content (forget_table t) h.memory ≡ fault double_free))
      ⊎ Returns
          (get_htable_content t h)
          (Listed (Server.get_htable_content (forget_table t) h.memory) g)
unfolding get_htable_content Final.get_htable_content
get_htable_content-double_free t h g tidy own new =
    let ((list, h₁), e, s) = get_htable_content-Listed t h g tidy own in
    elim (alloc-cases h g own) [
      | inl (failed, own₁) ↦ inr (ends_without t h g (list, h₁) failed e s)
      | inr (at, got, own₁) ↦
          ends_by_list t h h₁ g at list (ap (λ r. r.0) (alloc-malloc h) ∙ rw got refl)
            (ap g (alloc-next h at got) ∙ new) (get_htable_content-again t h at got ∙ rw e refl) s
    ]
