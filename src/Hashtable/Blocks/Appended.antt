-- ===== src/Hashtable/Blocks/Appended.antt =====
-- The `while` loop of `get_Htable_content` with its blocks.
use distributed_hash_table.Base.{
  ℕ, ◌+◌, ◌≡◌, refl, ap, ◌∙◌, ◌⊎◌, inl, inr, true, false, List, [], ◌∷◌, ◌++◌, none, some, Memory,
  malloc, ok, Returns, arith, map, Option-cases,
}
use distributed_hash_table.CString.{Bytes, CharPointer, strdup}
use distributed_hash_table.Heap.{Heap, same, text, held, duplicate, Holds}
use distributed_hash_table.Heap.Laws.{realloc-cases, duplicate-Holds, duplicate-strdup}
use distributed_hash_table.Hashtable as Values
use distributed_hash_table.Hashtable.{KvPair, Bucket, bucket, Htable}
use distributed_hash_table.Hashtable.Blocks.{Pair, Chain, last, link}
use distributed_hash_table.Hashtable.Blocks.Owned.{forget, IsTidy}
use distributed_hash_table.Hashtable.Blocks.Content.{
  PairList, copy_pair, stored, append_pair, content_of_chain,
}
use distributed_hash_table.Hashtable.Blocks.PairLists.{
  of_pairs, of_list, forget_pair, IsList, of_pairs-append, map-append, kv_list_free-Left, Listed,
}

-- `copy_pair` on values, by its two copies.
values_copied :
    (kv : KvPair) (k v : CharPointer) (m m₁ m₂ : Memory)
    → strdup kv.key m ≡ (k, m₁)
    → strdup kv.value m₁ ≡ (v, m₂)
    → Values.copy_pair kv m ≡ (record { key = k; value = v }, m₂)
unfolding Values.copy_pair
values_copied kv k v m m₁ m₂ ek ev =
    rw (← ap (λ r. r.0) ev, ← ap (λ r. r.1) ev, ← ap (λ r. r.0) ek, ← ap (λ r. r.1) ek) refl

-- What one pass ends in, with the outcome of its realloc.
record Appended (kv : Pair) (l : PairList) (m : Memory) (g : ℕ → ℕ) (l' : PairList) (h' : Heap)
    : Type 0 where
  whole : IsList (some l')
  owned : Holds h' (λ a. of_list a (some l') + g a)
  rest : Memory
  got : malloc m ≡ (true, rest)
  copy : KvPair
  copied : Values.copy_pair (forget_pair kv) rest ≡ (copy, h'.memory)
  longer : map forget_pair l'.pairs ≡ map forget_pair l.pairs ++ copy ∷ []

append_pair-cases :
    (kv : Pair) (l : PairList) (h : Heap) (g : ℕ → ℕ)
    → IsList (some l)
    → Holds h (λ a. of_list a (some l) + g a)
    → ((h' : Heap) × (append_pair kv l h ≡ ok (none, h'))
        × Holds h' g
        × (malloc h.memory ≡ (false, h'.memory)))
      ⊎ ((l' : PairList) × (h' : Heap) × (append_pair kv l h ≡ ok (some l', h'))
          × Appended kv l h.memory g l' h')
unfolding append_pair stored copy_pair
append_pair-cases kv l h g is own =
    elim (realloc-cases l.array h (λ a. same a l.at + (of_pairs a l.pairs + g a))
      (λ a. omega (arith, own a))) [
        | inl (h₁, e₁, own₁, failed) ↦
            let (h₂, e₂, (own₂, m₂)) =
              kv_list_free-Left (some l) h₁ g is (λ a. omega (arith, own₁ a)) in
            inl (h₂, simp (append_pair, e₁, stored, e₂), own₂, rw m₂ failed)
        | inr (at, h₁, e₁, own₁, got) ↦
            let (k, h₂) = duplicate (text kv.key) h₁ in
            let (v, h₃) = duplicate (text kv.value) h₂ in
            let copy : Pair = record { key = k; value = v } in
            let own₂ =
              duplicate-Holds (text kv.key) h₁
                (λ a. same a at + (same a l.at + (of_pairs a l.pairs + g a))) own₁ in
            let own₃ =
              duplicate-Holds (text kv.value) h₂
                (λ a. held a k + (same a at + (same a l.at + (of_pairs a l.pairs + g a)))) own₂ in
            inr (
              record l { array = some at; pairs = l.pairs ++ copy ∷ [] },
              h₃,
              simp (append_pair, e₁, stored, copy_pair),
              record {
                whole = λ e. cc;
                owned = λ a. omega (arith, own₃ a, of_pairs-append a l.pairs copy);
                rest = h₁.memory;
                got = got;
                copy = forget_pair copy;
                copied =
                    values_copied (forget_pair kv) _ _ h₁.memory h₂.memory h₃.memory
                      (duplicate-strdup (text kv.key) h₁) (duplicate-strdup (text kv.value) h₂);
                longer = map-append l.pairs copy;
              },
            )
      ]

-- One bucket on values, by the outcome of its realloc.
module _ (kv : Pair) (at : ℕ) (k : Bytes) (b : Bucket) (pairs : List KvPair) (m m₁ : Memory)
    (here : kv.key ≡ some (at, k)) where
  values_failed :
      malloc m ≡ (false, m₁)
      → Values.content_of_chain (bucket (text kv.key) (text kv.value) b) pairs m ≡ ok (none, m₁)
  unfolding Values.content_of_chain
  values_failed failed = rw (here, Values.content_of_chain, failed) refl

  values_copied_pair :
      (copy : KvPair) (m₂ : Memory)
      → malloc m ≡ (true, m₁)
      → Values.copy_pair (forget_pair kv) m₁ ≡ (copy, m₂)
      → Values.content_of_chain (bucket (text kv.key) (text kv.value) b) pairs m
        ≡ Values.content_of_chain b (pairs ++ copy ∷ []) m₂
  unfolding Values.content_of_chain
  values_copied_pair copy m₂ got copied =
      rw (here, Values.content_of_chain, got)
        (rw (← ap (λ r. r.0) copied, ← ap (λ r. r.1) copied) (rw here refl))

pub content_of_chain-Listed :
    (b : Chain) (l : PairList) (h : Heap) (g : ℕ → ℕ)
    → IsTidy b
    → IsList (some l)
    → Holds h (λ a. of_list a (some l) + g a)
    → Returns
        (content_of_chain b l h)
        (Listed (Values.content_of_chain (forget b) (map forget_pair l.pairs) h.memory) g)
unfolding content_of_chain Values.content_of_chain
content_of_chain-Listed (last kv) l h g tidy is own = (
  (some l, h),
  simp (content_of_chain, tidy.0),
  record { whole = is; owned = own; agrees = rw tidy.0 refl },
)
content_of_chain-Listed (link kv next tail) l h g (key, value, tidy) is own =
    elim (Option-cases kv.key) [
      | inl missing ↦ absurd (key missing)
      | inr ((at, k), here) ↦ elim (append_pair-cases kv l h g is own) [
        | inl (h₁, e₁, own₁, failed) ↦ (
          (none, h₁),
          simp (content_of_chain, here, e₁),
          record {
            whole = tt;
            owned = λ a. omega (arith, own₁ a);
            agrees =
                values_failed kv at k (forget tail) (map forget_pair l.pairs) h.memory h₁.memory
                  here failed;
          },
        )
        | inr (l₁, h₁, e₁, w) ↦
            let (r, e, s) = content_of_chain-Listed tail l₁ h₁ g tidy w.whole w.owned in
            (
              r,
              simp (content_of_chain, here, e₁, e),
              record {
                whole = s.whole;
                owned = s.owned;
                agrees =
                    values_copied_pair kv at k (forget tail) (map forget_pair l.pairs) h.memory
                      w.rest here w.copy h₁.memory w.got w.copied
                    ∙ rw (← w.longer) s.agrees;
              },
            )
      ]
    ]
