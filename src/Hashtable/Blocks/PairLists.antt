-- ===== src/Hashtable/Blocks/PairLists.antt =====
-- The list of the pairs of a table: what it owns, and what `kv_list_free` frees.
use distributed_hash_table.Base.{
  ℕ, ◌+◌, ◌≡◌, refl, ap, ◌∙◌, inl, inr, List, [], ◌∷◌, ◌++◌, Option, none, some, Memory, Run, ok,
  Returns, arith, map, Option-cases,
}
use distributed_hash_table.Heap.{Heap, same, owns, text, Holds}
use distributed_hash_table.Heap.Laws.{release-Holds}
use distributed_hash_table.Hashtable.{KvPair}
use distributed_hash_table.Hashtable.Blocks.{Pair}
use distributed_hash_table.Hashtable.Blocks.Owned.{of_pair}
use distributed_hash_table.Hashtable.Blocks.Store.{kv_pair_free-Holds}
use distributed_hash_table.Hashtable.Blocks.Free.{Left}
use distributed_hash_table.Hashtable.Blocks.Content.{PairList, free_pairs, kv_list_free}

-- How often the pairs, and the whole list, own an address.
abbrev pub of_pairs : ℕ → List Pair → ℕ
of_pairs a [] = 0
of_pairs a (kv ∷ rest) = of_pair a kv + of_pairs a rest

abbrev pub of_list : ℕ → Option PairList → ℕ
of_list a none = 0
of_list a (some l) = same a l.at + (owns a l.array + of_pairs a l.pairs)

-- The pairs and the list with their addresses forgotten.
abbrev pub forget_pair : Pair → KvPair
forget_pair kv = record { key = text kv.key; value = text kv.value }

abbrev pub forget_list : Option PairList → Option (List KvPair)
forget_list none = none
forget_list (some l) = some (map forget_pair l.pairs)

-- A list without an array has no pairs.
abbrev pub IsList : Option PairList → Type 0
IsList none = Unit
IsList (some l) = (l.array ≡ none → l.pairs ≡ [])

pub of_pairs-append :
    (a : ℕ) (l : List Pair) (kv : Pair) → of_pairs a (l ++ kv ∷ []) ≡ of_pair a kv + of_pairs a l
of_pairs-append a [] kv = refl
of_pairs-append a (p ∷ l) kv = omega (arith, of_pairs-append a l kv)

pub map-append :
    (l : List Pair) (kv : Pair)
    → map forget_pair (l ++ kv ∷ []) ≡ map forget_pair l ++ forget_pair kv ∷ []
map-append [] kv = refl
map-append (p ∷ l) kv = ap (λ r. forget_pair p ∷ r) (map-append l kv)

free_pairs-Left :
    (l : List Pair) (h : Heap) (g : ℕ → ℕ)
    → Holds h (λ a. of_pairs a l + g a)
    → Returns (free_pairs l h) (Left g h.memory)
unfolding free_pairs
free_pairs-Left [] h g own = (h, refl, ((λ a. omega (arith, own a)), refl))
free_pairs-Left (kv ∷ l) h g own =
    let ((kv', h₁), e₁, (_, own₁, m₁)) =
      kv_pair_free-Holds kv h (λ a. of_pairs a l + g a) (λ a. omega (arith, own a)) in
    let (h₂, e₂, (own₂, m₂)) = free_pairs-Left l h₁ g own₁ in
    (h₂, simp (free_pairs, e₁, e₂), (own₂, m₂ ∙ m₁))

-- `kv_list_free` frees the blocks of the list, each of them once, and no other block.
pub kv_list_free-Left :
    (l : Option PairList) (h : Heap) (g : ℕ → ℕ)
    → IsList l
    → Holds h (λ a. of_list a l + g a)
    → Returns (kv_list_free l h) (Left g h.memory)
unfolding kv_list_free
kv_list_free-Left none h g is own = (h, refl, ((λ a. omega (arith, own a)), refl))
kv_list_free-Left (some l) h g is own = elim (Option-cases l.array) [
  | inl missing ↦
      let (h₁, e₁, left) =
        release-Holds l.at h g (λ a. omega (arith, rw (missing, is missing) at (own a))) in
      (h₁, simp (kv_list_free, missing, e₁), left)
  | inr (array, here) ↦
      let (h₁, e₁, (own₁, m₁)) =
        free_pairs-Left l.pairs h (λ a. same a array + (same a l.at + g a))
          (λ a. omega (arith, rw here at (own a))) in
      let (h₂, e₂, (own₂, m₂)) = release-Holds array h₁ (λ a. same a l.at + g a) own₁ in
      let (h₃, e₃, (own₃, m₃)) = release-Holds l.at h₂ g own₂ in
      (h₃, simp (kv_list_free, here, e₁, e₂, e₃), (own₃, m₃ ∙ (m₂ ∙ m₁)))
]

-- What a loop that makes the list ends in: the list, or NULL with everything freed, and the run on
-- values.
pub record Listed (run : Run (Option (List KvPair) × Memory)) (g : ℕ → ℕ)
    (r : Option PairList × Heap) : Type 0 where
  pub whole : IsList r.0
  pub owned : Holds r.1 (λ a. of_list a r.0 + g a)
  pub agrees : run ≡ ok (forget_list r.0, r.1.memory)
