-- ===== src/Projet02/Hashtable/Twice.antt =====
-- The list of pairs in week 10 and in the final version: the same, but for what follows a failed realloc.
use distributed_hash_table.Base.{
  ℕ, zero, suc, ◌≡◌, refl, inl, inr, List, [], Option, none, some, Run, ok, fault, null_pointer,
  ◌>>=◌, ◌==◌, Option-cases, Bool-cases,
}
use mathlib.Core.Path.{subst}
use distributed_hash_table.Heap.{Heap, alloc, realloc, release}
use distributed_hash_table.Hashtable.Blocks.{Pair, Chain, last, link, Table, bucket_at}
use distributed_hash_table.Hashtable.Blocks.Content as Final
use distributed_hash_table.Hashtable.Blocks.Content.{PairList, kv_list_free, copy_pair}
use distributed_hash_table.Projet02.Hashtable.{
  stored, append_pair, content_of_chain, content_loop, get_htable_content,
}

-- What follows a result of the final version: a list is returned, and without one the block is freed again.
abbrev pub again : ℕ → Option PairList × Heap → Run (Option PairList × Heap)
again at (none, h) = release at h >>= λ h'. ok (none, h')
again at (some l, h) = ok (some l, h)

-- The list of a run stays in its block.
abbrev IsAt : ℕ → Run (Option PairList × Heap) → Type 0
IsAt at (fault why) = Unit
IsAt at (ok (none, h)) = Unit
IsAt at (ok (some l, h)) = l.at ≡ at

-- A part that both versions share, before parts of which the one is the other and `again`.
bind-again {ℓ} :
    {A : Type ℓ} (at : ℕ) (run : Run A) (old final : A → Run (Option PairList × Heap))
    → ((a : A) → (old a ≡ (final a >>= again at)) × IsAt at (final a))
    → ((run >>= old) ≡ (run >>= final >>= again at)) × IsAt at (run >>= final)
bind-again at (fault why) old final h = (refl, tt)
bind-again at (ok a) old final h = h a

-- What follows a pass: without a list the run stops.
abbrev passed :
    (PairList → Heap → Run (Option PairList × Heap))
    → Option PairList × Heap
    → Run (Option PairList × Heap)
passed go r = elim r.0 [ none ↦ ok (none, r.1) | some l ↦ go l r.1 ]

release-again :
    (run : Run Heap) (go : PairList → Heap → Run (Option PairList × Heap))
    → (run >>= (λ h. ok (none, h)) >>= passed go) ≡ (run >>= λ h. ok (none, h))
release-again (fault why) go = refl
release-again (ok h) go = refl

then-again :
    (at : ℕ) (old final : Run (Option PairList × Heap))
    (go_old go_final : PairList → Heap → Run (Option PairList × Heap))
    → (old ≡ (final >>= again at)) × IsAt at final
    → ((l : PairList) (h : Heap)
        → l.at ≡ at
        → (go_old l h ≡ (go_final l h >>= again at)) × IsAt at (go_final l h))
    → ((old >>= passed go_old) ≡ (final >>= passed go_final >>= again at))
      × IsAt at (final >>= passed go_final)
then-again at old (fault why) go_old go_final (e, is) go = (rw e refl, tt)
then-again at old (ok (none, h)) go_old go_final (e, is) go =
    (rw e (release-again (release at h) go_old), tt)
then-again at old (ok (some l, h)) go_old go_final (e, is) go = rw e (go l h is)

stored-again :
    (kv : Pair) (l : PairList) (array : Option ℕ) (h : Heap)
    → (stored kv l array h ≡ (Final.stored kv l array h >>= again l.at))
      × IsAt l.at (Final.stored kv l array h)
unfolding stored Final.stored
stored-again kv l none h =
    bind-again l.at (kv_list_free (some l) h) (λ h₂. release l.at h₂ >>= λ h₃. ok (none, h₃))
      (λ h₂. ok (none, h₂)) (λ h₂. (refl, tt))
stored-again kv l (some array) h = (refl, refl)

append_pair-again :
    (kv : Pair) (l : PairList) (h : Heap)
    → (append_pair kv l h ≡ (Final.append_pair kv l h >>= again l.at))
      × IsAt l.at (Final.append_pair kv l h)
unfolding append_pair Final.append_pair
append_pair-again kv l h =
    bind-again l.at (realloc l.array h) (λ (array, h₁). stored kv l array h₁)
      (λ (array, h₁). Final.stored kv l array h₁) (λ (array, h₁). stored-again kv l array h₁)

-- The rest of a chain, for a list that is in its block.
moved :
    (old final : PairList → Heap → Run (Option PairList × Heap))
    → ((l : PairList) (h : Heap) → (old l h ≡ (final l h >>= again l.at)) × IsAt l.at (final l h))
    → (at : ℕ) (l : PairList) (h : Heap) → l.at ≡ at
    → (old l h ≡ (final l h >>= again at)) × IsAt at (final l h)
moved old final same at l h here =
    subst (λ a. (old l h ≡ (final l h >>= again a)) × IsAt a (final l h)) here (same l h)

content_of_chain-again :
    (b : Chain) (l : PairList) (h : Heap)
    → (content_of_chain b l h ≡ (Final.content_of_chain b l h >>= again l.at))
      × IsAt l.at (Final.content_of_chain b l h)
unfolding content_of_chain Final.content_of_chain
content_of_chain-again (last kv) l h = elim (Option-cases kv.key) [
  | inl missing ↦ rw missing (refl, refl)
  | inr (k, here) ↦ rw here (
      then-again l.at (append_pair kv l h) (Final.append_pair kv l h) (λ l₁ h₁. fault null_pointer)
        (λ l₁ h₁. fault null_pointer) (append_pair-again kv l h) (λ l₁ h₁ at. (refl, tt)))
]
content_of_chain-again (link kv next tail) l h = elim (Option-cases kv.key) [
  | inl missing ↦ rw missing (refl, refl)
  | inr (k, here) ↦ rw here (
      then-again l.at (append_pair kv l h) (Final.append_pair kv l h) (content_of_chain tail)
        (Final.content_of_chain tail) (append_pair-again kv l h)
        (moved (content_of_chain tail) (Final.content_of_chain tail) (content_of_chain-again tail)
          l.at))
]

content_loop-again :
    (n i : ℕ) (bs : List Chain) (l : PairList) (h : Heap)
    → (content_loop n i bs l h ≡ (Final.content_loop n i bs l h >>= again l.at))
      × IsAt l.at (Final.content_loop n i bs l h)
unfolding content_loop Final.content_loop
content_loop-again zero i bs l h = (refl, refl)
content_loop-again (suc n) i bs l h = bind-again l.at (bucket_at bs i) _ _ (λ b.
    then-again l.at (content_of_chain b l h) (Final.content_of_chain b l h)
      (content_loop n (suc i) bs) (Final.content_loop n (suc i) bs) (content_of_chain-again b l h)
      (moved (content_loop n (suc i) bs) (Final.content_loop n (suc i) bs)
        (content_loop-again n (suc i) bs) l.at))

pub get_htable_content-again :
    (t : Table) (h : Heap) (at : ℕ)
    → (alloc h).0 ≡ some at
    → get_htable_content t h ≡ (Final.get_htable_content t h >>= again at)
unfolding get_htable_content Final.get_htable_content
get_htable_content-again t h at got = elim (Option-cases t.buckets) [
  | inl missing ↦ elim (Bool-cases (t.size == 0)) [
    | inl empty ↦ rw (get_htable_content, Final.get_htable_content, got, missing, empty) refl
    | inr other ↦ rw (get_htable_content, Final.get_htable_content, got, missing, other) refl
  ]
  | inr ((array, bs), here) ↦
      rw (get_htable_content, Final.get_htable_content, got, here)
        (content_loop-again t.size 0 bs (record { at = at; array = none; pairs = [] })
          (alloc h).1).0
]
