-- ===== src/Heap/Laws.antt =====
-- What an allocation and a release do to the blocks that are allocated.
use distributed_hash_table.Base.{
  ℕ, ◌+◌, ◌≡◌, ◌≢◌, refl, ◌⊎◌, inl, inr, true, false, List, [], ◌∷◌, Option, none, some, malloc, ok,
  Returns, arith, Bool-cases, Option-cases,
}
use distributed_hash_table.CString.{CharPointer, strdup}
use distributed_hash_table.Heap.{
  Heap, same, occurrences, remove, alloc, release, realloc, owns, Held, text, held, duplicate,
  free_const_ptr, Holds,
}

occurrences-remove :
    (a x : ℕ) (l : List ℕ)
    → occurrences x l ≢ 0
    → same a x + occurrences a (remove x l) ≡ occurrences a l
occurrences-remove a x [] h = absurd (h refl)
occurrences-remove a x (y ∷ l) h = ground (arith, occurrences-remove a x l)

-- An allocation returns NULL, or a block more is allocated.
pub alloc-cases :
    (h : Heap) (g : ℕ → ℕ)
    → Holds h g
    → (((alloc h).0 ≡ none) × Holds (alloc h).1 g)
      ⊎ ((at : ℕ) × ((alloc h).0 ≡ some at) × Holds (alloc h).1 (λ a. same a at + g a))
unfolding alloc
alloc-cases h g own = elim (Bool-cases (malloc h.memory).0) [
  | inl got ↦ inr (h.next, rw got refl, λ a. rw got (omega (arith, own a)))
  | inr failed ↦ inl (rw failed refl, λ a. rw failed (own a))
]

-- An allocation succeeds when malloc does.
pub alloc-malloc :
    (h : Heap)
    → malloc h.memory ≡ (elim (alloc h).0 [ none ↦ false | some at ↦ true ], (alloc h).1.memory)
unfolding alloc
alloc-malloc h = ground arith

pub release-Holds :
    (x : ℕ) (h : Heap) (g : ℕ → ℕ)
    → Holds h (λ a. same a x + g a)
    → Returns (release x h) (λ h'. Holds h' g × (h'.memory ≡ h.memory))
unfolding release
release-Holds x h g own = (
  record h { live = remove x h.live },
  ground (arith, own x),
  (λ a. ground (arith, own a, own x, occurrences-remove a x h.live), refl),
)

pub free_const_ptr-Holds :
    (p : Held) (h : Heap) (g : ℕ → ℕ)
    → Holds h (λ a. held a p + g a)
    → Returns (free_const_ptr p h) (λ h'. Holds h' g × (h'.memory ≡ h.memory))
unfolding free_const_ptr
free_const_ptr-Holds none h g own = (h, refl, ((λ a. omega (arith, own a)), refl))
free_const_ptr-Holds (some (at, s)) h g own = release-Holds at h g own

pub duplicate-Holds :
    (s : CharPointer) (h : Heap) (g : ℕ → ℕ)
    → Holds h g
    → Holds (duplicate s h).1 (λ a. held a (duplicate s h).0 + g a)
unfolding duplicate alloc
duplicate-Holds none h g own a = omega (arith, own a)
duplicate-Holds (some s) h g own a = ground (arith, own a)

-- The copy is the one that `strdup` makes when only the strings are looked at.
pub duplicate-strdup :
    (s : CharPointer) (h : Heap)
    → strdup s h.memory ≡ (text (duplicate s h).0, (duplicate s h).1.memory)
unfolding duplicate alloc strdup
duplicate-strdup none h = refl
duplicate-strdup (some s) h = ground arith

-- `realloc` returns NULL and keeps the old block, or returns the only block of the two.
pub realloc-cases :
    (old : Option ℕ) (h : Heap) (g : ℕ → ℕ)
    → Holds h (λ a. owns a old + g a)
    → ((h' : Heap) × (realloc old h ≡ ok (none, h'))
        × Holds h' (λ a. owns a old + g a)
        × (malloc h.memory ≡ (false, h'.memory)))
      ⊎ ((at : ℕ) × (h' : Heap) × (realloc old h ≡ ok (some at, h'))
          × Holds h' (λ a. same a at + g a)
          × (malloc h.memory ≡ (true, h'.memory)))
unfolding realloc
realloc-cases old h g own = elim (alloc-cases h (λ a. owns a old + g a) own) [
  | inl (failed, own₁) ↦
      inl ((alloc h).1, rw (realloc, failed) refl, own₁, rw failed at (alloc-malloc h))
  | inr (at, got, own₁) ↦ elim (Option-cases old) [
    | inl nothing ↦ inr (
      at,
      (alloc h).1,
      rw (realloc, got, nothing) refl,
      (λ a. omega (arith, rw nothing at (own₁ a))),
      rw got at (alloc-malloc h),
    )
    | inr (o, here) ↦
        let (h₂, e, (own₂, m₂)) =
          release-Holds o (alloc h).1 (λ a. same a at + g a)
            (λ a. omega (arith, rw here at (own₁ a))) in
        inr (at, h₂, rw (realloc, got, here, e) refl, own₂, rw m₂ (rw got at (alloc-malloc h)))
  ]
]
