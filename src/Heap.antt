-- ===== src/Heap.antt =====
-- The heap that malloc, calloc, realloc and free work on, and `strdup` and `free_const_ptr` of
-- done/util.c and done/util.h with their blocks.
--
-- A block is named by its address. `live` lists the blocks that are allocated, `next` is the address of
-- the next one, so that no two blocks have one address, and `memory` holds the outcomes of the coming
-- calls of malloc.
pub mod Laws
use distributed_hash_table.Base.{
  ℕ, suc, ◌+◌, ◌≡◌, Bool, true, false, List, [], ◌∷◌, Option, none, some, Memory, malloc, Run, ok,
  fault, double_free, ◌>>=◌, ◌==◌, if◌then◌else◌,
}
use distributed_hash_table.CString.{Bytes, CharPointer}

pub record Heap : Type 0 where
  pub live : List ℕ
  pub next : ℕ
  pub memory : Memory

abbrev pub same : ℕ → ℕ → ℕ
same a x = if a == x then 1 else 0

-- How often an address stands in a list.
abbrev pub occurrences : ℕ → List ℕ → ℕ
occurrences a [] = 0
occurrences a (x ∷ l) = same a x + occurrences a l

abbrev pub remove : ℕ → List ℕ → List ℕ
remove x [] = []
remove x (y ∷ l) = if x == y then l else y ∷ remove x l

-- `malloc`, `calloc` and `realloc` of NULL: `none` is NULL.
unfoldable pub alloc : Heap → Option ℕ × Heap
alloc h =
    let (got, m) = malloc h.memory in
    if got
    then (some h.next, record { live = h.next ∷ h.live; next = suc h.next; memory = m })
    else (none, record h { memory = m })

-- `free` of a block.
unfoldable pub release : ℕ → Heap → Run Heap
release x h =
    if occurrences x h.live == 0
    then fault double_free
    else ok (record h { live = remove x h.live })

-- `realloc`: a new block in place of the old one, or NULL, and then the old one stays.
unfoldable pub realloc : Option ℕ → Heap → Run (Option ℕ × Heap)
realloc old h =
    let (at, h₁) = alloc h in
    elim at [
      | none ↦ ok (none, h₁)
      | some a ↦ elim old [
        | none ↦ ok (some a, h₁)
        | some o ↦ release o h₁ >>= λ h₂. ok (some a, h₂)
      ]
    ]

-- How often an owner of the pointer to a block owns the address.
abbrev pub owns : ℕ → Option ℕ → ℕ
owns a none = 0
owns a (some at) = same a at

-- A `char *` that owns its string: the block, and the string in it.
abbrev pub Held : Type 0
Held = Option (ℕ × Bytes)

-- The string alone.
abbrev pub text : Held → CharPointer
text none = none
text (some (at, s)) = some s

-- How often an owner of the pointer owns the address.
abbrev pub held : ℕ → Held → ℕ
held a none = 0
held a (some (at, s)) = same a at

abbrev hold : Option ℕ → Bytes → Held
hold none s = none
hold (some at) s = some (at, s)

-- `strdup`.
unfoldable pub duplicate : CharPointer → Heap → Held × Heap
duplicate none h = (none, h)
duplicate (some s) h = let (at, h') = alloc h in (hold at s, h')

-- `free_const_ptr`; `free` does nothing for NULL.
unfoldable pub free_const_ptr : Held → Heap → Run Heap
free_const_ptr none h = ok h
free_const_ptr (some (at, s)) h = release at h

-- The blocks that are allocated, each address as often as `owned` says.
abbrev pub Holds : Heap → (ℕ → ℕ) → Type 0
Holds h owned = (a : ℕ) → occurrences a h.live ≡ owned a
