-- ===== src/CString.antt =====
-- Byte strings, the functions of <string.h> that the program calls, and `strdup` and `argv_size` of
-- done/util.c. A byte is its value as `unsigned char`. A C string is given by its bytes before the
-- NUL, a pointer to one by an option whose `none` is NULL, and a buffer by all its bytes.
pub mod Laws
use Prim.Native.Nat.{compare, Ordering}
use distributed_hash_table.Base.{
  ℕ, zero, suc, ◌<◌, Bool, true, false, List, [], ◌∷◌, Option, none, some, Memory, malloc, length,
  All, ◌==◌, if◌then◌else◌,
}

abbrev pub Bytes : Type 0
Bytes = List ℕ

-- `char *`.
abbrev pub CharPointer : Type 0
CharPointer = Option Bytes

-- No byte of the list is NUL, so that the list is a whole C string.
abbrev pub IsText : Bytes → Type 0
IsText s = All (λ c. 0 < c) s

-- The C string that starts a buffer: `strlen` of the buffer is its length.
unfoldable pub text_at : Bytes → Bytes
text_at [] = []
text_at (c ∷ s) = if c == 0 then [] else c ∷ text_at s

-- `memchr(s, '\0', n)` over the n bytes given; the pointer found is the rest of the buffer from it.
unfoldable pub find_nul : Bytes → Option Bytes
find_nul [] = none
find_nul (c ∷ s) = if c == 0 then some (c ∷ s) else find_nul s

-- The sign of `strcmp`.
unfoldable pub strcmp : Bytes → Bytes → Ordering
strcmp [] [] = Ordering.eq
strcmp [] (y ∷ t) = Ordering.lt
strcmp (x ∷ s) [] = Ordering.gt
strcmp (x ∷ s) (y ∷ t) = elim (compare x y) [
  | Ordering.eq ↦ strcmp s t
  | Ordering.lt ↦ Ordering.lt
  | Ordering.gt ↦ Ordering.gt
]

abbrev pub is_eq : Ordering → Bool
is_eq Ordering.eq = true
is_eq _ = false

-- `strcmp(s, t) == 0`.
unfoldable pub str_eq : Bytes → Bytes → Bool
unfolding strcmp
str_eq s t = is_eq (strcmp s t)

-- The sign of `strncmp` over arrays of n bytes: it stops at a difference, at a NUL, or at the end.
unfoldable pub strncmp : ℕ → Bytes → Bytes → Ordering
strncmp zero s t = Ordering.eq
strncmp (suc n) [] [] = Ordering.eq
strncmp (suc n) [] (y ∷ t) = if y == 0 then Ordering.eq else Ordering.lt
strncmp (suc n) (x ∷ s) [] = if x == 0 then Ordering.eq else Ordering.gt
strncmp (suc n) (x ∷ s) (y ∷ t) = elim (compare x y) [
  | Ordering.eq ↦ if x == 0 then Ordering.eq else strncmp n s t
  | Ordering.lt ↦ Ordering.lt
  | Ordering.gt ↦ Ordering.gt
]

-- The sign of `memcmp` over arrays of one length.
unfoldable pub memcmp : Bytes → Bytes → Ordering
unfolding strcmp
memcmp s t = strcmp s t

-- `strdup` of done/util.c: NULL for NULL, and NULL when malloc fails.
unfoldable pub strdup : CharPointer → Memory → CharPointer × Memory
strdup none m = (none, m)
strdup (some s) m = let (got, m') = malloc m in (if got then some s else none, m')

-- `argv_size` of done/util.c: the arguments before the NULL, which ends the list here.
abbrev pub argv_size : List Bytes → ℕ
argv_size [] = 0
argv_size (a ∷ rest) = suc (argv_size rest)
