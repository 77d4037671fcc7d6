-- ===== src/Base/Faults.antt =====
-- A run of C code ends normally in a value, or in a fault: undefined behaviour that the code
-- reaches, or a loop that is still running when its fuel is used up (`no_end`).
-- Allocations: `Memory` holds the outcomes of the coming calls of malloc, calloc and realloc, in
-- order; past its end they all succeed.
use mathlib.Core.Path.{◌≡◌, refl}
use mathlib.Core.Logic.{◌⊎◌, inl, inr}
use mathlib.Core.Bool.{Bool, true}
use mathlib.Core.List.{List, [], ◌∷◌}

pub data Fault : Type 0 where
  null_pointer bad_pointer double_free out_of_bounds division_by_zero no_end : Fault

pub data Run {ℓ} (A : Type ℓ) : Type ℓ where
  ok : A → Run A
  fault : Fault → Run A

abbrev pub Memory : Type 0
Memory = List Bool

abbrev pub malloc : Memory → Bool × Memory
malloc [] = (true, [])
malloc (b ∷ m) = (b, m)

-- A pointer to one object: NULL, uninitialised, to an object that is alive, or to one that was freed.
pub data Pointer {ℓ} (A : Type ℓ) : Type ℓ where
  nil wild freed : Pointer A
  live : A → Pointer A

infixl 5 ◌>>=◌
abbrev pub ◌>>=◌ {ℓ κ} : {X : Type ℓ} {Y : Type κ} → Run X → (X → Run Y) → Run Y
fault why >>= next = fault why
ok x >>= next = next x

abbrev pub deref {ℓ} : {A : Type ℓ} → Pointer A → Run A
deref nil = fault null_pointer
deref wild = fault bad_pointer
deref freed = fault bad_pointer
deref (live a) = ok a

-- `free`, with what becomes of the pointer.
abbrev pub free {ℓ} : {A : Type ℓ} → Pointer A → Run (Pointer A)
free nil = ok nil
free wild = fault bad_pointer
free freed = fault double_free
free (live a) = ok freed

-- The run ends normally, in a value that satisfies `P`.
abbrev pub Returns {ℓ κ} : {X : Type ℓ} → Run X → (X → Type κ) → Type (ℓ ⊔ κ)
Returns {X} run P = (x : X) × (run ≡ ok x) × P x

pub Run-cases {ℓ} :
    {A : Type ℓ} (run : Run A) → ((a : A) × (run ≡ ok a)) ⊎ ((why : Fault) × (run ≡ fault why))
Run-cases (ok a) = inl (a, refl)
Run-cases (fault why) = inr (why, refl)

pub ok-of_bind {ℓ κ} :
    {A : Type ℓ} {B : Type κ} (run : Run A) (next : A → Run B) (b : B)
    → (run >>= next) ≡ ok b
    → (a : A) × (run ≡ ok a)
ok-of_bind (ok a) next b e = (a, refl)
ok-of_bind (fault why) next b e = absurd (cc)

pub ok-injective {ℓ} : {A : Type ℓ} (a b : A) → ok a ≡ ok b → a ≡ b
ok-injective a b e = cc
