-- ===== src/CString/Laws.antt =====
-- What the string functions compute.
use mathlib.Core.Logic.{◌↔◌}
use distributed_hash_table.Base.{◌≡◌, ◌≢◌, refl, true, false, [], ◌∷◌, ◌++◌, some, none, arith}
use distributed_hash_table.CString.{Bytes, IsText, text_at, find_nul, str_eq}

-- `strcmp` answers 0 exactly on equal strings.
pub str_eq_iff : (s t : Bytes) → (str_eq s t ≡ true) ↔ (s ≡ t)
unfolding str_eq
str_eq_iff [] [] = ground arith
str_eq_iff [] (y ∷ t) = ground arith
str_eq_iff (x ∷ s) [] = ground arith
str_eq_iff (x ∷ s) (y ∷ t) = ground (arith, str_eq_iff s t)

pub str_eq_refl : (s : Bytes) → str_eq s s ≡ true
str_eq_refl s = (str_eq_iff s s).1 refl

pub str_eq_symm : (s t : Bytes) → str_eq s t ≡ str_eq t s
str_eq_symm s t = ground (arith, str_eq_iff s t, str_eq_iff t s)

pub str_eq_ne : (s t : Bytes) → s ≢ t → str_eq s t ≡ false
str_eq_ne s t h = ground (arith, str_eq_iff s t)

-- A string followed by a NUL is read back whole.
pub text_at-append : (s rest : Bytes) → IsText s → text_at (s ++ 0 ∷ rest) ≡ s
unfolding text_at
text_at-append [] rest h = refl
text_at-append (c ∷ s) rest h = ground (arith, text_at-append s rest h.1)

pub text_at_text : (s : Bytes) → IsText s → text_at s ≡ s
unfolding text_at
text_at_text [] h = refl
text_at_text (c ∷ s) h = ground (arith, text_at_text s h.1)

pub text_at-IsText : (s : Bytes) → IsText (text_at s)
unfolding text_at
text_at-IsText [] = tt
text_at-IsText (c ∷ s) = ground (arith, text_at-IsText s)

pub find_nul-append : (s rest : Bytes) → IsText s → find_nul (s ++ 0 ∷ rest) ≡ some (0 ∷ rest)
unfolding find_nul
find_nul-append [] rest h = refl
find_nul-append (c ∷ s) rest h = ground (arith, find_nul-append s rest h.1)

pub find_nul_text : (s : Bytes) → IsText s → find_nul s ≡ none
unfolding find_nul
find_nul_text [] h = refl
find_nul_text (c ∷ s) h = ground (arith, find_nul_text s h.1)
