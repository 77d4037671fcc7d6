-- ===== src/Scan.antt =====
-- `sscanf` with "%d" and "%ld", as the program calls it: white space, a sign, and decimal digits. C
-- leaves values out of the type's range undefined; here a number is not bounded.
use distributed_hash_table.Base.{
  ℕ, zero, suc, ◌+◌, ◌-◌, ◌*◌, Bool, [], ◌∷◌, Option, none, some, leb, ◌==◌, if◌then◌else◌, ◌&&◌,
  ◌||◌,
}
use distributed_hash_table.CString.{Bytes}

-- `negsuc n` is -(n + 1).
pub data ℤ : Type 0 where
  pos : ℕ → ℤ
  negsuc : ℕ → ℤ

abbrev pub is_digit : ℕ → Bool
is_digit c = leb 48 c && leb c 57

abbrev pub is_space : ℕ → Bool
is_space c = c == 32 || leb 9 c && leb c 13

-- The number that the digits at the front add to what is read.
unfoldable pub digits_value : ℕ → Bytes → ℕ
digits_value read [] = read
digits_value read (c ∷ s) =
    let more = digits_value (read * 10 + (c - 48)) s in if is_digit c then more else read

unfoldable pub scan_ℕ : Bytes → Option ℕ
unfolding digits_value
scan_ℕ [] = none
scan_ℕ (c ∷ s) = if is_digit c then some (digits_value 0 (c ∷ s)) else none

abbrev pub negative : ℕ → ℤ
negative zero = pos 0
negative (suc n) = negsuc n

abbrev pub option_map {ℓ κ} : {A : Type ℓ} {B : Type κ} → (A → B) → Option A → Option B
option_map f none = none
option_map f (some a) = some (f a)

scan_signed : Bytes → Option ℤ
unfolding scan_ℕ
scan_signed [] = none
scan_signed (c ∷ s) =
    if c == 45
    then option_map negative (scan_ℕ s)
    else if c == 43
    then option_map pos (scan_ℕ s)
    else option_map pos (scan_ℕ (c ∷ s))

-- `none` stands for a result other than 1.
unfoldable pub scan_int : Bytes → Option ℤ
unfolding scan_signed
scan_int [] = none
scan_int (c ∷ s) = let rest = scan_int s in if is_space c then rest else scan_signed (c ∷ s)
