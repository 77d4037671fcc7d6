-- ===== src/DumpNode/Items.antt =====
-- The bytes of a list of pairs in a dump.
use distributed_hash_table.Base.{
  ℕ, suc, ◌+◌, ◌≡◌, ◌≢◌, refl, sym, ◌∙◌, ap, List, [], ◌∷◌, ◌++◌, some, length, length-append, take,
  drop, arith,
}
use mathlib.Core.List.{append_assoc}
use distributed_hash_table.CString.{Bytes, IsText}
use distributed_hash_table.Hashtable.{KvPair}
use distributed_hash_table.Server.{trimmed}

-- A pair without NULL pointers.
pub record Item : Type 0 where
  pub key : Bytes
  pub value : Bytes

abbrev pub kv_of : Item → KvPair
kv_of i = record { key = some i.key; value = some i.value }

-- Both are C strings, and the key is not empty.
abbrev pub IsItem : Item → Type 0
IsItem i = IsText i.key × (i.key ≢ []) × IsText i.value

-- Each string with its NUL.
unfoldable pub encode : List Item → Bytes
encode [] = []
encode (i ∷ is) = i.key ++ 0 ∷ (i.value ++ 0 ∷ encode is)

-- The same without the last NUL.
unfoldable pub cut : List Item → Bytes
cut [] = []
cut (i ∷ []) = i.key ++ 0 ∷ i.value
cut (i ∷ j ∷ is) = i.key ++ 0 ∷ (i.value ++ 0 ∷ cut (j ∷ is))

pub encode-append : (is js : List Item) → encode (is ++ js) ≡ encode is ++ encode js
unfolding encode
encode-append [] js = refl
encode-append (i ∷ is) js = rw (encode-append is js) (simp append_assoc)

cut_nul : (i : Item) (is : List Item) → encode (i ∷ is) ≡ cut (i ∷ is) ++ 0 ∷ []
unfolding encode cut
cut_nul i [] = simp append_assoc
cut_nul i (j ∷ is) = rw (cut_nul j is) (simp append_assoc)

take_front : (s : Bytes) (c : ℕ) → take (length s) (s ++ c ∷ []) ≡ s
take_front [] c = refl
take_front (x ∷ s) c = ap (λ r. x ∷ r) (take_front s c)

trimmed_nul : (s : Bytes) → trimmed (s ++ 0 ∷ []) ≡ s
unfolding trimmed
trimmed_nul s = ap (λ n. take n (s ++ 0 ∷ [])) (rw length-append (omega arith)) ∙ take_front s 0

-- A datagram with pairs ends before the NUL of the last value.
pub trimmed-encode :
    (pre : Bytes) (i : Item) (is : List Item)
    → trimmed (pre ++ encode (i ∷ is)) ≡ pre ++ cut (i ∷ is)
trimmed-encode pre i is = rw (cut_nul i is) (
    ap trimmed (sym (append_assoc pre (cut (i ∷ is)) (0 ∷ []))) ∙ trimmed_nul (pre ++ cut (i ∷ is)))

pub length-cut : (i : Item) (is : List Item) → length (cut (i ∷ is)) + 1 ≡ length (encode (i ∷ is))
length-cut i is = rw (cut_nul i is, length-append) refl

drop-suc : (s rest : Bytes) (c : ℕ) → drop (suc (length s)) (s ++ c ∷ rest) ≡ rest
drop-suc [] rest c = refl
drop-suc (x ∷ s) rest c = drop-suc s rest c

-- What is behind a string and the byte after it.
pub drop-append : (s rest : Bytes) (c : ℕ) → drop (length s + 1) (s ++ c ∷ rest) ≡ rest
drop-append s rest c =
    let next : length s + 1 ≡ suc (length s) = omega arith in rw next (drop-suc s rest c)
